-- ===== src/Mqtt/Client/Cycle/Deliver.antt =====
-- Which callbacks get a message.
use remotus_hardware.Base.{
  ℕ, ◌≡◌, refl, sym, ap, ◌∙◌, ◌↔◌, Bool, Bool-cases, inl, inr, true, false, ◌||◌, Option, none,
  some, List, [], ◌∷◌, ◌++◌, map, if◌then◌else◌, ℤ, is_nat, arith, length-append, take-append,
}
use remotus_hardware.Mqtt.Text.Laws.{equals_lem}
use remotus_hardware.Mqtt.Client.Topic.Laws.{
  Filter, Name, IsFilter, IsName, print_filter, print_name, same, accepts, name_string,
  is_topic_matched_lem,
}
use remotus_hardware.Mqtt.Client.Run.{done, ◌>>=◌}
use remotus_hardware.Mqtt.Client.State.{Env, Client, MessageData, MessageHandler, success, failure}
use remotus_hardware.Mqtt.Client.Cycle.{
  handles, handler_matches, call_attached, deliver_loop, deliver_message,
}

-- A member of messageHandlers with its filter as levels.
pub record Slot : Type 0 where
  pub filter : Option Filter
  pub fp : Option ℕ

abbrev print_slot_filter : Option Filter → Option (List ℕ)
print_slot_filter none = none
print_slot_filter (some f) = some (print_filter f)

abbrev pub print_slot : Slot → MessageHandler
print_slot s = record { topic_filter = print_slot_filter s.filter; fp = s.fp }

abbrev IsOptionFilter : Option Filter → Type 0
IsOptionFilter none = Unit {0}
IsOptionFilter (some f) = IsFilter f

abbrev pub AreSlots : List Slot → Type 0
AreSlots [] = Unit {0}
AreSlots (s ∷ ss) = IsOptionFilter s.filter × AreSlots ss

-- The filter is the name itself, or agrees with it level by level.
abbrev pub takes : Option Filter → Name → Bool
takes none n = false
takes (some f) n = same (print_name n) (print_filter f) || accepts f n

abbrev listed : Option ℕ → List ℕ
listed none = []
listed (some f) = f ∷ []

-- The callbacks attached to the members that take the name, in their order.
abbrev pub matching : List Slot → Name → List ℕ
matching [] n = []
matching (s ∷ ss) n = (if takes s.filter n then listed s.fp else []) ++ matching ss n

abbrev or_default : List ℕ → Option ℕ → List ℕ
or_default [] default = listed default
or_default (f ∷ fs) default = f ∷ fs

-- These, or the default callback where there are none.
abbrev pub receivers : List Slot → Option ℕ → Name → List ℕ
receivers slots default n = or_default (matching slots n) default

abbrev pub call_all : {W : Type 0} → Env W → MessageData → List ℕ → W → W
call_all env md [] w = w
call_all env md (f ∷ fs) w = call_all env md fs (env.call f md w)

abbrev pub result_for : List ℕ → ℤ
result_for [] = failure
result_for (_ ∷ _) = success

same_iff : (a b : List ℕ) → (same a b ≡ true) ↔ (a ≡ b)
same_iff [] [] = ((λ _. refl), (λ _. refl))
same_iff [] (y ∷ b) = ((λ p. cc), (λ p. cc))
same_iff (x ∷ a) [] = ((λ p. cc), (λ p. cc))
same_iff (x ∷ a) (y ∷ b) =
    ((λ p. ground (arith, (same_iff a b).0)), (λ p. ground (arith, (same_iff a b).1)))

decided : (r b : Bool) (P : Type 0) → (r ≡ true) ↔ P → (b ≡ true) ↔ P → r ≡ b
decided true true P p q = refl
decided false false P p q = refl
decided true false P p q = sym (q.1 (p.0 refl))
decided false true P p q = p.1 (q.0 refl)

handles_lem :
    (f : Filter) (n : Name) (beyond : List ℕ)
    → IsFilter f
    → IsName n
    → handles (print_filter f) (name_string n beyond) ≡ some (takes (some f) n)
unfolding handles
handles_lem f n beyond p q =
    let (r, run, iff) =
      equals_lem (name_string n beyond) (print_filter f)
        (omega (arith, length-append (print_name n) beyond)) in
    let e =
      decided r (same (print_name n) (print_filter f)) _
        (rw (take-append (print_name n) beyond) at iff)
        (same_iff (print_name n) (print_filter f)) in
    elim (Bool-cases (same (print_name n) (print_filter f))) [
      | inl y ↦ rw (run, e, y) refl
      | inr no_match ↦ rw (run, e, no_match) (is_topic_matched_lem f n beyond p q)
    ]

handler_matches_lem :
    (f : Option Filter) (n : Name) (beyond : List ℕ)
    → IsOptionFilter f
    → IsName n
    → handler_matches (print_slot_filter f) (name_string n beyond) ≡ some (takes f n)
unfolding handler_matches
handler_matches_lem none n beyond p q = refl
handler_matches_lem (some f) n beyond p q = handles_lem f n beyond p q

-- `rc` after the callbacks of a list
abbrev result_after : ℤ → List ℕ → ℤ
result_after rc [] = rc
result_after rc (_ ∷ _) = success

result_after-success : (fs : List ℕ) → result_after success fs ≡ success
result_after-success [] = refl
result_after-success (_ ∷ _) = refl

module _ {W : Type 0} (env : Env W) (n : Name) (md : MessageData) (beyond : List ℕ)
    (named : md.topic_name ≡ name_string n beyond) (is_name : IsName n) where
  -- What the loop does behind one member.
  abbrev Loops : List Slot → ℤ → W → Type 0
  Loops ss rc w =
      deliver_loop env (map print_slot ss) md (rc, w)
      ≡ done (result_after rc (matching ss n), call_all env md (matching ss n) w)

  behind_member :
      (ss : List Slot) (b : Bool) (fp : Option ℕ) (rc : ℤ) (w : W)
      → ((rc' : ℤ) (w' : W) → Loops ss rc' w')
      → deliver_loop env
          (map print_slot ss)
          md
          (if b then call_attached env fp md (rc, w) else (rc, w))
        ≡ done (
          result_after rc ((if b then listed fp else []) ++ matching ss n),
          call_all env md ((if b then listed fp else []) ++ matching ss n) w,
        )
  unfolding call_attached
  behind_member ss false fp rc w ih = ih rc w
  behind_member ss true none rc w ih = ih rc w
  behind_member ss true (some f) rc w ih =
      ih success (env.call f md w) ∙ rw (result_after-success (matching ss n)) refl

  deliver_loop_lem : (slots : List Slot) (rc : ℤ) (w : W) → AreSlots slots → Loops slots rc w
  unfolding deliver_loop
  deliver_loop_lem [] rc w p = refl
  deliver_loop_lem (s ∷ ss) rc w (p, ps) =
      rw
        (ap (handler_matches (print_slot_filter s.filter)) named
          ∙ handler_matches_lem s.filter n beyond p is_name)
        (behind_member ss (takes s.filter n) s.fp rc w (λ rc' w'. deliver_loop_lem ss rc' w' ps))

  default_called :
      (fs : List ℕ) (default : Option ℕ) (c : Client W)
      → (done (result_after failure fs, call_all env md fs c.ipstack) >>= λ (rc, w).
          (let s : ℤ × W = if is_nat rc 0 then (rc, w) else call_attached env default md (rc, w) in
            let r : ℤ × Client W = (s.0, record c { ipstack = s.1 }) in done r))
        ≡ done (
          result_for (or_default fs default),
          record c { ipstack = call_all env md (or_default fs default) c.ipstack },
        )
  unfolding call_attached
  default_called [] none c = refl
  default_called [] (some f) c = refl
  default_called (f ∷ fs) default c = refl

  -- deliverMessage for a message whose topic is a name in the correct format, whatever bytes follow it,
  -- where the filters of the handlers are in the correct format: it calls, with that message and in the
  -- order of the handlers, the callbacks of exactly those handlers that have one attached and whose
  -- filter is the name itself or agrees with it level by level; the default callback where there are
  -- none. It answers SUCCESS if a callback was called and FAILURE if none was, and changes nothing else
  -- of the client.
  pub deliver_message_lem :
      (slots : List Slot) (c : Client W)
      → AreSlots slots
      → c.message_handlers ≡ map print_slot slots
      → deliver_message env md c
        ≡ done (
          result_for (receivers slots c.default_message_handler n),
          record c {
            ipstack = call_all env md (receivers slots c.default_message_handler n) c.ipstack;
          },
        )
  unfolding deliver_message
  deliver_message_lem slots c p e =
      rw
        (ap (λ hs. deliver_loop env hs md (failure, c.ipstack)) e
          ∙ deliver_loop_lem slots failure c.ipstack p)
        (default_called (matching slots n) c.default_message_handler c)
