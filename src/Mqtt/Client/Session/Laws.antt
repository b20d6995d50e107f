-- ===== src/Mqtt/Client/Session/Laws.antt =====
-- The handlers that subscribe attaches, and the result of connect with a publish in flight.
use remotus_hardware.Base.{
  ℕ, ◌≡◌, ◌≢◌, refl, ap, ◌∙◌, Bool-cases, inl, inr, Bool, true, false, Option, none, some, List, [],
  ◌∷◌, ◌++◌, ◌==◌, if◌then◌else◌, pos, not_eq,
}
use remotus_hardware.Mqtt.Client.State.{Env, Client, MessageHandler, success}
use remotus_hardware.Mqtt.Client.Session.{attach_at, attach, attach_granted, close_on_failure}

abbrev pub HasFilter : Option (List ℕ) → Type 0
HasFilter none = ⊥
HasFilter (some _) = Unit {0}

-- Every member has a filter.
abbrev pub AllTaken : List MessageHandler → Type 0
AllTaken [] = Unit {0}
AllTaken (h ∷ hs) = HasFilter h.topic_filter × AllTaken hs

attach_at_taken :
    (t : Option (List ℕ)) (filter : List ℕ) (mh : Option ℕ) (h : MessageHandler)
    (hs : List MessageHandler) (rest : Bool × List MessageHandler)
    → HasFilter t
    → attach_at t filter mh h hs rest ≡ (rest.0, h ∷ rest.1)
unfolding attach_at
attach_at_taken none filter mh h hs rest p = absurd p
attach_at_taken (some f) filter mh h hs rest p = refl

attach_taken :
    (filter : List ℕ) (mh : Option ℕ) (taken hs : List MessageHandler)
    → AllTaken taken
    → attach filter mh (taken ++ hs) ≡ ((attach filter mh hs).0, taken ++ (attach filter mh hs).1)
unfolding attach
attach_taken filter mh [] hs p = refl
attach_taken filter mh (h ∷ taken) hs (p, ps) =
    attach_at_taken h.topic_filter filter mh h (taken ++ hs) (attach filter mh (taken ++ hs)) p
    ∙ ap (λ (r : Bool × List MessageHandler). (r.0, h ∷ r.1)) (attach_taken filter mh taken hs ps)

attach_full :
    (filter : List ℕ) (mh : Option ℕ) (taken : List MessageHandler)
    → AllTaken taken
    → attach filter mh taken ≡ (false, taken)
unfolding attach
attach_full filter mh [] p = refl
attach_full filter mh (h ∷ taken) (p, ps) =
    attach_at_taken h.topic_filter filter mh h taken (attach filter mh taken) p
    ∙ ap (λ (r : Bool × List MessageHandler). (r.0, h ∷ r.1)) (attach_full filter mh taken ps)

attach_free :
    (filter : List ℕ) (mh : Option ℕ) (h : MessageHandler) (hs : List MessageHandler)
    → h.topic_filter ≡ none
    → attach filter mh (h ∷ hs) ≡ (true, record { topic_filter = some filter; fp = mh } ∷ hs)
unfolding attach attach_at
attach_free filter mh h hs e = ap (λ t. attach_at t filter mh h hs (attach filter mh hs)) e

module _ {W : Type 0} (env : Env W) (fuel : ℕ) where
  -- subscribe behind a suback that grants the QoS `q`, where that is not the failure 0x80: if some
  -- handlers without a filter follow a number of handlers with one, the first of them gets the filter
  -- and the callback, all others stay, and the client answers SUCCESS; if every handler has a filter,
  -- none is attached, and the client answers the QoS and, if that is above 0, counts as closed.
  pub subscribe_attaches :
      (filter : List ℕ) (mh : Option ℕ) (q : ℕ) (c : Client W) (taken rest : List MessageHandler)
      (h : MessageHandler)
      → q ≢ 0x80
      → AllTaken taken
      → h.topic_filter ≡ none
      → (close_on_failure (
            attach_granted env fuel filter mh
              (pos q, record c { message_handlers = taken ++ (h ∷ rest) }))
          ≡ (
            success,
            record c {
              message_handlers = taken ++ (record { topic_filter = some filter; fp = mh } ∷ rest);
            },
          ))
        × (close_on_failure
              (attach_granted env fuel filter mh (pos q, record c { message_handlers = taken }))
            ≡ (
              pos q,
              record c {
                message_handlers = taken;
                isconnected = if q == 0 then c.isconnected else false;
              },
            ))
  unfolding attach_granted close_on_failure
  subscribe_attaches filter mh q c taken rest h granted all free = (
    rw
        (
          attach_taken filter mh taken (h ∷ rest) all,
          attach_free filter mh h rest free,
          not_eq q 0x80 granted,
        )
        refl,
    elim (Bool-cases (q == 0)) [
      | inl y ↦ rw (attach_full filter mh taken all, not_eq q 0x80 granted, y) refl
      | inr n ↦ rw (attach_full filter mh taken all, not_eq q 0x80 granted, n) refl
    ],
  )
