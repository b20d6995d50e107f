-- ===== src/Mqtt/Client/Topic/Laws.antt =====
-- isTopicMatched against the levels of filters and names.
use remotus_hardware.Base.{
  ℕ, suc, ◌≡◌, ◌≢◌, refl, sym, ap, ◌∙◌, Bool, true, false, ◌&&◌, Option, none, some, List, [], ◌∷◌,
  ◌++◌, ◌==◌, if◌then◌else◌, length, arith, append-nil, append_assoc,
}
use remotus_hardware.Mqtt.Text.{MqttString}
use remotus_hardware.Mqtt.Client.Topic.{
  slash, plus, hash, skip_level, match_from, match_name, is_topic_matched,
}

pub data Level : Type 0 where
  word : List ℕ → Level
  any_word : Level

-- A filter has a level at least; the wildcard for all that follows stands at its end only.
pub data Filter : Type 0 where
  ends : Level → Filter
  any_rest : Filter
  then_filter : Level → Filter → Filter

-- A name has a level at least.
pub data Name : Type 0 where
  last : List ℕ → Name
  then_name : List ℕ → Name → Name

abbrev pub print_level : Level → List ℕ
print_level (word w) = w
print_level any_word = plus ∷ []

abbrev pub print_filter : Filter → List ℕ
print_filter (ends l) = print_level l
print_filter any_rest = hash ∷ []
print_filter (then_filter l f) = print_level l ++ (slash ∷ print_filter f)

abbrev pub print_name : Name → List ℕ
print_name (last l) = l
print_name (then_name l n) = l ++ (slash ∷ print_name n)

-- No separator; and no wildcard either.
abbrev pub IsLevel : List ℕ → Type 0
IsLevel [] = Unit {0}
IsLevel (c ∷ l) = (c ≢ slash) × IsLevel l

abbrev pub IsWord : List ℕ → Type 0
IsWord [] = Unit {0}
IsWord (c ∷ w) = (c ≢ slash) × (c ≢ plus) × (c ≢ hash) × IsWord w

abbrev pub IsFilterLevel : Level → Type 0
IsFilterLevel (word w) = IsWord w
IsFilterLevel any_word = Unit {0}

abbrev pub IsFilter : Filter → Type 0
IsFilter (ends l) = IsFilterLevel l
IsFilter any_rest = Unit {0}
IsFilter (then_filter l f) = IsFilterLevel l × IsFilter f

abbrev pub IsName : Name → Type 0
IsName (last l) = IsLevel l
IsName (then_name l n) = IsLevel l × IsName n

abbrev pub same : List ℕ → List ℕ → Bool
same [] [] = true
same [] (_ ∷ _) = false
same (_ ∷ _) [] = false
same (a ∷ as') (b ∷ bs) = a == b && same as' bs

abbrev pub is_nonempty : List ℕ → Bool
is_nonempty [] = false
is_nonempty (_ ∷ _) = true

-- A wildcard takes a level that is not empty.
abbrev pub accepts_level : Level → List ℕ → Bool
accepts_level (word w) l = same w l
accepts_level any_word l = is_nonempty l

-- Level by level; the wildcard for the rest takes a rest whose first level is not empty.
abbrev pub accepts : Filter → Name → Bool
accepts (ends f) (last l) = accepts_level f l
accepts (ends f) (then_name l n) = false
accepts any_rest (last l) = is_nonempty l
accepts any_rest (then_name l n) = is_nonempty l
accepts (then_filter f fs) (last l) = false
accepts (then_filter f fs) (then_name l n) = accepts_level f l && accepts fs n

-- The count of a level's characters and more.
abbrev add_length : List ℕ → ℕ → ℕ
add_length [] k = k
add_length (_ ∷ l) k = suc (add_length l k)

-- What follows a level: the end of the text, with bytes that do not belong to it, or a separator.
data Rest : Type 0 where
  over : List ℕ → Rest
  more : ℕ → List ℕ → Rest

abbrev left : Rest → ℕ
left (over b) = 0
left (more k b) = suc k

abbrev bytes_of : Rest → List ℕ
bytes_of (over b) = b
bytes_of (more k b) = slash ∷ b

-- the same for a filter
abbrev cut : Option (List ℕ) → List ℕ
cut none = []
cut (some f) = slash ∷ f

match_word :
    (w l : List ℕ) (f : Option (List ℕ)) (r : Rest)
    → IsWord w
    → IsLevel l
    → match_from (w ++ cut f) (add_length l (left r)) (l ++ bytes_of r)
      ≡ (if same w l then match_from (cut f) (left r) (bytes_of r) else some false)
unfolding match_from
match_word [] [] f r p q = refl
match_word [] (c ∷ l) none r p q = ground arith
match_word [] (c ∷ l) (some f) r p q = ground arith
match_word (x ∷ w) [] f (over b) p q = refl
match_word (x ∷ w) [] f (more k b) p q = ground arith
match_word (x ∷ w) (c ∷ l) f r p q = ground (arith, match_word w l f r p.3 q.1)

skip-level :
    (l : List ℕ) (r : Rest)
    → IsLevel l
    → skip_level (add_length l (left r)) (l ++ bytes_of r) ≡ some (left r, bytes_of r)
unfolding skip_level
skip-level [] (over b) q = refl
skip-level [] (more k b) q = refl
skip-level (c ∷ l) r q = ground (arith, skip-level l r q.1)

match_any_word :
    (l : List ℕ) (f : Option (List ℕ)) (r : Rest)
    → IsLevel l
    → match_from (plus ∷ cut f) (add_length l (left r)) (l ++ bytes_of r)
      ≡ (if is_nonempty l then match_from (cut f) (left r) (bytes_of r) else some false)
unfolding match_from
match_any_word [] f (over b) q = refl
match_any_word [] f (more k b) q = refl
match_any_word (c ∷ l) f r q = rw (skip-level l r q.1) (ground arith)

match_level :
    (t : Level) (l : List ℕ) (f : Option (List ℕ)) (r : Rest)
    → IsFilterLevel t
    → IsLevel l
    → match_from (print_level t ++ cut f) (add_length l (left r)) (l ++ bytes_of r)
      ≡ (if accepts_level t l then match_from (cut f) (left r) (bytes_of r) else some false)
match_level (word w) l f r p q = match_word w l f r p q
match_level any_word l f r p q = match_any_word l f r q

match_any_rest :
    (l : List ℕ) (r : Rest)
    → IsLevel l
    → match_from (hash ∷ []) (add_length l (left r)) (l ++ bytes_of r) ≡ some (is_nonempty l)
unfolding match_from
match_any_rest [] (over b) q = refl
match_any_rest [] (more k b) q = refl
match_any_rest (c ∷ l) r q = ground arith

name_length : Name → ℕ
name_length (last l) = add_length l 0
name_length (then_name l n) = add_length l (suc (name_length n))

name_bytes : Name → List ℕ → List ℕ
name_bytes (last l) b = l ++ b
name_bytes (then_name l n) b = l ++ (slash ∷ name_bytes n b)

match_levels :
    (f : Filter) (n : Name) (b : List ℕ)
    → IsFilter f
    → IsName n
    → match_from (print_filter f) (name_length n) (name_bytes n b) ≡ some (accepts f n)
unfolding match_from name_length name_bytes
match_levels (ends t) (last l) b p q =
    let h = match_level t l none (over b) p q in let h' = rw append-nil at h in ground (arith, h')
match_levels (ends t) (then_name l n) b p q =
    let h = match_level t l none (more (name_length n) (name_bytes n b)) p q.0 in
    let h' = rw append-nil at h in ground (arith, h')
match_levels any_rest (last l) b p q = match_any_rest l (over b) q
match_levels any_rest (then_name l n) b p q =
    match_any_rest l (more (name_length n) (name_bytes n b)) q.0
match_levels (then_filter t f) (last l) b p q =
    let h = match_level t l (some (print_filter f)) (over b) p.0 q in ground (arith, h)
match_levels (then_filter t f) (then_name l n) b p q =
    let h =
      match_level t l (some (print_filter f)) (more (name_length n) (name_bytes n b)) p.0 q.0 in
    ground (arith, h, match_levels f n b p.1 q.1)

length-add_length : (l m : List ℕ) → length (l ++ m) ≡ add_length l (length m)
length-add_length [] m = refl
length-add_length (_ ∷ l) m = ap suc (length-add_length l m)

length-print_name : (n : Name) → length (print_name n) ≡ name_length n
unfolding name_length
length-print_name (last l) = ap length (sym (append-nil l)) ∙ length-add_length l []
length-print_name (then_name l n) =
    length-add_length l (slash ∷ print_name n)
    ∙ ap (λ k. add_length l (suc k)) (length-print_name n)

print_name-bytes : (n : Name) (b : List ℕ) → print_name n ++ b ≡ name_bytes n b
unfolding name_bytes
print_name-bytes (last l) b = refl
print_name-bytes (then_name l n) b =
    append_assoc l (slash ∷ print_name n) b
    ∙ ap (λ (m : List ℕ). l ++ (slash ∷ m)) (print_name-bytes n b)

-- A name in a packet: its characters, with other bytes behind them.
abbrev pub name_string : Name → List ℕ → MqttString
name_string n beyond = record {
  cstring = none;
  lenstring = record { len = length (print_name n); bytes = some (print_name n ++ beyond) };
}

-- isTopicMatched on a filter and a name in the correct format, written as their levels, whatever bytes
-- follow the name, answers whether they agree level by level: a word takes the level that is equal to
-- it, `+` takes any one level that is not empty, and `#` takes the rest of the name if the first level
-- of that rest is not empty. It reads no byte past the name.
pub is_topic_matched_lem :
    (f : Filter) (n : Name) (beyond : List ℕ)
    → IsFilter f
    → IsName n
    → is_topic_matched (print_filter f) (name_string n beyond) ≡ some (accepts f n)
unfolding is_topic_matched match_name
is_topic_matched_lem f n beyond p q =
    rw (length-print_name n, print_name-bytes n beyond) (match_levels f n beyond p q)
