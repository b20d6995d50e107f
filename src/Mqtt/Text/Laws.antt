-- ===== src/Mqtt/Text/Laws.antt =====
-- What an MQTTString stands for, and that writing and comparing go by it.
use remotus_hardware.Base.{
  ℕ, zero, suc, ◌≤◌, ◌≡◌, refl, ◌↔◌, ◌==◌, ◌&&◌, Bool, true, false, Option, none, some, List, [],
  ◌∷◌, ◌++◌, length, take, arith, length-take, lt→ltb, ap, ℕ_discrete, ==_iff, not_eq, take_all,
  subst,
}
use remotus_hardware.Mqtt.Writer.Bytes.{Writes, int_bytes, Writes-bind, write_int-Writes}
use remotus_hardware.Mqtt.Writer.Bytes.{copy-Writes, write_c_string-Writes}
use remotus_hardware.Mqtt.Writer.{Writer}
use remotus_hardware.Mqtt.Writer.Bytes.{write_bytes}
use remotus_hardware.Mqtt.Text.{MqttString, str_len_of, str_len, write_mqtt_string}
use remotus_hardware.Mqtt.Text.{strncmp_eq, compare_counted, compare_part, equals}

-- The text that an MQTTString stands for, and when it stands for one: not both members are set, and
-- the counted bytes lie inside their object.
abbrev pub content_of : Option (List ℕ) → ℕ → Option (List ℕ) → List ℕ
content_of (some string) len bytes = string
content_of none len (some bytes) = take len bytes
content_of none len none = []

abbrev pub IsTextOf : Option (List ℕ) → ℕ → Option (List ℕ) → Type 0
IsTextOf (some string) len bytes = len ≡ 0
IsTextOf none len (some bytes) = len ≤ length bytes
IsTextOf none len none = len ≡ 0

abbrev pub content : MqttString → List ℕ
content s = content_of s.cstring s.lenstring.len s.lenstring.bytes

abbrev pub IsText : MqttString → Type 0
IsText s = IsTextOf s.cstring s.lenstring.len s.lenstring.bytes

-- The bytes of a string in a packet.
abbrev pub string_bytes : List ℕ → List ℕ
string_bytes text = int_bytes (length text) ++ text

-- A text as it is read: a pointer to it in the packet, with its length.
abbrev pub counted : List ℕ → List ℕ → MqttString
counted text rest = record {
  cstring = none;
  lenstring = record { len = length text; bytes = some (text ++ rest) };
}

str_len_of-content :
    (c : Option (List ℕ)) (n : ℕ) (d : Option (List ℕ))
    → IsTextOf c n d
    → str_len_of c n ≡ length (content_of c n d)
unfolding str_len_of
str_len_of-content (some string) n d h = refl
str_len_of-content none n (some bytes) h = omega (arith, length-take n bytes h)
str_len_of-content none n none h = h

-- MQTTstrlen is the length of the text.
pub str_len-content : (s : MqttString) → IsText s → str_len s ≡ length (content s)
unfolding str_len
str_len-content s h = str_len_of-content s.cstring s.lenstring.len s.lenstring.bytes h

write_text :
    (c : Option (List ℕ)) (n : ℕ) (d : Option (List ℕ)) (w : Writer)
    → IsTextOf c n d
    → write_mqtt_string (record { cstring = c; lenstring = record { len = n; bytes = d } }) w
      ≡ write_bytes (string_bytes (content_of c n d)) w
unfolding write_mqtt_string
write_text (some string) n d w h = rw h ((write_c_string-Writes string).runs w)
write_text none zero (some bytes) w h = (write_int-Writes 0).runs w
write_text none (suc n) (some bytes) w h =
    rw (lt→ltb 0 (suc n) (omega arith), length-take (suc n) bytes h)
      ((Writes-bind (write_int-Writes (suc n)) (copy-Writes (suc n) bytes h)).runs w)
write_text none n none w h = rw h ((write_int-Writes 0).runs w)

-- writeMQTTString stores the length of the text in two bytes and then the text.
pub write_mqtt_string-Writes :
    (s : MqttString) → IsText s → Writes (string_bytes (content s)) (write_mqtt_string s)
write_mqtt_string-Writes s h = record {
  runs = λ w. write_text s.cstring s.lenstring.len s.lenstring.bytes w h;
}

strncmp_eq-take :
    (n : ℕ) (a b : List ℕ)
    → n ≤ length a
    → n ≡ length b
    → (r : Bool) × (strncmp_eq n a b ≡ some r) × ((r ≡ true) ↔ (take n a ≡ b))
unfolding strncmp_eq
strncmp_eq-take zero a [] h e = (true, refl, ((λ _. refl), (λ _. refl)))
strncmp_eq-take zero a (y ∷ b) h e = absurd (omega arith)
strncmp_eq-take (suc n) [] b h e = absurd (omega arith)
strncmp_eq-take (suc n) (x ∷ a) [] h e = absurd (omega arith)
strncmp_eq-take (suc n) (x ∷ a) (y ∷ b) h e =
    let (r, run, iff) = strncmp_eq-take n a b (omega arith) (omega arith) in
    (x == y && r, ground arith, ground arith)

-- What the comparison answers: whether the two texts are equal.
abbrev Decides : Option Bool → List ℕ → List ℕ → Type 0
Decides run a b = (r : Bool) × (run ≡ some r) × ((r ≡ true) ↔ (a ≡ b))

compare_counted-take :
    (n : ℕ) (from b : List ℕ)
    → n ≤ length from
    → Decides (compare_counted n (some from) b) (take n from) b
unfolding compare_counted
compare_counted-take n from b h = elim (ℕ_discrete n (length b)) [
  | yes e ↦ rw ((==_iff n (length b)).1 e) (strncmp_eq-take n from b h e)
  | no e ↦ (false, rw (not_eq n (length b) e), ((λ p. cc), (λ p. absurd (e (long p)))))
]
  where
    long : take n from ≡ b → n ≡ length b
    long p = omega (arith, length-take n from h, ap length p)

compare_part-content :
    (c : Option (List ℕ)) (n : ℕ) (d : Option (List ℕ)) (b : List ℕ)
    → IsTextOf c n d
    → Decides (compare_part c (record { len = n; bytes = d }) b) (content_of c n d) b
unfolding compare_part
compare_part-content (some string) n d b h =
    subst (λ t. Decides (compare_counted (length string) (some string) b) t b) (take_all string)
      (compare_counted-take (length string) string b (omega arith))
compare_part-content none n (some bytes) b h = compare_counted-take n bytes b h
compare_part-content none n none [] h =
    (true, (unfold compare_counted in rw h refl), ((λ _. refl), (λ _. refl)))
compare_part-content none n none (x ∷ b) h =
    (false, (unfold compare_counted in rw h (ground arith)), ((λ p. cc), (λ p. cc)))

-- MQTTPacket_equals reads inside its objects, and answers whether the text is the C string.
pub equals_lem : (a : MqttString) (b : List ℕ) → IsText a → Decides (equals a b) (content a) b
unfolding equals
equals_lem a b h = compare_part-content a.cstring a.lenstring.len a.lenstring.bytes b h
