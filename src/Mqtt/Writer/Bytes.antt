-- ===== src/Mqtt/Writer/Bytes.antt =====
-- What the writers do, as lists of bytes: each stores one list and moves past it.
use remotus_hardware.Base.{
  ℕ, zero, suc, ◌+◌, ◌/◌, ◌%◌, ◌^◌, ◌≤◌, ◌<◌, ◌≡◌, refl, sym, ◌∙◌, Option, none, some, List, [],
  ◌∷◌, ◌++◌, ◌>>=◌, ltb, if◌then◌else◌, length, take, Acc, lt_wf, arith, lt→ltb, le→not_ltb, dec_lt,
  take_all, Bool, true, false,
}
use mathlib.Core.Path.{fun_ext}
use mathlib.Core.Logic.{dif_pos, dif_neg}
use native.Mathlib.Nat.{mod-eq_of_lt, zero-add}
use native.Mathlib.Bridge.{le_prop}
use remotus_hardware.Mqtt.Writer.{
  Writer, put, write_char, write_int, copy, write_c_string, encode_loop, encode, write_length,
  shrinks,
}

unfoldable pub write_bytes : List ℕ → Writer → Option Writer
write_bytes [] w = some w
write_bytes (b ∷ bs) w = put b w >>= write_bytes bs

-- `f` stores the bytes `bs` and nothing else.
pub record Writes (bs : List ℕ) (f : Writer → Option Writer) : Type 0 where
  pub runs : (w : Writer) → f w ≡ write_bytes bs w

bind_some {ℓ} : {A : Type ℓ} (m : Option A) → (m >>= λ a. some a) ≡ m
bind_some none = refl
bind_some (some a) = refl

bind_assoc {ℓ κ ι} :
    {A : Type ℓ} {B : Type κ} {C : Type ι} (m : Option A) (f : A → Option B) (g : B → Option C)
    → (m >>= f >>= g) ≡ (m >>= λ a. f a >>= g)
bind_assoc none f g = refl
bind_assoc (some a) f g = refl

pub write_bytes-append :
    (xs ys : List ℕ) (w : Writer) → (write_bytes xs w >>= write_bytes ys) ≡ write_bytes (xs ++ ys) w
unfolding write_bytes
write_bytes-append [] ys w = refl
write_bytes-append (x ∷ xs) ys w =
    bind_assoc (put x w) (write_bytes xs) (write_bytes ys) ∙ rw (fun_ext (write_bytes-append xs ys))

-- One write after another stores the one list after the other.
pub Writes-bind :
    {xs ys : List ℕ} {f g : Writer → Option Writer}
    → Writes xs f
    → Writes ys g
    → Writes (xs ++ ys) (λ w. f w >>= g)
Writes-bind {xs} {ys} hf hg = record {
  runs = λ w. rw (hf.runs w, fun_ext hg.runs) (write_bytes-append xs ys w);
}

put-Writes : (b : ℕ) → Writes (b ∷ []) (put b)
unfolding write_bytes
put-Writes b = record { runs = λ w. sym (bind_some (put b w)) }

pub write_char-Writes : (c : ℕ) → Writes (c % 256 ∷ []) (write_char c)
unfolding write_char
write_char-Writes c = record { runs = (put-Writes (c % 256)).runs }

-- The two bytes of a 16-bit number, the high one first.
abbrev pub int_bytes : ℕ → List ℕ
int_bytes n = n / 256 % 256 ∷ n % 256 ∷ []

pub write_int-Writes : (n : ℕ) → Writes (int_bytes n) (write_int n)
unfolding write_int
write_int-Writes n = record {
  runs = (Writes-bind (put-Writes (n / 256 % 256)) (put-Writes (n % 256))).runs;
}

copy-write_bytes :
    (n : ℕ) (from : List ℕ) (w : Writer)
    → n ≤ length from
    → copy n from w ≡ write_bytes (take n from) w
unfolding copy write_bytes
copy-write_bytes zero from w h = refl
copy-write_bytes (suc n) [] w h = absurd (omega arith)
copy-write_bytes (suc n) (b ∷ from) w h =
    rw (fun_ext (λ w'. copy-write_bytes n from w' (omega arith)))

pub copy-Writes : (n : ℕ) (from : List ℕ) → n ≤ length from → Writes (take n from) (copy n from)
copy-Writes n from h = record { runs = λ w. copy-write_bytes n from w h }

pub copy_all : (bs : List ℕ) (w : Writer) → copy (length bs) bs w ≡ write_bytes bs w
copy_all bs w = copy-write_bytes (length bs) bs w (omega arith) ∙ rw (take_all bs)

-- The digits of `n` to the base 128, lowest first, each but the last with its top bit set;
-- `k` is the number of digits after the first at most.
unfoldable pub digits : ℕ → ℕ → List ℕ
digits zero n = n ∷ []
digits (suc k) n =
    let rest = digits k (n / 128) in if ltb n 128 then n ∷ [] else (n % 128 + 128) ∷ rest

-- The remaining length field of MQTT has four bytes at most.
abbrev pub length_bytes : ℕ → List ℕ
length_bytes n = digits 3 n

encode_last :
    (n : ℕ) (w : Acc ◌<◌ n) (rc : ℕ) (out : Writer)
    → n < 128
    → encode_loop n w rc out ≡ (put n out >>= λ out'. some (rc + 1, out'))
unfolding encode_loop
encode_last n (Acc.intro _ smaller) rc out h =
    dif_neg (dec_lt 0 (n / 128)) (omega arith) _ _ ∙ rw (mod-eq_of_lt h)

fall : (n : ℕ) → 128 ≤ n → n / 128 < n
fall n h = omega arith

encode_more :
    (n : ℕ) (smaller : (m : ℕ) → m < n → Acc ◌<◌ m) (rc : ℕ) (out : Writer) (h : 128 ≤ n)
    → encode_loop n (Acc.intro n smaller) rc out
      ≡ (put (n % 128 + 128) out >>= encode_loop (n / 128) (smaller (n / 128) (fall n h)) (rc + 1))
unfolding encode_loop
encode_more n smaller rc out h =
    dif_pos (dec_lt 0 (n / 128)) le_prop (omega arith) _ _
    ∙ rw (le_prop (shrinks n (omega arith)) (fall n h))

pub digits_large : (k n : ℕ) → 128 ≤ n → digits (suc k) n ≡ (n % 128 + 128) ∷ digits k (n / 128)
unfolding digits
digits_large k n h = rw (le→not_ltb n 128 h)

add_one_left : (rc m : ℕ) → rc + 1 + m ≡ rc + suc m
add_one_left rc m = omega arith

encode_loop-digits :
    (k n : ℕ) (w : Acc ◌<◌ n) (rc : ℕ) (out : Writer)
    → n < 128 ^ suc k
    → encode_loop n w rc out
      ≡ (write_bytes (digits k n) out >>= λ out'. some (rc + length (digits k n), out'))
unfolding digits write_bytes
encode_loop-digits zero n w rc out h = encode_last n w rc out (omega arith) ∙ rw bind_some
encode_loop-digits (suc k) n (Acc.intro _ smaller) rc out h = elim (dec_lt n 128) [
  | yes small ↦ encode_last n _ rc out small ∙ rw (lt→ltb n 128 small, bind_some)
  | no large ↦
      let big : 128 ≤ n = omega arith in
      let step = smaller (n / 128) (fall n big) in
      encode_more n smaller rc out big
      ∙ rw
          (
            digits_large k n big,
            fun_ext (λ out'. encode_loop-digits k (n / 128) step (rc + 1) out' (omega arith)),
            bind_assoc,
          )
          (simp (add_one_left rc))
]

-- The bytes of MQTTPacket_encode, and the count that it returns.
pub encode_lem :
    (n : ℕ) (w : Writer)
    → n < 2 ^ 28
    → encode n w ≡ (write_bytes (length_bytes n) w >>= λ w'. some (length (length_bytes n), w'))
unfolding encode
encode_lem n w h = encode_loop-digits 3 n (lt_wf.apply n) 0 w (omega arith) ∙ simp zero-add

pub write_length-Writes : (n : ℕ) → n < 2 ^ 28 → Writes (length_bytes n) (write_length n)
unfolding write_length
write_length-Writes n h = record { runs = λ w. rw (encode_lem n w h, bind_assoc, bind_some) }

pub write_c_string-Writes :
    (string : List ℕ) → Writes (int_bytes (length string) ++ string) (write_c_string string)
unfolding write_c_string
write_c_string-Writes string = record {
  runs =
      rw take_all at
        (Writes-bind (write_int-Writes (length string))
          (copy-Writes (length string) string (omega arith))).runs;
}

-- A byte is stored as it is.
pub write_byte-Writes : (c : ℕ) → c < 256 → Writes (c ∷ []) (write_char c)
write_byte-Writes c h = rw (mod-eq_of_lt h) at (write_char-Writes c)

-- A branch that stores nothing.
pub Writes-skip : Writes [] (λ w. some w)
unfolding write_bytes
Writes-skip = record { runs = λ w. refl }

-- A branch on a test that the writes do not change.
pub Writes-if :
    {xs ys : List ℕ} {f g : Writer → Option Writer} (b : Bool)
    → Writes xs f
    → Writes ys g
    → Writes (if b then xs else ys) (λ w. if b then f w else g w)
Writes-if true hf hg = record { runs = hf.runs }
Writes-if false hf hg = record { runs = hg.runs }
