-- ===== src/Mqtt/Reader/Bytes.antt =====
-- What the readers return where the bytes of a packet follow.
use remotus_hardware.Base.{
  ℕ, zero, suc, ◌+◌, ◌*◌, ◌/◌, ◌%◌, ◌^◌, ◌≤◌, ◌<◌, ◌≡◌, refl, ap, ◌∙◌, true, Option, some, List,
  ◌∷◌, ◌++◌, ◌>>=◌, [], drop, length, drop-append, arith, dec_lt, lt→ltb, le→leb, ℤ, pos,
}
use native.Mathlib.Nat.{div-add-mod}
use remotus_hardware.Mqtt.Text.{MqttString}
use remotus_hardware.Mqtt.Text.Laws.{string_bytes, counted}
use remotus_hardware.Mqtt.Writer.Bytes.{int_bytes, digits, digits_large, length_bytes, encode_lem}
use remotus_hardware.Mqtt.Writer.{encode, start}
use remotus_hardware.Mqtt.Writer.Reply.{write_bytes_room}
use remotus_hardware.Mqtt.Reader.{
  Reader, read_char, read_int, read_len_string, decode_loop, decode, bufchar, decode_buf,
  read_length,
}

-- The pointer `n` bytes into a packet, with the bytes that follow.
abbrev pub at : ℕ → List ℕ → Reader
at n rest = record { offset = n; rest = rest }

pub read_char-at :
    (p b : ℕ) (rest : List ℕ) → read_char (at p (b ∷ rest)) ≡ some (b, at (p + 1) rest)
unfolding read_char
read_char-at p b rest = refl

-- readInt gives back the number that writeInt stored.
pub read_int-at :
    (p n : ℕ) (rest : List ℕ)
    → n < 65536
    → read_int (at p (int_bytes n ++ rest)) ≡ some (n, at (p + 2) rest)
unfolding read_int
read_int-at p n rest h = ground arith

read_text_length :
    (p : ℕ) (text rest : List ℕ)
    → length text < 65536
    → read_int (at p (string_bytes text ++ rest)) ≡ some (length text, at (p + 2) (text ++ rest))
read_text_length p text rest h = read_int-at p (length text) (text ++ rest) h

-- readMQTTLenString gives back the text that writeMQTTString stored, if it ends by `enddata`.
pub read_len_string-at :
    (s : MqttString) (p enddata : ℕ) (text rest : List ℕ)
    → length text < 65536
    → p + 2 + length text ≤ enddata
    → read_len_string s (at p (string_bytes text ++ rest)) enddata
      ≡ some (true, counted text rest, at (p + 2 + length text) rest)
unfolding read_len_string
read_len_string-at s p enddata text rest short fits = rw (
  lt→ltb (p + 1) enddata (omega arith),
  read_text_length p text rest short,
  le→leb (p + 2 + length text) enddata fits,
  drop-append text rest,
)

top_set : (n : ℕ) → n < 128 → (n + 128) / 128 % 2 ≡ 1
top_set n h = omega arith

low_part : (n : ℕ) → n < 128 → (n + 128) % 128 ≡ n
low_part n h = omega arith

-- One round of MQTTPacket_decode, on a last digit and on one that another follows.
module _ {S : Type 0} (getcharfn : ℕ → S → Option (ℤ × ℕ × S)) (tries len m v n : ℕ)
    (s s' : S) where
  pub decode_last :
      n < 128
      → getcharfn 1 s ≡ some (pos 1, n, s')
      → decode_loop getcharfn (suc tries) len m v s ≡ some (len + 1, v + n * m, s')
  unfolding decode_loop
  decode_last h got = rw got (ground arith)

  pub decode_more :
      n < 128
      → getcharfn 1 s ≡ some (pos 1, n + 128, s')
      → decode_loop getcharfn (suc tries) len m v s
        ≡ decode_loop getcharfn tries (len + 1) (m * 128) (v + n * m) s'
  unfolding decode_loop
  decode_more h got = rw (got, top_set n h, low_part n h) refl

-- bufchar gives the character at `bufptr`.
bufchar_one : (b : ℕ) (rest : List ℕ) → bufchar 1 (b ∷ rest) ≡ some (pos 1, b, rest)
unfolding bufchar
bufchar_one b rest = refl

pub split_digit : (n m : ℕ) → n % 128 * m + n / 128 * (m * 128) ≡ n * m
split_digit n m = omega (arith, ap (λ (t : ℕ). t * m) (div-add-mod n 128))

decode_loop-digits :
    (k n len m v : ℕ) (rest : List ℕ)
    → n < 128 ^ suc k
    → decode_loop bufchar (suc k) len m v (digits k n ++ rest)
      ≡ some (len + length (digits k n), v + n * m, rest)
unfolding digits
decode_loop-digits zero n len m v rest h =
    decode_last bufchar 0 len m v n (n ∷ rest) rest (omega arith) (bufchar_one n rest)
decode_loop-digits (suc k) n len m v rest h = elim (dec_lt n 128) [
  | yes small ↦
      rw (lt→ltb n 128 small)
        (decode_last bufchar (suc k) len m v n (n ∷ rest) rest small (bufchar_one n rest))
  | no large ↦ rw (digits_large k n (omega arith)) (
      decode_more bufchar (suc k) len m v (n % 128) ((n % 128 + 128) ∷ digits k (n / 128) ++ rest)
        (digits k (n / 128) ++ rest) (omega arith)
        (bufchar_one (n % 128 + 128) (digits k (n / 128) ++ rest))
      ∙ decode_loop-digits k (n / 128) (len + 1) (m * 128) (v + n % 128 * m) rest (omega arith)
      ∙ ground (arith, split_digit n m))
]

-- MQTTPacket_decodeBuf gives back the remaining length that MQTTPacket_encode stored.
pub decode_buf-length_bytes :
    (n : ℕ) (rest : List ℕ)
    → n < 2 ^ 28
    → decode_buf (length_bytes n ++ rest) ≡ some (length (length_bytes n), n)
unfolding decode_buf decode
decode_buf-length_bytes n rest h =
    rw (decode_loop-digits 3 n 0 1 0 rest (omega arith)) (ground arith)

pub read_length-at :
    (p n : ℕ) (rest : List ℕ)
    → n < 2 ^ 28
    → read_length (at p (length_bytes n ++ rest))
      ≡ some (length (length_bytes n), n, at (p + length (length_bytes n)) rest)
unfolding read_length
read_length-at p n rest h = rw (decode_buf-length_bytes n rest h, drop-append (length_bytes n) rest)

length-digits_le : (k n : ℕ) → length (digits k n) ≤ suc k
unfolding digits
length-digits_le zero n = omega arith
length-digits_le (suc k) n = ground (arith, length-digits_le k (n / 128))

-- What MQTTPacket_encode stores at the start of a buffer with room for four bytes,
-- MQTTPacket_decodeBuf decodes to the same remaining length, if this is below 2 ^ 28, and it counts
-- the bytes that were stored.
pub encode_roundtrip :
    (n : ℕ) (buf : List ℕ)
    → n < 2 ^ 28
    → 4 ≤ length buf
    → (encode n (start buf) >>= λ (rc, w). decode_buf (w.before ++ w.after))
      ≡ some (length (length_bytes n), n)
unfolding start
encode_roundtrip n buf h room = rw (
  encode_lem n (start buf) h,
  write_bytes_room (length_bytes n) [] buf (omega (arith, length-digits_le 3 n)),
  decode_buf-length_bytes n (drop (length (length_bytes n)) buf) h,
)
