-- ===== src/Mqtt/Writer.antt =====
-- MQTT/MQTTPacket/MQTTPacket.c: writeChar, writeInt, writeCString, MQTTPacket_encode, MQTTPacket_len.
-- A `Writer` is the pointer `ptr` into the output buffer: the bytes of the buffer before it, and
-- those from it to the end of the object. A store at the end of the object is a fault, `none`.
pub mod Bytes
pub mod Reply
pub mod Size
mod Tests
use remotus_hardware.Base.{
  ℕ, zero, suc, ◌+◌, ◌/◌, ◌%◌, ◌<◌, Option, none, some, List, [], ◌∷◌, ◌++◌, ◌>>=◌, ltb,
  if◌then◌else◌, length, ℤ, pos, negsuc, dite, dec_lt, Acc, lt_wf, arith,
}

pub record Writer : Type 0 where
  pub before : List ℕ
  pub after : List ℕ

store : ℕ → List ℕ → List ℕ → Option Writer
store b before [] = none
store b before (_ ∷ after) = some (record { before = before ++ (b ∷ []); after = after })

-- `*ptr++ = b`
unfoldable pub put : ℕ → Writer → Option Writer
unfolding store
put b w = store b w.before w.after

-- The conversion of an int to a char keeps its low eight bits.
unfoldable pub write_char : ℕ → Writer → Option Writer
unfolding put
write_char c w = put (c % 256) w

unfoldable pub write_int : ℕ → Writer → Option Writer
unfolding put
write_int n w = do w ← put (n / 256 % 256) w; put (n % 256) w

-- `memcpy(*pptr, from, n); *pptr += n`, from an object that ends where the list ends.
unfoldable pub copy : ℕ → List ℕ → Writer → Option Writer
unfolding put
copy zero from w = some w
copy (suc n) [] w = none
copy (suc n) (b ∷ from) w = put b w >>= copy n from

-- A C string is the list of its characters before the terminating NUL.
pub write_c_string : List ℕ → Writer → Option Writer
unfolding write_int copy
write_c_string string w = do w ← write_int (length string) w; copy (length string) string w

shrinks : (n : ℕ) → 0 < n / 128 → n / 128 < n
shrinks n h = omega arith

-- `d |= 0x80` adds 128 to a digit below 128. The count `rc` is the number of bytes written, so the
-- writer returned is the one at `buf + rc`.
encode_loop : (n : ℕ) → Acc ◌<◌ n → ℕ → Writer → Option (ℕ × Writer)
unfolding put
encode_loop n (Acc.intro _ smaller) rc w =
    dite (dec_lt 0 (n / 128))
      (λ more. put (n % 128 + 128) w >>= λ w'.
        encode_loop (n / 128) (smaller _ (shrinks n more)) (rc + 1) w')
      (λ _. put (n % 128) w >>= λ w'. some (rc + 1, w'))

unfoldable pub encode : ℕ → Writer → Option (ℕ × Writer)
unfolding encode_loop shrinks lt_wf dec_lt
encode n w = encode_loop n (lt_wf.apply n) 0 w

-- `ptr += MQTTPacket_encode(ptr, n)`
unfoldable pub write_length : ℕ → Writer → Option Writer
unfolding encode
write_length n w = encode n w >>= λ (rc, w'). some w'

-- MQTTPacket_len: the bytes that a packet with this remaining length may take.
unfoldable pub packet_len : ℕ → ℕ
packet_len rem_len =
    if ltb (rem_len + 1) 128
    then rem_len + 2
    else if ltb (rem_len + 1) 16384
    then rem_len + 3
    else if ltb (rem_len + 1) 2097151
    then rem_len + 4
    else rem_len + 5

-- MQTTPACKET_BUFFER_TOO_SHORT
abbrev pub buffer_too_short : ℤ
buffer_too_short = negsuc 1

unfoldable pub start : List ℕ → Writer
start buf = record { before = []; after = buf }

-- `rc = ptr - buf`, with the buffer as it stands.
abbrev pub written : Writer → ℤ × List ℕ
written w = (pos (length w.before), w.before ++ w.after)

-- The frame of every MQTTSerialize function: the check of the buffer's length, the writes, and
-- `rc = ptr - buf`. The buffer is returned as the call leaves it.
abbrev pub serialize_into : ℕ → ℕ → List ℕ → (Writer → Option Writer) → Option (ℤ × List ℕ)
serialize_into need buflen buf writes =
    if ltb buflen need
    then some (buffer_too_short, buf)
    else (writes (start buf) >>= λ w. some (written w))
