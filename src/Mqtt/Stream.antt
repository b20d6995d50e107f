-- ===== src/Mqtt/Stream.antt =====
-- MQTT/MQTTPacket/MQTTPacket.c: MQTTPacket_read, over the caller's `getfn`.
-- `getfn n s` asks the source `s` for `n` bytes: its count, the bytes that it stores and the source
-- after it. The parameter buflen is not used by the source.
pub mod Laws
mod Tests
use remotus_hardware.Base.{
  ℕ, Bool, not, Option, none, some, List, [], ◌∷◌, ◌++◌, ◌>>=◌, if◌then◌else◌, length, ℤ, pos,
  negsuc, is_nat,
}
use remotus_hardware.Mqtt.Header.{header_type}
use remotus_hardware.Mqtt.Writer.{Writer, copy, encode, start}
use remotus_hardware.Mqtt.Reader.{decode}

-- The character that `getfn(&c, 1)` stores; the caller looks at it only if the count is 1.
unfoldable pub first_char : List ℕ → ℕ
first_char [] = 0
first_char (c ∷ _) = c

-- `header.byte = buf[0]`
unfoldable pub type_at_start : List ℕ → Option ℤ
type_at_start [] = none
type_at_start (byte ∷ _) = some (pos (header_type byte))

module _ {S : Type 0} (getfn : ℕ → S → Option (ℤ × List ℕ × S)) where
  unfoldable pub getcharfn : ℕ → S → Option (ℤ × ℕ × S)
  unfolding first_char
  getcharfn n s = do (rc, bytes, s') ← getfn n s; some (rc, first_char bytes, s')

  -- from the remaining length on; `w` is the pointer `buf + 1`
  pub read_remaining : Writer → S → Option (ℤ × List ℕ × S)
  read_remaining w s = do
    (_, rem_len, s2) ← decode getcharfn s
    (_, w2) ← encode rem_len w
    (rc, bytes, s3) ← getfn rem_len s2
    w3 ← copy (length bytes) bytes w2
    let buf = w3.before ++ w3.after
    if not (is_nat rc rem_len)
        then some (negsuc 0, buf, s3)
        else (type_at_start buf >>= λ type. some (type, buf, s3))

  -- The result, the buffer and the source after the call.
  pub packet_read : List ℕ → S → Option (ℤ × List ℕ × S)
  packet_read buf s = do
    (rc, bytes, s1) ← getfn 1 s
    w ← copy (length bytes) bytes (start buf)
    if not (is_nat rc 1) then some (negsuc 0, w.before ++ w.after, s1) else read_remaining w s1
