-- ===== src/Mqtt/Connack/Laws.antt =====
-- The bytes of a connack packet, and what is read back from them.
use remotus_hardware.Base.{
  ℕ, ◌+◌, ◌%◌, ◌≤◌, ◌<◌, ◌≡◌, refl, some, List, [], ◌∷◌, ◌++◌, ◌>>=◌, length, drop, pos, arith,
  le→not_ltb, lt→ltb,
}
use remotus_hardware.Mqtt.Header.{header_byte}
use remotus_hardware.Mqtt.Writer.Bytes.{
  Writes, Writes-bind, write_byte-Writes, write_length-Writes, digits, length_bytes,
}
use remotus_hardware.Mqtt.Writer.Reply.{reply_unchecked, serialize_into-unchecked}
use remotus_hardware.Mqtt.Writer.Size.{length-length_bytes_small}
use remotus_hardware.Mqtt.Reader.Bytes.{read_char-at, read_length-at}
use remotus_hardware.Mqtt.Connack.{
  connack_flags, session_present_bit, write_connack, serialize_connack, ConnackOut,
  deserialize_connack,
}

abbrev pub connack_bytes : ℕ → ℕ → List ℕ
connack_bytes connack_rc session_present =
    0x20 ∷ 2 ∷ connack_flags session_present ∷ connack_rc ∷ []

write_connack-Writes : (rc sp : ℕ) → rc < 256 → Writes (connack_bytes rc sp) (write_connack rc sp)
unfolding write_connack digits header_byte
write_connack-Writes rc sp h = Writes-bind (write_byte-Writes 0x20 (omega arith)) (
    Writes-bind (write_length-Writes 2 (omega arith))
      (Writes-bind (write_byte-Writes (connack_flags sp) (omega arith)) (write_byte-Writes rc h)))

-- MQTTSerialize_connack checks for 2 bytes and stores 4: in a buffer of `buflen` bytes it answers the
-- error below 2 bytes, writes past the end of the buffer at 2 or 3, and stores the packet above.
pub serialize_connack_lem :
    (buf : List ℕ) (rc sp : ℕ)
    → rc < 256
    → serialize_connack buf (length buf) rc sp ≡ reply_unchecked 2 4 buf (connack_bytes rc sp)
unfolding serialize_connack
serialize_connack_lem buf rc sp h =
    serialize_into-unchecked 2 4 buf (write_connack-Writes rc sp h) refl

-- MQTTDeserialize_connack on a connack of remaining length 2, with any flags and return code.
pub connack_read :
    (out : ConnackOut) (flags rc : ℕ) (rest : List ℕ)
    → deserialize_connack out (0x20 ∷ 2 ∷ flags ∷ rc ∷ rest)
      ≡ some (pos 1, record { session_present = session_present_bit flags; connack_rc = rc })
unfolding deserialize_connack digits
connack_read out flags rc rest = rw (
  read_char-at 0 0x20 (2 ∷ flags ∷ rc ∷ rest),
  read_length-at 1 2 (flags ∷ rc ∷ rest) (omega arith),
  read_char-at 2 flags (rc ∷ rest),
  read_char-at 3 rc rest,
)

-- In a buffer of 4 bytes or more, a connack that MQTTSerialize_connack stores is read back by
-- MQTTDeserialize_connack with result 1, the same return code and the session flag cut to one bit.
pub connack_roundtrip :
    (out : ConnackOut) (buf : List ℕ) (rc sp : ℕ)
    → rc < 256
    → 4 ≤ length buf
    → (serialize_connack buf (length buf) rc sp >>= λ (n, sent). deserialize_connack out sent)
      ≡ some (pos 1, record { session_present = sp % 2; connack_rc = rc })
connack_roundtrip out buf rc sp h room =
    rw
      (
        serialize_connack_lem buf rc sp h,
        le→not_ltb (length buf) 2 (omega arith),
        le→not_ltb (length buf) 4 room,
        connack_read out (connack_flags sp) rc (drop 4 buf),
      )
      (ground arith)

-- On a connack whose flags byte is below 128, MQTT 3.1.1's byte 1 among them, the session flag that
-- MQTTDeserialize_connack gives is 0: it takes bit 7, and the protocol has the flag in bit 0.
pub connack_session_lost :
    (out : ConnackOut) (flags rc : ℕ) (rest : List ℕ)
    → flags < 128
    → deserialize_connack out (0x20 ∷ 2 ∷ flags ∷ rc ∷ rest)
      ≡ some (pos 1, record { session_present = 0; connack_rc = rc })
connack_session_lost out flags rc rest h = rw (connack_read out flags rc rest) (ground arith)

-- On a connack of remaining length below 2, MQTTDeserialize_connack answers 1 as for a complete one,
-- and leaves the session flag and the return code as they were.
pub deserialize_connack_short :
    (out : ConnackOut) (n : ℕ) (rest : List ℕ)
    → n < 2
    → deserialize_connack out (0x20 ∷ length_bytes n ++ rest) ≡ some (pos 1, out)
unfolding deserialize_connack
deserialize_connack_short out n rest h =
    rw
      (
        read_char-at 0 0x20 (length_bytes n ++ rest),
        read_length-at 1 n rest (omega arith),
        lt→ltb (1 + length (length_bytes n) + n) (1 + length (length_bytes n) + 2) (omega arith),
      )
      (rw (length-length_bytes_small n (omega arith)))
