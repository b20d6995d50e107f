-- ===== src/Mqtt/Ack/Laws.antt =====
-- The bytes of the ack packets, and what is read back from them.
use remotus_hardware.Base.{
  ℕ, ◌+◌, ◌%◌, ◌≤◌, ◌<◌, ◌≡◌, refl, some, List, [], ◌∷◌, ◌++◌, ◌>>=◌, length, drop, pos, arith,
  le→not_ltb, lt→ltb,
}
use remotus_hardware.Mqtt.MsgType.{MsgType, code}
use remotus_hardware.Mqtt.Header.{
  header_byte, header_byte-lt, header_byte_fields, header_type, header_dup,
}
use remotus_hardware.Mqtt.Writer.Size.{length-length_bytes_small}
use remotus_hardware.Mqtt.Writer.Bytes.{
  Writes, Writes-bind, write_byte-Writes, digits, write_int-Writes, write_length-Writes, int_bytes,
  length_bytes,
}
use remotus_hardware.Mqtt.Writer.Reply.{
  reply, serialize_into-reply, reply_unchecked, serialize_into-unchecked,
}
use remotus_hardware.Mqtt.Reader.Bytes.{read_char-at, read_int-at, read_length-at}
use remotus_hardware.Mqtt.Ack.{
  write_ack, serialize_ack, serialize_puback, serialize_pubrel, serialize_pubcomp, AckOut,
  deserialize_ack, write_unsuback, serialize_unsuback, deserialize_unsuback, write_zero,
  serialize_zero, serialize_disconnect, serialize_pingreq,
}

abbrev pub ack_bytes : ℕ → ℕ → ℕ → List ℕ
ack_bytes packettype dup packetid = header_byte packettype dup 0 0 ∷ 2 ∷ int_bytes packetid

write_ack-Writes : (t d id : ℕ) → Writes (ack_bytes t d id) (write_ack t d id)
unfolding write_ack digits
write_ack-Writes t d id =
    Writes-bind (write_byte-Writes (header_byte t d 0 0) (header_byte-lt t d 0 0))
      (Writes-bind (write_length-Writes 2 (omega arith)) (write_int-Writes id))

-- MQTTSerialize_ack, given a buffer of `buflen` bytes at least: with fewer than 4 bytes it answers
-- the error and leaves the buffer, otherwise it stores the four bytes of the ack at its start, leaves
-- the rest and answers 4.
pub serialize_ack_lem :
    (buf : List ℕ) (buflen t d id : ℕ)
    → buflen ≤ length buf
    → serialize_ack buf buflen t d id ≡ reply 4 buflen buf (ack_bytes t d id)
unfolding serialize_ack
serialize_ack_lem buf buflen t d id room =
    serialize_into-reply 4 buflen buf (write_ack-Writes t d id) (omega arith) room

-- MQTTDeserialize_ack on the bytes of an ack.
pub deserialize_ack-ack_bytes :
    (out : AckOut) (t d id : ℕ) (rest : List ℕ)
    → id < 65536
    → deserialize_ack out (ack_bytes t d id ++ rest)
      ≡ some (pos 1, record { packettype = t % 16; dup = d % 2; packetid = id })
unfolding deserialize_ack digits
deserialize_ack-ack_bytes out t d id rest h =
    rw
      (
        read_char-at 0 (header_byte t d 0 0) (2 ∷ int_bytes id ++ rest),
        read_length-at 1 2 (int_bytes id ++ rest) (omega arith),
      )
      (ground (arith, read_int-at 2 id rest h, header_byte_fields t d 0 0))

-- An ack that MQTTSerialize_ack stores in a buffer with room is read back by MQTTDeserialize_ack with
-- result 1, with the type and the dup flag cut to their bit fields and with the same packet id.
pub ack_roundtrip :
    (out : AckOut) (buf : List ℕ) (buflen t d id : ℕ)
    → buflen ≤ length buf
    → 4 ≤ buflen
    → id < 65536
    → (serialize_ack buf buflen t d id >>= λ (rc, sent). deserialize_ack out sent)
      ≡ some (pos 1, record { packettype = t % 16; dup = d % 2; packetid = id })
ack_roundtrip out buf buflen t d id room fits h =
    rw (serialize_ack_lem buf buflen t d id room, le→not_ltb buflen 4 fits)
      (deserialize_ack-ack_bytes out t d id (drop 4 buf) h)

-- In a buffer of 4 bytes or more, whatever packet id is given: MQTTSerialize_puback and
-- MQTTSerialize_pubcomp send packet id 0, with the lowest bit of the id as the dup flag, and
-- MQTTSerialize_pubrel sends the dup flag as packet id.
pub acks_lose_packetid :
    (old : AckOut) (buf : List ℕ) (buflen dup id : ℕ)
    → buflen ≤ length buf
    → 4 ≤ buflen
    → dup < 256
    → ((serialize_puback buf buflen id >>= λ (rc, sent). deserialize_ack old sent)
        ≡ some (pos 1, record { packettype = code MsgType.puback; dup = id % 2; packetid = 0 }))
      × ((serialize_pubcomp buf buflen id >>= λ (rc, sent). deserialize_ack old sent)
          ≡ some (pos 1, record { packettype = code MsgType.pubcomp; dup = id % 2; packetid = 0 }))
      × ((serialize_pubrel buf buflen dup id >>= λ (rc, sent). deserialize_ack old sent)
          ≡ some (pos 1, record { packettype = code MsgType.pubrel; dup = id % 2; packetid = dup }))
unfolding serialize_puback serialize_pubcomp serialize_pubrel
acks_lose_packetid old buf buflen dup id room fits h =
    (cut 4 0 (omega arith), cut 7 0 (omega arith), cut 6 dup (omega arith))
  where
    low_bit : id % 256 % 2 ≡ id % 2
    low_bit = omega arith

    cut :
        (t n : ℕ)
        → n < 65536
        → (serialize_ack buf buflen t (id % 256) n >>= λ (rc, sent). deserialize_ack old sent)
          ≡ some (pos 1, record { packettype = t % 16; dup = id % 2; packetid = n })
    cut t n small = rw (← low_bit) (ack_roundtrip old buf buflen t (id % 256) n room fits small)

-- MQTTDeserialize_ack on a packet whose remaining length is below 2: it answers 1 as for a complete
-- ack, and leaves the packet id as it was.
pub deserialize_ack_short :
    (out : AckOut) (byte n : ℕ) (rest : List ℕ)
    → n < 2
    → deserialize_ack out (byte ∷ length_bytes n ++ rest)
      ≡ some (pos 1, record out { packettype = header_type byte; dup = header_dup byte })
unfolding deserialize_ack
deserialize_ack_short out byte n rest h =
    rw
      (
        read_char-at 0 byte (length_bytes n ++ rest),
        read_length-at 1 n rest (omega arith),
        lt→ltb (1 + length (length_bytes n) + n) (1 + length (length_bytes n) + 2) (omega arith),
      )
      (rw (length-length_bytes_small n (omega arith)))

write_unsuback-Writes : (id : ℕ) → Writes (ack_bytes 11 0 id) (write_unsuback id)
unfolding write_unsuback digits
write_unsuback-Writes id =
    Writes-bind (write_byte-Writes (header_byte 11 0 0 0) (header_byte-lt 11 0 0 0))
      (Writes-bind (write_length-Writes 2 (omega arith)) (write_int-Writes id))

-- MQTTSerialize_unsuback checks for 2 bytes and stores 4: in a buffer of `buflen` bytes it answers the
-- error below 2 bytes, writes past the end of the buffer at 2 or 3, and stores the packet above.
pub serialize_unsuback_lem :
    (buf : List ℕ) (id : ℕ)
    → serialize_unsuback buf (length buf) id ≡ reply_unchecked 2 4 buf (ack_bytes 11 0 id)
unfolding serialize_unsuback
serialize_unsuback_lem buf id = serialize_into-unchecked 2 4 buf (write_unsuback-Writes id) refl

-- MQTTDeserialize_unsuback answers 1 for the bytes of any ack, whatever its type, and gives its
-- packet id.
pub deserialize_unsuback_any :
    (old t d id : ℕ) (rest : List ℕ)
    → id < 65536
    → deserialize_unsuback old (ack_bytes t d id ++ rest) ≡ some (pos 1, id)
unfolding deserialize_unsuback
deserialize_unsuback_any old t d id rest h =
    rw
      (deserialize_ack-ack_bytes (record { packettype = 0; dup = 0; packetid = old }) t d id rest h)
      (ground arith)

write_zero-Writes : (t : ℕ) → Writes (header_byte t 0 0 0 ∷ 0 ∷ []) (write_zero t)
unfolding write_zero digits
write_zero-Writes t =
    Writes-bind (write_byte-Writes (header_byte t 0 0 0) (header_byte-lt t 0 0 0))
      (write_length-Writes 0 (omega arith))

-- MQTTSerialize_disconnect and MQTTSerialize_pingreq, given a buffer of `buflen` bytes at least,
-- answer the error below 2 bytes, and otherwise store the two bytes of their packet.
pub serialize_zero_lem :
    (buf : List ℕ) (buflen : ℕ)
    → buflen ≤ length buf
    → (serialize_disconnect buf buflen ≡ reply 2 buflen buf (0xe0 ∷ 0 ∷ []))
      × (serialize_pingreq buf buflen ≡ reply 2 buflen buf (0xc0 ∷ 0 ∷ []))
unfolding serialize_disconnect serialize_pingreq serialize_zero header_byte
serialize_zero_lem buf buflen room = (
  serialize_into-reply 2 buflen buf (write_zero-Writes 14) (omega arith) room,
  serialize_into-reply 2 buflen buf (write_zero-Writes 12) (omega arith) room,
)
