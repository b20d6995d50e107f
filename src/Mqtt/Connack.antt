-- ===== src/Mqtt/Connack.antt =====
-- MQTT/MQTTPacket/MQTTConnect.h, MQTTConnectServer.c and MQTTConnectClient.c: the connack packet.
-- The parameter buflen of MQTTDeserialize_connack is not used by the source.
pub mod Laws
mod Tests
use remotus_hardware.Base.{
  ℕ, ◌+◌, ◌*◌, ◌/◌, ◌%◌, not, Option, some, List, ◌>>=◌, ltb, ◌==◌, if◌then◌else◌, ℤ, pos,
}
use remotus_hardware.Mqtt.MsgType.{MsgType, code}
use remotus_hardware.Mqtt.Header.{header_byte, header_type}
use remotus_hardware.Mqtt.Writer.{Writer, write_char, write_length, serialize_into}
use remotus_hardware.Mqtt.Reader.{read_char, read_length, start}

-- MQTTConnackFlags: seven unused bits, then `sessionpresent`, bit 7.
abbrev pub connack_flags : ℕ → ℕ
connack_flags session_present = session_present % 2 * 128

abbrev pub session_present_bit : ℕ → ℕ
session_present_bit flags = flags / 128 % 2

write_connack : ℕ → ℕ → Writer → Option Writer
write_connack connack_rc session_present w = do
  w ← write_char (header_byte (code MsgType.connack) 0 0 0) w
  w ← write_length 2 w
  w ← write_char (connack_flags session_present) w
  write_char connack_rc w

pub serialize_connack : List ℕ → ℕ → ℕ → ℕ → Option (ℤ × List ℕ)
unfolding write_connack
serialize_connack buf buflen connack_rc session_present =
    serialize_into 2 buflen buf (write_connack connack_rc session_present)

-- The variables that the caller passes by reference.
pub record ConnackOut : Type 0 where
  pub session_present : ℕ
  pub connack_rc : ℕ

unfoldable pub deserialize_connack : ConnackOut → List ℕ → Option (ℤ × ConnackOut)
deserialize_connack out buf = do
  (byte, r1) ← read_char (start buf)
  if not (header_type byte == code MsgType.connack) then some (pos 0, out) else (do
    (rc, mylen, r2) ← read_length r1
    if ltb (r2.offset + mylen) (r2.offset + 2) then some (pos rc, out) else (do
      (flags, r3) ← read_char r2
      (connack_rc, r4) ← read_char r3
      some
          (pos 1, record { session_present = session_present_bit flags; connack_rc = connack_rc })))
