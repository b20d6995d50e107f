-- ===== src/Mqtt/Ack.antt =====
-- MQTT/MQTTPacket/MQTTSerializePublish.c and MQTTDeserializePublish.c: the ack packets; with them
-- MQTTSerialize_zero and its callers (MQTTConnectClient.c) and the unsuback packet
-- (MQTTUnsubscribeServer.c, MQTTUnsubscribeClient.c). The parameter buflen of the deserializers is not
-- used by the source.
pub mod Laws
mod Tests
use remotus_hardware.Base.{ℕ, ◌+◌, ◌%◌, Option, some, List, ◌>>=◌, ltb, ◌==◌, if◌then◌else◌, ℤ, pos}
use remotus_hardware.Mqtt.MsgType.{MsgType, code}
use remotus_hardware.Mqtt.Header.{header_byte, header_type, header_dup}
use remotus_hardware.Mqtt.Writer.{Writer, write_char, write_int, write_length, serialize_into}
use remotus_hardware.Mqtt.Reader.{read_char, read_int, read_length, start}

write_ack : ℕ → ℕ → ℕ → Writer → Option Writer
write_ack packettype dup packetid w = do
  w ← write_char (header_byte packettype dup 0 0) w
  w ← write_length 2 w
  write_int packetid w

pub serialize_ack : List ℕ → ℕ → ℕ → ℕ → ℕ → Option (ℤ × List ℕ)
unfolding write_ack
serialize_ack buf buflen packettype dup packetid =
    serialize_into 4 buflen buf (write_ack packettype dup packetid)

-- The arguments stand as in the source, where `packetid` is passed as the unsigned char `dup`.
pub serialize_puback : List ℕ → ℕ → ℕ → Option (ℤ × List ℕ)
serialize_puback buf buflen packetid =
    serialize_ack buf buflen (code MsgType.puback) (packetid % 256) 0

pub serialize_pubrel : List ℕ → ℕ → ℕ → ℕ → Option (ℤ × List ℕ)
serialize_pubrel buf buflen dup packetid =
    serialize_ack buf buflen (code MsgType.pubrel) (packetid % 256) dup

pub serialize_pubcomp : List ℕ → ℕ → ℕ → Option (ℤ × List ℕ)
serialize_pubcomp buf buflen packetid =
    serialize_ack buf buflen (code MsgType.pubcomp) (packetid % 256) 0

-- The variables that the caller passes by reference.
pub record AckOut : Type 0 where
  pub packettype : ℕ
  pub dup : ℕ
  pub packetid : ℕ

pub deserialize_ack : AckOut → List ℕ → Option (ℤ × AckOut)
deserialize_ack out buf = do
  (byte, r1) ← read_char (start buf)
  let out1 = record out { dup = header_dup byte; packettype = header_type byte }
  (rc, mylen, r2) ← read_length r1
  if ltb (r2.offset + mylen) (r2.offset + 2)
      then some (pos rc, out1)
      else (do (id, r3) ← read_int r2; some (pos 1, record out1 { packetid = id }))

write_unsuback : ℕ → Writer → Option Writer
write_unsuback packetid w = do
  w ← write_char (header_byte (code MsgType.unsuback) 0 0 0) w
  w ← write_length 2 w
  write_int packetid w

pub serialize_unsuback : List ℕ → ℕ → ℕ → Option (ℤ × List ℕ)
unfolding write_unsuback
serialize_unsuback buf buflen packetid = serialize_into 2 buflen buf (write_unsuback packetid)

-- `rc` and `*packetid`
pub deserialize_unsuback : ℕ → List ℕ → Option (ℤ × ℕ)
deserialize_unsuback packetid buf = do
  (rc, out) ← deserialize_ack (record { packettype = 0; dup = 0; packetid = packetid }) buf
  some ((if out.packettype == code MsgType.unsuback then pos 1 else rc), out.packetid)

write_zero : ℕ → Writer → Option Writer
write_zero packettype w = do w ← write_char (header_byte packettype 0 0 0) w; write_length 0 w

pub serialize_zero : List ℕ → ℕ → ℕ → Option (ℤ × List ℕ)
unfolding write_zero
serialize_zero buf buflen packettype = serialize_into 2 buflen buf (write_zero packettype)

pub serialize_disconnect : List ℕ → ℕ → Option (ℤ × List ℕ)
serialize_disconnect buf buflen = serialize_zero buf buflen (code MsgType.disconnect)

pub serialize_pingreq : List ℕ → ℕ → Option (ℤ × List ℕ)
serialize_pingreq buf buflen = serialize_zero buf buflen (code MsgType.pingreq)
