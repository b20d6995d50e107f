-- ===== src/Mqtt/Suback.antt =====
-- MQTT/MQTTPacket/MQTTSubscribeServer.c and MQTTSubscribeClient.c: the suback packet.
-- An array is the list of its members; an access past its end is a fault, `none`. The parameter buflen
-- of MQTTDeserialize_suback is not used by the source.
pub mod Laws
mod Tests
use remotus_hardware.Base.{
  ℕ, zero, suc, ◌+◌, Bool, true, false, not, Option, none, some, List, [], ◌∷◌, ◌>>=◌, ltb, ◌==◌,
  if◌then◌else◌, set, get_elem?, ℤ, pos, negsuc,
}
use remotus_hardware.Mqtt.MsgType.{MsgType, code}
use remotus_hardware.Mqtt.Header.{header_byte, header_type}
use remotus_hardware.Mqtt.Writer.{Writer, write_char, write_int, write_length, serialize_into}
use remotus_hardware.Mqtt.Reader.{Reader, read_char, read_int, read_length, start}

write_codes : ℕ → List ℕ → Writer → Option Writer
write_codes zero qoss w = some w
write_codes (suc count) [] w = none
write_codes (suc count) (q ∷ qoss) w = write_char q w >>= write_codes count qoss

write_suback : ℕ → ℕ → List ℕ → Writer → Option Writer
write_suback packetid count qoss w = do
  w ← write_char (header_byte (code MsgType.suback) 0 0 0) w
  w ← write_length (2 + count) w
  w ← write_int packetid w
  write_codes count qoss w

pub serialize_suback : List ℕ → ℕ → ℕ → ℕ → List ℕ → Option (ℤ × List ℕ)
serialize_suback buf buflen packetid count qoss =
    serialize_into (2 + count) buflen buf (write_suback packetid count qoss)

-- The variables that the caller passes by reference, and its array.
pub record SubackOut : Type 0 where
  pub packetid : ℕ
  pub count : ℕ
  pub qoss : List ℕ

-- The loop: whether it ends by its test, and the variables. Every round takes one byte, so the
-- remaining length and one are rounds enough; with no round left the result is `none`.
pub codes_loop : ℕ → ℕ → SubackOut → Reader → ℕ → Option (Bool × SubackOut)
codes_loop zero maxcount out r enddata = none
codes_loop (suc fuel) maxcount out r enddata =
    if not (ltb r.offset enddata)
    then some (true, out)
    else if ltb maxcount out.count
    then some (false, out)
    else (do
      (qos, r1) ← read_char r
      _ ← get_elem? out.qoss out.count
      codes_loop fuel maxcount
          (record out { qoss = set out.qoss out.count qos; count = out.count + 1 }) r1 enddata)

pub deserialize_suback : SubackOut → ℕ → List ℕ → Option (ℤ × SubackOut)
deserialize_suback out maxcount buf = do
  (byte, r1) ← read_char (start buf)
  if not (header_type byte == code MsgType.suback) then some (pos 0, out) else (do
    (rc, mylen, r2) ← read_length r1
    if ltb (r2.offset + mylen) (r2.offset + 2) then some (pos rc, out) else (do
      (id, r3) ← read_int r2
      (ended, out1) ←
          codes_loop (mylen + 1) maxcount (record out { packetid = id; count = 0 }) r3
            (r2.offset + mylen)
      some ((if ended then pos 1 else negsuc 0), out1)))
