-- ===== src/Mqtt/Unsubscribe.antt =====
-- MQTT/MQTTPacket/MQTTUnsubscribeClient.c and MQTTUnsubscribeServer.c: the unsubscribe packet; the
-- unsuback packet is in Ack. The parameters maxcount and len of MQTTDeserialize_unsubscribe are not
-- used by the source.
pub mod Laws
mod Tests
use remotus_hardware.Base.{
  ℕ, zero, suc, ◌+◌, Bool, true, false, not, Option, none, some, List, [], ◌∷◌, ◌>>=◌, ltb, ◌==◌,
  if◌then◌else◌, set, get_elem?, ℤ, pos,
}
use remotus_hardware.Mqtt.MsgType.{MsgType, code}
use remotus_hardware.Mqtt.Header.{header_byte, header_type, header_dup}
use remotus_hardware.Mqtt.Text.{MqttString, str_len, write_mqtt_string}
use remotus_hardware.Mqtt.Writer.{
  Writer, write_char, write_int, write_length, packet_len, serialize_into,
}
use remotus_hardware.Mqtt.Reader.{Reader, read_char, read_int, read_len_string, read_length, start}

length_loop : ℕ → List MqttString → ℕ → Option ℕ
length_loop zero topics len = some len
length_loop (suc count) [] len = none
length_loop (suc count) (t ∷ topics) len = length_loop count topics (len + (2 + str_len t))

pub unsubscribe_length : ℕ → List MqttString → Option ℕ
unfolding length_loop
unsubscribe_length count topics = length_loop count topics 2

write_filters : ℕ → List MqttString → Writer → Option Writer
write_filters zero topics w = some w
write_filters (suc count) [] w = none
write_filters (suc count) (t ∷ topics) w = write_mqtt_string t w >>= write_filters count topics

write_unsubscribe : ℕ → ℕ → ℕ → ℕ → List MqttString → Writer → Option Writer
write_unsubscribe rem_len dup packetid count topics w = do
  w ← write_char (header_byte (code MsgType.unsubscribe) dup 1 0) w
  w ← write_length rem_len w
  w ← write_int packetid w
  write_filters count topics w

pub serialize_unsubscribe : List ℕ → ℕ → ℕ → ℕ → ℕ → List MqttString → Option (ℤ × List ℕ)
serialize_unsubscribe buf buflen dup packetid count topics = do
  rem_len ← unsubscribe_length count topics
  serialize_into (packet_len rem_len) buflen buf
      (write_unsubscribe rem_len dup packetid count topics)

-- The variables that the caller passes by reference, and its array.
pub record UnsubscribeOut : Type 0 where
  pub dup : ℕ
  pub packetid : ℕ
  pub count : ℕ
  pub topics : List MqttString

-- The loop: whether it ends by its test, and the variables. Every round takes two bytes at least, so
-- the remaining length and one are rounds enough; with no round left the result is `none`.
pub filters_loop : ℕ → UnsubscribeOut → Reader → ℕ → Option (Bool × UnsubscribeOut)
filters_loop zero out r enddata = none
filters_loop (suc fuel) out r enddata = if not (ltb r.offset enddata) then some (true, out) else (do
  old ← get_elem? out.topics out.count
  (done, topic, r1) ← read_len_string old r enddata
  let out1 = record out { topics = set out.topics out.count topic }
  if not done
      then some (false, out1)
      else filters_loop fuel (record out1 { count = out.count + 1 }) r1 enddata)

pub deserialize_unsubscribe : UnsubscribeOut → List ℕ → Option (ℤ × UnsubscribeOut)
deserialize_unsubscribe out buf = do
  (byte, r1) ← read_char (start buf)
  if not (header_type byte == code MsgType.unsubscribe) then some (pos 0, out) else (do
    (rc, mylen, r2) ← read_length r1
    (id, r3) ← read_int r2
    (ended, out1) ←
        filters_loop (mylen + 1) (record out { dup = header_dup byte; packetid = id; count = 0 }) r3
          (r2.offset + mylen)
    some ((if ended then pos 1 else pos rc), out1))
