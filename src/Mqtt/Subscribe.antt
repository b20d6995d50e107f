-- ===== src/Mqtt/Subscribe.antt =====
-- MQTT/MQTTPacket/MQTTSubscribeClient.c and MQTTSubscribeServer.c: the subscribe packet.
-- An array is the list of its members; an access past its end is a fault, `none`. The parameters
-- maxcount and buflen of MQTTDeserialize_subscribe are not used by the source.
pub mod Layout
pub mod Loop
pub mod Laws
mod Tests
use remotus_hardware.Base.{
  ℕ, zero, suc, ◌+◌, Bool, true, false, not, ◌||◌, Option, none, some, List, [], ◌∷◌, ◌>>=◌, ltb,
  leb, ◌==◌, if◌then◌else◌, set, get_elem?, ℤ, pos, negsuc,
}
use remotus_hardware.Mqtt.MsgType.{MsgType, code}
use remotus_hardware.Mqtt.Header.{header_byte, header_type, header_dup}
use remotus_hardware.Mqtt.Text.{MqttString, str_len, write_mqtt_string}
use remotus_hardware.Mqtt.Writer.{
  Writer, write_char, write_int, write_length, packet_len, serialize_into,
}
use remotus_hardware.Mqtt.Reader.{Reader, read_char, read_int, read_len_string, read_length, start}

length_loop : ℕ → List MqttString → ℕ → Option ℕ
length_loop zero topics len = some len
length_loop (suc count) [] len = none
length_loop (suc count) (t ∷ topics) len = length_loop count topics (len + (2 + str_len t + 1))

pub subscribe_length : ℕ → List MqttString → Option ℕ
unfolding length_loop
subscribe_length count topics = length_loop count topics 2

write_topics : ℕ → List MqttString → List ℕ → Writer → Option Writer
write_topics zero topics qoss w = some w
write_topics (suc count) (t ∷ topics) (q ∷ qoss) w = do
  w ← write_mqtt_string t w
  w ← write_char q w
  write_topics count topics qoss w
write_topics (suc count) _ _ w = none

write_subscribe : ℕ → ℕ → ℕ → ℕ → List MqttString → List ℕ → Writer → Option Writer
write_subscribe rem_len dup packetid count topics qoss w = do
  w ← write_char (header_byte (code MsgType.subscribe) dup 1 0) w
  w ← write_length rem_len w
  w ← write_int packetid w
  write_topics count topics qoss w

pub serialize_subscribe : List ℕ → ℕ → ℕ → ℕ → ℕ → List MqttString → List ℕ → Option (ℤ × List ℕ)
serialize_subscribe buf buflen dup packetid count topics qoss = do
  rem_len ← subscribe_length count topics
  serialize_into (packet_len rem_len) buflen buf
      (write_subscribe rem_len dup packetid count topics qoss)

-- The variables that the caller passes by reference, and its two arrays.
pub record SubscribeOut : Type 0 where
  pub dup : ℕ
  pub packetid : ℕ
  pub count : ℕ
  pub topics : List MqttString
  pub qoss : List ℕ

-- The loop: whether it ends by its test, and the variables. Every round takes three bytes at least, so
-- the remaining length and one are rounds enough; with no round left the result is `none`.
pub topics_loop : ℕ → SubscribeOut → Reader → ℕ → Option (Bool × SubscribeOut)
topics_loop zero out r enddata = none
topics_loop (suc fuel) out r enddata = if not (ltb r.offset enddata) then some (true, out) else (do
  old ← get_elem? out.topics out.count
  (done, topic, r1) ← read_len_string old r enddata
  let out1 = record out { topics = set out.topics out.count topic }
  if not done || leb enddata r1.offset then some (false, out1) else (do
    (qos, r2) ← read_char r1
    _ ← get_elem? out.qoss out.count
    topics_loop fuel (record out1 { qoss = set out.qoss out.count qos; count = out.count + 1 }) r2
        enddata))

pub deserialize_subscribe : SubscribeOut → List ℕ → Option (ℤ × SubscribeOut)
deserialize_subscribe out buf = do
  (byte, r1) ← read_char (start buf)
  if not (header_type byte == code MsgType.subscribe) then some (negsuc 0, out) else (do
    (rc, mylen, r2) ← read_length r1
    (id, r3) ← read_int r2
    (ended, out1) ←
        topics_loop (mylen + 1) (record out { dup = header_dup byte; packetid = id; count = 0 }) r3
          (r2.offset + mylen)
    some ((if ended then pos 1 else pos rc), out1))
