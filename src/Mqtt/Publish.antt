-- ===== src/Mqtt/Publish.antt =====
-- MQTT/MQTTPacket/MQTTSerializePublish.c and MQTTDeserializePublish.c: the publish packet.
-- Lengths and the QoS level, of type int, are taken to be at least 0 where the caller gives them.
-- The parameter buflen of MQTTDeserialize_publish is not used by the source.
pub mod Layout
pub mod Laws
mod Tests
use remotus_hardware.Base.{
  ℕ, ◌+◌, Bool, not, ◌||◌, Option, some, List, ◌>>=◌, ltb, ◌==◌, if◌then◌else◌, ℤ, pos, sub_ℕ,
}
use remotus_hardware.Mqtt.MsgType.{MsgType, code}
use remotus_hardware.Mqtt.Header.{header_byte, header_type, header_dup, header_qos, header_retain}
use remotus_hardware.Mqtt.Text.{MqttString, str_len, write_mqtt_string}
use remotus_hardware.Mqtt.Writer.{
  Writer, write_char, write_int, write_length, copy, packet_len, serialize_into,
}
use remotus_hardware.Mqtt.Reader.{Reader, read_char, read_int, read_len_string, read_length, start}

pub publish_length : ℕ → MqttString → ℕ → ℕ
publish_length qos topic payloadlen = 2 + str_len topic + payloadlen + (if ltb 0 qos then 2 else 0)

write_publish : ℕ → ℕ → ℕ → ℕ → MqttString → List ℕ → ℕ → Writer → Option Writer
write_publish dup qos retained packetid topic payload payloadlen w = do
  w ← write_char (header_byte (code MsgType.publish) dup qos retained) w
  w ← write_length (publish_length qos topic payloadlen) w
  w ← write_mqtt_string topic w
  w ← (if ltb 0 qos then write_int packetid w else some w)
  copy payloadlen payload w

pub serialize_publish : List ℕ → ℕ → ℕ → ℕ → ℕ → ℕ → MqttString → List ℕ → ℕ → Option (ℤ × List ℕ)
unfolding write_publish
serialize_publish buf buflen dup qos retained packetid topic payload payloadlen =
    serialize_into (packet_len (publish_length qos topic payloadlen)) buflen buf
      (write_publish dup qos retained packetid topic payload payloadlen)

-- The variables that the caller passes by reference; `payload` is the bytes from that pointer on.
pub record PublishOut : Type 0 where
  pub dup : ℕ
  pub qos : ℕ
  pub retained : ℕ
  pub packetid : ℕ
  pub topic : MqttString
  pub payload : List ℕ
  pub payloadlen : ℤ

-- the two assignments before `rc = 1`
set_payload : PublishOut → ℕ → Reader → ℤ × PublishOut
set_payload out enddata r =
    (pos 1, record out { payload = r.rest; payloadlen = sub_ℕ enddata r.offset })

unfoldable pub deserialize_publish : PublishOut → List ℕ → Option (ℤ × PublishOut)
unfolding set_payload
deserialize_publish out buf = do
  (byte, r1) ← read_char (start buf)
  if not (header_type byte == code MsgType.publish) then some (pos 0, out) else (do
    let out1 = record out {
      dup = header_dup byte;
      qos = header_qos byte;
      retained = header_retain byte;
    }
    (rc, mylen, r2) ← read_length r1
    let enddata = r2.offset + mylen
    (done, topic, r3) ← read_len_string out.topic r2 enddata
    let out2 = record out1 { topic = topic }
    if not done || ltb enddata r3.offset
        then some (pos rc, out2)
        else if ltb 0 out2.qos
        then (do
          (id, r4) ← read_int r3
          some (set_payload (record out2 { packetid = id }) enddata r4))
        else some (set_payload out2 enddata r3))
