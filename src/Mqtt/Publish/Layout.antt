-- ===== src/Mqtt/Publish/Layout.antt =====
-- The bytes of a publish packet, and that MQTTSerialize_publish stores them.
use remotus_hardware.Base.{
  ℕ, ◌≤◌, ◌<◌, ◌^◌, ◌≡◌, some, List, [], ◌∷◌, ◌++◌, ltb, if◌then◌else◌, length, length-append,
  length-take, take, arith,
}
use remotus_hardware.Mqtt.Header.{header_byte, header_byte-lt}
use remotus_hardware.Mqtt.Text.{MqttString}
use remotus_hardware.Mqtt.Text.Laws.{
  IsText, content, string_bytes, str_len-content, write_mqtt_string-Writes,
}
use remotus_hardware.Mqtt.Writer.{write_int, packet_len}
use remotus_hardware.Mqtt.Writer.Bytes.{
  Writes, Writes-bind, Writes-skip, Writes-if, write_byte-Writes, write_int-Writes,
  write_length-Writes, copy-Writes, int_bytes, length_bytes,
}
use remotus_hardware.Mqtt.Writer.Reply.{reply, serialize_into-reply}
use remotus_hardware.Mqtt.Writer.Size.{packet-le}
use remotus_hardware.Mqtt.Publish.{publish_length, write_publish, serialize_publish}

-- The packet id is present above QoS 0.
abbrev pub packetid_bytes : ℕ → ℕ → List ℕ
packetid_bytes qos packetid = if ltb 0 qos then int_bytes packetid else []

packetid-Writes :
    (qos packetid : ℕ)
    → Writes (packetid_bytes qos packetid) (λ w. if ltb 0 qos then write_int packetid w else some w)
packetid-Writes qos packetid = Writes-if (ltb 0 qos) (write_int-Writes packetid) Writes-skip

-- What follows the remaining length field.
abbrev pub publish_body : ℕ → ℕ → List ℕ → List ℕ → List ℕ
publish_body qos packetid topic payload =
    string_bytes topic ++ (packetid_bytes qos packetid ++ payload)

abbrev pub publish_bytes : ℕ → ℕ → ℕ → ℕ → List ℕ → List ℕ → List ℕ
publish_bytes dup qos retained packetid topic payload =
    header_byte 3 dup qos retained ∷ length_bytes (length (publish_body qos packetid topic payload))
    ++ publish_body qos packetid topic payload

-- The arguments of a publish packet that make one: the topic is a text, the payload has `payloadlen`
-- bytes at least, and the remaining length fits the field.
pub record IsPublish (qos : ℕ) (topic : MqttString) (payload : List ℕ) (payloadlen : ℕ)
    : Type 0 where
  pub text : IsText topic
  pub given : payloadlen ≤ length payload
  pub fits : publish_length qos topic payloadlen < 2 ^ 28

module _ (dup qos retained packetid : ℕ) (topic : MqttString) (payload : List ℕ) (payloadlen : ℕ)
    (v : IsPublish qos topic payload payloadlen) where
  -- MQTTSerialize_publishLength is the length of what follows the remaining length field.
  pub publish_length-body :
      publish_length qos topic payloadlen
      ≡ length (publish_body qos packetid (content topic) (take payloadlen payload))
  unfolding publish_length
  publish_length-body = ground (
    arith,
    str_len-content topic v.text,
    length-take payloadlen payload v.given,
    length-append (content topic) (packetid_bytes qos packetid ++ take payloadlen payload),
    length-append (packetid_bytes qos packetid) (take payloadlen payload),
  )

  write_publish-Writes :
      Writes
        (publish_bytes dup qos retained packetid (content topic) (take payloadlen payload))
        (write_publish dup qos retained packetid topic payload payloadlen)
  unfolding write_publish
  write_publish-Writes = rw (← publish_length-body) (
      Writes-bind
        (write_byte-Writes (header_byte 3 dup qos retained) (header_byte-lt 3 dup qos retained))
        (Writes-bind (write_length-Writes (publish_length qos topic payloadlen) v.fits) (
          Writes-bind (write_mqtt_string-Writes topic v.text)
            (Writes-bind (packetid-Writes qos packetid) (copy-Writes payloadlen payload v.given)))))

  -- MQTTSerialize_publish on arguments that make a packet, given a buffer of `buflen` bytes at least:
  -- below the length that MQTTPacket_len asks for it answers the error and leaves the buffer;
  -- otherwise it stores the packet at its start, leaves the rest and answers the packet's length.
  pub serialize_publish_lem :
      (buf : List ℕ) (buflen : ℕ)
      → buflen ≤ length buf
      → serialize_publish buf buflen dup qos retained packetid topic payload payloadlen
        ≡ reply
            (packet_len (publish_length qos topic payloadlen))
            buflen
            buf
            (publish_bytes dup qos retained packetid (content topic) (take payloadlen payload))
  unfolding serialize_publish
  serialize_publish_lem buf buflen room =
      serialize_into-reply (packet_len (publish_length qos topic payloadlen)) buflen buf
        write_publish-Writes
        (rw publish_length-body (
          packet-le (header_byte 3 dup qos retained)
            (publish_body qos packetid (content topic) (take payloadlen payload))))
        room
