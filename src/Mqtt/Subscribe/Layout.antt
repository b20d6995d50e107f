-- ===== src/Mqtt/Subscribe/Layout.antt =====
-- The bytes of a subscribe packet, and that MQTTSerialize_subscribe stores them.
use remotus_hardware.Base.{
  ℕ, zero, suc, ◌+◌, ◌%◌, ◌^◌, ◌≤◌, ◌<◌, ◌≡◌, ap, ◌∙◌, some, List, [], ◌∷◌, ◌++◌, length,
  length-append, arith,
}
use native.Mathlib.Nat.{add-zero}
use remotus_hardware.Mqtt.Header.{header_byte, header_byte-lt}
use remotus_hardware.Mqtt.Text.{MqttString, str_len}
use remotus_hardware.Mqtt.Text.Laws.{
  IsText, content, string_bytes, str_len-content, write_mqtt_string-Writes,
}
use remotus_hardware.Mqtt.Writer.{packet_len}
use remotus_hardware.Mqtt.Writer.Bytes.{
  Writes, Writes-bind, Writes-skip, write_byte-Writes, write_char-Writes, write_int-Writes,
  write_length-Writes, int_bytes, length_bytes,
}
use remotus_hardware.Mqtt.Writer.Reply.{reply, serialize_into-reply}
use remotus_hardware.Mqtt.Writer.Size.{packet-le}
use remotus_hardware.Mqtt.Subscribe.{
  length_loop, subscribe_length, write_topics, write_subscribe, serialize_subscribe,
}

-- A topic filter with the QoS level that is asked for.
abbrev pub Request : Type 0
Request = List ℕ × ℕ

abbrev pub request_bytes : List Request → List ℕ
request_bytes [] = []
request_bytes ((text, qos) ∷ requests) = string_bytes text ++ (qos ∷ request_bytes requests)

-- The first `count` members of the two arrays: that they are there and that the filters are texts, and
-- the requests that they make (the levels cut to a byte).
abbrev pub AreTexts : ℕ → List MqttString → List ℕ → Type 0
AreTexts zero topics qoss = Unit {0}
AreTexts (suc count) (t ∷ topics) (q ∷ qoss) = IsText t × AreTexts count topics qoss
AreTexts (suc count) _ _ = ⊥

abbrev pub requests : ℕ → List MqttString → List ℕ → List Request
requests zero topics qoss = []
requests (suc count) (t ∷ topics) (q ∷ qoss) = (content t, q % 256) ∷ requests count topics qoss
requests (suc count) _ _ = []

abbrev pub subscribe_body : ℕ → List Request → List ℕ
subscribe_body packetid reqs = int_bytes packetid ++ request_bytes reqs

abbrev pub subscribe_bytes : ℕ → ℕ → List Request → List ℕ
subscribe_bytes dup packetid reqs =
    header_byte 8 dup 1 0 ∷ length_bytes (length (subscribe_body packetid reqs))
    ++ subscribe_body packetid reqs

length_loop-requests :
    (count : ℕ) (topics : List MqttString) (qoss : List ℕ) (len : ℕ)
    → AreTexts count topics qoss
    → length_loop count topics len
      ≡ some (len + length (request_bytes (requests count topics qoss)))
unfolding length_loop
length_loop-requests zero topics qoss len h = rw add-zero
length_loop-requests (suc count) [] qoss len h = elim h [ ]
length_loop-requests (suc count) (t ∷ topics) [] len h = elim h [ ]
length_loop-requests (suc count) (t ∷ topics) (q ∷ qoss) len (text, h) =
    length_loop-requests count topics qoss (len + (2 + str_len t + 1)) h
    ∙ ap some (
        omega (
          arith,
          str_len-content t text,
          length-append (content t) (q % 256 ∷ request_bytes (requests count topics qoss)),
        ))

write_topics-Writes :
    (count : ℕ) (topics : List MqttString) (qoss : List ℕ)
    → AreTexts count topics qoss
    → Writes (request_bytes (requests count topics qoss)) (write_topics count topics qoss)
unfolding write_topics
write_topics-Writes zero topics qoss h = record { runs = Writes-skip.runs }
write_topics-Writes (suc count) [] qoss h = elim h [ ]
write_topics-Writes (suc count) (t ∷ topics) [] h = elim h [ ]
write_topics-Writes (suc count) (t ∷ topics) (q ∷ qoss) (text, h) = record {
  runs =
      (Writes-bind (write_mqtt_string-Writes t text)
        (Writes-bind (write_char-Writes q) (write_topics-Writes count topics qoss h))).runs;
}

module _ (dup packetid count : ℕ) (topics : List MqttString) (qoss : List ℕ)
    (v : AreTexts count topics qoss)
    (fits : length (subscribe_body packetid (requests count topics qoss)) < 2 ^ 28) where
  write_subscribe-Writes : Writes (subscribe_bytes dup packetid (requests count topics qoss)) (
      write_subscribe
        (length (subscribe_body packetid (requests count topics qoss)))
        dup
        packetid
        count
        topics
        qoss)
  unfolding write_subscribe
  write_subscribe-Writes =
      Writes-bind (write_byte-Writes (header_byte 8 dup 1 0) (header_byte-lt 8 dup 1 0)) (
        Writes-bind (write_length-Writes _ fits)
          (Writes-bind (write_int-Writes packetid) (write_topics-Writes count topics qoss v)))

  subscribe_length-body :
      subscribe_length count topics
      ≡ some (length (subscribe_body packetid (requests count topics qoss)))
  unfolding subscribe_length
  subscribe_length-body = length_loop-requests count topics qoss 2 v ∙ ap some (omega arith)

  -- MQTTSerialize_subscribe on `count` filters that are texts, given a buffer of `buflen` bytes at
  -- least: below the length that MQTTPacket_len asks for it answers the error and leaves the buffer;
  -- otherwise it stores the packet at its start, leaves the rest and answers the packet's length.
  pub serialize_subscribe_lem :
      (buf : List ℕ) (buflen : ℕ)
      → buflen ≤ length buf
      → let body = subscribe_body packetid (requests count topics qoss) in
        serialize_subscribe buf buflen dup packetid count topics qoss
        ≡ reply
            (packet_len (length body))
            buflen
            buf
            (subscribe_bytes dup packetid (requests count topics qoss))
  unfolding serialize_subscribe
  serialize_subscribe_lem buf buflen room =
      let body = subscribe_body packetid (requests count topics qoss) in
      rw subscribe_length-body (
        serialize_into-reply (packet_len (length body)) buflen buf write_subscribe-Writes
          (packet-le (header_byte 8 dup 1 0) body) room)
