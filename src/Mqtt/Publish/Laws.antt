-- ===== src/Mqtt/Publish/Laws.antt =====
-- What MQTTDeserialize_publish reads back.
use remotus_hardware.Base.{
  ℕ, zero, suc, ◌+◌, ◌*◌, ◌%◌, ◌^◌, ◌-◌, ◌≤◌, ◌<◌, ◌≡◌, refl, ◌∙◌, true, some, List, ◌∷◌, ◌++◌,
  ◌>>=◌, ltb, if◌then◌else◌, length, take, drop, pos, negsuc, sub_ℕ, arith, le→not_ltb, lt→ltb,
  append_assoc, length-append, length-take, take-append, ap, subst,
}
use remotus_hardware.Mqtt.Header.{header_byte, header_byte_fields}
use remotus_hardware.Mqtt.Text.{MqttString}
use remotus_hardware.Mqtt.Text.Laws.{content, string_bytes, counted}
use remotus_hardware.Mqtt.Writer.{packet_len}
use remotus_hardware.Mqtt.Writer.Bytes.{length_bytes}
use remotus_hardware.Mqtt.Reader.{read_int}
use remotus_hardware.Mqtt.Reader.Bytes.{
  at, read_char-at, read_int-at, read_len_string-at, read_length-at,
}
use remotus_hardware.Mqtt.Publish.{
  PublishOut, publish_length, serialize_publish, set_payload, deserialize_publish,
}
use remotus_hardware.Mqtt.Publish.Layout.{
  IsPublish, packetid_bytes, publish_body, publish_bytes, serialize_publish_lem,
  publish_length-body,
}

-- The steps up to the topic, on a publish header followed by a remaining length `n` and a topic that
-- ends inside it.
topic_read :
    (out : PublishOut) (dup qos retained n : ℕ) (topic rest : List ℕ)
    → n < 2 ^ 28
    → length topic < 65536
    → 2 + length topic ≤ n
    → let start = 1 + length (length_bytes n) in
      let out2 = record out {
        dup = dup % 2;
        qos = qos % 4;
        retained = retained % 2;
        topic = counted topic rest;
      } in
      deserialize_publish out
        (header_byte 3 dup qos retained ∷ length_bytes n ++ (string_bytes topic ++ rest))
      ≡ (if ltb 0 (qos % 4)
          then (read_int (at (start + 2 + length topic) rest) >>= λ (id, r).
              some (set_payload (record out2 { packetid = id }) (start + n) r))
          else some (set_payload out2 (start + n) (at (start + 2 + length topic) rest)))
unfolding deserialize_publish set_payload
topic_read out dup qos retained n topic rest small short fits =
    let from = 1 + length (length_bytes n) in
    let (is_type, is_dup, is_qos, is_retain) = header_byte_fields 3 dup qos retained in
    rw (
      read_char-at 0 (header_byte 3 dup qos retained)
          (length_bytes n ++ (string_bytes topic ++ rest)),
      is_type,
      read_length-at 1 n (string_bytes topic ++ rest) small,
      read_len_string-at out.topic from (from + n) topic rest short (omega arith),
      le→not_ltb (from + n) (from + 2 + length topic) (omega arith),
      is_dup,
      is_qos,
      is_retain,
    )

-- What the caller's variables hold after a packet is read: the topic and the payload are pointers
-- into the buffer.
abbrev pub read_publish : PublishOut → ℕ → ℕ → ℕ → ℕ → List ℕ → List ℕ → List ℕ → PublishOut
read_publish out dup qos retained packetid topic payload rest = record {
  dup = dup % 2;
  qos = qos % 4;
  retained = retained % 2;
  packetid = if ltb 0 qos then packetid else out.packetid;
  topic = counted topic (packetid_bytes qos packetid ++ (payload ++ rest));
  payload = payload ++ rest;
  payloadlen = pos (length payload);
}

body_append :
    (qos packetid : ℕ) (topic payload rest : List ℕ)
    → publish_body qos packetid topic payload ++ rest
      ≡ string_bytes topic ++ (packetid_bytes qos packetid ++ (payload ++ rest))
body_append qos packetid topic payload rest =
    append_assoc (string_bytes topic) (packetid_bytes qos packetid ++ payload) rest
    ∙ rw (append_assoc (packetid_bytes qos packetid) payload rest)

-- the length of the payload, by the difference of the pointers
sub_ℕ-add : (a b n : ℕ) → a ≡ b + n → sub_ℕ a b ≡ pos n
sub_ℕ-add a b n h = ground arith

-- the last steps, from the end of the topic at `p`
payload_read :
    (out : PublishOut) (qos packetid p enddata : ℕ) (payload rest : List ℕ)
    → qos < 4
    → packetid < 65536
    → enddata ≡ p + length (packetid_bytes qos packetid) + length payload
    → (if ltb 0 (qos % 4)
        then (read_int (at p (packetid_bytes qos packetid ++ (payload ++ rest))) >>= λ (id, r).
            some (set_payload (record out { packetid = id }) enddata r))
        else some
            (set_payload out enddata (at p (packetid_bytes qos packetid ++ (payload ++ rest)))))
      ≡ some (
        pos 1,
        record out {
          packetid = if ltb 0 qos then packetid else out.packetid;
          payload = payload ++ rest;
          payloadlen = pos (length payload);
        },
      )
unfolding set_payload
payload_read out zero packetid p enddata payload rest q id e =
    rw (sub_ℕ-add enddata p (length payload) (omega arith))
payload_read out (suc qos) packetid p enddata payload rest q id e =
    let above : ltb 0 (suc qos) ≡ true = lt→ltb 0 (suc qos) (omega arith) in
    rw (
      lt→ltb 0 (suc qos % 4) (omega arith),
      above,
      read_int-at p packetid (payload ++ rest) id,
      sub_ℕ-add enddata (p + 2) (length payload) (rw above at e),
    )

pub deserialize_publish-bytes :
    (out : PublishOut) (dup qos retained packetid : ℕ) (topic payload rest : List ℕ)
    → length (publish_body qos packetid topic payload) < 2 ^ 28
    → length topic < 65536
    → qos < 4
    → packetid < 65536
    → deserialize_publish out (publish_bytes dup qos retained packetid topic payload ++ rest)
      ≡ some (pos 1, read_publish out dup qos retained packetid topic payload rest)
deserialize_publish-bytes out dup qos retained packetid topic payload rest small short q id =
    let body = publish_body qos packetid topic payload in
    let from = 1 + length (length_bytes (length body)) in
    let size = length-append topic (packetid_bytes qos packetid ++ payload) in
    let tail = packetid_bytes qos packetid ++ (payload ++ rest) in
    rw
      (
        append_assoc (length_bytes (length body)) body rest,
        body_append qos packetid topic payload rest,
        topic_read out dup qos retained (length body) topic tail small short (omega (arith, size)),
      )
      (payload_read
        (record out {
          dup = dup % 2;
          qos = qos % 4;
          retained = retained % 2;
          topic = counted topic tail;
        })
        qos packetid (from + 2 + length topic) (from + length body) payload rest q id
        (omega (arith, size, length-append (packetid_bytes qos packetid) payload)))

-- Arguments that make a publish packet, with flags, a QoS level, a packet id and a topic that fit
-- their fields, in a buffer with the room that MQTTPacket_len asks for: what MQTTSerialize_publish
-- stores, MQTTDeserialize_publish reads back with result 1 and the same flags, QoS level, topic,
-- payload length and payload, and above QoS 0 the same packet id.
pub publish_roundtrip :
    (out : PublishOut) (buf : List ℕ) (buflen dup qos retained packetid : ℕ) (topic : MqttString)
    (payload : List ℕ) (payloadlen : ℕ)
    → IsPublish qos topic payload payloadlen
    → length (content topic) < 65536
    → dup < 2
    → qos < 4
    → retained < 2
    → packetid < 65536
    → buflen ≤ length buf
    → packet_len (publish_length qos topic payloadlen) ≤ buflen
    → (o : PublishOut) × ((serialize_publish buf buflen dup qos retained packetid topic payload
            payloadlen
          >>= λ (rc, sent). deserialize_publish out sent)
        ≡ some (pos 1, o))
      × (o.dup ≡ dup)
      × (o.qos ≡ qos)
      × (o.retained ≡ retained)
      × (o.packetid ≡ (if ltb 0 qos then packetid else out.packetid))
      × (content o.topic ≡ content topic)
      × (o.payloadlen ≡ pos payloadlen)
      × (take payloadlen o.payload ≡ take payloadlen payload)
publish_roundtrip out buf buflen dup qos retained packetid topic payload payloadlen v short d q r id
      room fits =
    let sent = take payloadlen payload in
    let size = publish_length-body dup qos retained packetid topic payload payloadlen v in
    let bytes = publish_bytes dup qos retained packetid (content topic) sent in
    let rest = drop (length bytes) buf in
    let paylen = length-take payloadlen payload v.given in
    (
      read_publish out dup qos retained packetid (content topic) sent rest,
      rw
          (
            serialize_publish_lem dup qos retained packetid topic payload payloadlen v buf buflen
                room,
            le→not_ltb buflen (packet_len (publish_length qos topic payloadlen)) fits,
          )
          (deserialize_publish-bytes out dup qos retained packetid (content topic) sent rest
            (rw (← size) v.fits) short q id),
      omega arith,
      omega arith,
      omega arith,
      refl,
      take-append (content topic) (packetid_bytes qos packetid ++ (sent ++ rest)),
      ap pos paylen,
      subst (λ k. take k (sent ++ rest) ≡ sent) paylen (take-append sent rest),
    )

-- On a publish packet above QoS 0 whose remaining length ends `k` bytes after the topic, fewer than
-- the two of the packet id, MQTTDeserialize_publish answers 1 with the payload length k - 2, which is
-- negative.
pub publish_negative_payload :
    (out : PublishOut) (dup qos retained k high low : ℕ) (topic rest : List ℕ)
    → 0 < qos
    → qos < 4
    → k < 2
    → length topic < 65536
    → high < 256
    → low < 256
    → (o : PublishOut) × (deserialize_publish out (
          header_byte 3 dup qos retained ∷ length_bytes (2 + length topic + k)
          ++ (string_bytes topic ++ (high ∷ low ∷ rest)))
        ≡ some (pos 1, o))
      × (o.payloadlen ≡ negsuc (1 - k))
unfolding set_payload read_int
publish_negative_payload out dup qos retained k high low topic rest above q short_id t h l =
    let n = 2 + length topic + k in
    let from = 1 + length (length_bytes n) in
    (
      record out {
        dup = dup % 2;
        qos = qos % 4;
        retained = retained % 2;
        packetid = 256 * high + low;
        topic = counted topic (high ∷ low ∷ rest);
        payload = rest;
        payloadlen = negsuc (1 - k);
      },
      topic_read out dup qos retained n topic (high ∷ low ∷ rest) (omega arith) t (omega arith)
          ∙ rw (lt→ltb 0 (qos % 4) (omega arith)) (ground arith),
      refl,
    )
