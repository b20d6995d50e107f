-- ===== src/Mqtt/Subscribe/Laws.antt =====
-- What MQTTDeserialize_subscribe answers on the packets of MQTTSerialize_subscribe.
use remotus_hardware.Base.{
  ℕ, ◌+◌, ◌%◌, ◌^◌, ◌≤◌, ◌<◌, ◌≡◌, refl, ap, subst, ◌∙◌, none, some, List, ◌++◌, ◌>>=◌, length,
  take, drop, map, pos, arith, le→not_ltb, store_all, take-store_all,
}
use native.Mathlib.Nat.{zero-add}
use remotus_hardware.Mqtt.Text.{MqttString}
use remotus_hardware.Mqtt.Text.Laws.{content}
use remotus_hardware.Mqtt.Writer.{packet_len}
use remotus_hardware.Mqtt.Writer.Bytes.{length_bytes}
use remotus_hardware.Mqtt.Subscribe.{SubscribeOut, serialize_subscribe, deserialize_subscribe}
use remotus_hardware.Mqtt.Subscribe.Layout.{
  Request, AreTexts, requests, subscribe_body, subscribe_bytes, serialize_subscribe_lem,
}
use remotus_hardware.Mqtt.Subscribe.Loop.{
  AreShort, pointers, length-pointers, content-pointers, length-levels, length-request_bytes,
  topics_loop-read, topics_loop-overrun, subscribe_read,
}

-- `count` filters that are texts of 16-bit length, in a buffer with the room that MQTTPacket_len asks
-- for: what MQTTSerialize_subscribe stores, MQTTDeserialize_subscribe reads back with result 1, the
-- same dup flag, packet id and count, and the same filters and levels (cut to a byte) in its arrays,
-- if these have members enough.
pub subscribe_roundtrip :
    (out : SubscribeOut) (buf : List ℕ) (buflen dup id count : ℕ) (topics : List MqttString)
    (qoss : List ℕ)
    → AreTexts count topics qoss
    → AreShort (requests count topics qoss)
    → length (subscribe_body id (requests count topics qoss)) < 2 ^ 28
    → id < 65536
    → buflen ≤ length buf
    → packet_len (length (subscribe_body id (requests count topics qoss))) ≤ buflen
    → length (requests count topics qoss) ≤ length out.topics
    → length (requests count topics qoss) ≤ length out.qoss
    → let reqs = requests count topics qoss in
      (o : SubscribeOut) × ((serialize_subscribe buf buflen dup id count topics qoss
          >>= λ (rc, sent). deserialize_subscribe out sent)
        ≡ some (pos 1, o))
      × (o.dup ≡ dup % 2)
      × (o.packetid ≡ id)
      × (o.count ≡ length reqs)
      × (map content (take o.count o.topics) ≡ map (λ r. r.0) reqs)
      × (take o.count o.qoss ≡ map (λ r. r.1) reqs)
subscribe_roundtrip out buf buflen dup id count topics qoss texts short small h room fits t q =
    let reqs = requests count topics qoss in
    let n = length (subscribe_body id reqs) in
    let rest = drop (length (subscribe_bytes dup id reqs)) buf in
    let from = 1 + length (length_bytes n) in
    let levels = map (λ r. r.1) reqs in
    (
      record {
        dup = dup % 2;
        packetid = id;
        count = length reqs;
        topics = store_all out.topics 0 (pointers reqs rest);
        qoss = store_all out.qoss 0 levels;
      },
      rw (
        serialize_subscribe_lem dup id count topics qoss texts small buf buflen room,
        le→not_ltb buflen (packet_len n) fits,
        subscribe_read out dup id reqs rest h small,
        topics_loop-read reqs (n + 1) (from + 2) (from + n)
            (record out { dup = dup % 2; packetid = id; count = 0 }) rest
            (omega (arith, length-request_bytes reqs)) short (omega arith) (omega arith)
            (omega arith),
        zero-add (length reqs),
      ),
      refl,
      refl,
      refl,
      ap (map content) (
            subst (λ k. take k (store_all out.topics 0 (pointers reqs rest)) ≡ pointers reqs rest)
              (length-pointers reqs rest)
              (rw zero-add at (
                take-store_all out.topics 0 (pointers reqs rest)
                  (omega (arith, length-pointers reqs rest)))))
          ∙ content-pointers reqs rest,
      subst (λ k. take k (store_all out.qoss 0 levels) ≡ levels) (length-levels reqs)
          (rw zero-add at (take-store_all out.qoss 0 levels (omega (arith, length-levels reqs)))),
    )

-- On a subscribe packet with more filters than the caller's arrays have members, whatever `maxcount`
-- is passed, MQTTDeserialize_subscribe writes past the end of the arrays.
pub subscribe_overrun :
    (out : SubscribeOut) (dup id : ℕ) (reqs : List Request) (rest : List ℕ)
    → AreShort reqs
    → id < 65536
    → length (subscribe_body id reqs) < 2 ^ 28
    → length out.topics ≡ length out.qoss
    → length out.topics < length reqs
    → deserialize_subscribe out (subscribe_bytes dup id reqs ++ rest) ≡ none
subscribe_overrun out dup id reqs rest short h small same over =
    let n = length (subscribe_body id reqs) in
    let from = 1 + length (length_bytes n) in
    rw (
      subscribe_read out dup id reqs rest h small,
      topics_loop-overrun reqs (n + 1) (from + 2) (from + n)
          (record out { dup = dup % 2; packetid = id; count = 0 }) rest
          (omega (arith, length-request_bytes reqs)) short (omega arith) same (omega arith)
          (omega arith),
    )
