-- ===== src/Mqtt/Subscribe/Tests.antt =====
-- Subscriptions on which the theorems about them are run.
use remotus_hardware.Base.{
  ℕ, ◌≡◌, refl, none, some, List, [], ◌∷◌, ◌>>=◌, take, map, replicate, arith, pos,
}
use remotus_hardware.Mqtt.Text.{MqttString, null_string}
use remotus_hardware.Mqtt.Text.Laws.{content}
use remotus_hardware.Mqtt.Writer.{packet_len}
use remotus_hardware.Mqtt.Subscribe.{SubscribeOut, serialize_subscribe, deserialize_subscribe}
use remotus_hardware.Mqtt.Subscribe.Layout.{Request}
use remotus_hardware.Mqtt.Subscribe.Laws.{subscribe_roundtrip}

abbrev text : List ℕ → MqttString
text s = record { cstring = some s; lenstring = record { len = 0; bytes = none } }

abbrev filters : List MqttString
filters = text (b'w' ∷ b'/' ∷ b'+' ∷ []) ∷ text (b'#' ∷ []) ∷ []

abbrev levels : List ℕ
levels = 1 ∷ 2 ∷ []

abbrev asked : List Request
asked = (b'w' ∷ b'/' ∷ b'+' ∷ [], 1) ∷ (b'#' ∷ [], 2) ∷ []

abbrev blank : List ℕ
blank = replicate 20 0

abbrev room_for : ℕ → SubscribeOut
room_for n = record {
  dup = 0;
  packetid = 0;
  count = 0;
  topics = replicate n null_string;
  qoss = replicate n 0;
}

subscribe_roundtrip_example :
    (o : SubscribeOut) × ((serialize_subscribe blank 20 1 513 2 filters levels >>= λ (rc, sent).
    deserialize_subscribe (room_for 3) sent)
      ≡ some (pos 1, o))
    × (o.dup ≡ 1)
    × (o.packetid ≡ 513)
    × (o.count ≡ 2)
    × (map content (take o.count o.topics) ≡ map (λ r. r.0) asked)
    × (take o.count o.qoss ≡ map (λ r. r.1) asked)
unfolding packet_len
subscribe_roundtrip_example =
    subscribe_roundtrip (room_for 3) blank 20 1 513 2 filters levels (refl, (refl, tt))
      (omega arith, (omega arith, tt)) (omega arith) (omega arith) (omega arith) (omega arith)
      (omega arith) (omega arith)
