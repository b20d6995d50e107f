-- ===== src/Mqtt/Unsubscribe/Tests.antt =====
-- An unsubscription on which the theorems about it are run.
use remotus_hardware.Base.{
  ℕ, ◌≡◌, refl, none, some, List, [], ◌∷◌, ◌>>=◌, take, map, replicate, arith, pos,
}
use remotus_hardware.Mqtt.Text.{MqttString, null_string}
use remotus_hardware.Mqtt.Text.Laws.{content}
use remotus_hardware.Mqtt.Writer.{packet_len}
use remotus_hardware.Mqtt.Unsubscribe.{
  UnsubscribeOut, serialize_unsubscribe, deserialize_unsubscribe,
}
use remotus_hardware.Mqtt.Unsubscribe.Laws.{unsubscribe_roundtrip}

abbrev text : List ℕ → MqttString
text s = record { cstring = some s; lenstring = record { len = 0; bytes = none } }

abbrev filters : List MqttString
filters = text (b'w' ∷ b'/' ∷ b'+' ∷ []) ∷ text (b'#' ∷ []) ∷ []

abbrev blank : List ℕ
blank = replicate 20 0

abbrev room_for : ℕ → UnsubscribeOut
room_for n = record { dup = 0; packetid = 0; count = 0; topics = replicate n null_string }

unsubscribe_roundtrip_example :
    (o : UnsubscribeOut) × ((serialize_unsubscribe blank 20 1 513 2 filters >>= λ (rc, sent).
    deserialize_unsubscribe (room_for 3) sent)
      ≡ some (pos 1, o))
    × (o.dup ≡ 1)
    × (o.packetid ≡ 513)
    × (o.count ≡ 2)
    × (map content (take o.count o.topics) ≡ map content filters)
unfolding packet_len
unsubscribe_roundtrip_example =
    unsubscribe_roundtrip (room_for 3) blank 20 1 513 filters
      (refl, omega arith, (refl, omega arith, tt)) (omega arith) (omega arith) (omega arith)
      (omega arith) (omega arith)
