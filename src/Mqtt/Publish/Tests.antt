-- ===== src/Mqtt/Publish/Tests.antt =====
-- Publish packets on which the theorems about them are run.
use remotus_hardware.Base.{
  ℕ, ◌≡◌, refl, none, some, List, [], ◌∷◌, ◌>>=◌, length, take, replicate, arith, pos,
}
use remotus_hardware.Mqtt.Text.{MqttString, null_string, str_len}
use remotus_hardware.Mqtt.Text.Laws.{content}
use remotus_hardware.Mqtt.Writer.{packet_len}
use remotus_hardware.Mqtt.Publish.{
  PublishOut, publish_length, serialize_publish, deserialize_publish,
}
use remotus_hardware.Mqtt.Publish.Layout.{IsPublish, publish_body, publish_length-body}
use remotus_hardware.Mqtt.Publish.Laws.{publish_roundtrip}

abbrev wind : MqttString
wind = record {
  cstring = some (b'w' ∷ b'/' ∷ b'1' ∷ []);
  lenstring = record { len = 0; bytes = none };
}

abbrev speed : List ℕ
speed = b'1' ∷ b'7' ∷ b'.' ∷ b'5' ∷ []

abbrev blank : List ℕ
blank = replicate 32 0

abbrev nothing : PublishOut
nothing = record {
  dup = 0;
  qos = 0;
  retained = 0;
  packetid = 0;
  topic = null_string;
  payload = [];
  payloadlen = pos 0;
}

wind-IsPublish : IsPublish 1 wind speed 4
unfolding publish_length str_len
wind-IsPublish = record { text = refl; given = omega arith; fits = omega arith }

publish_roundtrip_example :
    (o : PublishOut) × ((serialize_publish blank 32 0 1 1 513 wind speed 4 >>= λ (rc, sent).
    deserialize_publish nothing sent)
      ≡ some (pos 1, o))
    × (o.dup ≡ 0)
    × (o.qos ≡ 1)
    × (o.retained ≡ 1)
    × (o.packetid ≡ 513)
    × (content o.topic ≡ content wind)
    × (o.payloadlen ≡ pos 4)
    × (take 4 o.payload ≡ speed)
unfolding publish_length packet_len str_len
publish_roundtrip_example =
    publish_roundtrip nothing blank 32 0 1 1 513 wind speed 4 wind-IsPublish (omega arith)
      (omega arith) (omega arith) (omega arith) (omega arith) (omega arith) (omega arith)

publish_length-body_example :
    publish_length 1 wind 4 ≡ length (publish_body 1 513 (content wind) speed)
publish_length-body_example = publish_length-body 0 1 1 513 wind speed 4 wind-IsPublish
