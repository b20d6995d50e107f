-- ===== src/Mqtt/Connack/Tests.antt =====
-- Connacks on which the theorems about them are run.
use remotus_hardware.Base.{ℕ, ◌≡◌, some, List, ◌>>=◌, replicate, arith, pos}
use remotus_hardware.Mqtt.Connack.{ConnackOut, serialize_connack, deserialize_connack}
use remotus_hardware.Mqtt.Connack.Laws.{connack_roundtrip}

abbrev blank : List ℕ
blank = replicate 6 0

abbrev before : ConnackOut
before = record { session_present = 0; connack_rc = 255 }

connack_roundtrip_example :
    (serialize_connack blank 6 5 1 >>= λ (n, sent). deserialize_connack before sent)
    ≡ some (pos 1, record { session_present = 1; connack_rc = 5 })
connack_roundtrip_example = connack_roundtrip before blank 5 1 (omega arith) (omega arith)
