-- ===== src/Mqtt/Ack/Tests.antt =====
-- Acks on which the theorems about them are run.
use remotus_hardware.Base.{ℕ, ◌≡◌, some, List, ◌>>=◌, replicate, arith, pos}
use remotus_hardware.Mqtt.Ack.{AckOut, serialize_ack, deserialize_ack}
use remotus_hardware.Mqtt.Ack.Laws.{ack_roundtrip}

abbrev blank : List ℕ
blank = replicate 6 0

abbrev before : AckOut
before = record { packettype = 0; dup = 0; packetid = 77 }

ack_roundtrip_example :
    (serialize_ack blank 6 5 0 513 >>= λ (rc, sent). deserialize_ack before sent)
    ≡ some (pos 1, record { packettype = 5; dup = 0; packetid = 513 })
ack_roundtrip_example =
    ack_roundtrip before blank 6 5 0 513 (omega arith) (omega arith) (omega arith)
