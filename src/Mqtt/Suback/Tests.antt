-- ===== src/Mqtt/Suback/Tests.antt =====
-- Subacks on which the theorems about them are run.
use remotus_hardware.Base.{ℕ, ◌≡◌, some, List, [], ◌∷◌, ◌>>=◌, take, replicate, arith, pos}
use remotus_hardware.Mqtt.Writer.Bytes.{digits}
use remotus_hardware.Mqtt.Suback.{SubackOut, serialize_suback, deserialize_suback}
use remotus_hardware.Mqtt.Suback.Laws.{code_bytes, suback_roundtrip}

abbrev blank : List ℕ
blank = replicate 10 0

abbrev levels : List ℕ
levels = 1 ∷ 2 ∷ 128 ∷ []

abbrev members : ℕ → SubackOut
members n = record { packetid = 0; count = 0; qoss = replicate n 0 }

suback_roundtrip_example :
    (o : SubackOut) × ((serialize_suback blank 10 513 3 levels >>= λ (rc, sent).
    deserialize_suback (members 4) 4 sent)
      ≡ some (pos 1, o))
    × (o.packetid ≡ 513)
    × (o.count ≡ 3)
    × (take 3 o.qoss ≡ code_bytes 3 levels)
unfolding digits
suback_roundtrip_example =
    suback_roundtrip (members 4) 4 blank 513 3 levels (omega arith) (omega arith) (omega arith)
      (omega arith) (omega arith) (omega arith)
