-- ===== src/Mqtt/Writer/Tests.antt =====
-- Inputs on which the theorems about the writers are run.
use remotus_hardware.Base.{◌≡◌, some, length, ◌>>=◌, replicate, arith}
use remotus_hardware.Mqtt.Writer.{encode, start}
use remotus_hardware.Mqtt.Writer.Bytes.{write_bytes, length_bytes, encode_lem}

encode_lem_example : encode 300 (start (replicate 6 0)) ≡ (
    write_bytes (length_bytes 300) (start (replicate 6 0)) >>= λ w'.
    some (length (length_bytes 300), w'))
encode_lem_example = encode_lem 300 (start (replicate 6 0)) (omega arith)
