-- ===== src/Sensors/Dht/Tests.antt =====
-- Readings on which the theorems about the sensor are run.
use remotus_hardware.Base.{ℕ, ◌+◌, ◌%◌, ◌≡◌, true, some, [], ◌∷◌, ◌++◌, pos, replicate, arith}
use remotus_hardware.Sensors.Dht.{Pin, Dht, decode_bytes, read_data}
use remotus_hardware.Sensors.Dht.Laws.{IsReading, read_data-IsReading, bits, decode_bytes-bits}

-- A pin whose level changes from one read to the next.
abbrev toggling : Pin ℕ
toggling = record {
  read = λ w. (w % 2, w + 1);
  output = λ level w. w;
  input = λ w. w;
  wait_us = λ n w. w;
  time = λ w. 100;
}

abbrev unread : Dht
unread = record {
  last_read_time = 0;
  last_temperature = pos 0;
  last_humidity = pos 0;
  first_time = true;
  dht_type = 11;
  dht_data = replicate 6 0;
}

read_data-IsReading_example : IsReading (read_data toggling unread 3)
read_data-IsReading_example = read_data-IsReading toggling unread 3

-- 40 per cent at 25 degrees, with the sum 65
decode_bytes-bits_example :
    decode_bytes 5 0 (1 ∷ (bits 40 ++ (bits 0 ++ (bits 25 ++ (bits 0 ++ bits 65)))))
    ≡ some (40 ∷ 0 ∷ 25 ∷ 0 ∷ 65 ∷ [])
decode_bytes-bits_example =
    decode_bytes-bits 1 40 0 25 0 65 (omega arith) (omega arith) (omega arith) (omega arith)
      (omega arith)
