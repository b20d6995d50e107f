-- ===== src/Sensors/Dht.antt =====
-- DHT/DHT.cpp and DHT/DHT.h: one reading of the sensor. The pin and the time are a world `W` with the
-- calls of mbed on it. A float that comes from an int is that int.
pub mod Laws
mod Tests
use remotus_hardware.Base.{
  ℕ, zero, suc, ◌+◌, ◌-◌, ◌*◌, ◌/◌, ◌%◌, ◌^◌, Bool, true, false, not, ◌&&◌, Option, none, some,
  List, [], ◌∷◌, ◌>>=◌, ltb, ◌==◌, if◌then◌else◌, replicate, set, drop, get_elem?, ℤ, pos, negsuc,
}

-- eError, less the two that nothing returns
pub data Error : Type 0 where
  error_none bus_busy error_not_present error_data_timeout error_checksum error_no_patience : Error

-- `read` is the level of the pin, 0 or 1; `output` drives it with a level, `input` lets it go.
pub record Pin (W : Type 0) : Type 0 where
  pub read : W → ℕ × W
  pub output : ℕ → W → W
  pub input : W → W
  pub wait_us : ℕ → W → W
  pub time : W → ℕ

pub record Dht : Type 0 where
  pub last_read_time : ℕ
  pub last_temperature : ℤ
  pub last_humidity : ℤ
  pub first_time : Bool
  pub dht_type : ℕ
  pub dht_data : List ℕ

abbrev pub dht_data_bit_count : ℕ
dht_data_bit_count = 41

-- `raw` is the memory of the object.
pub new_dht : Dht → ℕ → Dht
new_dht raw dht_type = record raw { dht_type = dht_type; first_time = true }

-- `b |= 1 << (7 - j)` for every j whose bit time is above 0: with a sum, as the bits differ. The first
-- argument counts the rounds left, so that j is 8 less it. A read past the array gives `none`.
unfoldable pub byte_from : ℕ → ℕ → List ℕ → Option ℕ
byte_from zero at bit_times = some 0
byte_from (suc left) at bit_times = do
  t ← get_elem? bit_times at
  b ← byte_from left (at + 1) bit_times
  some ((if ltb 0 t then 2 ^ left else 0) + b)

-- DHT_data from its member `i` on.
unfoldable pub decode_bytes : ℕ → ℕ → List ℕ → Option (List ℕ)
decode_bytes zero i bit_times = some []
decode_bytes (suc left) i bit_times = do
  b ← byte_from 8 (i * 8 + 1) bit_times
  bs ← decode_bytes left (i + 1) bit_times
  some (b ∷ bs)

module _ {W : Type 0} (pin : Pin W) where
  -- `do { if (retryCount > limit) return; retryCount++; wait_us(step); } while (DHT_io == level)`, with
  -- the rounds left: whether the level changed.
  unfoldable pub wait_while : ℕ → ℕ → ℕ → W → Bool × W
  wait_while zero level step w = (false, w)
  wait_while (suc tries) level step w =
      let (v, w') = pin.read (pin.wait_us step w) in
      let more = wait_while tries level step w' in if v == level then more else (true, w')

  -- `while (DHT_io == 1 && count < 100) { wait_us(1); count++; }`
  unfoldable pub while_high : ℕ → W → W
  while_high zero w = (pin.read w).1
  while_high (suc left) w =
      let (v, w') = pin.read w in
      let more = while_high left (pin.wait_us 1 w') in if v == 1 then more else w'

  -- The two loops over the bits as one, from the bit `k` on; whether no wait timed out, and bitTimes.
  unfoldable pub read_bits : ℕ → ℕ → List ℕ → W → Bool × List ℕ × W
  read_bits zero k bit_times w = (true, bit_times, w)
  read_bits (suc left) k bit_times w =
      let (rose, w1) = wait_while 76 0 1 w in
      let (v, w2) = pin.read (pin.wait_us 40 w1) in
      let more = read_bits left (k + 1) (set bit_times k v) (while_high 100 w2) in
      if rose then more else (false, bit_times, w1)

  -- the reset pulse
  unfoldable pub start_signal : W → W
  start_signal w = pin.input (pin.wait_us 40 (pin.output 1 (pin.wait_us 18000 (pin.output 0 w))))

  -- What went wrong on the bus, if anything did, and bitTimes, which is looked at only if nothing did.
  unfoldable pub sample : W → (Error × List ℕ) × W
  sample w =
      let (free, w1) = wait_while 126 0 2 w in
      let (present, w2) = wait_while 41 1 1 (start_signal w1) in
      let (whole, bit_times, w3) =
        read_bits 40 0 (replicate dht_data_bit_count 0) (pin.wait_us 80 w2) in
      let err =
        if not free
        then bus_busy
        else if not present
        then error_not_present
        else if not whole
        then error_data_timeout
        else error_none in
      let after =
        if not free
        then w1
        else if not present
        then w2
        else if not whole
        then w3
        else pin.output 1 w3 in
      ((err, bit_times), after)

-- -n as an int
abbrev pub negated : ℕ → ℤ
negated zero = pos 0
negated (suc n) = negsuc n

-- CalcTemperature, from DHT_data[2] and DHT_data[3]
unfoldable pub calc_temperature : ℕ → ℕ → ℕ → ℤ
calc_temperature dht_type high low =
    if dht_type == 11
    then pos high
    else if dht_type == 22
    then (let v : ℕ = (high % 128 * 256 + low) / 10 in
        if high / 128 % 2 == 1 then negated v else pos v)
    else pos 0

-- CalcHumidity, from DHT_data[0] and DHT_data[1]
unfoldable pub calc_humidity : ℕ → ℕ → ℕ → ℤ
calc_humidity dht_type high low =
    if dht_type == 11
    then pos high
    else if dht_type == 22
    then pos ((high * 256 + low) / 10)
    else pos 0

-- The bytes as they are stored, and the check of their sum.
unfoldable pub accept : ℕ → List ℕ → Dht → Option (Error × Dht)
accept now (b0 ∷ b1 ∷ b2 ∷ b3 ∷ b4 ∷ []) d =
    let d' : Dht = record d { dht_data = b0 ∷ b1 ∷ b2 ∷ b3 ∷ b4 ∷ drop 5 d.dht_data } in
    let good : Error × Dht = (
      error_none,
      record d' {
        last_read_time = now;
        last_temperature = calc_temperature d.dht_type b2 b3;
        last_humidity = calc_humidity d.dht_type b0 b1;
      },
    ) in
    let bad : Error × Dht = (error_checksum, d') in
    some (if b4 == (b0 + b1 + b2 + b3) % 256 then good else bad)
accept now _ d = none

-- what follows the samples
unfoldable pub evaluate : ℕ → Error × List ℕ → Dht → Option (Error × Dht)
evaluate now (error_none, bit_times) d = decode_bytes 5 0 bit_times >>= λ bytes. accept now bytes d
evaluate now (err, bit_times) d = some (err, d)

unfoldable pub read_data : {W : Type 0} → Pin W → Dht → W → Option ((Error × Dht) × W)
read_data {W} pin d w =
    let now = pin.time w in
    let d' : Dht =
      if d.first_time then record d { first_time = false; last_read_time = now } else d in
    let s = sample pin w in
    if not d.first_time && ltb now (d.last_read_time + 2)
    then some ((error_no_patience, d), w)
    else (evaluate now s.0 d' >>= λ r. (let after : (Error × Dht) × W = (r, s.1) in some after))
