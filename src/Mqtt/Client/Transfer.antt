-- ===== src/Mqtt/Client/Transfer.antt =====
-- MQTT/MQTTClient.h: sendPacket, decodePacket and readPacket. The lines of MQTT_DEBUG, which is not
-- defined, are left out.
pub mod Laws
pub mod Receive
use remotus_hardware.Base.{
  ℕ, zero, suc, ◌+◌, Bool, not, ◌&&◌, Option, none, some, List, [], ◌∷◌, ◌++◌, ltb, leb, ◌==◌,
  if◌then◌else◌, length, take, drop, ℤ, pos, negsuc, is_nat,
}
use remotus_hardware.Mqtt.Header.{header_type}
use remotus_hardware.Mqtt.Writer.{Writer, encode}
use remotus_hardware.Mqtt.Reader.{decode}
use remotus_hardware.Mqtt.Stream.{first_char, type_at_start}
use remotus_hardware.Mqtt.Client.Countdown.{Countdown, expired, left_ms, countdown}
use remotus_hardware.Mqtt.Client.Run.{Run, done, fault, out_of_fuel, ◌>>=◌, lift}
use remotus_hardware.Mqtt.Client.State.{Env, Client, success, failure, store_at}

-- The rounds that a loop needs whose every round sends a byte or takes a millisecond.
abbrev pub send_rounds : ℕ → Countdown → ℕ
send_rounds len timer = len + timer.interval_end_ms + 1

-- `if (rc < 0) break; sent += rc;`
unfoldable pub after_write :
    {W : Type 0} → ℤ → ℕ → (ℕ → Client W → Run (ℕ × Client W)) → Client W → Run (ℕ × Client W)
after_write (negsuc k) sent again c = done (sent, c)
after_write (pos n) sent again c = again n c

module _ {W : Type 0} (env : Env W) where
  unfoldable pub has_expired : Countdown → Client W → Bool
  has_expired timer c = expired (env.now c.ipstack) timer

  unfoldable pub time_left : Countdown → Client W → ℤ
  time_left timer c = left_ms (env.now c.ipstack) timer

  -- The loop, with `sent`; its result is `sent` when it ends. The network is asked to send `length`
  -- bytes from `&sendbuf[sent]` on: it is a fault if they are not all there.
  unfoldable pub send_loop : ℕ → ℕ → Countdown → ℕ → Client W → Run (ℕ × Client W)
  send_loop zero len timer sent c = out_of_fuel
  send_loop (suc fuel) len timer sent c =
      let again = λ (n : ℕ) (c' : Client W). send_loop fuel len timer (sent + n) c' in
      if ltb sent len && not (has_expired timer c)
      then if leb (sent + len) (length c.sendbuf)
        then (let (rc, w) =
              env.write (take len (drop sent c.sendbuf)) (time_left timer c) c.ipstack in
            let c' : Client W = record c { ipstack = w } in after_write rc sent again c')
        else fault
      else done (sent, c)

  unfoldable pub record_sent : Client W → Client W
  record_sent c =
      if ltb 0 c.keep_alive_interval
      then record c { last_sent = countdown (env.now c.ipstack) c.keep_alive_interval }
      else c

  unfoldable pub record_received : Client W → Client W
  record_received c =
      if ltb 0 c.keep_alive_interval
      then record c { last_received = countdown (env.now c.ipstack) c.keep_alive_interval }
      else c

  unfoldable pub send_packet : ℕ → Countdown → Client W → Run (ℤ × Client W)
  send_packet len timer c = do
    (sent, c') ← send_loop (send_rounds len timer) len timer 0 c
    if sent == len then done (success, record_sent c') else done (failure, c')

  -- `ipstack.read(&c, 1, timeout)`
  unfoldable pub read_char : ℤ → ℕ → W → Option (ℤ × ℕ × W)
  read_char timeout n w =
      let (rc, bytes, w') = env.read n timeout w in some (rc, first_char bytes, w')

  -- The loop is the one of MQTTPacket_decode, with another source of characters; the result is `len`
  -- and `*value`.
  unfoldable pub decode_packet : ℤ → W → Option (ℕ × ℕ × W)
  decode_packet timeout w = decode (read_char timeout) w

  -- `ipstack.read(readbuf + at, n, timer.left_ms())`
  unfoldable pub read_into : ℕ → ℕ → Countdown → Client W → Run (ℤ × Client W)
  read_into at n timer c =
      let (rc, bytes, w) = env.read n (time_left timer c) c.ipstack in
      do
        buf ← lift (store_at at bytes c.readbuf)
        done (rc, record c { ipstack = w; readbuf = buf })

  -- step 3
  unfoldable pub read_rest : ℕ → ℕ → Countdown → Client W → Run (ℤ × Client W)
  read_rest len rem_len timer c = do
    (rc, c) ← (if ltb 0 rem_len then read_into len rem_len timer c else done (pos 0, c))
    if not (is_nat rc rem_len)
        then done (failure, c)
        else (do type ← lift (type_at_start c.readbuf); done (type, record_received c))

  -- step 2: `readbuf + 1` is where the length is put
  unfoldable pub read_length : Countdown → Client W → Run (ℤ × Client W)
  read_length timer c = do
    (_, rem_len, w) ← lift (decode_packet (time_left timer c) c.ipstack)
    (count, after) ←
        lift (encode rem_len (record { before = take 1 c.readbuf; after = drop 1 c.readbuf }))
    read_rest (1 + count) rem_len timer
        (record c { ipstack = w; readbuf = after.before ++ after.after })

  unfoldable pub read_packet : Countdown → Client W → Run (ℤ × Client W)
  read_packet timer c = do
    (rc, c) ← read_into 0 1 timer c
    if not (is_nat rc 1) then done (failure, c) else read_length timer c
