-- ===== src/Mqtt/Client/Transfer/Laws.antt =====
-- What sendPacket and readPacket do with a network that takes or gives the whole packet.
use native.Mathlib.Nat.{zero-add}
use remotus_hardware.Base.{
  Bool-cases, inl, inr, ℕ, suc, ◌+◌, ◌-◌, ◌≤◌, ◌<◌, ◌≡◌, refl, ◌==◌, true, false, leb,
  if◌then◌else◌, length, take, drop, ℤ, pos, negsuc, arith, lt→ltb, le→leb, ==-same, not_eq,
  le→not_ltb,
}
use remotus_hardware.Mqtt.Client.Countdown.{Countdown}
use remotus_hardware.Mqtt.Client.Run.{done, fault}
use remotus_hardware.Mqtt.Client.State.{Env, Client, success, failure}
use remotus_hardware.Mqtt.Client.Transfer.{
  has_expired, time_left, after_write, send_loop, send_rounds, record_sent, send_packet,
}

leb→le : (a b : ℕ) → leb a b ≡ true → a ≤ b
leb→le a b h = ground arith

module _ {W : Type 0} (env : Env W) where
  -- The world after the bytes from `sent` on were written.
  abbrev pub written : ℕ → ℕ → Countdown → Client W → ℤ × W
  written sent len timer c =
      env.write (take len (drop sent c.sendbuf)) (time_left env timer c) c.ipstack

  send_round :
      (fuel len sent n : ℕ) (timer : Countdown) (c : Client W)
      → sent < len
      → sent + len ≤ length c.sendbuf
      → has_expired env timer c ≡ false
      → (written sent len timer c).0 ≡ pos n
      → send_loop env (suc fuel) len timer sent c
        ≡ send_loop env fuel len timer
            (sent + n)
            (record c { ipstack = (written sent len timer c).1 })
  unfolding send_loop after_write
  send_round fuel len sent n timer c before room running took =
      rw (lt→ltb sent len before, running, le→leb (sent + len) (length c.sendbuf) room, took) refl

  send_ended :
      (fuel len sent : ℕ) (timer : Countdown) (c : Client W)
      → len ≤ sent
      → send_loop env (suc fuel) len timer sent c ≡ done (sent, c)
  unfolding send_loop
  send_ended fuel len sent timer c h = rw (le→not_ltb sent len h) refl

  send_outside :
      (fuel len sent : ℕ) (timer : Countdown) (c : Client W)
      → sent < len
      → leb (sent + len) (length c.sendbuf) ≡ false
      → has_expired env timer c ≡ false
      → send_loop env (suc fuel) len timer sent c ≡ fault
  unfolding send_loop
  send_outside fuel len sent timer c before outside running =
      rw (lt→ltb sent len before, running, outside) refl

  more_rounds :
      (len : ℕ) (timer : Countdown)
      → 1 < len
      → send_rounds len timer ≡ suc (suc (suc (len + timer.interval_end_ms - 2)))
  more_rounds len timer h = omega arith

  rounds :
      (len : ℕ) (timer : Countdown)
      → 0 < len
      → send_rounds len timer ≡ suc (suc (len + timer.interval_end_ms - 1))
  rounds len timer h = omega arith

  -- sendPacket with a timer that has not expired, for a packet that is not empty and lies in the
  -- buffer: where one write takes all its bytes, the result is SUCCESS, exactly those bytes were handed
  -- over, in that one write, and the keep-alive interval, if it is not 0, starts again.
  pub send_packet_whole :
      (len : ℕ) (timer : Countdown) (c : Client W)
      → 0 < len
      → len ≤ length c.sendbuf
      → has_expired env timer c ≡ false
      → (written 0 len timer c).0 ≡ pos len
      → send_packet env len timer c
        ≡ done (success, record_sent env (record c { ipstack = (written 0 len timer c).1 }))
  unfolding send_packet
  send_packet_whole len timer c some_bytes room running whole =
      let c' : Client W = record c { ipstack = (written 0 len timer c).1 } in
      let k = len + timer.interval_end_ms - 1 in
      rw
        (
          rounds len timer some_bytes,
          send_round (suc k) len 0 len timer c some_bytes (omega arith) running whole,
          zero-add,
          send_ended k len len timer c' (omega arith),
          ==-same len,
        )
        refl

  -- sendPacket where the first write reports an error
  pub send_packet_refused :
      (len k : ℕ) (timer : Countdown) (c : Client W)
      → 0 < len
      → len ≤ length c.sendbuf
      → has_expired env timer c ≡ false
      → (written 0 len timer c).0 ≡ negsuc k
      → send_packet env len timer c
        ≡ done (failure, record c { ipstack = (written 0 len timer c).1 })
  unfolding send_packet send_loop after_write
  send_packet_refused len k timer c some_bytes room running refused =
      rw
        (
          rounds len timer some_bytes,
          lt→ltb 0 len some_bytes,
          running,
          le→leb (0 + len) (length c.sendbuf) (omega arith),
          refused,
          not_eq 0 len (λ e. omega arith),
        )
        refl

  -- sendPacket with a timer that has not expired, where the first write takes `k` bytes, some but not
  -- all, and the timer has still not expired then: the next write is asked for as many bytes as the
  -- first, from the first byte that was not taken on. Where the buffer does not have so many bytes, the
  -- call is a fault. Where it has, and the write takes `n` bytes, as many as are left or more, the
  -- result is SUCCESS if they are exactly those that are left, and FAILURE if the network took more.
  pub send_packet_split :
      (len k n : ℕ) (timer : Countdown) (c : Client W)
      → 0 < k
      → k < len
      → len ≤ k + n
      → len ≤ length c.sendbuf
      → has_expired env timer c ≡ false
      → (written 0 len timer c).0 ≡ pos k
      → has_expired env timer (record c { ipstack = (written 0 len timer c).1 }) ≡ false
      → (k + len ≤ length c.sendbuf
          → (written k len timer (record c { ipstack = (written 0 len timer c).1 })).0 ≡ pos n)
      → send_packet env len timer c ≡ (
          let c1 : Client W = record c { ipstack = (written 0 len timer c).1 } in
          let c2 : Client W = record c { ipstack = (written k len timer c1).1 } in
          if leb (k + len) (length c.sendbuf)
          then (if k + n == len then done (success, record_sent env c2) else done (failure, c2))
          else fault)
  unfolding send_packet
  send_packet_split len k n timer c p q all room running first running2 second =
      let c1 : Client W = record c { ipstack = (written 0 len timer c).1 } in
      let f = len + timer.interval_end_ms - 2 in
      elim (Bool-cases (leb (k + len) (length c.sendbuf))) [
        | inl inside ↦
            let room2 : k + len ≤ length c.sendbuf = leb→le _ _ inside in
            rw
              (
                more_rounds len timer (omega arith),
                send_round (suc (suc f)) len 0 k timer c (omega arith) (omega arith) running first,
                zero-add,
                send_round (suc f) len k n timer c1 q room2 running2 (second room2),
                send_ended f len (k + n) timer (record c { ipstack = (written k len timer c1).1 })
                    all,
                inside,
              )
              refl
        | inr outside ↦
            rw
              (
                more_rounds len timer (omega arith),
                send_round (suc (suc f)) len 0 k timer c (omega arith) (omega arith) running first,
                zero-add,
                send_outside (suc f) len k timer c1 q outside running2,
                outside,
              )
              refl
      ]
