-- ===== src/Mqtt/Client/Progress/Send.antt =====
-- sendPacket and readPacket end.
use remotus_hardware.Base.{
  ℕ, zero, suc, ◌+◌, ◌-◌, ◌*◌, ◌/◌, ◌%◌, ◌≤◌, ◌<◌, ◌≡◌, refl, Bool-cases, inl, inr, false, not,
  ◌++◌, ltb, leb, ◌==◌, length, take, drop, ℤ, pos, negsuc, is_nat, arith,
}
use remotus_hardware.Mqtt.Writer.{encode}
use remotus_hardware.Mqtt.Reader.{decode_loop, decode}
use remotus_hardware.Mqtt.Stream.{first_char, type_at_start}
use remotus_hardware.Mqtt.Client.Countdown.{Countdown, expired, left_ms, read_ms, countdown_ms}
use remotus_hardware.Mqtt.Client.Run.{Run, lift, Ends, Ends-bind, Ends-lift, Ends-if, Ends-weaken}
use remotus_hardware.Mqtt.Client.State.{Env, Client, store_at}
use remotus_hardware.Mqtt.Client.Transfer.{
  has_expired, time_left, after_write, send_loop, send_rounds, record_sent, record_received,
  send_packet, read_char, decode_packet, read_into, read_rest, read_length, read_packet,
}
use remotus_hardware.Mqtt.Client.Progress.{
  Moves, Later, frame, Framed, Forward, Framed-trans, Forward-trans,
}

-- The time that a timer has left while it has not expired.
pub left-pos :
    (start T now : ℕ)
    → expired now (countdown_ms start T) ≡ false
    → (k : ℕ) × (left_ms now (countdown_ms start T) ≡ pos (suc k)) × (now - start < T)
unfolding expired left_ms read_ms countdown_ms
left-pos start T now h = (T - (now - start) - 1, ground arith, ground arith)

module _ {W : Type 0} (env : Env W) (clock : W → ℕ) (rate : ℕ) (m : Moves env clock rate)
    (start T : ℕ) where
  abbrev FramedSent : Client W → ℕ × Client W → Type 0
  FramedSent c (_, c') =
      Later env clock c.ipstack c'.ipstack × (frame env clock c' ≡ frame env clock c)

  -- One round from the write on, where the rounds after it end.
  write-Ends :
      (rc : ℤ) (w : W) (sent : ℕ) (again : ℕ → Client W → Run (ℕ × Client W)) (c : Client W)
      → Later env clock c.ipstack w
      → ((n : ℕ) → rc ≡ pos n → env.now c.ipstack < env.now w + n)
      → ((n : ℕ)
          → env.now c.ipstack < env.now w + n
          → Ends (FramedSent (record c { ipstack = w })) (again n (record c { ipstack = w })))
      → Ends (FramedSent c) (after_write rc sent again (record c { ipstack = w }))
  unfolding after_write
  write-Ends (negsuc k) w sent again c p moves h = (p, refl)
  write-Ends (pos n) w sent again c p moves h =
      Ends-weaken (FramedSent (record c { ipstack = w })) (FramedSent c)
        (again n (record c { ipstack = w })) (λ s (q, e). ((omega arith, omega arith), e))
        (h n (moves n refl))

  send_loop-Ends :
      (fuel len sent : ℕ) (c : Client W)
      → start ≤ env.now c.ipstack
      → T - (env.now c.ipstack - start) + (len - sent) < fuel
      → Ends (FramedSent c) (send_loop env fuel len (countdown_ms start T) sent c)
  unfolding send_loop has_expired time_left
  send_loop-Ends zero len sent c s h = absurd (omega arith)
  send_loop-Ends (suc fuel) len sent c s h =
      elim (Bool-cases (expired (env.now c.ipstack) (countdown_ms start T))) [
        | inl over ↦ rw over (elim (Bool-cases (ltb sent len)) [
          | inl more ↦ rw more ((omega arith, omega arith), refl)
          | inr ended ↦ rw ended ((omega arith, omega arith), refl)
        ])
        | inr running ↦
            let (k, left, before) = left-pos start T (env.now c.ipstack) running in
            rw (running, left)
              (elim (Bool-cases (ltb sent len)) [
                | inl more ↦ rw more (
                    Ends-if _ (leb (sent + len) (length c.sendbuf)) _ _
                      (λ _.
                        let bs = take len (drop sent c.sendbuf) in
                        let t = pos (suc k) in
                        let later = m.write_now bs t c.ipstack in
                        write-Ends (env.write bs t c.ipstack).0 (env.write bs t c.ipstack).1 sent
                          (λ n c'. send_loop env fuel len (countdown_ms start T) (sent + n) c') c
                          (later, m.write_clock bs t c.ipstack)
                          (λ n. m.write_moves bs k n c.ipstack)
                          (λ n moved.
                            send_loop-Ends fuel len (sent + n) _ (omega arith) (ground arith)))
                      (λ _. tt))
                | inr ended ↦ rw ended ((omega arith, omega arith), refl)
              ])
      ]

  -- sendPacket ends, whatever the network does.
  pub send_packet-Ends :
      (len : ℕ) (c : Client W)
      → start ≤ env.now c.ipstack
      → Ends (Framed env clock c) (send_packet env len (countdown_ms start T) c)
  unfolding send_packet record_sent countdown_ms
  send_packet-Ends len c s =
      Ends-bind (FramedSent c) (Framed env clock c)
        (send_loop env (send_rounds len (countdown_ms start T)) len (countdown_ms start T) 0 c) _
        (send_loop-Ends (send_rounds len (countdown_ms start T)) len 0 c s (omega arith))
        (λ (sent, c') later. ground arith)

module _ {W : Type 0} (env : Env W) (clock : W → ℕ) (rate : ℕ) (m : Moves env clock rate) where
  read_into-Ends :
      (at n : ℕ) (timer : Countdown) (c : Client W)
      → Ends (Framed env clock c) (read_into env at n timer c)
  unfolding read_into
  read_into-Ends at n timer c =
      let t = time_left env timer c in
      Ends-lift (Framed env clock c) (store_at at (env.read n t c.ipstack).1 c.readbuf) _ λ buf _.
        (let moved = m.read_clock n t c.ipstack in ((m.read_now n t c.ipstack, omega arith), refl))

  Framed-received :
      (c c' : Client W) (rc : ℤ)
      → Framed env clock c (rc, c')
      → Framed env clock c (rc, record_received env c')
  unfolding record_received
  Framed-received c c' rc later = elim (Bool-cases (ltb 0 c'.keep_alive_interval)) [
    | inl h ↦ rw h later
    | inr h ↦ rw h later
  ]

  pub record_received-Framed : (c : Client W) → Framed env clock c (pos 0, record_received env c)
  record_received-Framed c = Framed-received c c (pos 0) ((omega arith, omega arith), refl)

  read_rest-Ends :
      (len rem_len : ℕ) (timer : Countdown) (c : Client W)
      → Ends (Framed env clock c) (read_rest env len rem_len timer c)
  unfolding read_rest
  read_rest-Ends len rem_len timer c =
      Ends-bind (Framed env clock c) (Framed env clock c) _ _
        (Ends-if (Framed env clock c) (ltb 0 rem_len) _ _ (λ _. read_into-Ends len rem_len timer c)
          (λ _. ((omega arith, omega arith), refl)))
        (λ (rc, c') later.
          Ends-if (Framed env clock c) (not (is_nat rc rem_len)) _ _ (λ _. later)
            (λ _.
              Ends-lift (Framed env clock c) (type_at_start c'.readbuf) _
                λ type _. Framed-received c c' type later))

  decode_loop-Ends :
      (tries len multiplier value : ℕ) (t : ℤ) (w : W)
      → Ends
          (λ r. Later env clock w r.2)
          (lift (decode_loop (read_char env t) tries len multiplier value w))
  unfolding decode_loop read_char
  decode_loop-Ends zero len multiplier value t w = (omega arith, omega arith)
  decode_loop-Ends (suc tries) len multiplier value t w =
      let now = m.read_now 1 t w in
      let left = m.read_clock 1 t w in
      elim (Bool-cases (is_nat (env.read 1 t w).0 1)) [
        | inl one ↦ elim (Bool-cases (first_char (env.read 1 t w).1 / 128 % 2 == 1)) [
          | inl more ↦
              rw (one, more)
                (Ends-weaken (λ r. Later env clock (env.read 1 t w).2 r.2) _ _
                  (λ r later. (omega arith, omega arith))
                  (decode_loop-Ends tries (len + 1) (multiplier * 128)
                    (value + first_char (env.read 1 t w).1 % 128 * multiplier) t
                    (env.read 1 t w).2))
          | inr last ↦ rw (one, last) (now, omega arith)
        ]
        | inr other ↦ rw other (now, omega arith)
      ]

  read_length-Ends :
      (timer : Countdown) (c : Client W) → Ends (Framed env clock c) (read_length env timer c)
  unfolding read_length decode_packet decode
  read_length-Ends timer c =
      Ends-bind (λ r. Later env clock c.ipstack r.2) (Framed env clock c)
        (lift (decode_packet env (time_left env timer c) c.ipstack)) _
        (decode_loop-Ends 4 0 1 0 (time_left env timer c) c.ipstack)
        λ (_, rem_len, w) later.
          Ends-lift (Framed env clock c)
            (encode rem_len (record { before = take 1 c.readbuf; after = drop 1 c.readbuf })) _
            λ (count, after) _.
              let c' : Client W = record c { ipstack = w; readbuf = after.before ++ after.after } in
              Framed-trans env clock c c' (pos 0) _ (later, refl)
                (read_rest-Ends (1 + count) rem_len timer c')

  -- readPacket ends, and the clock has moved.
  pub read_packet-Ends :
      (start T : ℕ) (c : Client W)
      → expired (env.now c.ipstack) (countdown_ms start T) ≡ false
      → Ends (Forward env clock c) (read_packet env (countdown_ms start T) c)
  unfolding read_packet read_into time_left
  read_packet-Ends start T c running =
      let (k, left, _) = left-pos start T (env.now c.ipstack) running in
      let t = pos (suc k) in
      let now = m.read_now 1 t c.ipstack in
      let moved = m.read_clock 1 t c.ipstack in
      rw left (
        Ends-bind (Forward env clock c) (Forward env clock c) _ _
          (Ends-lift (Forward env clock c) (store_at 0 (env.read 1 t c.ipstack).1 c.readbuf) _
            λ buf _. ((now, omega arith), moved, refl))
          (λ (rc, c') later.
            Ends-if (Forward env clock c) (not (is_nat rc 1)) _ _ (λ _. later)
              λ _.
                Forward-trans env clock c c' rc _ later
                  (read_length-Ends (countdown_ms start T) c')))
