-- ===== src/Mqtt/Client/Session/Refusal.antt =====
-- connect where a connack arrives and a publish is in flight, from the bytes of the network on.
use remotus_hardware.Base.{
  ℕ, suc, ◌-◌, ◌<◌, ◌≤◌, ◌≡◌, ◌≢◌, refl, ap, ◌∙◌, true, false, List, [], ◌∷◌, length, drop, take,
  pos, ℤ, arith, lt→ltb, le→leb, not_eq, ltb,
}
use remotus_hardware.Mqtt.MsgType.{MsgType, code}
use remotus_hardware.Mqtt.Writer.Bytes.{digits}
use remotus_hardware.Mqtt.Connack.Laws.{connack_read}
use remotus_hardware.Mqtt.Client.Countdown.{Countdown, expired, left_ms}
use remotus_hardware.Mqtt.Client.Run.{done}
use remotus_hardware.Mqtt.Client.State.{Env, Client, success, to_ushort}
use remotus_hardware.Mqtt.Client.Transfer.{
  has_expired, time_left, record_sent, record_received, read_packet,
}
use remotus_hardware.Mqtt.Client.Transfer.Laws.{send_packet_whole}
use remotus_hardware.Mqtt.Client.Transfer.Receive.{Supplies, read_packet_lem}
use remotus_hardware.Mqtt.Client.Cycle.{
  keepalive, after_switch, on_packet, cycle, wait_loop, waitfor,
}
use remotus_hardware.Mqtt.Client.Session.{
  close_on_failure, open_on_success, arrives, read_connack, publish_sent, resend, wait_connack,
}

module _ {W : Type 0} (env : Env W) where
  -- The client that has read a connack.
  abbrev pub with_connack : Client W → W → ℕ → ℕ → Client W
  with_connack c w flags rc = record c {
    ipstack = w;
    readbuf = 0x20 ∷ 2 ∷ flags ∷ rc ∷ drop 2 (drop 2 c.readbuf);
  }

  sent_idle : (c : Client W) → c.keep_alive_interval ≡ 0 → record_sent env c ≡ c
  unfolding record_sent
  sent_idle c no_keepalive =
      let off : ltb 0 c.keep_alive_interval ≡ false = ap (ltb 0) no_keepalive in rw off refl

  received_idle : (c : Client W) → c.keep_alive_interval ≡ 0 → record_received env c ≡ c
  unfolding record_received
  received_idle c no_keepalive =
      let off : ltb 0 c.keep_alive_interval ≡ false = ap (ltb 0) no_keepalive in rw off refl

  connack_packet :
      (arrived : W → List ℕ) (s : Supplies env arrived) (timer : Countdown) (c : Client W)
      (flags rc : ℕ) (rest : List ℕ)
      → c.keep_alive_interval ≡ 0
      → 4 ≤ length c.readbuf
      → arrived c.ipstack ≡ 0x20 ∷ 2 ∷ flags ∷ rc ∷ rest
      → (w : W) × (read_packet env timer c ≡ done (pos 2, with_connack c w flags rc))
        × (arrived w ≡ rest)
  unfolding digits
  connack_packet arrived s timer c flags rc rest no_keepalive room v =
      let (w, run, v1) =
        read_packet_lem env arrived s 0x20 (flags ∷ rc ∷ []) rest timer c (omega arith)
          (omega arith) v in
      let c1 = with_connack c w flags rc in
      (
        w,
        run
            ∙ rw (le→leb 2 (length c.readbuf - 2) (omega arith)) (
                ap (λ (d : Client W). (let r : ℤ × Client W = (pos 2, d) in done r))
                  (received_idle c1 no_keepalive)),
        v1,
      )

  connack_cycle :
      (timer : Countdown) (c c1 : Client W)
      → c1.keep_alive_interval ≡ 0
      → read_packet env timer c ≡ done (pos 2, c1)
      → cycle env timer c ≡ done (pos 2, c1)
  unfolding cycle on_packet after_switch keepalive to_ushort
  connack_cycle timer c c1 no_keepalive run = rw (run, no_keepalive) refl

  connack_arrives :
      (fuel : ℕ) (timer : Countdown) (c c1 : Client W)
      → has_expired env timer c ≡ false
      → cycle env timer c ≡ done (pos 2, c1)
      → arrives env (suc fuel) (code MsgType.connack) timer c ≡ done (true, c1)
  unfolding arrives waitfor wait_loop
  connack_arrives fuel timer c c1 running run = rw (running, run) refl

  -- The publish in flight is sent again in one write, and no puback is awaited.
  publish_resent :
      (fuel : ℕ) (timer : Countdown) (rc : ℤ) (c : Client W)
      → c.keep_alive_interval ≡ 0
      → 0 < c.inflight_msgid
      → c.inflight_qos ≢ 1
      → 0 < c.inflight_len
      → c.inflight_len ≤ length c.pubbuf
      → has_expired env timer c ≡ false
      → (env.write (take c.inflight_len c.pubbuf) (time_left env timer c) c.ipstack).0
        ≡ pos c.inflight_len
      → (w : W) × (resend env fuel timer (rc, c)
          ≡ done (success, record c { sendbuf = c.pubbuf; ipstack = w }))
  unfolding resend publish_sent close_on_failure has_expired time_left
  publish_resent fuel timer rc c no_keepalive inflight qos some_bytes room running whole =
      let c1 : Client W = record c { sendbuf = c.pubbuf } in
      (
        (env.write (take c.inflight_len c.pubbuf) (time_left env timer c) c.ipstack).1,
        rw
            (
              lt→ltb 0 c.inflight_msgid inflight,
              send_packet_whole env c.inflight_len timer c1 some_bytes room running whole,
              not_eq c.inflight_qos 1 qos,
              sent_idle
                  (record c1 {
                    ipstack =
                        (env.write (take c.inflight_len c.pubbuf) (time_left env timer c)
                          c.ipstack).1;
                  })
                  no_keepalive,
            )
            refl,
      )

module _ {W : Type 0} (env : Env W) (arrived : W → List ℕ) (s : Supplies env arrived) where
  -- connect behind the connect packet that was sent, where a whole connack has arrived with any return
  -- code, also a refusal, and a publish at QoS 0 or 2 is in flight, which the network takes in one
  -- write before the timer expires, in the world that readPacket leaves, without a keep-alive interval: the result is SUCCESS and the
  -- client counts as connected, whatever the return code was.
  pub connect_hides_refusal :
      (fuel : ℕ) (timer : Countdown) (c : Client W) (flags rc : ℕ) (rest : List ℕ)
      → c.keep_alive_interval ≡ 0
      → 4 ≤ length c.readbuf
      → has_expired env timer c ≡ false
      → arrived c.ipstack ≡ 0x20 ∷ 2 ∷ flags ∷ rc ∷ rest
      → 0 < c.inflight_msgid
      → c.inflight_qos ≢ 1
      → 0 < c.inflight_len
      → c.inflight_len ≤ length c.pubbuf
      → ((w : W)
          → read_packet env timer c ≡ done (pos 2, with_connack env c w flags rc)
          → (expired (env.now w) timer ≡ false)
            × ((env.write (take c.inflight_len c.pubbuf) (left_ms (env.now w) timer) w).0
                ≡ pos c.inflight_len))
      → (c' : Client W) × (wait_connack env (suc fuel) timer c ≡ done (success, c'))
        × (c'.isconnected ≡ true)
  unfolding wait_connack read_connack open_on_success has_expired time_left
  connect_hides_refusal fuel timer c flags rc rest no_keepalive room running v inflight qos
        some_bytes fits network =
      let (w, read, v1) = connack_packet env arrived s timer c flags rc rest no_keepalive room v in
      let c1 = with_connack env c w flags rc in
      let (in_time, whole) = network w read in
      let (w2, resent) =
        publish_resent env (suc fuel) timer (pos rc) c1 no_keepalive inflight qos some_bytes fits
          in_time whole in
      (
        record c1 { sendbuf = c.pubbuf; ipstack = w2; isconnected = true },
        rw
            (
              received_idle env c no_keepalive,
              connack_arrives env fuel timer c c1 running
                  (connack_cycle env timer c c1 no_keepalive read),
              connack_read (record { session_present = 0; connack_rc = 255 }) flags rc
                  (drop 2 (drop 2 c.readbuf)),
              resent,
            )
            refl,
        refl,
      )
