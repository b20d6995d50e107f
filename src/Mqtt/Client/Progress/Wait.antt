-- ===== src/Mqtt/Client/Progress/Wait.antt =====
-- cycle ends, and so do the loops of waitfor and yield.
use remotus_hardware.Base.{
  ℕ, zero, suc, ◌+◌, ◌*◌, ◌-◌, ◌≤◌, ◌<◌, ◌≡◌, refl, ◌∙◌, ◌⊎◌, inl, inr, Bool-cases, true, false,
  not, ◌||◌, Option, none, some, List, [], ◌∷◌, ◌==◌, if◌then◌else◌, ℤ, pos, is_nat, arith,
}
use remotus_hardware.Mqtt.MsgType.{MsgType, code}
use remotus_hardware.Mqtt.Publish.{deserialize_publish}
use remotus_hardware.Mqtt.Ack.{serialize_ack, serialize_pingreq}
use remotus_hardware.Mqtt.Client.Countdown.{Countdown, expired, countdown_ms}
use remotus_hardware.Mqtt.Client.Run.{Ends, Ends-bind, Ends-lift, Ends-if, Ends-weaken}
use remotus_hardware.Mqtt.Client.State.{
  Env, Client, MessageData, MessageHandler, success, failure, is_failure, max_mqtt_packet_size,
  to_ushort,
}
use remotus_hardware.Mqtt.Client.Transfer.{has_expired}
use remotus_hardware.Mqtt.Client.Cycle.{
  packet_length, message_of, handler_matches, call_attached, deliver_loop, deliver_message,
  send_length, ping, keepalive, acknowledge, after_switch, on_publish, on_packet, cycle, wait_loop,
  waitfor, yield_loop, yield,
}
use remotus_hardware.Mqtt.Client.Progress.{
  Moves, Later, Framed, Forward, Framed-trans, before_end, ticks_left,
}
use remotus_hardware.Mqtt.Client.Progress.Send.{left-pos, send_packet-Ends, read_packet-Ends}

module _ {W : Type 0} (env : Env W) (clock : W → ℕ) (rate : ℕ) (m : Moves env clock rate) where
  call_attached-Later :
      (f : Option ℕ) (md : MessageData) (s : ℤ × W)
      → Later env clock s.1 (call_attached env f md s).1
  unfolding call_attached
  call_attached-Later none md (rc, w) = (omega arith, omega arith)
  call_attached-Later (some f) md (rc, w) = (m.call_now f md w, m.call_clock f md w)

  deliver_loop-Ends :
      (hs : List MessageHandler) (md : MessageData) (s : ℤ × W)
      → Ends (λ r. Later env clock s.1 r.1) (deliver_loop env hs md s)
  unfolding deliver_loop
  deliver_loop-Ends [] md s = (omega arith, omega arith)
  deliver_loop-Ends (h ∷ hs) md s =
      Ends-lift (λ r. Later env clock s.1 r.1) (handler_matches h.topic_filter md.topic_name) _
        λ matches _. elim (Bool-cases matches) [
          | inl y ↦ rw y (
              let called = call_attached-Later h.fp md s in
              Ends-weaken (λ r. Later env clock (call_attached env h.fp md s).1 r.1) _ _
                (λ r later. (omega arith, omega arith))
                (deliver_loop-Ends hs md (call_attached env h.fp md s)))
          | inr n ↦ rw n (deliver_loop-Ends hs md s)
        ]

  deliver_message-Ends :
      (md : MessageData) (c : Client W) → Ends (Framed env clock c) (deliver_message env md c)
  unfolding deliver_message
  deliver_message-Ends md c =
      Ends-bind (λ r. Later env clock c.ipstack r.1) (Framed env clock c) _ _
        (deliver_loop-Ends c.message_handlers md (failure, c.ipstack))
        λ (rc, w) later. elim (Bool-cases (is_nat rc 0)) [
          | inl y ↦ rw y (later, refl)
          | inr n ↦
              let called = call_attached-Later c.default_message_handler md (rc, w) in
              rw n ((omega arith, omega arith), refl)
        ]

  pub send_length-Ends :
      (len : ℤ) (sendbuf : List ℕ) (start T : ℕ) (c : Client W)
      → start ≤ env.now c.ipstack
      → Ends (Framed env clock c) (send_length env len sendbuf (countdown_ms start T) c)
  unfolding send_length
  send_length-Ends len sendbuf start T c s =
      Ends-if (Framed env clock c) (packet_length len == 0) _ _
        (λ _. ((omega arith, omega arith), refl))
        (λ _.
          send_packet-Ends env clock rate m start T (packet_length len)
            (record c { sendbuf = sendbuf }) s)

  ping-Ends : (c : Client W) → Ends (Framed env clock c) (ping env c)
  unfolding ping
  ping-Ends c =
      Ends-lift (Framed env clock c) (serialize_pingreq c.sendbuf max_mqtt_packet_size) _
        λ (len, sendbuf) _.
          Ends-bind (Framed env clock c) (Framed env clock c) _ _
            (send_length-Ends len sendbuf (env.now c.ipstack) 1000 c (omega arith))
            λ (rc, c') later. elim (Bool-cases (is_nat rc 0)) [
              | inl y ↦ rw y later
              | inr n ↦ rw n later
            ]

  keepalive-Ends : (c : Client W) → Ends (Framed env clock c) (keepalive env c)
  unfolding keepalive
  keepalive-Ends c =
      let same : Framed env clock c (success, c) = ((omega arith, omega arith), refl) in
      Ends-if (Framed env clock c) (c.keep_alive_interval == 0) _ _ (λ _. same)
        (λ _.
          Ends-if (Framed env clock c)
            (has_expired env c.last_sent c || has_expired env c.last_received c) _ _
            (λ _.
              Ends-if (Framed env clock c) c.ping_outstanding _ _ (λ _. same) (λ _. ping-Ends c))
            (λ _. same))

  acknowledge-Ends :
      (qos id start T : ℕ) (c : Client W)
      → start ≤ env.now c.ipstack
      → Ends (Framed env clock c) (acknowledge env qos id (countdown_ms start T) c)
  unfolding acknowledge
  acknowledge-Ends qos id start T c s =
      Ends-if (Framed env clock c) (qos == 1 || qos == 2) _ _
        (λ _.
          Ends-lift (Framed env clock c)
            (serialize_ack c.sendbuf max_mqtt_packet_size
              (code (if qos == 1 then MsgType.puback else MsgType.pubrec)) 0 id)
            _ λ (len, sendbuf) _. send_length-Ends len sendbuf start T c s)
        (λ _. ((omega arith, omega arith), refl))

  after_switch-Ends : (rc : ℤ) (c : Client W) → Ends (Framed env clock c) (after_switch env rc c)
  unfolding after_switch
  after_switch-Ends rc c =
      Ends-bind (Framed env clock c) (Framed env clock c) _ _ (keepalive-Ends c)
        λ (_, c') later. later

  on_publish-Ends :
      (start T : ℕ) (c : Client W)
      → start ≤ env.now c.ipstack
      → Ends (Framed env clock c) (on_publish env (countdown_ms start T) c)
  unfolding on_publish
  on_publish-Ends start T c s =
      Ends-lift (Framed env clock c) (deserialize_publish env.automatic c.readbuf) _ λ (rc, out) _.
        Ends-if (Framed env clock c) (not (is_nat rc 1)) _ _
          (λ _. ((omega arith, omega arith), refl))
          λ _.
            Ends-bind (Framed env clock c) (Framed env clock c) _ _
              (deliver_message-Ends (message_of out) c)
              λ (_, c1) later.
                Ends-if (Framed env clock c) (out.qos == 0) _ _
                  (λ _. Framed-trans env clock c c1 (pos 0) _ later (after_switch-Ends success c1))
                  λ _. Framed-trans env clock c c1 (pos 0) _ later (
                    Ends-bind (Framed env clock c1) (Framed env clock c1) _ _
                      (acknowledge-Ends out.qos out.packetid start T c1 (omega arith))
                      λ (rc, c2) later2.
                        Ends-if (Framed env clock c1) (is_nat rc 0) _ _
                          (λ _.
                            Framed-trans env clock c1 c2 (pos 0) _ later2 (after_switch-Ends rc c2))
                          (λ _. later2))

  on_packet-Ends :
      (packet_type start T : ℕ) (c : Client W)
      → start ≤ env.now c.ipstack
      → Ends (Framed env clock c) (on_packet env packet_type (countdown_ms start T) c)
  unfolding on_packet
  on_packet-Ends packet_type start T c s =
      Ends-if (Framed env clock c) (packet_type == code MsgType.publish) _ _
        (λ _. on_publish-Ends start T c s)
        (λ _.
          Ends-if (Framed env clock c) (packet_type == code MsgType.pingresp) _ _
            (λ _. after_switch-Ends success (record c { ping_outstanding = false }))
            (λ _. after_switch-Ends success c))

  -- cycle ends, and the clock has moved.
  pub cycle-Ends :
      (start T : ℕ) (c : Client W)
      → start ≤ env.now c.ipstack
      → expired (env.now c.ipstack) (countdown_ms start T) ≡ false
      → Ends (Forward env clock c) (cycle env (countdown_ms start T) c)
  unfolding cycle
  cycle-Ends start T c s running =
      Ends-bind (Forward env clock c) (Forward env clock c) _ _
        (read_packet-Ends env clock rate m start T c running)
        λ (type, c1) later.
          Ends-bind (Framed env clock c1) (Forward env clock c) _ _
            (on_packet-Ends (to_ushort type) start T c1 (omega arith))
            λ (rc, c2) (further, e). ((omega arith, omega arith), omega arith, e ∙ later.2)

  -- How a wait ends: with the packet, or with its time over.
  abbrev pub Waited : ℕ → Countdown → Client W → ℤ × Client W → Type 0
  Waited packet_type timer c (rc, c') =
      Framed env clock c (rc, c')
      × ((is_nat rc packet_type ≡ true) ⊎ (expired (env.now c'.ipstack) timer ≡ true))

  wait_loop-Ends :
      (fuel packet_type start T : ℕ) (rc : ℤ) (c : Client W)
      → start ≤ env.now c.ipstack
      → rate * (start + T) - clock c.ipstack < fuel
      → Ends
          (Waited packet_type (countdown_ms start T) c)
          (wait_loop env fuel packet_type (countdown_ms start T) rc c)
  unfolding wait_loop has_expired
  wait_loop-Ends zero packet_type start T rc c s h = absurd (omega arith)
  wait_loop-Ends (suc fuel) packet_type start T rc c s h =
      let timer = countdown_ms start T in
      let P = Waited packet_type timer c in
      elim (Bool-cases (expired (env.now c.ipstack) timer)) [
        | inl over ↦ rw over (((omega arith, omega arith), refl), inr over)
        | inr running ↦
            let (_, _, before) = left-pos start T (env.now c.ipstack) running in
            let more = before_end env clock rate m start T c.ipstack s before in
            rw running (
              Ends-bind (Forward env clock c) P _ _ (cycle-Ends start T c s running)
                λ (rc', c') later.
                  Ends-if P (is_nat rc' packet_type) _ _ (λ y. ((later.0, later.2), inl y))
                    (λ _.
                      Ends-weaken (Waited packet_type timer c') P _
                        (λ (rc'', c'') ((further, f), e).
                          (((omega arith, omega arith), f ∙ later.2), e))
                        (wait_loop-Ends fuel packet_type start T rc' c' (omega arith)
                          (omega arith))))
      ]

  -- How yield ends.
  abbrev pub Yielded : Countdown → ℤ × Client W → Type 0
  Yielded timer (rc, c') =
      (rc ≡ failure) ⊎ ((rc ≡ success) × (expired (env.now c'.ipstack) timer ≡ true))

  yield_loop-Ends :
      (fuel start T : ℕ) (c : Client W)
      → start ≤ env.now c.ipstack
      → rate * (start + T) - clock c.ipstack < fuel
      → Ends (Yielded (countdown_ms start T)) (yield_loop env fuel (countdown_ms start T) c)
  unfolding yield_loop has_expired
  yield_loop-Ends zero start T c s h = absurd (omega arith)
  yield_loop-Ends (suc fuel) start T c s h =
      let timer = countdown_ms start T in
      elim (Bool-cases (expired (env.now c.ipstack) timer)) [
        | inl over ↦ rw over (inr (refl, over))
        | inr running ↦
            let (_, _, before) = left-pos start T (env.now c.ipstack) running in
            let more = before_end env clock rate m start T c.ipstack s before in
            rw running (
              Ends-bind (Forward env clock c) (Yielded timer) _ _ (cycle-Ends start T c s running)
                λ (rc, c') later.
                  Ends-if (Yielded timer) (is_failure rc) _ _ (λ _. inl refl)
                    (λ _. yield_loop-Ends fuel start T c' (omega arith) (omega arith)))
      ]

  -- On a network of which every read takes a tick of a clock at least, also where it fails at once,
  -- and every write that reports no error a byte or a millisecond (Moves): waitfor with a timer
  -- started before and with more fuel than the timer has ticks left ends, in a fault or a result; then
  -- the result is the packet's type, or the time is over.
  pub waitfor-Ends :
      (fuel packet_type start T : ℕ) (c : Client W)
      → start ≤ env.now c.ipstack
      → rate * (start + T) - clock c.ipstack < fuel
      → Ends
          (Waited packet_type (countdown_ms start T) c)
          (waitfor env fuel packet_type (countdown_ms start T) c)
  unfolding waitfor
  waitfor-Ends fuel packet_type start T c s h =
      wait_loop-Ends fuel packet_type start T failure c s h

  -- On a network of which every read takes a tick of a clock at least, also where it fails at once,
  -- and every write that reports no error a byte or a millisecond (Moves): yield with more fuel than
  -- the milliseconds asked for have ticks ends, in a fault or a result; the result is FAILURE, or
  -- SUCCESS once the time is over.
  pub yield-Ends :
      (fuel timeout_ms : ℕ) (c : Client W)
      → rate * timeout_ms < fuel
      → Ends (Yielded (countdown_ms (env.now c.ipstack) timeout_ms)) (yield env fuel timeout_ms c)
  unfolding yield
  yield-Ends fuel timeout_ms c h =
      let left =
        ticks_left env clock rate m (env.now c.ipstack) timeout_ms c.ipstack (omega arith) in
      yield_loop-Ends fuel (env.now c.ipstack) timeout_ms c (omega arith) (omega arith)
