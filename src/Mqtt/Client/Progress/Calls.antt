-- ===== src/Mqtt/Client/Progress/Calls.antt =====
-- The parts of connect, subscribe, unsubscribe and publish end.
use remotus_hardware.Base.{
  ℕ, ◌*◌, ◌≤◌, ◌<◌, ◌≡◌, refl, ◌∙◌, ap, Bool-cases, inl, inr, Bool, true, false, not, ◌&&◌, List,
  ltb, ◌==◌, if◌then◌else◌, ℤ, pos, is_nat, arith,
}
use remotus_hardware.Mqtt.MsgType.{MsgType, code}
use remotus_hardware.Mqtt.Ack.{deserialize_ack}
use remotus_hardware.Mqtt.Connack.{deserialize_connack}
use remotus_hardware.Mqtt.Client.Countdown.{countdown_ms}
use remotus_hardware.Mqtt.Client.Run.{
  Run, done, ◌>>=◌, Ends, Ends-bind, Ends-lift, Ends-if, Ends-weaken,
}
use remotus_hardware.Mqtt.Client.State.{Env, Client, failure}
use remotus_hardware.Mqtt.Client.Transfer.{record_received}
use remotus_hardware.Mqtt.Client.Session.{
  close_on_failure, open_on_success, arrives, read_puback, publish_sent, read_connack, resend,
  wait_connack, request,
}
use remotus_hardware.Mqtt.Client.Progress.{
  Moves, Later, Framed, Kept, Closes, Opens, Kept-trans, ticks_left,
}
use remotus_hardware.Mqtt.Client.Progress.Send.{send_packet-Ends, record_received-Framed}
use remotus_hardware.Mqtt.Client.Progress.Wait.{Waited, waitfor-Ends, send_length-Ends}

and_false : (b : Bool) → (b && false) ≡ false
and_false true = refl
and_false false = refl

module _ {W : Type 0} (env : Env W) (clock : W → ℕ) (rate : ℕ) (m : Moves env clock rate)
    (fuel start T : ℕ) where
  -- The time has not run back before the timer, and the fuel covers the wait.
  abbrev InTime : Client W → Type 0
  InTime c = (start ≤ env.now c.ipstack) × (rate * T < fuel)

  Framed→Kept : (c : Client W) (r : ℤ × Client W) → Framed env clock c r → Kept env clock c r
  Framed→Kept c (rc, c') (later, e) = (later, ap (λ t. t.0) e)

  arrives-Ends :
      (packet_type : ℕ) (c : Client W)
      → InTime c
      → Ends
          (λ (b, c'). Kept env clock c (pos 0, c'))
          (arrives env fuel packet_type (countdown_ms start T) c)
  unfolding arrives
  arrives-Ends packet_type c (s, h) =
      Ends-bind (Waited env clock rate m packet_type (countdown_ms start T) c)
        (λ (b, c'). Kept env clock c (pos 0, c')) _ _
        (waitfor-Ends env clock rate m fuel packet_type start T c s
          (let left = ticks_left env clock rate m start T c.ipstack s in omega arith))
        (λ (rc, c') waited. Framed→Kept c (rc, c') waited.0)

  read_puback-Ends : (c : Client W) → Ends (Kept env clock c) (read_puback env fuel c)
  unfolding read_puback
  read_puback-Ends c = Ends-lift (Kept env clock c) (deserialize_ack _ c.readbuf) _ λ (rc, out) _.
      Ends-if (Kept env clock c) (not (is_nat rc 1)) _ _ (λ _. ((omega arith, omega arith), refl))
        (λ _. elim (Bool-cases (c.inflight_msgid == out.packetid)) [
          | inl y ↦ rw y ((omega arith, omega arith), refl)
          | inr n ↦ rw n ((omega arith, omega arith), refl)
        ])

  close_on_failure-Closes :
      (c : Client W) (r : ℤ × Client W)
      → Kept env clock c r
      → Closes env clock c (close_on_failure r)
  unfolding close_on_failure
  close_on_failure-Closes c (rc, c') (later, e) = elim (Bool-cases (is_nat rc 0)) [
    | inl y ↦ rw y (later, e)
    | inr n ↦ rw n (later, refl)
  ]

  -- An answer that is awaited and read.
  answer-Ends :
      (packet_type : ℕ) (read_answer : Client W → Run (ℤ × Client W)) (c : Client W)
      → InTime c
      → ((c' : Client W) → Ends (Kept env clock c') (read_answer c'))
      → Ends (Kept env clock c) (
          arrives env fuel packet_type (countdown_ms start T) c >>= λ (arrived, c').
          (if arrived then read_answer c' else done (failure, c')))
  answer-Ends packet_type read_answer c t h =
      Ends-bind (λ (b, c'). Kept env clock c (pos 0, c')) (Kept env clock c) _ _
        (arrives-Ends packet_type c t)
        λ (arrived, c') later.
          Ends-if (Kept env clock c) arrived _ _
            (λ _. Kept-trans env clock c c' (pos 0) _ later (h c')) (λ _. later)

  pub publish_sent-Ends :
      (len qos : ℕ) (c : Client W)
      → InTime c
      → Ends (Closes env clock c) (publish_sent env fuel len (countdown_ms start T) qos c)
  unfolding publish_sent
  publish_sent-Ends len qos c (s, h) =
      Ends-bind (Framed env clock c) (Closes env clock c) _ _
        (send_packet-Ends env clock rate m start T len c s)
        λ (rc, c1) later.
          Ends-bind (Kept env clock c) (Closes env clock c) _ _
            (Ends-if (Kept env clock c) (is_nat rc 0) _ _
              (λ _.
                Ends-if (Kept env clock c) (qos == 1) _ _
                  (λ _. Kept-trans env clock c c1 rc _ (Framed→Kept c (rc, c1) later) (
                    answer-Ends (code MsgType.puback) (read_puback env fuel) c1
                      (omega arith, omega arith) read_puback-Ends))
                  (λ _. Framed→Kept c (rc, c1) later))
              (λ _. Framed→Kept c (rc, c1) later))
            (λ r further. close_on_failure-Closes c r further)

  pub request-Ends :
      (answer : ℕ) (sent : ℤ × List ℕ) (read_answer : Client W → Run (ℤ × Client W)) (c : Client W)
      → InTime c
      → ((c' : Client W) → Ends (Kept env clock c') (read_answer c'))
      → Ends
          (Closes env clock c)
          (request env fuel answer sent (countdown_ms start T) read_answer c)
  unfolding request
  request-Ends answer (len, sendbuf) read_answer c (s, h) k =
      Ends-bind (Framed env clock c) (Closes env clock c) _ _
        (send_length-Ends env clock rate m len sendbuf start T c s)
        λ (rc, c1) later.
          Ends-bind (Kept env clock c) (Closes env clock c) _ _
            (Ends-if (Kept env clock c) (is_nat rc 0) _ _
              (λ _.
                Kept-trans env clock c c1 rc _ (Framed→Kept c (rc, c1) later)
                  (answer-Ends answer read_answer c1 (omega arith, omega arith) k))
              (λ _. Framed→Kept c (rc, c1) later))
            (λ r further. close_on_failure-Closes c r further)

  read_connack-Ends : (c : Client W) → Ends (Kept env clock c) (read_connack env fuel c)
  unfolding read_connack
  read_connack-Ends c =
      Ends-lift (Kept env clock c) (deserialize_connack _ c.readbuf) _
        λ (rc, out) _. ((omega arith, omega arith), refl)

  -- A client that is not connected stays so.
  abbrev StaysOut : Client W → ℤ × Client W → Type 0
  StaysOut c (_, c') = Later env clock c.ipstack c'.ipstack × (c'.isconnected ≡ false)

  resend-Ends :
      (rc : ℤ) (c : Client W)
      → InTime c
      → c.isconnected ≡ false
      → Ends (StaysOut c) (resend env fuel (countdown_ms start T) (rc, c))
  unfolding resend
  resend-Ends rc c t out =
      Ends-if (StaysOut c) (ltb 0 c.inflight_msgid) _ _
        (λ _.
          Ends-weaken (Closes env clock (record c { sendbuf = c.pubbuf })) (StaysOut c) _
            (λ (rc', c') (later, e). (later, e ∙ rw out (and_false (is_nat rc' 0))))
            (publish_sent-Ends c.inflight_len c.inflight_qos (record c { sendbuf = c.pubbuf }) t))
        (λ _. ((omega arith, omega arith), out))

  open_on_success-Opens :
      (c : Client W) (r : ℤ × Client W) → StaysOut c r → Opens env clock c (open_on_success r)
  unfolding open_on_success
  open_on_success-Opens c (rc, c') (later, out) = elim (Bool-cases (is_nat rc 0)) [
    | inl y ↦ rw y (later, refl)
    | inr n ↦ rw n (later, out)
  ]

  await_connack-Ends :
      (c : Client W)
      → InTime c
      → c.isconnected ≡ false
      → Ends (Opens env clock c) (
          arrives env fuel (code MsgType.connack) (countdown_ms start T) c >>= λ (arrived, c1).
          ((if arrived then read_connack env fuel c1 else done (failure, c1)) >>= λ s.
          (resend env fuel (countdown_ms start T) s >>= λ r. done (open_on_success r))))
  await_connack-Ends c t out =
      Ends-bind (λ (b, c'). Kept env clock c (pos 0, c')) (Opens env clock c) _ _
        (arrives-Ends (code MsgType.connack) c t)
        λ (arrived, c1) later.
          Ends-bind (Kept env clock c) (Opens env clock c) _ _
            (Ends-if (Kept env clock c) arrived _ _
              (λ _. Kept-trans env clock c c1 (pos 0) _ later (read_connack-Ends c1)) (λ _. later))
            λ (rc, c2) (further, e).
              Ends-bind (StaysOut c) (Opens env clock c) _ _
                (Ends-weaken (StaysOut c2) (StaysOut c) _
                  (λ (rc', c') (last, o). ((omega arith, omega arith), o))
                  (resend-Ends rc c2 (omega arith, omega arith) (e ∙ out)))
                (λ r last. open_on_success-Opens c r last)

  pub wait_connack-Ends :
      (c : Client W)
      → InTime c
      → c.isconnected ≡ false
      → Ends (Opens env clock c) (wait_connack env fuel (countdown_ms start T) c)
  unfolding wait_connack
  wait_connack-Ends c t out =
      let (later, e) = record_received-Framed env clock rate m c in
      Ends-weaken (Opens env clock (record_received env c)) (Opens env clock c) _
        (λ (rc, c') (last, o). ((omega arith, omega arith), o))
        (await_connack-Ends (record_received env c) (omega arith, omega arith)
          (ap (λ t. t.0) e ∙ out))
