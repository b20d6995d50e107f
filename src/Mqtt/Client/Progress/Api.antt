-- ===== src/Mqtt/Client/Progress/Api.antt =====
-- publish and disconnect end, and so does every call that waits for the command's time at most.
use remotus_hardware.Base.{
  ℕ, ◌*◌, ◌≤◌, ◌<◌, ◌≡◌, refl, ap, ◌∙◌, Bool-cases, inl, inr, Bool, true, false, not, ◌&&◌, ◌||◌,
  Option, some, List, ltb, ◌==◌, take, ℤ, is_nat, arith,
}
use remotus_hardware.Mqtt.Text.{null_string}
use remotus_hardware.Mqtt.Publish.{serialize_publish}
use remotus_hardware.Mqtt.Ack.{serialize_disconnect}
use remotus_hardware.Mqtt.Connect.{ConnectData}
use remotus_hardware.Mqtt.Client.Countdown.{countdown_ms}
use remotus_hardware.Mqtt.Client.Run.{done, ◌>>=◌, Ends, Ends-bind, Ends-lift, Ends-if, Ends-weaken}
use remotus_hardware.Mqtt.Client.State.{Env, Client, max_mqtt_packet_size, store_at}
use remotus_hardware.Mqtt.Client.Cycle.{packet_length}
use remotus_hardware.Mqtt.Client.Session.{
  command_timer, connect, subscribe, unsubscribe, publish_id, keep_inflight, publish_sent,
  publish_with_id, disconnect,
}
use remotus_hardware.Mqtt.Client.Progress.{Moves, Framed, Closes, Connects, Publishes, Disconnects}
use remotus_hardware.Mqtt.Client.Progress.Wait.{send_length-Ends}
use remotus_hardware.Mqtt.Client.Progress.Calls.{publish_sent-Ends}
use remotus_hardware.Mqtt.Client.Progress.Requests.{connect-Ends, subscribe-Ends, unsubscribe-Ends}

and_true : (b : Bool) → (b && not (b && true)) ≡ false
and_true true = refl
and_true false = refl

not-false : (b : Bool) → not b ≡ false → b ≡ true
not-false true h = refl
not-false false h = cc

module _ {W : Type 0} (env : Env W) (clock : W → ℕ) (rate : ℕ) (m : Moves env clock rate)
    (fuel : ℕ) where
  -- What publish does before the packet is sent touches neither the network nor the time, nor whether
  -- the client is connected.
  abbrev Ready : Client W → Client W → Type 0
  Ready c c' = (c'.ipstack ≡ c.ipstack) × (c'.isconnected ≡ c.isconnected)

  publish_id-Ready : (qos id : ℕ) (c : Client W) → Ready c (publish_id env fuel qos id c).1
  unfolding publish_id
  publish_id-Ready qos id c = elim (Bool-cases (qos == 1 || qos == 2)) [
    | inl y ↦ rw y (refl, refl)
    | inr n ↦ rw n (refl, refl)
  ]

  keep_inflight-Ends :
      (len id qos : ℕ) (c : Client W) → Ends (Ready c) (keep_inflight env fuel len id qos c)
  unfolding keep_inflight
  keep_inflight-Ends len id qos c =
      Ends-if (Ready c) (ltb 0 c.cleansession) _ _ (λ _. (refl, refl))
        λ _.
          Ends-lift (Ready c) (store_at 0 (take len c.sendbuf) c.pubbuf) _ λ pubbuf _. (refl, refl)

  Closes→Publishes :
      (c : Client W) (id : ℕ) (r : ℤ × Client W)
      → c.isconnected ≡ true
      → Closes env clock c r
      → Publishes env clock c (r.0, id, r.1)
  Closes→Publishes c id (rc, c') on (later, e) = (
    later,
    ap (λ (b : Bool). is_nat rc 0 && not b) (e ∙ ap (λ (b : Bool). is_nat rc 0 && b) on)
        ∙ and_true (is_nat rc 0),
  )

  -- publish, from the packet that was put into the buffer on
  send_publish-Ends :
      (len id qos start T : ℕ) (c : Client W)
      → start ≤ env.now c.ipstack
      → rate * T < fuel
      → c.isconnected ≡ true
      → Ends (Publishes env clock c) (
          keep_inflight env fuel len id qos c >>= λ c2.
          (publish_sent env fuel len (countdown_ms start T) qos c2 >>= λ (rc, c3).
          done (rc, id, c3)))
  send_publish-Ends len id qos start T c s h on =
      Ends-bind (Ready c) (Publishes env clock c) _ _ (keep_inflight-Ends len id qos c)
        λ c2 (same, e).
          let now = ap env.now same in
          let left = ap clock same in
          Ends-bind (Closes env clock c2) (Publishes env clock c) _ _
            (publish_sent-Ends env clock rate m fuel start T len qos c2 (omega arith, omega arith))
            (λ r last.
              let (later, f) = Closes→Publishes c2 id r (e ∙ on) last in
              ((omega arith, omega arith), f))

  publish-Ends :
      (topic payload : List ℕ) (payloadlen id qos retained : ℕ) (c : Client W)
      → rate * c.command_timeout_ms < fuel
      → Ends
          (Publishes env clock c)
          (publish_with_id env fuel topic payload payloadlen id qos retained c)
  unfolding publish_with_id command_timer
  publish-Ends topic payload payloadlen id qos retained c h =
      let s = publish_id env fuel qos id c in
      let ready = publish_id-Ready qos id c in
      let now = ap env.now ready.0 in
      let left = ap clock ready.0 in
      let P = Publishes env clock c in
      Ends-if P (not c.isconnected) _ _ (λ _. ((omega arith, omega arith), refl))
        λ on.
          Ends-lift P
            (serialize_publish s.1.sendbuf max_mqtt_packet_size 0 qos retained s.0
              (record null_string { cstring = some topic }) payload payloadlen)
            _
            λ (len, sendbuf) _.
              let c1 : Client W = record (s.1) { sendbuf = sendbuf } in
              Ends-if P (packet_length len == 0) _ _ (λ _. ((omega arith, omega arith), refl))
                λ _.
                  Ends-weaken (Publishes env clock c1) P _
                    (λ (_, _, c') (later, e). ((omega arith, omega arith), e))
                    (send_publish-Ends (packet_length len) s.0 qos (env.now c.ipstack)
                      c.command_timeout_ms c1 (omega arith) (omega arith)
                      (ready.1 ∙ not-false c.isconnected on))

  -- On a network of which every read takes a tick of a clock at least, also where it fails at once,
  -- and every write that reports no error a byte or a millisecond, with callbacks that return (Moves),
  -- and with more fuel than the command's time-out has ticks: connect, subscribe, unsubscribe, publish
  -- and disconnect all end, in a fault or a result. Then the time has not run back. After connect the
  -- client is connected exactly if it was before or the result is SUCCESS; after subscribe and
  -- unsubscribe, exactly if it was before and the result is SUCCESS; after a publish with the result
  -- SUCCESS it is connected; after disconnect it is not.
  pub calls_end :
      (options : ConnectData) (filter topic payload : List ℕ) (qos payloadlen id retained : ℕ)
      (mh : Option ℕ) (c : Client W)
      → rate * c.command_timeout_ms < fuel
      → Ends (Connects env clock c) (connect env fuel options c)
        × Ends (Closes env clock c) (subscribe env fuel filter qos mh c)
        × Ends (Closes env clock c) (unsubscribe env fuel filter c)
        × Ends
            (Publishes env clock c)
            (publish_with_id env fuel topic payload payloadlen id qos retained c)
        × Ends (Disconnects env clock c) (disconnect env fuel c)
  unfolding disconnect command_timer
  calls_end options filter topic payload qos payloadlen id retained mh c h = (
    connect-Ends env clock rate m fuel options c h,
    subscribe-Ends env clock rate m fuel filter qos mh c h,
    unsubscribe-Ends env clock rate m fuel filter c h,
    publish-Ends topic payload payloadlen id qos retained c h,
    Ends-lift (Disconnects env clock c) (serialize_disconnect c.sendbuf max_mqtt_packet_size) _
        λ (len, sendbuf) _.
          Ends-bind (Framed env clock c) (Disconnects env clock c) _ _
            (send_length-Ends env clock rate m len sendbuf (env.now c.ipstack) c.command_timeout_ms
              c (omega arith))
            (λ r later. (later.0, refl)),
  )
