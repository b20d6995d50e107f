-- ===== src/Mqtt/Client/Cycle/Laws.antt =====
-- What cycle does with what it reads.
use remotus_hardware.Base.{
  Bool-cases, false, ℕ, ◌^◌, ◌<◌, ◌⊎◌, inl, inr, sym, ap, ◌∙◌, List, ◌≡◌, refl, ◌++◌, if◌then◌else◌,
  length, drop, ℤ, pos, negsuc, is_nat, arith,
}
use remotus_hardware.Mqtt.MsgType.{MsgType, code}
use remotus_hardware.Mqtt.Publish.{deserialize_publish}
use remotus_hardware.Mqtt.Publish.Layout.{publish_body, publish_bytes}
use remotus_hardware.Mqtt.Publish.Laws.{read_publish, deserialize_publish-bytes}
use remotus_hardware.Mqtt.Ack.Laws.{ack_bytes, serialize_ack_lem}
use remotus_hardware.Mqtt.Client.Countdown.{Countdown}
use remotus_hardware.Mqtt.Client.Run.{Run, done, fault, out_of_fuel, ◌>>=◌}
use remotus_hardware.Mqtt.Client.State.{
  Env, Client, success, failure, max_mqtt_packet_size, to_ushort,
}
use remotus_hardware.Mqtt.Client.Transfer.{
  has_expired, time_left, record_sent, send_packet, read_packet,
}
use remotus_hardware.Mqtt.Client.Transfer.Laws.{send_packet_whole, send_packet_refused}
use remotus_hardware.Mqtt.Client.Cycle.{
  message_of, deliver_message, send_length, keepalive, acknowledge, after_switch, on_publish,
  on_packet, cycle,
}

module _ {W : Type 0} (env : Env W) where
  -- Where readPacket fails, cycle does not: it checks the keep-alive as after any packet that it does
  -- not know, whose result it does not use, and answers 65535, whatever the failure was.
  pub cycle_hides_failure :
      (timer : Countdown) (c c' : Client W)
      → read_packet env timer c ≡ done (failure, c')
      → cycle env timer c ≡ (keepalive env c' >>= λ (_, c''). done (pos 65535, c''))
  unfolding cycle on_packet after_switch to_ushort
  cycle_hides_failure timer c c' e = rw e (same_after (keepalive env c'))
    where
      same_after :
          (r : Run (ℤ × Client W))
          → ((r >>= λ (_, c). (let s : ℤ × Client W = (success, c) in done s)) >>= λ (rc, c).
              (let s : ℤ × Client W = ((if is_nat rc 0 then pos 65535 else rc), c) in done s))
            ≡ (r >>= λ (_, c). (let s : ℤ × Client W = (pos 65535, c) in done s))
      same_after (done (rc, c)) = refl
      same_after fault = refl
      same_after out_of_fuel = refl

  -- The client with a puback at the start of its send buffer.
  abbrev pub with_puback : ℕ → Client W → Client W
  with_puback id c = record c { sendbuf = ack_bytes (code MsgType.puback) 0 id ++ drop 4 c.sendbuf }

  -- The four bytes of the puback, handed over in one write.
  puback_sent :
      (timer : Countdown) (c : Client W) (id : ℕ) (answer : ℤ) (w : W)
      → length c.sendbuf ≡ max_mqtt_packet_size
      → has_expired env timer c ≡ false
      → env.write (ack_bytes (code MsgType.puback) 0 id) (time_left env timer c) c.ipstack
        ≡ (answer, w)
      → (answer ≡ pos 4) ⊎ ((k : ℕ) × (answer ≡ negsuc k))
      → send_packet env 4 timer (with_puback id c) ≡ (
          if is_nat answer 4
          then done (success, record_sent env (record (with_puback id c) { ipstack = w }))
          else done (failure, record (with_puback id c) { ipstack = w }))
  unfolding has_expired time_left
  puback_sent timer c id answer w room running wrote (inl whole) =
      let sent = ap (λ (r : ℤ × W). r.0) wrote ∙ whole in
      rw (whole, sym (ap (λ (r : ℤ × W). r.1) wrote))
        (send_packet_whole env 4 timer (with_puback id c) (omega arith) (omega arith) running sent)
  puback_sent timer c id answer w room running wrote (inr (k, error)) =
      let sent = ap (λ (r : ℤ × W). r.0) wrote ∙ error in
      rw (error, sym (ap (λ (r : ℤ × W). r.1) wrote))
        (send_packet_refused env 4 k timer (with_puback id c) (omega arith) (omega arith) running
          sent)

  -- The bytes of a publish packet at QoS 1 in the buffer, with a topic, a payload and a packet id, a
  -- send buffer of MAX_MQTT_PACKET_SIZE bytes, a message whose delivery ends before the timer, and a
  -- network that takes the puback whole or reports an error: cycle's step for the packet is to deliver
  -- its message to the callbacks and then to write, in one write, exactly the four bytes of the puback
  -- with the publish's packet id. If they were taken, the keep-alive is checked and the result is
  -- SUCCESS; if not, the result is FAILURE, and the message was delivered all the same.
  pub on_publish_acks :
      (timer : Countdown) (c c1 : Client W) (dup retained id : ℕ) (topic payload rest : List ℕ)
      (rc answer : ℤ) (w : W)
      → length (publish_body 1 id topic payload) < 2 ^ 28
      → length topic < 65536
      → id < 65536
      → c.readbuf ≡ publish_bytes dup 1 retained id topic payload ++ rest
      → deliver_message env
          (message_of (read_publish env.automatic dup 1 retained id topic payload rest))
          c
        ≡ done (rc, c1)
      → length c1.sendbuf ≡ max_mqtt_packet_size
      → has_expired env timer c1 ≡ false
      → env.write (ack_bytes (code MsgType.puback) 0 id) (time_left env timer c1) c1.ipstack
        ≡ (answer, w)
      → (answer ≡ pos 4) ⊎ ((k : ℕ) × (answer ≡ negsuc k))
      → on_publish env timer c ≡ (
          let c2 : Client W = record (with_puback id c1) { ipstack = w } in
          if is_nat answer 4
          then (keepalive env (record_sent env c2) >>= λ (_, c3). done (success, c3))
          else done (failure, c2))
  unfolding on_publish acknowledge send_length after_switch
  on_publish_acks timer c c1 dup retained id topic payload rest rc answer w small short h packet
        delivered room running wrote outcome =
      rw
        (
          ap (deserialize_publish env.automatic) packet
              ∙ deserialize_publish-bytes env.automatic dup 1 retained id topic payload rest small
                  short (omega arith) h,
          delivered,
          serialize_ack_lem c1.sendbuf max_mqtt_packet_size (code MsgType.puback) 0 id
              (omega arith),
          puback_sent timer c1 id answer w room running wrote outcome,
        )
        (elim (Bool-cases (is_nat answer 4)) [ inl y ↦ rw y refl | inr n ↦ rw n refl ])
