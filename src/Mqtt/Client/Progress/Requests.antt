-- ===== src/Mqtt/Client/Progress/Requests.antt =====
-- connect, subscribe and unsubscribe end, and whether the client is connected then.
use remotus_hardware.Base.{
  ℕ, ◌*◌, ◌<◌, ◌≡◌, refl, sym, ◌∙◌, ap, Bool-cases, inl, inr, Bool, true, false, not, ◌||◌, Option,
  some, List, [], ◌∷◌, if◌then◌else◌, ℤ, is_nat, arith,
}
use remotus_hardware.Mqtt.MsgType.{MsgType, code}
use remotus_hardware.Mqtt.Ack.{deserialize_unsuback}
use remotus_hardware.Mqtt.Connect.{ConnectData, serialize_connect}
use remotus_hardware.Mqtt.Subscribe.{serialize_subscribe}
use remotus_hardware.Mqtt.Suback.{deserialize_suback}
use remotus_hardware.Mqtt.Unsubscribe.{serialize_unsubscribe}
use remotus_hardware.Mqtt.Client.PacketId.{get_next}
use remotus_hardware.Mqtt.Client.Run.{Ends, Ends-bind, Ends-lift, Ends-if, Ends-weaken}
use remotus_hardware.Mqtt.Client.State.{Env, Client, success, failure, max_mqtt_packet_size}
use remotus_hardware.Mqtt.Client.Session.{
  c_string, close_on_failure, command_timer, connect, attach_granted, granted_qos, read_suback,
  subscribe, read_unsuback, unsubscribe,
}
use remotus_hardware.Mqtt.Client.Progress.{Moves, Framed, Kept, Closes, Opens, Connects}
use remotus_hardware.Mqtt.Client.Progress.Wait.{send_length-Ends}
use remotus_hardware.Mqtt.Client.Progress.Calls.{request-Ends, wait_connack-Ends}

or_false : (b : Bool) → b ≡ (b || false)
or_false true = refl
or_false false = refl

module _ {W : Type 0} (env : Env W) (clock : W → ℕ) (rate : ℕ) (m : Moves env clock rate)
    (fuel : ℕ) where
  Opens→Connects :
      (c : Client W)
      → c.isconnected ≡ false
      → (r : ℤ × Client W) → Opens env clock c r
      → Connects env clock c r
  Opens→Connects c out (rc, c') (later, e) =
      (later, e ∙ or_false (is_nat rc 0) ∙ ap (λ (b : Bool). is_nat rc 0 || b) (sym out))

  pub connect-Ends :
      (options : ConnectData) (c : Client W)
      → rate * c.command_timeout_ms < fuel
      → Ends (Connects env clock c) (connect env fuel options c)
  unfolding connect command_timer
  connect-Ends options c h =
      let now = env.now c.ipstack in
      let c' : Client W = record c {
        keep_alive_interval = options.keep_alive;
        cleansession = options.clean_session;
      } in
      Ends-if (Connects env clock c) c.isconnected _ _ (λ _. ((omega arith, omega arith), refl))
        λ out. Ends-weaken (Opens env clock c) (Connects env clock c) _ (Opens→Connects c out) (
          Ends-lift (Opens env clock c) (serialize_connect c.sendbuf max_mqtt_packet_size options) _
            λ (len, sendbuf) _.
              Ends-bind (Framed env clock c) (Opens env clock c) _ _
                (send_length-Ends env clock rate m len sendbuf now c.command_timeout_ms c'
                  (omega arith))
                λ (rc, c1) (later, e). elim (Bool-cases (is_nat rc 0)) [
                  | inl y ↦ rw y (
                      Ends-weaken (Opens env clock c1) (Opens env clock c) _
                        (λ (rc', c'') (last, o). ((omega arith, omega arith), o))
                        (wait_connack-Ends env clock rate m fuel now c.command_timeout_ms c1
                          (omega arith, omega arith) (ap (λ t. t.0) e ∙ out)))
                  | inr n ↦ rw n (later, ap (λ t. t.0) e ∙ out ∙ sym n)
                ])

  read_suback-Ends :
      (filter : List ℕ) (mh : Option ℕ) (c : Client W)
      → Ends (Kept env clock c) (read_suback env fuel filter mh c)
  unfolding read_suback attach_granted
  read_suback-Ends filter mh c =
      Ends-lift (Kept env clock c) (deserialize_suback _ 1 c.readbuf) _ λ (rc, out) _.
        Ends-lift (Kept env clock c) (if is_nat rc 1 then granted_qos out.qoss else some success) _
          λ granted _. elim (Bool-cases (is_nat granted 0x80)) [
            | inl y ↦ rw y ((omega arith, omega arith), refl)
            | inr n ↦ rw n ((omega arith, omega arith), refl)
          ]

  closed-Closes : (c : Client W) → Closes env clock c (close_on_failure (failure, c))
  unfolding close_on_failure
  closed-Closes c = ((omega arith, omega arith), refl)

  pub subscribe-Ends :
      (filter : List ℕ) (qos : ℕ) (mh : Option ℕ) (c : Client W)
      → rate * c.command_timeout_ms < fuel
      → Ends (Closes env clock c) (subscribe env fuel filter qos mh c)
  unfolding subscribe command_timer
  subscribe-Ends filter qos mh c h =
      Ends-if (Closes env clock c) (not c.isconnected) _ _ (λ _. closed-Closes c)
        λ _.
          Ends-lift (Closes env clock c)
            (serialize_subscribe c.sendbuf max_mqtt_packet_size 0 (get_next c.next_id) 1
              (c_string filter ∷ []) (qos ∷ []))
            _
            λ sent _.
              request-Ends env clock rate m fuel (env.now c.ipstack) c.command_timeout_ms
                (code MsgType.suback) sent (read_suback env fuel filter mh)
                (record c { next_id = get_next c.next_id }) (omega arith, omega arith)
                (read_suback-Ends filter mh)

  pub unsubscribe-Ends :
      (filter : List ℕ) (c : Client W)
      → rate * c.command_timeout_ms < fuel
      → Ends (Closes env clock c) (unsubscribe env fuel filter c)
  unfolding unsubscribe command_timer read_unsuback
  unsubscribe-Ends filter c h =
      Ends-if (Closes env clock c) (not c.isconnected) _ _ (λ _. closed-Closes c)
        λ _.
          Ends-lift (Closes env clock c)
            (serialize_unsubscribe c.sendbuf max_mqtt_packet_size 0 (get_next c.next_id) 1
              (c_string filter ∷ []))
            _
            λ sent _.
              request-Ends env clock rate m fuel (env.now c.ipstack) c.command_timeout_ms
                (code MsgType.unsuback) sent _ (record c { next_id = get_next c.next_id })
                (omega arith, omega arith)
                λ c'.
                  Ends-lift (Kept env clock c') (deserialize_unsuback 0 c'.readbuf) _
                    λ _ _. ((omega arith, omega arith), refl)
