-- ===== src/Mqtt/Client/Session.antt =====
-- MQTT/MQTTClient.h: connect, subscribe, unsubscribe, the publish functions and disconnect.
-- `fuel` bounds the rounds of waitfor.
pub mod Laws
pub mod Refusal
use remotus_hardware.Base.{
  ℕ, ◌%◌, Bool, true, false, not, ◌||◌, Option, none, some, List, [], ◌∷◌, ltb, ◌==◌, if◌then◌else◌,
  take, ℤ, pos, is_nat,
}
use remotus_hardware.Mqtt.MsgType.{MsgType, code}
use remotus_hardware.Mqtt.Text.{MqttString, null_string}
use remotus_hardware.Mqtt.Publish.{serialize_publish}
use remotus_hardware.Mqtt.Ack.{deserialize_ack, deserialize_unsuback, serialize_disconnect}
use remotus_hardware.Mqtt.Connect.{ConnectData, serialize_connect}
use remotus_hardware.Mqtt.Connack.{deserialize_connack}
use remotus_hardware.Mqtt.Subscribe.{serialize_subscribe}
use remotus_hardware.Mqtt.Suback.{deserialize_suback}
use remotus_hardware.Mqtt.Unsubscribe.{serialize_unsubscribe}
use remotus_hardware.Mqtt.Client.Countdown.{Countdown, countdown_ms}
use remotus_hardware.Mqtt.Client.PacketId.{get_next}
use remotus_hardware.Mqtt.Client.Run.{Run, done, ◌>>=◌, lift}
use remotus_hardware.Mqtt.Client.State.{
  Env, Client, Message, MessageHandler, success, failure, max_mqtt_packet_size, store_at, to_int,
}
use remotus_hardware.Mqtt.Client.Transfer.{send_packet, record_received}
use remotus_hardware.Mqtt.Client.Cycle.{packet_length, send_length, waitfor}

-- MQTTPacket_connectData_initializer
abbrev pub default_options : ConnectData
default_options = record {
  version = 4;
  client_id = null_string;
  keep_alive = 60;
  clean_session = 1;
  will_flag = 0;
  will = record { topic = null_string; message = null_string; retained = 0; qos = 0 };
  username = null_string;
  password = null_string;
}

-- `rc = grantedQoS`, from the array of one member
unfoldable pub granted_qos : List ℕ → Option ℤ
granted_qos [] = none
granted_qos (q ∷ _) = some (to_int q)

-- `MQTTString topic = {(char*)topicFilter, 0, 0}`
abbrev pub c_string : List ℕ → MqttString
c_string text = record { cstring = some text; lenstring = record { len = 0; bytes = none } }

-- One round of the loop over messageHandlers at a member: it is taken if it has no filter; otherwise
-- `rest` is what the rounds after it do.
unfoldable pub attach_at :
    Option (List ℕ)
    → List ℕ
    → Option ℕ
    → MessageHandler
    → List MessageHandler
    → Bool × List MessageHandler
    → Bool × List MessageHandler
attach_at none filter mh h hs rest = (true, record { topic_filter = some filter; fp = mh } ∷ hs)
attach_at (some f) filter mh h hs rest = (rest.0, h ∷ rest.1)

-- The loop, up to a member without a filter; whether there is one.
unfoldable pub attach : List ℕ → Option ℕ → List MessageHandler → Bool × List MessageHandler
attach filter mh [] = (false, [])
attach filter mh (h ∷ hs) =
    let rest = attach filter mh hs in attach_at h.topic_filter filter mh h hs rest

module _ {W : Type 0} where
  -- the label `exit` of subscribe, unsubscribe and publish
  unfoldable pub close_on_failure : ℤ × Client W → ℤ × Client W
  close_on_failure (rc, c) = (rc, (if is_nat rc 0 then c else record c { isconnected = false }))

  -- the label `exit` of connect
  unfoldable pub open_on_success : ℤ × Client W → ℤ × Client W
  open_on_success (rc, c) = (rc, (if is_nat rc 0 then record c { isconnected = true } else c))

module _ {W : Type 0} (env : Env W) (fuel : ℕ) where
  -- `Timer(command_timeout_ms)`
  unfoldable pub command_timer : Client W → Countdown
  command_timer c = countdown_ms (env.now c.ipstack) c.command_timeout_ms

  -- `waitfor(packet_type, timer) == packet_type`
  unfoldable pub arrives : ℕ → Countdown → Client W → Run (Bool × Client W)
  arrives packet_type timer c = do
    (rc, c) ← waitfor env fuel packet_type timer c
    done (is_nat rc packet_type, c)

  -- the puback of the publish function that sends
  unfoldable pub read_puback : Client W → Run (ℤ × Client W)
  read_puback c = do
    (rc, out) ← lift (deserialize_ack (record { packettype = 0; dup = 0; packetid = 0 }) c.readbuf)
    if not (is_nat rc 1)
        then done (failure, c)
        else done (
          success,
          (if c.inflight_msgid == out.packetid then record c { inflight_msgid = 0 } else c),
        )

  -- `publish(len, timer, qos)`
  unfoldable pub publish_sent : ℕ → Countdown → ℕ → Client W → Run (ℤ × Client W)
  publish_sent len timer qos c = do
    (rc, c) ← send_packet env len timer c
    s ←
        (if is_nat rc 0
          then (if qos == 1
              then (do
                (arrived, c) ← arrives (code MsgType.puback) timer c
                if arrived then read_puback c else done (failure, c))
              else done (success, c))
          else done (rc, c))
    done (close_on_failure s)

  -- `rc` after the connack
  unfoldable pub read_connack : Client W → Run (ℤ × Client W)
  read_connack c = do
    (rc, out) ←
        lift (deserialize_connack (record { session_present = 0; connack_rc = 255 }) c.readbuf)
    done ((if is_nat rc 1 then pos out.connack_rc else failure), c)

  -- a publish in flight is sent again
  unfoldable pub resend : Countdown → ℤ × Client W → Run (ℤ × Client W)
  resend timer (rc, c) =
      if ltb 0 c.inflight_msgid
      then publish_sent c.inflight_len timer c.inflight_qos (record c { sendbuf = c.pubbuf })
      else done (rc, c)

  -- connect, behind the connect packet that was sent
  unfoldable pub wait_connack : Countdown → Client W → Run (ℤ × Client W)
  wait_connack timer c = do
    (arrived, c) ← arrives (code MsgType.connack) timer (record_received env c)
    s ← (if arrived then read_connack c else done (failure, c))
    s ← resend timer s
    done (open_on_success s)

  unfoldable pub connect : ConnectData → Client W → Run (ℤ × Client W)
  connect options c =
      let timer = command_timer c in
      let c' : Client W = record c {
        keep_alive_interval = options.keep_alive;
        cleansession = options.clean_session;
      } in
      if c.isconnected then done (failure, c) else (do
        (len, sendbuf) ← lift (serialize_connect c'.sendbuf max_mqtt_packet_size options)
        (rc, c) ← send_length env len sendbuf timer c'
        if is_nat rc 0 then wait_connack timer c else done (rc, c))

  unfoldable pub connect_default : Client W → Run (ℤ × Client W)
  connect_default c = connect default_options c

  -- `if (rc != 0x80)`, with `rc` of the suback
  unfoldable pub attach_granted : List ℕ → Option ℕ → ℤ × Client W → ℤ × Client W
  attach_granted filter mh (rc, c) =
      let (found, handlers) = attach filter mh c.message_handlers in
      if is_nat rc 0x80
      then (rc, c)
      else ((if found then success else rc), record c { message_handlers = handlers })

  -- `grantedQoS`, an int that is -1 at first
  unfoldable pub read_suback : List ℕ → Option ℕ → Client W → Run (ℤ × Client W)
  read_suback filter mh c = do
    (rc, out) ← lift (
        deserialize_suback (record { packetid = 0; count = 0; qoss = 4294967295 ∷ [] }) 1 c.readbuf)
    granted ← lift (if is_nat rc 1 then granted_qos out.qoss else some success)
    done (attach_granted filter mh (granted, c))

  -- what follows a packet that asks for an answer: the packet is sent, and the answer awaited and read
  unfoldable pub request :
      ℕ → ℤ × List ℕ → Countdown → (Client W → Run (ℤ × Client W)) → Client W → Run (ℤ × Client W)
  request answer (len, sendbuf) timer read_answer c = do
    (rc, c) ← send_length env len sendbuf timer c
    s ←
        (if is_nat rc 0
          then (do
            (arrived, c) ← arrives answer timer c
            if arrived then read_answer c else done (failure, c))
          else done (rc, c))
    done (close_on_failure s)

  unfoldable pub subscribe : List ℕ → ℕ → Option ℕ → Client W → Run (ℤ × Client W)
  subscribe filter qos mh c =
      let id = get_next c.next_id in
      let c' : Client W = record c { next_id = id } in
      if not c.isconnected then done (close_on_failure (failure, c)) else (do
        sent ← lift (
            serialize_subscribe c.sendbuf max_mqtt_packet_size 0 id 1 (c_string filter ∷ [])
              (qos ∷ []))
        request (code MsgType.suback) sent (command_timer c) (read_suback filter mh) c')

  unfoldable pub read_unsuback : Client W → Run (ℤ × Client W)
  read_unsuback c = do _ ← lift (deserialize_unsuback 0 c.readbuf); done (success, c)

  unfoldable pub unsubscribe : List ℕ → Client W → Run (ℤ × Client W)
  unsubscribe filter c =
      let id = get_next c.next_id in
      let c' : Client W = record c { next_id = id } in
      if not c.isconnected then done (close_on_failure (failure, c)) else (do
        sent ←
            lift
              (serialize_unsubscribe c.sendbuf max_mqtt_packet_size 0 id 1 (c_string filter ∷ []))
        request (code MsgType.unsuback) sent (command_timer c) read_unsuback c')

  -- The id of the packet that is published; a QoS above 0 takes the next one.
  unfoldable pub publish_id : ℕ → ℕ → Client W → ℕ × Client W
  publish_id qos id c =
      if qos == 1 || qos == 2
      then (get_next c.next_id % 65536, record c { next_id = get_next c.next_id })
      else (id, c)

  -- the copy of a packet that may have to be sent again
  unfoldable pub keep_inflight : ℕ → ℕ → ℕ → Client W → Run (Client W)
  keep_inflight len id qos c = if ltb 0 c.cleansession then done c else (do
    pubbuf ← lift (store_at 0 (take len c.sendbuf) c.pubbuf)
    done
        (record c { pubbuf = pubbuf; inflight_msgid = id; inflight_len = len; inflight_qos = qos }))

  -- `id` is passed by reference, so the call returns it too.
  unfoldable pub publish_with_id :
      List ℕ → List ℕ → ℕ → ℕ → ℕ → ℕ → Client W → Run (ℤ × ℕ × Client W)
  publish_with_id topic payload payloadlen id qos retained c =
      let timer = command_timer c in
      let s = publish_id qos id c in
      if not c.isconnected then done (failure, id, c) else (do
        (len, sendbuf) ← lift (
            serialize_publish s.1.sendbuf max_mqtt_packet_size 0 qos retained s.0
              (record null_string { cstring = some topic }) payload payloadlen)
        let c1 : Client W = record (s.1) { sendbuf = sendbuf }
        if packet_length len == 0 then done (failure, s.0, c1) else (do
          c2 ← keep_inflight (packet_length len) s.0 qos c1
          (rc, c3) ← publish_sent (packet_length len) timer qos c2
          done (rc, s.0, c3)))

  unfoldable pub publish : List ℕ → List ℕ → ℕ → ℕ → ℕ → Client W → Run (ℤ × Client W)
  publish topic payload payloadlen qos retained c = do
    (rc, _, c) ← publish_with_id topic payload payloadlen 0 qos retained c
    done (rc, c)

  -- The payload length of the caller's message, a size_t, is at least 0.
  unfoldable pub publish_message : List ℕ → Message → Client W → Run (ℤ × Client W)
  publish_message topic message c =
      publish topic message.payload (packet_length message.payloadlen) message.qos message.retained
        c

  unfoldable pub disconnect : Client W → Run (ℤ × Client W)
  disconnect c = do
    (len, sendbuf) ← lift (serialize_disconnect c.sendbuf max_mqtt_packet_size)
    (rc, c') ← send_length env len sendbuf (command_timer c) c
    done (rc, record c' { isconnected = false })
