-- ===== src/Mqtt/Client/Cycle.antt =====
-- MQTT/MQTTClient.h: deliverMessage, keepalive, cycle, waitfor and yield.
pub mod Deliver
pub mod Laws
use remotus_hardware.Base.{
  ℕ, zero, suc, ◌+◌, Bool, true, false, not, ◌||◌, Option, none, some, List, [], ◌∷◌, leb, ◌==◌,
  if◌then◌else◌, ℤ, pos, negsuc, is_nat,
}
use remotus_hardware.Mqtt.MsgType.{MsgType, code}
use remotus_hardware.Mqtt.Text.{MqttString, equals}
use remotus_hardware.Mqtt.Publish.{PublishOut, deserialize_publish}
use remotus_hardware.Mqtt.Ack.{serialize_ack, serialize_pingreq}
use remotus_hardware.Mqtt.Client.Countdown.{Countdown, expired, countdown_ms}
use remotus_hardware.Mqtt.Client.Topic.{is_topic_matched}
use remotus_hardware.Mqtt.Client.Run.{Run, done, fault, out_of_fuel, ◌>>=◌, lift}
use remotus_hardware.Mqtt.Client.State.{
  Env, Client, Message, MessageData, MessageHandler, success, failure, is_failure,
  max_mqtt_packet_size, to_ushort,
}
use remotus_hardware.Mqtt.Client.Transfer.{has_expired, send_packet, read_packet}

-- `||` where the tests may be faults: the second is made only if the first is false.
abbrev pub or_else : Option Bool → Option Bool → Option Bool
or_else none b = none
or_else (some true) b = some true
or_else (some false) b = b

-- the test of a filter that is not NULL
unfoldable pub handles : List ℕ → MqttString → Option Bool
handles filter topic = or_else (equals topic filter) (is_topic_matched filter topic)

-- the test of one member of messageHandlers
unfoldable pub handler_matches : Option (List ℕ) → MqttString → Option Bool
handler_matches none topic = some false
handler_matches (some filter) topic = handles filter topic

-- A positive length that a serializer returned, and 0 for none.
abbrev pub packet_length : ℤ → ℕ
packet_length (pos n) = n
packet_length (negsuc n) = 0

-- The message that cycle hands on.
abbrev pub message_of : PublishOut → MessageData
message_of out = record {
  message = record {
    qos = out.qos;
    retained = out.retained;
    dup = out.dup;
    id = out.packetid;
    payload = out.payload;
    payloadlen = out.payloadlen;
  };
  topic_name = out.topic;
}

module _ {W : Type 0} (env : Env W) where
  -- `if (fp.attached()) { fp(md); rc = SUCCESS; }`
  unfoldable pub call_attached : Option ℕ → MessageData → ℤ × W → ℤ × W
  call_attached none md (rc, w) = (rc, w)
  call_attached (some f) md (rc, w) = (success, env.call f md w)

  unfoldable pub deliver_loop : List MessageHandler → MessageData → ℤ × W → Run (ℤ × W)
  deliver_loop [] md s = done s
  deliver_loop (h ∷ hs) md s = do
    matches ← lift (handler_matches h.topic_filter md.topic_name)
    deliver_loop hs md (if matches then call_attached h.fp md s else s)

  unfoldable pub deliver_message : MessageData → Client W → Run (ℤ × Client W)
  deliver_message md c = do
    (rc, w) ← deliver_loop c.message_handlers md (failure, c.ipstack)
    let s : ℤ × W =
        if is_nat rc 0 then (rc, w) else call_attached c.default_message_handler md (rc, w)
    done (s.0, record c { ipstack = s.1 })

  -- `len > 0 && (rc = sendPacket(len, timer)) == SUCCESS`, with FAILURE for no length
  unfoldable pub send_length : ℤ → List ℕ → Countdown → Client W → Run (ℤ × Client W)
  send_length len sendbuf timer c =
      let c' : Client W = record c { sendbuf = sendbuf } in
      if packet_length len == 0
      then done (failure, c')
      else send_packet env (packet_length len) timer c'

  -- the client after a ping was sent
  unfoldable pub ping : Client W → Run (ℤ × Client W)
  ping c = do
    (len, sendbuf) ← lift (serialize_pingreq c.sendbuf max_mqtt_packet_size)
    (rc, c) ← send_length len sendbuf (countdown_ms (env.now c.ipstack) 1000) c
    done (rc, (if is_nat rc 0 then record c { ping_outstanding = true } else c))

  unfoldable pub keepalive : Client W → Run (ℤ × Client W)
  keepalive c =
      if c.keep_alive_interval == 0
      then done (success, c)
      else if has_expired env c.last_sent c || has_expired env c.last_received c
      then (if c.ping_outstanding then done (failure, c) else ping c)
      else done (failure, c)

  -- The ack of a message that was delivered, of which the QoS is not 0.
  unfoldable pub acknowledge : ℕ → ℕ → Countdown → Client W → Run (ℤ × Client W)
  acknowledge qos id timer c =
      if qos == 1 || qos == 2
      then (do
        (len, sendbuf) ← lift (
            serialize_ack c.sendbuf max_mqtt_packet_size
              (code (if qos == 1 then MsgType.puback else MsgType.pubrec)) 0 id)
        send_length len sendbuf timer c)
      else done (failure, c)

  -- `keepalive();` behind the switch, whose result is not used
  unfoldable pub after_switch : ℤ → Client W → Run (ℤ × Client W)
  after_switch rc c = do (_, c) ← keepalive c; done (rc, c)

  -- the case PUBLISH
  unfoldable pub on_publish : Countdown → Client W → Run (ℤ × Client W)
  on_publish timer c = do
    (rc, out) ← lift (deserialize_publish env.automatic c.readbuf)
    if not (is_nat rc 1) then done (success, c) else (do
      (_, c) ← deliver_message (message_of out) c
      if out.qos == 0 then after_switch success c else (do
        (rc, c) ← acknowledge out.qos out.packetid timer c
        if is_nat rc 0 then after_switch rc c else done (rc, c)))

  -- the switch, and the call behind it
  unfoldable pub on_packet : ℕ → Countdown → Client W → Run (ℤ × Client W)
  on_packet packet_type timer c =
      if packet_type == code MsgType.publish
      then on_publish timer c
      else if packet_type == code MsgType.pingresp
      then after_switch success (record c { ping_outstanding = false })
      else after_switch success c

  unfoldable pub cycle : Countdown → Client W → Run (ℤ × Client W)
  cycle timer c = do
    (type, c) ← read_packet env timer c
    (rc, c) ← on_packet (to_ushort type) timer c
    done ((if is_nat rc 0 then pos (to_ushort type) else rc), c)

  -- The loop of waitfor, with `rc`.
  unfoldable pub wait_loop : ℕ → ℕ → Countdown → ℤ → Client W → Run (ℤ × Client W)
  wait_loop zero packet_type timer rc c = out_of_fuel
  wait_loop (suc fuel) packet_type timer rc c =
      let again = cycle timer c >>= λ (rc', c').
      (if is_nat rc' packet_type
        then done (rc', c')
        else wait_loop fuel packet_type timer rc' c') in
      if has_expired env timer c then done (rc, c) else again

  unfoldable pub waitfor : ℕ → ℕ → Countdown → Client W → Run (ℤ × Client W)
  waitfor fuel packet_type timer c = wait_loop fuel packet_type timer failure c

  unfoldable pub yield_loop : ℕ → Countdown → Client W → Run (ℤ × Client W)
  yield_loop zero timer c = out_of_fuel
  yield_loop (suc fuel) timer c =
      let again = cycle timer c >>= λ (rc, c').
      (if is_failure rc then done (failure, c') else yield_loop fuel timer c') in
      if has_expired env timer c then done (success, c) else again

  unfoldable pub yield : ℕ → ℕ → Client W → Run (ℤ × Client W)
  yield fuel timeout_ms c = yield_loop fuel (countdown_ms (env.now c.ipstack) timeout_ms) c
