-- ===== src/Mqtt/Client/State.antt =====
-- MQTT/MQTTClient.h: the return codes, Message and the members of Client; what the client is given:
-- the network, the time and the callbacks, which all act on a world `W`.
use remotus_hardware.Base.{
  ℕ, ◌+◌, ◌-◌, ◌%◌, Bool, false, Option, none, some, List, ◌++◌, replicate, ℤ, pos, negsuc, take,
  drop, length, leb, ◌==◌, if◌then◌else◌,
}
use remotus_hardware.Mqtt.Text.{MqttString}
use remotus_hardware.Mqtt.Publish.{PublishOut}
use remotus_hardware.Mqtt.Client.Countdown.{Countdown}

abbrev pub success : ℤ
success = pos 0

abbrev pub failure : ℤ
failure = negsuc 0

-- `rc == FAILURE`
abbrev pub is_failure : ℤ → Bool
is_failure (pos n) = false
is_failure (negsuc n) = n == 0

-- the template's MAX_MQTT_PACKET_SIZE and MAX_MESSAGE_HANDLERS
abbrev pub max_mqtt_packet_size : ℕ
max_mqtt_packet_size = 100

abbrev pub max_message_handlers : ℕ
max_message_handlers = 5

-- `payload` is the bytes from that pointer on.
pub record Message : Type 0 where
  pub qos : ℕ
  pub retained : ℕ
  pub dup : ℕ
  pub id : ℕ
  pub payload : List ℕ
  pub payloadlen : ℤ

pub record MessageData : Type 0 where
  pub message : Message
  pub topic_name : MqttString

-- `fp` is the function attached, if one is: the client attaches pointers to functions only.
pub record MessageHandler : Type 0 where
  pub topic_filter : Option (List ℕ)
  pub fp : Option ℕ

-- `read n timeout` answers its count, the bytes stored and the world after it; `write` is given the
-- bytes that it is to send. `automatic` is what the variables that `cycle` declares hold.
pub record Env (W : Type 0) : Type 0 where
  pub read : ℕ → ℤ → W → ℤ × List ℕ × W
  pub write : List ℕ → ℤ → W → ℤ × W
  pub now : W → ℕ
  pub call : ℕ → MessageData → W → W
  pub automatic : PublishOut

pub record Client (W : Type 0) : Type 0 where
  pub ipstack : W
  pub command_timeout_ms : ℕ
  pub sendbuf : List ℕ
  pub readbuf : List ℕ
  pub last_sent : Countdown
  pub last_received : Countdown
  pub keep_alive_interval : ℕ
  pub ping_outstanding : Bool
  pub cleansession : ℕ
  pub next_id : ℕ
  pub message_handlers : List MessageHandler
  pub default_message_handler : Option ℕ
  pub isconnected : Bool
  pub pubbuf : List ℕ
  pub inflight_len : ℕ
  pub inflight_msgid : ℕ
  pub inflight_qos : ℕ

-- The constructor; `raw` is the memory of the object, of which some members stay as they are.
-- A Countdown built without an argument is not started, and its interval is not set either.
unfoldable pub new_client : {W : Type 0} → Client W → W → ℕ → Client W
new_client raw network timeout = record raw {
  ipstack = network;
  command_timeout_ms = timeout;
  last_sent = record { started = none; interval_end_ms = raw.last_sent.interval_end_ms };
  last_received = record { started = none; interval_end_ms = raw.last_received.interval_end_ms };
  ping_outstanding = false;
  next_id = 0;
  message_handlers = replicate max_message_handlers (record { topic_filter = none; fp = none });
  default_message_handler = none;
  isconnected = false;
  inflight_msgid = 0;
  inflight_qos = 0;
}

-- `memcpy(to, from, n)` and the bytes that a call of the network stores at `to`: the array
-- afterwards, or `none` for a store past its end.
unfoldable pub store_at : ℕ → List ℕ → List ℕ → Option (List ℕ)
store_at at bytes buf =
    if leb (at + length bytes) (length buf)
    then some (take at buf ++ (bytes ++ drop (at + length bytes) buf))
    else none

-- the conversion of an int to an unsigned short, and of a 32-bit pattern to an int
unfoldable pub to_ushort : ℤ → ℕ
to_ushort (pos n) = n % 65536
to_ushort (negsuc n) = 65535 - n % 65536

unfoldable pub to_int : ℕ → ℤ
to_int n = if leb 2147483648 n then negsuc (4294967295 - n) else pos n

pub set_default_message_handler : {W : Type 0} → Option ℕ → Client W → Client W
set_default_message_handler mh c = record c { default_message_handler = mh }
