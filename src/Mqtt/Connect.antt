-- ===== src/Mqtt/Connect.antt =====
-- MQTT/MQTTPacket/MQTTConnect.h, MQTTConnectClient.c and MQTTConnectServer.c: the connect packet.
-- The members struct_id and struct_version, which no function reads, are left out.
pub mod Layout
pub mod Fields
pub mod Steps
pub mod Laws
mod Tests
use remotus_hardware.Base.{
  ℕ, zero, suc, ◌+◌, ◌*◌, ◌/◌, ◌%◌, min, Bool, true, false, not, ◌&&◌, ◌||◌, Option, none, some,
  List, [], ◌∷◌, ◌>>=◌, ltb, ◌==◌, if◌then◌else◌, ℤ, pos,
}
use remotus_hardware.Mqtt.MsgType.{MsgType, code}
use remotus_hardware.Mqtt.Header.{header_byte, header_type}
use remotus_hardware.Mqtt.Text.{MqttString, null_string, str_len, write_mqtt_string}
use remotus_hardware.Mqtt.Writer.{
  Writer, write_char, write_int, write_length, write_c_string, packet_len, serialize_into,
}
use remotus_hardware.Mqtt.Reader.{Reader, read_char, read_int, read_len_string, read_length, start}

-- MQTTPacket_willOptions
pub record WillOptions : Type 0 where
  pub topic : MqttString
  pub message : MqttString
  pub retained : ℕ
  pub qos : ℕ

-- MQTTPacket_connectData
pub record ConnectData : Type 0 where
  pub version : ℕ
  pub client_id : MqttString
  pub keep_alive : ℕ
  pub clean_session : ℕ
  pub will_flag : ℕ
  pub will : WillOptions
  pub username : MqttString
  pub password : MqttString

-- MQTTConnectFlags: from bit 1 on, `cleansession`, `will`, `willQoS` (two bits), `willRetain`,
-- `password` and `username`.
unfoldable pub flags_byte : ℕ → ℕ → ℕ → ℕ → ℕ → ℕ → ℕ
flags_byte clean_session will will_qos will_retain password username =
    username % 2 * 128
    + password % 2 * 64
    + will_retain % 2 * 32
    + will_qos % 4 * 8
    + will % 2 * 4
    + clean_session % 2 * 2

-- the test `s.cstring || s.lenstring.data`
is_some {ℓ} : {A : Type ℓ} → Option A → Bool
is_some none = false
is_some (some a) = true

pub is_set : MqttString → Bool
unfolding is_some
is_set s = is_some s.cstring || is_some s.lenstring.bytes

-- a test of an int, and the bit 1 or 0 that it sets
abbrev pub is_true : ℕ → Bool
is_true n = ltb 0 n

abbrev pub bit : Bool → ℕ
bit b = if b then 1 else 0

pub connect_length : ConnectData → ℕ
connect_length o =
    (if o.version == 3 then 12 else if o.version == 4 then 10 else 0)
    + (str_len o.client_id + 2)
    + (if is_true o.will_flag then str_len o.will.topic + 2 + str_len o.will.message + 2 else 0)
    + (if is_set o.username then str_len o.username + 2 else 0)
    + (if is_set o.password then str_len o.password + 2 else 0)

-- "MQTT", "MQIsdp", and the "MQIdsp" of MQTTPacket_checkVersion
abbrev pub mqtt : List ℕ
mqtt = b'M' ∷ b'Q' ∷ b'T' ∷ b'T' ∷ []

abbrev pub mqisdp : List ℕ
mqisdp = b'M' ∷ b'Q' ∷ b'I' ∷ b's' ∷ b'd' ∷ b'p' ∷ []

abbrev pub mqidsp : List ℕ
mqidsp = b'M' ∷ b'Q' ∷ b'I' ∷ b'd' ∷ b's' ∷ b'p' ∷ []

write_protocol : ℕ → Writer → Option Writer
write_protocol version w =
    if version == 4
    then (write_c_string mqtt w >>= write_char 4)
    else (write_c_string mqisdp w >>= write_char 3)

-- The will's QoS and retain bits are set only with a will.
abbrev pub connect_flags : ConnectData → ℕ
connect_flags o =
    flags_byte o.clean_session (bit (is_true o.will_flag))
      (if is_true o.will_flag then o.will.qos else 0)
      (if is_true o.will_flag then o.will.retained else 0) (bit (is_set o.password))
      (bit (is_set o.username))

write_will : ConnectData → Writer → Option Writer
write_will o w =
    if is_true o.will_flag
    then (write_mqtt_string o.will.topic w >>= write_mqtt_string o.will.message)
    else some w

write_if : Bool → MqttString → Writer → Option Writer
write_if b s w = if b then write_mqtt_string s w else some w

write_connect : ConnectData → Writer → Option Writer
unfolding write_protocol write_will write_if
write_connect o w = do
  w ← write_char (header_byte (code MsgType.connect) 0 0 0) w
  w ← write_length (connect_length o) w
  w ← write_protocol o.version w
  w ← write_char (connect_flags o) w
  w ← write_int o.keep_alive w
  w ← write_mqtt_string o.client_id w
  w ← write_will o w
  w ← write_if (is_set o.username) o.username w
  write_if (is_set o.password) o.password w

pub serialize_connect : List ℕ → ℕ → ConnectData → Option (ℤ × List ℕ)
serialize_connect buf buflen o =
    serialize_into (packet_len (connect_length o)) buflen buf (write_connect o)

-- memcmp of `n` bytes, equal or not; reading past the end of an object is a fault.
memcmp_eq : ℕ → Option (List ℕ) → List ℕ → Option Bool
memcmp_eq zero a b = some true
memcmp_eq (suc n) none b = none
memcmp_eq (suc n) (some []) b = none
memcmp_eq (suc n) (some (x ∷ a)) [] = none
memcmp_eq (suc n) (some (x ∷ a)) (y ∷ b) =
    let rest = memcmp_eq n (some a) b in if x == y then rest else some false

pub check_version : MqttString → ℕ → Option Bool
unfolding memcmp_eq
check_version protocol version =
    if version == 3
    then memcmp_eq (min 6 protocol.lenstring.len) protocol.lenstring.bytes mqidsp
    else if version == 4
    then memcmp_eq (min 4 protocol.lenstring.len) protocol.lenstring.bytes mqtt
    else some false

-- The parts of MQTTDeserialize_connect: each returns whether to go on, the data as far as they are
-- set, and `curdata`.
pub read_will : ℕ → ConnectData → Reader → ℕ → Option (Bool × ConnectData × Reader)
read_will flags d r enddata = if not (flags / 4 % 2 == 1) then some (true, d, r) else (do
  let w1 = record (d.will) { qos = flags / 8 % 4; retained = flags / 32 % 2 }
  (done, topic, r1) ← read_len_string d.will.topic r enddata
  let w2 = record w1 { topic = topic }
  let d2 = record d { will_flag = 1; will = w2 }
  if not done then some (false, d2, r1) else (do
    (done', message, r2) ← read_len_string d.will.message r1 enddata
    some (done', record d2 { will = record w2 { message = message } }, r2)))

pub read_password : ℕ → ConnectData → Reader → ℕ → Option (Bool × ConnectData × Reader)
read_password flags d r enddata =
    if not (flags / 64 % 2 == 1)
    then some (true, d, r)
    else if ltb enddata (r.offset + 3)
    then some (false, d, r)
    else (do
      (done, password, r1) ← read_len_string d.password r enddata
      some (done, record d { password = password }, r1))

pub read_username : ℕ → ConnectData → Reader → ℕ → Option (Bool × ConnectData × Reader)
read_username flags d r enddata =
    if not (flags / 128 % 2 == 1)
    then some (not (flags / 64 % 2 == 1), d, r)
    else if ltb enddata (r.offset + 3)
    then some (false, d, r)
    else (do
      (done, username, r1) ← read_len_string d.username r enddata
      let d1 = record d { username = username }
      if done then read_password flags d1 r1 enddata else some (false, d1, r1))

-- from the flags on
pub read_connect : ConnectData → Reader → ℕ → Option (Bool × ConnectData × Reader)
read_connect d r enddata = do
  (flags, r1) ← read_char r
  (keep_alive, r2) ← read_int r1
  (done, client_id, r3) ← read_len_string d.client_id r2 enddata
  let d1 = record d {
    clean_session = flags / 2 % 2;
    keep_alive = keep_alive;
    client_id = client_id;
  }
  if not done then some (false, d1, r3) else (do
    (done', d2, r4) ← read_will flags d1 r3 enddata
    if done' then read_username flags d2 r4 enddata else some (false, d2, r4))

-- The remaining length is read and not used: `enddata` is `&buf[len]`.
pub deserialize_connect : ConnectData → List ℕ → ℕ → Option (ℤ × ConnectData)
deserialize_connect d buf len = do
  (byte, r1) ← read_char (start buf)
  if not (header_type byte == code MsgType.connect) then some (pos 0, d) else (do
    (_, mylen, r2) ← read_length r1
    (done, protocol, r3) ← read_len_string null_string r2 len
    if not done || ltb len r3.offset then some (pos 0, d) else (do
      (version, r4) ← read_char r3
      known ← check_version protocol version
      if not known
          then some (pos 0, d)
          else (do (complete, d1, _) ← read_connect d r4 len; some (pos (bit complete), d1))))
