-- ===== src/Mqtt/Connect/Layout.antt =====
-- The bytes of a connect packet, and that MQTTSerialize_connect stores them.
use remotus_hardware.Base.{
  ℕ, ◌+◌, ◌≤◌, ◌<◌, ◌^◌, ◌≡◌, ◌⊎◌, List, [], ◌∷◌, ◌++◌, ◌==◌, if◌then◌else◌, length, length-append,
  arith,
}
use remotus_hardware.Mqtt.Header.{header_byte, header_byte-lt}
use remotus_hardware.Mqtt.Text.{MqttString, str_len}
use remotus_hardware.Mqtt.Text.Laws.{
  IsText, content, string_bytes, str_len-content, write_mqtt_string-Writes,
}
use remotus_hardware.Mqtt.Writer.{packet_len}
use remotus_hardware.Mqtt.Writer.Bytes.{
  Writes, Writes-bind, Writes-skip, Writes-if, write_byte-Writes, write_int-Writes,
  write_length-Writes, write_c_string-Writes, int_bytes, length_bytes,
}
use remotus_hardware.Mqtt.Writer.Reply.{reply, serialize_into-reply}
use remotus_hardware.Mqtt.Writer.Size.{packet-le}
use remotus_hardware.Mqtt.Connect.{
  ConnectData, flags_byte, is_set, is_true, connect_length, mqtt, mqisdp, connect_flags,
  write_connect, serialize_connect,
}

abbrev pub protocol_bytes : ℕ → List ℕ
protocol_bytes version =
    if version == 4 then string_bytes mqtt ++ (4 ∷ []) else string_bytes mqisdp ++ (3 ∷ [])

abbrev pub will_bytes : ConnectData → List ℕ
will_bytes o =
    if is_true o.will_flag
    then string_bytes (content o.will.topic) ++ string_bytes (content o.will.message)
    else []

abbrev pub optional_bytes : MqttString → List ℕ
optional_bytes s = if is_set s then string_bytes (content s) else []

-- What follows the protocol, and what follows the remaining length field.
abbrev pub connect_fields : ConnectData → List ℕ
connect_fields o =
    connect_flags o ∷ int_bytes o.keep_alive
    ++ (string_bytes (content o.client_id)
        ++ (will_bytes o ++ (optional_bytes o.username ++ optional_bytes o.password)))

abbrev pub connect_body : ConnectData → List ℕ
connect_body o = protocol_bytes o.version ++ connect_fields o

abbrev pub connect_bytes : ConnectData → List ℕ
connect_bytes o = header_byte 1 0 0 0 ∷ length_bytes (length (connect_body o)) ++ connect_body o

-- Options that make a connect packet: a known version, strings that are texts, and a remaining length
-- that fits its field.
pub record IsConnect (o : ConnectData) : Type 0 where
  pub version : (o.version ≡ 3) ⊎ (o.version ≡ 4)
  pub client_id : IsText o.client_id
  pub topic : IsText o.will.topic
  pub message : IsText o.will.message
  pub username : IsText o.username
  pub password : IsText o.password
  pub fits : connect_length o < 2 ^ 28

length-optional :
    (s : MqttString)
    → IsText s
    → length (optional_bytes s) ≡ (if is_set s then str_len s + 2 else 0)
length-optional s h = ground (arith, str_len-content s h)

length-protocol :
    (version : ℕ)
    → (version ≡ 3) ⊎ (version ≡ 4)
    → length (protocol_bytes version) + 3
      ≡ (if version == 3 then 12 else if version == 4 then 10 else 0)
length-protocol version h = ground arith

flags_byte-lt : (c w q t p u : ℕ) → flags_byte c w q t p u < 256
unfolding flags_byte
flags_byte-lt c w q t p u = omega arith

module _ (o : ConnectData) (v : IsConnect o) where
  length-will :
      length (will_bytes o)
      ≡ (if is_true o.will_flag then str_len o.will.topic + 2 + str_len o.will.message + 2 else 0)
  length-will = ground (
    arith,
    str_len-content o.will.topic v.topic,
    str_len-content o.will.message v.message,
    length-append (content o.will.topic) (string_bytes (content o.will.message)),
  )

  -- MQTTSerialize_connectLength is the length of what follows the remaining length field.
  pub connect_length-body : connect_length o ≡ length (connect_body o)
  unfolding connect_length
  connect_length-body = omega (
    arith,
    length-protocol o.version v.version,
    length-will,
    length-optional o.username v.username,
    length-optional o.password v.password,
    str_len-content o.client_id v.client_id,
    length-append (protocol_bytes o.version) (connect_fields o),
    length-append (content o.client_id)
        (will_bytes o ++ (optional_bytes o.username ++ optional_bytes o.password)),
    length-append (will_bytes o) (optional_bytes o.username ++ optional_bytes o.password),
    length-append (optional_bytes o.username) (optional_bytes o.password),
  )

  write_connect-Writes : Writes (connect_bytes o) (write_connect o)
  unfolding write_connect
  write_connect-Writes = rw (← connect_length-body) (
      Writes-bind (write_byte-Writes (header_byte 1 0 0 0) (header_byte-lt 1 0 0 0)) (
        Writes-bind (write_length-Writes (connect_length o) v.fits) (
          Writes-bind
            (Writes-if (o.version == 4)
              (Writes-bind (write_c_string-Writes mqtt) (write_byte-Writes 4 (omega arith)))
              (Writes-bind (write_c_string-Writes mqisdp) (write_byte-Writes 3 (omega arith))))
            (Writes-bind (write_byte-Writes (connect_flags o) (flags_byte-lt _ _ _ _ _ _)) (
              Writes-bind (write_int-Writes o.keep_alive) (
                Writes-bind (write_mqtt_string-Writes o.client_id v.client_id) (
                  Writes-bind
                    (Writes-if (is_true o.will_flag)
                      (Writes-bind (write_mqtt_string-Writes o.will.topic v.topic)
                        (write_mqtt_string-Writes o.will.message v.message))
                      Writes-skip)
                    (Writes-bind
                      (Writes-if (is_set o.username)
                        (write_mqtt_string-Writes o.username v.username) Writes-skip)
                      (Writes-if (is_set o.password)
                        (write_mqtt_string-Writes o.password v.password) Writes-skip)))))))))

  -- MQTTSerialize_connect on options that make a packet, given a buffer of `buflen` bytes at least:
  -- below the length that MQTTPacket_len asks for it answers the error and leaves the buffer;
  -- otherwise it stores the packet at its start, leaves the rest and answers the packet's length.
  pub serialize_connect_lem :
      (buf : List ℕ) (buflen : ℕ)
      → buflen ≤ length buf
      → serialize_connect buf buflen o
        ≡ reply (packet_len (connect_length o)) buflen buf (connect_bytes o)
  unfolding serialize_connect
  serialize_connect_lem buf buflen room =
      serialize_into-reply (packet_len (connect_length o)) buflen buf write_connect-Writes
        (rw connect_length-body (packet-le (header_byte 1 0 0 0) (connect_body o))) room
