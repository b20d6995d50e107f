-- ===== src/Mqtt/Connect/Tests.antt =====
-- Connect options on which the theorems about connect packets are run.
use remotus_hardware.Base.{
  ℕ, ◌≡◌, refl, none, some, List, [], ◌∷◌, ◌>>=◌, inl, inr, length, replicate, arith, pos,
}
use remotus_hardware.Mqtt.Text.{MqttString, null_string, str_len}
use remotus_hardware.Mqtt.Writer.{packet_len}
use remotus_hardware.Mqtt.Connect.{
  ConnectData, connect_length, serialize_connect, deserialize_connect, is_set, is_some,
}
use remotus_hardware.Mqtt.Connect.Layout.{
  IsConnect, connect_bytes, connect_length-body, connect_body,
}
use remotus_hardware.Mqtt.Connect.Steps.{IsReadable}
use remotus_hardware.Mqtt.Connect.Laws.{Carries, connect_roundtrip}

abbrev text : List ℕ → MqttString
text s = record { cstring = some s; lenstring = record { len = 0; bytes = none } }

abbrev weather : ConnectData
weather = record {
  version = 4;
  client_id = text (b'w' ∷ b'x' ∷ []);
  keep_alive = 60;
  clean_session = 1;
  will_flag = 1;
  will = record {
    topic = text (b't' ∷ []);
    message = text (b'b' ∷ b'y' ∷ b'e' ∷ []);
    retained = 1;
    qos = 2;
  };
  username = text (b'm' ∷ b'e' ∷ []);
  password = null_string;
}

abbrev old_weather : ConnectData
old_weather = record weather { version = 3 }

abbrev blank : List ℕ
blank = replicate 64 0

weather-IsConnect : IsConnect weather
unfolding connect_length is_set is_some packet_len str_len
weather-IsConnect = record {
  version = inr refl;
  client_id = refl;
  topic = refl;
  message = refl;
  username = refl;
  password = refl;
  fits = omega arith;
}

old_weather-IsConnect : IsConnect old_weather
unfolding connect_length is_set is_some packet_len str_len
old_weather-IsConnect = record {
  version = inl refl;
  client_id = refl;
  topic = refl;
  message = refl;
  username = refl;
  password = refl;
  fits = omega arith;
}

weather-IsReadable : IsReadable weather
unfolding is_set is_some
weather-IsReadable = record {
  keep_alive = omega arith;
  client_id = omega arith;
  topic = omega arith;
  message = omega arith;
  username = omega arith;
  password = omega arith;
  some_name = λ h. omega arith;
  some_word = λ h. cc;
  name_first = λ h. refl;
}

connect_roundtrip_example :
    (d' : ConnectData) × ((serialize_connect blank 64 weather >>= λ (rc, sent).
    deserialize_connect old_weather sent (length (connect_bytes weather)))
      ≡ some (pos 1, d'))
    × Carries old_weather weather d'
unfolding connect_length is_set is_some packet_len str_len
connect_roundtrip_example =
    connect_roundtrip old_weather blank 64 weather weather-IsConnect (omega arith) (omega arith)
      weather-IsReadable refl

connect_length-body_example : connect_length weather ≡ length (connect_body weather)
connect_length-body_example = connect_length-body weather weather-IsConnect
