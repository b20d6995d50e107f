-- ===== src/Mqtt/Text/Tests.antt =====
-- Strings on which the theorems about them are run.
use remotus_hardware.Base.{◌≡◌, none, some, [], ◌∷◌, length, arith}
use remotus_hardware.Mqtt.Text.{MqttString, str_len}
use remotus_hardware.Mqtt.Text.Laws.{content, str_len-content}

abbrev wind : MqttString
wind = record {
  cstring = none;
  lenstring = record { len = 2; bytes = some (b'w' ∷ b'/' ∷ b'1' ∷ []) };
}

str_len-content_example : str_len wind ≡ length (content wind)
str_len-content_example = str_len-content wind (omega arith)
