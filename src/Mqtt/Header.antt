-- ===== src/Mqtt/Header.antt =====
-- MQTT/MQTTPacket/MQTTPacket.h: the union MQTTHeader, its byte and its bit fields.
-- The layout is the one without REVERSED: `retain` is bit 0, `qos` bits 1 and 2, `dup` bit 3,
-- `type` bits 4 to 7. A value assigned to a bit field is cut to the field's width.
use remotus_hardware.Base.{ℕ, ◌+◌, ◌*◌, ◌/◌, ◌%◌, ◌<◌, ◌≡◌, arith}

unfoldable pub header_byte : ℕ → ℕ → ℕ → ℕ → ℕ
header_byte type dup qos retain = type % 16 * 16 + dup % 2 * 8 + qos % 4 * 2 + retain % 2

abbrev pub header_type : ℕ → ℕ
header_type byte = byte / 16 % 16

abbrev pub header_dup : ℕ → ℕ
header_dup byte = byte / 8 % 2

abbrev pub header_qos : ℕ → ℕ
header_qos byte = byte / 2 % 4

abbrev pub header_retain : ℕ → ℕ
header_retain byte = byte % 2

pub header_byte-lt : (type dup qos retain : ℕ) → header_byte type dup qos retain < 256
unfolding header_byte
header_byte-lt type dup qos retain = omega arith

-- Each field is read back as it was stored, cut to the width of its bit field.
pub header_byte_fields :
    (type dup qos retain : ℕ)
    → (header_type (header_byte type dup qos retain) ≡ type % 16)
      × (header_dup (header_byte type dup qos retain) ≡ dup % 2)
      × (header_qos (header_byte type dup qos retain) ≡ qos % 4)
      × (header_retain (header_byte type dup qos retain) ≡ retain % 2)
unfolding header_byte
header_byte_fields type dup qos retain = omega arith
