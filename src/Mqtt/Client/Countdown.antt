-- ===== src/Mqtt/Client/Countdown.antt =====
-- MQTT/MQTTmbed.h: the class Countdown over mbed's Timer, whose `read_ms` is the time since its
-- start, and 0 if it was not started. The time comes from the caller, in milliseconds.
use remotus_hardware.Base.{ℕ, ◌-◌, ◌*◌, Bool, Option, none, some, leb, ℤ, sub_ℕ}

pub record Countdown : Type 0 where
  pub started : Option ℕ
  pub interval_end_ms : ℕ

read_ms_since : ℕ → Option ℕ → ℕ
read_ms_since now none = 0
read_ms_since now (some start) = now - start

unfoldable pub read_ms : ℕ → Countdown → ℕ
unfolding read_ms_since
read_ms now t = read_ms_since now t.started

unfoldable pub expired : ℕ → Countdown → Bool
unfolding read_ms
expired now t = leb t.interval_end_ms (read_ms now t)

unfoldable pub left_ms : ℕ → Countdown → ℤ
unfolding read_ms
left_ms now t = sub_ℕ t.interval_end_ms (read_ms now t)

unfoldable pub countdown_ms : ℕ → ℕ → Countdown
countdown_ms now ms = record { started = some now; interval_end_ms = ms }

unfoldable pub countdown : ℕ → ℕ → Countdown
unfolding countdown_ms
countdown now seconds = countdown_ms now (seconds * 1000)
