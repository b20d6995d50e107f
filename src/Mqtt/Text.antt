-- ===== src/Mqtt/Text.antt =====
-- MQTT/MQTTPacket/MQTTPacket.h and MQTTPacket.c: MQTTString, MQTTstrlen, MQTTPacket_equals and
-- writeMQTTString. A `char *` to text is `none` where it is NULL. `cstring` is the characters before
-- the NUL; `lenstring.data` is the bytes from the pointer to the end of its object.
pub mod Laws
mod Tests
use remotus_hardware.Base.{
  ℕ, zero, suc, Bool, true, false, Option, none, some, List, [], ◌∷◌, ◌>>=◌, ltb, ◌==◌, ◌&&◌,
  if◌then◌else◌, length,
}
use remotus_hardware.Mqtt.Writer.{Writer, write_int, copy, write_c_string}

pub record MqttLenString : Type 0 where
  pub len : ℕ
  pub bytes : Option (List ℕ)

pub record MqttString : Type 0 where
  pub cstring : Option (List ℕ)
  pub lenstring : MqttLenString

-- MQTTString_initializer
abbrev pub null_string : MqttString
null_string = record { cstring = none; lenstring = record { len = 0; bytes = none } }

-- MQTTstrlen, over the two members
unfoldable pub str_len_of : Option (List ℕ) → ℕ → ℕ
str_len_of none len = len
str_len_of (some string) len = length string

unfoldable pub str_len : MqttString → ℕ
unfolding str_len_of
str_len s = str_len_of s.cstring s.lenstring.len

-- `memcpy` from NULL is a fault.
copy_from : ℕ → Option (List ℕ) → Writer → Option Writer
copy_from n none w = none
copy_from n (some from) w = copy n from w

-- the last two branches of writeMQTTString
write_null_or_c : Option (List ℕ) → Writer → Option Writer
write_null_or_c (some string) w = write_c_string string w
write_null_or_c none w = write_int 0 w

pub write_mqtt_string : MqttString → Writer → Option Writer
unfolding copy_from write_null_or_c
write_mqtt_string s w =
    if ltb 0 s.lenstring.len
    then (write_int s.lenstring.len w >>= copy_from s.lenstring.len s.lenstring.bytes)
    else write_null_or_c s.cstring w

-- strncmp with the count `n`, equal or not: it stops at a NUL that both have, and reading past the
-- end of an object is a fault. The C string on the right ends with a NUL.
strncmp_eq : ℕ → List ℕ → List ℕ → Option Bool
strncmp_eq zero a b = some true
strncmp_eq (suc n) [] b = none
strncmp_eq (suc n) (x ∷ a) [] = some (x == 0)
strncmp_eq (suc n) (x ∷ a) (y ∷ b) =
    let rest = strncmp_eq n a b in if x == y then rest else some false

-- A NULL pointer is read at a count above 0 only.
strncmp_from : ℕ → Option (List ℕ) → List ℕ → Option Bool
unfolding strncmp_eq
strncmp_from n (some from) b = strncmp_eq n from b
strncmp_from zero none b = some true
strncmp_from (suc n) none b = none

-- `(alen == blen) && (strncmp(aptr, bptr, alen) == 0)`
compare_counted : ℕ → Option (List ℕ) → List ℕ → Option Bool
unfolding strncmp_from
compare_counted alen aptr b = if alen == length b then strncmp_from alen aptr b else some false

-- `aptr` and `alen` by the member that is set
compare_part : Option (List ℕ) → MqttLenString → List ℕ → Option Bool
unfolding compare_counted
compare_part (some string) lens b = compare_counted (length string) (some string) b
compare_part none lens b = compare_counted lens.len lens.bytes b

pub equals : MqttString → List ℕ → Option Bool
unfolding compare_part
equals a b = compare_part a.cstring a.lenstring b
