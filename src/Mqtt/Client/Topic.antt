-- ===== src/Mqtt/Client/Topic.antt =====
-- MQTT/MQTTClient.h: isTopicMatched. A filter is the characters of its C string; a name is its length
-- and the bytes from its pointer to the end of their object, past which a read is a fault.
pub mod Laws
use remotus_hardware.Base.{
  ℕ, zero, suc, Bool, false, not, ◌&&◌, Option, none, some, List, [], ◌∷◌, ◌>>=◌, ◌==◌,
  if◌then◌else◌,
}
use remotus_hardware.Mqtt.Text.{MqttString, MqttLenString}

abbrev pub slash : ℕ
slash = b'/'

abbrev pub plus : ℕ
plus = b'+'

abbrev pub hash : ℕ
hash = b'#'

-- The loop on `nextpos`, and `curn++` after it: what is left of the name behind the current level.
skip_level : ℕ → List ℕ → Option (ℕ × List ℕ)
skip_level zero name = some (zero, name)
skip_level (suc n) [] = none
skip_level (suc n) (c ∷ name) =
    let onward = skip_level n name in if c == slash then some (suc n, c ∷ name) else onward

-- From `curf` and `curn` on, with `curn_end - curn` characters of the name left. The loop is left
-- early only while some of these are left, and then the result is false.
match_from : List ℕ → ℕ → List ℕ → Option Bool
match_from [] n name = some (n == 0)
match_from (f ∷ filter) zero name = some false
match_from (f ∷ filter) (suc n) [] = none
match_from (f ∷ filter) (suc n) (c ∷ name) =
    let skipped = skip_level n name >>= λ (n', name'). match_from filter n' name' in
    let to_end = match_from filter 0 [] in
    let next = match_from filter n name in
    if c == slash && not (f == slash)
    then some false
    else if not (f == plus) && not (f == hash) && not (f == c)
    then some false
    else if f == plus
    then skipped
    else if f == hash
    then to_end
    else next

-- A NULL pointer is read at a length above 0 only.
match_name : List ℕ → ℕ → Option (List ℕ) → Option Bool
unfolding skip_level match_from
match_name filter len (some name) = match_from filter len name
match_name filter zero none = match_from filter 0 []
match_name [] (suc len) none = some false
match_name (f ∷ filter) (suc len) none = none

unfoldable pub is_topic_matched : List ℕ → MqttString → Option Bool
unfolding match_name
is_topic_matched filter name = match_name filter name.lenstring.len name.lenstring.bytes
