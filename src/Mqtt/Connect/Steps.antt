-- ===== src/Mqtt/Connect/Steps.antt =====
-- The steps of MQTTDeserialize_connect on the bytes of a connect packet.
use remotus_hardware.Base.{
  ℕ, ◌+◌, ◌%◌, ◌≤◌, ◌<◌, ◌^◌, ◌≡◌, refl, ◌∙◌, Bool, true, false, some, List, ◌∷◌, ◌++◌, ◌>>=◌, ap,
  not, if◌then◌else◌, length, length-append, append_assoc, arith, le→not_ltb, pos,
}
use remotus_hardware.Mqtt.Header.{header_byte}
use remotus_hardware.Mqtt.Text.{null_string}
use remotus_hardware.Mqtt.Text.Laws.{content, string_bytes, counted}
use remotus_hardware.Mqtt.Writer.Bytes.{int_bytes, length_bytes}
use remotus_hardware.Mqtt.Reader.Bytes.{
  at, read_char-at, read_int-at, read_len_string-at, read_length-at,
}
use remotus_hardware.Mqtt.Connect.{
  ConnectData, is_set, is_true, bit, connect_flags, mqtt, mqisdp, check_version, read_connect,
  deserialize_connect,
}
use remotus_hardware.Mqtt.Connect.Layout.{
  IsConnect, protocol_bytes, will_bytes, optional_bytes, connect_fields, connect_body,
  connect_bytes, connect_length-body,
}
use remotus_hardware.Mqtt.Connect.Fields.{
  set_username, set_password, set_will, flags_byte_fields, read_will-at, read_username-at,
}

-- What the packet can carry: strings of 16-bit length, no empty user name or password, and no
-- password without a user name.
pub record IsReadable (o : ConnectData) : Type 0 where
  pub keep_alive : o.keep_alive < 65536
  pub client_id : length (content o.client_id) < 65536
  pub topic : length (content o.will.topic) < 65536
  pub message : length (content o.will.message) < 65536
  pub username : length (content o.username) < 65536
  pub password : length (content o.password) < 65536
  pub some_name : is_set o.username ≡ true → 0 < length (content o.username)
  pub some_word : is_set o.password ≡ true → 0 < length (content o.password)
  pub name_first : is_set o.password ≡ true → is_set o.username ≡ true

abbrev credentials : ConnectData → List ℕ
credentials o = optional_bytes o.username ++ optional_bytes o.password

-- the data after each part is read
abbrev pub with_client : ConnectData → ConnectData → List ℕ → ConnectData
with_client d o rest = record d {
  clean_session = o.clean_session % 2;
  keep_alive = o.keep_alive;
  client_id = counted (content o.client_id) (will_bytes o ++ (credentials o ++ rest));
}

abbrev pub with_will : ConnectData → ConnectData → List ℕ → ConnectData
with_will d o rest =
    set_will (is_true o.will_flag) ((if is_true o.will_flag then o.will.qos else 0) % 4)
      ((if is_true o.will_flag then o.will.retained else 0) % 2) (content o.will.topic)
      (content o.will.message) (credentials o ++ rest) (with_client d o rest)

abbrev pub with_all : ConnectData → ConnectData → List ℕ → ConnectData
with_all d o rest = set_password (is_set o.password) (content o.password) rest (
    set_username (is_set o.username) (content o.username) (optional_bytes o.password ++ rest)
      (with_will d o rest))

fields_append :
    (o : ConnectData) (rest : List ℕ)
    → connect_fields o ++ rest
      ≡ connect_flags o ∷ int_bytes o.keep_alive
        ++ (string_bytes (content o.client_id) ++ (will_bytes o ++ (credentials o ++ rest)))
fields_append o rest = rw (
  append_assoc (content o.client_id) (will_bytes o ++ credentials o) rest,
  append_assoc (will_bytes o) (credentials o) rest,
)

bit-mod : (b : Bool) → bit b % 2 ≡ bit b
bit-mod true = refl
bit-mod false = refl

read_connect-at :
    (d o : ConnectData) (p enddata : ℕ) (rest : List ℕ)
    → IsReadable o
    → p + length (connect_fields o) ≤ enddata
    → read_connect d (at p (connect_fields o ++ rest)) enddata
      ≡ some (true, with_all d o rest, at (p + length (connect_fields o)) rest)
unfolding read_connect
read_connect-at d o p enddata rest v fits =
    let tail = will_bytes o ++ (credentials o ++ rest) in
    let size1 = length-append (content o.client_id) (will_bytes o ++ credentials o) in
    let size2 = length-append (will_bytes o) (credentials o) in
    let p2 = p + 1 + 2 + 2 + length (content o.client_id) in
    let (is_clean, is_will, is_qos, is_retain, is_pass, is_name) =
      flags_byte_fields o.clean_session (bit (is_true o.will_flag))
        (if is_true o.will_flag then o.will.qos else 0)
        (if is_true o.will_flag then o.will.retained else 0) (bit (is_set o.password))
        (bit (is_set o.username)) in
    let names =
      rw (← append_assoc (optional_bytes o.username) (optional_bytes o.password) rest) at (
        read_username-at (connect_flags o) (with_will d o rest) (p2 + length (will_bytes o)) enddata
          rest (is_set o.username) (is_set o.password) (content o.username) (content o.password)
          (is_name ∙ bit-mod (is_set o.username)) (is_pass ∙ bit-mod (is_set o.password)) v.username
          v.password v.some_name v.some_word v.name_first (omega (arith, size1, size2))) in
    rw
      (
        fields_append o rest,
        read_char-at p (connect_flags o)
            (int_bytes o.keep_alive ++ (string_bytes (content o.client_id) ++ tail)),
        read_int-at (p + 1) o.keep_alive (string_bytes (content o.client_id) ++ tail) v.keep_alive,
        read_len_string-at d.client_id (p + 1 + 2) enddata (content o.client_id) tail v.client_id
            (omega (arith, size1)),
        is_clean,
        read_will-at (connect_flags o) (with_client d o rest) p2 enddata (credentials o ++ rest)
            (is_true o.will_flag) ((if is_true o.will_flag then o.will.qos else 0) % 4)
            ((if is_true o.will_flag then o.will.retained else 0) % 2) (content o.will.topic)
            (content o.will.message) (is_will ∙ bit-mod (is_true o.will_flag)) is_qos is_retain
            v.topic v.message (omega (arith, size1, size2)),
        names,
      )
      (ap (λ k. some (true, with_all d o rest, at k rest)) (omega (arith, size1, size2)))

-- The steps up to the version, on a connect header, a remaining length and a protocol name.
protocol_read :
    (d : ConnectData) (n len version : ℕ) (name more : List ℕ)
    → n < 2 ^ 28
    → length name < 65536
    → 1 + length (length_bytes n) + 2 + length name ≤ len
    → deserialize_connect d
        (header_byte 1 0 0 0 ∷ length_bytes n ++ (string_bytes name ++ (version ∷ more)))
        len
      ≡ (check_version (counted name (version ∷ more)) version >>= λ known.
          if not known
          then some (pos 0, d)
          else (read_connect d (at (1 + length (length_bytes n) + 2 + length name + 1) more) len
              >>= λ (complete, d1, _). some (pos (bit complete), d1)))
unfolding deserialize_connect header_byte
protocol_read d n len version name more small short fits =
    let from = 1 + length (length_bytes n) in
    rw (
      read_char-at 0 16 (length_bytes n ++ (string_bytes name ++ (version ∷ more))),
      read_length-at 1 n (string_bytes name ++ (version ∷ more)) small,
      read_len_string-at null_string from len name (version ∷ more) short fits,
      le→not_ltb len (from + 2 + length name) fits,
      read_char-at (from + 2 + length name) version more,
    )

check_mqtt : (rest : List ℕ) → check_version (counted mqtt rest) 4 ≡ some true
unfolding check_version
check_mqtt rest = refl

check_mqisdp : (rest : List ℕ) → check_version (counted mqisdp rest) 3 ≡ some false
unfolding check_version
check_mqisdp rest = refl

module _ (d o : ConnectData) (rest : List ℕ) (v : IsConnect o) where
  small_body : length (connect_body o) < 2 ^ 28
  small_body = rw (← connect_length-body o v) v.fits

  size_bytes :
      length (connect_bytes o)
      ≡ 1 + length (length_bytes (length (connect_body o))) + length (connect_body o)
  size_bytes =
      omega (arith, length-append (length_bytes (length (connect_body o))) (connect_body o))

  -- the protocol name and the version of the two versions
  body_new : o.version ≡ 4 → connect_body o ≡ string_bytes mqtt ++ (4 ∷ connect_fields o)
  body_new is4 = ap (λ k. protocol_bytes k ++ connect_fields o) is4

  body_old : o.version ≡ 3 → connect_body o ≡ string_bytes mqisdp ++ (3 ∷ connect_fields o)
  body_old is3 = ap (λ k. protocol_bytes k ++ connect_fields o) is3

  pub deserialize_connect-bytes :
      IsReadable o
      → o.version ≡ 4
      → deserialize_connect d (connect_bytes o ++ rest) (length (connect_bytes o))
        ≡ some (pos 1, with_all d o rest)
  deserialize_connect-bytes r is4 =
      let n = length (connect_body o) in
      let len = length (connect_bytes o) in
      let size = ap length (body_new is4) in
      rw (
        append_assoc (length_bytes n) (connect_body o) rest,
        ap (λ k. k ++ rest) (body_new is4),
        protocol_read d n len 4 mqtt (connect_fields o ++ rest) small_body (omega arith)
            (omega (arith, size, size_bytes)),
        check_mqtt (4 ∷ connect_fields o ++ rest),
        read_connect-at d o (1 + length (length_bytes n) + 2 + length mqtt + 1) len rest r
            (omega (arith, size, size_bytes)),
      )

  pub deserialize_connect-old :
      o.version ≡ 3
      → deserialize_connect d (connect_bytes o ++ rest) (length (connect_bytes o)) ≡ some (pos 0, d)
  deserialize_connect-old is3 =
      let n = length (connect_body o) in
      let len = length (connect_bytes o) in
      let size = ap length (body_old is3) in
      rw (
        append_assoc (length_bytes n) (connect_body o) rest,
        ap (λ k. k ++ rest) (body_old is3),
        protocol_read d n len 3 mqisdp (connect_fields o ++ rest) small_body (omega arith)
            (omega (arith, size, size_bytes)),
        check_mqisdp (3 ∷ connect_fields o ++ rest),
      )
