-- ===== src/Mqtt/Connect/Fields.antt =====
-- What the parts of MQTTDeserialize_connect read back.
use remotus_hardware.Base.{
  ℕ, ◌+◌, ◌/◌, ◌%◌, ◌≤◌, ◌<◌, ◌≡◌, refl, Bool, true, false, some, List, [], ◌++◌, if◌then◌else◌,
  length, length-append, append_assoc, arith, le→not_ltb,
}
use remotus_hardware.Mqtt.Text.Laws.{string_bytes, counted}
use remotus_hardware.Mqtt.Reader.Bytes.{at, read_len_string-at}
use remotus_hardware.Mqtt.Connect.{
  ConnectData, flags_byte, bit, read_will, read_username, read_password,
}

-- Each bit field of the flags, cut to its width.
pub flags_byte_fields :
    (c w q t p u : ℕ)
    → let b = flags_byte c w q t p u in
      (b / 2 % 2 ≡ c % 2)
      × (b / 4 % 2 ≡ w % 2)
      × (b / 8 % 4 ≡ q % 4)
      × (b / 32 % 2 ≡ t % 2)
      × (b / 64 % 2 ≡ p % 2)
      × (b / 128 % 2 ≡ u % 2)
unfolding flags_byte
flags_byte_fields c w q t p u = omega arith

-- a string that is there or not
abbrev pub maybe : Bool → List ℕ → List ℕ
maybe b text = if b then string_bytes text else []

abbrev pub set_username : Bool → List ℕ → List ℕ → ConnectData → ConnectData
set_username b text rest d = if b then record d { username = counted text rest } else d

abbrev pub set_password : Bool → List ℕ → List ℕ → ConnectData → ConnectData
set_password b text rest d = if b then record d { password = counted text rest } else d

abbrev pub set_will : Bool → ℕ → ℕ → List ℕ → List ℕ → List ℕ → ConnectData → ConnectData
set_will b q t topic message rest d =
    if b
    then record d {
      will_flag = 1;
      will = record {
        topic = counted topic (string_bytes message ++ rest);
        message = counted message rest;
        retained = t;
        qos = q;
      };
    }
    else d

module _ (flags : ℕ) (d : ConnectData) (p enddata : ℕ) (rest : List ℕ) where
  pub read_password-at :
      (b : Bool) (text : List ℕ)
      → flags / 64 % 2 ≡ bit b
      → length text < 65536
      → (b ≡ true → 0 < length text)
      → p + length (maybe b text) ≤ enddata
      → read_password flags d (at p (maybe b text ++ rest)) enddata
        ≡ some (true, set_password b text rest d, at (p + length (maybe b text)) rest)
  unfolding read_password
  read_password-at false text f short some_text fits = rw f (ground arith)
  read_password-at true text f short some_text fits =
      rw
        (
          f,
          le→not_ltb enddata (p + 3) (omega (arith, some_text refl)),
          read_len_string-at d.password p enddata text rest short (omega arith),
        )
        (ground arith)

  pub read_will-at :
      (b : Bool) (q t : ℕ) (topic message : List ℕ)
      → flags / 4 % 2 ≡ bit b
      → flags / 8 % 4 ≡ q
      → flags / 32 % 2 ≡ t
      → length topic < 65536
      → length message < 65536
      → let bytes = if b then string_bytes topic ++ string_bytes message else [] in
        p + length bytes ≤ enddata
        → read_will flags d (at p (bytes ++ rest)) enddata
          ≡ some (true, set_will b q t topic message rest d, at (p + length bytes) rest)
  unfolding read_will
  read_will-at false q t topic message f g h s1 s2 fits = rw f (ground arith)
  read_will-at true q t topic message f g h s1 s2 fits =
      let size = length-append topic (string_bytes message) in
      rw
        (
          f,
          g,
          h,
          append_assoc topic (string_bytes message) rest,
          read_len_string-at d.will.topic p enddata topic (string_bytes message ++ rest) s1
              (omega (arith, size)),
          read_len_string-at d.will.message (p + 2 + length topic) enddata message rest s2
              (omega (arith, size)),
        )
        (ground (arith, size))

-- With a password but no user name the packet is refused, so there is none then.
pub read_username-at :
    (flags : ℕ) (d : ConnectData) (p enddata : ℕ) (rest : List ℕ) (b c : Bool) (name word : List ℕ)
    → flags / 128 % 2 ≡ bit b
    → flags / 64 % 2 ≡ bit c
    → length name < 65536
    → length word < 65536
    → (b ≡ true → 0 < length name)
    → (c ≡ true → 0 < length word)
    → (c ≡ true → b ≡ true)
    → p + length (maybe b name ++ maybe c word) ≤ enddata
    → read_username flags d (at p (maybe b name ++ (maybe c word ++ rest))) enddata
      ≡ some (
        true,
        set_password c word rest (set_username b name (maybe c word ++ rest) d),
        at (p + length (maybe b name ++ maybe c word)) rest,
      )
unfolding read_username
read_username-at flags d p enddata rest false false name word f g s1 s2 n1 n2 both fits =
    rw (f, g) (ground arith)
read_username-at flags d p enddata rest false true name word f g s1 s2 n1 n2 both fits =
    cc (both refl)
read_username-at flags d p enddata rest true c name word f g s1 s2 n1 n2 both fits =
    let size = length-append name (maybe c word) in
    let d1 = record d { username = counted name (maybe c word ++ rest) } in
    rw
      (
        f,
        le→not_ltb enddata (p + 3) (omega (arith, n1 refl, size)),
        read_len_string-at d.username p enddata name (maybe c word ++ rest) s1
            (omega (arith, size)),
        read_password-at flags d1 (p + 2 + length name) enddata rest c word g s2 n2
            (omega (arith, size)),
      )
      (ground (arith, size))
