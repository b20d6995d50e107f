-- ===== src/Mqtt/Connect/Laws.antt =====
-- What MQTTDeserialize_connect answers on the packets of MQTTSerialize_connect.
use remotus_hardware.Base.{
  ℕ, ◌%◌, ◌≤◌, ◌≡◌, refl, ◌∙◌, Bool, true, false, some, List, ◌++◌, ◌>>=◌, if◌then◌else◌, length,
  le→not_ltb, pos, drop, take-append,
}
use remotus_hardware.Mqtt.Text.{MqttString}
use remotus_hardware.Mqtt.Text.Laws.{content}
use remotus_hardware.Mqtt.Writer.{packet_len}
use remotus_hardware.Mqtt.Connect.{
  ConnectData, is_set, is_true, connect_length, serialize_connect, deserialize_connect,
}
use remotus_hardware.Mqtt.Connect.Layout.{IsConnect, connect_bytes, serialize_connect_lem}
use remotus_hardware.Mqtt.Connect.Steps.{
  IsReadable, with_will, with_all, deserialize_connect-bytes, deserialize_connect-old,
}

-- What the caller's options hold after a packet is read: the fields that were sent, and where the
-- packet has no will, user name or password, what was there before.
pub record Carries (d o d' : ConnectData) : Type 0 where
  pub clean_session : d'.clean_session ≡ o.clean_session % 2
  pub keep_alive : d'.keep_alive ≡ o.keep_alive
  pub client_id : content d'.client_id ≡ content o.client_id
  pub will_flag : d'.will_flag ≡ (if is_true o.will_flag then 1 else d.will_flag)
  pub topic :
      content d'.will.topic
      ≡ (if is_true o.will_flag then content o.will.topic else content d.will.topic)
  pub message :
      content d'.will.message
      ≡ (if is_true o.will_flag then content o.will.message else content d.will.message)
  pub will_qos : d'.will.qos ≡ (if is_true o.will_flag then o.will.qos % 4 else d.will.qos)
  pub will_retained :
      d'.will.retained ≡ (if is_true o.will_flag then o.will.retained % 2 else d.will.retained)
  pub username :
      content d'.username ≡ (if is_set o.username then content o.username else content d.username)
  pub password :
      content d'.password ≡ (if is_set o.password then content o.password else content d.password)

-- A field that a branch does not set, and one that it sets.
keep {ℓ} :
    {A : Type ℓ} (f : ConnectData → A) (b : Bool) (x y : ConnectData)
    → f x ≡ f y
    → f (if b then x else y) ≡ f y
keep f true x y h = h
keep f false x y h = refl

chosen {ℓ} :
    {A : Type ℓ} (f : ConnectData → A) (b : Bool) (x y : ConnectData) (u v : A)
    → f x ≡ (if b then u else f x)
    → f y ≡ v
    → f (if b then x else y) ≡ (if b then u else v)
chosen f true x y u v h k = h
chosen f false x y u v h k = k

cut_if :
    (b : Bool) (q m : ℕ)
    → (if b then q else 0) % m ≡ (if b then q % m else (if b then q else 0) % m)
cut_if true q m = refl
cut_if false q m = refl

same_if {ℓ} : {A : Type ℓ} (b : Bool) (x u : A) → x ≡ u → x ≡ (if b then u else x)
same_if true x u h = h
same_if false x u h = refl

module _ (d o : ConnectData) (rest : List ℕ) where
  -- A field that neither the user name nor the password is.
  past_names {ℓ} :
      {A : Type ℓ} (f : ConnectData → A)
      → ((x : ConnectData) (s : MqttString) → f (record x { username = s }) ≡ f x)
      → ((x : ConnectData) (s : MqttString) → f (record x { password = s }) ≡ f x)
      → f (with_all d o rest) ≡ f (with_will d o rest)
  past_names f hu hp =
      keep f (is_set o.password) _ _ (hp _ _) ∙ keep f (is_set o.username) _ _ (hu _ _)

  with_all-Carries : Carries d o (with_all d o rest)
  with_all-Carries = record {
    clean_session =
        past_names (λ x. x.clean_session) (λ x s. refl) (λ x s. refl)
        ∙ keep (λ x. x.clean_session) (is_true o.will_flag) _ _ refl;
    keep_alive =
        past_names (λ x. x.keep_alive) (λ x s. refl) (λ x s. refl)
        ∙ keep (λ x. x.keep_alive) (is_true o.will_flag) _ _ refl;
    client_id =
        past_names (λ x. content x.client_id) (λ x s. refl) (λ x s. refl)
        ∙ keep (λ x. content x.client_id) (is_true o.will_flag) _ _ refl
        ∙ take-append (content o.client_id) _;
    will_flag =
        past_names (λ x. x.will_flag) (λ x s. refl) (λ x s. refl)
        ∙ chosen (λ x. x.will_flag) (is_true o.will_flag) _ _ _ _ (same_if _ _ _ refl) refl;
    topic =
        past_names (λ x. content x.will.topic) (λ x s. refl) (λ x s. refl)
        ∙ chosen (λ x. content x.will.topic) (is_true o.will_flag) _ _ _ _
            (same_if _ _ _ (take-append (content o.will.topic) _)) refl;
    message =
        past_names (λ x. content x.will.message) (λ x s. refl) (λ x s. refl)
        ∙ chosen (λ x. content x.will.message) (is_true o.will_flag) _ _ _ _
            (same_if _ _ _ (take-append (content o.will.message) _)) refl;
    will_qos =
        past_names (λ x. x.will.qos) (λ x s. refl) (λ x s. refl)
        ∙ chosen (λ x. x.will.qos) (is_true o.will_flag) _ _ _ _
            (cut_if (is_true o.will_flag) o.will.qos 4) refl;
    will_retained =
        past_names (λ x. x.will.retained) (λ x s. refl) (λ x s. refl)
        ∙ chosen (λ x. x.will.retained) (is_true o.will_flag) _ _ _ _
            (cut_if (is_true o.will_flag) o.will.retained 2) refl;
    username =
        keep (λ x. content x.username) (is_set o.password) _ _ refl
        ∙ chosen (λ x. content x.username) (is_set o.username) _ _ _ _
            (same_if _ _ _ (take-append (content o.username) _))
            (keep (λ x. content x.username) (is_true o.will_flag) _ _ refl);
    password =
        chosen (λ x. content x.password) (is_set o.password) _ _ _ _
          (same_if _ _ _ (take-append (content o.password) _))
          (keep (λ x. content x.password) (is_set o.username) _ _ refl
            ∙ keep (λ x. content x.password) (is_true o.will_flag) _ _ refl);
  }

module _ (d : ConnectData) (buf : List ℕ) (buflen : ℕ) (o : ConnectData) (v : IsConnect o)
    (room : buflen ≤ length buf) (fits : packet_len (connect_length o) ≤ buflen) where
  sent_and_read :
      (serialize_connect buf buflen o >>= λ (rc, sent).
      deserialize_connect d sent (length (connect_bytes o)))
      ≡ deserialize_connect d
          (connect_bytes o ++ drop (length (connect_bytes o)) buf)
          (length (connect_bytes o))
  sent_and_read = rw (serialize_connect_lem o v buf buflen room, le→not_ltb buflen _ fits)

  -- MQTT 3.1.1: options that make a connect packet and whose strings it can carry, with no empty user
  -- name or password and no password without a user name, in a buffer with the room that
  -- MQTTPacket_len asks for: MQTTDeserialize_connect, given the packet that MQTTSerialize_connect
  -- stored and its length, answers 1 with the fields that were sent, and leaves the will, the user
  -- name and the password as they were where the packet has none.
  pub connect_roundtrip :
      IsReadable o
      → o.version ≡ 4
      → (d' : ConnectData) × ((serialize_connect buf buflen o >>= λ (rc, sent).
            deserialize_connect d sent (length (connect_bytes o)))
          ≡ some (pos 1, d'))
        × Carries d o d'
  connect_roundtrip r is4 =
      let rest = drop (length (connect_bytes o)) buf in
      (
        with_all d o rest,
        sent_and_read ∙ deserialize_connect-bytes d o rest v r is4,
        with_all-Carries d o rest,
      )

  -- MQTT 3.1: whatever options make a connect packet, MQTTDeserialize_connect refuses the packet that
  -- MQTTSerialize_connect stored, with result 0 and the data unchanged.
  pub connect_old_refused :
      o.version ≡ 3
      → (serialize_connect buf buflen o >>= λ (rc, sent).
          deserialize_connect d sent (length (connect_bytes o)))
        ≡ some (pos 0, d)
  connect_old_refused is3 =
      let rest = drop (length (connect_bytes o)) buf in
      sent_and_read ∙ deserialize_connect-old d o rest v is3
