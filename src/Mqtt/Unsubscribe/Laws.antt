-- ===== src/Mqtt/Unsubscribe/Laws.antt =====
-- The bytes of an unsubscribe packet, and what is read back from them.
use remotus_hardware.Base.{
  ℕ, zero, suc, ◌+◌, ◌%◌, ◌^◌, ◌≤◌, ◌<◌, ◌≡◌, refl, ap, ap₂, subst, ◌∙◌, some, List, [], ◌∷◌, ◌++◌,
  ◌>>=◌, true, length, take, drop, map, pos, arith, le→not_ltb, lt→ltb, store_all, take-store_all,
  next_index, get_elem?-in, length-set, length-append, append_assoc, set, take-append,
}
use native.Mathlib.Nat.{add-zero, zero-add}
use remotus_hardware.Mqtt.Header.{header_byte, header_byte-lt, header_byte_fields}
use remotus_hardware.Mqtt.Text.{MqttString, str_len}
use remotus_hardware.Mqtt.Text.Laws.{
  IsText, content, counted, string_bytes, str_len-content, write_mqtt_string-Writes,
}
use remotus_hardware.Mqtt.Writer.{packet_len}
use remotus_hardware.Mqtt.Writer.Bytes.{
  Writes, Writes-bind, Writes-skip, write_byte-Writes, write_int-Writes, write_length-Writes,
  int_bytes, length_bytes,
}
use remotus_hardware.Mqtt.Writer.Reply.{reply, serialize_into-reply}
use remotus_hardware.Mqtt.Writer.Size.{packet-le}
use remotus_hardware.Mqtt.Reader.Bytes.{
  at, read_char-at, read_int-at, read_len_string-at, read_length-at,
}
use remotus_hardware.Mqtt.Unsubscribe.{
  length_loop, unsubscribe_length, write_filters, write_unsubscribe, serialize_unsubscribe,
  UnsubscribeOut, filters_loop, deserialize_unsubscribe,
}

-- Topic filters of 16-bit length, as texts and as bytes.
abbrev pub AreTexts : List MqttString → Type 0
AreTexts [] = Unit {0}
AreTexts (t ∷ topics) = IsText t × (length (content t) < 65536) × AreTexts topics

abbrev pub filter_bytes : List (List ℕ) → List ℕ
filter_bytes [] = []
filter_bytes (text ∷ texts) = string_bytes text ++ filter_bytes texts

abbrev pub AreShort : List (List ℕ) → Type 0
AreShort [] = Unit {0}
AreShort (text ∷ texts) = (length text < 65536) × AreShort texts

abbrev pub unsubscribe_body : ℕ → List (List ℕ) → List ℕ
unsubscribe_body packetid texts = int_bytes packetid ++ filter_bytes texts

abbrev pub unsubscribe_bytes : ℕ → ℕ → List (List ℕ) → List ℕ
unsubscribe_bytes dup packetid texts =
    header_byte 10 dup 1 0 ∷ length_bytes (length (unsubscribe_body packetid texts))
    ++ unsubscribe_body packetid texts

length_loop-filters :
    (topics : List MqttString) (len : ℕ)
    → AreTexts topics
    → length_loop (length topics) topics len
      ≡ some (len + length (filter_bytes (map content topics)))
unfolding length_loop
length_loop-filters [] len h = rw add-zero
length_loop-filters (t ∷ topics) len (text, short, h) =
    length_loop-filters topics (len + (2 + str_len t)) h
    ∙ ap some (
        omega (
          arith,
          str_len-content t text,
          length-append (content t) (filter_bytes (map content topics)),
        ))

write_filters-Writes :
    (topics : List MqttString)
    → AreTexts topics
    → Writes (filter_bytes (map content topics)) (write_filters (length topics) topics)
unfolding write_filters
write_filters-Writes [] h = record { runs = Writes-skip.runs }
write_filters-Writes (t ∷ topics) (text, short, h) = record {
  runs = (Writes-bind (write_mqtt_string-Writes t text) (write_filters-Writes topics h)).runs;
}

AreTexts-AreShort : (topics : List MqttString) → AreTexts topics → AreShort (map content topics)
AreTexts-AreShort [] h = h
AreTexts-AreShort (t ∷ topics) (text, short, h) = (short, AreTexts-AreShort topics h)

module _ (dup packetid : ℕ) (topics : List MqttString) (v : AreTexts topics)
    (fits : length (unsubscribe_body packetid (map content topics)) < 2 ^ 28) where
  write_unsubscribe-Writes : Writes (unsubscribe_bytes dup packetid (map content topics)) (
      write_unsubscribe
        (length (unsubscribe_body packetid (map content topics)))
        dup
        packetid
        (length topics)
        topics)
  unfolding write_unsubscribe
  write_unsubscribe-Writes =
      Writes-bind (write_byte-Writes (header_byte 10 dup 1 0) (header_byte-lt 10 dup 1 0)) (
        Writes-bind (write_length-Writes _ fits)
          (Writes-bind (write_int-Writes packetid) (write_filters-Writes topics v)))

  unsubscribe_length-body :
      unsubscribe_length (length topics) topics
      ≡ some (length (unsubscribe_body packetid (map content topics)))
  unfolding unsubscribe_length
  unsubscribe_length-body = length_loop-filters topics 2 v ∙ ap some (omega arith)

  -- MQTTSerialize_unsubscribe on filters that are texts, given a buffer of `buflen` bytes at least:
  -- below the length that MQTTPacket_len asks for it answers the error and leaves the buffer;
  -- otherwise it stores the packet at its start, leaves the rest and answers the packet's length.
  pub serialize_unsubscribe_lem :
      (buf : List ℕ) (buflen : ℕ)
      → buflen ≤ length buf
      → let body = unsubscribe_body packetid (map content topics) in
        serialize_unsubscribe buf buflen dup packetid (length topics) topics
        ≡ reply
            (packet_len (length body))
            buflen
            buf
            (unsubscribe_bytes dup packetid (map content topics))
  unfolding serialize_unsubscribe
  serialize_unsubscribe_lem buf buflen room =
      let body = unsubscribe_body packetid (map content topics) in
      rw unsubscribe_length-body (
        serialize_into-reply (packet_len (length body)) buflen buf write_unsubscribe-Writes
          (packet-le (header_byte 10 dup 1 0) body) room)

-- The filters that are read are pointers into the packet.
abbrev pub pointers : List (List ℕ) → List ℕ → List MqttString
pointers [] rest = []
pointers (text ∷ texts) rest = counted text (filter_bytes texts ++ rest) ∷ pointers texts rest

length-pointers :
    (texts : List (List ℕ)) (rest : List ℕ) → length (pointers texts rest) ≡ length texts
length-pointers [] rest = refl
length-pointers (text ∷ texts) rest = ap suc (length-pointers texts rest)

content-pointers :
    (texts : List (List ℕ)) (rest : List ℕ) → map content (pointers texts rest) ≡ texts
content-pointers [] rest = refl
content-pointers (text ∷ texts) rest =
    ap₂ ◌∷◌ (take-append text (filter_bytes texts ++ rest)) (content-pointers texts rest)

length-filter_bytes : (texts : List (List ℕ)) → length texts ≤ length (filter_bytes texts)
length-filter_bytes [] = omega arith
length-filter_bytes (text ∷ texts) =
    omega (arith, length-filter_bytes texts, length-append text (filter_bytes texts))

filters_loop-read :
    (texts : List (List ℕ)) (fuel p enddata : ℕ) (out : UnsubscribeOut) (rest : List ℕ)
    → length texts < fuel
    → AreShort texts
    → out.count + length texts ≤ length out.topics
    → enddata ≡ p + length (filter_bytes texts)
    → filters_loop fuel out (at p (filter_bytes texts ++ rest)) enddata
      ≡ some (
        true,
        record out {
          topics = store_all out.topics out.count (pointers texts rest);
          count = out.count + length texts;
        },
      )
unfolding filters_loop
filters_loop-read texts zero p enddata out rest h short t e = absurd (omega arith)
filters_loop-read [] (suc fuel) p enddata out rest h short t e =
    rw (le→not_ltb p enddata (omega arith), add-zero)
filters_loop-read (text ∷ texts) (suc fuel) p enddata out rest h (len, short) t e =
    let (old, found) = get_elem?-in out.topics out.count (omega arith) in
    let size = length-append text (filter_bytes texts) in
    let topic = counted text (filter_bytes texts ++ rest) in
    let out1 = record out { topics = set out.topics out.count topic; count = out.count + 1 } in
    rw
      (
        append_assoc text (filter_bytes texts) rest,
        lt→ltb p enddata (omega (arith, size)),
        found,
        read_len_string-at old p enddata text (filter_bytes texts ++ rest) len
            (omega (arith, size)),
        next_index out.count (length texts),
      )
      (filters_loop-read texts fuel (p + 2 + length text) enddata out1 rest (omega arith) short
        (omega (arith, length-set out.topics out.count topic)) (omega (arith, size)))

unsubscribe_read :
    (out : UnsubscribeOut) (dup id : ℕ) (texts : List (List ℕ)) (rest : List ℕ)
    → id < 65536
    → length (unsubscribe_body id texts) < 2 ^ 28
    → AreShort texts
    → length texts ≤ length out.topics
    → deserialize_unsubscribe out (unsubscribe_bytes dup id texts ++ rest)
      ≡ some (
        pos 1,
        record {
          dup = dup % 2;
          packetid = id;
          count = length texts;
          topics = store_all out.topics 0 (pointers texts rest);
        },
      )
unfolding deserialize_unsubscribe
unsubscribe_read out dup id texts rest h small short room =
    let body = unsubscribe_body id texts in
    let n = length body in
    let from = 1 + length (length_bytes n) in
    let (is_type, is_dup, is_qos, is_retain) = header_byte_fields 10 dup 1 0 in
    rw (
      append_assoc (length_bytes n) body rest,
      read_char-at 0 (header_byte 10 dup 1 0) (length_bytes n ++ (body ++ rest)),
      is_type,
      read_length-at 1 n (body ++ rest) small,
      read_int-at from id (filter_bytes texts ++ rest) h,
      is_dup,
      filters_loop-read texts (n + 1) (from + 2) (from + n)
          (record out { dup = dup % 2; packetid = id; count = 0 }) rest
          (omega (arith, length-filter_bytes texts)) short (omega arith) (omega arith),
      zero-add (length texts),
    )

length-contents : (topics : List MqttString) → length (map content topics) ≡ length topics
length-contents [] = refl
length-contents (t ∷ topics) = rw (length-contents topics) refl

-- Filters that are texts of 16-bit length, in a buffer with the room that MQTTPacket_len asks for:
-- what MQTTSerialize_unsubscribe stores, MQTTDeserialize_unsubscribe reads back with result 1, the
-- same dup flag, packet id and count, and the same filters in its array, if this has members enough.
pub unsubscribe_roundtrip :
    (out : UnsubscribeOut) (buf : List ℕ) (buflen dup id : ℕ) (topics : List MqttString)
    → AreTexts topics
    → length (unsubscribe_body id (map content topics)) < 2 ^ 28
    → id < 65536
    → buflen ≤ length buf
    → packet_len (length (unsubscribe_body id (map content topics))) ≤ buflen
    → length (map content topics) ≤ length out.topics
    → (o : UnsubscribeOut) × ((serialize_unsubscribe buf buflen dup id (length topics) topics
          >>= λ (rc, sent). deserialize_unsubscribe out sent)
        ≡ some (pos 1, o))
      × (o.dup ≡ dup % 2)
      × (o.packetid ≡ id)
      × (o.count ≡ length topics)
      × (map content (take o.count o.topics) ≡ map content topics)
unsubscribe_roundtrip out buf buflen dup id topics v small h room fits members =
    let texts = map content topics in
    let n = length (unsubscribe_body id texts) in
    let rest = drop (length (unsubscribe_bytes dup id texts)) buf in
    let filled = store_all out.topics 0 (pointers texts rest) in
    (
      record { dup = dup % 2; packetid = id; count = length texts; topics = filled },
      rw
          (
            serialize_unsubscribe_lem dup id topics v small buf buflen room,
            le→not_ltb buflen (packet_len n) fits,
          )
          (unsubscribe_read out dup id texts rest h small (AreTexts-AreShort topics v) members),
      refl,
      refl,
      length-contents topics,
      ap (map content) (
            subst (λ k. take k filled ≡ pointers texts rest) (length-pointers texts rest)
              (rw zero-add at (
                take-store_all out.topics 0 (pointers texts rest)
                  (omega (arith, length-pointers texts rest)))))
          ∙ content-pointers texts rest,
    )
