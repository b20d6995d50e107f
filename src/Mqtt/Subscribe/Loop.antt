-- ===== src/Mqtt/Subscribe/Loop.antt =====
-- The loop of MQTTDeserialize_subscribe on the bytes of requests.
use remotus_hardware.Base.{
  ℕ, zero, suc, ◌+◌, ◌%◌, ◌^◌, ◌≤◌, ◌<◌, ◌≡◌, refl, sym, ap, ap₂, ◌∙◌, true, none, some, List, [],
  ◌∷◌, ◌++◌, ◌>>=◌, if◌then◌else◌, length, map, pos, arith, le→not_ltb, lt→ltb, lt→not_leb, dec_lt,
  store_all, next_index, get_elem?-in, get_elem?-out, length-set, length-append, append_assoc, set,
  take-append,
}
use native.Mathlib.Nat.{add-zero}
use remotus_hardware.Mqtt.Header.{header_byte, header_byte_fields}
use remotus_hardware.Mqtt.Text.{MqttString}
use remotus_hardware.Mqtt.Text.Laws.{content, string_bytes, counted}
use remotus_hardware.Mqtt.Writer.Bytes.{length_bytes}
use remotus_hardware.Mqtt.Reader.Bytes.{
  at, read_char-at, read_int-at, read_len_string-at, read_length-at,
}
use remotus_hardware.Mqtt.Subscribe.{SubscribeOut, topics_loop, deserialize_subscribe}
use remotus_hardware.Mqtt.Subscribe.Layout.{Request, request_bytes, subscribe_body, subscribe_bytes}

-- Filters of 16-bit length.
abbrev pub AreShort : List Request → Type 0
AreShort [] = Unit {0}
AreShort ((text, qos) ∷ reqs) = (length text < 65536) × AreShort reqs

-- The filters that are read are pointers into the packet.
abbrev pub pointers : List Request → List ℕ → List MqttString
pointers [] rest = []
pointers ((text, qos) ∷ reqs) rest =
    counted text (qos ∷ request_bytes reqs ++ rest) ∷ pointers reqs rest

pub length-pointers :
    (reqs : List Request) (rest : List ℕ) → length (pointers reqs rest) ≡ length reqs
length-pointers [] rest = refl
length-pointers ((text, qos) ∷ reqs) rest = ap suc (length-pointers reqs rest)

pub content-pointers :
    (reqs : List Request) (rest : List ℕ) → map content (pointers reqs rest) ≡ map (λ r. r.0) reqs
content-pointers [] rest = refl
content-pointers ((text, qos) ∷ reqs) rest =
    ap₂ ◌∷◌ (take-append text (qos ∷ request_bytes reqs ++ rest)) (content-pointers reqs rest)

pub length-levels : (reqs : List Request) → length (map (λ r. r.1) reqs) ≡ length reqs
length-levels [] = refl
length-levels (r ∷ reqs) = ap suc (length-levels reqs)

pub length-request_bytes : (reqs : List Request) → length reqs ≤ length (request_bytes reqs)
length-request_bytes [] = omega arith
length-request_bytes ((text, qos) ∷ reqs) =
    omega (arith, length-request_bytes reqs, length-append text (qos ∷ request_bytes reqs))

request_append :
    (text : List ℕ) (qos : ℕ) (reqs : List Request) (rest : List ℕ)
    → request_bytes ((text, qos) ∷ reqs) ++ rest
      ≡ string_bytes text ++ (qos ∷ request_bytes reqs ++ rest)
request_append text qos reqs rest = append_assoc (string_bytes text) (qos ∷ request_bytes reqs) rest

length-request :
    (text : List ℕ) (qos : ℕ) (reqs : List Request)
    → length (request_bytes ((text, qos) ∷ reqs))
      ≡ 2 + length text + 1 + length (request_bytes reqs)
length-request text qos reqs = omega (arith, length-append text (qos ∷ request_bytes reqs))

-- The loop stores the requests that follow, one to a member, if there are members enough.
pub topics_loop-read :
    (reqs : List Request) (fuel p enddata : ℕ) (out : SubscribeOut) (rest : List ℕ)
    → length reqs < fuel
    → AreShort reqs
    → out.count + length reqs ≤ length out.topics
    → out.count + length reqs ≤ length out.qoss
    → enddata ≡ p + length (request_bytes reqs)
    → topics_loop fuel out (at p (request_bytes reqs ++ rest)) enddata
      ≡ some (
        true,
        record out {
          topics = store_all out.topics out.count (pointers reqs rest);
          qoss = store_all out.qoss out.count (map (λ r. r.1) reqs);
          count = out.count + length reqs;
        },
      )
unfolding topics_loop
topics_loop-read reqs zero p enddata out rest h short t q e = absurd (omega arith)
topics_loop-read [] (suc fuel) p enddata out rest h short t q e =
    rw (le→not_ltb p enddata (omega arith), add-zero)
topics_loop-read ((text, qos) ∷ reqs) (suc fuel) p enddata out rest h (len, short) t q e =
    let (old, found) = get_elem?-in out.topics out.count (omega arith) in
    let (old_qos, found_qos) = get_elem?-in out.qoss out.count (omega arith) in
    let size = length-request text qos reqs in
    let more = qos ∷ request_bytes reqs ++ rest in
    let topic = counted text more in
    let out1 = record out {
      topics = set out.topics out.count topic;
      qoss = set out.qoss out.count qos;
      count = out.count + 1;
    } in
    rw
      (
        request_append text qos reqs rest,
        lt→ltb p enddata (omega (arith, size)),
        found,
        read_len_string-at old p enddata text more len (omega (arith, size)),
        lt→not_leb enddata (p + 2 + length text) (omega (arith, size)),
        read_char-at (p + 2 + length text) qos (request_bytes reqs ++ rest),
        found_qos,
        next_index out.count (length reqs),
      )
      (topics_loop-read reqs fuel (p + 2 + length text + 1) enddata out1 rest (omega arith) short
        (omega (arith, length-set out.topics out.count topic))
        (omega (arith, length-set out.qoss out.count qos)) (omega (arith, size)))

-- With more requests than the array of filters has members the loop writes past its end.
pub topics_loop-overrun :
    (reqs : List Request) (fuel p enddata : ℕ) (out : SubscribeOut) (rest : List ℕ)
    → length reqs < fuel
    → AreShort reqs
    → out.count ≤ length out.topics
    → length out.topics ≡ length out.qoss
    → length out.topics < out.count + length reqs
    → enddata ≡ p + length (request_bytes reqs)
    → topics_loop fuel out (at p (request_bytes reqs ++ rest)) enddata ≡ none
unfolding topics_loop
topics_loop-overrun reqs zero p enddata out rest h short c same over e = absurd (omega arith)
topics_loop-overrun [] (suc fuel) p enddata out rest h short c same over e = absurd (omega arith)
topics_loop-overrun ((text, qos) ∷ reqs) (suc fuel) p enddata out rest h (len, short) c same over
      e =
    let size = length-request text qos reqs in
    let more = qos ∷ request_bytes reqs ++ rest in
    let topic = counted text more in
    let out1 = record out {
      topics = set out.topics out.count topic;
      qoss = set out.qoss out.count qos;
      count = out.count + 1;
    } in
    rw (request_append text qos reqs rest, lt→ltb p enddata (omega (arith, size)))
      (elim (dec_lt out.count (length out.topics)) [
        | yes inside ↦
            let (old, found) = get_elem?-in out.topics out.count inside in
            let (old_qos, found_qos) = get_elem?-in out.qoss out.count (omega arith) in
            rw
              (
                found,
                read_len_string-at old p enddata text more len (omega (arith, size)),
                lt→not_leb enddata (p + 2 + length text) (omega (arith, size)),
                read_char-at (p + 2 + length text) qos (request_bytes reqs ++ rest),
                found_qos,
              )
              (topics_loop-overrun reqs fuel (p + 2 + length text + 1) enddata out1 rest
                (omega arith) short (omega (arith, length-set out.topics out.count topic))
                (length-set out.topics out.count topic
                  ∙ same
                  ∙ sym (length-set out.qoss out.count qos))
                (omega (arith, length-set out.topics out.count topic)) (omega (arith, size)))
        | no outside ↦ rw (get_elem?-out out.topics out.count (omega arith))
      ])

-- MQTTDeserialize_subscribe up to its loop, on the bytes of a subscribe packet.
pub subscribe_read :
    (out : SubscribeOut) (dup id : ℕ) (reqs : List Request) (rest : List ℕ)
    → id < 65536
    → length (subscribe_body id reqs) < 2 ^ 28
    → let n = length (subscribe_body id reqs) in
      let from = 1 + length (length_bytes n) in
      deserialize_subscribe out (subscribe_bytes dup id reqs ++ rest) ≡ (
        topics_loop
          (n + 1)
          (record out { dup = dup % 2; packetid = id; count = 0 })
          (at (from + 2) (request_bytes reqs ++ rest))
          (from + n)
        >>= λ (ended, out1). some ((if ended then pos 1 else pos (length (length_bytes n))), out1))
unfolding deserialize_subscribe
subscribe_read out dup id reqs rest h small =
    let body = subscribe_body id reqs in
    let n = length body in
    let from = 1 + length (length_bytes n) in
    let (is_type, is_dup, is_qos, is_retain) = header_byte_fields 8 dup 1 0 in
    rw (
      append_assoc (length_bytes n) body rest,
      read_char-at 0 (header_byte 8 dup 1 0) (length_bytes n ++ (body ++ rest)),
      is_type,
      read_length-at 1 n (body ++ rest) small,
      read_int-at from id (request_bytes reqs ++ rest) h,
      is_dup,
    )
