-- ===== src/Mqtt/Suback/Laws.antt =====
-- The bytes of a suback packet, and what is read back from them.
use remotus_hardware.Base.{
  ℕ, zero, suc, ◌+◌, ◌%◌, ◌^◌, ◌≤◌, ◌<◌, ◌≡◌, refl, ◌∙◌, true, none, some, List, [], ◌∷◌, ◌++◌,
  ◌>>=◌, if◌then◌else◌, length, take, drop, map, pos, negsuc, arith, le→not_ltb, lt→ltb, dec_lt,
  store_all, take-store_all, next_index, get_elem?-in, get_elem?-out, length-set, length-append,
  append_assoc, set, subst,
}
use native.Mathlib.Nat.{add-zero, zero-add, add_assoc}
use remotus_hardware.Mqtt.Header.{header_byte}
use remotus_hardware.Mqtt.Writer.Bytes.{
  Writes, Writes-bind, Writes-skip, write_byte-Writes, write_char-Writes, write_int-Writes,
  write_length-Writes, int_bytes, length_bytes,
}
use remotus_hardware.Mqtt.Writer.Reply.{reply_unchecked, serialize_into-unchecked}
use remotus_hardware.Mqtt.Writer.Size.{packet_size}
use remotus_hardware.Mqtt.Reader.Bytes.{at, read_char-at, read_int-at, read_length-at}
use remotus_hardware.Mqtt.Suback.{
  write_codes, write_suback, serialize_suback, SubackOut, codes_loop, deserialize_suback,
}

-- The codes as they are stored: the low eight bits of the first `count` members.
abbrev pub code_bytes : ℕ → List ℕ → List ℕ
code_bytes count qoss = map (λ q. q % 256) (take count qoss)

abbrev pub suback_bytes : ℕ → List ℕ → List ℕ
suback_bytes packetid codes =
    0x90 ∷ length_bytes (2 + length codes) ++ (int_bytes packetid ++ codes)

write_codes-Writes :
    (count : ℕ) (qoss : List ℕ)
    → count ≤ length qoss
    → Writes (code_bytes count qoss) (write_codes count qoss)
unfolding write_codes
write_codes-Writes zero qoss h = record { runs = Writes-skip.runs }
write_codes-Writes (suc count) [] h = absurd (omega arith)
write_codes-Writes (suc count) (q ∷ qoss) h = record {
  runs = (Writes-bind (write_char-Writes q) (write_codes-Writes count qoss (omega arith))).runs;
}

length-code_bytes :
    (count : ℕ) (qoss : List ℕ) → count ≤ length qoss → length (code_bytes count qoss) ≡ count
length-code_bytes zero qoss h = refl
length-code_bytes (suc count) [] h = absurd (omega arith)
length-code_bytes (suc count) (q ∷ qoss) h = omega (arith, length-code_bytes count qoss)

write_suback-Writes :
    (id count : ℕ) (qoss : List ℕ)
    → count ≤ length qoss
    → 2 + count < 2 ^ 28
    → Writes (suback_bytes id (code_bytes count qoss)) (write_suback id count qoss)
unfolding write_suback header_byte
write_suback-Writes id count qoss h small = rw (length-code_bytes count qoss h) (
    Writes-bind (write_byte-Writes 0x90 (omega arith)) (
      Writes-bind (write_length-Writes (2 + count) small)
        (Writes-bind (write_int-Writes id) (write_codes-Writes count qoss h))))

length-suback_bytes :
    (id : ℕ) (codes : List ℕ) → length (suback_bytes id codes) ≡ packet_size (2 + length codes)
length-suback_bytes id codes =
    omega (arith, length-append (length_bytes (2 + length codes)) (int_bytes id ++ codes))

-- MQTTSerialize_suback checks for 2 + count bytes and stores the whole packet, which is longer: in a
-- buffer of `buflen` bytes it answers the error below 2 + count, writes past the end of the buffer
-- from there to the size of the packet, and stores the packet if there is room.
pub serialize_suback_lem :
    (buf : List ℕ) (id count : ℕ) (qoss : List ℕ)
    → count ≤ length qoss
    → 2 + count < 2 ^ 28
    → serialize_suback buf (length buf) id count qoss
      ≡ reply_unchecked
          (2 + count)
          (packet_size (2 + count))
          buf
          (suback_bytes id (code_bytes count qoss))
unfolding serialize_suback
serialize_suback_lem buf id count qoss h small =
    serialize_into-unchecked (2 + count) (packet_size (2 + count)) buf
      (write_suback-Writes id count qoss h small)
      (length-suback_bytes id (code_bytes count qoss) ∙ rw (length-code_bytes count qoss h))

-- The loop stores the codes that follow, one to a member, if there are members enough.
codes_loop-read :
    (codes : List ℕ) (fuel maxcount p : ℕ) (out : SubackOut) (rest : List ℕ)
    → length codes < fuel
    → out.count + length codes ≤ length out.qoss
    → out.count + length codes ≤ maxcount + 1
    → codes_loop fuel maxcount out (at p (codes ++ rest)) (p + length codes)
      ≡ some (
        true,
        record out { qoss = store_all out.qoss out.count codes; count = out.count + length codes },
      )
unfolding codes_loop
codes_loop-read codes zero maxcount p out rest h room most = absurd (omega arith)
codes_loop-read [] (suc fuel) maxcount p out rest h room most =
    rw (add-zero, add-zero, le→not_ltb p p (omega arith))
codes_loop-read (c ∷ codes) (suc fuel) maxcount p out rest h room most =
    let (old, inside) = get_elem?-in out.qoss out.count (omega arith) in
    let out1 = record out { qoss = set out.qoss out.count c; count = out.count + 1 } in
    rw
      (
        lt→ltb p (p + suc (length codes)) (omega arith),
        le→not_ltb maxcount out.count (omega arith),
        read_char-at p c (codes ++ rest),
        inside,
        next_index p (length codes),
        next_index out.count (length codes),
      )
      (codes_loop-read codes fuel maxcount (p + 1) out1 rest (omega arith)
        (omega (arith, length-set out.qoss out.count c)) (omega arith))

-- With one code more than there are members the loop writes past the end of the array.
codes_loop-overrun :
    (codes : List ℕ) (fuel maxcount p : ℕ) (out : SubackOut) (rest : List ℕ)
    → length codes < fuel
    → maxcount ≡ length out.qoss
    → out.count ≤ maxcount
    → out.count + length codes ≡ maxcount + 1
    → codes_loop fuel maxcount out (at p (codes ++ rest)) (p + length codes) ≡ none
unfolding codes_loop
codes_loop-overrun codes zero maxcount p out rest h e most over = absurd (omega arith)
codes_loop-overrun [] (suc fuel) maxcount p out rest h e most over = absurd (omega arith)
codes_loop-overrun (c ∷ codes) (suc fuel) maxcount p out rest h e most over =
    rw
      (
        lt→ltb p (p + suc (length codes)) (omega arith),
        le→not_ltb maxcount out.count (omega arith),
        read_char-at p c (codes ++ rest),
        next_index p (length codes),
      )
      (elim (dec_lt out.count maxcount) [
        | yes inside ↦
            let (old, found) = get_elem?-in out.qoss out.count (omega arith) in
            let out1 = record out { qoss = set out.qoss out.count c; count = out.count + 1 } in
            rw found (
              codes_loop-overrun codes fuel maxcount (p + 1) out1 rest (omega arith)
                (omega (arith, length-set out.qoss out.count c)) (omega arith) (omega arith))
        | no outside ↦ rw (get_elem?-out out.qoss out.count (omega arith))
      ])

-- MQTTDeserialize_suback up to its loop, on the bytes of a suback.
suback_read :
    (out : SubackOut) (maxcount id : ℕ) (codes rest : List ℕ)
    → id < 65536
    → 2 + length codes < 2 ^ 28
    → let p = 1 + length (length_bytes (2 + length codes)) + 2 in
      deserialize_suback out maxcount (suback_bytes id codes ++ rest) ≡ (
        codes_loop
          (2 + length codes + 1)
          maxcount
          (record out { packetid = id; count = 0 })
          (at p (codes ++ rest))
          (p + length codes)
        >>= λ (ended, out1). some ((if ended then pos 1 else negsuc 0), out1))
unfolding deserialize_suback
suback_read out maxcount id codes rest h small =
    let n = 2 + length codes in
    let from = 1 + length (length_bytes n) in
    rw (
      append_assoc (length_bytes n) (int_bytes id ++ codes) rest,
      read_char-at 0 0x90 (length_bytes n ++ (int_bytes id ++ (codes ++ rest))),
      read_length-at 1 n (int_bytes id ++ (codes ++ rest)) small,
      le→not_ltb (from + n) (from + 2) (omega arith),
      read_int-at from id (codes ++ rest) h,
      ← add_assoc from 2 (length codes),
    )

-- `count` codes, in a buffer with room for their packet: what MQTTSerialize_suback stores,
-- MQTTDeserialize_suback reads back with result 1 and the same packet id, count and codes (their low
-- eight bits), if its array and `maxcount` are large enough.
pub suback_roundtrip :
    (out : SubackOut) (maxcount : ℕ) (buf : List ℕ) (id count : ℕ) (qoss : List ℕ)
    → id < 65536
    → count ≤ length qoss
    → 2 + count < 2 ^ 28
    → packet_size (2 + count) ≤ length buf
    → count ≤ length out.qoss
    → count ≤ maxcount
    → (o : SubackOut) × ((serialize_suback buf (length buf) id count qoss >>= λ (rc, sent).
          deserialize_suback out maxcount sent)
        ≡ some (pos 1, o))
      × (o.packetid ≡ id)
      × (o.count ≡ count)
      × (take count o.qoss ≡ code_bytes count qoss)
suback_roundtrip out maxcount buf id count qoss h given small room members most =
    let codes = code_bytes count qoss in
    let len = length-code_bytes count qoss given in
    let rest = drop (packet_size (2 + count)) buf in
    let p = 1 + length (length_bytes (2 + length codes)) + 2 in
    (
      record out { packetid = id; qoss = store_all out.qoss 0 codes; count = length codes },
      rw (
        serialize_suback_lem buf id count qoss given small,
        le→not_ltb (length buf) (2 + count) (omega arith),
        le→not_ltb (length buf) (packet_size (2 + count)) room,
        suback_read out maxcount id codes rest h (omega (arith, len)),
        codes_loop-read codes (2 + length codes + 1) maxcount p
            (record out { packetid = id; count = 0 }) rest (omega arith) (omega (arith, len))
            (omega (arith, len)),
        zero-add (length codes),
      ),
      refl,
      len,
      subst (λ k. take k (store_all out.qoss 0 codes) ≡ codes) len
          (rw zero-add at (take-store_all out.qoss 0 codes (omega (arith, len)))),
    )

-- On a suback with one code more than the array has members, MQTTDeserialize_suback, with the number
-- of members as `maxcount`, writes past the end of the array.
pub suback_overrun :
    (out : SubackOut) (id : ℕ) (codes rest : List ℕ)
    → id < 65536
    → 2 + length codes < 2 ^ 28
    → length codes ≡ length out.qoss + 1
    → deserialize_suback out (length out.qoss) (suback_bytes id codes ++ rest) ≡ none
suback_overrun out id codes rest h small over =
    let p = 1 + length (length_bytes (2 + length codes)) + 2 in
    rw (
      suback_read out (length out.qoss) id codes rest h small,
      codes_loop-overrun codes (2 + length codes + 1) (length out.qoss) p
          (record out { packetid = id; count = 0 }) rest (omega arith) refl (omega arith)
          (omega arith),
    )
