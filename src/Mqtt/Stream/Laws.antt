-- ===== src/Mqtt/Stream/Laws.antt =====
-- MQTTPacket_read on a source that delivers a whole packet.
use remotus_hardware.Base.{
  ℕ, zero, suc, ◌+◌, ◌*◌, ◌/◌, ◌%◌, ◌^◌, ◌≤◌, ◌<◌, ◌≡◌, refl, ◌∙◌, Option, some, List, [], ◌∷◌,
  ◌++◌, length, drop, ℤ, pos, arith, dec_lt, lt→ltb, ==-same, drop-drop, length-drop, length-append,
}
use remotus_hardware.Mqtt.Header.{header_type}
use remotus_hardware.Mqtt.Writer.{start}
use remotus_hardware.Mqtt.Writer.Bytes.{
  digits, digits_large, length_bytes, encode_lem, copy_all, write_bytes-append,
}
use remotus_hardware.Mqtt.Writer.Reply.{write_bytes_room}
use remotus_hardware.Mqtt.Reader.{decode_loop, decode}
use remotus_hardware.Mqtt.Reader.Bytes.{decode_last, decode_more, split_digit}
use remotus_hardware.Mqtt.Stream.{getcharfn, read_remaining, packet_read, type_at_start}

-- A source of bytes that keeps its promise: as long as `n` bytes are to come, `getfn n` stores those
-- and answers `n`.
pub record Delivers {S : Type 0} (getfn : ℕ → S → Option (ℤ × List ℕ × S)) (view : S → List ℕ)
    : Type 0 where
  pub delivers :
      (n : ℕ) (s : S) (bytes rest : List ℕ)
      → length bytes ≡ n
      → view s ≡ bytes ++ rest
      → (s' : S) × (getfn n s ≡ some (pos n, bytes, s')) × (view s' ≡ rest)

module _ {S : Type 0} (getfn : ℕ → S → Option (ℤ × List ℕ × S)) (view : S → List ℕ)
    (d : Delivers getfn view) where
  one_char :
      (s : S) (c : ℕ) (rest : List ℕ)
      → view s ≡ c ∷ rest
      → (s' : S) × (getcharfn getfn 1 s ≡ some (pos 1, c, s')) × (view s' ≡ rest)
  unfolding getcharfn
  one_char s c rest e =
      let (s', got, after) = d.delivers 1 s (c ∷ []) rest refl e in (s', rw got, after)

  decode_loop-source :
      (k n len m v : ℕ) (s : S) (rest : List ℕ)
      → n < 128 ^ suc k
      → view s ≡ digits k n ++ rest
      → (s' : S) × (decode_loop (getcharfn getfn) (suc k) len m v s
          ≡ some (len + length (digits k n), v + n * m, s'))
        × (view s' ≡ rest)
  unfolding digits
  decode_loop-source zero n len m v s rest h e =
      let (s', got, after) = one_char s n rest e in
      (s', decode_last (getcharfn getfn) 0 len m v n s s' (omega arith) got, after)
  decode_loop-source (suc k) n len m v s rest h e = elim (dec_lt n 128) [
    | yes small ↦
        let is_one = lt→ltb n 128 small in
        let (s', got, after) = one_char s n rest (rw is_one at e) in
        (s', rw is_one (decode_last (getcharfn getfn) (suc k) len m v n s s' small got), after)
    | no large ↦
        let is_more = digits_large k n (omega arith) in
        let (s1, got, e1) =
          one_char s (n % 128 + 128) (digits k (n / 128) ++ rest) (rw is_more at e) in
        let (s2, more, after) =
          decode_loop-source k (n / 128) (len + 1) (m * 128) (v + n % 128 * m) s1 rest (omega arith)
            e1 in
        (
          s2,
          rw is_more (
              decode_more (getcharfn getfn) (suc k) len m v (n % 128) s s1 (omega arith) got
              ∙ more
              ∙ ground (arith, split_digit n m)),
          after,
        )
  ]

  pub decode-source :
      (n : ℕ) (s : S) (rest : List ℕ)
      → n < 2 ^ 28
      → view s ≡ length_bytes n ++ rest
      → (s' : S) × (decode (getcharfn getfn) s ≡ some (length (length_bytes n), n, s'))
        × (view s' ≡ rest)
  unfolding decode
  decode-source n s rest h e =
      let (s', got, after) = decode_loop-source 3 n 0 1 0 s rest (omega arith) e in
      (s', got ∙ ground arith, after)

  read_remaining-source :
      (byte : ℕ) (body rest after : List ℕ) (s : S)
      → length body < 2 ^ 28
      → length (length_bytes (length body) ++ body) ≤ length after
      → view s ≡ length_bytes (length body) ++ (body ++ rest)
      → (s' : S) × (read_remaining getfn (record { before = byte ∷ []; after = after }) s
          ≡ some (
            pos (header_type byte),
            (byte ∷ length_bytes (length body) ++ body)
                ++ drop (length (length_bytes (length body) ++ body)) after,
            s',
          ))
        × (view s' ≡ rest)
  unfolding read_remaining type_at_start
  read_remaining-source byte body rest after s short room e =
      let n = length body in
      let (s2, decoded, e2) = decode-source n s (body ++ rest) short e in
      let (s3, got, e3) = d.delivers n s2 body rest refl e2 in
      let fits = length-append (length_bytes n) body in
      let split = write_bytes-append (length_bytes n) body in
      (
        s3,
        rw
            (
              decoded,
              encode_lem n (record { before = byte ∷ []; after = after }) short,
              got,
              write_bytes_room (length_bytes n) (byte ∷ []) after (omega arith),
              copy_all,
              write_bytes_room body (byte ∷ length_bytes n) (drop (length (length_bytes n)) after)
                  (omega (arith, length-drop (length (length_bytes n)) after)),
              drop-drop,
              length-append,
              ==-same n,
            )
            refl,
        e3,
      )

  -- MQTTPacket_read takes exactly the next packet, whose remaining length is below 2 ^ 28, from a
  -- source that keeps its promise, whatever follows it: it stores the packet at the start of a buffer
  -- that has room for it, leaves the rest of the buffer, answers the packet's type, and leaves the
  -- source at the bytes after the packet.
  pub packet_read_lem :
      (byte : ℕ) (body rest buf : List ℕ) (s : S)
      → length body < 2 ^ 28
      → length (byte ∷ (length_bytes (length body) ++ body)) ≤ length buf
      → view s ≡ byte ∷ (length_bytes (length body) ++ (body ++ rest))
      → (s' : S) × (packet_read getfn buf s
          ≡ some (
            pos (header_type byte),
            (byte ∷ (length_bytes (length body) ++ body))
                ++ drop (length (byte ∷ (length_bytes (length body) ++ body))) buf,
            s',
          ))
        × (view s' ≡ rest)
  unfolding packet_read start
  packet_read_lem byte body rest [] s short room e = absurd (omega arith)
  packet_read_lem byte body rest (b ∷ buf) s short room e =
      let (s1, got, e1) =
        d.delivers 1 s (byte ∷ []) (length_bytes (length body) ++ (body ++ rest)) refl e in
      let (s2, read, e2) = read_remaining-source byte body rest buf s1 short (omega arith) e1 in
      (s2, rw (got, copy_all, write_bytes_room (byte ∷ []) [] (b ∷ buf) (omega arith)) read, e2)
