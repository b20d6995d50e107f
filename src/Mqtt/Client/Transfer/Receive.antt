-- ===== src/Mqtt/Client/Transfer/Receive.antt =====
-- What readPacket does where a whole packet has arrived.
use native.Mathlib.Nat.{zero-add}
use remotus_hardware.Base.{
  ℕ, suc, ◌+◌, ◌-◌, ◌^◌, ◌≤◌, ◌<◌, ◌≡◌, refl, ap, ◌∙◌, none, some, List, [], ◌∷◌, ◌++◌, leb,
  if◌then◌else◌, length, drop, ℤ, pos, arith, lt→ltb, le→leb, ==-same, lt→not_leb, length-append,
  length-drop, drop-drop, take-append, drop-append, dec_lt,
}
use remotus_hardware.Mqtt.Header.{header_type}
use remotus_hardware.Mqtt.Writer.Bytes.{length_bytes, encode_lem}
use remotus_hardware.Mqtt.Writer.Reply.{write_bytes_room}
use remotus_hardware.Mqtt.Stream.{type_at_start, getcharfn}
use remotus_hardware.Mqtt.Stream.Laws.{Delivers, decode-source}
use remotus_hardware.Mqtt.Client.Countdown.{Countdown}
use remotus_hardware.Mqtt.Client.Run.{done, fault}
use remotus_hardware.Mqtt.Client.State.{Env, Client, store_at}
use remotus_hardware.Mqtt.Client.Transfer.{
  time_left, record_received, read_char, decode_packet, read_into, read_rest, read_length,
  read_packet,
}

-- `arrived` is the bytes that have arrived. A read of no more than these stores them and answers their
-- number, however long it may wait.
pub record Supplies {W : Type 0} (env : Env W) (arrived : W → List ℕ) : Type 0 where
  pub supplies :
      (n : ℕ) (t : ℤ) (w : W) (bytes rest : List ℕ)
      → length bytes ≡ n
      → arrived w ≡ bytes ++ rest
      → (w' : W) × (env.read n t w ≡ (pos n, bytes, w')) × (arrived w' ≡ rest)

store_at_start :
    (bytes buf : List ℕ)
    → length bytes ≤ length buf
    → store_at 0 bytes buf ≡ some (bytes ++ drop (length bytes) buf)
unfolding store_at
store_at_start bytes buf h = rw (zero-add, le→leb (length bytes) (length buf) h) refl

store_at-append :
    (before bytes after : List ℕ)
    → length bytes ≤ length after
    → store_at (length before) bytes (before ++ after)
      ≡ some (before ++ (bytes ++ drop (length bytes) after))
unfolding store_at
store_at-append before bytes after h =
    rw
      (
        le→leb (length before + length bytes) (length (before ++ after))
            (omega (arith, length-append before after)),
        take-append before after,
        ← drop-drop (length before) (length bytes) (before ++ after),
        drop-append before after,
      )
      refl

store_at-outside :
    (before bytes after : List ℕ)
    → length after < length bytes
    → store_at (length before) bytes (before ++ after) ≡ none
unfolding store_at
store_at-outside before bytes after h =
    rw
      (lt→not_leb (length before + length bytes) (length (before ++ after))
        (omega (arith, length-append before after)))
      refl

one_more : (n : ℕ) → 1 + n ≡ suc n
one_more n = omega arith

room_left : (buf : List ℕ) (n : ℕ) → length (drop 1 buf) - n ≡ length buf - suc n
room_left buf n = omega (arith, length-drop 1 buf)

drop_one : (buf : List ℕ) (n : ℕ) → drop n (drop 1 buf) ≡ drop (suc n) buf
drop_one buf n = drop-drop 1 n buf ∙ ap (λ k. drop k buf) (one_more n)

module _ {W : Type 0} (env : Env W) (arrived : W → List ℕ) (s : Supplies env arrived) where
  supplies-Delivers : (t : ℤ) → Delivers (λ n w. some (env.read n t w)) arrived
  supplies-Delivers t = record {
    delivers = λ n w bytes rest e v.
        let (w', got, after) = s.supplies n t w bytes rest e v in (w', ap some got, after);
  }

  decode_packet-arrived :
      (n : ℕ) (t : ℤ) (w : W) (rest : List ℕ)
      → n < 2 ^ 28
      → arrived w ≡ length_bytes n ++ rest
      → (w' : W) × (decode_packet env t w ≡ some (length (length_bytes n), n, w'))
        × (arrived w' ≡ rest)
  unfolding decode_packet read_char getcharfn
  decode_packet-arrived n t w rest h v =
      decode-source (λ n w. some (env.read n t w)) arrived (supplies-Delivers t) n w rest h v

  -- Step 3, with the header in the buffer.
  read_rest-arrived :
      (byte : ℕ) (pre after body rest : List ℕ) (timer : Countdown) (c : Client W) (w : W)
      → arrived w ≡ body ++ rest
      → (w' : W) × (read_rest env
            (length (byte ∷ pre))
            (length body)
            timer
            (record c { ipstack = w; readbuf = (byte ∷ pre) ++ after })
          ≡ (if leb (length body) (length after)
              then done (
                pos (header_type byte),
                record_received env (record c {
                  ipstack = w';
                  readbuf = (byte ∷ pre) ++ (body ++ drop (length body) after);
                }),
              )
              else fault))
        × (arrived w' ≡ rest)
  unfolding read_rest read_into type_at_start
  read_rest-arrived byte pre after [] rest timer c w v =
      (w, rw (le→leb 0 (length after) (omega arith)) refl, v)
  read_rest-arrived byte pre after (b ∷ body) rest timer c w v =
      let c0 : Client W = record c { ipstack = w; readbuf = (byte ∷ pre) ++ after } in
      let n = length (b ∷ body) in
      let (w', got, e) = s.supplies n (time_left env timer c0) w (b ∷ body) rest refl v in
      (
        w',
        elim (dec_lt (length after) n) [
          | yes outside ↦
              rw
                (
                  lt→ltb 0 n (omega arith),
                  got,
                  store_at-outside (byte ∷ pre) (b ∷ body) after outside,
                  lt→not_leb n (length after) outside,
                )
                refl
          | no inside ↦
              rw
                (
                  lt→ltb 0 n (omega arith),
                  got,
                  store_at-append (byte ∷ pre) (b ∷ body) after (omega arith),
                  le→leb n (length after) (omega arith),
                  ==-same n,
                )
                refl
        ],
        e,
      )

  -- Step 2, with the first byte in the buffer.
  read_length-arrived :
      (byte : ℕ) (buf body rest : List ℕ) (timer : Countdown) (c : Client W) (w : W)
      → length body < 2 ^ 28
      → length (length_bytes (length body)) ≤ length buf
      → arrived w ≡ length_bytes (length body) ++ (body ++ rest)
      → (w' : W) × (read_length env timer (record c { ipstack = w; readbuf = byte ∷ buf }) ≡ (
          if leb (length body) (length buf - length (length_bytes (length body)))
          then done (
            pos (header_type byte),
            record_received env (record c {
              ipstack = w';
              readbuf =
                  (byte ∷ length_bytes (length body))
                  ++ (body ++ drop (length body) (drop (length (length_bytes (length body))) buf));
            }),
          )
          else fault))
        × (arrived w' ≡ rest)
  unfolding read_length
  read_length-arrived byte buf body rest timer c w short room v =
      let n = length body in
      let lb = length_bytes n in
      let c0 : Client W = record c { ipstack = w; readbuf = byte ∷ buf } in
      let (w1, decoded, v1) =
        decode_packet-arrived n (time_left env timer c0) w (body ++ rest) short v in
      let (w2, read, v2) =
        read_rest-arrived byte lb (drop (length lb) buf) body rest timer c w1 v1 in
      (
        w2,
        rw
            (
              decoded,
              encode_lem n (record { before = byte ∷ []; after = buf }) short,
              write_bytes_room lb (byte ∷ []) buf room,
              ← length-drop (length lb) buf,
              one_more (length lb),
            )
            read,
        v2,
      )

  -- readPacket where a whole packet with a remaining length below 2 ^ 28 has arrived, whatever follows
  -- it, and the buffer has room for the packet's header: it takes exactly that packet. If the buffer has
  -- room for all of it, the packet stands at the start of the buffer, the rest of the buffer is as it
  -- was, the result is the packet's type and the keep-alive interval, if it is not 0, starts again; if
  -- it has not, the read stores bytes past the end of the buffer, a fault.
  pub read_packet_lem :
      (byte : ℕ) (body rest : List ℕ) (timer : Countdown) (c : Client W)
      → length body < 2 ^ 28
      → length (byte ∷ length_bytes (length body)) ≤ length c.readbuf
      → arrived c.ipstack ≡ byte ∷ (length_bytes (length body) ++ (body ++ rest))
      → (w' : W) × (read_packet env timer c ≡ (
          if leb (length body) (length c.readbuf - length (byte ∷ length_bytes (length body)))
          then done (
            pos (header_type byte),
            record_received env (record c {
              ipstack = w';
              readbuf =
                  (byte ∷ length_bytes (length body))
                  ++ (body
                      ++ drop
                          (length body)
                          (drop (length (byte ∷ length_bytes (length body))) c.readbuf));
            }),
          )
          else fault))
        × (arrived w' ≡ rest)
  unfolding read_packet read_into
  read_packet_lem byte body rest timer c short room v =
      let lb = length_bytes (length body) in
      let (w1, got, v1) =
        s.supplies 1 (time_left env timer c) c.ipstack (byte ∷ []) (lb ++ (body ++ rest)) refl v in
      let (w2, read, v2) =
        read_length-arrived byte (drop 1 c.readbuf) body rest timer c w1 short
          (omega (arith, length-drop 1 c.readbuf)) v1 in
      (
        w2,
        rw (got, store_at_start (byte ∷ []) c.readbuf (omega arith))
            (rw (room_left c.readbuf (length lb), drop_one c.readbuf (length lb)) at read),
        v2,
      )
