-- ===== src/Mqtt/Writer/Reply.antt =====
-- What the serializers answer: the bytes in a buffer with room, and what happens in one without.
use remotus_hardware.Base.{
  ℕ, ◌≤◌, ◌<◌, ◌≡◌, refl, ◌∙◌, Option, none, some, List, [], ◌∷◌, ◌++◌, ◌>>=◌, ltb, if◌then◌else◌,
  length, drop, ℤ, pos, arith, lt→ltb, le→not_ltb, append-nil, append_assoc, dec_lt, subst,
}
use remotus_hardware.Mqtt.Writer.{
  Writer, put, store, serialize_into, buffer_too_short, start, written,
}
use remotus_hardware.Mqtt.Writer.Bytes.{write_bytes, Writes}

pub write_bytes_room :
    (bs before after : List ℕ)
    → length bs ≤ length after
    → write_bytes bs (record { before = before; after = after })
      ≡ some (record { before = before ++ bs; after = drop (length bs) after })
unfolding write_bytes put store
write_bytes_room [] before after h = rw append-nil
write_bytes_room (b ∷ bs) before [] h = absurd (omega arith)
write_bytes_room (b ∷ bs) before (x ∷ after) h =
    write_bytes_room bs (before ++ (b ∷ [])) after (omega arith) ∙ rw append_assoc

write_bytes_short :
    (bs before after : List ℕ)
    → length after < length bs
    → write_bytes bs (record { before = before; after = after }) ≡ none
unfolding write_bytes put store
write_bytes_short [] before after h = absurd (omega arith)
write_bytes_short (b ∷ bs) before [] h = refl
write_bytes_short (b ∷ bs) before (x ∷ after) h =
    write_bytes_short bs (before ++ (b ∷ [])) after (omega arith)

module _ {bs : List ℕ} {f : Writer → Option Writer} (fw : Writes bs f) (buf : List ℕ) where
  -- In a buffer with room the bytes stand at its start and the rest of it is unchanged.
  pub Writes-room :
      length bs ≤ length buf
      → (f (start buf) >>= λ w. some (written w))
        ≡ some (pos (length bs), bs ++ drop (length bs) buf)
  unfolding start
  Writes-room h = rw (fw.runs, write_bytes_room bs [] buf h)

  -- In a buffer without room some store is past its end.
  pub Writes-short : length buf < length bs → (f (start buf) >>= λ w. some (written w)) ≡ none
  unfolding start
  Writes-short h = rw (fw.runs, write_bytes_short bs [] buf h)

-- What a serializer answers: the packet in the buffer if `need` bytes are there, else the error and
-- the buffer untouched.
abbrev pub reply : ℕ → ℕ → List ℕ → List ℕ → Option (ℤ × List ℕ)
reply need buflen buf bs =
    if ltb buflen need
    then some (buffer_too_short, buf)
    else some (pos (length bs), bs ++ drop (length bs) buf)

pub serialize_into-reply :
    {bs : List ℕ} {f : Writer → Option Writer} (need buflen : ℕ) (buf : List ℕ)
    → Writes bs f
    → length bs ≤ need
    → buflen ≤ length buf
    → serialize_into need buflen buf f ≡ reply need buflen buf bs
serialize_into-reply {bs} need buflen buf fw fits room = elim (dec_lt buflen need) [
  | yes p ↦ rw (lt→ltb buflen need p)
  | no p ↦ rw (le→not_ltb buflen need (omega arith)) (Writes-room fw buf (omega arith))
]

-- What a serializer does whose check asks for less than it stores.
abbrev pub reply_unchecked : ℕ → ℕ → List ℕ → List ℕ → Option (ℤ × List ℕ)
reply_unchecked need size buf bs =
    if ltb (length buf) need
    then some (buffer_too_short, buf)
    else if ltb (length buf) size
    then none
    else some (pos size, bs ++ drop size buf)

room_cases :
    {bs : List ℕ} {f : Writer → Option Writer} (size : ℕ) (buf : List ℕ)
    → Writes bs f
    → length bs ≡ size
    → (f (start buf) >>= λ w. some (written w))
      ≡ (if ltb (length buf) size then none else some (pos size, bs ++ drop size buf))
room_cases {bs} {f} size buf fw e = elim (dec_lt (length buf) size) [
  | yes q ↦ rw (lt→ltb (length buf) size q) (Writes-short fw buf (omega arith))
  | no q ↦ rw (le→not_ltb (length buf) size (omega arith)) (
      subst (λ k. (f (start buf) >>= λ w. some (written w)) ≡ some (pos k, bs ++ drop k buf)) e
        (Writes-room fw buf (omega arith)))
]

pub serialize_into-unchecked :
    {bs : List ℕ} {f : Writer → Option Writer} (need size : ℕ) (buf : List ℕ)
    → Writes bs f
    → length bs ≡ size
    → serialize_into need (length buf) buf f ≡ reply_unchecked need size buf bs
serialize_into-unchecked need size buf fw e = elim (dec_lt (length buf) need) [
  | yes p ↦ rw (lt→ltb (length buf) need p)
  | no p ↦ rw (le→not_ltb (length buf) need (omega arith)) (room_cases size buf fw e)
]
