-- ===== src/Mqtt/Stream/Tests.antt =====
-- A source of bytes in memory, and a packet that is read from it.
use remotus_hardware.Base.{
  ℕ, ◌≡◌, refl, Option, some, List, [], ◌∷◌, ◌++◌, length, take, drop, replicate, arith, pos,
  negsuc, ℤ, leb, if◌then◌else◌, le→leb, length-append, take-append, drop-append,
}
use remotus_hardware.Mqtt.Header.{header_type}
use remotus_hardware.Mqtt.Writer.Bytes.{length_bytes, digits}
use remotus_hardware.Mqtt.Stream.{packet_read}
use remotus_hardware.Mqtt.Stream.Laws.{Delivers, packet_read_lem}

-- The bytes that are still to come; without enough of them the answer is -1.
abbrev from_memory : ℕ → List ℕ → Option (ℤ × List ℕ × List ℕ)
from_memory n s =
    if leb n (length s) then some (pos n, take n s, drop n s) else some (negsuc 0, [], s)

from_memory-append :
    (bytes rest : List ℕ)
    → from_memory (length bytes) (bytes ++ rest) ≡ some (pos (length bytes), bytes, rest)
from_memory-append bytes rest = rw (
  le→leb (length bytes) (length (bytes ++ rest)) (omega (arith, length-append bytes rest)),
  take-append bytes rest,
  drop-append bytes rest,
)

from_memory-Delivers : Delivers from_memory (λ s. s)
from_memory-Delivers = record {
  delivers = λ n s bytes rest e v. (rest, rw (v, ← e) (from_memory-append bytes rest), refl);
}

abbrev body : List ℕ
body = 2 ∷ 1 ∷ []

packet_read_lem_example :
    (s' : List ℕ) × (packet_read from_memory
        (replicate 6 7)
        (0x40 ∷ (length_bytes 2 ++ (body ++ (9 ∷ []))))
      ≡ some (
        pos (header_type 0x40),
        (0x40 ∷ (length_bytes 2 ++ body))
            ++ drop (length (0x40 ∷ (length_bytes 2 ++ body))) (replicate 6 7),
        s',
      ))
    × (s' ≡ 9 ∷ [])
unfolding digits
packet_read_lem_example =
    packet_read_lem from_memory (λ s. s) from_memory-Delivers 0x40 body (9 ∷ []) (replicate 6 7)
      (0x40 ∷ (length_bytes 2 ++ (body ++ (9 ∷ [])))) (omega arith) (omega arith) refl
