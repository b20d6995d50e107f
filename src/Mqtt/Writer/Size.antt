-- ===== src/Mqtt/Writer/Size.antt =====
-- MQTTPacket_len against the bytes that a packet takes: the header byte, the remaining length field
-- and as many bytes as that field says.
use remotus_hardware.Base.{
  ℕ, ◌++◌, length-append, ◌+◌, ◌≤◌, ◌<◌, ◌≡◌, List, ◌∷◌, ltb, if◌then◌else◌, length, arith, ◌==◌,
  ◌||◌,
}
use remotus_hardware.Mqtt.Writer.{packet_len}
use remotus_hardware.Mqtt.Writer.Bytes.{digits, length_bytes}

-- The number of digits to the base 128, four at most.
unfoldable pub digit_count : ℕ → ℕ
digit_count n = if ltb n 128 then 1 else if ltb n 16384 then 2 else if ltb n 2097152 then 3 else 4

pub length-length_bytes : (n : ℕ) → length (length_bytes n) ≡ digit_count n
unfolding digits digit_count
length-length_bytes n = ground arith

-- The size of a packet with the remaining length `n`.
abbrev pub packet_size : ℕ → ℕ
packet_size n = 1 + length (length_bytes n) + n

-- MQTTPacket_len is the size of the packet, but for four lengths at which it is one more.
pub packet_len_exact :
    (n : ℕ)
    → packet_len n
      ≡ packet_size n + (if n == 127 || n == 16383 || n == 2097150 || n == 2097151 then 1 else 0)
unfolding packet_len digit_count
packet_len_exact n = ground (arith, length-length_bytes n)

-- So a packet always has room in a buffer that the check on MQTTPacket_len lets through.
pub packet_size-le : (n : ℕ) → packet_size n ≤ packet_len n
packet_size-le n = omega (arith, packet_len_exact n)

pub length-length_bytes_small : (n : ℕ) → n < 128 → length (length_bytes n) ≡ 1
unfolding digit_count
length-length_bytes_small n h = ground (arith, length-length_bytes n)

-- A header byte, the remaining length and the body are a packet of that size.
pub length-packet :
    (byte : ℕ) (body : List ℕ)
    → length (byte ∷ length_bytes (length body) ++ body) ≡ packet_size (length body)
length-packet byte body = omega (arith, length-append (length_bytes (length body)) body)

pub packet-le :
    (byte : ℕ) (body : List ℕ)
    → length (byte ∷ length_bytes (length body) ++ body) ≤ packet_len (length body)
packet-le byte body = omega (arith, length-packet byte body, packet_size-le (length body))
