-- ===== src/Mqtt/Reader.antt =====
-- MQTT/MQTTPacket/MQTTPacket.c: MQTTPacket_decode, bufchar, MQTTPacket_decodeBuf, readInt, readChar
-- and readMQTTLenString.
-- A `Reader` is the pointer `curdata` into a packet: its distance from the start of the buffer, and
-- the bytes from it to the end of the buffer's object. A read at the end of the object is a fault,
-- `none`; a pointer may be past it as long as it is not read. `enddata` is a distance too.
pub mod Bytes
mod Tests
use remotus_hardware.Base.{
  ℕ, zero, suc, ◌+◌, ◌*◌, ◌/◌, ◌%◌, Bool, true, false, not, Option, none, some, List, [], ◌∷◌,
  ◌>>=◌, ltb, leb, ◌==◌, if◌then◌else◌, drop, ℤ, pos, is_nat,
}
use remotus_hardware.Mqtt.Text.{MqttString}

pub record Reader : Type 0 where
  pub offset : ℕ
  pub rest : List ℕ

-- `buf`
abbrev pub start : List ℕ → Reader
start buf = record { offset = 0; rest = buf }

-- `ptr += n`
abbrev pub advance : ℕ → Reader → Reader
advance n r = record { offset = r.offset + n; rest = drop n r.rest }

char_at : ℕ → List ℕ → Option (ℕ × Reader)
char_at offset [] = none
char_at offset (b ∷ rest) = some (b, record { offset = offset + 1; rest = rest })

-- The type char has no sign on this processor (ARM).
unfoldable pub read_char : Reader → Option (ℕ × Reader)
unfolding char_at
read_char r = char_at r.offset r.rest

unfoldable pub read_int : Reader → Option (ℕ × Reader)
unfolding read_char
read_int r = do (high, r1) ← read_char r; (low, r2) ← read_char r1; some (256 * high + low, r2)

-- The string is `null_string` or what it held before; the result is `rc`, the string and `*pptr`.
unfoldable pub read_len_string : MqttString → Reader → ℕ → Option (Bool × MqttString × Reader)
read_len_string s r enddata =
    if ltb (r.offset + 1) enddata
    then (do
      (len, r1) ← read_int r
      some (
          if leb (r1.offset + len) enddata
          then (
            true,
            record { cstring = none; lenstring = record { len = len; bytes = some r1.rest } },
            advance len r1,
          )
          else (
            false,
            record { cstring = none; lenstring = record { len = len; bytes = s.lenstring.bytes } },
            r1,
          )))
    else some (false, record s { cstring = none }, r)

-- MQTTPacket_decode over any source of characters: `getcharfn n s` asks the source `s` for `n`
-- characters, and answers a count, the last character stored and the source after it.
module _ {S : Type 0} (getcharfn : ℕ → S → Option (ℤ × ℕ × S)) where
  -- The first argument is MAX_NO_OF_REMAINING_LENGTH_BYTES - len; the result is `len` and `*value`.
  unfoldable pub decode_loop : ℕ → ℕ → ℕ → ℕ → S → Option (ℕ × ℕ × S)
  decode_loop zero len multiplier value s = some (len + 1, value, s)
  decode_loop (suc tries) len multiplier value s = do
    (rc, c, s') ← getcharfn 1 s
    let value' = value + c % 128 * multiplier
    let more = decode_loop tries (len + 1) (multiplier * 128) value' s'
    if is_nat rc 1
        then (if c / 128 % 2 == 1 then more else some (len + 1, value', s'))
        else some (len + 1, value, s')

  unfoldable pub decode : S → Option (ℕ × ℕ × S)
  unfolding decode_loop
  decode s = decode_loop 4 0 1 0 s

-- The loop of bufchar over `bufptr`; `c` is the character stored last.
bufchar_loop : ℕ → ℕ → List ℕ → Option (ℕ × List ℕ)
bufchar_loop zero c bufptr = some (c, bufptr)
bufchar_loop (suc count) c [] = none
bufchar_loop (suc count) c (b ∷ bufptr) = bufchar_loop count b bufptr

unfoldable pub bufchar : ℕ → List ℕ → Option (ℤ × ℕ × List ℕ)
unfolding bufchar_loop
bufchar count bufptr = do (c, bufptr') ← bufchar_loop count 0 bufptr; some (pos count, c, bufptr')

-- MQTTPacket_decodeBuf: the number of bytes that the caller skips, and the value.
unfoldable pub decode_buf : List ℕ → Option (ℕ × ℕ)
unfolding decode bufchar
decode_buf buf = do (len, value, bufptr) ← decode bufchar buf; some (len, value)

-- `curdata += MQTTPacket_decodeBuf(curdata, &mylen)`: `rc`, `mylen` and `curdata`
unfoldable pub read_length : Reader → Option (ℕ × ℕ × Reader)
read_length r = do (len, mylen) ← decode_buf r.rest; some (len, mylen, advance len r)
