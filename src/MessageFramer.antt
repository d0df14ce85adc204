-- ===== src/MessageFramer.antt =====
-- server/include/server/MessageFramer.h and server/src/MessageFramer.cpp: the wire format.
--
-- Bytes are numbers below 256. `frame.data() + 4` and the like are cuts of the byte list.
pub mod RoundTrip
pub mod Stream
use Prim.Native.Nat.{bit_and, bit_or}
use multi_player_game.Common.{
  ℕ, zero, suc, ◌+◌, ◌-◌, ◌*◌, ◌/◌, ◌%◌, ◌^◌, ◌≤◌, ◌<◌, ◌≡◌, Bool, List, [], ◌∷◌, ◌++◌, Option,
  none, some, ltb, if◌then◌else◌, length, take, drop,
}

abbrev pub max_message_size : ℕ
max_message_size = 1 * 1024 * 1024

abbrev pub header_size : ℕ
header_size = 4

-- `readU32LE`; a shift of a byte by at most 24 loses nothing of its 32 bits.
unfoldable pub read_u32_le : ℕ → ℕ → ℕ → ℕ → ℕ
read_u32_le p0 p1 p2 p3 = bit_or (bit_or (bit_or p0 (p1 * 2 ^ 8)) (p2 * 2 ^ 16)) (p3 * 2 ^ 24)

-- `writeU32LE`
unfoldable pub write_u32_le : ℕ → List ℕ
write_u32_le v =
    bit_and v 0xff
    ∷ bit_and (v / 2 ^ 8) 0xff
    ∷ bit_and (v / 2 ^ 16) 0xff
    ∷ bit_and (v / 2 ^ 24) 0xff
    ∷ []

-- The size of the payload is cut to 32 bits.
unfoldable pub encode : List ℕ → List ℕ
unfolding write_u32_le
encode payload = let len = length payload % 2 ^ 32 in write_u32_le len ++ take len payload

-- What `decode` does: returns false, returns true with the payload and the rest of the buffer, or
-- throws the error on a message that is too large.
pub data Decoded : Type 0 where
  need_more : Decoded
  decoded : List ℕ → List ℕ → Decoded
  too_large : ℕ → Decoded

-- The part of `decode` after the header is read.
unfoldable pub decode_payload : ℕ → List ℕ → Decoded
decode_payload payload_len rest =
    if ltb max_message_size payload_len
    then too_large payload_len
    else if ltb (length rest) payload_len
    then need_more
    else decoded (take payload_len rest) (drop payload_len rest)

unfoldable pub decode : List ℕ → Decoded
unfolding decode_payload read_u32_le
decode (p0 ∷ p1 ∷ p2 ∷ p3 ∷ rest) = decode_payload (read_u32_le p0 p1 p2 p3) rest
decode buffer = need_more
