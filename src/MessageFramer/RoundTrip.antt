-- ===== src/MessageFramer/RoundTrip.antt =====
-- `decode` undoes `encode`, byte for byte, and accepts nothing else.
use multi_player_game.Common.{
  ℕ, zero, suc, ◌+◌, ◌*◌, ◌/◌, ◌%◌, ◌^◌, ◌≤◌, ◌<◌, ◌≡◌, refl, List, [], ◌∷◌, ◌++◌, arith, ltb,
  if◌then◌else◌, length, take, drop, take-append, drop-append, take_all, ap, length-append,
  length-take, take-append-drop, append_assoc,
}
use multi_player_game.Common.Bits.{bit_and_byte, bit_or_shifted}
use multi_player_game.MessageFramer.{
  max_message_size, read_u32_le, write_u32_le, encode, need_more, decoded, too_large,
  decode_payload, decode,
}

abbrev pub IsByte : ℕ → Type 0
IsByte b = b < 256

-- The header as a number.
pub read_u32_le_lem :
    (a b c d : ℕ)
    → IsByte a
    → IsByte b
    → IsByte c
    → read_u32_le a b c d ≡ a + b * 256 + c * 65536 + d * 16777216
unfolding read_u32_le
read_u32_le_lem a b c d ha hb hc = rw (
  bit_or_shifted 8 a b ha,
  bit_or_shifted 16 (a + b * 256) c (omega arith),
  bit_or_shifted 24 (a + b * 256 + c * 65536) d (omega arith),
)

pub write_u32_le_lem :
    (v : ℕ)
    → write_u32_le v ≡ v % 256 ∷ (v / 256 % 256) ∷ (v / 65536 % 256) ∷ (v / 16777216 % 256) ∷ []
unfolding write_u32_le
write_u32_le_lem v =
    rw (
      bit_and_byte v,
      bit_and_byte (v / 256),
      bit_and_byte (v / 65536),
      bit_and_byte (v / 16777216),
    )

-- Writing a 32-bit number and reading it back.
pub read-write_u32_le :
    (v : ℕ)
    → v < 2 ^ 32
    → read_u32_le (v % 256) (v / 256 % 256) (v / 65536 % 256) (v / 16777216 % 256) ≡ v
read-write_u32_le v h = omega (
  arith,
  read_u32_le_lem (v % 256) (v / 256 % 256) (v / 65536 % 256) (v / 16777216 % 256) (omega arith)
      (omega arith) (omega arith),
)

-- Of a buffer that begins with the frame of a payload below 4 GiB, `decode` reads its size.
pub decode_frame :
    (v : ℕ) (rest : List ℕ) → v < 2 ^ 32 → decode (write_u32_le v ++ rest) ≡ decode_payload v rest
unfolding decode
decode_frame v rest h = rw (write_u32_le_lem v, read-write_u32_le v h)

pub encode_lem : (p : List ℕ) → length p < 2 ^ 32 → encode p ≡ write_u32_le (length p) ++ p
unfolding encode
encode_lem p h =
    let len : length p % 2 ^ 32 ≡ length p = omega arith in
    rw (len, take_all (length p) p (omega arith))

-- A payload of at most 1 MiB is decoded from its frame, and what follows the frame stays in the
-- buffer; a larger one, below 4 GiB, is encoded all the same, and `decode` throws.
pub decode-encode :
    (payload rest : List ℕ)
    → length payload < 2 ^ 32
    → decode (encode payload ++ rest) ≡ (
        if ltb max_message_size (length payload)
        then too_large (length payload)
        else decoded payload rest)
unfolding decode_payload
decode-encode p rest h =
    rw
      (
        encode_lem p h,
        append_assoc (write_u32_le (length p)) p rest,
        decode_frame (length p) (p ++ rest) h,
        take-append p rest,
        drop-append p rest,
      )
      (ground (arith, length-append p rest))

part_of_frame :
    (v k : ℕ) (p : List ℕ)
    → v ≡ length p
    → v ≤ max_message_size
    → k < v + 4
    → decode (take k (write_u32_le v ++ p)) ≡ need_more
unfolding decode
part_of_frame v zero p e small part = refl
part_of_frame v (suc zero) p e small part = rw (write_u32_le_lem v)
part_of_frame v (suc (suc zero)) p e small part = rw (write_u32_le_lem v)
part_of_frame v (suc (suc (suc zero))) p e small part = rw (write_u32_le_lem v)
part_of_frame v (suc (suc (suc (suc k)))) p e small part =
    rw (write_u32_le_lem v, read-write_u32_le v (omega arith)) (ground (arith, length-take k p))

-- While a part of the frame is missing, `decode` asks for more.
pub decode_part :
    (payload : List ℕ) (k : ℕ)
    → length payload ≤ max_message_size
    → k < length (encode payload)
    → decode (take k (encode payload)) ≡ need_more
decode_part p k small part =
    rw (encode_lem p (omega arith)) (part_of_frame (length p) k p refl small bound)
  where
    header : length (write_u32_le (length p)) ≡ 4
    header = rw (write_u32_le_lem (length p))

    bound : k < length p + 4
    bound = omega (
      arith,
      length-append (write_u32_le (length p)) p,
      header,
      ap length (encode_lem p (omega arith)),
    )

decode_payload_cases :
    (v : ℕ) (buffer out rest : List ℕ)
    → decode_payload v buffer ≡ decoded out rest
    → (v ≤ max_message_size) × (v ≤ length buffer) × (out ≡ take v buffer) × (rest ≡ drop v buffer)
unfolding decode_payload
decode_payload_cases v buffer out rest e = ground arith

write-read_u32_le :
    (a b c d : ℕ)
    → IsByte a
    → IsByte b
    → IsByte c
    → IsByte d
    → write_u32_le (read_u32_le a b c d) ≡ a ∷ b ∷ c ∷ d ∷ []
write-read_u32_le a b c d ha hb hc hd =
    rw (write_u32_le_lem, read_u32_le_lem a b c d ha hb hc)
      (bytes (omega arith) (omega arith) (omega arith) (omega arith))
  where
    bytes :
        {a' b' c' d' : ℕ}
        → a' ≡ a
        → b' ≡ b
        → c' ≡ c
        → d' ≡ d
        → ◌≡◌ {A = List ℕ} (a' ∷ b' ∷ c' ∷ d' ∷ []) (a ∷ b ∷ c ∷ d ∷ [])
    bytes ea eb ec ed = cc

-- What is decoded was encoded: the buffer was the frame of the result, followed by the rest.
pub decode_sound :
    (a b c d : ℕ) (buffer out rest : List ℕ)
    → IsByte a
    → IsByte b
    → IsByte c
    → IsByte d
    → decode (a ∷ b ∷ c ∷ d ∷ buffer) ≡ decoded out rest
    → (length out ≤ max_message_size) × (a ∷ b ∷ c ∷ d ∷ buffer ≡ encode out ++ rest)
unfolding decode
decode_sound a b c d buffer out rest ha hb hc hd e =
    let v : ℕ = read_u32_le a b c d in
    let (small, fits, front, back) = decode_payload_cases v buffer out rest e in
    let size : length out ≡ v = rw front (omega (arith, length-take v buffer)) in
    (
      omega arith,
      rw (encode_lem out (omega arith), size, write-read_u32_le a b c d ha hb hc hd, front, back)
          (rw (take-append-drop v buffer)),
    )
