-- ===== src/RedisClient/Protocol.antt =====
-- The protocol as a server reads it, and the round trip of the commands.
use multi_player_game.Common.{
  ℕ, zero, suc, ◌+◌, ◌*◌, ◌-◌, ◌≡◌, refl, ap, ◌∙◌, List, [], ◌∷◌, ◌++◌, append_assoc, Option, none,
  some, nat_beq, arith, length, take, drop, take-append, drop-append, if◌then◌else◌,
}
use multi_player_game.Common.Decimal.{decimal, is_digit, spelled, AllDigits, decimal_lem}
use multi_player_game.RedisClient.{encode_args, encode_command}

abbrev pub and_then : {A B : Type 0} → Option A → (A → Option B) → Option B
and_then none f = none
and_then (some a) f = f a

-- One byte, then the rest.
unfoldable pub expect_byte : ℕ → List ℕ → Option (List ℕ)
expect_byte b [] = none
expect_byte b (c ∷ cs) = if nat_beq c b then some cs else none

-- A number and the end of its line.
pub parse_number : ℕ → List ℕ → Option (ℕ × List ℕ)
parse_number n [] = none
parse_number n (c ∷ cs) =
    let more = parse_number (10 * n + (c - b'0')) cs in
    if nat_beq c 13
    then and_then (expect_byte 10 cs) (λ rest. some (n, rest))
    else if is_digit c
    then more
    else none

-- So many bytes, and the end of the line after them.
pub parse_bytes : ℕ → List ℕ → Option (List ℕ × List ℕ)
parse_bytes n s =
    and_then (expect_byte 13 (drop n s))
      (λ r. and_then (expect_byte 10 r) (λ rest. some (take n s, rest)))

pub parse_args : ℕ → List ℕ → Option (List (List ℕ) × List ℕ)
parse_args zero s = some ([], s)
parse_args (suc k) s = and_then (expect_byte b'$' s) (λ r. and_then (parse_number 0 r) (λ (n, r').
    and_then (parse_bytes n r')
      (λ (arg, r''). and_then (parse_args k r'') (λ (args, rest). some (arg ∷ args, rest)))))

-- An array of bulk strings, and what comes after it.
pub parse_command : List ℕ → Option (List (List ℕ) × List ℕ)
parse_command s =
    and_then (expect_byte b'*' s) (λ r. and_then (parse_number 0 r) (λ (k, r'). parse_args k r'))

parse_number-digits :
    (ds rest : List ℕ) (n : ℕ)
    → AllDigits ds
    → parse_number n (ds ++ 13 ∷ 10 ∷ rest) ≡ some (spelled n ds, rest)
unfolding parse_number spelled expect_byte
parse_number-digits [] rest n h = refl
parse_number-digits (d ∷ ds) rest n h =
    ground (arith, parse_number-digits ds rest (10 * n + (d - b'0')))

parse_number-decimal :
    (n : ℕ) (rest : List ℕ) → parse_number 0 (decimal n ++ 13 ∷ 10 ∷ rest) ≡ some (n, rest)
parse_number-decimal n rest =
    let (e, all) = decimal_lem n in
    parse_number-digits (decimal n) rest 0 all ∙ ap (λ k. some (k, rest)) e

parse_bytes-append :
    (arg rest : List ℕ) → parse_bytes (length arg) (arg ++ 13 ∷ 10 ∷ rest) ≡ some (arg, rest)
unfolding parse_bytes expect_byte
parse_bytes-append arg rest =
    rw (drop-append arg (13 ∷ 10 ∷ rest), take-append arg (13 ∷ 10 ∷ rest)) refl

frame :
    (arg : List ℕ) (args : List (List ℕ)) (rest : List ℕ)
    → encode_args (arg ∷ args) ++ rest
      ≡ b'$' ∷ (decimal (length arg) ++ 13 ∷ 10 ∷ (arg ++ 13 ∷ 10 ∷ (encode_args args ++ rest)))
unfolding encode_args
frame arg args rest = simp append_assoc refl

parse_args_step :
    (k : ℕ) (arg tail : List ℕ) (args : List (List ℕ)) (rest : List ℕ)
    → parse_args k tail ≡ some (args, rest)
    → parse_args (suc k) (b'$' ∷ (decimal (length arg) ++ 13 ∷ 10 ∷ (arg ++ 13 ∷ 10 ∷ tail)))
      ≡ some (arg ∷ args, rest)
unfolding parse_args expect_byte
parse_args_step k arg tail args rest e =
    rw (parse_number-decimal (length arg) (arg ++ 13 ∷ 10 ∷ tail), parse_bytes-append arg tail, e)
      refl

parse_args-encode_args :
    (args : List (List ℕ)) (rest : List ℕ)
    → parse_args (length args) (encode_args args ++ rest) ≡ some (args, rest)
unfolding parse_args encode_args
parse_args-encode_args [] rest = refl
parse_args-encode_args (arg ∷ args) rest =
    ap (parse_args (suc (length args))) (frame arg args rest)
    ∙ parse_args_step (length args) arg (encode_args args ++ rest) args rest
        (parse_args-encode_args args rest)

command_frame :
    (args : List (List ℕ)) (rest : List ℕ)
    → encode_command args ++ rest
      ≡ b'*' ∷ (decimal (length args) ++ 13 ∷ 10 ∷ (encode_args args ++ rest))
unfolding encode_command
command_frame args rest = simp append_assoc refl

array_lem :
    (k : ℕ) (tail : List ℕ)
    → parse_command (b'*' ∷ (decimal k ++ 13 ∷ 10 ∷ tail)) ≡ parse_args k tail
unfolding parse_command expect_byte
array_lem k tail = rw (parse_number-decimal k tail) refl

-- A server that reads the protocol gets back the arguments of the command that was sent, whatever
-- bytes they hold, and is left with what was sent after it.
pub parse_command-encode_command :
    (args : List (List ℕ)) (rest : List ℕ)
    → parse_command (encode_command args ++ rest) ≡ some (args, rest)
parse_command-encode_command args rest =
    ap parse_command (command_frame args rest)
    ∙ array_lem (length args) (encode_args args ++ rest)
    ∙ parse_args-encode_args args rest
