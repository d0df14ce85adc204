-- ===== src/RedisClient/Reading.antt =====
-- The replies to `get` and `hget` on the wire, and their reading: readLine, readBulkString.
use multi_player_game.Common.{
  ℕ, zero, suc, ◌≤◌, ◌<◌, ◌≡◌, refl, sym, ap, ◌∙◌, ◌≢◌, inl, inr, false, List, [], ◌∷◌, ◌++◌,
  append_assoc, some, nat_beq, arith, length, take, drop, Option-cases, ◌^◌, length-append,
}
use multi_player_game.Common.Decimal.{decimal, stoi, stoi-decimal, AllDigits, decimal_lem}
use multi_player_game.Socket.{SocketApi}
use multi_player_game.Network.{NetworkApi, IsRoomy}
use multi_player_game.MessageFramer.Stream.Delivery.{read_front}
use multi_player_game.RedisClient.{
  RedisConnection, Ending, yes_with, no_value, ◌>>=◌, Redis, answer, on_socket, continue,
}
use multi_player_game.RedisClient.Commands.{
  after_byte, read_byte, end_line, read_line, after_read, read_bytes, after_tail, read_tail,
  read_body, body_of, read_bulk_string, read_value,
}

-- A bulk string, the null bulk string, and any other reply of one line.
pub data Reply : Type 0 where
  bulk : List ℕ → Reply
  missing : Reply
  other : ℕ → List ℕ → Reply

unfoldable pub encode_reply : Reply → List ℕ
encode_reply (bulk value) = b'$' ∷ (decimal (length value) ++ 13 ∷ 10 ∷ (value ++ 13 ∷ 10 ∷ []))
encode_reply missing = b'$' ∷ b'-' ∷ b'1' ∷ 13 ∷ 10 ∷ []
encode_reply (other b line) = b ∷ (line ++ 13 ∷ 10 ∷ [])

abbrev pub IsLine : List ℕ → Type 0
IsLine [] = Unit {0}
IsLine (c ∷ cs) = (c ≢ 13) × IsLine cs

-- The length fits an `int`, and a line has no byte 13.
abbrev pub IsReply : Reply → Type 0
IsReply (bulk value) = length value < 2 ^ 31
IsReply missing = Unit {0}
IsReply (other b line) = (b ≢ b'$') × IsLine line

abbrev pub meaning : Reply → Ending (List ℕ)
meaning (bulk value) = yes_with value
meaning missing = no_value
meaning (other b line) = no_value

pub digits-IsLine : (ds : List ℕ) → AllDigits ds → IsLine ds
digits-IsLine [] h = tt
digits-IsLine (d ∷ ds) (lo, hi, h) = ((λ e. omega arith), digits-IsLine ds h)

module _ (api : SocketApi) (network : NetworkApi api) (roomy : IsRoomy network)
    (c : RedisConnection api.Socket network.Net) where
  open api use {Socket, incoming, outgoing, recv, send}

  abbrev on : Socket → RedisConnection Socket network.Net
  on s = record c { socket_fd = some s }

  -- The result is r, the bytes `rest` are still to be read, and nothing was sent.
  abbrev pub Gives :
      {R : Type 0} → R → Socket → List ℕ → R × RedisConnection Socket network.Net → Type 0
  Gives r s rest result =
      (s' : Socket) × (result ≡ (r, on s')) × (incoming s' ≡ rest) × (outgoing s' ≡ outgoing s)

  one_byte :
      (s : Socket) (b : ℕ) (bytes rest : List ℕ)
      → 1 ≤ length bytes
      → length bytes ≤ 1
      → incoming s ≡ b ∷ rest
      → incoming s ≡ bytes ++ incoming (recv s 1).1
      → (bytes ≡ b ∷ []) × (incoming (recv s 1).1 ≡ rest)
  one_byte s b [] rest lo hi e i = absurd (omega arith)
  one_byte s b (x ∷ []) rest lo hi e i =
      (ap (λ bs. take 1 bs) (sym i ∙ e), ap (λ bs. drop 1 bs) (sym i ∙ e))
  one_byte s b (x ∷ y ∷ ys) rest lo hi e i = absurd (omega arith)

  -- A step that succeeds, and what follows it.
  pub bind_yes :
      {A B : Type 0} (m : Redis api network A) (f : A → Redis api network B) (a : A)
      (x y : RedisConnection Socket network.Net)
      → m x ≡ (yes_with a, y)
      → (m >>= f) x ≡ f a y
  unfolding ◌>>=◌
  bind_yes m f a x y e = ap (λ r. continue r f) e

  bind-Gives :
      {A B : Type 0} (m : Redis api network A) (f : A → Redis api network B) (a : A) (r : Ending B)
      (s : Socket) (mid rest : List ℕ)
      → Gives (yes_with a) s mid (m (on s))
      → ((t : Socket) → incoming t ≡ mid → Gives r t rest (f a (on t)))
      → Gives r s rest ((m >>= f) (on s))
  bind-Gives m f a r s mid rest (t, e, i, o) h =
      let (u, e', i', o') = h t i in (u, bind_yes m f a (on s) (on t) e ∙ e', i', o' ∙ o)

  answer-Gives :
      {A : Type 0} (r : Ending A) (s : Socket) (rest : List ℕ)
      → incoming s ≡ rest
      → Gives r s rest (answer api network r (on s))
  unfolding answer
  answer-Gives r s rest e = (s, refl, e, refl)

  read_byte-Gives :
      (s : Socket) (b : ℕ) (rest : List ℕ)
      → incoming s ≡ b ∷ rest
      → Gives (yes_with b) s rest (read_byte api network (on s))
  unfolding read_byte on_socket after_byte
  read_byte-Gives s b rest e = elim (Option-cases (recv s 1).0) [
    | inl gone ↦
        absurd (roomy.reliable.recv_waits s 1 (omega arith) (omega (arith, ap length e)) gone)
    | inr (bytes, got) ↦
        let (lo, hi, i, o) = api.recv_some s 1 bytes got in
        let (same, left) = one_byte s b bytes rest lo hi e i in
        ((recv s 1).1, rw (got ∙ ap some same) refl, left, o)
  ]

  end_line-Gives :
      (s : Socket) (rest : List ℕ)
      → incoming s ≡ 10 ∷ rest
      → Gives (yes_with []) s rest (end_line api network (on s))
  unfolding end_line
  end_line-Gives s rest e =
      bind-Gives (read_byte api network) _ 10 _ s rest rest (read_byte-Gives s 10 rest e)
        (λ t i. answer-Gives _ t rest i)

  read_line-Gives :
      (fuel : ℕ) (s : Socket) (line rest : List ℕ)
      → length line < fuel
      → IsLine line
      → incoming s ≡ line ++ 13 ∷ 10 ∷ rest
      → Gives (yes_with line) s rest (read_line api network fuel (on s))
  unfolding read_line
  read_line-Gives zero s line rest few h e = absurd (omega arith)
  read_line-Gives (suc fuel) s [] rest few h e =
      bind-Gives (read_byte api network) _ 13 _ s (10 ∷ rest) rest
        (read_byte-Gives s 13 (10 ∷ rest) e) (λ t i. end_line-Gives t rest i)
  read_line-Gives (suc fuel) s (b ∷ line) rest few (ne, h) e =
      let tail = line ++ 13 ∷ 10 ∷ rest in
      let other_byte : nat_beq b 13 ≡ false = ground arith in
      bind-Gives (read_byte api network) _ b _ s tail rest (read_byte-Gives s b tail e) (λ t i.
        rw other_byte (
          bind-Gives (read_line api network fuel) _ line _ t rest rest
            (read_line-Gives fuel t line rest (omega arith) h i) (λ u j. answer-Gives _ u rest j)))

  read_bytes-Gives :
      (s : Socket) (value rest : List ℕ)
      → incoming s ≡ value ++ rest
      → Gives (yes_with value) s rest (read_bytes api network (length value) (on s))
  unfolding read_bytes on_socket after_read
  read_bytes-Gives s value rest e =
      let (t, r, i, o) = read_front api roomy.reliable s value rest e in
      (t, ap (after_read api network (on s)) r, i, o)

  read_tail-Gives :
      (s : Socket) (rest : List ℕ)
      → incoming s ≡ 13 ∷ 10 ∷ rest
      → Gives (yes_with tt) s rest (read_tail api network (on s))
  unfolding read_tail on_socket after_tail
  read_tail-Gives s rest e =
      let (r, i, o) = roomy.recv_all_front s (13 ∷ 10 ∷ []) rest e in
      ((network.recv_all s 2).1, rw r refl, i, o)

  read_body-Gives :
      (s : Socket) (value rest : List ℕ)
      → incoming s ≡ value ++ 13 ∷ 10 ∷ rest
      → Gives (yes_with value) s rest (read_body api network (length value) (on s))
  unfolding read_body
  read_body-Gives s value rest e =
      bind-Gives (read_bytes api network (length value)) _ value _ s (13 ∷ 10 ∷ rest) rest
        (read_bytes-Gives s value (13 ∷ 10 ∷ rest) e)
        (λ t i.
          bind-Gives (read_tail api network) _ tt _ t rest rest (read_tail-Gives t rest i)
            (λ u j. answer-Gives _ u rest j))

  bulk-Gives :
      (fuel : ℕ) (s : Socket) (value rest : List ℕ)
      → length (decimal (length value)) < fuel
      → length value < 2 ^ 31
      → incoming s ≡ decimal (length value) ++ 13 ∷ 10 ∷ (value ++ 13 ∷ 10 ∷ rest)
      → Gives (yes_with value) s rest (read_bulk_string api network fuel (on s))
  unfolding read_bulk_string body_of
  bulk-Gives fuel s value rest few small e =
      let line = decimal (length value) in
      let tail = value ++ 13 ∷ 10 ∷ rest in
      let (exact, all) = decimal_lem (length value) in
      bind-Gives (read_line api network fuel) _ line _ s tail rest
        (read_line-Gives fuel s line tail few (digits-IsLine line all) e)
        (λ t i. rw (stoi-decimal (length value) small) (read_body-Gives t value rest i))

  missing-Gives :
      (fuel : ℕ) (s : Socket) (rest : List ℕ)
      → 2 < fuel
      → incoming s ≡ b'-' ∷ b'1' ∷ 13 ∷ 10 ∷ rest
      → Gives no_value s rest (read_bulk_string api network fuel (on s))
  unfolding read_bulk_string body_of stoi
  missing-Gives fuel s rest few e =
      let line : List ℕ = b'-' ∷ b'1' ∷ [] in
      bind-Gives (read_line api network fuel) _ line _ s rest rest
        (read_line-Gives fuel s line rest few ((λ h. omega arith), ((λ h. omega arith), tt)) e)
        (λ t i. answer-Gives _ t rest i)

  pub read_value-Gives :
      (fuel : ℕ) (s : Socket) (reply : Reply) (rest : List ℕ)
      → IsReply reply
      → length (encode_reply reply) ≤ fuel
      → incoming s ≡ encode_reply reply ++ rest
      → Gives (meaning reply) s rest (read_value api network fuel (on s))
  unfolding read_value encode_reply
  read_value-Gives fuel s (bulk value) rest h few e =
      let line = decimal (length value) in
      let tail = line ++ 13 ∷ 10 ∷ (value ++ 13 ∷ 10 ∷ rest) in
      let flat : incoming s ≡ b'$' ∷ tail = e ∙ simp append_assoc refl in
      bind-Gives (read_byte api network) _ b'$' _ s tail rest (read_byte-Gives s b'$' tail flat)
        (λ t i.
          bulk-Gives fuel t value rest
            (omega (arith, length-append line (13 ∷ 10 ∷ (value ++ 13 ∷ 10 ∷ [])))) h i)
  read_value-Gives fuel s missing rest h few e =
      let tail = b'-' ∷ b'1' ∷ 13 ∷ 10 ∷ rest in
      bind-Gives (read_byte api network) _ b'$' _ s tail rest (read_byte-Gives s b'$' tail e)
        (λ t i. missing-Gives fuel t rest (omega arith) i)
  read_value-Gives fuel s (other b line) rest (ne, h) few e =
      let tail = line ++ 13 ∷ 10 ∷ rest in
      let flat : incoming s ≡ b ∷ tail = e ∙ simp append_assoc refl in
      let no_bulk : nat_beq b b'$' ≡ false = ground arith in
      bind-Gives (read_byte api network) _ b _ s tail rest (read_byte-Gives s b tail flat) (λ t i.
        rw no_bulk (
          bind-Gives (read_line api network fuel) _ line _ t rest rest
            (read_line-Gives fuel t line rest (omega (arith, length-append line (13 ∷ 10 ∷ []))) h
              i)
            (λ u j. answer-Gives _ u rest j)))
