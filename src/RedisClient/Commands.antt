-- ===== src/RedisClient/Commands.antt =====
-- The replies, and the commands: readLine, readBulkString, ping, set, get, del, hset, hget, hgetall.
use multi_player_game.Common.{
  ℕ, zero, suc, ◌+◌, ◌/◌, ◌||◌, List, [], ◌∷◌, Option, none, some, nat_beq, if◌then◌else◌, length,
}
use multi_player_game.Common.Bytes.{bytes_beq}
use multi_player_game.Common.Int.{ℤ, pos, negsuc, ltb_ℤ}
use multi_player_game.Common.Text.{codes}
use multi_player_game.Common.Decimal.{decimal_int, stoi}
use multi_player_game.Socket.{SocketApi}
use multi_player_game.Network.{NetworkApi}
use multi_player_game.MessageFramer.Stream.{Outcome, done, failed, out_of_fuel, read_exact}
use multi_player_game.RedisClient.{
  RedisConnection, Ending, yes_with, no_value, throwing, no_fuel, ◌>>=◌, ◌>>◌, Redis, answer,
  give_up, on_socket, send_command,
}

module _ (api : SocketApi) (network : NetworkApi api) where
  open api use {Socket}
  open network use {Net}

  abbrev Connection : Type 0
  Connection = RedisConnection Socket Net

  -- What a call on the socket leaves.
  abbrev after : Connection → Socket → Connection
  after c s = record c { socket_fd = some s }

  -- `if (::recv(m_socketFd, &c, 1, 0) <= 0) { disconnect(); return false; }`
  unfoldable pub after_byte : Connection → Option (List ℕ) × Socket → Ending ℕ × Connection
  unfolding give_up
  after_byte c (none, s) = give_up api network (after c s)
  after_byte c (some [], s) = give_up api network (after c s)
  after_byte c (some (b ∷ bs), s) = (yes_with b, after c s)

  unfoldable pub read_byte : Redis api network ℕ
  unfolding on_socket after_byte
  read_byte = on_socket api network (λ s c. after_byte c (api.recv s 1))

  -- What follows a byte 13.
  unfoldable pub end_line : Redis api network (List ℕ)
  unfolding ◌>>=◌ read_byte give_up answer
  end_line = read_byte >>= λ next.
      if nat_beq next 10 then answer api network (yes_with []) else give_up api network

  unfoldable pub read_line : ℕ → Redis api network (List ℕ)
  unfolding ◌>>=◌ read_byte answer end_line
  read_line zero = answer api network no_fuel
  read_line (suc fuel) =
      let rest = read_line fuel in
      read_byte >>= λ b.
      if nat_beq b 13 then end_line else rest >>= λ line. answer api network (yes_with (b ∷ line))

  -- The loop of readBulkString, which is that of readExact.
  unfoldable pub after_read : Connection → Outcome (List ℕ) × Socket → Ending (List ℕ) × Connection
  unfolding give_up
  after_read c (done out, s) = (yes_with out, after c s)
  after_read c (failed, s) = give_up api network (after c s)
  after_read c (out_of_fuel, s) = (no_fuel, after c s)

  unfoldable pub read_bytes : ℕ → Redis api network (List ℕ)
  unfolding on_socket after_read read_exact
  read_bytes len = on_socket api network (λ s c. after_read c (read_exact api s len))

  -- The trailing two bytes, whatever they are.
  unfoldable pub after_tail : Connection → Option (List ℕ) × Socket → Ending (Unit {0}) × Connection
  unfolding give_up
  after_tail c (none, s) = give_up api network (after c s)
  after_tail c (some tail, s) =
      if nat_beq (length tail) 2 then (yes_with tt, after c s) else give_up api network (after c s)

  unfoldable pub read_tail : Redis api network (Unit {0})
  unfolding on_socket after_tail
  read_tail = on_socket api network (λ s c. after_tail c (network.recv_all s 2))

  unfoldable pub read_body : ℕ → Redis api network (List ℕ)
  unfolding ◌>>=◌ read_bytes read_tail answer
  read_body len = do out ← read_bytes len; read_tail; answer api network (yes_with out)

  unfoldable pub body_of : Option ℤ → Redis api network (List ℕ)
  unfolding answer read_body
  body_of none = answer api network throwing
  body_of (some (negsuc n)) = answer api network no_value
  body_of (some (pos n)) = read_body n

  unfoldable pub read_bulk_string : ℕ → Redis api network (List ℕ)
  unfolding ◌>>=◌ read_line body_of
  read_bulk_string fuel = read_line fuel >>= λ len_str. body_of (stoi len_str)

  -- `return line == a || line == b;`
  unfoldable pub expect : List ℕ → List ℕ → List ℕ → Redis api network (Unit {0})
  unfolding answer
  expect a b line =
      answer api network (if bytes_beq line a || bytes_beq line b then yes_with tt else no_value)

  unfoldable pub ping : ℕ → Redis api network (Unit {0})
  unfolding ◌>>=◌ send_command read_line expect
  ping fuel =
      send_command api network (codes "PING" ∷ [])
      >> read_line fuel
      >>= expect (codes "+PONG") (codes "PONG")

  unfoldable pub set_args : List ℕ → List ℕ → ℤ → List (List ℕ)
  set_args key value expire_seconds =
      codes "SET"
      ∷ key
      ∷ value
      ∷ (if ltb_ℤ (pos 0) expire_seconds then codes "EX" ∷ decimal_int expire_seconds ∷ [] else [])

  unfoldable pub set : ℕ → List ℕ → List ℕ → ℤ → Redis api network (Unit {0})
  unfolding ◌>>=◌ send_command read_line expect set_args
  set fuel key value expire_seconds =
      send_command api network (set_args key value expire_seconds)
      >> read_line fuel
      >>= expect (codes "+OK") (codes "OK")

  -- The reply to GET and HGET.
  unfoldable pub read_value : ℕ → Redis api network (List ℕ)
  unfolding ◌>>=◌ read_byte read_bulk_string read_line answer
  read_value fuel = do
    type ← read_byte
    if nat_beq type b'$'
        then read_bulk_string fuel
        else read_line fuel >>= λ rest. answer api network no_value

  unfoldable pub get : ℕ → List ℕ → Redis api network (List ℕ)
  unfolding ◌>>=◌ send_command read_value
  get fuel key = send_command api network (codes "GET" ∷ key ∷ []) >> read_value fuel

  unfoldable pub del : ℕ → List ℕ → Redis api network (Unit {0})
  unfolding ◌>>=◌ send_command read_line answer
  del fuel key = send_command api network (codes "DEL" ∷ key ∷ []) >> read_line fuel >>= λ line.
      answer api network (yes_with tt)

  unfoldable pub hset : ℕ → List ℕ → List ℕ → List ℕ → Redis api network (Unit {0})
  unfolding ◌>>=◌ send_command read_line answer
  hset fuel key field value =
      send_command api network (codes "HSET" ∷ key ∷ field ∷ value ∷ [])
      >> read_line fuel
      >>= λ line. answer api network (yes_with tt)

  unfoldable pub hget : ℕ → List ℕ → List ℕ → Redis api network (List ℕ)
  unfolding ◌>>=◌ send_command read_value
  hget fuel key field =
      send_command api network (codes "HGET" ∷ key ∷ field ∷ []) >> read_value fuel

  -- `if (::recv(m_socketFd, &kType, 1, 0) <= 0) return false;`, which does not look at the byte.
  unfoldable pub after_skip : Connection → Option (List ℕ) × Socket → Ending (Unit {0}) × Connection
  after_skip c (none, s) = (no_value, after c s)
  after_skip c (some [], s) = (no_value, after c s)
  after_skip c (some (b ∷ bs), s) = (yes_with tt, after c s)

  unfoldable pub skip_byte : Redis api network (Unit {0})
  unfolding on_socket after_skip
  skip_byte = on_socket api network (λ s c. after_skip c (api.recv s 1))

  -- The assignments `outMap[k] = v`, in order.
  unfoldable pub read_pairs : ℕ → ℕ → Redis api network (List (List ℕ × List ℕ))
  unfolding ◌>>=◌ skip_byte read_bulk_string answer
  read_pairs fuel zero = answer api network (yes_with [])
  read_pairs fuel (suc n) = do
    skip_byte
    k ← read_bulk_string fuel
    skip_byte
    v ← read_bulk_string fuel
    rest ← read_pairs fuel n
    answer api network (yes_with ((k, v) ∷ rest))

  unfoldable pub pairs_of : ℕ → Option ℤ → Redis api network (List (List ℕ × List ℕ))
  unfolding answer read_pairs
  pairs_of fuel none = answer api network throwing
  pairs_of fuel (some (negsuc n)) = answer api network (yes_with [])
  pairs_of fuel (some (pos count)) = read_pairs fuel ((count + 1) / 2)

  unfoldable pub read_map : ℕ → Redis api network (List (List ℕ × List ℕ))
  unfolding ◌>>=◌ read_byte read_line pairs_of answer
  read_map fuel = do
    type ← read_byte
    if nat_beq type b'*'
        then (read_line fuel >>= λ count_str. pairs_of fuel (stoi count_str))
        else read_line fuel >>= λ rest. answer api network no_value

  unfoldable pub hgetall : ℕ → List ℕ → Redis api network (List (List ℕ × List ℕ))
  unfolding ◌>>=◌ send_command read_map
  hgetall fuel key = send_command api network (codes "HGETALL" ∷ key ∷ []) >> read_map fuel
