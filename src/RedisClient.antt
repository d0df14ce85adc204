-- ===== src/RedisClient.antt =====
-- RedisConnection of server/include/server/RedisClient.h and server/src/RedisClient.cpp: commands in
-- the protocol of Redis over one socket.
--
-- A method returns true with a value, returns false, or throws (std::stoi). readLine is given a
-- bound on its rounds; a round takes a byte, so one more than there are bytes to come is enough.
pub mod Commands
pub mod Protocol
pub mod Reading
pub mod Replies
use multi_player_game.Common.{
  ℕ, zero, suc, ◌+◌, ◌≡◌, Bool, true, false, not, ◌||◌, List, [], ◌∷◌, ◌++◌, Option, none, some,
  nat_beq, ltb, if◌then◌else◌, length,
}
use multi_player_game.Common.Int.{ℤ, pos, negsuc, ltb_ℤ}
use multi_player_game.Common.Text.{codes}
use multi_player_game.Common.Decimal.{decimal, stoi}
use multi_player_game.Common.Actions.{Action}
use multi_player_game.Socket.{SocketApi}
use multi_player_game.Network.{NetworkApi}
use multi_player_game.MessageFramer.Stream.{Outcome, done, failed, out_of_fuel, read_exact}

pub record RedisConnection (Socket Net : Type 0) : Type 0 where
  pub host : List ℕ
  pub port : ℤ
  pub timeout_ms : ℤ
  pub socket_fd : Option Socket
  pub net : Net

-- How a method ends.
pub data Ending (A : Type 0) : Type 0 where
  yes_with : A → Ending A
  no_value : Ending A
  throwing : Ending A
  no_fuel : Ending A

abbrev pub Attempt : Type 0 → Type 0 → Type 0
Attempt S A = S → Ending A × S

abbrev pub continue : {S A B : Type 0} → Ending A × S → (A → Attempt S B) → Ending B × S
continue (yes_with a, s) f = f a s
continue (no_value, s) f = (no_value, s)
continue (throwing, s) f = (throwing, s)
continue (no_fuel, s) f = (no_fuel, s)

-- `if (!m) return false;`
infixl 5 ◌>>=◌ ◌>>◌
unfoldable pub ◌>>=◌ : {S A B : Type 0} → Attempt S A → (A → Attempt S B) → Attempt S B
◌>>=◌ m f s = continue (m s) f

abbrev pub ◌>>◌ : {S A B : Type 0} → Attempt S A → Attempt S B → Attempt S B
m >> k = m >>= λ _. k

-- The RESP array of bulk strings.
abbrev pub crlf : List ℕ
crlf = 13 ∷ 10 ∷ []

unfoldable pub encode_args : List (List ℕ) → List ℕ
encode_args [] = []
encode_args (arg ∷ args) = (b'$' ∷ decimal (length arg)) ++ crlf ++ arg ++ crlf ++ encode_args args

unfoldable pub encode_command : List (List ℕ) → List ℕ
unfolding encode_args
encode_command args = (b'*' ∷ decimal (length args)) ++ crlf ++ encode_args args

module _ (api : SocketApi) (network : NetworkApi api) where
  open api use {Socket}
  open network use {Net}

  abbrev pub Redis : Type 0 → Type 0
  Redis A = Attempt (RedisConnection Socket Net) A

  unfoldable pub answer : {A : Type 0} → Ending A → Redis A
  answer r c = (r, c)

  unfoldable pub disconnect : RedisConnection Socket Net → RedisConnection Socket Net
  disconnect c = elim c.socket_fd [
    | none ↦ c
    | some s ↦ record c { socket_fd = none; net = network.close s c.net }
  ]

  -- `disconnect(); return false;`
  unfoldable pub give_up : {A : Type 0} → Redis A
  unfolding disconnect
  give_up c = (no_value, disconnect c)

  -- The new socket s is connected, or closed again.
  unfoldable pub dial : Socket → Redis (Unit {0})
  unfolding give_up
  dial s c =
      let (linked, s', net) = network.connect c.host c.port s c.net in
      if network.is_address c.host
      then if linked
        then (yes_with tt, record c { socket_fd = some s'; net = net })
        else give_up (record c { socket_fd = some s'; net = net })
      else give_up (record c { socket_fd = some s })

  unfoldable pub connect : Redis (Unit {0})
  unfolding dial
  connect c = elim c.socket_fd [
    | some s ↦ (yes_with tt, c)
    | none ↦
        let (opened, net) = network.socket c.net in
        elim opened [
          | none ↦ (no_value, record c { net = net })
          | some s ↦ dial (network.set_timeouts c.timeout_ms s) (record c { net = net })
        ]
  ]

  -- A call on `m_socketFd`; on a descriptor of -1 it fails.
  unfoldable pub on_socket : {A : Type 0} → (Socket → Redis A) → Redis A
  unfolding give_up
  on_socket f c = elim c.socket_fd [ none ↦ give_up c | some s ↦ f s c ]

  -- `if (sent != wire.size()) { disconnect(); return false; }`
  unfoldable pub after_send :
      List ℕ
      → RedisConnection Socket Net
      → Option ℕ × Socket
      → Ending (Unit {0}) × RedisConnection Socket Net
  unfolding give_up
  after_send wire c (none, s) = give_up (record c { socket_fd = some s })
  after_send wire c (some n, s) =
      if nat_beq n (length wire)
      then (yes_with tt, record c { socket_fd = some s })
      else give_up (record c { socket_fd = some s })

  unfoldable pub send_command : List (List ℕ) → Redis (Unit {0})
  unfolding ◌>>=◌ connect encode_command on_socket after_send
  send_command args =
      connect
      >> on_socket (λ s c. after_send (encode_command args) c (api.send s (encode_command args)))
