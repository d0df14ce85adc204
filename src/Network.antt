-- ===== src/Network.antt =====
-- What the clients and servers use of sockets besides `recv` and `send`, as an interface.
--
-- `Net` is the state of the network behind the calls. A descriptor of -1 is `none`.
use multi_player_game.Common.{ℕ, ◌+◌, ◌≡◌, ◌<◌, Bool, List, ◌++◌, Option, none, some, length}
use multi_player_game.Common.Int.{ℤ}
use multi_player_game.Socket.{SocketApi, IsReliable}

pub record NetworkApi (api : SocketApi) : Type 1 where
  pub Net : Type 0
  pub socket : Net → Option api.Socket × Net
  pub set_timeouts : ℤ → api.Socket → api.Socket
  -- `inet_pton(...) > 0`, and `connect(...) >= 0`.
  pub is_address : List ℕ → Bool
  pub connect : List ℕ → ℤ → api.Socket → Net → Bool × api.Socket × Net
  pub close : api.Socket → Net → Net
  -- `recv` with MSG_WAITALL.
  pub recv_all : api.Socket → ℕ → Option (List ℕ) × api.Socket

-- A connection that does not break, to a peer with room for what is sent: a `send` takes everything,
-- and a `recv` with MSG_WAITALL waits for all that it asks for.
pub record IsRoomy {api : SocketApi} (network : NetworkApi api) : Type 0 where
  pub reliable : IsReliable api
  pub sends_all :
      (s : api.Socket) (bytes : List ℕ)
      → 0 < length bytes
      → (api.send s bytes).0 ≡ some (length bytes)
  pub recv_all_front :
      (s : api.Socket) (bytes rest : List ℕ)
      → api.incoming s ≡ bytes ++ rest
      → let (r, s') = network.recv_all s (length bytes) in
        (r ≡ some bytes) × (api.incoming s' ≡ rest) × (api.outgoing s' ≡ api.outgoing s)

-- What a caller could count: sockets opened, and closed.
pub record HasDescriptors {api : SocketApi} (network : NetworkApi api) : Type 0 where
  pub opened : network.Net → ℕ
  pub closed : network.Net → ℕ
  pub opened-socket :
      (n : network.Net)
      → opened (network.socket n).1
        ≡ (elim (network.socket n).0 [ none ↦ opened n | some s ↦ opened n + 1 ])
  pub closed-socket : (n : network.Net) → closed (network.socket n).1 ≡ closed n
  pub same-connect :
      (host : List ℕ) (port : ℤ) (s : api.Socket) (n : network.Net)
      → let (linked, s', n') = network.connect host port s n in
        (opened n' ≡ opened n) × (closed n' ≡ closed n)
  pub one-close :
      (s : api.Socket) (n : network.Net)
      → (opened (network.close s n) ≡ opened n) × (closed (network.close s n) ≡ closed n + 1)
