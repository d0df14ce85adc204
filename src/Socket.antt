-- ===== src/Socket.antt =====
-- What the program uses of connected TCP sockets: `recv` and `send` of POSIX, as an interface.
--
-- `incoming` is what the peer's bytes are that no `recv` has taken yet, and `outgoing` what the
-- peer will get of what `send` has taken; the program sees neither. `none` stands for a result of
-- 0 or -1.
use multi_player_game.Common.{ℕ, ◌≤◌, ◌<◌, ◌≡◌, ◌≢◌, List, ◌++◌, Option, none, some, length, take}

pub record SocketApi : Type 1 where
  pub Socket : Type 0
  pub incoming : Socket → List ℕ
  pub outgoing : Socket → List ℕ
  pub recv : Socket → ℕ → Option (List ℕ) × Socket
  pub send : Socket → List ℕ → Option ℕ × Socket
  -- A `recv` of at most n bytes takes at least one and at most n bytes of the stream, in order.
  pub recv_some :
      (s : Socket) (n : ℕ) (bytes : List ℕ)
      → (recv s n).0 ≡ some bytes
      → (1 ≤ length bytes)
        × (length bytes ≤ n)
        × (incoming s ≡ bytes ++ incoming (recv s n).1)
        × (outgoing (recv s n).1 ≡ outgoing s)
  pub recv_none : (s : Socket) (n : ℕ) → (recv s n).0 ≡ none → outgoing (recv s n).1 ≡ outgoing s
  -- A `send` takes at least one byte of what it is given, from the front.
  pub send_some :
      (s : Socket) (bytes : List ℕ) (n : ℕ)
      → (send s bytes).0 ≡ some n
      → (1 ≤ n)
        × (n ≤ length bytes)
        × (outgoing (send s bytes).1 ≡ outgoing s ++ take n bytes)
        × (incoming (send s bytes).1 ≡ incoming s)
  -- A `send` that fails has taken nothing.
  pub send_none :
      (s : Socket) (bytes : List ℕ)
      → (send s bytes).0 ≡ none
      → (outgoing (send s bytes).1 ≡ outgoing s) × (incoming (send s bytes).1 ≡ incoming s)

-- A connection that does not break: `recv` blocks until there are bytes or the peer has closed,
-- and `send` until it can take some.
pub record IsReliable (api : SocketApi) : Type 0 where
  pub recv_waits :
      (s : api.Socket) (n : ℕ) → 0 < n → 0 < length (api.incoming s) → (api.recv s n).0 ≢ none
  pub send_waits :
      (s : api.Socket) (bytes : List ℕ) → 0 < length bytes → (api.send s bytes).0 ≢ none
