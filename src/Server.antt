-- ===== src/Server.antt =====
-- server/include/server/Server.h and server/src/Server.cpp: a client's session.
--
-- `handleClient` over an interface for the socket, and over the function that `dispatch` calls.
pub mod Session
pub mod Exchange
pub mod Output
pub mod Accept
pub mod Lifecycle
use multi_player_game.Common.{
  ℕ, zero, suc, ◌+◌, ◌%◌, ◌^◌, String, Bool, true, false, List, [], ◌∷◌, Option, none, some, ltb,
  if◌then◌else◌,
}
use multi_player_game.Common.Int.{ℤ}
use multi_player_game.Socket.{SocketApi}
use multi_player_game.MessageFramer.{max_message_size, header_size, read_u32_le, encode}
use multi_player_game.MessageFramer.Stream.{
  Outcome, done, failed, out_of_fuel, read_exact, write_all,
}
use multi_player_game.ConnectionManager
use multi_player_game.ConnectionManager.{ConnectionManager}

-- The size in a header that was read; the loop's own copy of `readU32LE`.
unfoldable pub payload_len : List ℕ → ℕ
payload_len (p0 ∷ p1 ∷ p2 ∷ p3 ∷ _) = read_u32_le p0 p1 p2 p3
payload_len _ = 0

-- What a session works on: its socket, the shared registry and game, and `msgCount`.
pub record State (S W : Type 0) : Type 0 where
  pub socket : S
  pub connections : ConnectionManager
  pub world : W
  pub msg_count : ℕ

-- `break` leaves the loop.
unfoldable pub after_round :
    {S W : Type 0} → (State S W → Option (State S W)) → Bool × State S W → Option (State S W)
after_round next (true, st) = next st
after_round next (false, st) = some st

module _ (api : SocketApi) {W : Type 0} (handle : List ℕ → ℕ → W → List ℕ × W) where
  unfoldable pub dispatch : List ℕ → ℕ → W → List ℕ × W
  dispatch raw_json conn_id w = handle raw_json conn_id w

  -- After `writeAll`: whether the loop goes on, and the state.
  unfoldable pub after_write :
      ℕ → State api.Socket W → Outcome (Unit {0}) × api.Socket → Bool × State api.Socket W
  after_write conn_id st (done _, s) = (
    true,
    record st {
      socket = s;
      connections = ConnectionManager.record_message_sent conn_id st.connections;
    },
  )
  after_write conn_id st (failed, s) = (false, record st { socket = s })
  after_write conn_id st (out_of_fuel, s) = (false, record st { socket = s })

  -- After `dispatch`.
  abbrev pub answered : ℕ → List ℕ → State api.Socket W → State api.Socket W
  answered conn_id payload st = record st {
    connections = ConnectionManager.record_message_received conn_id st.connections;
    world = (dispatch payload conn_id st.world).1;
    msg_count = (st.msg_count + 1) % 2 ^ 32;
  }

  -- The loop's body from the moment that a request is there.
  unfoldable pub answer : ℕ → List ℕ → State api.Socket W → Bool × State api.Socket W
  unfolding dispatch after_write
  answer conn_id payload st =
      after_write conn_id (answered conn_id payload st)
        (write_all api st.socket (encode (dispatch payload conn_id st.world).0))

  -- After the second `readExact`.
  unfoldable pub after_payload :
      ℕ → State api.Socket W → Outcome (List ℕ) × api.Socket → Bool × State api.Socket W
  unfolding answer
  after_payload conn_id st (done payload, s) = answer conn_id payload (record st { socket = s })
  after_payload conn_id st (failed, s) = (false, record st { socket = s })
  after_payload conn_id st (out_of_fuel, s) = (false, record st { socket = s })

  unfoldable pub receive_payload : ℕ → ℕ → State api.Socket W → Bool × State api.Socket W
  unfolding after_payload
  receive_payload conn_id n st =
      if ltb max_message_size n
      then (false, st)
      else after_payload conn_id st (read_exact api st.socket n)

  -- After the first `readExact`.
  unfoldable pub after_header :
      ℕ → State api.Socket W → Outcome (List ℕ) × api.Socket → Bool × State api.Socket W
  unfolding receive_payload payload_len
  after_header conn_id st (done header, s) =
      receive_payload conn_id (payload_len header) (record st { socket = s })
  after_header conn_id st (failed, s) = (false, record st { socket = s })
  after_header conn_id st (out_of_fuel, s) = (false, record st { socket = s })

  -- One round of the loop.
  unfoldable pub round : ℕ → State api.Socket W → Bool × State api.Socket W
  unfolding after_header
  round conn_id st = after_header conn_id st (read_exact api st.socket header_size)

  -- The loop, for at most so many rounds; none if they are used up.
  unfoldable pub session_loop : ℕ → ℕ → State api.Socket W → Option (State api.Socket W)
  session_loop zero conn_id st = none
  session_loop (suc fuel) conn_id st = after_round (session_loop fuel conn_id) (round conn_id st)

  -- The loop of a connection that was just registered, and the unregistering after it.
  unfoldable pub serve : ℕ → ℕ → State api.Socket W → Option (State api.Socket W)
  serve fuel conn_id st = elim (session_loop fuel conn_id st) [
    | none ↦ none
    | some st' ↦ some (record st' {
      connections = ConnectionManager.unregister_connection conn_id st'.connections;
    })
  ]

  -- The whole of `handleClient`: the registry and the world afterwards, and the socket to close.
  unfoldable pub handle_client :
      ℕ → ℤ → String → ℕ → api.Socket → ConnectionManager → W → Option (State api.Socket W)
  unfolding serve
  handle_client fuel fd addr now s m w =
      let (conn_id, m') = ConnectionManager.register_connection fd addr now m in
      serve fuel conn_id (record { socket = s; connections = m'; world = w; msg_count = 0 })
