-- ===== src/ConnectionManager.antt =====
-- server/include/server/ConnectionManager.h and server/src/ConnectionManager.cpp: the registry of
-- open connections. What a method logs is left out. Each method is one critical section, but
-- `registerConnection`: it takes its id before the lock and counts after it. The three parts are
-- definitions of their own, and a call is a run of all three: what other threads do between them is
-- not modelled as steps.
pub mod Identity
use multi_player_game.Common.{
  ℕ, ◌+◌, ◌%◌, ◌^◌, String, List, [], ◌∷◌, Option, none, some, length, nat_eq,
}
use multi_player_game.Common.Int.{ℤ}
use multi_player_game.Common.Dict.{Dict, lookup, emplace, adjust, erase}

pub record ConnectionInfo : Type 0 where
  pub connection_id : ℕ
  pub fd : ℤ
  pub remote_addr : String
  pub connected_at : ℕ
  pub messages_received : ℕ
  pub messages_sent : ℕ

pub record ConnectionManager : Type 0 where
  pub connections : Dict ℕ ConnectionInfo
  pub next_id : ℕ
  pub total_connections : ℕ

-- The members' defaults.
unfoldable pub init : ConnectionManager
init = record { connections = []; next_id = 1; total_connections = 0 }

-- `m_nextId.fetch_add(1)`
abbrev pub take_id : ConnectionManager → ℕ × ConnectionManager
take_id m = (m.next_id, record m { next_id = (m.next_id + 1) % 2 ^ 64 })

-- The critical section of `registerConnection`.
abbrev pub insert_connection : ℕ → ℤ → String → ℕ → ConnectionManager → ConnectionManager
insert_connection id fd remote_addr now m = record m {
  connections =
      emplace id
        (record {
          connection_id = id;
          fd = fd;
          remote_addr = remote_addr;
          connected_at = now;
          messages_received = 0;
          messages_sent = 0;
        })
        m.connections;
}

-- `m_totalConnections.fetch_add(1)`
abbrev pub count_connection : ConnectionManager → ConnectionManager
count_connection m = record m { total_connections = (m.total_connections + 1) % 2 ^ 64 }

-- Gives the connection's id.
unfoldable pub register_connection : ℤ → String → ℕ → ConnectionManager → ℕ × ConnectionManager
register_connection fd remote_addr now m =
    let (id, taken) = take_id m in
    (id, count_connection (insert_connection id fd remote_addr now taken))

unfoldable pub unregister_connection : ℕ → ConnectionManager → ConnectionManager
unregister_connection connection_id m = elim (lookup connection_id m.connections) [
  | none ↦ m
  | some _ ↦ record m { connections = erase connection_id m.connections }
]

abbrev pub one_received : ConnectionInfo → ConnectionInfo
one_received c = record c { messages_received = (c.messages_received + 1) % 2 ^ 64 }

abbrev pub one_sent : ConnectionInfo → ConnectionInfo
one_sent c = record c { messages_sent = (c.messages_sent + 1) % 2 ^ 64 }

unfoldable pub record_message_received : ℕ → ConnectionManager → ConnectionManager
record_message_received connection_id m = elim (lookup connection_id m.connections) [
  | none ↦ m
  | some _ ↦ record m { connections = adjust connection_id one_received m.connections }
]

unfoldable pub record_message_sent : ℕ → ConnectionManager → ConnectionManager
record_message_sent connection_id m = elim (lookup connection_id m.connections) [
  | none ↦ m
  | some _ ↦ record m { connections = adjust connection_id one_sent m.connections }
]

unfoldable pub active_count : ConnectionManager → ℕ
active_count m = length m.connections

pub data Call : Type 0 where
  registers : ℤ → String → ℕ → Call
  unregisters : ℕ → Call
  receives : ℕ → Call
  sends : ℕ → Call

unfoldable pub step : Call → ConnectionManager → ConnectionManager
step (registers fd addr now) m = (register_connection fd addr now m).1
step (unregisters id) m = unregister_connection id m
step (receives id) m = record_message_received id m
step (sends id) m = record_message_sent id m

unfoldable pub run : List Call → ConnectionManager → ConnectionManager
run [] m = m
run (c ∷ cs) m = run cs (step c m)
