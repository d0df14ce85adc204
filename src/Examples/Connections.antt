-- ===== src/Examples/Connections.antt =====
-- The registry of connections on a concrete sequence of calls.
use multi_player_game.Common.{suc, ◌+◌, ◌≡◌, true, false, nat_eq, List, [], ◌∷◌, arith}
use multi_player_game.Common.Int.{pos}
use multi_player_game.Common.Dict.{contains}
use multi_player_game.ConnectionManager.{
  init, register_connection, active_count, Call, registers, unregisters, receives, sends, run,
}
use multi_player_game.ConnectionManager.Identity.{opened, closed, run_census}

-- Two clients connect, the first leaves, and a call for an unknown id.
abbrev calls : List Call
calls =
    registers (pos 4) "10.0.0.1:5000" 1
    ∷ registers (pos 5) "10.0.0.2:5001" 2
    ∷ receives 1
    ∷ sends 1
    ∷ unregisters 1
    ∷ unregisters 9
    ∷ []

run_census_example :
    let m = run calls init in
    let (id, m') = register_connection (pos 6) "10.0.0.3:5002" 3 m in
    (m.total_connections ≡ opened calls)
    × (active_count m + closed calls init ≡ opened calls)
    × (id ≡ suc (opened calls))
    × (contains id m.connections ≡ false)
    × (contains id m'.connections ≡ true)
unfolding opened
run_census_example = run_census calls (pos 6) "10.0.0.3:5002" 3 (omega arith)
