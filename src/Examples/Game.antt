-- ===== src/Examples/Game.antt =====
-- GameState and the metrics registry on concrete matches.
use multi_player_game.Common.{
  ◌+◌, ◌-◌, ◌*◌, ◌%◌, ◌^◌, ◌≤◌, ◌≡◌, refl, ◌≢◌, false, if◌then◌else◌, leb, ltb, List, [], ◌∷◌, none,
  some, arith, ok, keep_last,
}
use multi_player_game.Common.Int.{ℤ, pos, negsuc, int_eq, beq_ℤ_iff, int_add, int_sub}
use multi_player_game.Common.Dict.{lookup, contains, emplace, adjust, erase}
use multi_player_game.GameState.{
  GameState, PlayerState, init, fresh_player, active, finished, add_player, remove_player,
  attack_player, move_player, record_event, recent_events, Call, joins, leaves, moves, attacks,
  records, takes_id, appends, step, run,
}
use multi_player_game.GameState.Invariant.{Inv, run-init-Inv}
use multi_player_game.GameState.Lifecycle.{
  rank, run_advances, accepted, allowed, accepted-eq-allowed,
}
use multi_player_game.GameState.Combat.{attack_effect}
use multi_player_game.GameState.Elimination.{volley, volley_lem}
use multi_player_game.GameState.EventLog.{history, recent_events-run}
use multi_player_game.Metrics.{reset, latency_buckets}
use multi_player_game.Metrics.Histogram.{histogram, total, record_all, record_all-histogram}

-- Two players join, one hits the other, who then leaves.
abbrev script : List Call
script =
    joins (pos 1) 10 11
    ∷ joins (pos 2) 20 21
    ∷ moves (pos 1) (negsuc 4) (pos 2000)
    ∷ attacks (pos 1) (pos 2)
    ∷ records (pos 1) "ATTACK" "{}" 30
    ∷ leaves (pos 2)
    ∷ records (pos 2) "LEAVE" "{}" 40
    ∷ []

abbrev one : PlayerState
one = fresh_player (pos 1) 10

abbrev two : PlayerState
two = fresh_player (pos 2) 20

-- A match with both of them.
abbrev duel : GameState
duel = record {
  players = (pos 2, two) ∷ (pos 1, one) ∷ [];
  events = [];
  status = active;
  match_start = 11;
  next_event_id = 1;
  total_kills = 0;
}

abbrev over : GameState
over = record duel { players = []; status = finished }

different : pos 1 ≢ pos 2
different = ground (arith, beq_ℤ_iff (pos 1) (pos 2))

run_test : (run script (init 0)).status ≡ active
unfolding run step init add_player remove_player attack_player move_player record_event contains
    lookup emplace adjust erase int_sub
run_test = refl

run-init-Inv_example : Inv (run script (init 0))
run-init-Inv_example = run-init-Inv 0 script

run_advances_example : rank duel.status ≤ rank (run script duel).status
run_advances_example = run_advances script duel

accepted-eq-allowed_example :
    (accepted (attacks (pos 1) (pos 1)) duel ≡ allowed (attacks (pos 1) (pos 1)) duel)
    × (accepted (attacks (pos 1) (pos 1)) duel ≡ false → step (attacks (pos 1) (pos 1)) duel ≡ duel)
accepted-eq-allowed_example = accepted-eq-allowed (attacks (pos 1) (pos 1)) duel

attack_effect_example :
    let (r, g') = attack_player (pos 1) (pos 2) duel in
    (r
      ≡ ok (record {
        damage = pos 25;
        target_health_after = pos (100 - 25);
        attacker_score = int_add one.score (if leb 100 25 then pos 100 else pos 10);
        target_eliminated = leb 100 25;
      }))
    × (lookup (pos 1) g'.players
        ≡ some (
            if leb 100 25
            then record one {
              score = int_add one.score (pos 100);
              kills = int_add one.kills (pos 1);
            }
            else record one { score = int_add one.score (pos 10) }))
    × (lookup (pos 2) g'.players
        ≡ (if leb 100 25 then none else some (record two { health = pos (100 - 25) })))
    × ((k : ℤ) → k ≢ pos 1 → k ≢ pos 2 → lookup k g'.players ≡ lookup k duel.players)
    × (g'.total_kills ≡ (if leb 100 25 then (duel.total_kills + 1) % 2 ^ 64 else duel.total_kills))
    × (g'.status ≡ duel.status)
unfolding lookup
attack_effect_example =
    attack_effect (pos 1) (pos 2) one two 100 duel different refl refl refl (omega arith)
      (omega arith)

volley_lem_example :
    lookup (pos 2) (run (volley (pos 1) (pos 2) 3) duel).players
    ≡ (if ltb (25 * 3) 100 then some (record two { health = pos (100 - 25 * 3) }) else none)
unfolding lookup
volley_lem_example =
    volley_lem (pos 1) (pos 2) 3 one two 100 duel different refl refl refl (omega arith)
      (omega arith)

-- Of two calls of `recordEvent` at once, the one with the later id is first in the log.
abbrev overtaken : List Call
overtaken =
    joins (pos 1) 10 11
    ∷ takes_id
    ∷ takes_id
    ∷ appends 2 (pos 2) "LEAVE" "{}" 40
    ∷ leaves (pos 1)
    ∷ appends 1 (pos 1) "ATTACK" "{}" 30
    ∷ []

recent_events-run_example :
    recent_events 1 (run overtaken (init 0)) ≡ keep_last 1 (history 1 overtaken)
recent_events-run_example = recent_events-run 0 1 overtaken (omega arith)

record_all-histogram_example :
    let m = record_all (70_000 ∷ 3_000_000 ∷ []) reset in
    (m.latency_bucket_counts ≡ histogram latency_buckets (70_000 ∷ 3_000_000 ∷ []))
    × (m.latency_count ≡ 2)
    × (m.latency_sum ≡ total (70_000 ∷ 3_000_000 ∷ []))
record_all-histogram_example = record_all-histogram (70_000 ∷ 3_000_000 ∷ []) (omega arith)
