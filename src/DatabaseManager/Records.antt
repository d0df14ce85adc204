-- ===== src/DatabaseManager/Records.antt =====
-- The rows of server/include/server/DatabaseManager.h, and the statements' texts and parameters.
use multi_player_game.Common.{ℕ, zero, suc, String, List, [], ◌∷◌}
use multi_player_game.Common.Int.{ℤ, pos, wrap_int}
use multi_player_game.Common.Text.{◌<>◌, codes}
use multi_player_game.MySql.{
  Param, long, text, double, Column, long_column, text_column, Cell, long_cell, text_cell,
  null_cell,
}

pub record PlayerDbRecord : Type 0 where
  pub player_id : ℤ
  pub username : String
  pub score : ℤ
  pub high_score : ℤ
  pub kills : ℤ
  pub created_at : String
  pub updated_at : String

pub record TestRunDbRecord (Double : Type 0) : Type 0 where
  pub run_id : String
  pub test_name : String
  pub concurrent_users : ℤ
  pub duration_seconds : ℤ
  pub total_requests : ℤ
  pub successful_requests : ℤ
  pub failed_requests : ℤ
  pub requests_per_second : Double
  pub avg_latency_ms : Double
  pub p50_latency_ms : Double
  pub p95_latency_ms : Double
  pub p99_latency_ms : Double
  pub max_latency_ms : Double
  pub error_rate_percent : Double

abbrev pub upsert_player_sql : List ℕ
upsert_player_sql = codes (
    "\n        INSERT INTO players (player_id, username, score, high_score, kills, updated_at)\n"
    <> "        VALUES (?, ?, ?, ?, ?, NOW())\n" <> "        ON DUPLICATE KEY UPDATE\n"
    <> "            score = VALUES(score),\n"
    <> "            high_score = GREATEST(high_score, VALUES(score)),\n"
    <> "            kills = GREATEST(kills, VALUES(kills)),\n"
    <> "            updated_at = NOW();\n    ")

abbrev pub get_player_sql : List ℕ
get_player_sql = codes (
    "SELECT player_id, username, score, high_score, kills, created_at, updated_at"
    <> " FROM players WHERE player_id = ?;")

abbrev pub record_event_sql : List ℕ
record_event_sql = codes (
    "INSERT INTO game_events (match_id, player_id, event_type, event_data, created_at)"
    <> " VALUES (?, ?, ?, ?, NOW());")

abbrev pub save_match_sql : List ℕ
save_match_sql = codes (
    "\n        INSERT INTO matches (match_id, match_status, end_time, total_players, total_kills, "
    <> "winner_player_id)\n" <> "        VALUES (?, ?, NOW(), ?, ?, ?)\n"
    <> "        ON DUPLICATE KEY UPDATE\n" <> "            match_status = VALUES(match_status),\n"
    <> "            end_time = NOW(),\n" <> "            total_players = VALUES(total_players),\n"
    <> "            total_kills = VALUES(total_kills),\n"
    <> "            winner_player_id = VALUES(winner_player_id);\n    ")

abbrev pub save_test_run_sql : List ℕ
save_test_run_sql = codes (
    "\n        INSERT INTO test_runs (\n"
    <> "            run_id, test_name, concurrent_users, duration_seconds,\n"
    <> "            total_requests, successful_requests, failed_requests,\n"
    <> "            requests_per_second, avg_latency_ms, p50_latency_ms,\n"
    <> "            p95_latency_ms, p99_latency_ms, max_latency_ms, error_rate_percent\n"
    <> "        ) VALUES (?, ?, ?, ?, ?, ?, ?, ?, ?, ?, ?, ?, ?, ?);\n    ")

abbrev pub player_count_sql : List ℕ
player_count_sql = codes "SELECT COUNT(*) FROM players;"

abbrev pub event_count_sql : List ℕ
event_count_sql = codes "SELECT COUNT(*) FROM game_events;"

module _ {Double : Type 0} where
  unfoldable pub upsert_player_params : ℤ → String → ℤ → ℤ → List (Param Double)
  upsert_player_params player_id username score kills =
      long player_id ∷ text username ∷ long score ∷ long score ∷ long kills ∷ []

  unfoldable pub get_player_params : ℤ → List (Param Double)
  get_player_params player_id = long player_id ∷ []

  unfoldable pub record_event_params : String → ℤ → String → String → List (Param Double)
  record_event_params match_id player_id event_type event_data =
      text match_id ∷ long player_id ∷ text event_type ∷ text event_data ∷ []

  unfoldable pub save_match_params : String → String → ℤ → ℤ → ℤ → List (Param Double)
  save_match_params match_id status total_players total_kills winner_player_id =
      text match_id
      ∷ text status
      ∷ long total_players
      ∷ long total_kills
      ∷ long winner_player_id
      ∷ []

  unfoldable pub save_test_run_params : TestRunDbRecord Double → List (Param Double)
  save_test_run_params run =
      text run.run_id
      ∷ text run.test_name
      ∷ long run.concurrent_users
      ∷ long run.duration_seconds
      ∷ long run.total_requests
      ∷ long run.successful_requests
      ∷ long run.failed_requests
      ∷ double run.requests_per_second
      ∷ double run.avg_latency_ms
      ∷ double run.p50_latency_ms
      ∷ double run.p95_latency_ms
      ∷ double run.p99_latency_ms
      ∷ double run.max_latency_ms
      ∷ double run.error_rate_percent
      ∷ []

-- The buffers of `getPlayer`, one byte less than the arrays.
abbrev pub player_columns : List Column
player_columns =
    long_column
    ∷ text_column 64
    ∷ long_column
    ∷ long_column
    ∷ long_column
    ∷ text_column 63
    ∷ text_column 63
    ∷ []

-- What a buffer holds after the fetch; at first it is 0 or empty.
unfoldable pub long_at : ℕ → List Cell → ℤ
long_at n [] = pos 0
long_at zero (long_cell z ∷ cs) = wrap_int z
long_at zero (text_cell s ∷ cs) = pos 0
long_at zero (null_cell ∷ cs) = pos 0
long_at (suc n) (c ∷ cs) = long_at n cs

unfoldable pub text_at : ℕ → List Cell → String
text_at n [] = ""
text_at zero (text_cell s ∷ cs) = s
text_at zero (long_cell z ∷ cs) = ""
text_at zero (null_cell ∷ cs) = ""
text_at (suc n) (c ∷ cs) = text_at n cs

unfoldable pub player_of : List Cell → PlayerDbRecord
unfolding long_at text_at
player_of cells = record {
  player_id = long_at 0 cells;
  username = text_at 1 cells;
  score = long_at 2 cells;
  high_score = long_at 3 cells;
  kills = long_at 4 cells;
  created_at = text_at 5 cells;
  updated_at = text_at 6 cells;
}
