-- ===== src/Simulator.antt =====
-- simulator/src/Simulator.cpp and simulator/src/main.cpp: the threads of bots, and what `main` makes of
-- the summary. The signal handler sets the stop flag, which is what a bot meets in its rounds.
pub mod Settings
pub mod Totals
use multi_player_game.Common.{
  ℕ, zero, suc, String, Bool, List, [], ◌∷◌, Option, none, some, ltb, if◌then◌else◌,
}
use multi_player_game.Common.Int.{ℤ, pos, negsuc, int_add}
use multi_player_game.Json.{JsonApi}
use multi_player_game.Socket.{SocketApi}
use multi_player_game.Network.{NetworkApi}
use multi_player_game.MetricsCollector.{Call, collect, Doubles, PerformanceSummary, compute_summary}
use multi_player_game.PlayerBot.{SimulatorConfig, Script, run}

-- The rounds of `for (int i = 0; i < playerCount; ++i)`, where `threads.reserve(playerCount)` returns:
-- a negative count is more than a vector can hold, so it throws, and nothing catches that.
abbrev pub rounds_of : ℤ → Option ℕ
rounds_of (pos n) = some n
rounds_of (negsuc n) = none

module _ (json : JsonApi) (api : SocketApi) (network : NetworkApi api) where
  -- What the bots from i on call of the collector; bot i meets `scripts i`.
  unfoldable pub launch : SimulatorConfig → (ℕ → Script json api network) → ℕ → ℕ → List Call
  unfolding run
  launch config scripts i zero = []
  launch config scripts i (suc n) =
      (run json api network config (int_add config.base_player_id (pos i)) (scripts i)).0
      ∷ launch config scripts (suc i) n

  -- The calls of `Simulator::run`, in the order of the bots; `none` where it throws.
  unfoldable pub calls_of : SimulatorConfig → (ℕ → Script json api network) → Option (List Call)
  unfolding launch
  calls_of config scripts = elim (rounds_of config.player_count) [
    | none ↦ none
    | some n ↦ some (launch config scripts 0 n)
  ]

module _ (d : Doubles) where
  -- The summary, after the collector got these calls.
  unfoldable pub summary_of : d.Double → List Call → PerformanceSummary d.Double
  unfolding compute_summary collect
  summary_of duration_sec calls = compute_summary d duration_sec (collect calls [])

  -- What `main` returns.
  unfoldable pub exit_status : PerformanceSummary d.Double → ℕ
  exit_status s = if ltb 0 s.total_requests then 0 else 1

  -- The report, with a way to write a `double` as JSON.
  unfoldable pub report :
      (json : JsonApi)
      → (d.Double → json.Json)
      → SimulatorConfig
      → PerformanceSummary d.Double
      → json.Json
  report json number config s = json.object (
      ("total_requests", json.integer (pos s.total_requests))
      ∷ ("successful_requests", json.integer (pos s.successful_requests))
      ∷ ("failed_requests", json.integer (pos s.failed_requests))
      ∷ ("duration_seconds", number s.duration_seconds)
      ∷ ("requests_per_second", number s.requests_per_sec)
      ∷ ("avg_latency_ms", number s.avg_latency_ms)
      ∷ ("p50_latency_ms", number s.p50_latency_ms)
      ∷ ("p95_latency_ms", number s.p95_latency_ms)
      ∷ ("p99_latency_ms", number s.p99_latency_ms)
      ∷ ("max_latency_ms", number s.max_latency_ms)
      ∷ ("error_rate_percent", number s.error_rate_percent)
      ∷ ("player_count", json.integer config.player_count)
      ∷ [])
