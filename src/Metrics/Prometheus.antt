-- ===== src/Metrics/Prometheus.antt =====
-- `MetricsRegistry::toPrometheusText` of server/src/Metrics.cpp.
use Prim.Native.String.{String}
use multi_player_game.Common.{ℕ, List, [], ◌∷◌}
use multi_player_game.Common.Text.{◌<>◌, to_string, nat_to_string}
use multi_player_game.Metrics.{Metrics, latency_buckets}

-- The comments and the sample of a metric with one value.
abbrev sample : String → String → String → String → String
sample name help kind value =
    "# HELP " <> name <> " " <> help <> "\n# TYPE " <> name <> " " <> kind <> "\n" <> name <> " "
    <> value <> "\n\n"

abbrev pub latency_name : String
latency_name = "game_server_request_latency_seconds"

-- `fixed digits t`: t nanoseconds as seconds, with so many digits after the point.
module _ (fixed : ℕ → ℕ → String) where
  back : List ℕ → String
  back [] = ""
  back (c ∷ []) = nat_to_string c
  back (c ∷ d ∷ cs) = back (d ∷ cs)

  -- The loop over the bounds, and the last bucket.
  pub bucket_lines : List ℕ → List ℕ → String
  bucket_lines [] cs = latency_name <> "_bucket{le=\"+Inf\"} " <> back cs <> "\n"
  bucket_lines (b ∷ bs) [] = ""
  bucket_lines (b ∷ bs) (c ∷ cs) =
      let rest = bucket_lines bs cs in
      latency_name <> "_bucket{le=\"" <> fixed 5 b <> "\"} " <> nat_to_string c <> "\n" <> rest

  unfoldable pub latency_text : Metrics → String
  latency_text m =
      "# HELP "
      <> latency_name
      <> " Request processing turnaround latency\n"
      <> "# TYPE "
      <> latency_name
      <> " histogram\n"
      <> bucket_lines latency_buckets m.latency_bucket_counts
      <> latency_name
      <> "_sum "
      <> fixed 6 m.latency_sum
      <> "\n"
      <> latency_name
      <> "_count "
      <> nat_to_string m.latency_count
      <> "\n\n"

  unfoldable pub to_prometheus_text : Metrics → String
  unfolding latency_text
  to_prometheus_text m =
      sample "game_server_active_players" "Number of currently connected active players" "gauge"
        (to_string m.active_players)
      <> sample "game_server_requests_total" "Total number of gameplay requests received" "counter"
          (nat_to_string m.requests_total)
      <> sample "game_server_successful_requests" "Total successful gameplay requests" "counter"
          (nat_to_string m.successful_requests)
      <> sample "game_server_failed_requests" "Total failed or invalid gameplay requests" "counter"
          (nat_to_string m.failed_requests)
      <> latency_text m
      <> sample "game_server_redis_cache_hits_total" "Cache hit count" "counter"
          (nat_to_string m.redis_cache_hits)
      <> sample "game_server_redis_cache_misses_total" "Cache miss count" "counter"
          (nat_to_string m.redis_cache_misses)
      <> sample "game_server_database_operations_total" "Total database queries executed" "counter"
          (nat_to_string m.db_operations_total)
