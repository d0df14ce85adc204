-- ===== src/Metrics.antt =====
-- server/include/server/Metrics.h and server/src/Metrics.cpp: the metrics registry.
--
-- Latencies are whole numbers of nanoseconds, which is what the clocks give; the rounding of the
-- `double` sums is not modelled. Counters are uint64_t. Each method is one step.
pub mod Histogram
pub mod Prometheus
use multi_player_game.Common.{
  ℕ, suc, ◌+◌, ◌%◌, ◌^◌, Bool, true, false, List, [], ◌∷◌, ltb, leb, if◌then◌else◌,
}
use multi_player_game.Common.Int.{ℤ, pos, negsuc, long_add}

pub record Metrics : Type 0 where
  pub requests_total : ℕ
  pub successful_requests : ℕ
  pub failed_requests : ℕ
  pub active_players : ℤ
  pub latency_count : ℕ
  pub latency_sum : ℕ
  pub latency_bucket_counts : List ℕ
  pub redis_cache_hits : ℕ
  pub redis_cache_misses : ℕ
  pub db_operations_total : ℕ
  pub db_operations_success : ℕ
  pub db_operations_failed : ℕ
  pub db_latency_sum : ℕ

-- `fetch_add(1)` on a uint64_t.
abbrev pub add_one : ℕ → ℕ
add_one n = (n + 1) % 2 ^ 64

-- The bounds of the buckets, 0.1 ms to 1 s.
abbrev pub latency_buckets : List ℕ
latency_buckets =
    100_000 ∷ 250_000 ∷ 500_000 ∷ 1_000_000 ∷ 2_500_000 ∷ 5_000_000 ∷ 10_000_000 ∷ 25_000_000
    ∷ 50_000_000 ∷ 100_000_000 ∷ 250_000_000 ∷ 500_000_000 ∷ 1_000_000_000 ∷ []

-- One bucket for each bound, and one more.
pub no_counts : List ℕ → List ℕ
no_counts [] = 0 ∷ []
no_counts (b ∷ bs) = 0 ∷ no_counts bs

-- The constructor, which calls `reset`.
unfoldable pub reset : Metrics
unfolding no_counts
reset = record {
  requests_total = 0;
  successful_requests = 0;
  failed_requests = 0;
  active_players = pos 0;
  latency_count = 0;
  latency_sum = 0;
  latency_bucket_counts = no_counts latency_buckets;
  redis_cache_hits = 0;
  redis_cache_misses = 0;
  db_operations_total = 0;
  db_operations_success = 0;
  db_operations_failed = 0;
  db_latency_sum = 0;
}

abbrev pub increment_requests_total : Metrics → Metrics
increment_requests_total m = record m { requests_total = add_one m.requests_total }

abbrev pub increment_successful_requests : Metrics → Metrics
increment_successful_requests m = record m { successful_requests = add_one m.successful_requests }

abbrev pub increment_failed_requests : Metrics → Metrics
increment_failed_requests m = record m { failed_requests = add_one m.failed_requests }

abbrev pub set_active_players : ℤ → Metrics → Metrics
set_active_players count m = record m { active_players = count }

abbrev pub increment_active_players : Metrics → Metrics
increment_active_players m = record m { active_players = long_add m.active_players (pos 1) }

abbrev pub decrement_active_players : Metrics → Metrics
decrement_active_players m = record m { active_players = long_add m.active_players (negsuc 0) }

-- A latency counts in every bucket whose bound it does not pass, and in the last one.
unfoldable pub bump_buckets : ℕ → List ℕ → List ℕ → List ℕ
bump_buckets t [] [] = []
bump_buckets t [] (c ∷ cs) = add_one c ∷ cs
bump_buckets t (b ∷ bs) [] = []
bump_buckets t (b ∷ bs) (c ∷ cs) = (if leb t b then add_one c else c) ∷ bump_buckets t bs cs

unfoldable pub record_request_latency : ℕ → Metrics → Metrics
unfolding bump_buckets
record_request_latency t m = record m {
  latency_count = add_one m.latency_count;
  latency_sum = m.latency_sum + t;
  latency_bucket_counts = bump_buckets t latency_buckets m.latency_bucket_counts;
}

abbrev pub increment_redis_cache_hits : Metrics → Metrics
increment_redis_cache_hits m = record m { redis_cache_hits = add_one m.redis_cache_hits }

abbrev pub increment_redis_cache_misses : Metrics → Metrics
increment_redis_cache_misses m = record m { redis_cache_misses = add_one m.redis_cache_misses }

unfoldable pub record_database_operation : ℕ → Bool → Metrics → Metrics
record_database_operation t success m = record m {
  db_operations_total = add_one m.db_operations_total;
  db_operations_success =
      if success then add_one m.db_operations_success else m.db_operations_success;
  db_operations_failed = if success then m.db_operations_failed else add_one m.db_operations_failed;
  db_latency_sum = m.db_latency_sum + t;
}
