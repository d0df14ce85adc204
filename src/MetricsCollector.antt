-- ===== src/MetricsCollector.antt =====
-- simulator/src/MetricsCollector.cpp: what the bots measure, and the summary of it. A collector is
-- its `m_metrics`; each method holds the mutex from its first line to its last.
use multi_player_game.Common.{
  ℕ, ◌+◌, ◌-◌, ◌*◌, ◌/◌, ◌%◌, ◌^◌, ◌≤◌, ◌<◌, zero, suc, String, Bool, List, [], ◌∷◌, ◌++◌, length,
  leb, nat_beq, if◌then◌else◌,
}
pub mod Sorting
pub mod Summary

pub record RequestMetric : Type 0 where
  pub action : String
  pub latency_micros : ℕ
  pub success : Bool

abbrev pub Collector : Type 0
Collector = List RequestMetric

unfoldable pub record_request : String → ℕ → Bool → Collector → Collector
record_request action latency_micros success metrics =
    metrics ++ record { action = action; latency_micros = latency_micros; success = success } ∷ []

unfoldable pub record_batch : List RequestMetric → Collector → Collector
record_batch batch metrics = metrics ++ batch

-- What the bots call, in the order in which they get the mutex.
pub data Call : Type 0 where
  records : String → ℕ → Bool → Call
  batches : List RequestMetric → Call

unfoldable pub collect : List Call → Collector → Collector
unfolding record_request record_batch
collect [] metrics = metrics
collect (records action micros success ∷ calls) metrics =
    collect calls (record_request action micros success metrics)
collect (batches batch ∷ calls) metrics = collect calls (record_batch batch metrics)

-- What the code uses of `double`.
pub record Doubles : Type 1 where
  pub Double : Type 0
  -- A conversion from an unsigned integer; also 0.0, 50.0, 100.0 and the like.
  pub of_u64 : ℕ → Double
  -- A conversion to `size_t`.
  pub to_size : Double → ℕ
  pub times : Double → Double → Double
  pub over : Double → Double → Double
  pub greater : Double → Double → Bool
  -- 0.001
  pub thousandth : Double
  pub AtMost : Double → Double → Type 0

-- Rounding to the nearest keeps the order, and a share of n is at most n.
pub record IsMonotone (d : Doubles) : Type 0 where
  pub of_u64-AtMost : (m n : ℕ) → m ≤ n → d.AtMost (d.of_u64 m) (d.of_u64 n)
  pub over-AtMost :
      (x y : d.Double) (n : ℕ)
      → 0 < n
      → d.AtMost x y
      → d.AtMost (d.over x (d.of_u64 n)) (d.over y (d.of_u64 n))
  pub times-AtMost :
      (x y : d.Double) (n : ℕ)
      → d.AtMost x y
      → d.AtMost (d.times x (d.of_u64 n)) (d.times y (d.of_u64 n))
  pub share-AtMost :
      (m k n : ℕ)
      → m ≤ k
      → 0 < k
      → d.AtMost (d.times (d.over (d.of_u64 m) (d.of_u64 k)) (d.of_u64 n)) (d.of_u64 n)
  pub to_size-le :
      (x y : d.Double) (n : ℕ) → d.AtMost x y → d.AtMost y (d.of_u64 n) → d.to_size x ≤ d.to_size y

pub record PerformanceSummary (Double : Type 0) : Type 0 where
  pub total_requests : ℕ
  pub successful_requests : ℕ
  pub failed_requests : ℕ
  pub duration_seconds : Double
  pub requests_per_sec : Double
  pub avg_latency_ms : Double
  pub p50_latency_ms : Double
  pub p95_latency_ms : Double
  pub p99_latency_ms : Double
  pub max_latency_ms : Double
  pub error_rate_percent : Double

-- `std::sort` of unsigned integers: the one ascending rearrangement.
unfoldable pub insert : ℕ → List ℕ → List ℕ
insert x [] = x ∷ []
insert x (y ∷ ys) = let rest = insert x ys in if leb x y then x ∷ y ∷ ys else y ∷ rest

unfoldable pub sort : List ℕ → List ℕ
unfolding insert
sort [] = []
sort (x ∷ xs) = insert x (sort xs)

-- `latencies[i]`; no index here is past the end.
unfoldable pub latency_at : List ℕ → ℕ → ℕ
latency_at [] i = 0
latency_at (x ∷ xs) zero = x
latency_at (x ∷ xs) (suc i) = latency_at xs i

-- What the loop of computeSummary keeps, in 64 bits.
pub record Tally : Type 0 where
  pub successful : ℕ
  pub failed : ℕ
  pub total_micros : ℕ
  pub latencies : List ℕ

unfoldable pub tally_one : RequestMetric → Tally → Tally
tally_one m t = record {
  successful = if m.success then (t.successful + 1) % 2 ^ 64 else t.successful;
  failed = if m.success then t.failed else (t.failed + 1) % 2 ^ 64;
  total_micros = (t.total_micros + m.latency_micros) % 2 ^ 64;
  latencies = t.latencies ++ m.latency_micros ∷ [];
}

unfoldable pub tally : List RequestMetric → Tally → Tally
unfolding tally_one
tally [] t = t
tally (m ∷ ms) t = tally ms (tally_one m t)

abbrev pub no_tally : Tally
no_tally = record { successful = 0; failed = 0; total_micros = 0; latencies = [] }

module _ (d : Doubles) where
  open d use {Double, of_u64, to_size, times, over, greater, thousandth}

  abbrev pub ms : ℕ → Double
  ms micros = over (of_u64 micros) (of_u64 1000)

  -- The index of a percentile among n latencies.
  unfoldable pub rank : ℕ → ℕ → ℕ
  rank n pct =
      let idx = to_size (times (over (of_u64 pct) (of_u64 100)) (of_u64 n)) in
      if leb n idx then n - 1 else idx

  unfoldable pub get_percentile_ms : List ℕ → ℕ → Double
  unfolding latency_at rank
  get_percentile_ms latencies pct =
      if nat_beq (length latencies) 0
      then of_u64 0
      else ms (latency_at latencies (rank (length latencies) pct))

  -- The summary of a collector that is empty, and of one that is not.
  unfoldable pub empty_summary : Double → PerformanceSummary Double
  empty_summary duration_sec =
      let zero_ = of_u64 0 in
      record {
        total_requests = 0;
        successful_requests = 0;
        failed_requests = 0;
        duration_seconds = if greater duration_sec zero_ then duration_sec else thousandth;
        requests_per_sec = zero_;
        avg_latency_ms = zero_;
        p50_latency_ms = zero_;
        p95_latency_ms = zero_;
        p99_latency_ms = zero_;
        max_latency_ms = zero_;
        error_rate_percent = zero_;
      }

  unfoldable pub full_summary : Double → Collector → PerformanceSummary Double
  unfolding tally sort latency_at get_percentile_ms
  full_summary duration_sec metrics =
      let t = tally metrics no_tally in
      let total = length metrics in
      let latencies = sort t.latencies in
      let duration = if greater duration_sec (of_u64 0) then duration_sec else thousandth in
      record {
        total_requests = total;
        successful_requests = t.successful;
        failed_requests = t.failed;
        duration_seconds = duration;
        requests_per_sec = over (of_u64 total) duration;
        avg_latency_ms = over (over (of_u64 t.total_micros) (of_u64 total)) (of_u64 1000);
        p50_latency_ms = get_percentile_ms latencies 50;
        p95_latency_ms = get_percentile_ms latencies 95;
        p99_latency_ms = get_percentile_ms latencies 99;
        max_latency_ms = ms (latency_at latencies (length latencies - 1));
        error_rate_percent = over (times (of_u64 100) (of_u64 t.failed)) (of_u64 total);
      }

  unfoldable pub compute_summary : Double → Collector → PerformanceSummary Double
  unfolding empty_summary full_summary
  compute_summary duration_sec [] = empty_summary duration_sec
  compute_summary duration_sec (m ∷ rest) = full_summary duration_sec (m ∷ rest)
