-- ===== src/MetricsCollector/Summary.antt =====
-- The summary of simulator/src/MetricsCollector.cpp: its counts, its percentiles and its maximum.
use multi_player_game.Common.{
  ℕ, suc, ◌+◌, ◌-◌, ◌^◌, ◌≤◌, ◌<◌, ◌≡◌, refl, sym, ap, ◌∙◌, List, [], ◌∷◌, ◌++◌, length,
  append_assoc, append-nil, nat_beq, false, arith, if◌then◌else◌,
}
use multi_player_game.MetricsCollector.Sorting.{
  Below, IsAscending, sort-IsAscending, length-sort, Below-sort, latency_at_mono, back-Below,
}
use multi_player_game.MetricsCollector.{
  RequestMetric, Collector, Call, records, batches, collect, record_request, record_batch, Doubles,
  IsMonotone, sort, latency_at, Tally, tally_one, tally, no_tally, ms, rank, get_percentile_ms,
  PerformanceSummary, compute_summary, full_summary, empty_summary,
}

-- What the calls measure, in order.
abbrev pub measured : List Call → List RequestMetric
measured [] = []
measured (records action micros success ∷ calls) =
    record { action = action; latency_micros = micros; success = success } ∷ measured calls
measured (batches batch ∷ calls) = batch ++ measured calls

pub collect-measured :
    (calls : List Call) (metrics : Collector) → collect calls metrics ≡ metrics ++ measured calls
unfolding collect record_request record_batch
collect-measured [] metrics = sym (append-nil metrics)
collect-measured (records action micros success ∷ calls) metrics =
    let one : RequestMetric = record {
      action = action;
      latency_micros = micros;
      success = success;
    } in
    collect-measured calls (metrics ++ one ∷ []) ∙ append_assoc metrics (one ∷ []) (measured calls)
collect-measured (batches batch ∷ calls) metrics =
    collect-measured calls (metrics ++ batch) ∙ append_assoc metrics batch (measured calls)

-- How many of the requests succeeded.
unfoldable pub successes : List RequestMetric → ℕ
successes [] = 0
successes (m ∷ rest) = if m.success then suc (successes rest) else successes rest

abbrev latencies_of : List RequestMetric → List ℕ
latencies_of [] = []
latencies_of (m ∷ rest) = m.latency_micros ∷ latencies_of rest

tally_lem :
    (metrics : List RequestMetric) (t : Tally)
    → t.successful + t.failed + length metrics < 2 ^ 64
    → let end = tally metrics t in
      (end.successful ≡ t.successful + successes metrics)
      × (end.successful + end.failed ≡ t.successful + t.failed + length metrics)
      × (end.latencies ≡ t.latencies ++ latencies_of metrics)
unfolding tally tally_one successes
tally_lem [] t h = (omega arith, omega arith, sym (append-nil t.latencies))
tally_lem (m ∷ rest) t h =
    let (good, all, same) = tally_lem rest (tally_one m t) (ground arith) in
    (
      ground (arith, good),
      ground (arith, all),
      same ∙ append_assoc t.latencies (m.latency_micros ∷ []) (latencies_of rest),
    )

length-latencies_of :
    (metrics : List RequestMetric) → length (latencies_of metrics) ≡ length metrics
length-latencies_of [] = refl
length-latencies_of (m ∷ rest) = ap suc (length-latencies_of rest)

module _ (d : Doubles) where
  -- Every latency is at most this many milliseconds.
  abbrev pub AllAtMost : d.Double → List RequestMetric → Type 0
  AllAtMost top [] = Unit {0}
  AllAtMost top (m ∷ rest) = d.AtMost (ms d m.latency_micros) top × AllAtMost top rest

  -- What a summary says of the requests it is made of.
  abbrev pub Describes : List RequestMetric → PerformanceSummary d.Double → Type 0
  Describes metrics s =
      (s.total_requests ≡ length metrics)
      × (s.successful_requests ≡ successes metrics)
      × (s.successful_requests + s.failed_requests ≡ length metrics)
      × d.AtMost s.p50_latency_ms s.p95_latency_ms
      × d.AtMost s.p95_latency_ms s.p99_latency_ms
      × d.AtMost s.p99_latency_ms s.max_latency_ms
      × AllAtMost s.max_latency_ms metrics

  module _ (mono : IsMonotone d) where
    ms-AtMost : (m n : ℕ) → m ≤ n → d.AtMost (ms d m) (ms d n)
    ms-AtMost m n le =
        mono.over-AtMost (d.of_u64 m) (d.of_u64 n) 1000 (omega arith) (mono.of_u64-AtMost m n le)

    rank_mono : (n p q : ℕ) → 0 < n → p ≤ q → q ≤ 100 → (rank d n p ≤ rank d n q) × (rank d n q < n)
    unfolding rank
    rank_mono n p q some_ le top =
        let share : ℕ → d.Double = λ k. d.over (d.of_u64 k) (d.of_u64 100) in
        let scaled = mono.times-AtMost (share p) (share q) n (
          mono.over-AtMost (d.of_u64 p) (d.of_u64 q) 100 (omega arith)
            (mono.of_u64-AtMost p q le)) in
        let low =
          mono.to_size-le (d.times (share p) (d.of_u64 n)) (d.times (share q) (d.of_u64 n)) n scaled
            (mono.share-AtMost q 100 n top (omega arith)) in
        ground (arith, low)

    AllAtMost-Below :
        (k : ℕ) (metrics : List RequestMetric)
        → Below k (latencies_of metrics)
        → AllAtMost (ms d k) metrics
    AllAtMost-Below k [] b = tt
    AllAtMost-Below k (m ∷ rest) (b, others) =
        (ms-AtMost m.latency_micros k b, AllAtMost-Below k rest others)

    percentile_some :
        (xs : List ℕ) (p : ℕ)
        → 0 < length xs
        → get_percentile_ms d xs p ≡ ms d (latency_at xs (rank d (length xs) p))
    unfolding get_percentile_ms
    percentile_some xs p h = let some_ : nat_beq (length xs) 0 ≡ false = ground arith in rw some_

    percentiles_lem :
        (xs : List ℕ) (p q : ℕ)
        → 0 < length xs
        → IsAscending xs
        → p ≤ q
        → q ≤ 100
        → d.AtMost (get_percentile_ms d xs p) (get_percentile_ms d xs q)
          × d.AtMost (get_percentile_ms d xs q) (ms d (latency_at xs (length xs - 1)))
    percentiles_lem xs p q h up le top =
        let n = length xs in
        let (low, high) = rank_mono n p q h le top in
        rw (percentile_some xs p h, percentile_some xs q h)
          (
            ms-AtMost (latency_at xs (rank d n p)) (latency_at xs (rank d n q))
                (latency_at_mono xs (rank d n p) (rank d n q) up low high),
            ms-AtMost (latency_at xs (rank d n q)) (latency_at xs (n - 1)) (
                latency_at_mono xs (rank d n q) (n - 1) up (omega (arith, high))
                  (omega (arith, h))),
          )

    full_lem :
        (duration_sec : d.Double) (metrics : List RequestMetric)
        → 0 < length metrics
        → length metrics < 2 ^ 64
        → Describes metrics (full_summary d duration_sec metrics)
    unfolding full_summary
    full_lem duration_sec metrics h few =
        let (good, all, same) = tally_lem metrics no_tally (omega (arith, few)) in
        let xs = sort (latencies_of metrics) in
        let up = sort-IsAscending (latencies_of metrics) in
        let some_ : 0 < length xs =
          omega (arith, h, length-sort (latencies_of metrics), length-latencies_of metrics) in
        let (low, high) = percentiles_lem xs 50 95 some_ up (omega arith) (omega arith) in
        let (low', high') = percentiles_lem xs 95 99 some_ up (omega arith) (omega arith) in
        let top = latency_at xs (length xs - 1) in
        (
          refl,
          omega (arith, good),
          omega (arith, all),
          rw same low,
          rw same low',
          rw same high',
          rw same (
              AllAtMost-Below top metrics
                (Below-sort top (latencies_of metrics) (back-Below xs up))),
        )

    summary_lem :
        (duration_sec : d.Double) (metrics : List RequestMetric)
        → length metrics < 2 ^ 64
        → Describes metrics (compute_summary d duration_sec metrics)
    unfolding compute_summary empty_summary successes
    summary_lem duration_sec [] h =
        let same = mono.of_u64-AtMost 0 0 (omega arith) in
        (refl, refl, omega arith, same, same, same, tt)
    summary_lem duration_sec (m ∷ rest) h = full_lem duration_sec (m ∷ rest) (omega arith) h

    -- Where the arithmetic of `double` keeps the order, after any calls that measure fewer than 2^64
    -- requests, the summary counts them all, and those that succeeded and failed; the median is at
    -- most the 95th percentile, that at most the 99th, and that at most the maximum, which no measured
    -- latency exceeds.
    pub compute_summary_lem :
        (duration_sec : d.Double) (calls : List Call)
        → length (measured calls) < 2 ^ 64
        → Describes (measured calls) (compute_summary d duration_sec (collect calls []))
    compute_summary_lem duration_sec calls few =
        rw (collect-measured calls []) (summary_lem duration_sec (measured calls) few)
