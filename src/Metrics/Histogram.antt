-- ===== src/Metrics/Histogram.antt =====
-- The latency histogram is the cumulative one that Prometheus expects.
use multi_player_game.Common.{
  ℕ, suc, ◌+◌, ◌^◌, ◌≤◌, ◌<◌, ◌≡◌, refl, List, [], ◌∷◌, leb, if◌then◌else◌, arith, length,
}
use multi_player_game.Metrics.{
  Metrics, latency_buckets, reset, bump_buckets, record_request_latency,
}

-- How many of the latencies are at most b.
pub count_le : ℕ → List ℕ → ℕ
count_le b [] = 0
count_le b (t ∷ ts) = if leb t b then suc (count_le b ts) else count_le b ts

-- The specification: for each bound the latencies up to it, and at the end all of them.
pub histogram : List ℕ → List ℕ → List ℕ
histogram [] ts = length ts ∷ []
histogram (b ∷ bs) ts = count_le b ts ∷ histogram bs ts

pub total : List ℕ → ℕ
total [] = 0
total (t ∷ ts) = total ts + t

total_cons : (t : ℕ) (ts : List ℕ) → total (t ∷ ts) ≡ total ts + t
unfolding total
total_cons t ts = refl

pub record_all : List ℕ → Metrics → Metrics
record_all [] m = m
record_all (t ∷ ts) m = record_request_latency t (record_all ts m)

count_le-le : (b : ℕ) (ts : List ℕ) → count_le b ts ≤ length ts
unfolding count_le
count_le-le b [] = omega arith
count_le-le b (t ∷ ts) = ground (arith, count_le-le b ts)

bump_histogram :
    (bs : List ℕ) (t : ℕ) (ts : List ℕ)
    → length ts + 1 < 2 ^ 64
    → bump_buckets t bs (histogram bs ts) ≡ histogram bs (t ∷ ts)
unfolding bump_buckets histogram count_le
bump_histogram [] t ts h = ground arith
bump_histogram (b ∷ bs) t ts h = ground (arith, bump_histogram bs t ts, count_le-le b ts)

-- After any latencies, fewer than 2^64 - 1, each bucket counts those that are at most its bound,
-- the last bucket and the count are the number of them, and the sum is theirs.
pub record_all-histogram :
    (ts : List ℕ)
    → length ts + 1 < 2 ^ 64
    → let m = record_all ts reset in
      (m.latency_bucket_counts ≡ histogram latency_buckets ts)
      × (m.latency_count ≡ length ts)
      × (m.latency_sum ≡ total ts)
unfolding record_all record_request_latency reset
record_all-histogram [] h = (unfold histogram count_le in refl, refl, unfold total in refl)
record_all-histogram (t ∷ ts) h =
    let (buckets, count, sum) = record_all-histogram ts (omega arith) in
    (
      rw buckets (bump_histogram latency_buckets t ts (omega arith)),
      omega (arith, count),
      omega (arith, sum, total_cons t ts),
    )
