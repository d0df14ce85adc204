-- ===== src/Examples/Benchmark.antt =====
-- A summary of five requests, in fixed point with three decimals.
use multi_player_game.Common.{ℕ, ◌*◌, ◌/◌, ◌≤◌, ◌<◌, true, false, List, [], ◌∷◌, arith, ltb}
use multi_player_game.MetricsCollector.{
  Call, records, batches, collect, Doubles, IsMonotone, compute_summary,
}
use multi_player_game.MetricsCollector.Summary.{measured, Describes, compute_summary_lem}
use native.Mathlib.Nat.{le-div_iff_mul-le, div-mul-le_self, div-le_of_le-mul, mul-le-mul_right}

abbrev pub fixed : Doubles
fixed = record {
  Double = ℕ;
  of_u64 = λ n. n * 1000;
  to_size = λ x. x / 1000;
  times = λ x y. x * y / 1000;
  over = λ x y. x * 1000 / y;
  greater = λ x y. ltb y x;
  thousandth = 1;
  AtMost = λ x y. x ≤ y;
}

div_mono : (x y k : ℕ) → 0 < k → x ≤ y → x / k ≤ y / k
div_mono x y k h le =
    let whole = div-mul-le_self x k in
    (le-div_iff_mul-le {k = k} {x = x / k} {y = y} h).1 (omega (arith, whole))

share-fixed :
    (m k n : ℕ) → m ≤ k → 0 < k → m * 1000 * 1000 / (k * 1000) * (n * 1000) / 1000 ≤ n * 1000
share-fixed m k n le h =
    let at_most_one : m * 1000 * 1000 / (k * 1000) ≤ 1000 =
      div-le_of_le-mul (k * 1000) (omega arith) in
    div-le_of_le-mul 1000 (mul-le-mul_right (n * 1000) at_most_one)

fixed-IsMonotone : IsMonotone fixed
fixed-IsMonotone = record {
  of_u64-AtMost = λ m n le. omega arith;
  over-AtMost = λ x y n h le. div_mono (x * 1000) (y * 1000) (n * 1000) (omega arith) (omega arith);
  times-AtMost = λ x y n le.
      div_mono (x * (n * 1000)) (y * (n * 1000)) 1000 (omega arith)
        (mul-le-mul_right (n * 1000) le);
  share-AtMost = share-fixed;
  to_size-le = λ x y n le top. div_mono x y 1000 (omega arith) le;
}

abbrev requests : List Call
requests =
    records "MOVE" 900 true
    ∷ records "ATTACK" 4200 false
    ∷ batches (
        record { action = "MOVE"; latency_micros = 1500; success = true }
        ∷ record { action = "JOIN"; latency_micros = 12_000; success = true }
        ∷ [])
    ∷ records "LEAVE" 700 true
    ∷ []

compute_summary_lem_example :
    Describes fixed (measured requests) (compute_summary fixed 2000 (collect requests []))
compute_summary_lem_example = compute_summary_lem fixed fixed-IsMonotone 2000 requests (omega arith)
