-- ===== src/RequestHandler/Traffic.antt =====
-- What holds after any number of requests, whatever bytes they are.
use multi_player_game.Common.{
  ℕ, suc, ◌+◌, ◌%◌, ◌^◌, ◌≡◌, refl, sym, subst, inl, inr, List, [], ◌∷◌, arith, length,
}
use multi_player_game.Json.{JsonApi}
use multi_player_game.Backends.{CacheApi, DatabaseApi}
use multi_player_game.Metrics.{Metrics, reset}
use multi_player_game.GameState.Invariant.{Inv, run-Inv}
use multi_player_game.RequestHandler.World.{Clock, World}
use multi_player_game.RequestHandler.Dispatch.{handle}
use multi_player_game.RequestHandler.Atomic.{tally}
use multi_player_game.RequestHandler.Transaction.{handle_transacts}

-- After n requests: each counted once as a request, as a latency, and as a success or a failure.
abbrev Balanced : ℕ → Metrics → Type 0
Balanced n m =
    (m.requests_total ≡ n % 2 ^ 64)
    × ((m.successful_requests + m.failed_requests) % 2 ^ 64 ≡ n % 2 ^ 64)
    × (m.latency_count ≡ n % 2 ^ 64)

tally-Balanced :
    (n t s f l : ℕ) (m : Metrics)
    → tally m ≡ (t, s, f, l)
    → t ≡ n % 2 ^ 64
    → (s + f) % 2 ^ 64 ≡ n % 2 ^ 64
    → l ≡ n % 2 ^ 64
    → Balanced n m
tally-Balanced n t s f l m e a b c = ground arith

module _ (json : JsonApi) (caches : CacheApi json.Json) (databases : DatabaseApi) where
  open json use {Json}
  open caches use {Cache}
  open databases use {Database}

  abbrev Shared : Type 0
  Shared = World Cache Database

  -- The requests that a server gets, one after the other.
  unfoldable pub handle_all : List (Clock × List ℕ) → Shared → Shared
  handle_all [] w = w
  handle_all ((clock, raw_json) ∷ rs) w =
      handle_all rs (handle json caches databases clock raw_json w).1

  handle-Balanced :
      (n : ℕ) (clock : Clock) (raw : List ℕ) (w : Shared)
      → Balanced n w.metrics
      → Balanced (suc n) (handle json caches databases clock raw w).1.metrics
  handle-Balanced n clock raw w (a, b, c) =
      let (j, _, transacted) = handle_transacts json caches databases clock raw w in
      let m = (handle json caches databases clock raw w).1.metrics in
      elim transacted [
        | inl (_, t, _) ↦
            tally-Balanced (suc n) _ _ _ _ m t (omega (arith, a)) (omega (arith, b))
              (omega (arith, c))
        | inr (_, t, _) ↦
            tally-Balanced (suc n) _ _ _ _ m t (omega (arith, a)) (omega (arith, b))
              (omega (arith, c))
      ]

  handle-Inv :
      (clock : Clock) (raw : List ℕ) (w : Shared)
      → Inv w.game
      → Inv (handle json caches databases clock raw w).1.game
  handle-Inv clock raw w i =
      let (j, _, transacted) = handle_transacts json caches databases clock raw w in
      elim transacted [
        | inl (_, _, r) ↦ subst Inv r.1 (run-Inv r.0 w.game i)
        | inr (_, _, e) ↦ subst Inv (sym e) i
      ]

  handle_all-Balanced :
      (n : ℕ) (rs : List (Clock × List ℕ)) (w : Shared)
      → Balanced n w.metrics
      → Balanced (length rs + n) (handle_all rs w).metrics
  unfolding handle_all
  handle_all-Balanced n [] w b = subst (λ k. Balanced k w.metrics) (omega arith) b
  handle_all-Balanced n ((clock, raw) ∷ rs) w b =
      subst (λ k. Balanced k (handle_all ((clock, raw) ∷ rs) w).metrics) (omega arith)
        (handle_all-Balanced (suc n) rs (handle json caches databases clock raw w).1
          (handle-Balanced n clock raw w b))

  -- On a new registry, after n requests of any bytes, with the cache and the database in use or
  -- not: the requests counted are n, the successes and failures together are n, and the latencies
  -- counted are n, each modulo 2^64.
  pub traffic_counts :
      (rs : List (Clock × List ℕ)) (w : Shared)
      → w.metrics ≡ reset
      → let m = (handle_all rs w).metrics in
        (m.requests_total ≡ length rs % 2 ^ 64)
        × ((m.successful_requests + m.failed_requests) % 2 ^ 64 ≡ length rs % 2 ^ 64)
        × (m.latency_count ≡ length rs % 2 ^ 64)
  unfolding reset
  traffic_counts rs w e =
      subst (λ k. Balanced k (handle_all rs w).metrics) (omega arith)
        (handle_all-Balanced 0 rs w (subst (Balanced 0) (sym e) (refl, refl, refl)))

  -- Whatever the requests are, the game stays well-formed.
  pub traffic-Inv :
      (rs : List (Clock × List ℕ)) (w : Shared) → Inv w.game → Inv (handle_all rs w).game
  unfolding handle_all
  traffic-Inv [] w i = i
  traffic-Inv ((clock, raw) ∷ rs) w i = traffic-Inv rs _ (handle-Inv clock raw w i)
