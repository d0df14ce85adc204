-- ===== src/RequestHandler/Transaction.antt =====
-- Each request is counted once, and changes the game or is refused; and what follows for all the
-- requests that a server gets.
use multi_player_game.Common.{
  ℕ, ◌≡◌, refl, ap, ◌⊎◌, inl, inr, String, Bool, true, false, List, [], ◌∷◌, Option, none, some,
  string_eq, if◌then◌else◌, Option-cases,
}
use multi_player_game.Common.Dict.{lookup}
use multi_player_game.Json.{JsonApi}
use multi_player_game.Backends.{CacheApi, DatabaseApi}
use multi_player_game.Metrics.{Metrics, add_one, record_request_latency, increment_requests_total}
use multi_player_game.RequestHandler.Monad.{Reply, reply, refuse, throws}
use multi_player_game.RequestHandler.World.{Clock, World, error_response}
use multi_player_game.RequestHandler.Dispatch.{
  counting, is_ok, respond, finish, reject, respond_to, handle,
}
use multi_player_game.RequestHandler.Atomic.{tally, Sound, Reaches}
use multi_player_game.RequestHandler.Soundness.{perform-IsAtomic}

abbrev count_success : ℕ × ℕ × ℕ × ℕ → ℕ × ℕ × ℕ × ℕ
count_success (t, s, f, l) = (t, add_one s, f, l)

abbrev count_failure : ℕ × ℕ × ℕ × ℕ → ℕ × ℕ × ℕ × ℕ
count_failure (t, s, f, l) = (t, s, add_one f, l)

abbrev count_latency : ℕ × ℕ × ℕ × ℕ → ℕ × ℕ × ℕ × ℕ
count_latency (t, s, f, l) = (t, s, f, add_one l)

module _ (json : JsonApi) (caches : CacheApi json.Json) (databases : DatabaseApi) where
  open json use {Json}
  open caches use {Cache}
  open databases use {Database}

  abbrev Shared : Type 0
  Shared = World Cache Database

  -- The request counted with a success or a failure, and n latencies counted.
  abbrev pub Counted : Bool → ℕ → Metrics → Metrics → Type 0
  Counted b n m m' = tally m' ≡ (
    add_one m.requests_total,
    (if b then add_one m.successful_requests else m.successful_requests),
    (if b then m.failed_requests else add_one m.failed_requests),
    n,
  )

  -- An "ok", with calls of the game's methods, or an error, with the game left as it was.
  abbrev pub Transacted : ℕ → Json → Shared → Shared → Type 0
  Transacted n j w w' =
      ((is_ok json caches databases j ≡ true)
        × Counted true n w.metrics w'.metrics
        × Reaches w.game w'.game)
      ⊎ ((is_ok json caches databases j ≡ false)
          × Counted false n w.metrics w'.metrics
          × (w'.game ≡ w.game))

  error_not_ok :
      (message : String) → is_ok json caches databases (error_response json message) ≡ false
  unfolding is_ok lookup error_response
  error_not_ok message = rw (
    is_ok,
    error_response,
    json.get-object "status"
        (("status", json.string "error") ∷ ("message", json.string message) ∷ []),
    json.as_string-string "error",
  )

  reject_lem :
      (message : String) (w : Shared)
      → let (j, w') = reject json caches databases message w in
        Transacted w.metrics.latency_count j w w'
  unfolding reject counting
  reject_lem message w = inr (error_not_ok message, refl, refl)

  finish_lem :
      (w : Shared) (r : Reply Json × Shared)
      → Sound json caches databases (counting increment_requests_total w) r
      → let (j, w') = finish json caches databases r in Transacted w.metrics.latency_count j w w'
  unfolding finish counting respond
  finish_lem w (reply j, v) (o, t, r) = inl (o, rw o (ap count_success t), r)
  finish_lem w (refuse x, v) (t, e) =
      inr (error_not_ok x, rw (error_not_ok x) (ap count_failure t), e)
  finish_lem w (throws, v) (t, e) =
      let failed = error_not_ok "internal server error" in
      inr (failed, rw failed (ap count_failure t), e)

  respond_to_lem :
      (clock : Clock) (request : Option Json) (w : Shared)
      → let (j, w') = respond_to json caches databases clock request w in
        Transacted w.metrics.latency_count j w w'
  unfolding respond_to counting
  respond_to_lem clock none w = reject_lem "invalid JSON" w
  respond_to_lem clock (some request) w = elim (Option-cases (json.get "action" request)) [
    | inl missing ↦ rw (missing, respond_to) (reject_lem "missing action" w)
    | inr (v, e) ↦ elim (Option-cases (json.as_string v)) [
      | inl other ↦ rw (e, other, respond_to) (reject_lem "missing action" w)
      | inr (action, is) ↦
          rw (e, is, respond_to)
            (finish_lem w _ (
              (perform-IsAtomic json caches databases clock action request).sound
                (counting increment_requests_total w)))
    ]
  ]

  latency_lem :
      (t : ℕ) (j : Json) (w v : Shared)
      → Transacted w.metrics.latency_count j w v
      → Transacted (add_one w.metrics.latency_count) j w (counting (record_request_latency t) v)
  unfolding counting record_request_latency
  latency_lem t j w v (inl (o, c, r)) = inl (o, ap count_latency c, r)
  latency_lem t j w v (inr (o, c, e)) = inr (o, ap count_latency c, e)

  -- Whatever bytes come: they are answered by the dump of one response. If its status is "ok", the
  -- request counts as a success and the game after it comes about by calls of GameState's methods;
  -- if not, it counts as a failure and the game is as before. Either way the request and its
  -- latency count once.
  pub handle_transacts :
      (clock : Clock) (raw_json : List ℕ) (w : Shared)
      → let (bytes, w') = handle json caches databases clock raw_json w in
        (j : Json) × (bytes ≡ json.dump j) × Transacted (add_one w.metrics.latency_count) j w w'
  unfolding handle
  handle_transacts clock raw_json w =
      let request = json.parse raw_json in
      let (j, v) = respond_to json caches databases clock request w in
      (j, refl, latency_lem clock.latency j w v (respond_to_lem clock request w))
