-- ===== src/PlayerBot/Truth.antt =====
-- What a bot measures of the game server, against what the server counts.
use multi_player_game.Common.{
  ℕ, suc, ◌+◌, ◌%◌, ◌^◌, ◌≡◌, sym, ap, subst, ◌∙◌, inl, inr, String, Bool, true, false, List, [],
  ◌∷◌, ◌++◌, some, arith, length, string_eq, if◌then◌else◌,
}
use multi_player_game.Common.Int.{ℤ}
use multi_player_game.Json.{JsonApi}
use multi_player_game.Backends.{CacheApi, DatabaseApi}
use multi_player_game.Socket.{SocketApi, IsReliable}
use multi_player_game.Network.{NetworkApi}
use multi_player_game.Metrics.{Metrics, add_one}
use multi_player_game.MetricsCollector.Summary.{successes}
use multi_player_game.RequestHandler.World.{Clock, World}
use multi_player_game.RequestHandler.Dispatch.{handle, is_ok}
use multi_player_game.RequestHandler.Transaction.{Counted, handle_transacts}
use multi_player_game.Server.{State, session_loop}
use multi_player_game.Server.Exchange.{IsSmall, replies, world_after}
use multi_player_game.PlayerBot.{SimulatorConfig, Bot, Script, status_ok, measure, play}
use multi_player_game.PlayerBot.Plan.{Request, MeasureAll, measure-Measures, plan, play-send_all}
use multi_player_game.PlayerBot.Conversation.{payloads, results, Wired, talk}

-- What json::parse makes of a dump has the status of what was dumped.
pub record KeepsStatus (json : JsonApi) : Type 0 where
  pub status-dump :
      (j : json.Json) → status_ok json (json.parse (json.dump j)) ≡ status_ok json (some j)

module _ (json : JsonApi) (caches : CacheApi json.Json) (databases : DatabaseApi)
    (keeps : KeepsStatus json) (clocks : ℕ → Clock) where
  open json use {Json}
  open caches use {Cache}
  open databases use {Database}

  -- The world, and how many requests have been handled: each has clock readings of its own.
  abbrev pub Served : Type 0
  Served = ℕ × World Cache Database

  abbrev pub served : List ℕ → ℕ → Served → List ℕ × Served
  served raw conn_id (n, w) =
      let (bytes, w') = handle json caches databases (clocks n) raw w in (bytes, (suc n, w'))

  status-is_ok : (j : Json) → status_ok json (some j) ≡ is_ok json caches databases j
  unfolding status_ok is_ok
  status-is_ok j = ground arith

  -- The metrics between one moment and another, in which k of n requests succeeded.
  abbrev pub Counts : ℕ → ℕ → Metrics → Metrics → Type 0
  Counts k n m m' =
      (m'.requests_total % 2 ^ 64 ≡ (m.requests_total + n) % 2 ^ 64)
      × (m'.successful_requests % 2 ^ 64 ≡ (m.successful_requests + k) % 2 ^ 64)
      × ((m'.failed_requests + k) % 2 ^ 64 ≡ (m.failed_requests + n) % 2 ^ 64)

  Counted-Counts :
      (b : Bool) (n : ℕ) (m m' : Metrics)
      → Counted json caches databases b n m m'
      → Counts (if b then 1 else 0) 1 m m'
  Counted-Counts true n m m' e = ground arith
  Counted-Counts false n m m' e = ground arith

  Counts-trans :
      (k n k' n' : ℕ) (m m' m'' : Metrics)
      → Counts k n m m'
      → Counts k' n' m' m''
      → Counts (k + k') (n + n') m m''
  Counts-trans k n k' n' m m' m'' (a, b, c) (a', b', c') = (omega arith, omega arith, omega arith)

  served-Counts :
      (action : String) (latency : ℕ) (raw : List ℕ) (c n : ℕ) (w : World Cache Database)
      → let (bytes, (n', w')) = served raw c (n, w) in
        Counts
          (if (measure json action latency (some bytes)).success then 1 else 0)
          1
          w.metrics
          w'.metrics
  unfolding measure
  served-Counts action latency raw c n w =
      let (bytes, w') = handle json caches databases (clocks n) raw w in
      let (j, e, transacted) = handle_transacts json caches databases (clocks n) raw w in
      let seen : status_ok json (json.parse bytes) ≡ is_ok json caches databases j =
        ap (λ x. status_ok json (json.parse x)) e ∙ keeps.status-dump j ∙ status-is_ok j in
      elim transacted [
        | inl (ok, t, _) ↦
            rw (seen, ok)
              (Counted-Counts true (add_one w.metrics.latency_count) w.metrics w'.metrics t)
        | inr (ok, t, _) ↦
            rw (seen, ok)
              (Counted-Counts false (add_one w.metrics.latency_count) w.metrics w'.metrics t)
      ]

  results-Counts :
      (rs : List Request) (c n : ℕ) (w : World Cache Database)
      → Counts
          (successes (results json served c rs (n, w)))
          (length rs)
          w.metrics
          (world_after served c (payloads rs) (n, w)).1.metrics
  unfolding results successes world_after
  results-Counts [] c n w = (omega arith, omega arith, omega arith)
  results-Counts (((action, p), latency) ∷ rs) c n w =
      let (bytes, (n', w')) = served p c (n, w) in
      let m = measure json action latency (some bytes) in
      let rest = results json served c rs (n', w') in
      let last = (world_after served c (payloads rs) (n', w')).1 in
      let sum : (if m.success then 1 else 0) + successes rest ≡ successes (m ∷ rest) =
        ground arith in
      let both =
        Counts-trans (if m.success then 1 else 0) 1 (successes rest) (length rs) w.metrics
          w'.metrics last.metrics (served-Counts action latency p c n w)
          (results-Counts rs c n' w') in
      let (x, y, z) = both in (omega (arith, x), omega (arith, y, sum), omega (arith, z, sum))

  results-MeasureAll :
      (rs : List Request) (c : ℕ) (w : Served) → MeasureAll rs (results json served c rs w)
  unfolding results
  results-MeasureAll [] c w = tt
  results-MeasureAll (((action, p), latency) ∷ rs) c w = (
    measure-Measures json ((action, p), latency) (some (served p c w).0),
    results-MeasureAll rs c (served p c w).1,
  )

  module _ (api : SocketApi) (rel : IsReliable api) (network : NetworkApi api) where
    open api use {Socket}
    open network use {Net}

    -- A bot at one end of a connection that does not break and a session at the other, requests and
    -- answers of at most 1 MiB, and on each wire what the other end has sent: from JOIN to LEAVE, the
    -- bot measures one answer for each of its requests, in order. The server counts as many requests,
    -- as many successes as the bot has measured, and the others as failures, each modulo 2^64. A fresh
    -- clock is read for each request.
    pub play-Counts :
        (fuel c : ℕ) (config : SimulatorConfig) (player_id : ℤ) (script : Script json api network)
        (b : Bot Socket Net) (st end : State Socket Served) (s s' : Socket)
        → b.socket_fd ≡ some s
        → (play json api network config player_id script b).socket_fd ≡ some s'
        → IsSmall (payloads (plan json api network config player_id script))
        → IsSmall
            (replies served c (payloads (plan json api network config player_id script)) st.world)
        → session_loop api served fuel c st ≡ some end
        → Wired json api rel network served s s' st.socket end.socket
        → let rs = plan json api network config player_id script in
          let ms = results json served c rs st.world in
          ((play json api network config player_id script b).local_metrics ≡ b.local_metrics ++ ms)
          × MeasureAll rs ms
          × Counts (successes ms) (length rs) st.world.1.metrics end.world.1.metrics
    play-Counts fuel c config player_id script b st end s s' fd fd' small small' e wires =
        let rs = plan json api network config player_id script in
        let whole = play-send_all json api network config player_id script b in
        let (ms, world, _) =
          talk json api rel network served fuel c rs b st end small small' s s' fd
            (ap (λ x. x.socket_fd) (sym whole) ∙ fd') e wires in
        (
          ap (λ x. x.local_metrics) whole ∙ ms,
          results-MeasureAll rs c st.world,
          subst
              (λ w.
                Counts (successes (results json served c rs st.world)) (length rs)
                  st.world.1.metrics w.1.metrics)
              (sym world) (results-Counts rs c st.world.0 st.world.1),
        )
