-- ===== src/PlayerBot/Plan.antt =====
-- A bot's requests from JOIN to LEAVE, and what a list of requests leaves of a bot, whatever its socket
-- does.
use multi_player_game.Common.{
  ℕ, ◌≡◌, refl, sym, ◌∙◌, ◌⊎◌, inl, inr, String, false, List, [], ◌∷◌, ◌++◌, append_assoc,
  append-nil, Option, none, some, if◌then◌else◌, arith,
}
use multi_player_game.Common.Int.{ℤ, ltb_ℤ}
use multi_player_game.Json.{JsonApi}
use multi_player_game.Socket.{SocketApi}
use multi_player_game.Network.{NetworkApi}
use multi_player_game.MetricsCollector.{RequestMetric}
use multi_player_game.PlayerBot.{
  SimulatorConfig, Bot, Tick, exchange, measure, join_request, leave_request, choose,
  after_exchange, send_and_receive, action_loop, Script, play,
}

-- A request: its action, its bytes and its latency.
abbrev pub Request : Type 0
Request = (String × List ℕ) × ℕ

-- The rounds that the loop makes.
pub rounds : SimulatorConfig → List Tick → List Tick
rounds config [] = []
rounds config (tick ∷ ticks) =
    let rest = rounds config ticks in
    if tick.stop then [] else if ltb_ℤ tick.elapsed config.duration_seconds then tick ∷ rest else []

-- A measurement of a request: its action, with its latency, or with 0 for a failure.
abbrev pub Measures : Request → RequestMetric → Type 0
Measures ((action, _), latency) m =
    (m.action ≡ action)
    × ((m.latency_micros ≡ latency) ⊎ ((m.latency_micros ≡ 0) × (m.success ≡ false)))

-- One measurement for each request, in order.
abbrev pub MeasureAll : List Request → List RequestMetric → Type 0
MeasureAll [] [] = Unit {0}
MeasureAll (r ∷ rs) (m ∷ ms) = Measures r m × MeasureAll rs ms
MeasureAll _ _ = ⊥

module _ (json : JsonApi) where
  abbrev acts : SimulatorConfig → ℤ → List Tick → List Request
  acts config player_id [] = []
  acts config player_id (tick ∷ ticks) =
      (choose json config player_id tick, tick.latency) ∷ acts config player_id ticks

  pub measure-Measures :
      (r : Request) (response : Option (List ℕ)) → Measures r (measure json r.0.0 r.1 response)
  unfolding measure
  measure-Measures r none = (refl, inr (refl, refl))
  measure-Measures r (some bytes) = (refl, inl refl)

  module _ (api : SocketApi) (network : NetworkApi api) where
    open api use {Socket}
    open network use {Net}

    -- All requests of a bot that gets a connection.
    unfoldable pub plan : SimulatorConfig → ℤ → Script json api network → List Request
    unfolding rounds join_request leave_request choose
    plan config player_id script =
        (join_request json player_id, script.join_latency)
        ∷ (acts config player_id (rounds config script.ticks)
            ++ (leave_request json player_id, script.leave_latency) ∷ [])

    unfoldable pub send_all : List Request → Bot Socket Net → Bot Socket Net
    unfolding send_and_receive
    send_all [] b = b
    send_all ((r, latency) ∷ rs) b = send_all rs (send_and_receive json api network r latency b)

    loop-send_all :
        (config : SimulatorConfig) (player_id : ℤ) (ticks : List Tick) (b : Bot Socket Net)
        (after : List Request)
        → send_all after (action_loop json api network config player_id ticks b)
          ≡ send_all (acts config player_id (rounds config ticks) ++ after) b
    unfolding action_loop rounds send_all
    loop-send_all config player_id [] b after = refl
    loop-send_all config player_id (tick ∷ ticks) b after = ground (
      arith,
      loop-send_all config player_id ticks
          (send_and_receive json api network (choose json config player_id tick) tick.latency b)
          after,
    )

    pub play-send_all :
        (config : SimulatorConfig) (player_id : ℤ) (script : Script json api network)
        (b : Bot Socket Net)
        → play json api network config player_id script b
          ≡ send_all (plan config player_id script) b
    unfolding play plan send_all
    play-send_all config player_id script b =
        loop-send_all config player_id script.ticks
          (send_and_receive json api network (join_request json player_id) script.join_latency b)
          ((leave_request json player_id, script.leave_latency) ∷ [])

    -- A bot with the same network that is still connected, and has measured these requests.
    abbrev pub Measured : List Request → Bot Socket Net → Bot Socket Net → Type 0
    Measured rs b b' =
        (s' : Socket) × (b'.socket_fd ≡ some s')
        × (b'.net ≡ b.net)
        × ((ms : List RequestMetric) × (b'.local_metrics ≡ b.local_metrics ++ ms)
            × MeasureAll rs ms)

    pub send_all-Measured :
        (rs : List Request) (b : Bot Socket Net) (s : Socket)
        → b.socket_fd ≡ some s
        → Measured rs b (send_all rs b)
    unfolding send_all send_and_receive after_exchange
    send_all-Measured [] b s e = (s, e, refl, ([], sym (append-nil b.local_metrics), tt))
    send_all-Measured ((r, latency) ∷ rs) b s e =
        let (response, t) = exchange api s r.1 in
        let m = measure json r.0 latency response in
        let b' = after_exchange json api network r.0 latency b (exchange api s r.1) in
        let (u, fd, n, (ms, all, each)) = send_all-Measured rs b' t refl in
        rw (e, send_and_receive)
          (
            u,
            fd,
            n,
            (
              m ∷ ms,
              all ∙ append_assoc b.local_metrics (m ∷ []) ms,
              (measure-Measures (r, latency) response, each),
            ),
          )
