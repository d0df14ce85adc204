-- ===== src/Simulator/Totals.antt =====
-- What the simulator counts in all, whatever the network does and in whatever order the bots end.
use multi_player_game.Common.{
  ℕ, zero, suc, ◌+◌, ◌≤◌, ◌≡◌, refl, ap, ◌∙◌, ◌⊎◌, inl, inr, Bool, true, false, List, [], ◌∷◌, none,
  some, string_eq, arith, length, length-append, ltb, if◌then◌else◌, Bool-cases, Option-cases,
}
use mathlib.Core.List.{Perm, foldr}
use mathlib.Core.List.Perm
use multi_player_game.Common.Int.{ℤ, pos, int_add}
use multi_player_game.Common.Dict.{lookup}
use multi_player_game.Json.{JsonApi}
use multi_player_game.Socket.{SocketApi}
use multi_player_game.Network.{NetworkApi}
use multi_player_game.MetricsCollector.{
  RequestMetric, Call, records, batches, collect, Doubles, compute_summary, full_summary,
  empty_summary,
}
use multi_player_game.MetricsCollector.Summary.{measured, collect-measured}
use multi_player_game.PlayerBot.{
  SimulatorConfig, Bot, Script, dial, connect_socket, disconnect_socket, run,
}
use multi_player_game.PlayerBot.Plan.{Request, MeasureAll, plan, play-send_all, send_all-Measured}
use multi_player_game.Simulator.{launch, calls_of, summary_of, exit_status, report}

-- How many requests a call is about.
abbrev weight : Call → ℕ
weight (records action micros success) = 1
weight (batches batch) = length batch

abbrev weights : List Call → ℕ
weights = foldr (λ call n. weight call + n) 0

length-measured : (calls : List Call) → length (measured calls) ≡ weights calls
length-measured [] = refl
length-measured (records action micros success ∷ calls) = omega (arith, length-measured calls)
length-measured (batches batch ∷ calls) =
    omega (arith, length-append batch (measured calls), length-measured calls)

swap_weights : (a b : Call) (n : ℕ) → weight a + (weight b + n) ≡ weight b + (weight a + n)
swap_weights a b n = omega arith

length-MeasureAll :
    (rs : List Request) (ms : List RequestMetric) → MeasureAll rs ms → length ms ≡ length rs
length-MeasureAll [] [] h = refl
length-MeasureAll [] (m ∷ ms) h = absurd h
length-MeasureAll (r ∷ rs) [] h = absurd h
length-MeasureAll (r ∷ rs) (m ∷ ms) (_, h) = ap suc (length-MeasureAll rs ms h)

module _ (json : JsonApi) (api : SocketApi) (network : NetworkApi api) where
  open api use {Socket}
  open network use {Net}

  abbrev fresh : Net → Bot Socket Net
  fresh n = record { socket_fd = none; net = n; local_metrics = [] }

  abbrev Linked : Bool × Bot Socket Net → Type 0
  Linked (ok, b) =
      ((s : Socket) × (ok ≡ true) × (b.socket_fd ≡ some s) × (b.local_metrics ≡ [])) ⊎ (ok ≡ false)

  dial-Linked :
      (config : SimulatorConfig) (s : Socket) (n : Net)
      → Linked (dial json api network config s (fresh n))
  unfolding dial
  dial-Linked config s n =
      let (linked, s', n') = network.connect config.host (pos config.port) s n in
      elim (Bool-cases (network.is_address config.host)) [
        | inl address ↦ elim (Bool-cases linked) [
          | inl up ↦ rw (address, up) (inl (s', refl, refl, refl))
          | inr down ↦ rw (address, down) (inr refl)
        ]
        | inr other ↦ rw other (inr refl)
      ]

  connect_socket-Linked :
      (config : SimulatorConfig) (n : Net)
      → Linked (connect_socket json api network config (fresh n))
  unfolding connect_socket
  connect_socket-Linked config n = elim (Option-cases (network.socket n).0) [
    | inl e ↦ rw (e, connect_socket) (inr refl)
    | inr (s, e) ↦ rw (e, connect_socket) (dial-Linked config s (network.socket n).1)
  ]

  -- The requests of one bot: those from JOIN to LEAVE, or one failed CONNECT.
  pub requests_made : SimulatorConfig → ℤ → Script json api network → ℕ
  requests_made config player_id script =
      if (connect_socket json api network config (fresh script.start)).0
      then length (plan json api network config player_id script)
      else 1

  weight-run :
      (config : SimulatorConfig) (player_id : ℤ) (script : Script json api network)
      → weight (run json api network config player_id script).0
        ≡ requests_made config player_id script
  unfolding run disconnect_socket requests_made
  weight-run config player_id script =
      let (ok, b) = connect_socket json api network config (fresh script.start) in
      let rs = plan json api network config player_id script in
      elim (connect_socket-Linked config script.start) [
        | inl (s, linked, fd, empty) ↦
            let (u, fd', _, (ms, all, each)) = send_all-Measured json api network rs b s fd in
            rw
              (
                linked,
                run,
                play-send_all json api network config player_id script b,
                fd',
                all,
                empty,
              )
              (length-MeasureAll rs ms each)
        | inr failed ↦ rw (failed, run)
      ]

  -- The requests of n bots from the bot i on.
  pub total_made : SimulatorConfig → (ℕ → Script json api network) → ℕ → ℕ → ℕ
  total_made config scripts i zero = 0
  total_made config scripts i (suc n) =
      requests_made config (int_add config.base_player_id (pos i)) (scripts i)
      + total_made config scripts (suc i) n

  weights-launch :
      (config : SimulatorConfig) (scripts : ℕ → Script json api network) (i n : ℕ)
      → weights (launch json api network config scripts i n) ≡ total_made config scripts i n
  unfolding launch total_made
  weights-launch config scripts i zero = refl
  weights-launch config scripts i (suc n) = omega (
    arith,
    weight-run config (int_add config.base_player_id (pos i)) (scripts i),
    weights-launch config scripts (suc i) n,
  )

  made_some :
      (config : SimulatorConfig) (player_id : ℤ) (script : Script json api network)
      → 1 ≤ requests_made config player_id script
  unfolding requests_made plan
  made_some config player_id script =
      elim (Bool-cases (connect_socket json api network config (fresh script.start)).0) [
        | inl linked ↦ rw linked (omega arith)
        | inr failed ↦ rw failed (omega arith)
      ]

  total_some :
      (config : SimulatorConfig) (scripts : ℕ → Script json api network) (i n : ℕ)
      → n ≤ total_made config scripts i n
  unfolding total_made
  total_some config scripts i zero = omega arith
  total_some config scripts i (suc n) = omega (
    arith,
    made_some config (int_add config.base_player_id (pos i)) (scripts i),
    total_some config scripts (suc i) n,
  )

  module _ (d : Doubles) where
    total_of_summary :
        (duration_sec : d.Double) (metrics : List RequestMetric)
        → (compute_summary d duration_sec metrics).total_requests ≡ length metrics
    unfolding compute_summary full_summary empty_summary
    total_of_summary duration_sec [] = refl
    total_of_summary duration_sec (m ∷ metrics) = refl

    summary_total :
        (duration_sec : d.Double) (calls : List Call)
        → (summary_of d duration_sec calls).total_requests ≡ weights calls
    unfolding summary_of
    summary_total duration_sec calls =
        total_of_summary duration_sec (collect calls [])
        ∙ ap length (collect-measured calls [])
        ∙ length-measured calls

    status_lem :
        (total n : ℕ)
        → n ≤ total
        → (n ≡ 0 → total ≡ 0)
        → ◌≡◌ {A = ℕ} (if ltb 0 total then 0 else 1) (if ltb 0 n then 0 else 1)
    status_lem total zero le none_ = let e = none_ refl in ground arith
    status_lem total (suc n) le none_ = ground arith

    none_made :
        (config : SimulatorConfig) (scripts : ℕ → Script json api network) (n : ℕ)
        → n ≡ 0
        → total_made config scripts 0 n ≡ 0
    unfolding total_made
    none_made config scripts zero e = refl
    none_made config scripts (suc n) e = absurd (omega arith)

    -- With n players, n not negative: the bots are launched, and whatever they meet, and in whatever
    -- order they hand over their measurements, the total of the summary, and of the report, is the number
    -- of requests of all bots, where a bot without a connection makes one. So `main` returns 0 if there
    -- is a bot at all, and 1 if there is none, whether or not any request succeeded.
    pub simulator_totals :
        (config : SimulatorConfig) (scripts : ℕ → Script json api network) (n : ℕ)
        (calls : List Call) (duration_sec : d.Double) (number : d.Double → json.Json)
        → config.player_count ≡ pos n
        → Perm calls (launch json api network config scripts 0 n)
        → let s = summary_of d duration_sec calls in
          let total = total_made config scripts 0 n in
          (calls_of json api network config scripts
            ≡ some (launch json api network config scripts 0 n))
          × (s.total_requests ≡ total)
          × (json.get "total_requests" (report d json number config s)
              ≡ some (json.integer (pos total)))
          × (exit_status d s ≡ (if ltb 0 n then 0 else 1))
    unfolding calls_of exit_status report lookup
    simulator_totals config scripts n calls duration_sec number count p =
        let e : (summary_of d duration_sec calls).total_requests ≡ total_made config scripts 0 n =
          summary_total duration_sec calls
          ∙ Perm.foldr-eq (hlevel) (λ call k. weight call + k) swap_weights p 0
          ∙ weights-launch config scripts 0 n in
        (
          rw count refl,
          e,
          json.get-object "total_requests" _ ∙ ap (λ k. some (json.integer (pos k))) e,
          ap (λ k. if ltb 0 k then 0 else 1) e
              ∙ status_lem _ n (total_some config scripts 0 n) (none_made config scripts n),
        )
