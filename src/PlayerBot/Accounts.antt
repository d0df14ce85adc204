-- ===== src/PlayerBot/Accounts.antt =====
-- What the run of a bot leaves behind: its descriptors, and what it hands to the collector.
use multi_player_game.Common.{
  ℕ, ◌+◌, ◌≡◌, refl, ◌∙◌, ap, ◌⊎◌, inl, inr, Bool, true, false, List, [], ◌++◌, none, some,
  Option-cases, Bool-cases, arith,
}
use multi_player_game.Common.Int.{ℤ, pos}
use multi_player_game.Json.{JsonApi}
use multi_player_game.Socket.{SocketApi}
use multi_player_game.Network.{HasDescriptors, NetworkApi}
use multi_player_game.MetricsCollector.{RequestMetric, Call, records, batches}
use multi_player_game.PlayerBot.{
  SimulatorConfig, Bot, dial, connect_socket, disconnect_socket, Script, run,
}
use multi_player_game.PlayerBot.Plan.{MeasureAll, plan, send_all, play-send_all, send_all-Measured}

module _ (json : JsonApi) (api : SocketApi) (network : NetworkApi api)
    (count : HasDescriptors network) where
  open api use {Socket}
  open network use {Net}
  open count use {opened, closed}

  -- As many sockets are opened as closed between m and n, and k more.
  abbrev Opens : ℕ → Net → Net → Type 0
  Opens k m n = opened n + closed m ≡ opened m + closed n + k

  -- A connection, or none with everything closed.
  abbrev Connects : Net → Bool × Bot Socket Net → Type 0
  Connects n (ok, b) =
      ((s : Socket) × (ok ≡ true)
        × (b.socket_fd ≡ some s)
        × (b.local_metrics ≡ [])
        × Opens 1 n b.net)
      ⊎ ((ok ≡ false) × (b.socket_fd ≡ none) × Opens 0 n b.net)

  dial-Connects :
      (config : SimulatorConfig) (s : Socket) (m : Net) (b : Bot Socket Net)
      → Opens 1 m b.net
      → b.local_metrics ≡ []
      → Connects m (dial json api network config s b)
  unfolding dial
  dial-Connects config s m b h e =
      let (linked, s', n) = network.connect config.host (pos config.port) s b.net in
      let same = count.same-connect config.host (pos config.port) s b.net in
      let failed = count.one-close s' n in
      let refused = count.one-close s b.net in
      elim (Bool-cases (network.is_address config.host)) [
        | inl address ↦ elim (Bool-cases linked) [
          | inl yes_ ↦ rw (address, yes_) (inl (s', refl, refl, e, omega (arith, same)))
          | inr no_ ↦ rw (address, no_) (inr (refl, refl, omega (arith, same, failed)))
        ]
        | inr other ↦ rw other (inr (refl, refl, omega (arith, refused)))
      ]

  connect-Connects :
      (config : SimulatorConfig) (n : Net)
      → Connects n (
          connect_socket json api network config
            (record { socket_fd = none; net = n; local_metrics = [] }))
  unfolding connect_socket
  connect-Connects config n = elim (Option-cases (network.socket n).0) [
    | inl e ↦
        let a = count.opened-socket n in
        let b = count.closed-socket n in
        rw (e, connect_socket) (inr (refl, refl, ground (arith, a, b)))
    | inr (s, e) ↦
        let a = count.opened-socket n in
        let b = count.closed-socket n in
        rw (e, connect_socket)
          (dial-Connects config s n
            (record { socket_fd = none; net = (network.socket n).1; local_metrics = [] })
            (ground (arith, a, b)) refl)
  ]

  -- What the collector is told: that there was no connection, or one measurement for each request, in
  -- order.
  abbrev pub Reports : SimulatorConfig → ℤ → Script json api network → Call → Type 0
  Reports config player_id script call =
      (call ≡ records "CONNECT" 0 false)
      ⊎ ((ms : List RequestMetric) × (call ≡ batches ms)
          × MeasureAll (plan json api network config player_id script) ms)

  abbrev Leaves : SimulatorConfig → ℤ → Script json api network → Call × Bot Socket Net → Type 0
  Leaves config player_id script (call, b) =
      (b.socket_fd ≡ none)
      × (opened b.net + closed script.start ≡ opened script.start + closed b.net)
      × Reports config player_id script call

  disconnect_lem :
      (b : Bot Socket Net) (s : Socket)
      → b.socket_fd ≡ some s
      → disconnect_socket json api network b
        ≡ record b { socket_fd = none; net = network.close s b.net }
  unfolding disconnect_socket
  disconnect_lem b s e = rw e

  -- However the network behaves, a run ends with no descriptor left: as many sockets are closed as
  -- were opened. The collector is told of one failed CONNECT, or gets one measurement for each request
  -- that the bot makes, in order, from JOIN to LEAVE: its action, with its latency, or with 0 for one
  -- that failed on the way.
  pub run_accounts :
      (config : SimulatorConfig) (player_id : ℤ) (script : Script json api network)
      → Leaves config player_id script (run json api network config player_id script)
  unfolding run disconnect_socket
  run_accounts config player_id script =
      let (ok, b) =
        connect_socket json api network config
          (record { socket_fd = none; net = script.start; local_metrics = [] }) in
      elim (connect-Connects config script.start) [
        | inl (s, linked, fd, empty, h) ↦
            let (u, fd', same, (ms, all, each)) =
              send_all-Measured json api network (plan json api network config player_id script) b s
                fd in
            let b' = send_all json api network (plan json api network config player_id script) b in
            let shut = count.one-close u b'.net in
            rw
              (
                linked,
                run,
                play-send_all json api network config player_id script b,
                disconnect_lem b' u fd',
              )
              (
                refl,
                omega (arith, shut, ap opened same, ap closed same),
                inr (ms, ap batches (all ∙ ap (λ xs. xs ++ ms) empty), each),
              )
        | inr (failed, fd, h) ↦ rw (failed, run, fd, disconnect_socket) (fd, omega arith, inl refl)
      ]
