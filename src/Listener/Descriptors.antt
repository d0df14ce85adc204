-- ===== src/Listener/Descriptors.antt =====
-- No listening socket is left open, whichever call fails.
use multi_player_game.Common.{
  ℕ, ◌+◌, ◌≡◌, refl, ap, inl, inr, String, Bool, true, false, Option, none, some, arith,
  if◌then◌else◌, Bool-cases, Option-cases, ◌&&◌,
}
use multi_player_game.Common.Int.{ℤ, pos}
use multi_player_game.Listener.{
  ListenApi, HasTally, Listener, abandon, bind_and_listen, setup_listen_socket, start, close_fd,
  http_stop, server_stop, server_end,
}

abbrev pub held_fd : Option ℕ → ℕ
held_fd none = 0
held_fd (some fd) = 1

abbrev pub has_fd : Option ℕ → Bool
has_fd none = false
has_fd (some fd) = true

module _ (api : ListenApi) (tally : HasTally api) where
  open api use {Os}

  -- One socket more is open than is closed, or none, as the listener says.
  pub record Balanced (l : Listener Os) : Type 0 where
    pub open_sockets : tally.opened l.os ≡ tally.closed l.os + held_fd l.listen_fd

  -- A start that succeeds has a socket, and one that fails has none.
  abbrev pub Started : Bool → Bool × Listener Os → Type 0
  Started running (ok, l) = (ok ≡ has_fd l.listen_fd) × (l.running ≡ (ok && running)) × Balanced l

  abandon-Started :
      (fd : ℕ) (o : Os) (r : Bool)
      → tally.opened o ≡ tally.closed o + 1
      → Started r (abandon api fd o)
  unfolding abandon
  abandon-Started fd o r e =
      let (same, one) = tally.one-close fd o in
      (refl, refl, record { open_sockets = omega (arith, same, one) })

  bind_and_listen-Started :
      (fd : ℕ) (a : Option String) (port : ℕ) (backlog : ℤ) (running : Bool) (o : Os)
      → tally.opened o ≡ tally.closed o + 1
      → Started running (bind_and_listen api fd a port backlog running o)
  unfolding bind_and_listen
  bind_and_listen-Started fd a port backlog running o e =
      let o' = api.reuse_address fd o in
      let (bound, o1) = api.bind fd a port o' in
      let (listening, o2) = api.listen fd backlog o1 in
      let (r0, r1) = tally.same-reuse_address fd o in
      let (b0, b1) = tally.same-bind fd a port o' in
      let (l0, l1) = tally.same-listen fd backlog o1 in
      elim (Bool-cases bound) [
        | inl yes_bound ↦ elim (Bool-cases listening) [
          | inl yes_listening ↦
              rw (yes_bound, yes_listening)
                (refl, refl, record { open_sockets = omega (arith, e, r0, r1, b0, b1, l0, l1) })
          | inr deaf ↦
              rw (yes_bound, deaf)
                (abandon-Started fd o2 running (omega (arith, e, r0, r1, b0, b1, l0, l1)))
        ]
        | inr unbound ↦
            rw unbound (abandon-Started fd o1 running (omega (arith, e, r0, r1, b0, b1)))
      ]

  socket-Started :
      (running : Bool) (o : Os) (k : ℕ → Os → Bool × Listener Os)
      → tally.opened o ≡ tally.closed o
      → ((fd : ℕ) (o' : Os) → tally.opened o' ≡ tally.closed o' + 1 → Started running (k fd o'))
      → let (fd, o1) = api.socket o in
        Started running (elim fd [
          | none ↦ (false, record { listen_fd = none; running = false; os = o1 })
          | some fd ↦ k fd o1
        ])
  socket-Started running o k e h =
      let more = tally.opened-socket o in
      let same = tally.closed-socket o in
      elim (Option-cases (api.socket o).0) [
        | inl broken ↦
            rw broken
              (refl, refl, record { open_sockets = omega (arith, e, rw broken at more, same) })
        | inr (fd, given) ↦
            rw given (h fd (api.socket o).1 (omega (arith, e, rw given at more, same)))
      ]

  pub close_fd-Balanced :
      (f : ℕ → Os → Os) (l : Listener Os) (fd : Option ℕ)
      → ((n : ℕ) (o : Os)
          → (tally.opened (f n o) ≡ tally.opened o) × (tally.closed (f n o) ≡ tally.closed o))
      → l.listen_fd ≡ fd
      → l.running ≡ false
      → tally.opened l.os ≡ tally.closed l.os + held_fd l.listen_fd
      → let l' = close_fd api f l in
        (tally.opened l'.os ≡ tally.closed l'.os) × (l'.running ≡ false) × (l'.listen_fd ≡ none)
  unfolding close_fd
  close_fd-Balanced f l none same e off b = rw (e, close_fd) (omega (arith, rw e at b), off, e)
  close_fd-Balanced f l (some fd) same e off b =
      let (s0, s1) = same fd l.os in
      let (c0, c1) = tally.one-close fd (f fd l.os) in
      rw (e, close_fd) (omega (arith, rw e at b, s0, s1, c0, c1), off, refl)

  pub server_stop-same :
      (l : Listener Os) (fd : Option ℕ)
      → l.listen_fd ≡ fd
      → let l' = server_stop api l in
        (tally.opened l'.os ≡ tally.opened l.os)
        × (tally.closed l'.os ≡ tally.closed l.os)
        × (l'.listen_fd ≡ l.listen_fd)
        × (l'.running ≡ false)
  unfolding server_stop
  server_stop-same l none e = rw (e, server_stop) (refl, refl, e, refl)
  server_stop-same l (some fd) e =
      let (s0, s1) = tally.same-shutdown fd l.os in rw (e, server_stop) (s0, s1, e, refl)

  -- Nothing is open.
  abbrev pub Settled : Listener Os → Type 0
  Settled l = (tally.opened l.os ≡ tally.closed l.os) × (l.running ≡ false) × (l.listen_fd ≡ none)

  server_end-Settled : (l : Listener Os) → Balanced l → Settled (server_end api l)
  unfolding server_end
  server_end-Settled l b =
      let (same_opened, same_closed, same_fd, off) = server_stop-same l l.listen_fd refl in
      close_fd-Balanced (λ fd o. o) (server_stop api l) (server_stop api l).listen_fd
        (λ n o. (refl, refl)) refl off
        (omega (arith, b.open_sockets, same_opened, same_closed, ap held_fd same_fd))

  no_socket :
      (l : Listener Os) (fd : Option ℕ)
      → l.listen_fd ≡ fd
      → false ≡ has_fd l.listen_fd
      → tally.opened l.os ≡ tally.closed l.os + held_fd l.listen_fd
      → (tally.opened l.os ≡ tally.closed l.os) × (false ≡ false) × (l.listen_fd ≡ none)
  no_socket l none e f b = (omega (arith, rw e at b), refl, e)
  no_socket l (some fd) e f b = absurd (ground (arith, rw e at f))

  http_stop-Settled :
      (ok : Bool) (l : Listener Os)
      → ok ≡ has_fd l.listen_fd
      → l.running ≡ (ok && true)
      → Balanced l
      → Settled (http_stop api l)
  unfolding http_stop
  http_stop-Settled true l f r b = rw r (
      close_fd-Balanced api.shutdown (record l { running = false }) l.listen_fd tally.same-shutdown
        refl refl b.open_sockets)
  http_stop-Settled false l f r b = rw r (no_socket l l.listen_fd refl f b.open_sockets)

  -- From a system with no such socket open: whichever calls fail, setupListenSocket of the game server
  -- and `start` of the metrics server return true exactly if there is a listening socket, then one
  -- more is open, and else none; after the end of either server none is open.
  pub listeners_balance :
      (o : Os) (host : String) (port : ℕ) (backlog : ℤ)
      → tally.opened o ≡ tally.closed o
      → let (ok, l) = setup_listen_socket api port backlog o in
        let (ok', l') = start api host port o in
        Started false (ok, l)
        × Settled (server_end api l)
        × Started true (ok', l')
        × Settled (http_stop api l')
  unfolding setup_listen_socket start
  listeners_balance o host port backlog e =
      let (ok, l) = setup_listen_socket api port backlog o in
      let (ok', l') = start api host port o in
      let address = if api.is_address host then some host else none in
      let s : Started false (ok, l) =
        socket-Started false o _ e
          (λ fd o1. bind_and_listen-Started fd none port backlog false o1) in
      let s' : Started true (ok', l') =
        socket-Started true o _ e
          (λ fd o1. bind_and_listen-Started fd address port (pos 64) true o1) in
      (s, server_end-Settled l s.2, s', http_stop-Settled ok' l' s'.0 s'.1 s'.2)
