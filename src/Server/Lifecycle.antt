-- ===== src/Server/Lifecycle.antt =====
-- The sockets over the life of a Server of server/src/Server.cpp: what run opens before its loop,
-- stop, and the destructor, with the HttpMetricsServer that it owns.
--
-- The loop itself, between run's opening and the signal that calls stop, is Server.Accept.
use multi_player_game.Common.{
  ℕ, ◌+◌, ◌≡◌, refl, sym, ap, ◌∙◌, inl, inr, Bool, true, false, Option, none, some, arith,
  if◌then◌else◌, Bool-cases, ◌&&◌,
}
use multi_player_game.Common.Int.{ℤ}
use multi_player_game.Listener.{
  ListenApi, HasTally, Listener, setup_listen_socket, start, close_fd, http_stop, server_stop,
}
use multi_player_game.Listener.Descriptors.{
  held_fd, has_fd, close_fd-Balanced, server_stop-same, listeners_balance,
}

-- A server's listening socket and flag, and those of its metrics server where there is one.
pub record Sockets (Os : Type 0) : Type 0 where
  pub listen_fd : Option ℕ
  pub running : Bool
  pub http : Option (Option ℕ × Bool)
  pub os : Os

module _ (api : ListenApi) where
  open api use {Os}

  -- `run`, up to its loop, and whether it comes there. What `start` returns is not looked at.
  unfoldable pub begin : ℕ → ℤ → ℕ → Os → Bool × Sockets Os
  begin port backlog metrics_port o =
      let (ok, l) = setup_listen_socket api port backlog o in
      let (_, h) = start api "0.0.0.0" metrics_port l.os in
      if ok
      then (
        true,
        record {
          listen_fd = l.listen_fd;
          running = true;
          http = some (h.listen_fd, h.running);
          os = h.os;
        },
      )
      else (false, record { listen_fd = l.listen_fd; running = false; http = none; os = l.os })

  -- `m_httpMetricsServer->stop()`
  unfoldable pub stop_http : Sockets Os → Sockets Os
  stop_http s = elim s.http [
    | none ↦ s
    | some (fd, running) ↦
        let h = http_stop api (record { listen_fd = fd; running = running; os = s.os }) in
        record s { http = some (h.listen_fd, h.running); os = h.os }
  ]

  abbrev with_listener : (Listener Os → Listener Os) → Sockets Os → Sockets Os
  with_listener f s =
      let l = f (record { listen_fd = s.listen_fd; running = s.running; os = s.os }) in
      record s { listen_fd = l.listen_fd; running = l.running; os = l.os }

  unfoldable pub stop : Sockets Os → Sockets Os
  unfolding stop_http
  stop s = with_listener (server_stop api) (stop_http (record s { running = false }))

  -- The destructor, and that of the metrics server after it.
  unfoldable pub destroy : Sockets Os → Sockets Os
  unfolding stop stop_http
  destroy s = stop_http (with_listener (close_fd api (λ fd o. o)) (stop s))

  -- A run that is ended by a signal, which calls `stop`, or that cannot begin; then the destructor.
  unfoldable pub life : ℕ → ℤ → ℕ → Os → Sockets Os
  unfolding begin stop destroy
  life port backlog metrics_port o =
      let (ok, s) = begin port backlog metrics_port o in if ok then destroy (stop s) else destroy s

  abbrev held_http : Option (Option ℕ × Bool) → ℕ
  held_http none = 0
  held_http (some (fd, running)) = held_fd fd

  -- A metrics server that does not run has no socket.
  abbrev Idle : Option (Option ℕ × Bool) → Type 0
  Idle none = Unit {0}
  Idle (some (fd, true)) = Unit {0}
  Idle (some (fd, false)) = fd ≡ none

  abbrev Silent : Option (Option ℕ × Bool) → Type 0
  Silent none = Unit {0}
  Silent (some (fd, running)) = (fd ≡ none) × (running ≡ false)

  module _ (tally : HasTally api) where
    -- As many sockets are open as the server holds.
    pub record Held (s : Sockets Os) : Type 0 where
      pub held : tally.opened s.os ≡ tally.closed s.os + held_fd s.listen_fd + held_http s.http
      pub idle : Idle s.http

    stop_http-Held :
        (fd : Option ℕ) (http : Option (Option ℕ × Bool)) (b : Bool) (o : Os)
        → Held (record { listen_fd = fd; running = b; http = http; os = o })
        → let s = stop_http (record { listen_fd = fd; running = b; http = http; os = o }) in
          Held s × Silent s.http × (s.listen_fd ≡ fd) × (s.running ≡ b)
    unfolding stop_http http_stop close_fd
    stop_http-Held fd none b o h = (h, tt, refl, refl)
    stop_http-Held fd (some (none, true)) b o h =
        (record { held = h.held; idle = refl }, (refl, refl), refl, refl)
    stop_http-Held fd (some (some x, true)) b o h =
        let (s0, s1) = tally.same-shutdown x o in
        let (c0, c1) = tally.one-close x (api.shutdown x o) in
        (
          record { held = omega (arith, h.held, s0, s1, c0, c1); idle = refl },
          (refl, refl),
          refl,
          refl,
        )
    stop_http-Held fd (some (x, false)) b o h = (h, (h.idle, refl), refl, refl)

    Silent-held : (http : Option (Option ℕ × Bool)) → Silent http → (held_http http ≡ 0) × Idle http
    Silent-held none h = (refl, tt)
    Silent-held (some (none, true)) h = (refl, tt)
    Silent-held (some (none, false)) h = (refl, refl)
    Silent-held (some (some x, b)) (gone, off) = absurd (cc)

    abbrev Stopped : Option ℕ → Sockets Os → Type 0
    Stopped fd s = Held s × Silent s.http × (s.listen_fd ≡ fd) × (s.running ≡ false)

    stop-Stopped : (s : Sockets Os) → Held s → Stopped s.listen_fd (stop s)
    unfolding stop
    stop-Stopped s h =
        let s1 = stop_http (record s { running = false }) in
        let (h1, silent, same_fd, off) =
          stop_http-Held s.listen_fd s.http false s.os (record { held = h.held; idle = h.idle }) in
        let l : Listener Os = record {
          listen_fd = s1.listen_fd;
          running = s1.running;
          os = s1.os;
        } in
        let (o0, o1, fd, off') = server_stop-same api tally l l.listen_fd refl in
        (
          record { held = omega (arith, h1.held, o0, o1, ap held_fd fd); idle = h1.idle },
          silent,
          fd ∙ same_fd,
          off',
        )

    -- Nothing is open, and nothing runs.
    abbrev pub Over : Sockets Os → Type 0
    Over s =
        (tally.opened s.os ≡ tally.closed s.os)
        × (s.listen_fd ≡ none)
        × (s.running ≡ false)
        × Silent s.http

    destroy-Over : (s : Sockets Os) → Held s → Over (destroy s)
    unfolding destroy
    destroy-Over s h =
        let s1 = stop s in
        let (h1, silent, same_fd, off) = stop-Stopped s h in
        let (zero_http, idle) = Silent-held s1.http silent in
        let l : Listener Os = record {
          listen_fd = s1.listen_fd;
          running = s1.running;
          os = s1.os;
        } in
        let (e, off', gone) =
          close_fd-Balanced api tally (λ fd o. o) l l.listen_fd (λ n o. (refl, refl)) refl off
            (omega (arith, h1.held, zero_http)) in
        let l' = close_fd api (λ fd o. o) l in
        let (h2, silent', gone', off'') =
          stop_http-Held l'.listen_fd s1.http l'.running l'.os
            (record { held = omega (arith, e, ap held_fd gone, zero_http); idle = idle }) in
        let s2 = destroy s in
        let (zero_http', _) = Silent-held s2.http silent' in
        (
          omega (arith, h2.held, ap held_fd (gone' ∙ gone), zero_http'),
          gone' ∙ gone,
          off'' ∙ off',
          silent',
        )

    -- The same counts, with one socket already open.
    abbrev beside_one : HasTally api
    beside_one = record {
      opened = tally.opened;
      closed = λ o. tally.closed o + 1;
      opened-socket = tally.opened-socket;
      closed-socket = λ o. ap (λ n. n + 1) (tally.closed-socket o);
      same-reuse_address =
          λ fd o. let (a, b) = tally.same-reuse_address fd o in (a, ap (λ n. n + 1) b);
      same-bind = λ fd x p o. let (a, b) = tally.same-bind fd x p o in (a, ap (λ n. n + 1) b);
      same-listen = λ fd n o. let (a, b) = tally.same-listen fd n o in (a, ap (λ n. n + 1) b);
      same-shutdown = λ fd o. let (a, b) = tally.same-shutdown fd o in (a, ap (λ n. n + 1) b);
      one-close = λ fd o. let (a, b) = tally.one-close fd o in (a, ap (λ n. n + 1) b);
    }

    Idle-fd :
        (fd : Option ℕ) (ok running : Bool)
        → ok ≡ has_fd fd
        → running ≡ (ok && true)
        → Idle (some (fd, running))
    Idle-fd none ok true e r = tt
    Idle-fd none ok false e r = refl
    Idle-fd (some x) true true e r = tt
    Idle-fd (some x) true false e r = absurd (cc)
    Idle-fd (some x) false running e r = absurd (cc)

    held_fd-lem : (fd : Option ℕ) (ok : Bool) → ok ≡ has_fd fd → held_fd fd ≡ (if ok then 1 else 0)
    held_fd-lem none true e = absurd (cc)
    held_fd-lem none false e = refl
    held_fd-lem (some x) true e = refl
    held_fd-lem (some x) false e = absurd (cc)

    -- What `begin` leaves.
    abbrev pub Begun : Bool × Sockets Os → Type 0
    Begun (ok, s) = Held s × (s.running ≡ ok) × (ok ≡ has_fd s.listen_fd)

    begin-Begun :
        (port : ℕ) (backlog : ℤ) (metrics_port : ℕ) (o : Os)
        → tally.opened o ≡ tally.closed o
        → Begun (begin port backlog metrics_port o)
    unfolding begin
    begin-Begun port backlog metrics_port o e =
        let (ok, l) = setup_listen_socket api port backlog o in
        let ((has, off, b), _, _, _) = listeners_balance api tally o "0.0.0.0" port backlog e in
        let one = held_fd-lem l.listen_fd ok has in
        elim (Bool-cases ok) [
          | inl began ↦
              let one' : tally.opened l.os ≡ tally.closed l.os + 1 =
                omega (arith, b.open_sockets, rw began at one) in
              let (_, _, (has', on', b'), _) =
                listeners_balance api beside_one l.os "0.0.0.0" metrics_port backlog one' in
              let (ok', h) = start api "0.0.0.0" metrics_port l.os in
              rw began (
                record {
                  held = omega (arith, b'.open_sockets, rw began at one);
                  idle = Idle-fd h.listen_fd ok' h.running has' on';
                },
                refl,
                sym began ∙ has,
              )
          | inr failed ↦
              rw failed
                (record { held = omega (arith, b.open_sockets); idle = tt }, refl, sym failed ∙ has)
        ]

    -- From a system with no such socket open, whichever calls fail: run comes to its loop exactly
    -- where it has a listening socket, and holds in it all that was opened and not closed, also
    -- where the metrics server could not start. After the signal's stop and the destructor, or the
    -- destructor alone where run could not begin, as many sockets are closed as were opened, no
    -- descriptor is left, and neither server runs.
    pub server_life :
        (port : ℕ) (backlog : ℤ) (metrics_port : ℕ) (o : Os)
        → tally.opened o ≡ tally.closed o
        → Begun (begin port backlog metrics_port o) × Over (life port backlog metrics_port o)
    unfolding life
    server_life port backlog metrics_port o e =
        let (ok, s) = begin port backlog metrics_port o in
        let (h, running, has) = begin-Begun port backlog metrics_port o e in
        (
          (h, running, has),
          (elim (Bool-cases ok) [
            | inl began ↦ rw began (destroy-Over (stop s) (stop-Stopped s h).0)
            | inr failed ↦ rw failed (destroy-Over s h)
          ]),
        )
