-- ===== src/Listener.antt =====
-- The listening sockets: setupListenSocket and the end of server/src/Server.cpp, and start and stop
-- of server/src/HttpMetricsServer.cpp, over an interface for the calls.
pub mod Descriptors
use multi_player_game.Common.{
  ℕ, ◌+◌, ◌≡◌, String, Bool, true, false, Option, none, some, if◌then◌else◌,
}
use multi_player_game.Common.Int.{ℤ, pos}

-- `Os` is the state of the system behind the calls. A descriptor of -1 is `none`, and a call that
-- returns a negative number where it fails gives `false` there.
pub record ListenApi : Type 1 where
  pub Os : Type 0
  pub socket : Os → Option ℕ × Os
  pub reuse_address : ℕ → Os → Os
  -- `inet_pton(...) > 0`; an address of `none` is INADDR_ANY.
  pub is_address : String → Bool
  pub bind : ℕ → Option String → ℕ → Os → Bool × Os
  pub listen : ℕ → ℤ → Os → Bool × Os
  pub shutdown : ℕ → Os → Os
  pub close : ℕ → Os → Os

-- What a caller could count: sockets opened, and closed.
pub record HasTally (api : ListenApi) : Type 0 where
  pub opened : api.Os → ℕ
  pub closed : api.Os → ℕ
  pub opened-socket :
      (o : api.Os)
      → opened (api.socket o).1
        ≡ (elim (api.socket o).0 [ none ↦ opened o | some fd ↦ opened o + 1 ])
  pub closed-socket : (o : api.Os) → closed (api.socket o).1 ≡ closed o
  pub same-reuse_address :
      (fd : ℕ) (o : api.Os)
      → (opened (api.reuse_address fd o) ≡ opened o) × (closed (api.reuse_address fd o) ≡ closed o)
  pub same-bind :
      (fd : ℕ) (a : Option String) (port : ℕ) (o : api.Os)
      → (opened (api.bind fd a port o).1 ≡ opened o) × (closed (api.bind fd a port o).1 ≡ closed o)
  pub same-listen :
      (fd : ℕ) (backlog : ℤ) (o : api.Os)
      → (opened (api.listen fd backlog o).1 ≡ opened o)
        × (closed (api.listen fd backlog o).1 ≡ closed o)
  pub same-shutdown :
      (fd : ℕ) (o : api.Os)
      → (opened (api.shutdown fd o) ≡ opened o) × (closed (api.shutdown fd o) ≡ closed o)
  pub one-close :
      (fd : ℕ) (o : api.Os)
      → (opened (api.close fd o) ≡ opened o) × (closed (api.close fd o) ≡ closed o + 1)

-- A server's listening socket, and its flag.
pub record Listener (Os : Type 0) : Type 0 where
  pub listen_fd : Option ℕ
  pub running : Bool
  pub os : Os

module _ (api : ListenApi) where
  open api use {Os}

  -- `::close(m_listenFd); m_listenFd = -1; return false;`
  unfoldable pub abandon : ℕ → Os → Bool × Listener Os
  abandon fd o = (false, record { listen_fd = none; running = false; os = api.close fd o })

  -- The socket fd is bound to the address, and listens.
  unfoldable pub bind_and_listen : ℕ → Option String → ℕ → ℤ → Bool → Os → Bool × Listener Os
  unfolding abandon
  bind_and_listen fd address port backlog running o =
      let (bound, o1) = api.bind fd address port (api.reuse_address fd o) in
      let (listening, o2) = api.listen fd backlog o1 in
      if bound
      then if listening
        then (true, record { listen_fd = some fd; running = running; os = o2 })
        else abandon fd o2
      else abandon fd o1

  -- `Server::setupListenSocket`
  unfoldable pub setup_listen_socket : ℕ → ℤ → Os → Bool × Listener Os
  unfolding bind_and_listen
  setup_listen_socket port backlog o =
      let (fd, o1) = api.socket o in
      elim fd [
        | none ↦ (false, record { listen_fd = none; running = false; os = o1 })
        | some fd ↦ bind_and_listen fd none port backlog false o1
      ]

  -- `HttpMetricsServer::start`; a host that is no address is INADDR_ANY.
  unfoldable pub start : String → ℕ → Os → Bool × Listener Os
  unfolding bind_and_listen
  start host port o =
      let (fd, o1) = api.socket o in
      elim fd [
        | none ↦ (false, record { listen_fd = none; running = false; os = o1 })
        | some fd ↦
            bind_and_listen fd (if api.is_address host then some host else none) port (pos 64) true
              o1
      ]

  unfoldable pub close_fd : (ℕ → Os → Os) → Listener Os → Listener Os
  close_fd f l = elim l.listen_fd [
    | none ↦ l
    | some fd ↦ record l { listen_fd = none; os = api.close fd (f fd l.os) }
  ]

  -- `HttpMetricsServer::stop`, which is also its destructor.
  unfoldable pub http_stop : Listener Os → Listener Os
  unfolding close_fd
  http_stop l = if l.running then close_fd api.shutdown (record l { running = false }) else l

  -- `Server::stop`, and what the destructor does after it.
  unfoldable pub server_stop : Listener Os → Listener Os
  server_stop l = elim l.listen_fd [
    | none ↦ record l { running = false }
    | some fd ↦ record l { running = false; os = api.shutdown fd l.os }
  ]

  unfoldable pub server_end : Listener Os → Listener Os
  unfolding server_stop close_fd
  server_end l = close_fd (λ fd o. o) (server_stop l)
