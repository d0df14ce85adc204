-- ===== src/PlayerBot.antt =====
-- simulator/src/PlayerBot.cpp: a virtual player, over interfaces for sockets and for JSON.
--
-- Random numbers, clock readings and the stop flag are what a bot meets in the rounds of its loop; a
-- latency is in microseconds. m_rng and the unused targetDist are left out.
pub mod Plan
pub mod Accounts
pub mod Exchange
pub mod Conversation
pub mod Truth
use multi_player_game.Common.{
  ℕ, String, Bool, true, false, List, [], ◌∷◌, ◌++◌, Option, none, some, ◌==◌, string_eq, leb, ltb,
  if◌then◌else◌,
}
use multi_player_game.Common.Int.{ℤ, pos, int_eq, int_add, int_sub, ltb_ℤ}
use multi_player_game.Json.{JsonApi}
use multi_player_game.Socket.{SocketApi}
use multi_player_game.Network.{NetworkApi}
use multi_player_game.MessageFramer.{max_message_size, header_size, read_u32_le, encode}
use multi_player_game.MessageFramer.Stream.{
  Outcome, done, failed, out_of_fuel, read_exact, write_all,
}
use multi_player_game.MetricsCollector.{RequestMetric, Call, records, batches}

pub record SimulatorConfig : Type 0 where
  pub host : List ℕ
  pub port : ℕ
  pub player_count : ℤ
  pub duration_seconds : ℤ
  pub base_player_id : ℤ
  pub action_interval_ms : ℤ
  pub seed : ℤ
  pub debug : Bool

-- A bot's members; a descriptor of -1 is `none`.
pub record Bot (Socket Net : Type 0) : Type 0 where
  pub socket_fd : Option Socket
  pub net : Net
  pub local_metrics : List RequestMetric

-- The size in the header of a response; the bot's own copy of `readU32LE`.
unfoldable pub response_len : List ℕ → ℕ
response_len (p0 ∷ p1 ∷ p2 ∷ p3 ∷ _) = read_u32_le p0 p1 p2 p3
response_len _ = 0

-- What a bot meets in one round of its loop: the stop flag, the seconds since the start, the three
-- random numbers, and how long its request takes.
pub record Tick : Type 0 where
  pub stop : Bool
  pub elapsed : ℤ
  pub roll : ℕ
  pub x : ℤ
  pub y : ℤ
  pub latency : ℕ

-- The neighbour that a bot attacks: the next player, and the first one after the last.
unfoldable pub target_of : SimulatorConfig → ℤ → ℤ
target_of config player_id =
    if player_id == int_sub (int_add config.base_player_id config.player_count) (pos 1)
    then config.base_player_id
    else int_add player_id (pos 1)

module _ (api : SocketApi) where
  open api use {Socket}

  unfoldable pub response_read : Outcome (List ℕ) × Socket → Option (List ℕ) × Socket
  response_read (done bytes, s) = (some bytes, s)
  response_read (failed, s) = (none, s)
  response_read (out_of_fuel, s) = (none, s)

  unfoldable pub read_response : ℕ → Socket → Option (List ℕ) × Socket
  unfolding response_read
  read_response n s =
      if ltb max_message_size n then (none, s) else response_read (read_exact api s n)

  unfoldable pub after_header : Outcome (List ℕ) × Socket → Option (List ℕ) × Socket
  unfolding read_response response_len
  after_header (done header, s) = read_response (response_len header) s
  after_header (failed, s) = (none, s)
  after_header (out_of_fuel, s) = (none, s)

  unfoldable pub after_write : Outcome (Unit {0}) × Socket → Option (List ℕ) × Socket
  unfolding after_header
  after_write (done _, s) = after_header (read_exact api s header_size)
  after_write (failed, s) = (none, s)
  after_write (out_of_fuel, s) = (none, s)

  -- The bytes of the response, if the four tests on the way to it pass.
  unfoldable pub exchange : Socket → List ℕ → Option (List ℕ) × Socket
  unfolding after_write
  exchange s payload = after_write (write_all api s (encode payload))

module _ (json : JsonApi) where
  open json use {Json}

  -- `resp.value("status", "") == "ok"`, and false where it throws.
  unfoldable pub status_ok : Option Json → Bool
  status_ok none = false
  status_ok (some resp) = elim (json.get "status" resp) [
    | none ↦ false
    | some v ↦ elim (json.as_string v) [ none ↦ false | some s ↦ s == "ok" ]
  ]

  -- What is pushed to the metrics after an exchange.
  unfoldable pub measure : String → ℕ → Option (List ℕ) → RequestMetric
  unfolding status_ok
  measure action latency none = record { action = action; latency_micros = 0; success = false }
  measure action latency (some response) = record {
    action = action;
    latency_micros = latency;
    success = status_ok (json.parse response);
  }

  abbrev request : String → ℤ → List (String × Json) → String × List ℕ
  request action player_id fields = (
    action,
    json.dump (
        json.object
          (("action", json.string action) ∷ ("player_id", json.integer player_id) ∷ fields)),
  )

  unfoldable pub join_request : ℤ → String × List ℕ
  join_request player_id = request "JOIN" player_id []

  unfoldable pub leave_request : ℤ → String × List ℕ
  leave_request player_id = request "LEAVE" player_id []

  -- The request of one round.
  unfoldable pub choose : SimulatorConfig → ℤ → Tick → String × List ℕ
  unfolding target_of
  choose config player_id tick =
      if leb tick.roll 60
      then request "MOVE" player_id (("x", json.integer tick.x) ∷ ("y", json.integer tick.y) ∷ [])
      else if leb tick.roll 75
      then request "ATTACK" player_id
          (("target_id", json.integer (target_of config player_id)) ∷ [])
      else if leb tick.roll 90
      then request "GET_STATE" player_id []
      else request "CHAT" player_id (("message", json.string "ggwp") ∷ [])

  module _ (api : SocketApi) (network : NetworkApi api) where
    open api use {Socket}
    open network use {Net}

    unfoldable pub after_exchange :
        String → ℕ → Bot Socket Net → Option (List ℕ) × Socket → Bot Socket Net
    unfolding measure
    after_exchange action latency b (response, s) = record b {
      socket_fd = some s;
      local_metrics = b.local_metrics ++ measure action latency response ∷ [];
    }

    -- No caller looks at what it returns.
    unfoldable pub send_and_receive : String × List ℕ → ℕ → Bot Socket Net → Bot Socket Net
    unfolding after_exchange exchange
    send_and_receive (action, payload) latency b = elim b.socket_fd [
      | none ↦ b
      | some s ↦ after_exchange action latency b (exchange api s payload)
    ]

    unfoldable pub disconnect_socket : Bot Socket Net → Bot Socket Net
    disconnect_socket b = elim b.socket_fd [
      | none ↦ b
      | some s ↦ record b { socket_fd = none; net = network.close s b.net }
    ]

    -- The new socket s is connected, or closed again.
    unfoldable pub dial : SimulatorConfig → Socket → Bot Socket Net → Bool × Bot Socket Net
    dial config s b =
        let (linked, s', net) = network.connect config.host (pos config.port) s b.net in
        if network.is_address config.host
        then if linked
          then (true, record b { socket_fd = some s'; net = net })
          else (false, record b { socket_fd = none; net = network.close s' net })
        else (false, record b { socket_fd = none; net = network.close s b.net })

    unfoldable pub connect_socket : SimulatorConfig → Bot Socket Net → Bool × Bot Socket Net
    unfolding dial
    connect_socket config b =
        let (opened, net) = network.socket b.net in
        elim opened [
          | none ↦ (false, record b { socket_fd = none; net = net })
          | some s ↦ dial config s (record b { net = net })
        ]

    -- The loop, over the rounds that are ahead; it is left by the stop flag or the time.
    unfoldable pub action_loop : SimulatorConfig → ℤ → List Tick → Bot Socket Net → Bot Socket Net
    unfolding send_and_receive choose
    action_loop config player_id [] b = b
    action_loop config player_id (tick ∷ ticks) b =
        let rest =
          action_loop config player_id ticks
            (send_and_receive (choose config player_id tick) tick.latency b) in
        if tick.stop then b else if ltb_ℤ tick.elapsed config.duration_seconds then rest else b

    -- What a bot meets: the network, and the rounds and the latencies of JOIN and LEAVE.
    pub record Script : Type 0 where
      pub start : Net
      pub join_latency : ℕ
      pub ticks : List Tick
      pub leave_latency : ℕ

    -- From JOIN to LEAVE, over a connection.
    unfoldable pub play : SimulatorConfig → ℤ → Script → Bot Socket Net → Bot Socket Net
    unfolding send_and_receive action_loop join_request leave_request
    play config player_id script b =
        let joined = send_and_receive (join_request player_id) script.join_latency b in
        let acted = action_loop config player_id script.ticks joined in
        send_and_receive (leave_request player_id) script.leave_latency acted

    -- `run`, and the destructor: what it calls of the collector, and the bot.
    unfoldable pub run : SimulatorConfig → ℤ → Script → Call × Bot Socket Net
    unfolding connect_socket play disconnect_socket
    run config player_id script =
        let (connected, b) =
          connect_socket config
            (record { socket_fd = none; net = script.start; local_metrics = [] }) in
        let b' = disconnect_socket (play config player_id script b) in
        if connected
        then (batches b'.local_metrics, disconnect_socket b')
        else (records "CONNECT" 0 false, disconnect_socket b)
