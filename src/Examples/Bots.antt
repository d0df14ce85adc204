-- ===== src/Examples/Bots.antt =====
-- Bots, over connections that take all that is sent and give one byte at a time.
use multi_player_game.Common.{
  ℕ, suc, ◌+◌, ◌≤◌, ◌≡◌, refl, sym, ap, subst, ◌∙◌, true, false, if◌then◌else◌, ◌==◌, string_eq,
  nat_eq, List, [], ◌∷◌, Option, none, some, arith, length,
}
use multi_player_game.Common.Int.{pos, int_add}
use multi_player_game.Common.Text.{codes}
use multi_player_game.Json.{JsonApi}
use multi_player_game.Network.{HasDescriptors, NetworkApi}
use multi_player_game.ConnectionManager.{init}
use multi_player_game.MessageFramer.{max_message_size}
use multi_player_game.Server.{State, session_loop}
use multi_player_game.Server.Exchange.{frames, replies, session_refines, IsSmall}
use multi_player_game.RequestHandler.World.{World}
use multi_player_game.RequestHandler.Dispatch.{handle}
use multi_player_game.RequestHandler.Transaction.{handle_transacts}
use multi_player_game.MetricsCollector.Summary.{successes}
use multi_player_game.PlayerBot.{SimulatorConfig, Bot, Script, status_ok, run, play}
use multi_player_game.PlayerBot.Plan.{Request, MeasureAll, plan, play-send_all}
use multi_player_game.PlayerBot.Accounts.{Reports, run_accounts}
use multi_player_game.PlayerBot.Conversation.{payloads, results, talk_happens}
use multi_player_game.PlayerBot.Truth.{KeepsStatus, served, Served, Counts, play-Counts}
use mathlib.Core.List.{Perm}
use mathlib.Core.List.Perm
use multi_player_game.MetricsCollector.{Call}
use multi_player_game.Simulator.{launch, calls_of, summary_of, exit_status, report}
use multi_player_game.Simulator.Totals.{total_made, simulator_totals}
use multi_player_game.Examples.Benchmark.{fixed}
use multi_player_game.Examples.Wire.{Pipe}
use multi_player_game.Examples.Redis.{hose, hose_reliable}
use multi_player_game.Examples.Requests.{
  Value, text, whole, real, members, nothing, member, find, to_members, get, values, cache,
  database, clock, start, parse,
}

-- A request is dumped as its kind and its player; of a response, the status is left.
abbrev kind_of : Option Value → ℕ
kind_of (some (text a)) = if a == "JOIN" then 1 else if a == "LEAVE" then 2 else 4
kind_of _ = 0

abbrev id_of : Option Value → ℕ
id_of (some (whole (pos n))) = n
id_of _ = 0

abbrev dump : Value → List ℕ
dump j =
    if status_ok values (some j)
    then 1 ∷ []
    else kind_of (get "action" j) ∷ id_of (get "player_id" j) ∷ 0 ∷ []

abbrev parse_status : List ℕ → Option Value
parse_status (b ∷ []) = some (members (member "status" (text "ok") nothing))
parse_status bytes = parse bytes

abbrev wire_values : JsonApi
wire_values = record values { parse = parse_status; dump = dump }

status-dump :
    (j : Value) → status_ok wire_values (parse_status (dump j)) ≡ status_ok wire_values (some j)
unfolding status_ok find to_members
status-dump j = ground arith

keeps_status : KeepsStatus wire_values
keeps_status = record { status-dump = status-dump }

-- A network that counts the sockets it opens and closes, with this to come on each.
abbrev network : List ℕ → NetworkApi hose
network bytes = record {
  Net = ℕ × ℕ;
  socket = λ (opened, closed). (some (bytes, []), (opened + 1, closed));
  set_timeouts = λ t s. s;
  is_address = λ a. true;
  connect = λ h p s n. (true, s, n);
  close = λ s (opened, closed). (opened, closed + 1);
  recv_all = λ s n. (none, s);
}

abbrev counted : (bytes : List ℕ) → HasDescriptors (network bytes)
counted bytes = record {
  opened = λ n. n.0;
  closed = λ n. n.1;
  opened-socket = λ n. refl;
  closed-socket = λ n. refl;
  same-connect = λ h p s n. (refl, refl);
  one-close = λ s n. (refl, refl);
}

abbrev config : SimulatorConfig
config = record {
  host = codes "127.0.0.1";
  port = 7777;
  player_count = pos 2;
  duration_seconds = pos 10;
  base_player_id = pos 7;
  action_interval_ms = pos 0;
  seed = pos 42;
  debug = false;
}

abbrev script : (bytes : List ℕ) → Script wire_values hose (network bytes)
script bytes = record {
  start = (3, 3);
  join_latency = 900;
  ticks =
      record { stop = false; elapsed = pos 1; roll = 80; x = pos 0; y = pos 0; latency = 450 }
      ∷ record { stop = false; elapsed = pos 10; roll = 5; x = pos 1; y = pos 2; latency = 0 }
      ∷ [];
  leave_latency = 700;
}

-- The server closes the connection at once: every request fails, and is measured.
run_accounts_example :
    let (call, b) = run wire_values hose (network []) config (pos 7) (script []) in
    (b.socket_fd ≡ none)
    × (b.net.0 + 3 ≡ 3 + b.net.1)
    × Reports wire_values hose (network []) (counted []) config (pos 7) (script []) call
run_accounts_example =
    run_accounts wire_values hose (network []) (counted []) config (pos 7) (script [])

dump_small : (j : Value) → length (dump j) ≤ max_message_size
dump_small j = ground arith

abbrev handler :
    List ℕ
    → ℕ
    → Served wire_values cache database keeps_status (λ n. clock)
    → List ℕ × Served wire_values cache database keeps_status (λ n. clock)
handler = served wire_values cache database keeps_status (λ n. clock)

answers-IsSmall :
    (ps : List (List ℕ)) (n : ℕ) (w : World ℕ ℕ) → IsSmall (replies handler 1 ps (n, w))
unfolding replies
answers-IsSmall [] n w = tt
answers-IsSmall (p ∷ ps) n w =
    let (bytes, w') = handle wire_values cache database clock p w in
    let (j, e, _) = handle_transacts wire_values cache database clock p w in
    (subst (λ r. length r ≤ max_message_size) (sym e) (dump_small j), answers-IsSmall ps (suc n) w')

abbrev requests : List Request
requests = plan wire_values hose (network []) config (pos 7) (script [])

requests-IsSmall : IsSmall (payloads requests)
unfolding plan
requests-IsSmall = (dump_small _, (dump_small _, (dump_small _, tt)))

abbrev heard : Pipe
heard = (frames (replies handler 1 (payloads requests) (0, start)), [])

abbrev player : Bot Pipe (ℕ × ℕ)
player = record { socket_fd = some heard; net = (1, 0); local_metrics = [] }

abbrev session : State Pipe (ℕ × World ℕ ℕ)
session = record {
  socket = (frames (payloads requests), []);
  connections = init;
  world = (0, start);
  msg_count = 0;
}

requests_answered : IsSmall (replies handler 1 (payloads requests) (0, start))
requests_answered = answers-IsSmall (payloads requests) 0 start

-- The session answers all requests, and the bot makes them.
served_all :
    (end : State Pipe (ℕ × World ℕ ℕ)) × (session_loop hose handler 9 1 session ≡ some end)
    × (end.socket.1 ≡ frames (replies handler 1 (payloads requests) (0, start)))
served_all =
    let (end, e, o, _, _) =
      session_refines hose hose_reliable handler 9 1 (payloads requests) session requests-IsSmall
        refl (unfold plan in omega arith) in
    (end, e, o)

played_all :
    (s : Pipe) × ((play wire_values hose (network []) config (pos 7) (script []) player).socket_fd
      ≡ some s)
    × (s.1 ≡ frames (payloads requests))
played_all =
    let (s, fd, o) =
      talk_happens wire_values hose hose_reliable (network []) handler 1 requests player heard
        (0, start) refl requests_answered refl in
    (
      s,
      ap (λ b. b.socket_fd)
            (play-send_all wire_values hose (network []) config (pos 7) (script []) player)
          ∙ fd,
      o,
    )

play-Counts_example :
    let ms = results wire_values handler 1 requests (0, start) in
    ((play wire_values hose (network []) config (pos 7) (script []) player).local_metrics ≡ ms)
    × MeasureAll requests ms
    × Counts wire_values cache database keeps_status
        (λ n. clock)
        (successes ms)
        (length requests)
        start.metrics
        served_all.0.world.1.metrics
play-Counts_example =
    play-Counts wire_values cache database keeps_status (λ n. clock) hose hose_reliable (network [])
      9 1 config (pos 7) (script []) player session served_all.0 heard played_all.0 refl
      played_all.1 requests-IsSmall requests_answered served_all.1 (played_all.2, served_all.2)

-- Two bots, that end in the other order.
abbrev scripts : ℕ → Script wire_values hose (network [])
scripts i = script []

abbrev arrivals : List Call
arrivals =
    (run wire_values hose (network []) config (int_add (pos 7) (pos 1)) (script [])).0
    ∷ (run wire_values hose (network []) config (int_add (pos 7) (pos 0)) (script [])).0
    ∷ []

abbrev launched : List Call
launched = launch wire_values hose (network []) config scripts 0 2

in_other_order : Perm arrivals launched
unfolding launch
in_other_order = Perm.swap _ _ []

simulator_totals_example :
    let s = summary_of fixed 2000 arrivals in
    let total = total_made wire_values hose (network []) config scripts 0 2 in
    (calls_of wire_values hose (network []) config scripts ≡ some launched)
    × (s.total_requests ≡ total)
    × (get "total_requests" (report fixed wire_values real config s) ≡ some (whole (pos total)))
    × (exit_status fixed s ≡ 0)
simulator_totals_example =
    simulator_totals wire_values hose (network []) fixed config scripts 2 arrivals 2000 real refl
      in_other_order
