-- ===== src/Examples/Redis.antt =====
-- A connection to Redis that takes all that is sent, and gives one byte at a time.
use multi_player_game.Common.{
  ℕ, suc, ◌≤◌, ◌<◌, ◌≡◌, refl, sym, ap, ◌≢◌, List, [], ◌∷◌, ◌++◌, Option, none, some, arith, length,
  take, drop, take_all, take-append, drop-append, true, false,
}
use multi_player_game.Common.Int.{pos, negsuc}
use multi_player_game.Common.Text.{codes}
use multi_player_game.Common.Decimal.{decimal, decimal_int}
use multi_player_game.Socket.{SocketApi, IsReliable}
use multi_player_game.Network.{NetworkApi, IsRoomy}
use multi_player_game.CacheManager.{
  CacheManager, session_key, position_key, position_text, get_player_session, get_player_position,
}
use multi_player_game.CacheManager.Wire.{redis_api, session_of, lookups_over_wire}
use multi_player_game.Backends.{cache_hit}
use multi_player_game.Examples.Requests.{values}
use multi_player_game.RedisClient.{RedisConnection, encode_command}
use multi_player_game.RedisClient.Commands.{get, hget}
use multi_player_game.RedisClient.Protocol.{parse_command, parse_command-encode_command}
use multi_player_game.RedisClient.Reading.{bulk, missing, encode_reply}
use multi_player_game.RedisClient.Replies.{Answered, get_reply}
use multi_player_game.Examples.Wire.{
  Pipe, pipe_recv, pipe_recv-some, pipe_recv-none, pipe_recv-waits,
}

abbrev flush : Pipe → List ℕ → Option ℕ × Pipe
flush p [] = (none, p)
flush (i, o) (b ∷ bs) = (some (length (b ∷ bs)), (i, o ++ b ∷ bs))

pub flush-some :
    (s : Pipe) (bytes : List ℕ) (n : ℕ)
    → (flush s bytes).0 ≡ some n
    → (1 ≤ n)
      × (n ≤ length bytes)
      × ((flush s bytes).1.1 ≡ s.1 ++ take n bytes)
      × ((flush s bytes).1.0 ≡ s.0)
flush-some (i, o) [] n e = ground arith
flush-some (i, o) (b ∷ bs) n e =
    let same : suc (length bs) ≡ n = ground arith in
    rw (sym same) (
      omega arith,
      omega arith,
      ap (◌++◌ o) (sym (take_all (suc (length bs)) (b ∷ bs) (omega arith))),
      refl,
    )

pub flush-none :
    (s : Pipe) (bytes : List ℕ)
    → (flush s bytes).0 ≡ none
    → ((flush s bytes).1.1 ≡ s.1) × ((flush s bytes).1.0 ≡ s.0)
flush-none (i, o) [] e = (refl, refl)
flush-none (i, o) (b ∷ bs) e = cc

abbrev pub hose : SocketApi
hose = record {
  Socket = Pipe;
  incoming = λ s. s.0;
  outgoing = λ s. s.1;
  recv = pipe_recv;
  send = flush;
  recv_some = pipe_recv-some;
  recv_none = pipe_recv-none;
  send_some = flush-some;
  send_none = flush-none;
}

pub flush_all :
    (s : Pipe) (bytes : List ℕ) → 0 < length bytes → (flush s bytes).0 ≡ some (length bytes)
flush_all s [] h = absurd (omega arith)
flush_all (i, o) (b ∷ bs) h = refl

pub flush_waits : (s : Pipe) (bytes : List ℕ) → 0 < length bytes → (flush s bytes).0 ≢ none
flush_waits s [] h = absurd (omega arith)
flush_waits (i, o) (b ∷ bs) h = λ e. cc

abbrev pub hose_reliable : IsReliable hose
hose_reliable = record { recv_waits = pipe_recv-waits; send_waits = flush_waits }

abbrev redis_network : NetworkApi hose
redis_network = record {
  Net = Unit {0};
  socket = λ n. (some ([], []), n);
  set_timeouts = λ t s. s;
  is_address = λ a. true;
  connect = λ h p s n. (true, s, n);
  close = λ s n. n;
  recv_all = λ s n. (some (take n s.0), (drop n s.0, s.1));
}

recv_all_front :
    (s : Pipe) (bytes rest : List ℕ)
    → s.0 ≡ bytes ++ rest
    → (◌≡◌ {A = Option (List ℕ)} (some (take (length bytes) s.0)) (some bytes))
      × (drop (length bytes) s.0 ≡ rest)
      × (s.1 ≡ s.1)
recv_all_front (i, o) bytes rest e =
    rw e (ap some (take-append bytes rest), drop-append bytes rest, refl)

abbrev redis_roomy : IsRoomy redis_network
redis_roomy = record {
  reliable = hose_reliable;
  sends_all = flush_all;
  recv_all_front = recv_all_front;
}

abbrev client : RedisConnection Pipe (Unit {0})
client = record {
  host = codes "127.0.0.1";
  port = pos 6379;
  timeout_ms = pos 1000;
  socket_fd = none;
  net = tt;
}

abbrev stored : List ℕ
stored = codes "500,500"

get_reply_example :
    let s : Pipe = (encode_reply (bulk stored), []) in
    Answered hose redis_network redis_roomy client
      (codes "GET" ∷ codes "pos" ∷ [])
      (bulk stored)
      s
      []
      (get hose redis_network 20 (codes "pos") (record client { socket_fd = some s }))
    × Answered hose redis_network redis_roomy client
        (codes "HGET" ∷ codes "pos" ∷ codes "x" ∷ [])
        (bulk stored)
        s
        []
        (hget hose redis_network 20
          (codes "pos")
          (codes "x")
          (record client { socket_fd = some s }))
unfolding encode_reply decimal
get_reply_example =
    get_reply hose redis_network redis_roomy client 20 (encode_reply (bulk stored), [])
      (codes "pos") (codes "x") (bulk stored) [] (omega arith) (omega arith) refl

parse_command-encode_command_example :
    parse_command (encode_command (codes "DEL" ∷ codes "pos:player:7" ∷ []) ++ codes "*1")
    ≡ some (codes "DEL" ∷ codes "pos:player:7" ∷ [], codes "*1")
parse_command-encode_command_example =
    parse_command-encode_command (codes "DEL" ∷ codes "pos:player:7" ∷ []) (codes "*1")

-- A session that is not there, and a position, with a third reply behind them.
abbrev two_replies : Pipe
two_replies = (
  encode_reply missing ++ (encode_reply (bulk (position_text (pos 500) (negsuc 2))) ++ codes "+OK"),
  [],
)

lookups_over_wire_example :
    let m : CacheManager (RedisConnection Pipe (Unit {0})) = record {
      enabled = true;
      pool = some (record client { socket_fd = some two_replies });
    } in
    let redis = redis_api hose redis_network 30 in
    let (session, m') = get_player_session values redis (pos 7) m in
    let (position, m'') = get_player_position values redis (pos 7) m' in
    (session ≡ session_of hose redis_network values redis_roomy client missing)
    × (position ≡ (some (pos 500, negsuc 2), cache_hit ∷ [], false))
    × ((t : Pipe) × (m''
          ≡ record { enabled = true; pool = some (record client { socket_fd = some t }) })
        × (t.0 ≡ codes "+OK")
        × (t.1
            ≡ ([] ++ encode_command (codes "GET" ∷ codes (session_key (pos 7)) ∷ []))
              ++ encode_command (codes "GET" ∷ codes (position_key (pos 7)) ∷ [])))
unfolding encode_reply decimal position_text decimal_int
lookups_over_wire_example =
    lookups_over_wire hose redis_network values redis_roomy client 30 two_replies (pos 7) (pos 500)
      (negsuc 2) missing (codes "+OK") tt (omega arith) (omega arith, omega arith)
      (omega arith, omega arith) (omega arith) refl
