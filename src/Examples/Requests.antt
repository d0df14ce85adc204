-- ===== src/Examples/Requests.antt =====
-- The request handler with concrete JSON values, messages of three bytes, and stores that count their
-- calls.
use multi_player_game.Common.{
  ℕ, ◌+◌, ◌%◌, ◌^◌, ◌≡◌, refl, String, Bool, true, false, if◌then◌else◌, ◌==◌, string_eq, nat_eq,
  List, [], ◌∷◌, Option, none, some, arith, length,
}
use multi_player_game.Common.Int.{ℤ, int_eq, int_add, int_sub, pos}
use multi_player_game.Common.Dict.{lookup, contains, emplace, adjust}
use multi_player_game.Json.{JsonApi}
use multi_player_game.Backends.{cache_miss, database_operation, count_all, CacheApi, DatabaseApi}
use multi_player_game.Metrics.{reset, add_one}
use multi_player_game.GameState.{init, add_player, attack_player, record_event}
use multi_player_game.GameState.Invariant.{Inv, init-Inv}
use multi_player_game.RequestHandler.World.{Clock, World, error_response, require_int}
use multi_player_game.RequestHandler.Dispatch.{
  handle, respond_to, finish, perform, counting, respond, is_ok,
}
use multi_player_game.RequestHandler.Actions.{with_cache, with_database, handle_join}
use multi_player_game.RequestHandler.Play.{handle_attack}
use multi_player_game.RequestHandler.Transaction.{Transacted, handle_transacts}
use multi_player_game.RequestHandler.Mirrors.Unseen.{asks_metrics, backends_unseen}
use multi_player_game.RequestHandler.Traffic.{handle_all, traffic_counts, traffic-Inv}

mutual
  pub data Value : Type 0 where
    text : String → Value
    whole : ℤ → Value
    truth : Bool → Value
    real : ℕ → Value
    items : List ℕ → Value
    members : Members → Value

  pub data Members : Type 0 where
    nothing : Members
    member : String → Value → Members → Members

unfoldable pub find : String → Members → Option Value
find k nothing = none
find k (member l v ms) = if l == k then some v else find k ms

unfoldable pub to_members : List (String × Value) → Members
to_members [] = nothing
to_members ((k, v) ∷ fields) = member k v (to_members fields)

abbrev pub get : String → Value → Option Value
get k (members ms) = find k ms
get k _ = none

abbrev is_object : Value → Bool
is_object (members _) = true
is_object _ = false

abbrev set : String → Value → Value → Value
set k v (members ms) = members (member k v ms)
set k v j = j

abbrev as_string : Value → Option String
as_string (text s) = some s
as_string _ = none

abbrev as_integer : Value → Option ℤ
as_integer (whole z) = some z
as_integer _ = none

abbrev pub request : String → List (String × Value) → Option Value
request action fields = some (members (member "action" (text action) (to_members fields)))

-- Messages of three bytes, a kind and two ids, parse, and the empty one is `true`; others do not.
abbrev pub parse : List ℕ → Option Value
parse (kind ∷ i ∷ j ∷ []) =
    if kind == 1
    then request "JOIN" (("player_id", whole (pos i)) ∷ [])
    else if kind == 2
    then request "LEAVE" (("player_id", whole (pos i)) ∷ [])
    else if kind == 3
    then request "ATTACK" (("player_id", whole (pos i)) ∷ ("target_id", whole (pos j)) ∷ [])
    else request "GET_STATE" []
parse [] = some (truth true)
parse _ = none

abbrev dump : Value → List ℕ
dump (members ms) = elim (find "message" ms) [ none ↦ 1 ∷ [] | some _ ↦ 2 ∷ [] ]
dump _ = []

pub find-to_members :
    (k : String) (fields : List (String × Value)) → find k (to_members fields) ≡ lookup k fields
unfolding find to_members lookup
find-to_members k [] = refl
find-to_members k ((l, v) ∷ fields) = ground (arith, find-to_members k fields)

pub is_object-set : (k : String) (v j : Value) → is_object j ≡ true → is_object (set k v j) ≡ true
is_object-set k v (members ms) h = refl
is_object-set k v (text s) h = h
is_object-set k v (whole s) h = h
is_object-set k v (truth s) h = h
is_object-set k v (real s) h = h
is_object-set k v (items s) h = h

pub get-set :
    (k l : String) (v j : Value)
    → is_object j ≡ true
    → get k (set l v j) ≡ (if l == k then some v else get k j)
unfolding find
get-set k l v (members ms) h = refl
get-set k l v (text s) h = ground arith
get-set k l v (whole s) h = ground arith
get-set k l v (truth s) h = ground arith
get-set k l v (real s) h = ground arith
get-set k l v (items s) h = ground arith

abbrev pub values : JsonApi
values = record {
  Json = Value;
  Double = ℕ;
  parse = parse;
  dump = dump;
  object = λ fields. members (to_members fields);
  array = λ js. items (length js ∷ []);
  string = text;
  integer = whole;
  boolean = truth;
  double = real;
  get = get;
  is_object = is_object;
  set = set;
  as_string = as_string;
  as_integer = as_integer;
  seconds = λ n. n;
  average_ms = λ s n. s;
  zero_ms = 0;
  get-object = find-to_members;
  is_object-object = λ fields. refl;
  is_object-set = is_object-set;
  get-set = get-set;
  as_string-string = λ s. refl;
  as_integer-integer = λ z. refl;
}

-- A cache that is on and counts its writes, and never finds a session.
abbrev pub cache : CacheApi Value
cache = record {
  Cache = ℕ;
  is_enabled = λ c. true;
  set_player_session = λ i j c. c + 1;
  set_player_position = λ i x y c. c + 1;
  delete_player_session = λ i c. c + 1;
  get_player_session = λ i c. (false, cache_miss ∷ [], c);
}

abbrev pub database : DatabaseApi
database = record {
  Database = ℕ;
  upsert_player = λ i name score kills d. (database_operation 500 true ∷ [], d + 1);
  record_event = λ m i t e d. (database_operation 700 true ∷ [], d + 1);
}

abbrev pub clock : Clock
clock = record {
  joined = 10;
  started = 11;
  epoch = 12;
  recorded = 13;
  elapsed = 14;
  session = λ i. 20;
  latency = 90_000;
}

abbrev pub start : World ℕ ℕ
start = record { game = init 0; metrics = reset; cache = some 0; database = some 0 }

-- Two players join, one hits the other, and bytes that do not parse.
abbrev traffic : List (Clock × List ℕ)
traffic =
    (clock, 1 ∷ 7 ∷ 0 ∷ [])
    ∷ (clock, 1 ∷ 8 ∷ 0 ∷ [])
    ∷ (clock, 3 ∷ 7 ∷ 8 ∷ [])
    ∷ (clock, 255 ∷ [])
    ∷ []

-- The score of the first player, after all of it.
traffic_test :
    let g = (handle_all values cache database traffic start).game in
    lookup (pos 7) g.players
    ≡ some (record {
      player_id = pos 7;
      x = pos 500;
      y = pos 500;
      health = pos 100;
      score = pos 10;
      kills = pos 0;
      joined_at = 10;
    })
unfolding handle_all handle respond_to finish perform handle_join handle_attack counting respond
    is_ok error_response require_int with_cache with_database add_player attack_player record_event
    contains lookup emplace adjust int_add int_sub init reset find to_members count_all
traffic_test = refl

handle_transacts_example :
    let (bytes, w') = handle values cache database clock (1 ∷ 7 ∷ 0 ∷ []) start in
    (j : Value) × (bytes ≡ dump j)
    × Transacted values cache database (add_one start.metrics.latency_count) j start w'
handle_transacts_example = handle_transacts values cache database clock (1 ∷ 7 ∷ 0 ∷ []) start

traffic_counts_example :
    let m = (handle_all values cache database traffic start).metrics in
    (m.requests_total ≡ 4 % 2 ^ 64)
    × ((m.successful_requests + m.failed_requests) % 2 ^ 64 ≡ 4 % 2 ^ 64)
    × (m.latency_count ≡ 4 % 2 ^ 64)
traffic_counts_example = traffic_counts values cache database traffic start refl

traffic-Inv_example : Inv (handle_all values cache database traffic start).game
traffic-Inv_example = traffic-Inv values cache database traffic start (init-Inv 0)

-- A cache that is switched off, and a database that fails.
abbrev no_cache : CacheApi Value
no_cache = record cache { is_enabled = λ c. false }

abbrev failing_database : DatabaseApi
failing_database = record database {
  upsert_player = λ i name score kills d. (database_operation 500 false ∷ [], d);
  record_event = λ m i t e d. (database_operation 700 false ∷ [], d);
}

asks_state : asks_metrics values (5 ∷ 7 ∷ 0 ∷ []) ≡ false
unfolding asks_metrics find to_members
asks_state = refl

backends_unseen_example :
    let (bytes, v) =
      handle values cache database clock
        (5 ∷ 7 ∷ 0 ∷ [])
        (handle_all values cache database traffic start) in
    let (bytes', v') =
      handle values no_cache failing_database clock
        (5 ∷ 7 ∷ 0 ∷ [])
        (handle_all values no_cache failing_database traffic (record start { database = none })) in
    (bytes ≡ bytes') × (v.game ≡ v'.game)
backends_unseen_example =
    backends_unseen values cache no_cache database failing_database (record { quiet = λ i c. refl })
      (record { quiet = λ i c. refl }) traffic clock (5 ∷ 7 ∷ 0 ∷ []) start
      (record start { database = none }) refl asks_state
