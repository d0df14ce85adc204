-- ===== src/CacheManager.antt =====
-- server/include/server/CacheManager.h and server/src/CacheManager.cpp: sessions and positions of
-- players in Redis.
--
-- `RedisApi` is what it calls of a pooled RedisConnection; the pool always gives a connection.
pub mod Sessions
pub mod Positions
pub mod Wire
use multi_player_game.Common.{
  ℕ, ◌≡◌, String, Bool, true, false, not, ◌||◌, List, [], ◌∷◌, Option, none, some, if◌then◌else◌,
  ◌++◌, nat_beq,
}
use multi_player_game.Common.Int.{ℤ, pos}
use multi_player_game.Common.Text.{◌<>◌, to_string}
use multi_player_game.Common.Decimal.{decimal_int, stoi}
use multi_player_game.Json.{JsonApi}
use multi_player_game.Backends.{Count, cache_hit, cache_miss, CacheApi}

-- What `RedisConnection::get` does: returns true with the value, returns false, or throws where the
-- length in the reply is no number.
pub data Fetched : Type 0 where
  found : List ℕ → Fetched
  absent : Fetched
  broken : Fetched

pub record RedisApi : Type 1 where
  pub Redis : Type 0
  pub ping : Redis → Bool × Redis
  pub set : String → List ℕ → ℤ → Redis → Bool × Redis
  pub get : String → Redis → Fetched × Redis
  pub del : String → Redis → Bool × Redis

pub record CacheManager (R : Type 0) : Type 0 where
  pub enabled : Bool
  pub pool : Option R

-- The constructor: a pool only where the cache is enabled.
unfoldable pub connect : {R : Type 0} → Bool → R → CacheManager R
connect enabled redis = record { enabled = enabled; pool = if enabled then some redis else none }

abbrev pub session_key : ℤ → String
session_key player_id = "session:player:" <> to_string player_id

abbrev pub position_key : ℤ → String
position_key player_id = "pos:player:" <> to_string player_id

-- The default of `setPlayerSession`.
abbrev pub session_ttl : ℤ
session_ttl = pos 300

abbrev pub set_enabled : {R : Type 0} → Bool → CacheManager R → CacheManager R
set_enabled enabled m = record m { enabled = enabled }

-- `if (!m_enabled || !m_pool) return …`, and else a call on a connection.
unfoldable pub on_pool : {R A : Type 0} → A → (R → A × R) → CacheManager R → A × CacheManager R
on_pool default f m = elim m.pool [
  | none ↦ (default, m)
  | some redis ↦
      let (a, redis') = f redis in
      if m.enabled then (a, record m { pool = some redis' }) else (default, m)
]

-- `std::to_string(x) + "," + std::to_string(y)`
unfoldable pub position_text : ℤ → ℤ → List ℕ
position_text x y = decimal_int x ++ b',' ∷ decimal_int y

-- What comes before and after the first comma, where there is one.
unfoldable pub split_at_comma : List ℕ → Option (List ℕ × List ℕ)
split_at_comma [] = none
split_at_comma (c ∷ cs) =
    let rest = split_at_comma cs in
    if nat_beq c b','
    then some ([], cs)
    else elim rest [ none ↦ none | some (before, after) ↦ some (c ∷ before, after) ]

-- A position if it is there, what is counted, and whether std::stoi throws.
abbrev pub Location : Type 0
Location = Option (ℤ × ℤ) × List Count × Bool

unfoldable pub both_numbers : Option ℤ → Option ℤ → Location
both_numbers none y = (none, [], true)
both_numbers (some x) none = (none, [], true)
both_numbers (some x) (some y) = (some (x, y), cache_hit ∷ [], false)

unfoldable pub read_position : Fetched → Location
unfolding both_numbers
read_position (found val) = elim (split_at_comma val) [
  | none ↦ (none, cache_miss ∷ [], false)
  | some (before, after) ↦ both_numbers (stoi before) (stoi after)
]
read_position absent = (none, cache_miss ∷ [], false)
read_position broken = (none, [], true)

module _ (json : JsonApi) (redis : RedisApi) where
  open json use {Json}
  open redis use {Redis}

  -- What a method gives back, and how it leaves the object.
  abbrev Cached : Type 0 → Type 0
  Cached A = CacheManager Redis → A × CacheManager Redis

  unfoldable pub is_available : Cached Bool
  unfolding on_pool
  is_available = on_pool false redis.ping

  unfoldable pub set_player_session : ℤ → Json → ℤ → Cached Bool
  unfolding on_pool
  set_player_session player_id session ttl =
      on_pool false (redis.set (session_key player_id) (json.dump session) ttl)

  -- The session if it is there, what is counted, and whether it throws.
  abbrev pub Lookup : Type 0
  Lookup = Option Json × List Count × Bool

  unfoldable pub read_session : Fetched → Lookup
  read_session (found raw_json) = elim (json.parse raw_json) [
    | some session ↦ (some session, cache_hit ∷ [], false)
    | none ↦ (none, cache_miss ∷ [], false)
  ]
  read_session absent = (none, cache_miss ∷ [], false)
  read_session broken = (none, [], true)

  unfoldable pub get_player_session : ℤ → Cached Lookup
  unfolding on_pool read_session
  get_player_session player_id =
      on_pool (none, cache_miss ∷ [], false)
        (λ r. let (fetched, r') = redis.get (session_key player_id) r in (read_session fetched, r'))

  unfoldable pub delete_player_session : ℤ → Cached Bool
  unfolding on_pool
  delete_player_session player_id = on_pool false (redis.del (session_key player_id))

  unfoldable pub set_player_position : ℤ → ℤ → ℤ → Cached Bool
  unfolding on_pool
  set_player_position player_id x y =
      on_pool false (redis.set (position_key player_id) (position_text x y) (pos 60))

  unfoldable pub get_player_position : ℤ → Cached Location
  unfolding on_pool read_position
  get_player_position player_id =
      on_pool (none, cache_miss ∷ [], false)
        (λ r.
          let (fetched, r') = redis.get (position_key player_id) r in (read_position fetched, r'))

  -- The interface that the request handler uses.
  unfoldable pub cache_api : CacheApi Json
  unfolding set_player_session set_player_position delete_player_session get_player_session
  cache_api = record {
    Cache = CacheManager Redis;
    is_enabled = λ m. m.enabled;
    set_player_session = λ i j m. (set_player_session i j session_ttl m).1;
    set_player_position = λ i x y m. (set_player_position i x y m).1;
    delete_player_session = λ i m. (delete_player_session i m).1;
    get_player_session =
        λ i m. let ((_, counts, throwing), m') = get_player_session i m in (throwing, counts, m');
  }
