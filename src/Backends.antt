-- ===== src/Backends.antt =====
-- The two stores behind the game, as the request handler calls them: the methods of
-- server/include/server/CacheManager.h and server/include/server/DatabaseManager.h that it uses.
-- What they return is not used, so it is left out; what they count in the metrics registry is not.
use multi_player_game.Common.{ℕ, String, Bool, List, [], ◌∷◌}
use multi_player_game.Common.Int.{ℤ}
use multi_player_game.Metrics.{
  Metrics, increment_redis_cache_hits, increment_redis_cache_misses, record_database_operation,
}

-- A call of the registry that a store makes.
pub data Count : Type 0 where
  cache_hit : Count
  cache_miss : Count
  database_operation : ℕ → Bool → Count

unfoldable pub count_one : Count → Metrics → Metrics
count_one cache_hit m = increment_redis_cache_hits m
count_one cache_miss m = increment_redis_cache_misses m
count_one (database_operation t success) m = record_database_operation t success m

unfoldable pub count_all : List Count → Metrics → Metrics
unfolding count_one
count_all [] m = m
count_all (c ∷ cs) m = count_all cs (count_one c m)

pub record CacheApi (Json : Type 0) : Type 1 where
  pub Cache : Type 0
  pub is_enabled : Cache → Bool
  pub set_player_session : ℤ → Json → Cache → Cache
  pub set_player_position : ℤ → ℤ → ℤ → Cache → Cache
  pub delete_player_session : ℤ → Cache → Cache
  -- Whether it throws, what it counts, and the cache afterwards.
  pub get_player_session : ℤ → Cache → Bool × List Count × Cache

pub record DatabaseApi : Type 1 where
  pub Database : Type 0
  pub upsert_player : ℤ → String → ℤ → ℤ → Database → List Count × Database
  pub record_event : String → ℤ → String → String → Database → List Count × Database
