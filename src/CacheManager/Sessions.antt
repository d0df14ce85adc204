-- ===== src/CacheManager/Sessions.antt =====
-- Sessions that are stored and found again, and what a look-up counts.
use multi_player_game.Common.{
  ℕ, ◌≡◌, refl, String, Bool, true, false, List, [], ◌∷◌, none, some, if◌then◌else◌,
}
use multi_player_game.Common.Int.{ℤ}
use multi_player_game.Json.{JsonApi}
use multi_player_game.Backends.{cache_hit, cache_miss}
use multi_player_game.CacheManager.{
  found, RedisApi, connect, session_key, on_pool, set_player_session, read_session,
  get_player_session,
}

-- A Redis that stores: a value that was set is found under its key, while it has not expired.
pub record IsStore (redis : RedisApi) : Type 0 where
  pub set_done :
      (k : String) (v : List ℕ) (ttl : ℤ) (r : redis.Redis) → (redis.set k v ttl r).0 ≡ true
  pub get-set :
      (k : String) (v : List ℕ) (ttl : ℤ) (r : redis.Redis)
      → (redis.get k (redis.set k v ttl r).1).0 ≡ found v

module _ (json : JsonApi) (redis : RedisApi) where
  open json use {Json}
  open redis use {Redis}

  -- With the cache enabled and a Redis that stores: a session that was stored for a player, if its
  -- text parses to it, is found again, and the look-up counts one hit and does not throw. With the
  -- cache disabled, storing returns false and the look-up counts one miss.
  pub session_round_trip :
      (store : IsStore redis) (enabled : Bool) (r : Redis) (player_id ttl : ℤ) (session : Json)
      → json.parse (json.dump session) ≡ some session
      → let (stored, m) = set_player_session json redis player_id session ttl (connect enabled r) in
        (stored ≡ enabled)
        × ((get_player_session json redis player_id m).0 ≡ (
            if enabled
            then (some session, cache_hit ∷ [], false)
            else (none, cache_miss ∷ [], false)))
  unfolding set_player_session get_player_session connect on_pool read_session
  session_round_trip store true r i ttl session e = (
    store.set_done _ _ _ _,
    rw (store.get-set (session_key i) (json.dump session) ttl r, read_session, e),
  )
  session_round_trip store false r i ttl session e = (refl, refl)
