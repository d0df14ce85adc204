-- ===== src/Examples/Stores.antt =====
-- A Redis that is an association list, and the exported text.
use multi_player_game.Common.{
  ℕ, ◌+◌, ◌≤◌, ◌≡◌, refl, String, true, false, ◌==◌, string_eq, if◌then◌else◌, List, [], ◌∷◌, some,
  arith, length,
}
use multi_player_game.Common.Int.{pos, negsuc}
use multi_player_game.Backends.{cache_hit}
use multi_player_game.CacheManager.{
  Fetched, found, absent, RedisApi, connect, set_player_position, get_player_position,
}
use multi_player_game.CacheManager.Sessions.{IsStore}
use multi_player_game.CacheManager.Positions.{position_round_trip}
use multi_player_game.RedisPool.{create, acquire, count, Call, acquires, gives_back, run}
use multi_player_game.RedisPool.Leases.{run_exclusive}
use multi_player_game.Examples.Requests.{values}

abbrev Entries : Type 0
Entries = List (String × List ℕ)

fetch : String → Entries → Fetched
fetch k [] = absent
fetch k ((l, v) ∷ r) = if l == k then found v else fetch k r

abbrev redis : RedisApi
redis = record {
  Redis = Entries;
  ping = λ r. (true, r);
  set = λ k v ttl r. (true, (k, v) ∷ r);
  get = λ k r. (fetch k r, r);
  del = λ k r. (true, r);
}

fetch_set : (k : String) (v : List ℕ) (r : Entries) → fetch k ((k, v) ∷ r) ≡ found v
unfolding fetch
fetch_set k v r = ground (arith, string_eq.decides k k)

redis_store : IsStore redis
redis_store = record { set_done = λ k v ttl r. refl; get-set = λ k v ttl r. fetch_set k v r }

position_round_trip_example :
    let (stored, m) =
      set_player_position values redis (pos 7) (pos 640) (negsuc 2) (connect true []) in
    (stored ≡ true)
    × ((get_player_position values redis (pos 7) m).0
        ≡ (some (pos 640, negsuc 2), cache_hit ∷ [], false))
position_round_trip_example =
    position_round_trip values redis redis_store true [] (pos 7) (pos 640) (negsuc 2)
      (omega arith, omega arith) (omega arith, omega arith)

abbrev leases : List Call
leases = acquires ∷ acquires ∷ gives_back 0 ∷ gives_back 1 ∷ acquires ∷ []

run_exclusive_example :
    let p = run leases (create 1) in
    let (c, p') = acquire p in
    (length p.available ≤ 1)
    × ((d : ℕ) → count d p.available + count d p.leased ≤ 1)
    × (count c p.leased ≡ 0)
    × (count c p'.leased ≡ 1)
run_exclusive_example = run_exclusive 1 leases
