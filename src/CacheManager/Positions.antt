-- ===== src/CacheManager/Positions.antt =====
-- Positions that are stored and found again.
use multi_player_game.Common.{
  ℕ, suc, ◌≡◌, refl, Bool, true, false, List, [], ◌∷◌, ◌++◌, none, some, if◌then◌else◌, arith,
}
use multi_player_game.Common.Int.{ℤ, pos, negsuc, IsInt}
use multi_player_game.Common.Decimal.{
  decimal, decimal_int, AllDigits, decimal_lem, stoi-decimal_int,
}
use multi_player_game.Json.{JsonApi}
use multi_player_game.Backends.{cache_hit, cache_miss}
use multi_player_game.CacheManager.{
  found, RedisApi, connect, position_key, position_text, on_pool, split_at_comma, both_numbers,
  read_position, set_player_position, get_player_position,
}
use multi_player_game.CacheManager.Sessions.{IsStore}

split-digits :
    (ds rest : List ℕ) → AllDigits ds → split_at_comma (ds ++ b',' ∷ rest) ≡ some (ds, rest)
unfolding split_at_comma
split-digits [] rest h = refl
split-digits (d ∷ ds) rest (lo, hi, h) = ground (arith, split-digits ds rest h)

split-decimal_int :
    (z : ℤ) (rest : List ℕ)
    → split_at_comma (decimal_int z ++ b',' ∷ rest) ≡ some (decimal_int z, rest)
unfolding split_at_comma decimal_int
split-decimal_int (pos n) rest = split-digits (decimal n) rest (decimal_lem n).1
split-decimal_int (negsuc n) rest =
    rw (split-digits (decimal (suc n)) rest (decimal_lem (suc n)).1) refl

-- What a stored position is read as.
pub read_position-text :
    (x y : ℤ)
    → IsInt x
    → IsInt y
    → read_position (found (position_text x y)) ≡ (some (x, y), cache_hit ∷ [], false)
unfolding read_position position_text both_numbers
read_position-text x y hx hy =
    rw
      (
        read_position,
        split-decimal_int x (decimal_int y),
        stoi-decimal_int x hx,
        stoi-decimal_int y hy,
      )
      refl

module _ (json : JsonApi) (redis : RedisApi) where
  open redis use {Redis}

  -- With the cache enabled and a Redis that stores: a position of two `int`s that was stored for a
  -- player is found again, also where a coordinate is negative, and the look-up counts one hit and
  -- does not throw. With the cache disabled, storing returns false and the look-up counts one miss.
  pub position_round_trip :
      (store : IsStore redis) (enabled : Bool) (r : Redis) (player_id x y : ℤ)
      → IsInt x
      → IsInt y
      → let (stored, m) = set_player_position json redis player_id x y (connect enabled r) in
        (stored ≡ enabled)
        × ((get_player_position json redis player_id m).0 ≡ (
            if enabled
            then (some (x, y), cache_hit ∷ [], false)
            else (none, cache_miss ∷ [], false)))
  unfolding set_player_position get_player_position connect on_pool
  position_round_trip store true r i x y hx hy = (
    store.set_done _ _ _ _,
    rw (store.get-set (position_key i) (position_text x y) (pos 60) r, read_position)
        (read_position-text x y hx hy),
  )
  position_round_trip store false r i x y hx hy = (refl, refl)
