-- ===== src/RedisPool.antt =====
-- RedisPool of server/include/server/RedisClient.h and server/src/RedisClient.cpp: who has which
-- connection.
--
-- A connection is known by its number in the order of creation. The last element of the vector is
-- the first of the list. Whether a connection is connected is not looked at.
pub mod Leases
use multi_player_game.Common.{
  ℕ, suc, ◌+◌, ◌-◌, List, [], ◌∷◌, ◌==◌, nat_eq, ltb, length, if◌then◌else◌,
}

-- `leased` are the connections inside of a PooledConnection.
pub record RedisPool : Type 0 where
  pub pool_size : ℕ
  pub available : List ℕ
  pub leased : List ℕ
  pub created : ℕ

unfoldable pub create : ℕ → RedisPool
create pool_size = record { pool_size = pool_size; available = []; leased = []; created = 0 }

unfoldable pub acquire : RedisPool → ℕ × RedisPool
acquire p = elim p.available [
  | [] ↦ (p.created, record p { leased = p.created ∷ p.leased; created = p.created + 1 })
  | c ∷ rest ↦ (c, record p { available = rest; leased = c ∷ p.leased })
]

unfoldable pub remove : ℕ → List ℕ → List ℕ
remove c [] = []
remove c (d ∷ ds) = let rest = remove c ds in if d == c then ds else d ∷ rest

unfoldable pub count : ℕ → List ℕ → ℕ
count c [] = 0
count c (d ∷ ds) = let rest = count c ds in if d == c then suc rest else rest

-- What `release` does with the connection; a full pool closes it.
unfoldable pub release : ℕ → RedisPool → RedisPool
release c p =
    if ltb (length p.available) p.pool_size then record p { available = c ∷ p.available } else p

-- The destructor of a PooledConnection that has c.
unfoldable pub give_back : ℕ → RedisPool → RedisPool
unfolding release remove count
give_back c p =
    if ltb 0 (count c p.leased) then release c (record p { leased = remove c p.leased }) else p

pub data Call : Type 0 where
  acquires : Call
  gives_back : ℕ → Call

unfoldable pub step : Call → RedisPool → RedisPool
step acquires p = (acquire p).1
step (gives_back c) p = give_back c p

unfoldable pub run : List Call → RedisPool → RedisPool
run [] p = p
run (c ∷ cs) p = run cs (step c p)
