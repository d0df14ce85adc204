-- ===== src/RedisPool/Leases.antt =====
-- No connection is given out twice, and the pool keeps no more than its size.
use multi_player_game.Common.{
  ℕ, ◌+◌, ◌-◌, ◌≤◌, ◌≡◌, refl, List, [], ◌∷◌, ◌==◌, nat_eq, nat_beq_iff, length, if◌then◌else◌,
  arith,
}
use multi_player_game.RedisPool.{
  RedisPool, create, acquire, remove, count, release, give_back, Call, acquires, gives_back, step,
  run,
}

abbrev held : ℕ → RedisPool → ℕ
held c p = count c p.available + count c p.leased

pub record Inv (size : ℕ) (p : RedisPool) : Type 0 where
  pub same_size : p.pool_size ≡ size
  pub capped : length p.available ≤ p.pool_size
  pub once : (c : ℕ) → held c p ≤ 1
  pub fresh : (c : ℕ) → p.created ≤ c → held c p ≡ 0

count-remove :
    (c d : ℕ) (cs : List ℕ)
    → 1 ≤ count c cs
    → count d (remove c cs) ≡ (if c == d then count d cs - 1 else count d cs)
unfolding count remove
count-remove c d [] h = ground arith
count-remove c d (e ∷ es) h = ground (arith, count-remove c d es)

acquire_cases :
    (size n : ℕ) (cs leased : List ℕ) (k : ℕ)
    → Inv size (record { pool_size = n; available = cs; leased = leased; created = k })
    → Inv size (acquire (record { pool_size = n; available = cs; leased = leased; created = k })).1
unfolding acquire count
acquire_cases size n [] leased k v = record {
  same_size = v.same_size;
  capped = v.capped;
  once = λ d. ground (arith, v.once d, v.fresh d);
  fresh = λ d h. ground (arith, v.fresh d);
}
acquire_cases size n (c ∷ cs) leased k v = record {
  same_size = v.same_size;
  capped = omega (arith, v.capped);
  once = λ d. ground (arith, v.once d);
  fresh = λ d h. ground (arith, v.fresh d h);
}

give_back-Inv : (size c : ℕ) (p : RedisPool) → Inv size p → Inv size (give_back c p)
unfolding give_back release count
give_back-Inv size c p v = record {
  same_size = ground (arith, v.same_size);
  capped = ground (arith, v.capped);
  once = λ d. ground (arith, v.once d, count-remove c d p.leased);
  fresh = λ d h. ground (arith, v.fresh d, count-remove c d p.leased);
}

step-Inv : (size : ℕ) (c : Call) (p : RedisPool) → Inv size p → Inv size (step c p)
unfolding step
step-Inv size acquires p v = acquire_cases size p.pool_size p.available p.leased p.created v
step-Inv size (gives_back c) p v = give_back-Inv size c p v

run-Inv : (size : ℕ) (cs : List Call) (p : RedisPool) → Inv size p → Inv size (run cs p)
unfolding run
run-Inv size [] p v = v
run-Inv size (c ∷ cs) p v = run-Inv size cs (step c p) (step-Inv size c p v)

create-Inv : (size : ℕ) → Inv size (create size)
unfolding create count
create-Inv size = record {
  same_size = refl;
  capped = omega arith;
  once = λ c. omega arith;
  fresh = λ c h. refl;
}

acquired_once :
    (size n : ℕ) (cs leased : List ℕ) (k : ℕ)
    → Inv size (record { pool_size = n; available = cs; leased = leased; created = k })
    → let (c, p) =
        acquire (record { pool_size = n; available = cs; leased = leased; created = k }) in
      (count c leased ≡ 0) × (count c p.leased ≡ 1)
unfolding acquire count
acquired_once size n [] leased k v = ground (arith, v.fresh k, nat_beq_iff k k)
acquired_once size n (c ∷ cs) leased k v = ground (arith, v.once c, nat_beq_iff c c)

-- Whatever calls are made on a new pool: it keeps at most as many connections as its size; every
-- connection is in one place at most, in the pool or in one lease; and a connection that is
-- acquired next is leased to nobody else.
pub run_exclusive :
    (size : ℕ) (cs : List Call)
    → let p = run cs (create size) in
      let (c, p') = acquire p in
      (length p.available ≤ size)
      × ((d : ℕ) → count d p.available + count d p.leased ≤ 1)
      × (count c p.leased ≡ 0)
      × (count c p'.leased ≡ 1)
run_exclusive size cs =
    let v = run-Inv size cs (create size) (create-Inv size) in
    let p = run cs (create size) in
    let (before, after) = acquired_once size p.pool_size p.available p.leased p.created v in
    (omega (arith, v.capped, v.same_size), v.once, before, after)
