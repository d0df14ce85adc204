-- ===== src/ConnectionManager/Identity.antt =====
-- Ids are never given twice, and every connection that was registered is open or was closed.
use multi_player_game.Common.{
  ℕ, suc, ◌+◌, ◌≤◌, ◌<◌, ◌^◌, ◌≡◌, refl, ◌∙◌, inl, inr, String, Bool, true, false, nat_eq, List, [],
  ◌∷◌, none, some, arith, Option-cases,
}
use multi_player_game.Common.Int.{ℤ}
use multi_player_game.Common.Dict.{
  Dict, lookup, contains, emplace, adjust, IsUnique, All, lookup-emplace, emplace-IsUnique,
  adjust-IsUnique, erase-IsUnique, length-adjust, length-erase,
}
use multi_player_game.Common.Dict.Entries.{lookup-All, emplace-All, adjust-All, erase-All}
use multi_player_game.ConnectionManager.{
  ConnectionInfo, ConnectionManager, init, take_id, count_connection, register_connection,
  unregister_connection, record_message_received, record_message_sent, one_received, one_sent,
  active_count, Call, registers, unregisters, receives, sends, step, run,
}

-- How many connections a sequence of calls registers, and how many it closes.
unfoldable pub opened : List Call → ℕ
opened [] = 0
opened (registers fd addr now ∷ cs) = suc (opened cs)
opened (c ∷ cs) = opened cs

abbrev closes : Call → ConnectionManager → ℕ
closes (unregisters id) m = elim (lookup id m.connections) [ none ↦ 0 | some _ ↦ 1 ]
closes (registers fd addr now) m = 0
closes (receives id) m = 0
closes (sends id) m = 0

pub closed : List Call → ConnectionManager → ℕ
closed [] m = 0
closed (c ∷ cs) m = closes c m + closed cs (step c m)

-- n ids have been given.
abbrev IsEntry : ℕ → ℕ → ConnectionInfo → Type 0
IsEntry n id c = (id ≤ n) × (c.connection_id ≡ id)

pub record Inv (n : ℕ) (m : ConnectionManager) : Type 0 where
  pub unique : IsUnique m.connections
  pub entries : All (IsEntry n) m.connections
  pub next : m.next_id ≡ suc n
  pub total : m.total_connections ≡ n

init-Inv : Inv 0 init
unfolding init
init-Inv = record { unique = tt; entries = tt; next = refl; total = refl }

-- An id that was not given yet is in use by nobody.
unused : (n id : ℕ) (d : Dict ℕ ConnectionInfo) → All (IsEntry n) d → n < id → contains id d ≡ false
unfolding contains
unused n id d a h = elim (Option-cases (lookup id d)) [
  | inl missing ↦ rw (missing, contains)
  | inr (c, e) ↦ absurd (omega (arith, (lookup-All (IsEntry n) id d a e).0))
]

later_entries : (n : ℕ) (d : Dict ℕ ConnectionInfo) → All (IsEntry n) d → All (IsEntry (suc n)) d
later_entries n [] a = tt
later_entries n ((id, c) ∷ d) a = ((omega arith, a.0.1), later_entries n d a.1)

register-Inv :
    (n : ℕ) (fd : ℤ) (addr : String) (now : ℕ) (m : ConnectionManager)
    → suc (suc n) < 2 ^ 64
    → Inv n m
    → Inv (suc n) (register_connection fd addr now m).1
unfolding register_connection
register-Inv n fd addr now m h v = record {
  unique = emplace-IsUnique m.next_id _ m.connections v.unique;
  entries =
      emplace-All (IsEntry (suc n)) m.next_id _ m.connections (omega (arith, v.next), refl)
        (later_entries n m.connections v.entries);
  next = omega (arith, v.next);
  total = omega (arith, v.total);
}

unregister-Inv : (n id : ℕ) (m : ConnectionManager) → Inv n m → Inv n (unregister_connection id m)
unfolding unregister_connection
unregister-Inv n id m v = elim (Option-cases (lookup id m.connections)) [
  | inl missing ↦ rw (missing, unregister_connection) v
  | inr (c, e) ↦
      rw (e, unregister_connection)
        (record {
          unique = erase-IsUnique id m.connections v.unique;
          entries = erase-All (IsEntry n) id m.connections v.entries;
          next = v.next;
          total = v.total;
        })
]

adjust-Inv :
    (n id : ℕ) (f : ConnectionInfo → ConnectionInfo) (m : ConnectionManager)
    → ((c : ConnectionInfo) → (f c).connection_id ≡ c.connection_id)
    → Inv n m
    → Inv n (record m { connections = adjust id f m.connections })
adjust-Inv n id f m keeps v = record {
  unique = adjust-IsUnique id f m.connections v.unique;
  entries = adjust-All (IsEntry n) id f m.connections (λ c h. (h.0, keeps c ∙ h.1)) v.entries;
  next = v.next;
  total = v.total;
}

received-Inv : (n id : ℕ) (m : ConnectionManager) → Inv n m → Inv n (record_message_received id m)
unfolding record_message_received
received-Inv n id m v = elim (Option-cases (lookup id m.connections)) [
  | inl missing ↦ rw (missing, record_message_received) v
  | inr (c, e) ↦ rw (e, record_message_received) (adjust-Inv n id one_received m (λ c. refl) v)
]

sent-Inv : (n id : ℕ) (m : ConnectionManager) → Inv n m → Inv n (record_message_sent id m)
unfolding record_message_sent
sent-Inv n id m v = elim (Option-cases (lookup id m.connections)) [
  | inl missing ↦ rw (missing, record_message_sent) v
  | inr (c, e) ↦ rw (e, record_message_sent) (adjust-Inv n id one_sent m (λ c. refl) v)
]

register-active_count :
    (n : ℕ) (fd : ℤ) (addr : String) (now : ℕ) (m : ConnectionManager)
    → Inv n m
    → active_count (register_connection fd addr now m).1 ≡ suc (active_count m)
unfolding active_count register_connection emplace
register-active_count n fd addr now m v =
    rw (unused n m.next_id m.connections v.entries (omega (arith, v.next)))

unregister-active_count :
    (n id : ℕ) (m : ConnectionManager)
    → Inv n m
    → active_count (unregister_connection id m) + closes (unregisters id) m ≡ active_count m
unfolding active_count unregister_connection
unregister-active_count n id m v = elim (Option-cases (lookup id m.connections)) [
  | inl missing ↦ ground arith
  | inr (c, e) ↦ ground (arith, length-erase id c m.connections v.unique e)
]

received-active_count :
    (id : ℕ) (m : ConnectionManager) → active_count (record_message_received id m) ≡ active_count m
unfolding active_count record_message_received
received-active_count id m = ground (arith, length-adjust id one_received m.connections)

sent-active_count :
    (id : ℕ) (m : ConnectionManager) → active_count (record_message_sent id m) ≡ active_count m
unfolding active_count record_message_sent
sent-active_count id m = ground (arith, length-adjust id one_sent m.connections)

-- A run from a state in which n ids were given.
abbrev Census : ℕ → List Call → ConnectionManager → Type 0
Census n cs m =
    Inv (n + opened cs) (run cs m)
    × (active_count (run cs m) + closed cs m ≡ active_count m + opened cs)

run-Census :
    (cs : List Call) (n : ℕ) (m : ConnectionManager)
    → n + opened cs + 1 < 2 ^ 64
    → Inv n m
    → Census n cs m
unfolding run step opened closed
run-Census [] n m h v = (let same : n + 0 ≡ n = omega arith in rw same v, omega arith)
run-Census (registers fd addr now ∷ cs) n m h v =
    let m' = (register_connection fd addr now m).1 in
    let (v', e) =
      run-Census cs (suc n) m' (omega arith) (register-Inv n fd addr now m (omega arith) v) in
    let same : n + suc (opened cs) ≡ suc n + opened cs = omega arith in
    (rw same v', omega (arith, e, register-active_count n fd addr now m v))
run-Census (unregisters id ∷ cs) n m h v =
    let (v', e) = run-Census cs n (unregister_connection id m) h (unregister-Inv n id m v) in
    (v', omega (arith, e, unregister-active_count n id m v))
run-Census (receives id ∷ cs) n m h v =
    let (v', e) = run-Census cs n (record_message_received id m) h (received-Inv n id m v) in
    (v', omega (arith, e, received-active_count id m))
run-Census (sends id ∷ cs) n m h v =
    let (v', e) = run-Census cs n (record_message_sent id m) h (sent-Inv n id m v) in
    (v', omega (arith, e, sent-active_count id m))

-- Below 2^64 - 2 registrations: the total is the number of registrations; the connections that are
-- active and those that were closed add up to it; and the next registration takes the next number
-- as its id, which no connection in the registry has, and one has afterwards.
pub run_census :
    (cs : List Call) (fd : ℤ) (addr : String) (now : ℕ)
    → opened cs + 2 < 2 ^ 64
    → let m = run cs init in
      let (id, m') = register_connection fd addr now m in
      (m.total_connections ≡ opened cs)
      × (active_count m + closed cs init ≡ opened cs)
      × (id ≡ suc (opened cs))
      × (contains id m.connections ≡ false)
      × (contains id m'.connections ≡ true)
unfolding register_connection contains active_count
run_census cs fd addr now h =
    let (v, e) = run-Census cs 0 init (omega arith) init-Inv in
    let empty : active_count init ≡ 0 = unfold init in refl in
    let absent : contains (run cs init).next_id (run cs init).connections ≡ false =
      unused (0 + opened cs) _ _ v.entries (omega (arith, v.next)) in
    (
      omega (arith, v.total),
      omega (arith, e, empty),
      omega (arith, v.next),
      absent,
      ground (
        arith,
        absent,
        lookup-emplace (run cs init).next_id (run cs init).next_id
            (record {
              connection_id = (run cs init).next_id;
              fd = fd;
              remote_addr = addr;
              connected_at = now;
              messages_received = 0;
              messages_sent = 0;
            })
            (run cs init).connections,
      ),
    )

-- Where in a run a registration is counted makes no difference: the count after its lock commutes
-- with every call.
step-count_connection :
    (c : Call) (m : ConnectionManager) → step c (count_connection m) ≡ count_connection (step c m)
unfolding step register_connection unregister_connection record_message_received record_message_sent
step-count_connection (registers fd addr now) m = refl
step-count_connection (unregisters id) m = elim (Option-cases (lookup id m.connections)) [
  | inl missing ↦ rw (missing, unregister_connection) refl
  | inr (c, e) ↦ rw (e, unregister_connection) refl
]
step-count_connection (receives id) m = elim (Option-cases (lookup id m.connections)) [
  | inl missing ↦ rw (missing, record_message_received) refl
  | inr (c, e) ↦ rw (e, record_message_received) refl
]
step-count_connection (sends id) m = elim (Option-cases (lookup id m.connections)) [
  | inl missing ↦ rw (missing, record_message_sent) refl
  | inr (c, e) ↦ rw (e, record_message_sent) refl
]

abbrev is_registration : Call → Bool
is_registration (registers fd addr now) = true
is_registration (unregisters id) = false
is_registration (receives id) = false
is_registration (sends id) = false

-- Nor does it make a difference where an id is taken, between calls that register nothing: the id is
-- the same, and so is the registry after both.
step-take_id :
    (c : Call) (m : ConnectionManager)
    → is_registration c ≡ false
    → (step c (take_id m).1 ≡ (take_id (step c m)).1) × ((take_id (step c m)).0 ≡ (take_id m).0)
unfolding step unregister_connection record_message_received record_message_sent
step-take_id (registers fd addr now) m h = absurd (ground arith)
step-take_id (unregisters id) m h = elim (Option-cases (lookup id m.connections)) [
  | inl missing ↦ rw (missing, unregister_connection) (refl, refl)
  | inr (c, e) ↦ rw (e, unregister_connection) (refl, refl)
]
step-take_id (receives id) m h = elim (Option-cases (lookup id m.connections)) [
  | inl missing ↦ rw (missing, record_message_received) (refl, refl)
  | inr (c, e) ↦ rw (e, record_message_received) (refl, refl)
]
step-take_id (sends id) m h = elim (Option-cases (lookup id m.connections)) [
  | inl missing ↦ rw (missing, record_message_sent) (refl, refl)
  | inr (c, e) ↦ rw (e, record_message_sent) (refl, refl)
]
