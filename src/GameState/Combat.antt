-- ===== src/GameState/Combat.antt =====
-- What an attack does: to the two players, to the others, and over several hits.
use multi_player_game.Common.{
  ℕ, ◌+◌, ◌-◌, ◌%◌, ◌^◌, ◌≤◌, ◌≡◌, refl, ◌≢◌, inl, inr, Bool, true, false, leb, ◌==◌, if◌then◌else◌,
  none, some, arith, Option-cases, Bool-cases, ok,
}
use multi_player_game.Common.Int.{ℤ, int_eq, beq_ℤ_iff, pos, int_add}
use multi_player_game.Common.Dict.{Dict, lookup, adjust, erase, lookup-erase, lookup-adjust}
use multi_player_game.GameState.{
  GameState, PlayerState, attack_result, health_after, hit, award, count_kill, points, settle,
  attack_player,
}
use multi_player_game.GameState.Lifecycle.{finish_if_empty-found}
use multi_player_game.GameState.Invariant.{health_after_lem}

-- The attacker's record after the attack.
abbrev pub struck : Bool → PlayerState → PlayerState
struck true p = count_kill (award (points true) p)
struck false p = award (points false) p

-- The two maps that an attack makes, key by key.
module _ (i j k : ℤ) (attacker target : PlayerState) (ps : Dict ℤ PlayerState)
    (ne : (i == j) ≡ false) (found_i : lookup i ps ≡ some attacker)
    (found_j : lookup j ps ≡ some target) where
  lookup_scored :
      (pts : ℤ)
      → lookup k (adjust i (award pts) (adjust j hit ps)) ≡ (
          if i == k
          then some (award pts attacker)
          else if j == k
          then some (hit target)
          else lookup k ps)
  lookup_scored pts =
      simp lookup-adjust (ground (arith, beq_ℤ_iff i k, beq_ℤ_iff j k, beq_ℤ_iff i j))

  lookup_killed :
      (pts : ℤ)
      → lookup k (erase j (adjust i count_kill (adjust i (award pts) (adjust j hit ps)))) ≡ (
          if i == k
          then some (count_kill (award pts attacker))
          else if j == k
          then none
          else lookup k ps)
  lookup_killed pts = ground (
    arith,
    lookup-erase k j (adjust i count_kill (adjust i (award pts) (adjust j hit ps))),
    lookup-adjust k i count_kill (adjust i (award pts) (adjust j hit ps)),
    lookup_scored pts,
    beq_ℤ_iff i k,
    beq_ℤ_iff j k,
    beq_ℤ_iff i j,
  )

-- After a kill the attacker is still there, so the match goes on.
settle_killed :
    (i j : ℤ) (attacker target : PlayerState) (g : GameState)
    → (i == j) ≡ false
    → lookup i g.players ≡ some attacker
    → lookup j g.players ≡ some target
    → settle i j true g ≡ record g {
      players =
          erase j (adjust i count_kill (adjust i (award (points true)) (adjust j hit g.players)));
      total_kills = (g.total_kills + 1) % 2 ^ 64;
    }
unfolding settle
settle_killed i j a t g ne ei ej =
    finish_if_empty-found i (struck true a) _
      (ground (arith, beq_ℤ_iff i i, lookup_killed i j i a t g.players ne ei ej (points true)))

settle-lookup :
    (i j k : ℤ) (attacker target : PlayerState) (b : Bool) (g : GameState)
    → (i == j) ≡ false
    → lookup i g.players ≡ some attacker
    → lookup j g.players ≡ some target
    → lookup k (settle i j b g).players ≡ (
        if i == k
        then some (struck b attacker)
        else if j == k
        then (if b then none else some (hit target))
        else lookup k g.players)
settle-lookup i j k a t true g ne ei ej =
    rw (settle_killed i j a t g ne ei ej) (lookup_killed i j k a t g.players ne ei ej (points true))
settle-lookup i j k a t false g ne ei ej =
    unfold settle in lookup_scored i j k a t g.players ne ei ej (points false)

settle-status :
    (i j : ℤ) (attacker target : PlayerState) (b : Bool) (g : GameState)
    → (i == j) ≡ false
    → lookup i g.players ≡ some attacker
    → lookup j g.players ≡ some target
    → (settle i j b g).status ≡ g.status
settle-status i j a t true g ne ei ej = rw (settle_killed i j a t g ne ei ej)
settle-status i j a t false g ne ei ej = unfold settle in refl

settle-total_kills :
    (i j : ℤ) (attacker target : PlayerState) (b : Bool) (g : GameState)
    → (i == j) ≡ false
    → lookup i g.players ≡ some attacker
    → lookup j g.players ≡ some target
    → (settle i j b g).total_kills ≡ (if b then (g.total_kills + 1) % 2 ^ 64 else g.total_kills)
settle-total_kills i j a t true g ne ei ej = rw (settle_killed i j a t g ne ei ej)
settle-total_kills i j a t false g ne ei ej = unfold settle in refl

-- An attack never ends the match: the attacker stays in the game.
pub attack_keeps_status : (i j : ℤ) (g : GameState) → (attack_player i j g).1.status ≡ g.status
unfolding attack_player
attack_keeps_status i j g = elim (Bool-cases (i == j)) [
  | inl self ↦ rw self
  | inr ne ↦ elim (Option-cases (lookup i g.players)) [
    | inl missing ↦ rw (ne, missing, attack_player)
    | inr (a, ei) ↦ elim (Option-cases (lookup j g.players)) [
      | inl missing ↦ rw (ne, ei, missing, attack_player)
      | inr (t, ej) ↦ rw (ne, ei, ej, attack_player) (settle-status i j a t _ g ne ei ej)
    ]
  ]
]

attack_found :
    (i j : ℤ) (attacker target : PlayerState) (g : GameState)
    → (i == j) ≡ false
    → lookup i g.players ≡ some attacker
    → lookup j g.players ≡ some target
    → attack_player i j g
      ≡ (ok (attack_result attacker target), settle i j (health_after target == pos 0) g)
unfolding attack_player
attack_found i j a t g ne ei ej = rw (ne, ei, ej, attack_player)

-- An attack on another player with h points of health, from 1 to 100, deals 25 damage. With more
-- than 25 points the target keeps h - 25 and the attacker gains 10 points of score; otherwise the
-- target leaves the game, the attacker gains 100 points and one kill, and the match counts a kill.
-- No other player changes, nor does the match's state.
pub attack_effect :
    (i j : ℤ) (attacker target : PlayerState) (h : ℕ) (g : GameState)
    → i ≢ j
    → lookup i g.players ≡ some attacker
    → lookup j g.players ≡ some target
    → target.health ≡ pos h
    → 1 ≤ h
    → h ≤ 100
    → let (r, g') = attack_player i j g in
      (r
        ≡ ok (record {
          damage = pos 25;
          target_health_after = pos (h - 25);
          attacker_score = int_add attacker.score (if leb h 25 then pos 100 else pos 10);
          target_eliminated = leb h 25;
        }))
      × (lookup i g'.players
          ≡ some (
              if leb h 25
              then record attacker {
                score = int_add attacker.score (pos 100);
                kills = int_add attacker.kills (pos 1);
              }
              else record attacker { score = int_add attacker.score (pos 10) }))
      × (lookup j g'.players
          ≡ (if leb h 25 then none else some (record target { health = pos (h - 25) })))
      × ((k : ℤ) → k ≢ i → k ≢ j → lookup k g'.players ≡ lookup k g.players)
      × (g'.total_kills ≡ (if leb h 25 then (g.total_kills + 1) % 2 ^ 64 else g.total_kills))
      × (g'.status ≡ g.status)
attack_effect i j a t h g ne ei ej e low high =
    let ne' : (i == j) ≡ false = ground (arith, beq_ℤ_iff i j) in
    let after : health_after t ≡ pos (h - 25) = ground (arith, health_after_lem t) in
    let dead : (health_after t == pos 0) ≡ leb h 25 = rw after (ground arith) in
    rw (attack_found i j a t g ne' ei ej, dead, after)
      (
        refl,
        ground (arith, settle-lookup i j i a t (leb h 25) g ne' ei ej, beq_ℤ_iff i i),
        ground (arith, settle-lookup i j j a t (leb h 25) g ne' ei ej, beq_ℤ_iff j j),
        (λ k ki kj.
            ground (
              arith,
              settle-lookup i j k a t (leb h 25) g ne' ei ej,
              beq_ℤ_iff i k,
              beq_ℤ_iff j k,
            )),
        settle-total_kills i j a t (leb h 25) g ne' ei ej,
        settle-status i j a t (leb h 25) g ne' ei ej,
      )
