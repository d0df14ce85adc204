-- ===== src/GameState/Elimination.antt =====
-- Several attacks in a row, and what the scores come to.
use multi_player_game.Common.{
  ℕ, zero, suc, ◌+◌, ◌-◌, ◌*◌, ◌^◌, ◌≤◌, ◌<◌, ◌≡◌, refl, sym, subst, ◌≢◌, inl, inr, ltb, leb,
  if◌then◌else◌, List, [], ◌∷◌, none, some, arith, Bool-cases,
}
use multi_player_game.Common.Int.{ℤ, int_eq, pos, int_add, ◌<ℤ◌}
use multi_player_game.Common.Dict.{lookup}
use multi_player_game.GameState.{GameState, PlayerState, attack_player, Call, attacks, step, run}
use multi_player_game.GameState.Combat.{attack_effect}

-- Player i attacks player j, n times.
abbrev pub volley : ℤ → ℤ → ℕ → List Call
volley i j zero = []
volley i j (suc n) = attacks i j ∷ volley i j n

attack_gone : (i j : ℤ) (g : GameState) → lookup j g.players ≡ none → (attack_player i j g).1 ≡ g
unfolding attack_player
attack_gone i j g gone = ground arith

volley_gone :
    (i j : ℤ) (n : ℕ) (g : GameState) → lookup j g.players ≡ none → run (volley i j n) g ≡ g
unfolding run step
volley_gone i j zero g gone = refl
volley_gone i j (suc n) g gone =
    subst (λ x. run (volley i j n) x ≡ g) (sym (attack_gone i j g gone)) (volley_gone i j n g gone)

-- A player with h points of health, from 1 to 100, is in the game after n attacks of another
-- player exactly when 25 * n < h, and then has h - 25 * n points and is otherwise unchanged.
pub volley_lem :
    (i j : ℤ) (n : ℕ) (attacker target : PlayerState) (h : ℕ) (g : GameState)
    → i ≢ j
    → lookup i g.players ≡ some attacker
    → lookup j g.players ≡ some target
    → target.health ≡ pos h
    → 1 ≤ h
    → h ≤ 100
    → lookup j (run (volley i j n) g).players
      ≡ (if ltb (25 * n) h then some (record target { health = pos (h - 25 * n) }) else none)
unfolding run step
volley_lem i j zero a t h g ne ei ej e low high = ground arith
volley_lem i j (suc n) a t h g ne ei ej e low high = elim (Bool-cases (leb h 25)) [
  | inl dies ↦
      let gone : lookup j (attack_player i j g).1.players ≡ none =
        ground (arith, (attack_effect i j a t h g ne ei ej e low high).2) in
      rw (volley_gone i j n (attack_player i j g).1 gone) (ground arith)
  | inr lives ↦ ground (
    arith,
    volley_lem i j n (record a { score = int_add a.score (pos 10) })
        (record t { health = pos (h - 25) }) (h - 25) (attack_player i j g).1 ne
        (ground (arith, (attack_effect i j a t h g ne ei ej e low high).1))
        (ground (arith, (attack_effect i j a t h g ne ei ej e low high).2)) refl (ground arith)
        (ground arith),
  )
]

past_max : (s : ℕ) → s < 2 ^ 31 → 2 ^ 31 ≤ s + 10 → int_add (pos s) (pos 10) <ℤ pos 0
unfolding int_add
past_max s big over = ground arith

-- Signed overflow: the score of an attacker who has more than 2147483637 points turns negative
-- when they hit a player who survives.
pub score_overflow :
    (i j : ℤ) (attacker target : PlayerState) (s h : ℕ) (g : GameState)
    → i ≢ j
    → lookup i g.players ≡ some attacker
    → lookup j g.players ≡ some target
    → attacker.score ≡ pos s
    → s < 2 ^ 31
    → 2 ^ 31 ≤ s + 10
    → target.health ≡ pos h
    → 25 < h
    → h ≤ 100
    → (p : PlayerState) × (lookup i (attack_player i j g).1.players ≡ some p) × (p.score <ℤ pos 0)
score_overflow i j a t s h g ne ei ej es big over e alive high =
    let done = attack_effect i j a t h g ne ei ej e (omega arith) high in
    (
      record a { score = int_add a.score (pos 10) },
      ground (arith, done.1),
      rw es (past_max s big over),
    )
