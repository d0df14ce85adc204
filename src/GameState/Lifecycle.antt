-- ===== src/GameState/Lifecycle.antt =====
-- The match's states, what refused calls leave alone, and who is in the game.
use multi_player_game.Common.{
  ℕ, ◌≤◌, ◌≡◌, Bool, true, false, not, ◌&&◌, ◌==◌, if◌then◌else◌, List, [], ◌∷◌, some, arith, ok,
  succeeded,
}
use multi_player_game.Common.Int.{ℤ, int_eq, beq_ℤ_iff, pos}
use multi_player_game.Common.Dict.{lookup, contains, erase, lookup-emplace, lookup-erase}
use multi_player_game.GameState.{
  GameState, PlayerState, fresh_player, MatchStatus, waiting, active, finished, finish_if_empty,
  add_player, remove_player, move_player, attack_player, set_score, record_event, has_player, Call,
  joins, leaves, moves, attacks, sets_score, records, takes_id, appends, step, run,
}

abbrev pub rank : MatchStatus → ℕ
rank waiting = 0
rank active = 1
rank finished = 2

attack_player-status :
    (i j : ℤ) (g : GameState) → rank g.status ≤ rank (attack_player i j g).1.status
unfolding attack_player
attack_player-status i j g = ground arith

step_advances : (c : Call) (g : GameState) → rank g.status ≤ rank (step c g).status
unfolding step add_player remove_player move_player set_score record_event
step_advances (joins i a b) g = ground arith
step_advances (leaves i) g = ground arith
step_advances (moves i x y) g = ground arith
step_advances (attacks i j) g = attack_player-status i j g
step_advances (sets_score i s) g = ground arith
step_advances (records i t d now) g = ground arith
step_advances takes_id g = ground arith
step_advances (appends id i t d now) g = ground arith

-- A match only goes forward, from waiting to active to finished, whatever calls are made.
pub run_advances : (cs : List Call) (g : GameState) → rank g.status ≤ rank (run cs g).status
unfolding run
run_advances [] g = omega arith
run_advances (c ∷ cs) g = omega (arith, step_advances c g, run_advances cs (step c g))

-- A player who joins a finished match is let in, and the match stays finished, with its old start.
pub join_finished :
    (i : ℤ) (a b : ℕ) (g : GameState)
    → g.status ≡ finished
    → has_player i g ≡ false
    → let (r, g') = add_player i a b g in
      (r ≡ ok tt)
      × (has_player i g' ≡ true)
      × (g'.status ≡ finished)
      × (g'.match_start ≡ g.match_start)
unfolding add_player has_player contains
join_finished i a b g s h =
    ground (arith, lookup-emplace i i (fresh_player i a) g.players, beq_ℤ_iff i i)

-- Whether a call is carried out.
abbrev pub accepted : Call → GameState → Bool
accepted (joins i a b) g = succeeded (add_player i a b g).0
accepted (leaves i) g = succeeded (remove_player i g).0
accepted (moves i x y) g = succeeded (move_player i x y g).0
accepted (attacks i j) g = succeeded (attack_player i j g).0
accepted (sets_score i s) g = succeeded (set_score i s g).0
accepted (records i t d now) g = true
accepted takes_id g = true
accepted (appends id i t d now) g = true

-- What the callers have to see to: who is in the game, and that nobody attacks themselves.
abbrev pub allowed : Call → GameState → Bool
allowed (joins i a b) g = not (has_player i g)
allowed (leaves i) g = has_player i g
allowed (moves i x y) g = has_player i g
allowed (attacks i j) g = not (i == j) && (has_player i g && has_player j g)
allowed (sets_score i s) g = has_player i g
allowed (records i t d now) g = true
allowed takes_id g = true
allowed (appends id i t d now) g = true

-- A call is carried out exactly when it is allowed, and a call that is refused changes nothing.
pub accepted-eq-allowed :
    (c : Call) (g : GameState)
    → (accepted c g ≡ allowed c g) × (accepted c g ≡ false → step c g ≡ g)
unfolding step add_player remove_player move_player attack_player set_score has_player contains
accepted-eq-allowed (joins i a b) g = ground arith
accepted-eq-allowed (leaves i) g = ground arith
accepted-eq-allowed (moves i x y) g = ground arith
accepted-eq-allowed (attacks i j) g = ground arith
accepted-eq-allowed (sets_score i s) g = ground arith
accepted-eq-allowed (records i t d now) g = ground arith
accepted-eq-allowed takes_id g = ground arith
accepted-eq-allowed (appends id i t d now) g = ground arith

pub finish_if_empty-players : (g : GameState) → (finish_if_empty g).players ≡ g.players
unfolding finish_if_empty
finish_if_empty-players g = ground arith

-- With somebody in the game there is nothing to finish.
pub finish_if_empty-found :
    (i : ℤ) (p : PlayerState) (g : GameState) → lookup i g.players ≡ some p → finish_if_empty g ≡ g
unfolding finish_if_empty lookup
finish_if_empty-found i p g e = ground arith

joined_found :
    (i : ℤ) (a b : ℕ) (g : GameState)
    → has_player i g ≡ false
    → (k : ℤ)
    → lookup k (add_player i a b g).1.players
      ≡ (if i == k then some (fresh_player i a) else lookup k g.players)
unfolding add_player has_player
joined_found i a b g h k = ground (arith, lookup-emplace k i (fresh_player i a) g.players)

-- Leaving right after joining gives score 0, and the players are those of before.
pub leave_after_join :
    (i : ℤ) (a b : ℕ) (g : GameState)
    → has_player i g ≡ false
    → let g' = (add_player i a b g).1 in
      let (r, g'') = remove_player i g' in
      (r ≡ ok (pos 0)) × ((k : ℤ) → lookup k g''.players ≡ lookup k g.players)
unfolding remove_player has_player contains
leave_after_join i a b g h = (
  ground (arith, joined_found i a b g h i, beq_ℤ_iff i i),
  λ k. ground (
    arith,
    joined_found i a b g h i,
    joined_found i a b g h k,
    beq_ℤ_iff i i,
    beq_ℤ_iff i k,
    lookup-erase k i (add_player i a b g).1.players,
    finish_if_empty-players
        (record (add_player i a b g).1 { players = erase i (add_player i a b g).1.players }),
  ),
)
