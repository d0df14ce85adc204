-- ===== src/GameState/Invariant.antt =====
-- Well-formedness of the game state, kept by every method.
use multi_player_game.Common.{
  ℕ, ◌-◌, ◌≤◌, ◌≡◌, refl, ◌≢◌, inl, inr, String, Bool, true, false, ◌==◌, List, [], ◌∷◌, ◌++◌, some,
  arith, length, length-append, length-drop, Option-cases, Bool-cases,
}
use multi_player_game.Common.Int.{
  ℤ, int_eq, beq_ℤ_iff, pos, negsuc, pos_part, ◌≤ℤ◌, int_sub, max_ℤ, clamp_ℤ_bounds,
}
use multi_player_game.Common.Dict.{
  Dict, lookup, contains, emplace, adjust, IsUnique, All, emplace-IsUnique, adjust-IsUnique,
  erase-IsUnique,
}
use multi_player_game.Common.Dict.Entries.{
  emplace-All, adjust-All, adjust-All_found, adjust-All-but, All-but, erase-All, erase-All-but,
  lookup-All,
}
use multi_player_game.GameState.{
  GameState, PlayerState, GameEvent, MatchStatus, waiting, active, finished, init, start_match,
  finish_if_empty, add_player, remove_player, move_player, settle, points, attack_player, set_score,
  record_event, take_event_id, append_event, takes_id, appends, place, hit, award, count_kill,
  with_score, health_after, fresh_player, map_min, map_max, max_health, attack_damage, max_events,
  push_event, Call, joins, leaves, moves, attacks, sets_score, records, step, run,
}

-- A player who is in the game is on the map and alive, and is stored under their own id.
pub record IsPlayer (k : ℤ) (p : PlayerState) : Type 0 where
  pub own : p.player_id ≡ k
  pub x_low : map_min ≤ℤ p.x
  pub x_high : p.x ≤ℤ map_max
  pub y_low : map_min ≤ℤ p.y
  pub y_high : p.y ≤ℤ map_max
  pub alive : pos 1 ≤ℤ p.health
  pub full : p.health ≤ℤ max_health

-- Nobody is in a match that waits, somebody in one that is active.
abbrev pub Fits : MatchStatus → Dict ℤ PlayerState → Type 0
Fits waiting ps = ps ≡ []
Fits active ps = ps ≢ []
Fits finished ps = Unit {0}

pub record Inv (g : GameState) : Type 0 where
  pub unique : IsUnique g.players
  pub valid : All IsPlayer g.players
  pub fits : Fits g.status g.players
  pub capped : length g.events ≤ max_events

pub init-Inv : (now : ℕ) → Inv (init now)
unfolding init
init-Inv now = record { unique = tt; valid = tt; fits = refl; capped = omega arith }

fresh_player-IsPlayer : (k : ℤ) (now : ℕ) → IsPlayer k (fresh_player k now)
fresh_player-IsPlayer k now = ground arith

place-IsPlayer : (k x y : ℤ) (p : PlayerState) → IsPlayer k p → IsPlayer k (place x y p)
place-IsPlayer k x y p v = record {
  own = v.own;
  x_low = (clamp_ℤ_bounds x map_min map_max (omega arith)).0;
  x_high = (clamp_ℤ_bounds x map_min map_max (omega arith)).1;
  y_low = (clamp_ℤ_bounds y map_min map_max (omega arith)).0;
  y_high = (clamp_ℤ_bounds y map_min map_max (omega arith)).1;
  alive = v.alive;
  full = v.full;
}

-- One hit takes 25 points away, and stops at 0.
hit_points :
    (z : ℤ)
    → pos 1 ≤ℤ z
    → z ≤ℤ max_health
    → max_ℤ (pos 0) (int_sub z attack_damage) ≡ pos (pos_part z - 25)
unfolding int_sub
hit_points (pos h) low high = ground arith
hit_points (negsuc h) low high = absurd (omega arith)

pub health_after_lem :
    (p : PlayerState)
    → pos 1 ≤ℤ p.health
    → p.health ≤ℤ max_health
    → health_after p ≡ pos (pos_part p.health - 25)
health_after_lem p low high = hit_points p.health low high

hit-IsPlayer :
    (k : ℤ) (p : PlayerState) → IsPlayer k p → health_after p ≢ pos 0 → IsPlayer k (hit p)
hit-IsPlayer k p v more = ground (arith, health_after_lem p v.alive v.full)

Fits-adjust :
    (s : MatchStatus) (k : ℤ) (f : PlayerState → PlayerState) (ps : Dict ℤ PlayerState)
    → Fits s ps
    → Fits s (adjust k f ps)
unfolding adjust
Fits-adjust waiting k f [] h = refl
Fits-adjust waiting k f (p ∷ ps) h = cc
Fits-adjust active k f [] h = h
Fits-adjust active k f (p ∷ ps) h = λ e. cc
Fits-adjust finished k f ps h = tt

-- The rest of the state that `finish_if_empty` needs.
finish_if_empty-Inv :
    (g : GameState)
    → IsUnique g.players
    → All IsPlayer g.players
    → g.status ≢ waiting
    → length g.events ≤ max_events
    → Inv (finish_if_empty g)
unfolding finish_if_empty
finish_if_empty-Inv g u a s c =
    let same : (finish_if_empty g).players ≡ g.players = ground arith in
    record { unique = ground arith; valid = rw same a; fits = ground arith; capped = ground arith }

start_match-Inv :
    (now : ℕ) (g : GameState)
    → IsUnique g.players
    → All IsPlayer g.players
    → g.players ≢ []
    → length g.events ≤ max_events
    → Inv (start_match now g)
unfolding start_match
start_match-Inv now g u a s c =
    let same : (start_match now g).players ≡ g.players = ground arith in
    record { unique = ground arith; valid = rw same a; fits = ground arith; capped = ground arith }

emplace-ne-nil :
    (i : ℤ) (p : PlayerState) (ps : Dict ℤ PlayerState)
    → contains i ps ≡ false
    → emplace i p ps ≢ []
unfolding emplace
emplace-ne-nil i p ps absent = rw absent (λ e. cc)

add_player-Inv : (i : ℤ) (a b : ℕ) (g : GameState) → Inv g → Inv (add_player i a b g).1
unfolding add_player
add_player-Inv i a b g v = elim (Bool-cases (contains i g.players)) [
  | inl there ↦ rw there v
  | inr absent ↦ rw absent (
      start_match-Inv b _ (emplace-IsUnique i _ g.players v.unique)
        (emplace-All IsPlayer i _ g.players (fresh_player-IsPlayer i a) v.valid)
        (emplace-ne-nil i _ g.players absent) v.capped)
]

-- A player who is found shows that the match does not wait.
not_waiting :
    (i : ℤ) (p : PlayerState) (g : GameState)
    → Inv g
    → lookup i g.players ≡ some p
    → g.status ≢ waiting
unfolding lookup
not_waiting i p g v e = ground (arith, v.fits)

remove_player-Inv : (i : ℤ) (g : GameState) → Inv g → Inv (remove_player i g).1
unfolding remove_player
remove_player-Inv i g v = elim (Option-cases (lookup i g.players)) [
  | inl missing ↦ rw (missing, remove_player) v
  | inr (p, e) ↦
      rw (e, remove_player)
        (finish_if_empty-Inv _ (erase-IsUnique i g.players v.unique)
          (erase-All IsPlayer i g.players v.valid) (not_waiting i p g v e) v.capped)
]

-- An update of one player that keeps them well-formed.
adjust-Inv :
    (i : ℤ) (f : PlayerState → PlayerState) (g : GameState)
    → Inv g
    → All IsPlayer (adjust i f g.players)
    → Inv (record g { players = adjust i f g.players })
adjust-Inv i f g v a = record {
  unique = adjust-IsUnique i f g.players v.unique;
  valid = a;
  fits = Fits-adjust g.status i f g.players v.fits;
  capped = v.capped;
}

move_player-Inv : (i x y : ℤ) (g : GameState) → Inv g → Inv (move_player i x y g).1
unfolding move_player
move_player-Inv i x y g v = elim (Option-cases (lookup i g.players)) [
  | inl missing ↦ rw (missing, move_player) v
  | inr (p, e) ↦
      rw (e, move_player)
        (adjust-Inv i (place x y) g v
          (adjust-All IsPlayer i (place x y) g.players (place-IsPlayer i x y) v.valid))
]

award-IsPlayer : (k pts : ℤ) (p : PlayerState) → IsPlayer k p → IsPlayer k (award pts p)
award-IsPlayer k pts p v = assumption v

count_kill-IsPlayer : (k : ℤ) (p : PlayerState) → IsPlayer k p → IsPlayer k (count_kill p)
count_kill-IsPlayer k p v = assumption v

with_score-IsPlayer : (k s : ℤ) (p : PlayerState) → IsPlayer k p → IsPlayer k (with_score s p)
with_score-IsPlayer k s p v = assumption v

set_score-Inv : (i s : ℤ) (g : GameState) → Inv g → Inv (set_score i s g).1
unfolding set_score
set_score-Inv i s g v = elim (Option-cases (lookup i g.players)) [
  | inl missing ↦ rw (missing, set_score) v
  | inr (p, e) ↦
      rw (e, set_score)
        (adjust-Inv i (with_score s) g v
          (adjust-All IsPlayer i (with_score s) g.players (with_score-IsPlayer i s) v.valid))
]

push_event_capped :
    (ev : GameEvent) (es : List GameEvent)
    → length es ≤ max_events
    → length (push_event ev es) ≤ max_events
push_event_capped ev es h =
    ground (arith, length-append es (ev ∷ []), length-drop 1 (es ++ ev ∷ []))

take_event_id-Inv : (g : GameState) → Inv g → Inv (take_event_id g).1
take_event_id-Inv g v = record {
  unique = v.unique;
  valid = v.valid;
  fits = v.fits;
  capped = v.capped;
}

append_event-Inv :
    (id : ℕ) (i : ℤ) (t d : String) (now : ℕ) (g : GameState)
    → Inv g
    → Inv (append_event id i t d now g)
append_event-Inv id i t d now g v = record {
  unique = v.unique;
  valid = v.valid;
  fits = v.fits;
  capped = push_event_capped _ g.events v.capped;
}

record_event-Inv :
    (i : ℤ) (t d : String) (now : ℕ) (g : GameState) → Inv g → Inv (record_event i t d now g)
unfolding record_event
record_event-Inv i t d now g v =
    append_event-Inv g.next_event_id i t d now _ (take_event_id-Inv g v)

-- The writes of an attack on a player who is found; `b` says whether they die.
settle-Inv :
    (i j : ℤ) (attacker target : PlayerState) (b : Bool) (g : GameState)
    → Inv g
    → lookup j g.players ≡ some target
    → (health_after target == pos 0) ≡ b
    → Inv (settle i j b g)
unfolding settle
settle-Inv i j attacker target true g v found dead =
    finish_if_empty-Inv _
      (erase-IsUnique j _
        (adjust-IsUnique i _ _ (adjust-IsUnique i _ _ (adjust-IsUnique j _ _ v.unique))))
      (erase-All-but IsPlayer j _ (
        adjust-All _ i count_kill _ (λ p h ne. count_kill-IsPlayer i p (h ne))
          (adjust-All _ i _ _ (λ p h ne. award-IsPlayer i _ p (h ne))
            (adjust-All-but IsPlayer j hit _ (All-but IsPlayer j _ v.valid)))))
      (not_waiting j target g v found) v.capped
settle-Inv i j attacker target false g v found alive = record {
  unique = adjust-IsUnique i _ _ (adjust-IsUnique j _ _ v.unique);
  valid = adjust-All IsPlayer i _ _ (award-IsPlayer i (points false)) (
      adjust-All_found IsPlayer j hit target _ v.unique found
        (hit-IsPlayer j target (lookup-All IsPlayer j _ v.valid found)
          (λ e. cc ((beq_ℤ_iff (health_after target) (pos 0)).1 e)))
        v.valid);
  fits = Fits-adjust g.status i _ _ (Fits-adjust g.status j hit g.players v.fits);
  capped = v.capped;
}

attack_player-Inv : (i j : ℤ) (g : GameState) → Inv g → Inv (attack_player i j g).1
unfolding attack_player
attack_player-Inv i j g v = elim (Bool-cases (i == j)) [
  | inl self ↦ rw self v
  | inr other ↦ elim (Option-cases (lookup i g.players)) [
    | inl missing ↦ rw (other, missing, attack_player) v
    | inr (a, ea) ↦ elim (Option-cases (lookup j g.players)) [
      | inl missing ↦ rw (other, ea, missing, attack_player) v
      | inr (t, et) ↦ rw (other, ea, et, attack_player) (settle-Inv i j a t _ g v et refl)
    ]
  ]
]

-- Every method keeps the state well-formed.
step-Inv : (c : Call) (g : GameState) → Inv g → Inv (step c g)
unfolding step
step-Inv (joins i a b) g v = add_player-Inv i a b g v
step-Inv (leaves i) g v = remove_player-Inv i g v
step-Inv (moves i x y) g v = move_player-Inv i x y g v
step-Inv (attacks i j) g v = attack_player-Inv i j g v
step-Inv (sets_score i s) g v = set_score-Inv i s g v
step-Inv (records i t d now) g v = record_event-Inv i t d now g v
step-Inv takes_id g v = take_event_id-Inv g v
step-Inv (appends id i t d now) g v = append_event-Inv id i t d now g v

pub run-Inv : (cs : List Call) (g : GameState) → Inv g → Inv (run cs g)
unfolding run
run-Inv [] g v = v
run-Inv (c ∷ cs) g v = run-Inv cs (step c g) (step-Inv c g v)

-- After any sequence of calls on a new game, each player is stored once, under their own id, on
-- the map, with health from 1 to 100; nobody is in a waiting match, somebody in an active one; and
-- the log holds at most 1000 events.
pub run-init-Inv : (now : ℕ) (cs : List Call) → Inv (run cs (init now))
run-init-Inv now cs = run-Inv cs (init now) (init-Inv now)
