-- ===== src/GameState.antt =====
-- server/include/server/GameState.h and server/src/GameState.cpp: the players, the match, the log.
--
-- A method takes the object and gives its result and the object after the call; the lock makes it
-- one step, but for `recordEvent`, which takes the event's id before it. Clock readings are arguments, in the order in which the code takes them.
pub mod Invariant
pub mod Lifecycle
pub mod Combat
pub mod Elimination
pub mod EventLog
use multi_player_game.Common.{
  ℕ, ◌+◌, ◌-◌, ◌%◌, ◌^◌, ◌≡◌, String, Bool, true, false, ◌&&◌, List, [], ◌∷◌, ◌++◌, Option, none,
  some, ltb, ◌==◌, if◌then◌else◌, length, drop, Method, ok, err,
}
use multi_player_game.Common.Int.{ℤ, int_eq, pos, int_add, int_sub, max_ℤ, clamp_ℤ}
use multi_player_game.Common.Text.{◌<>◌, to_string}
use multi_player_game.Common.Dict.{Dict, lookup, contains, emplace, adjust, erase}

pub record PlayerState : Type 0 where
  pub player_id : ℤ
  pub x : ℤ
  pub y : ℤ
  pub health : ℤ
  pub score : ℤ
  pub kills : ℤ
  pub joined_at : ℕ

pub record GameEvent : Type 0 where
  pub event_id : ℕ
  pub player_id : ℤ
  pub event_type : String
  pub event_data : String
  pub timestamp : ℕ

pub data MatchStatus : Type 0 where
  waiting active finished : MatchStatus

pub record AttackResult : Type 0 where
  pub damage : ℤ
  pub target_health_after : ℤ
  pub attacker_score : ℤ
  pub target_eliminated : Bool

pub record GameState : Type 0 where
  pub players : Dict ℤ PlayerState
  pub events : List GameEvent
  pub status : MatchStatus
  pub match_start : ℕ
  pub next_event_id : ℕ
  pub total_kills : ℕ

abbrev pub map_min : ℤ
map_min = pos 0

abbrev pub map_max : ℤ
map_max = pos 1000

abbrev pub max_health : ℤ
max_health = pos 100

abbrev pub attack_damage : ℤ
attack_damage = pos 25

abbrev pub max_chat_len : ℕ
max_chat_len = 256

abbrev pub max_events : ℕ
max_events = 1000

-- The constructor `GameState()`.
unfoldable pub init : ℕ → GameState
init now = record {
  players = [];
  events = [];
  status = waiting;
  match_start = now;
  next_event_id = 1;
  total_kills = 0;
}

abbrev pub not_in_game : ℤ → String
not_in_game player_id = "player_id " <> to_string player_id <> " not in game"

-- A `PlayerState` with the default members of the header.
abbrev pub fresh_player : ℤ → ℕ → PlayerState
fresh_player player_id now = record {
  player_id = player_id;
  x = pos 500;
  y = pos 500;
  health = pos 100;
  score = pos 0;
  kills = pos 0;
  joined_at = now;
}

-- WAITING becomes ACTIVE on the first join.
unfoldable pub start_match : ℕ → GameState → GameState
start_match now g = elim g.status [
  | waiting ↦ record g { status = active; match_start = now }
  | _ ↦ g
]

-- ACTIVE becomes FINISHED when nobody is left.
unfoldable pub finish_if_empty : GameState → GameState
finish_if_empty g = elim g.status [
  | active ↦ elim g.players [ [] ↦ record g { status = finished } | _ ∷ _ ↦ g ]
  | _ ↦ g
]

unfoldable pub add_player : ℤ → ℕ → ℕ → Method GameState (Unit {0})
unfolding start_match
add_player player_id joined started g =
    if contains player_id g.players
    then (err ("player_id " <> to_string player_id <> " already in game"), g)
    else (
      ok tt,
      start_match started
          (record g { players = emplace player_id (fresh_player player_id joined) g.players }),
    )

-- Gives the final score.
unfoldable pub remove_player : ℤ → Method GameState ℤ
unfolding finish_if_empty
remove_player player_id g = elim (lookup player_id g.players) [
  | none ↦ (err (not_in_game player_id), g)
  | some p ↦ (ok p.score, finish_if_empty (record g { players = erase player_id g.players }))
]

abbrev pub place : ℤ → ℤ → PlayerState → PlayerState
place x y p = record p { x = clamp_ℤ x map_min map_max; y = clamp_ℤ y map_min map_max }

unfoldable pub move_player : ℤ → ℤ → ℤ → Method GameState (Unit {0})
move_player player_id x y g = elim (lookup player_id g.players) [
  | none ↦ (err (not_in_game player_id), g)
  | some _ ↦ (ok tt, record g { players = adjust player_id (place x y) g.players })
]

-- The target's health after one hit.
abbrev pub health_after : PlayerState → ℤ
health_after p = max_ℤ (pos 0) (int_sub p.health attack_damage)

abbrev pub hit : PlayerState → PlayerState
hit p = record p { health = health_after p }

abbrev pub award : ℤ → PlayerState → PlayerState
award pts p = record p { score = int_add p.score pts }

abbrev pub count_kill : PlayerState → PlayerState
count_kill p = record p { kills = int_add p.kills (pos 1) }

abbrev pub points : Bool → ℤ
points eliminated = if eliminated then pos 100 else pos 10

-- The writes of `attackPlayer`, by whether the target is eliminated.
unfoldable pub settle : ℤ → ℤ → Bool → GameState → GameState
unfolding finish_if_empty
settle attacker_id target_id true g = finish_if_empty (record g {
  players = erase target_id (
      adjust attacker_id count_kill
        (adjust attacker_id (award (points true)) (adjust target_id hit g.players)));
  total_kills = (g.total_kills + 1) % 2 ^ 64;
})
settle attacker_id target_id false g = record g {
  players = adjust attacker_id (award (points false)) (adjust target_id hit g.players);
}

-- The `AttackResult` of a hit.
abbrev pub attack_result : PlayerState → PlayerState → AttackResult
attack_result attacker target =
    let eliminated = health_after target == pos 0 in
    record {
      damage = attack_damage;
      target_health_after = health_after target;
      attacker_score = int_add attacker.score (points eliminated);
      target_eliminated = eliminated;
    }

unfoldable pub attack_player : ℤ → ℤ → Method GameState AttackResult
unfolding settle
attack_player attacker_id target_id g =
    if attacker_id == target_id
    then (err "cannot attack yourself", g)
    else elim (lookup attacker_id g.players) [
      | none ↦ (err ("attacker " <> to_string attacker_id <> " not in game"), g)
      | some attacker ↦ elim (lookup target_id g.players) [
        | none ↦ (err ("target " <> to_string target_id <> " not in game"), g)
        | some target ↦
            let result = attack_result attacker target in
            (ok result, settle attacker_id target_id result.target_eliminated g)
      ]
    ]

abbrev pub with_score : ℤ → PlayerState → PlayerState
with_score score p = record p { score = score }

unfoldable pub set_score : ℤ → ℤ → Method GameState (Unit {0})
set_score player_id score g = elim (lookup player_id g.players) [
  | none ↦ (err (not_in_game player_id), g)
  | some _ ↦ (ok tt, record g { players = adjust player_id (with_score score) g.players })
]

unfoldable pub has_player : ℤ → GameState → Bool
has_player player_id g = contains player_id g.players

unfoldable pub active_player_count : GameState → ℕ
active_player_count g = length g.players

unfoldable pub total_events : GameState → ℕ
total_events g = (g.next_event_id + 2 ^ 64 - 1) % 2 ^ 64

-- `m_events.push_back`, and `pop_front` above the cap.
abbrev pub push_event : GameEvent → List GameEvent → List GameEvent
push_event ev events =
    let pushed = events ++ ev ∷ [] in
    if ltb max_events (length pushed) then drop 1 pushed else pushed

-- `m_nextEventId.fetch_add(1)`, which takes no lock.
abbrev pub take_event_id : GameState → ℕ × GameState
take_event_id g = (g.next_event_id, record g { next_event_id = (g.next_event_id + 1) % 2 ^ 64 })

-- The critical section of `recordEvent`, with the id that the call has taken.
abbrev pub append_event : ℕ → ℤ → String → String → ℕ → GameState → GameState
append_event event_id player_id event_type event_data now g = record g {
  events =
      push_event
        (record {
          event_id = event_id;
          player_id = player_id;
          event_type = event_type;
          event_data = event_data;
          timestamp = now;
        })
        g.events;
}

unfoldable pub record_event : ℤ → String → String → ℕ → GameState → GameState
record_event player_id event_type event_data now g =
    let (event_id, g') = take_event_id g in
    append_event event_id player_id event_type event_data now g'

-- The last n elements of the log, or all of it.
unfoldable pub recent_events : ℕ → GameState → List GameEvent
recent_events n g = drop (if ltb n (length g.events) then length g.events - n else 0) g.events

unfoldable pub match_status_string : MatchStatus → String
match_status_string waiting = "WAITING"
match_status_string active = "ACTIVE"
match_status_string finished = "FINISHED"

-- A call of a method that writes, with the clock readings that it takes. Each is one critical section,
-- but for `recordEvent`: `records` is a call that no other comes in between, and where others do,
-- its two steps stand on their own, `takes_id` and, with the id that it gave, `appends`.
pub data Call : Type 0 where
  joins : ℤ → ℕ → ℕ → Call
  leaves : ℤ → Call
  moves : ℤ → ℤ → ℤ → Call
  attacks : ℤ → ℤ → Call
  sets_score : ℤ → ℤ → Call
  records : ℤ → String → String → ℕ → Call
  takes_id : Call
  appends : ℕ → ℤ → String → String → ℕ → Call

unfoldable pub step : Call → GameState → GameState
step (joins i joined started) g = (add_player i joined started g).1
step (leaves i) g = (remove_player i g).1
step (moves i x y) g = (move_player i x y g).1
step (attacks i j) g = (attack_player i j g).1
step (sets_score i s) g = (set_score i s g).1
step (records i t d now) g = record_event i t d now g
step takes_id g = (take_event_id g).1
step (appends id i t d now) g = append_event id i t d now g

unfoldable pub run : List Call → GameState → GameState
run [] g = g
run (c ∷ cs) g = run cs (step c g)
