-- ===== src/GameState/EventLog.antt =====
-- The capped log against the list of everything that was ever recorded.
use multi_player_game.Common.{
  ℕ, ◌+◌, ◌-◌, ◌%◌, ◌^◌, ◌≤◌, ◌<◌, ◌≡◌, refl, subst, ◌∙◌, inl, inr, true, ltb, if◌then◌else◌, List,
  [], ◌∷◌, ◌++◌, append_assoc, append-nil, arith, length, Bool-cases, length-append, keep_last,
  keep_last_all, length-keep_last, keep_last_push, keep_last-keep_last,
}
use multi_player_game.Common.Int.{ℤ}
use multi_player_game.GameState.{
  GameState, GameEvent, init, max_events, push_event, add_player, remove_player, move_player,
  attack_player, set_score, record_event, take_event_id, append_event, recent_events, total_events,
  Call, joins, leaves, moves, attacks, sets_score, records, takes_id, appends, step, run,
}

-- What is put into the log by a sequence of calls, with nothing thrown away. The first id is given;
-- an event that is put in by a step of its own has the id that it brings.
unfoldable pub history : ℕ → List Call → List GameEvent
history id [] = []
history id (records i t d now ∷ cs) =
    record { event_id = id; player_id = i; event_type = t; event_data = d; timestamp = now }
    ∷ history ((id + 1) % 2 ^ 64) cs
history id (takes_id ∷ cs) = history ((id + 1) % 2 ^ 64) cs
history id (appends taken i t d now ∷ cs) =
    record { event_id = taken; player_id = i; event_type = t; event_data = d; timestamp = now }
    ∷ history id cs
history id (c ∷ cs) = history id cs

-- How many ids are taken.
pub ids_taken : List Call → ℕ
ids_taken [] = 0
ids_taken (records i t d now ∷ cs) = 1 + ids_taken cs
ids_taken (takes_id ∷ cs) = 1 + ids_taken cs
ids_taken (c ∷ cs) = ids_taken cs

push_event_keeps :
    (ev : GameEvent) (es : List GameEvent)
    → push_event ev (keep_last max_events es) ≡ keep_last max_events (es ++ ev ∷ [])
push_event_keeps ev es = elim (Bool-cases (ltb (length es) max_events)) [
  | inl room ↦
      let fits : length es ≤ max_events = ground arith in
      let fits' : length (es ++ ev ∷ []) ≤ max_events =
        ground (arith, length-append es (ev ∷ [])) in
      rw (keep_last_all max_events es fits, keep_last_all max_events (es ++ ev ∷ []) fits')
        (ground arith)
  | inr full ↦
      let cut : ltb max_events (length (keep_last max_events es ++ ev ∷ [])) ≡ true = ground (
        arith,
        length-append (keep_last max_events es) (ev ∷ []),
        length-keep_last max_events es,
      ) in
      rw cut (keep_last_push max_events ev es (ground arith))
]

-- Only `recordEvent` writes the log.
abbrev SameLog : GameState → GameState → Type 0
SameLog g g' = (g'.events ≡ g.events) × (g'.next_event_id ≡ g.next_event_id)

add_player-SameLog : (i : ℤ) (a b : ℕ) (g : GameState) → SameLog g (add_player i a b g).1
unfolding add_player
add_player-SameLog i a b g = ground arith

remove_player-SameLog : (i : ℤ) (g : GameState) → SameLog g (remove_player i g).1
unfolding remove_player
remove_player-SameLog i g = ground arith

move_player-SameLog : (i x y : ℤ) (g : GameState) → SameLog g (move_player i x y g).1
unfolding move_player
move_player-SameLog i x y g = ground arith

attack_player-SameLog : (i j : ℤ) (g : GameState) → SameLog g (attack_player i j g).1
unfolding attack_player
attack_player-SameLog i j g = ground arith

set_score-SameLog : (i s : ℤ) (g : GameState) → SameLog g (set_score i s g).1
unfolding set_score
set_score-SameLog i s g = ground arith

-- The log of a run from g is cut from `past` and what the run records.
abbrev Logs : List Call → List GameEvent → ℕ → GameState → Type 0
Logs cs past id g = (run cs g).events ≡ keep_last max_events (past ++ history id cs)

-- A first call that leaves the log alone.
carry :
    (cs : List Call) (past : List GameEvent) (g g' : GameState)
    → SameLog g g'
    → g.events ≡ keep_last max_events past
    → (g'.events ≡ keep_last max_events past → Logs cs past g'.next_event_id g')
    → Logs cs past g.next_event_id g'
carry cs past g g' same e rest = subst (λ id. Logs cs past id g') same.1 (rest (same.0 ∙ e))

run-events :
    (cs : List Call) (g : GameState) (past : List GameEvent)
    → g.events ≡ keep_last max_events past
    → Logs cs past g.next_event_id g
unfolding run history step record_event
run-events [] g past e = rw append-nil e
run-events (records i t d now ∷ cs) g past e =
    let ev : GameEvent = record {
      event_id = g.next_event_id;
      player_id = i;
      event_type = t;
      event_data = d;
      timestamp = now;
    } in
    rw (← append_assoc past (ev ∷ []) (history ((g.next_event_id + 1) % 2 ^ 64) cs))
      (run-events cs (record_event i t d now g) (past ++ ev ∷ []) (rw e (push_event_keeps ev past)))
run-events (takes_id ∷ cs) g past e = run-events cs (take_event_id g).1 past e
run-events (appends id i t d now ∷ cs) g past e =
    let ev : GameEvent = record {
      event_id = id;
      player_id = i;
      event_type = t;
      event_data = d;
      timestamp = now;
    } in
    rw (← append_assoc past (ev ∷ []) (history g.next_event_id cs)) (
      run-events cs (append_event id i t d now g) (past ++ ev ∷ [])
        (rw e (push_event_keeps ev past)))
run-events (joins i a b ∷ cs) g past e =
    carry cs past g _ (add_player-SameLog i a b g) e (run-events cs (add_player i a b g).1 past)
run-events (leaves i ∷ cs) g past e =
    carry cs past g _ (remove_player-SameLog i g) e (run-events cs (remove_player i g).1 past)
run-events (moves i x y ∷ cs) g past e =
    carry cs past g _ (move_player-SameLog i x y g) e (run-events cs (move_player i x y g).1 past)
run-events (attacks i j ∷ cs) g past e =
    carry cs past g _ (attack_player-SameLog i j g) e (run-events cs (attack_player i j g).1 past)
run-events (sets_score i s ∷ cs) g past e =
    carry cs past g _ (set_score-SameLog i s g) e (run-events cs (set_score i s g).1 past)

run-init-events :
    (now : ℕ) (cs : List Call) → (run cs (init now)).events ≡ keep_last max_events (history 1 cs)
unfolding init keep_last
run-init-events now cs = run-events cs (init now) [] refl

recent_events_lem : (n : ℕ) (g : GameState) → recent_events n g ≡ keep_last n g.events
unfolding recent_events keep_last
recent_events_lem n g =
    let same : (if ltb n (length g.events) then length g.events - n else 0) ≡ length g.events - n =
      ground arith in
    rw same

-- Whatever calls are made on a new game, by any threads, also with others between the two steps of a
-- `recordEvent`: the n latest events, for n up to 1000, are the last n of all that were ever put into
-- the log, each with the id that was brought along, in the order in which they were put in, which need
-- not be that of the ids.
pub recent_events-run :
    (now n : ℕ) (cs : List Call)
    → n ≤ max_events
    → recent_events n (run cs (init now)) ≡ keep_last n (history 1 cs)
recent_events-run now n cs h =
    rw (recent_events_lem n (run cs (init now)), run-init-events now cs)
      (keep_last-keep_last n max_events (history 1 cs) h)

run-next_event_id :
    (cs : List Call) (g : GameState)
    → g.next_event_id < 2 ^ 64
    → (run cs g).next_event_id ≡ (g.next_event_id + ids_taken cs) % 2 ^ 64
unfolding run ids_taken step record_event
run-next_event_id [] g h = omega arith
run-next_event_id (records i t d now ∷ cs) g h =
    omega (arith, run-next_event_id cs (record_event i t d now g) (omega arith))
run-next_event_id (takes_id ∷ cs) g h =
    omega (arith, run-next_event_id cs (take_event_id g).1 (omega arith))
run-next_event_id (appends id i t d now ∷ cs) g h =
    run-next_event_id cs (append_event id i t d now g) h
run-next_event_id (joins i a b ∷ cs) g h =
    ground (arith, add_player-SameLog i a b g, run-next_event_id cs (add_player i a b g).1)
run-next_event_id (leaves i ∷ cs) g h =
    ground (arith, remove_player-SameLog i g, run-next_event_id cs (remove_player i g).1)
run-next_event_id (moves i x y ∷ cs) g h =
    ground (arith, move_player-SameLog i x y g, run-next_event_id cs (move_player i x y g).1)
run-next_event_id (attacks i j ∷ cs) g h =
    ground (arith, attack_player-SameLog i j g, run-next_event_id cs (attack_player i j g).1)
run-next_event_id (sets_score i s ∷ cs) g h =
    ground (arith, set_score-SameLog i s g, run-next_event_id cs (set_score i s g).1)

-- `totalEvents` counts the calls of `recordEvent` that have taken their id, below 2^64 of them, also
-- those whose event the log has dropped or does not have yet.
pub total_events-run :
    (now : ℕ) (cs : List Call)
    → ids_taken cs < 2 ^ 64
    → total_events (run cs (init now)) ≡ ids_taken cs
unfolding total_events init
total_events-run now cs h = omega (arith, run-next_event_id cs (init now) (omega arith))
