-- ===== src/ThreadPool/Shutdown/Ends.antt =====
-- When `stop` returns: once it is requested and notified, the workers finish the queue and leave.
use multi_player_game.Common.{
  ℕ, ◌+◌, ◌*◌, ◌≤◌, ◌≡◌, refl, sym, ap, subst, ◌∙◌, Bool, true, false, List, [], ◌∷◌, ◌++◌,
  append_assoc, arith, length,
}
use multi_player_game.Common.Int.{ℤ}
use multi_player_game.ThreadPool.{
  Worker, arriving, drowsy, asleep, taking, handling, exited, Shared, ThreadPool, thread_count,
  create, request_stop, notify_all, Act, Event, submits, stops, notifies_all, joins, acts, step,
  run,
}
use multi_player_game.ThreadPool.{Task, all_have_left, join_all, submit}
use multi_player_game.ThreadPool.Leaving.{AllLeft, nth_act-Kept}
use multi_player_game.ThreadPool.Drain.{accepted, Drained, run_drains}
use multi_player_game.ThreadPool.Capacity.{create-Sized, Sized-length}
use multi_player_game.ThreadPool.Shutdown.Progress.{Awake, load-le}
use multi_player_game.ThreadPool.Leaving.{length-notify_all}
use multi_player_game.ThreadPool.Handing.{count}
use multi_player_game.ThreadPool.Shutdown.Rounds.{
  AllCover, AllCover-le, in_turn, run-append, rounds_end,
}

-- Whether a worker has tested, and has not gone to sleep yet: a notification misses it.
unfoldable pub missed : List Worker → Bool
missed [] = false
missed (drowsy ∷ ws) = true
missed (w ∷ ws) = missed ws

notified-Awake : (ws : List Worker) → missed ws ≡ false → Awake (notify_all ws)
unfolding notify_all missed
notified-Awake [] h = tt
notified-Awake (arriving ∷ ws) h = (refl, notified-Awake ws h)
notified-Awake (drowsy ∷ ws) h = absurd (ground arith)
notified-Awake (asleep ∷ ws) h = (refl, notified-Awake ws h)
notified-Awake (taking t ∷ ws) h = (refl, notified-Awake ws h)
notified-Awake (handling t ∷ ws) h = (refl, notified-Awake ws h)
notified-Awake (exited ∷ ws) h = (refl, notified-Awake ws h)

submit-stopping : (t : Task) (q : Shared) → (submit t q).stopping ≡ q.stopping
unfolding submit
submit-stopping t q = ground arith

stopping_stays :
    (es : List Event) (p : ThreadPool)
    → p.shared.stopping ≡ true
    → (run es p).shared.stopping ≡ true
unfolding run step request_stop
stopping_stays [] p h = h
stopping_stays (submits t ∷ es) p h =
    stopping_stays es (step (submits t) p) (submit-stopping t p.shared ∙ h)
stopping_stays (stops ∷ es) p h = stopping_stays es (step stops p) refl
stopping_stays (notifies_all ∷ es) p h = stopping_stays es (step notifies_all p) h
stopping_stays (joins ∷ es) p h = stopping_stays es (step joins p) h
stopping_stays (acts a i ∷ es) p h =
    let (_, _, kept, _) = nth_act-Kept a i p.workers p.shared in
    stopping_stays es (step (acts a i) p) (kept ∙ h)

accepted_late : (es : List Event) → accepted true es ≡ []
unfolding accepted
accepted_late [] = refl
accepted_late (submits t ∷ es) = accepted_late es
accepted_late (stops ∷ es) = accepted_late es
accepted_late (notifies_all ∷ es) = accepted_late es
accepted_late (joins ∷ es) = accepted_late es
accepted_late (acts a i ∷ es) = accepted_late es

accepted_stops : (es fs : List Event) (b : Bool) → accepted b (es ++ stops ∷ fs) ≡ accepted b es
unfolding accepted
accepted_stops [] fs b = accepted_late fs
accepted_stops (submits t ∷ es) fs true = accepted_stops es fs true
accepted_stops (submits t ∷ es) fs false = ap (◌∷◌ t) (accepted_stops es fs false)
accepted_stops (stops ∷ es) fs b = accepted_stops es fs true
accepted_stops (notifies_all ∷ es) fs b = accepted_stops es fs b
accepted_stops (joins ∷ es) fs b = accepted_stops es fs b
accepted_stops (acts a i ∷ es) fs b = accepted_stops es fs b

-- `stop`, with what other threads do between its store, its notification and its joins.
unfoldable pub stop_events : List Event → List (List (Act × ℕ)) → List Event
stop_events fs rounds = stops ∷ (fs ++ notifies_all ∷ in_turn rounds)

pub left_joined : (ws : List Worker) → AllLeft ws → all_have_left ws ≡ true
unfolding all_have_left
left_joined [] h = refl
left_joined (w ∷ ws) (e, h) = rw (e, left_joined ws h) refl

pub joined_none : (ws : List Worker) → all_have_left ws ≡ true → join_all ws ≡ []
unfolding join_all
joined_none ws e = rw e refl

-- `stop` returns, if its notification misses nobody and the handlers return. Let it come after any
-- events, with any events between its store and its notification, at which no worker stands between
-- its test and its sleep; after it let the threads run in rounds, in each of which every worker takes
-- a step and the handler that it is in returns, in any order and any number of times. After three
-- rounds for each task that is queued and three for each thread, all workers have left, so the joins
-- return; and the tasks that were submitted before the stop have been taken in order and handed to
-- the handler, each once.
pub stop_ends :
    (n : ℤ) (es fs : List Event) (rounds : List (List (Act × ℕ)))
    → missed (run (es ++ stops ∷ fs) (create n)).workers ≡ false
    → AllCover (thread_count n) rounds
    → 3 * length (run (es ++ stops ∷ fs) (create n)).shared.tasks + 3 * thread_count n
      ≤ length rounds
    → let end = run (es ++ stop_events fs rounds) (create n) in
      AllLeft end.workers × (join_all end.workers ≡ []) × Drained end.shared (accepted false es)
unfolding run step request_stop stop_events
stop_ends n es fs rounds awake cover few =
    let p = run (es ++ stops ∷ fs) (create n) in
    let told = step notifies_all p in
    let size : length told.workers ≤ thread_count n = omega (
      arith,
      length-notify_all p.workers,
      Sized-length (thread_count n) p (create-Sized n (es ++ stops ∷ fs)),
    ) in
    let on : p.shared.stopping ≡ true =
      rw (run-append es (stops ∷ fs) (create n))
        (stopping_stays fs (step stops (run es (create n))) refl) in
    let ended =
      rounds_end rounds told on (notified-Awake p.workers awake)
        (AllCover-le (length told.workers) (thread_count n) rounds size cover)
        (omega (arith, load-le told.workers, size, few)) in
    let whole : run (es ++ stop_events fs rounds) (create n) ≡ run (in_turn rounds) told =
      ap (λ xs. run xs (create n))
        (sym (append_assoc es (stops ∷ fs) (notifies_all ∷ in_turn rounds)))
      ∙ run-append (es ++ stops ∷ fs) (notifies_all ∷ in_turn rounds) (create n) in
    let left = subst (λ x. AllLeft x.workers) (sym whole) ended in
    let (_, (taken, started)) = run_drains n (es ++ stop_events fs rounds) left in
    let before = accepted_stops es (fs ++ notifies_all ∷ in_turn rounds) false in
    (
      left,
      joined_none _ (left_joined _ left),
      (taken ∙ before, λ test. started test ∙ ap (count test) before),
    )
