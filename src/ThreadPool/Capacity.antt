-- ===== src/ThreadPool/Capacity.antt =====
-- How many tasks are in the hands of the workers.
use multi_player_game.Common.{
  ℕ, zero, suc, ◌+◌, ◌≤◌, ◌≡◌, refl, ap, ◌∙◌, ◌⊎◌, inl, inr, true, List, [], ◌∷◌, arith, length,
  Bool-cases,
}
use multi_player_game.Common.Int.{ℤ}
use multi_player_game.ThreadPool.{
  Task, Worker, arriving, drowsy, asleep, taking, handling, exited, Shared, ThreadPool, crew,
  thread_count, create, submit, request_stop, all_have_left, join_all, worker_step, handler_return,
  notify_all, Act, moves, returns, wakes, act, nth_act, Event, submits, stops, notifies_all, joins,
  acts, step, run,
}
use multi_player_game.ThreadPool.Leaving.{
  AllLeft, everyone_left, length-nth_act, length-notify_all, length-crew, run-Orderly,
  create-Orderly,
}

abbrev is_busy : Worker → ℕ
is_busy (handling task) = 1
is_busy _ = 0

pub busy : List Worker → ℕ
busy [] = 0
busy (w ∷ ws) = is_busy w + busy ws

act-busy :
    (a : Act) (w : Worker) (q : Shared) (n : ℕ)
    → q.active_tasks ≡ is_busy w + n
    → (act a w q).1.active_tasks ≡ is_busy (act a w q).0 + n
unfolding act worker_step handler_return
act-busy moves w q n h = ground arith
act-busy returns w q n h = ground arith
act-busy wakes w q n h = ground arith

nth_act-busy :
    (a : Act) (i : ℕ) (ws : List Worker) (q : Shared) (n : ℕ)
    → q.active_tasks ≡ busy ws + n
    → (nth_act a i ws q).1.active_tasks ≡ busy (nth_act a i ws q).0 + n
unfolding nth_act busy
nth_act-busy a i [] q n h = h
nth_act-busy a zero (w ∷ ws) q n h = omega (arith, act-busy a w q (busy ws + n) (omega arith))
nth_act-busy a (suc i) (w ∷ ws) q n h =
    omega (arith, nth_act-busy a i ws q (is_busy w + n) (omega arith))

submit-active : (t : Task) (q : Shared) → (submit t q).active_tasks ≡ q.active_tasks
unfolding submit
submit-active t q = ground arith

notify-busy : (ws : List Worker) → busy (notify_all ws) ≡ busy ws
unfolding notify_all busy
notify-busy [] = refl
notify-busy (arriving ∷ ws) = omega (arith, notify-busy ws)
notify-busy (drowsy ∷ ws) = omega (arith, notify-busy ws)
notify-busy (asleep ∷ ws) = omega (arith, notify-busy ws)
notify-busy (taking t ∷ ws) = omega (arith, notify-busy ws)
notify-busy (handling t ∷ ws) = omega (arith, notify-busy ws)
notify-busy (exited ∷ ws) = omega (arith, notify-busy ws)

left-busy : (ws : List Worker) → AllLeft ws → busy ws ≡ 0
unfolding busy
left-busy [] h = refl
left-busy (w ∷ ws) (e, h) = omega (arith, ap is_busy e, left-busy ws h)

join-busy : (ws : List Worker) → busy (join_all ws) ≡ busy ws
unfolding join_all busy
join-busy ws = elim (Bool-cases (all_have_left ws)) [
  | inl left ↦ let none = left-busy ws (everyone_left ws left) in rw left (omega (arith, none))
  | inr more ↦ rw more refl
]

run-busy :
    (es : List Event) (p : ThreadPool)
    → p.shared.active_tasks ≡ busy p.workers
    → (run es p).shared.active_tasks ≡ busy (run es p).workers
unfolding run step request_stop
run-busy [] p h = h
run-busy (submits t ∷ es) p h = run-busy es (step (submits t) p) (submit-active t p.shared ∙ h)
run-busy (stops ∷ es) p h = run-busy es (step stops p) h
run-busy (notifies_all ∷ es) p h =
    run-busy es (step notifies_all p) (omega (arith, h, notify-busy p.workers))
run-busy (joins ∷ es) p h = run-busy es (step joins p) (omega (arith, h, join-busy p.workers))
run-busy (acts a i ∷ es) p h =
    run-busy es (step (acts a i) p)
      (omega (arith, nth_act-busy a i p.workers p.shared 0 (omega arith)))

busy-length : (ws : List Worker) → busy ws ≤ length ws
unfolding busy
busy-length [] = omega arith
busy-length (arriving ∷ ws) = omega (arith, busy-length ws)
busy-length (drowsy ∷ ws) = omega (arith, busy-length ws)
busy-length (asleep ∷ ws) = omega (arith, busy-length ws)
busy-length (taking t ∷ ws) = omega (arith, busy-length ws)
busy-length (handling t ∷ ws) = omega (arith, busy-length ws)
busy-length (exited ∷ ws) = omega (arith, busy-length ws)

busy-crew : (n : ℕ) → busy (crew n) ≡ 0
unfolding busy crew
busy-crew zero = refl
busy-crew (suc n) = omega (arith, busy-crew n)

-- So many threads, or none.
abbrev pub Sized : ℕ → ThreadPool → Type 0
Sized k p = (length p.workers ≡ k) ⊎ (p.workers ≡ [])

none_after : (ws ws' : List Worker) → length ws' ≡ length ws → ws ≡ [] → ws' ≡ []
none_after ws [] e h = refl
none_after ws (w ∷ ws') e h = absurd (omega (arith, e, ap length h))

same-Sized :
    (k : ℕ) (p p' : ThreadPool) → length p'.workers ≡ length p.workers → Sized k p → Sized k p'
same-Sized k p p' e (inl h) = inl (e ∙ h)
same-Sized k p p' e (inr h) = inr (none_after p.workers p'.workers e h)

join-Sized : (k : ℕ) (p : ThreadPool) → Sized k p → Sized k (step joins p)
unfolding step join_all
join-Sized k p h = elim (Bool-cases (all_have_left p.workers)) [
  | inl left ↦ rw left (inr refl)
  | inr more ↦ rw more h
]

pub run-Sized : (k : ℕ) (es : List Event) (p : ThreadPool) → Sized k p → Sized k (run es p)
unfolding run step
run-Sized k [] p h = h
run-Sized k (submits t ∷ es) p h =
    run-Sized k es (step (submits t) p) (same-Sized k p (step (submits t) p) refl h)
run-Sized k (stops ∷ es) p h = run-Sized k es (step stops p) (same-Sized k p (step stops p) refl h)
run-Sized k (notifies_all ∷ es) p h =
    run-Sized k es (step notifies_all p)
      (same-Sized k p (step notifies_all p) (length-notify_all p.workers) h)
run-Sized k (joins ∷ es) p h = run-Sized k es (step joins p) (join-Sized k p h)
run-Sized k (acts a i ∷ es) p h =
    run-Sized k es (step (acts a i) p)
      (same-Sized k p (step (acts a i) p) (length-nth_act a i p.workers p.shared) h)

pub create-Sized : (n : ℤ) (es : List Event) → Sized (thread_count n) (run es (create n))
unfolding create
create-Sized n es = run-Sized (thread_count n) es (create n) (inl (length-crew (thread_count n)))

-- At most so many, either way.
pub Sized-length : (k : ℕ) (p : ThreadPool) → Sized k p → length p.workers ≤ k
Sized-length k p (inl h) = omega (arith, h)
Sized-length k p (inr h) = omega (arith, ap length h)

-- However the threads are scheduled: the number of active tasks is that of the workers in the
-- handler, and is at most the number of threads; these are as many as at the start, or, once a stop
-- has joined and cleared them, none.
pub run_capacity :
    (n : ℤ) (es : List Event)
    → let p = run es (create n) in
      (p.shared.active_tasks ≡ busy p.workers)
      × (p.shared.active_tasks ≤ thread_count n)
      × ((length p.workers ≡ thread_count n)
          ⊎ ((p.workers ≡ []) × (p.shared.stopping ≡ true) × (p.shared.tasks ≡ [])))
unfolding create
run_capacity n es =
    let p = run es (create n) in
    let count = run-busy es (create n) (omega (arith, busy-crew (thread_count n))) in
    let few = Sized-length (thread_count n) p (create-Sized n es) in
    let (_, over) = run-Orderly es (create n) (create-Orderly n) in
    (
      count,
      omega (arith, count, few, busy-length p.workers),
      (elim (create-Sized n es) [
        | inl size ↦ inl size
        | inr gone ↦ let (on, empty) = over gone in inr (gone, on, empty)
      ]),
    )
