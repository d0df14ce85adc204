-- ===== src/ThreadPool/Leaving.antt =====
-- Who has left, and what an act of a worker keeps.
use multi_player_game.Common.{
  ◌≤◌, ℕ, zero, suc, ◌≡◌, refl, ap, ◌∙◌, inl, inr, true, List, [], ◌∷◌, ◌++◌, append_assoc, arith,
  length, Bool-cases,
}
use multi_player_game.Common.Int.{ℤ, pos, negsuc}
use multi_player_game.ThreadPool.{
  thread_count, create, Task, Worker, arriving, drowsy, asleep, taking, handling, exited, Shared,
  ThreadPool, crew, submit, request_stop, has_left, all_have_left, join_all, worker_step,
  handler_return, notify_all, Act, moves, returns, wakes, act, nth_act, Event, submits, stops,
  notifies_all, joins, acts, step, run,
}

abbrev pub AllLeft : List Worker → Type 0
AllLeft [] = Unit {0}
AllLeft (w ∷ ws) = (w ≡ exited) × AllLeft ws

-- The pool is stopping and its queue is empty.
abbrev pub Finished : Shared → Type 0
Finished q = (q.stopping ≡ true) × (q.tasks ≡ [])

abbrev Leaves : Worker → Shared → Type 0
Leaves w q = has_left w ≡ true → Finished q

-- If anyone has left, the pool is finished.
abbrev AllLeaves : List Worker → Shared → Type 0
AllLeaves [] q = Unit {0}
AllLeaves (w ∷ ws) q = Leaves w q × AllLeaves ws q

-- And if there is no worker any more.
abbrev pub Orderly : ThreadPool → Type 0
Orderly p = AllLeaves p.workers p.shared × (p.workers ≡ [] → Finished p.shared)

-- What a worker's act keeps.
abbrev pub Kept : Shared → Shared → Type 0
Kept q q' =
    (q'.taken ++ q'.tasks ≡ q.taken ++ q.tasks)
    × (q'.refused ≡ q.refused)
    × (q'.stopping ≡ q.stopping)
    × (q.tasks ≡ [] → q'.tasks ≡ [])

arriving-Kept : (ts : List Task) (q : Shared) → q.tasks ≡ ts → Kept q (worker_step arriving q).1
unfolding worker_step
arriving-Kept [] q e = ground arith
arriving-Kept (t ∷ ts) q e =
    rw (e, worker_step) (append_assoc q.taken (t ∷ []) ts, refl, refl, λ empty. cc)

act-Kept : (a : Act) (w : Worker) (q : Shared) → Kept q (act a w q).1
unfolding act worker_step handler_return
act-Kept moves arriving q = arriving-Kept q.tasks q refl
act-Kept moves drowsy q = (refl, refl, refl, λ e. e)
act-Kept moves asleep q = (refl, refl, refl, λ e. e)
act-Kept moves (taking task) q = (refl, refl, refl, λ e. e)
act-Kept moves (handling task) q = (refl, refl, refl, λ e. e)
act-Kept moves exited q = (refl, refl, refl, λ e. e)
act-Kept returns w q = ground arith
act-Kept wakes w q = (refl, refl, refl, λ e. e)

pub nth_act-Kept : (a : Act) (i : ℕ) (ws : List Worker) (q : Shared) → Kept q (nth_act a i ws q).1
unfolding nth_act
nth_act-Kept a i [] q = (refl, refl, refl, λ e. e)
nth_act-Kept a zero (w ∷ ws) q = act-Kept a w q
nth_act-Kept a (suc i) (w ∷ ws) q = nth_act-Kept a i ws q

act-Leaves : (a : Act) (w : Worker) (q : Shared) → Leaves w q → Leaves (act a w q).0 (act a w q).1
unfolding act worker_step handler_return
act-Leaves moves w q h = ground arith
act-Leaves returns w q h = ground arith
act-Leaves wakes w q h = ground arith

Kept-Leaves : (w : Worker) (q q' : Shared) → Kept q q' → Leaves w q → Leaves w q'
Kept-Leaves w q q' (_, _, s, e) h left = (s ∙ (h left).0, e (h left).1)

Kept-AllLeaves : (ws : List Worker) (q q' : Shared) → Kept q q' → AllLeaves ws q → AllLeaves ws q'
Kept-AllLeaves [] q q' k h = tt
Kept-AllLeaves (w ∷ ws) q q' k h = (Kept-Leaves w q q' k h.0, Kept-AllLeaves ws q q' k h.1)

nth_act-AllLeaves :
    (a : Act) (i : ℕ) (ws : List Worker) (q : Shared)
    → AllLeaves ws q
    → AllLeaves (nth_act a i ws q).0 (nth_act a i ws q).1
unfolding nth_act
nth_act-AllLeaves a i [] q h = tt
nth_act-AllLeaves a zero (w ∷ ws) q h =
    (act-Leaves a w q h.0, Kept-AllLeaves ws q (act a w q).1 (act-Kept a w q) h.1)
nth_act-AllLeaves a (suc i) (w ∷ ws) q h = (
  Kept-Leaves w q (nth_act a i ws q).1 (nth_act-Kept a i ws q) h.0,
  nth_act-AllLeaves a i ws q h.1,
)

submit-AllLeaves :
    (t : Task) (ws : List Worker) (q : Shared) → AllLeaves ws q → AllLeaves ws (submit t q)
unfolding submit
submit-AllLeaves t [] q h = tt
submit-AllLeaves t (w ∷ ws) q h = (ground (arith, h.0), submit-AllLeaves t ws q h.1)

stop-AllLeaves : (ws : List Worker) (q : Shared) → AllLeaves ws q → AllLeaves ws (request_stop q)
unfolding request_stop
stop-AllLeaves [] q h = tt
stop-AllLeaves (w ∷ ws) q h = ((λ left. (refl, (h.0 left).1)), stop-AllLeaves ws q h.1)

notify-AllLeaves : (ws : List Worker) (q : Shared) → AllLeaves ws q → AllLeaves (notify_all ws) q
unfolding notify_all act
notify-AllLeaves [] q h = tt
notify-AllLeaves (w ∷ ws) q h = (act-Leaves wakes w q h.0, notify-AllLeaves ws q h.1)

pub everyone_left : (ws : List Worker) → all_have_left ws ≡ true → AllLeft ws
unfolding all_have_left
everyone_left [] e = tt
everyone_left (exited ∷ ws) e = (refl, everyone_left ws e)
everyone_left (arriving ∷ ws) e = absurd (ground arith)
everyone_left (drowsy ∷ ws) e = absurd (ground arith)
everyone_left (asleep ∷ ws) e = absurd (ground arith)
everyone_left (taking t ∷ ws) e = absurd (ground arith)
everyone_left (handling t ∷ ws) e = absurd (ground arith)

pub Finished-of :
    (ws : List Worker) (q : Shared)
    → AllLeaves ws q
    → (ws ≡ [] → Finished q)
    → AllLeft ws
    → Finished q
Finished-of [] q h none left = none refl
Finished-of (w ∷ ws) q h none left = h.0 (ap has_left left.0)

join-Orderly :
    (ws : List Worker) (q : Shared)
    → AllLeaves ws q
    → (ws ≡ [] → Finished q)
    → AllLeaves (join_all ws) q × (join_all ws ≡ [] → Finished q)
unfolding join_all
join-Orderly ws q h none = elim (Bool-cases (all_have_left ws)) [
  | inl left ↦ let over = Finished-of ws q h none (everyone_left ws left) in rw left (tt, λ _. over)
  | inr more ↦ rw more (h, none)
]

pub length-nth_act :
    (a : Act) (i : ℕ) (ws : List Worker) (q : Shared) → length (nth_act a i ws q).0 ≡ length ws
unfolding nth_act
length-nth_act a i [] q = refl
length-nth_act a zero (w ∷ ws) q = refl
length-nth_act a (suc i) (w ∷ ws) q = omega (arith, length-nth_act a i ws q)

none_before : (ws ws' : List Worker) → length ws ≡ length ws' → ws ≡ [] → ws' ≡ []
none_before ws [] e h = refl
none_before ws (w ∷ ws') e h = absurd (omega (arith, e, ap length h))

pub length-notify_all : (ws : List Worker) → length (notify_all ws) ≡ length ws
unfolding notify_all
length-notify_all [] = refl
length-notify_all (w ∷ ws) = omega (arith, length-notify_all ws)

submit-Finished : (t : Task) (q : Shared) → Finished q → Finished (submit t q)
unfolding submit
submit-Finished t q (s, e) = ground (arith, s, e)

step-Orderly : (e : Event) (p : ThreadPool) → Orderly p → Orderly (step e p)
unfolding step request_stop
step-Orderly (submits t) p (h, none) =
    (submit-AllLeaves t p.workers p.shared h, λ gone. submit-Finished t p.shared (none gone))
step-Orderly stops p (h, none) =
    (stop-AllLeaves p.workers p.shared h, λ gone. (refl, (none gone).1))
step-Orderly notifies_all p (h, none) = (
  notify-AllLeaves p.workers p.shared h,
  λ gone. none (none_before (notify_all p.workers) p.workers (length-notify_all p.workers) gone),
)
step-Orderly joins p (h, none) = join-Orderly p.workers p.shared h none
step-Orderly (acts a i) p (h, none) =
    let (ws, q) = nth_act a i p.workers p.shared in
    let (_, _, s, e) = nth_act-Kept a i p.workers p.shared in
    (
      nth_act-AllLeaves a i p.workers p.shared h,
      λ gone.
          let (on, empty) =
            none (none_before ws p.workers (length-nth_act a i p.workers p.shared) gone) in
          (s ∙ on, e empty),
    )

pub run-Orderly : (es : List Event) (p : ThreadPool) → Orderly p → Orderly (run es p)
unfolding run
run-Orderly [] p h = h
run-Orderly (e ∷ es) p h = run-Orderly es (step e p) (step-Orderly e p h)

crew-AllLeaves : (n : ℕ) (q : Shared) → AllLeaves (crew n) q
unfolding crew
crew-AllLeaves zero q = tt
crew-AllLeaves (suc n) q = ((λ left. absurd (ground arith)), crew-AllLeaves n q)

pub length-crew : (n : ℕ) → length (crew n) ≡ n
unfolding crew
length-crew zero = refl
length-crew (suc n) = omega (arith, length-crew n)

thread_count_lem : (n : ℤ) → 1 ≤ thread_count n
unfolding thread_count
thread_count_lem (pos zero) = omega arith
thread_count_lem (pos (suc n)) = omega arith
thread_count_lem (negsuc n) = omega arith

pub create-Orderly : (n : ℤ) → Orderly (create n)
unfolding create
create-Orderly n = (
  crew-AllLeaves (thread_count n) (create n).shared,
  λ gone. absurd (omega (arith, thread_count_lem n, length-crew (thread_count n), ap length gone)),
)
