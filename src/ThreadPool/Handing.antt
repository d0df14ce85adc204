-- ===== src/ThreadPool/Handing.antt =====
-- Each task that is taken is handed to the handler once.
use multi_player_game.Common.{
  ℕ, zero, suc, ◌+◌, ◌≡◌, refl, sym, ap, inl, inr, Bool, List, [], ◌∷◌, ◌++◌, arith, if◌then◌else◌,
  Bool-cases,
}
use multi_player_game.ThreadPool.{
  Task, Worker, arriving, drowsy, asleep, taking, handling, exited, Shared, ThreadPool, crew,
  submit, request_stop, all_have_left, join_all, worker_step, handler_return, notify_all, Act,
  moves, returns, wakes, act, nth_act, Event, submits, stops, notifies_all, joins, acts, step, run,
}
use multi_player_game.ThreadPool.Leaving.{AllLeft, everyone_left}

-- How many tasks pass a test.
unfoldable pub count : (Task → Bool) → List Task → ℕ
count test [] = 0
count test (t ∷ ts) = (if test t then 1 else 0) + count test ts

abbrev in_hand : (Task → Bool) → Worker → ℕ
in_hand test (taking t) = if test t then 1 else 0
in_hand test _ = 0

pub all_in_hand : (Task → Bool) → List Worker → ℕ
all_in_hand test [] = 0
all_in_hand test (w ∷ ws) = in_hand test w + all_in_hand test ws

count-append :
    (test : Task → Bool) (ts us : List Task) → count test (ts ++ us) ≡ count test ts + count test us
unfolding count
count-append test [] us = omega arith
count-append test (t ∷ ts) us = omega (arith, count-append test ts us)

-- What was taken was started, or is in a worker's hand.
abbrev pub Handed : (Task → Bool) → Shared → ℕ → Type 0
Handed test q k = count test q.started + k ≡ count test q.taken

arriving-Handed :
    (test : Task → Bool) (ts : List Task) (q : Shared) (n : ℕ)
    → q.tasks ≡ ts
    → Handed test q n
    → Handed test (worker_step arriving q).1 (in_hand test (worker_step arriving q).0 + n)
unfolding worker_step count
arriving-Handed test [] q n e h = ground (arith, h, e)
arriving-Handed test (t ∷ ts) q n e h =
    rw (e, worker_step) (omega (arith, h, count-append test q.taken (t ∷ [])))

act-Handed :
    (test : Task → Bool) (a : Act) (w : Worker) (q : Shared) (n : ℕ)
    → Handed test q (in_hand test w + n)
    → Handed test (act a w q).1 (in_hand test (act a w q).0 + n)
unfolding act worker_step handler_return count
act-Handed test moves arriving q n h = arriving-Handed test q.tasks q n refl (omega (arith, h))
act-Handed test moves drowsy q n h = h
act-Handed test moves asleep q n h = h
act-Handed test moves (taking t) q n h = omega (arith, h, count-append test q.started (t ∷ []))
act-Handed test moves (handling t) q n h = h
act-Handed test moves exited q n h = h
act-Handed test returns w q n h = ground (arith, h)
act-Handed test wakes w q n h = ground (arith, h)

nth_act-Handed :
    (test : Task → Bool) (a : Act) (i : ℕ) (ws : List Worker) (q : Shared) (n : ℕ)
    → Handed test q (all_in_hand test ws + n)
    → Handed test (nth_act a i ws q).1 (all_in_hand test (nth_act a i ws q).0 + n)
unfolding nth_act all_in_hand
nth_act-Handed test a i [] q n h = h
nth_act-Handed test a zero (w ∷ ws) q n h =
    omega (arith, act-Handed test a w q (all_in_hand test ws + n) (omega (arith, h)))
nth_act-Handed test a (suc i) (w ∷ ws) q n h =
    omega (arith, nth_act-Handed test a i ws q (in_hand test w + n) (omega (arith, h)))

notify-in_hand :
    (test : Task → Bool) (ws : List Worker) → all_in_hand test (notify_all ws) ≡ all_in_hand test ws
unfolding all_in_hand notify_all
notify-in_hand test [] = refl
notify-in_hand test (arriving ∷ ws) = omega (arith, notify-in_hand test ws)
notify-in_hand test (drowsy ∷ ws) = omega (arith, notify-in_hand test ws)
notify-in_hand test (asleep ∷ ws) = omega (arith, notify-in_hand test ws)
notify-in_hand test (taking t ∷ ws) = omega (arith, notify-in_hand test ws)
notify-in_hand test (handling t ∷ ws) = omega (arith, notify-in_hand test ws)
notify-in_hand test (exited ∷ ws) = omega (arith, notify-in_hand test ws)

pub left-in_hand : (test : Task → Bool) (ws : List Worker) → AllLeft ws → all_in_hand test ws ≡ 0
unfolding all_in_hand
left-in_hand test [] h = refl
left-in_hand test (w ∷ ws) (e, h) = omega (arith, ap (in_hand test) e, left-in_hand test ws h)

join-in_hand :
    (test : Task → Bool) (ws : List Worker) → all_in_hand test (join_all ws) ≡ all_in_hand test ws
unfolding all_in_hand join_all
join-in_hand test ws = elim (Bool-cases (all_have_left ws)) [
  | inl left ↦ rw left (sym (left-in_hand test ws (everyone_left ws left)))
  | inr more ↦ rw more refl
]

submit-Handed :
    (test : Task → Bool) (t : Task) (q : Shared) (k : ℕ)
    → Handed test q k
    → Handed test (submit t q) k
unfolding submit
submit-Handed test t q k h = ground (arith, h)

step-Handed :
    (test : Task → Bool) (e : Event) (p : ThreadPool)
    → Handed test p.shared (all_in_hand test p.workers)
    → Handed test (step e p).shared (all_in_hand test (step e p).workers)
unfolding step request_stop
step-Handed test (submits t) p h = submit-Handed test t p.shared (all_in_hand test p.workers) h
step-Handed test stops p h = h
step-Handed test notifies_all p h = omega (arith, h, notify-in_hand test p.workers)
step-Handed test joins p h = omega (arith, h, join-in_hand test p.workers)
step-Handed test (acts a i) p h =
    omega (arith, nth_act-Handed test a i p.workers p.shared 0 (omega (arith, h)))

pub run-Handed :
    (test : Task → Bool) (es : List Event) (p : ThreadPool)
    → Handed test p.shared (all_in_hand test p.workers)
    → Handed test (run es p).shared (all_in_hand test (run es p).workers)
unfolding run
run-Handed test [] p h = h
run-Handed test (e ∷ es) p h = run-Handed test es (step e p) (step-Handed test e p h)

pub crew-in_hand : (test : Task → Bool) (n : ℕ) → all_in_hand test (crew n) ≡ 0
unfolding all_in_hand crew
crew-in_hand test zero = refl
crew-in_hand test (suc n) = omega (arith, crew-in_hand test n)
