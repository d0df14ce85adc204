-- ===== src/ThreadPool/Drain.antt =====
-- Tasks are taken in the order of submission, each once and handed to the handler once, and none
-- that was accepted is dropped.
use multi_player_game.Common.{
  ℕ, ◌≡◌, refl, sym, ap, ◌∙◌, inl, inr, Bool, true, false, List, [], ◌∷◌, ◌++◌, append_assoc,
  append-nil, arith, if◌then◌else◌, Bool-cases,
}
use multi_player_game.Common.Int.{ℤ}
use multi_player_game.ThreadPool.{
  Task, Worker, Shared, ThreadPool, thread_count, create, submit, request_stop, Act, nth_act, Event,
  submits, stops, notifies_all, joins, acts, step, run,
}
use multi_player_game.ThreadPool.Leaving.{
  AllLeft, nth_act-Kept, Finished-of, run-Orderly, create-Orderly,
}
use multi_player_game.ThreadPool.Handing.{
  count, all_in_hand, Handed, run-Handed, crew-in_hand, left-in_hand,
}

-- The tasks that are submitted before the first stop, and those after it.
unfoldable pub accepted : Bool → List Event → List Task
accepted stopping [] = []
accepted stopping (submits task ∷ es) =
    if stopping then accepted stopping es else task ∷ accepted stopping es
accepted stopping (stops ∷ es) = accepted true es
accepted stopping (_ ∷ es) = accepted stopping es

pub late : Bool → List Event → List Task
late stopping [] = []
late stopping (submits task ∷ es) = if stopping then task ∷ late stopping es else late stopping es
late stopping (stops ∷ es) = late true es
late stopping (_ ∷ es) = late stopping es

-- Everything that is to be handled, and to be turned away, if these events follow.
abbrev to_handle : Shared → List Event → List Task
to_handle q es = (q.taken ++ q.tasks) ++ accepted q.stopping es

abbrev to_refuse : Shared → List Event → List Task
to_refuse q es = q.refused ++ late q.stopping es

abbrev SamePlan : Shared → List Event → Shared → List Event → Type 0
SamePlan q es q' es' = (to_handle q es ≡ to_handle q' es') × (to_refuse q es ≡ to_refuse q' es')

submit-SamePlan :
    (t : Task) (q : Shared) (es : List Event) → SamePlan (submit t q) es q (submits t ∷ es)
unfolding submit accepted late
submit-SamePlan t q es = elim (Bool-cases q.stopping) [
  | inl on ↦ rw (on, submit) (refl, append_assoc q.refused (t ∷ []) (late true es))
  | inr off ↦
      rw (off, submit)
        (
          ap (λ x. x ++ accepted false es) (sym (append_assoc q.taken q.tasks (t ∷ [])))
              ∙ append_assoc (q.taken ++ q.tasks) (t ∷ []) (accepted false es),
          refl,
        )
]

acts-SamePlan :
    (a : Act) (i : ℕ) (ws : List Worker) (q : Shared) (es : List Event)
    → SamePlan (nth_act a i ws q).1 es q (acts a i ∷ es)
unfolding accepted late
acts-SamePlan a i ws q es =
    let (kept, refused, stopping, _) = nth_act-Kept a i ws q in
    rw (kept, refused, stopping) (refl, refl)

step-SamePlan :
    (e : Event) (p : ThreadPool) (es : List Event) → SamePlan (step e p).shared es p.shared (e ∷ es)
unfolding step request_stop accepted late
step-SamePlan (submits t) p es = submit-SamePlan t p.shared es
step-SamePlan stops p es = (refl, refl)
step-SamePlan notifies_all p es = (refl, refl)
step-SamePlan joins p es = (refl, refl)
step-SamePlan (acts a i) p es = acts-SamePlan a i p.workers p.shared es

run-SamePlan : (es : List Event) (p : ThreadPool) → SamePlan (run es p).shared [] p.shared es
unfolding run
run-SamePlan [] p = (refl, refl)
run-SamePlan (e ∷ es) p =
    let (h, r) = run-SamePlan es (step e p) in
    let (h', r') = step-SamePlan e p es in (h ∙ h', r ∙ r')

-- Whatever the threads do: the tasks that were taken, followed by those that are still queued, are
-- the tasks submitted before the first stop, each once and in their order; and the connections that
-- were closed unhandled are those submitted after it.
pub run_tasks :
    (n : ℤ) (es : List Event)
    → let q = (run es (create n)).shared in
      (q.taken ++ q.tasks ≡ accepted false es) × (q.refused ≡ late false es)
unfolding create accepted late
run_tasks n es =
    let (h, r) = run-SamePlan es (create n) in (sym (append-nil _) ∙ h, sym (append-nil _) ∙ r)

-- The tasks were all taken in order, and each was handed to the handler as often as it came.
abbrev pub Drained : Shared → List Task → Type 0
Drained q ts = (q.taken ≡ ts) × ((test : Task → Bool) → count test q.started ≡ count test ts)

started_lem :
    (test : Task → Bool) (n : ℤ)
    → Handed test (create n).shared (all_in_hand test (create n).workers)
unfolding create count
started_lem test n = omega (arith, crew-in_hand test (thread_count n))

-- When all workers have left, as they have when `stop` returns, a stop was requested, and the tasks
-- that were submitted before it have been taken from the queue in order and handed to the handler,
-- each once: for any test of tasks, the handler was called with as many that pass it as were
-- submitted. None is discarded. The calls themselves may come in another order.
pub run_drains :
    (n : ℤ) (es : List Event)
    → AllLeft (run es (create n)).workers
    → let q = (run es (create n)).shared in (q.stopping ≡ true) × Drained q (accepted false es)
unfolding create
run_drains n es left =
    let start = create n in
    let p = run es start in
    let (leaves, none) = run-Orderly es start (create-Orderly n) in
    let (stopping, empty) = Finished-of p.workers p.shared leaves none left in
    let taken : p.shared.taken ≡ accepted false es =
      sym (append-nil _) ∙ ap (λ ts. p.shared.taken ++ ts) (sym empty) ∙ (run_tasks n es).0 in
    (
      stopping,
      (
        taken,
        λ test.
            let started : count test p.shared.started ≡ count test p.shared.taken = omega (
              arith,
              run-Handed test es start (started_lem test n),
              left-in_hand test p.workers left,
            ) in
            started ∙ ap (count test) taken,
      ),
    )
