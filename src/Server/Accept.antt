-- ===== src/Server/Accept.antt =====
-- `Server::run` of server/src/Server.cpp: the number of threads, the accept loop, and the pool.
use multi_player_game.Common.{
  ℕ, ◌+◌, ◌*◌, ◌≤◌, ◌≡◌, refl, ap, ◌∙◌, Bool, false, List, [], ◌∷◌, ◌++◌, Option, none, some, arith,
  length, if◌then◌else◌,
}
use multi_player_game.Common.Int.{ℤ, pos, ltb_ℤ, max_ℤ, ◌≤ℤ◌}
use multi_player_game.ThreadPool.{
  Task, Act, Event, submits, stops, acts, thread_count, create, join_all, run,
}
use multi_player_game.ThreadPool.Leaving.{AllLeft}
use multi_player_game.ThreadPool.Handing.{count}
use multi_player_game.ThreadPool.Drain.{accepted, Drained}
use multi_player_game.ThreadPool.Shutdown.Rounds.{AllCover}
use multi_player_game.ThreadPool.Shutdown.Ends.{missed, stop_events, stop_ends}

-- The configured number of threads, or that of the processors; 4 where it is unknown, and at most 32.
unfoldable pub num_threads : ℤ → ℤ → ℤ
num_threads configured processors =
    if ltb_ℤ (pos 0) configured
    then configured
    else if ltb_ℤ (pos 0) processors
    then if ltb_ℤ (pos 32) processors then pos 32 else processors
    else pos 4

-- One round of the loop: what `m_running` is at its test, what `accept` gives, and what `m_running`
-- is after an `accept` that failed.
pub record Round : Type 0 where
  pub running : Bool
  pub client : Option Task
  pub still_running : Bool

-- The connections that are submitted, in order.
unfoldable pub accept_loop : List Round → List Task
accept_loop [] = []
accept_loop (r ∷ rs) =
    let rest = accept_loop rs in
    if r.running
    then elim r.client [ some task ↦ task ∷ rest | none ↦ if r.still_running then rest else [] ]
    else []

-- While the main thread submits these tasks, the workers act, and submit's notify_one and the
-- returns of the handlers come.
pub data Interleaves : List Task → List Event → Type 0 where
  ended : Interleaves [] []
  hands_over :
      {t : Task} {ts : List Task} {es : List Event}
      → Interleaves ts es
      → Interleaves (t ∷ ts) (submits t ∷ es)
  works :
      {a : Act} {i : ℕ} {ts : List Task} {es : List Event}
      → Interleaves ts es
      → Interleaves ts (acts a i ∷ es)

Interleaves-accepted :
    {ts : List Task} {es : List Event} → Interleaves ts es → accepted false es ≡ ts
unfolding accepted
Interleaves-accepted ended = refl
Interleaves-accepted (hands_over {t} h) = ap (◌∷◌ t) (Interleaves-accepted h)
Interleaves-accepted (works h) = Interleaves-accepted h

threads_lem :
    (configured processors : ℤ)
    → let n = num_threads configured processors in (pos 1 ≤ℤ n) × (n ≤ℤ max_ℤ configured (pos 32))
unfolding num_threads
threads_lem configured processors = ground arith

-- `run`, from the first connection to the return: whatever the accept loop meets, and however the
-- threads are scheduled while it submits; where the notification of the pool's stop misses no worker
-- between its test and its sleep, and in each round after it every worker takes a step and the
-- session that it is in ends. After three rounds for each task still queued and three for each thread,
-- all workers have left, the joins return, and the accepted connections have been taken in the order
-- of acceptance and handed to a session, each once. There is at least one thread, and at most the
-- configured number or 32.
pub run_serves :
    (configured processors : ℤ) (rounds : List Round) (es fs : List Event)
    (turns : List (List (Act × ℕ)))
    → Interleaves (accept_loop rounds) es
    → missed (run (es ++ stops ∷ fs) (create (num_threads configured processors))).workers ≡ false
    → AllCover (thread_count (num_threads configured processors)) turns
    → 3 * length (run (es ++ stops ∷ fs) (create (num_threads configured processors))).shared.tasks
        + 3 * thread_count (num_threads configured processors)
      ≤ length turns
    → let n = num_threads configured processors in
      let end = run (es ++ stop_events fs turns) (create n) in
      AllLeft end.workers
      × (join_all end.workers ≡ [])
      × Drained end.shared (accept_loop rounds)
      × (pos 1 ≤ℤ n)
      × (n ≤ℤ max_ℤ configured (pos 32))
run_serves configured processors rounds es fs turns mix awake cover few =
    let n = num_threads configured processors in
    let (left, joined, (taken, started)) = stop_ends n es fs turns awake cover few in
    let (lo, hi) = threads_lem configured processors in
    let all = Interleaves-accepted mix in
    (left, joined, (taken ∙ all, λ test. started test ∙ ap (count test) all), lo, hi)
