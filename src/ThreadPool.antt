-- ===== src/ThreadPool.antt =====
-- server/include/server/ThreadPool.h and server/src/ThreadPool.cpp: the workers and their queue.
--
-- An event is a step of one thread: a caller of `submit` or `stop`, or a worker by its number. A
-- critical section is one step, and what a thread does outside the lock are steps of their own. One
-- section is two steps: a worker's test of the predicate and its going to sleep, for `stop` takes no
-- lock and may come in between. That other threads cannot take the lock there is left out, which
-- only adds schedules. What the pool does outside is kept in order: the tasks taken from the queue,
-- those given to the handler, and those whose connection is closed unhandled. The handler runs for
-- as long as it does; its exceptions are caught.
pub mod Leaving
pub mod Handing
pub mod Drain
pub mod Capacity
pub mod Shutdown
use multi_player_game.Common.{
  ℕ, zero, suc, ◌+◌, ◌-◌, String, Bool, true, false, ◌&&◌, List, [], ◌∷◌, ◌++◌, map, length,
  if◌then◌else◌,
}
use multi_player_game.Common.Int.{ℤ, pos, negsuc}

pub record Task : Type 0 where
  pub fd : ℤ
  pub addr : String

-- Where a worker is in its loop: before the lock; between its test and its sleep; in `wait`; with a
-- task, outside the lock; in the handler; returned.
pub data Worker : Type 0 where
  arriving : Worker
  drowsy : Worker
  asleep : Worker
  taking : Task → Worker
  handling : Task → Worker
  exited : Worker

-- What the threads share.
pub record Shared : Type 0 where
  pub tasks : List Task
  pub stopping : Bool
  pub active_tasks : ℕ
  pub taken : List Task
  pub started : List Task
  pub refused : List Task

pub record ThreadPool : Type 0 where
  pub workers : List Worker
  pub shared : Shared

-- So many workers that start.
unfoldable pub crew : ℕ → List Worker
crew zero = []
crew (suc n) = arriving ∷ crew n

-- At least one thread is started.
unfoldable pub thread_count : ℤ → ℕ
thread_count (pos zero) = 1
thread_count (pos (suc n)) = suc n
thread_count (negsuc n) = 1

unfoldable pub create : ℤ → ThreadPool
unfolding crew thread_count
create num_threads = record {
  workers = crew (thread_count num_threads);
  shared = record {
    tasks = [];
    stopping = false;
    active_tasks = 0;
    taken = [];
    started = [];
    refused = [];
  };
}

-- The critical section of `submit`; the notification after it is an event of its own.
unfoldable pub submit : Task → Shared → Shared
submit task q =
    if q.stopping
    then record q { refused = q.refused ++ task ∷ [] }
    else record q { tasks = q.tasks ++ task ∷ [] }

-- `m_stopping.store(true)`
unfoldable pub request_stop : Shared → Shared
request_stop q = record q { stopping = true }

unfoldable pub pending_count : Shared → ℕ
pending_count q = length q.tasks

abbrev pub has_left : Worker → Bool
has_left exited = true
has_left _ = false

unfoldable pub all_have_left : List Worker → Bool
all_have_left [] = true
all_have_left (w ∷ ws) = has_left w && all_have_left ws

-- The end of `stop`: the joins wait until every worker has left, and then the threads are cleared.
unfoldable pub join_all : List Worker → List Worker
unfolding all_have_left
join_all ws = if all_have_left ws then [] else ws

-- The next step of a worker that runs.
unfoldable pub worker_step : Worker → Shared → Worker × Shared
worker_step arriving q = elim q.tasks [
  | [] ↦ if q.stopping then (exited, q) else (drowsy, q)
  | task ∷ rest ↦ (taking task, record q { tasks = rest; taken = q.taken ++ task ∷ [] })
]
worker_step drowsy q = (asleep, q)
worker_step asleep q = (asleep, q)
worker_step (taking task) q = (
  handling task,
  record q { active_tasks = q.active_tasks + 1; started = q.started ++ task ∷ [] },
)
worker_step (handling task) q = (handling task, q)
worker_step exited q = (exited, q)

-- The return of a worker's handler, where it is in it.
unfoldable pub handler_return : Worker → Shared → Worker × Shared
handler_return (handling task) q = (arriving, record q { active_tasks = q.active_tasks - 1 })
handler_return w q = (w, q)

-- A worker in `wait` is woken.
abbrev pub wake : Worker → Worker
wake asleep = arriving
wake w = w

unfoldable pub notify_all : List Worker → List Worker
notify_all ws = map wake ws

-- A worker takes a step, its handler returns, or it is woken, by `notify_one` or spuriously.
pub data Act : Type 0 where
  moves : Act
  returns : Act
  wakes : Act

unfoldable pub act : Act → Worker → Shared → Worker × Shared
unfolding worker_step handler_return
act moves w q = worker_step w q
act returns w q = handler_return w q
act wakes w q = (wake w, q)

-- An act of the worker with the number i, if there is one.
unfoldable pub nth_act : Act → ℕ → List Worker → Shared → List Worker × Shared
nth_act a i [] q = ([], q)
nth_act a zero (w ∷ ws) q = let (w', q') = act a w q in (w' ∷ ws, q')
nth_act a (suc i) (w ∷ ws) q = let (ws', q') = nth_act a i ws q in (w ∷ ws', q')

pub data Event : Type 0 where
  submits : Task → Event
  stops : Event
  notifies_all : Event
  joins : Event
  acts : Act → ℕ → Event

unfoldable pub step : Event → ThreadPool → ThreadPool
step (submits task) p = record p { shared = submit task p.shared }
step stops p = record p { shared = request_stop p.shared }
step notifies_all p = record p { workers = notify_all p.workers }
step joins p = record p { workers = join_all p.workers }
step (acts a i) p =
    let (ws, q) = nth_act a i p.workers p.shared in record { workers = ws; shared = q }

unfoldable pub run : List Event → ThreadPool → ThreadPool
run [] p = p
run (e ∷ es) p = run es (step e p)
