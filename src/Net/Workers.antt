-- ===== src/Net/Workers.antt =====
-- src/net/thread_pool.cpp: a queue of tasks and the workers that take from it. Each critical section is
-- a step; which thread moves next is an argument. A task is a number.
pub mod Drains
use mini_dynamo.Base.{
  ℕ, zero, suc, Bool, true, false, Option, none, some, List, [], ◌∷◌, ◌++◌, ◌==◌, if◌then◌else◌,
}

pub data Worker : Type 0 where
  waiting exited : Worker
  running : ℕ → Worker

-- `accepted` and `started` are what enqueue let in and what workers took, in order.
pub record ThreadPool : Type 0 where
  pub workers : List Worker
  pub tasks : List ℕ
  pub stopping : Bool
  pub accepted : List ℕ
  pub started : List ℕ

unfoldable pub idle_workers : ℕ → List Worker
idle_workers zero = []
idle_workers (suc n) = waiting ∷ idle_workers n

unfoldable pub new : ℕ → ThreadPool
unfolding idle_workers
new workers = record {
  workers = idle_workers (if workers == 0 then 1 else workers);
  tasks = [];
  stopping = false;
  accepted = [];
  started = [];
}

unfoldable pub enqueue : ThreadPool → ℕ → ThreadPool × Bool
enqueue p task =
    if p.stopping
    then (p, false)
    else (record p { tasks = p.tasks ++ task ∷ []; accepted = p.accepted ++ task ∷ [] }, true)

-- The first part of `shutdown`; the rest waits for the workers.
unfoldable pub begin_shutdown : ThreadPool → ThreadPool
begin_shutdown p = record p { stopping = true }

unfoldable pub worker_at : ℕ → List Worker → Option Worker
worker_at i [] = none
worker_at zero (w ∷ l) = some w
worker_at (suc i) (w ∷ l) = worker_at i l

unfoldable pub set_worker : ℕ → Worker → List Worker → List Worker
set_worker i v [] = []
set_worker zero v (w ∷ l) = v ∷ l
set_worker (suc i) v (w ∷ l) = w ∷ set_worker i v l

-- A worker that waits looks at the queue: it exits, takes the first task, or waits on.
abbrev pub look : ThreadPool → ℕ → List ℕ → Bool → ThreadPool
look p i [] true = record p { workers = set_worker i exited p.workers }
look p i [] false = p
look p i (task ∷ tasks) stopping = record p {
  workers = set_worker i (running task) p.workers;
  tasks = tasks;
  started = p.started ++ task ∷ [];
}

-- What the thread of a worker does next; one that has exited does nothing.
abbrev pub act : ThreadPool → ℕ → Option Worker → ThreadPool
act p i none = p
act p i (some waiting) = look p i p.tasks p.stopping
act p i (some exited) = p
act p i (some (running task)) = record p { workers = set_worker i waiting p.workers }

unfoldable pub worker_step : ThreadPool → ℕ → ThreadPool
worker_step p i = act p i (worker_at i p.workers)

pub data Move : Type 0 where
  enqueues : ℕ → Move
  shuts_down : Move
  works : ℕ → Move

abbrev pub step : ThreadPool → Move → ThreadPool
step p (enqueues task) = (enqueue p task).0
step p shuts_down = begin_shutdown p
step p (works i) = worker_step p i

unfoldable pub run : ThreadPool → List Move → ThreadPool
run p [] = p
run p (m ∷ ms) = run (step p m) ms

-- Join: every worker has exited.
unfoldable pub all_exited : List Worker → Bool
all_exited [] = true
all_exited (exited ∷ l) = all_exited l
all_exited (waiting ∷ l) = false
all_exited (running task ∷ l) = false
