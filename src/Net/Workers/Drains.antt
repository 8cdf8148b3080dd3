-- ===== src/Net/Workers/Drains.antt =====
-- The tasks of a pool through any interleaving: in order, each of them once, and all of them.
use mini_dynamo.Base.{
  ℕ, zero, suc, ◌≡◌, refl, ap, sym, ◌∙◌, subst, inl, inr, Bool, true, false, Option, none, some,
  List, [], ◌∷◌, ◌++◌, ◌==◌, if◌then◌else◌, append_assoc, append-nil, Bool-cases, arith,
}
use mini_dynamo.Net.Workers.{
  Worker, waiting, exited, running, ThreadPool, idle_workers, new, enqueue, begin_shutdown,
  worker_at, set_worker, look, act, worker_step, Move, enqueues, shuts_down, works, step, run,
  all_exited,
}

-- Whether some worker has exited.
unfoldable pub some_exited : List Worker → Bool
some_exited [] = false
some_exited (exited ∷ l) = true
some_exited (waiting ∷ l) = some_exited l
some_exited (running task ∷ l) = some_exited l

unfoldable pub is_staffed : List Worker → Bool
is_staffed [] = false
is_staffed (w ∷ l) = true

-- What was accepted has started, in order, or waits in the queue; a worker exits only when the pool
-- stops and the queue is empty; there is a worker.
pub record IsSound (p : ThreadPool) : Type 0 where
  pub in_order : p.accepted ≡ p.started ++ p.tasks
  pub last : some_exited p.workers ≡ true → (p.stopping ≡ true) × (p.tasks ≡ [])
  pub staffed : is_staffed p.workers ≡ true

still_staffed :
    (i : ℕ) (w : Worker) (l : List Worker)
    → is_staffed l ≡ true
    → is_staffed (set_worker i w l) ≡ true
unfolding is_staffed set_worker
still_staffed i w [] h = h
still_staffed zero w (v ∷ l) h = refl
still_staffed (suc i) w (v ∷ l) h = refl

-- A worker that is set to run or to wait is no new exit.
still_running :
    (i : ℕ) (task : ℕ) (l : List Worker)
    → some_exited (set_worker i (running task) l) ≡ true
    → some_exited l ≡ true
unfolding some_exited set_worker
still_running i task [] h = h
still_running zero task (waiting ∷ l) h = h
still_running zero task (exited ∷ l) h = refl
still_running zero task (running u ∷ l) h = h
still_running (suc i) task (waiting ∷ l) h = still_running i task l h
still_running (suc i) task (exited ∷ l) h = refl
still_running (suc i) task (running u ∷ l) h = still_running i task l h

still_waiting :
    (i : ℕ) (l : List Worker) → some_exited (set_worker i waiting l) ≡ true → some_exited l ≡ true
unfolding some_exited set_worker
still_waiting i [] h = h
still_waiting zero (waiting ∷ l) h = h
still_waiting zero (exited ∷ l) h = refl
still_waiting zero (running u ∷ l) h = h
still_waiting (suc i) (waiting ∷ l) h = still_waiting i l h
still_waiting (suc i) (exited ∷ l) h = refl
still_waiting (suc i) (running u ∷ l) h = still_waiting i l h

no_exit_with_task :
    {b : Bool} {ts : List ℕ} (task : ℕ) (tasks : List ℕ)
    → ts ≡ task ∷ tasks
    → (b ≡ true) × (ts ≡ [])
    → ⊥
no_exit_with_task task tasks e (on, empty) = cc

not_both : {b : Bool} → b ≡ false → b ≡ true → ⊥
not_both off on = cc

no_exit_while_on : {b : Bool} {ts : List ℕ} → b ≡ false → (b ≡ true) × (ts ≡ []) → ⊥
no_exit_while_on off (on, empty) = cc

-- The queue is not empty, so no worker has exited.
look-IsSound :
    (p : ThreadPool) (i : ℕ) (tasks : List ℕ) (b : Bool)
    → p.tasks ≡ tasks
    → p.stopping ≡ b
    → IsSound p
    → IsSound (look p i tasks b)
look-IsSound p i [] true e f v = record {
  in_order = v.in_order;
  last = λ h. (f, e);
  staffed = still_staffed i exited p.workers v.staffed;
}
look-IsSound p i [] false e f v = v
look-IsSound p i (task ∷ tasks) b e f v = record {
  in_order =
      v.in_order ∙ ap (λ q. p.started ++ q) e ∙ sym (append_assoc p.started (task ∷ []) tasks);
  last = λ h. absurd (no_exit_with_task task tasks e (v.last (still_running i task p.workers h)));
  staffed = still_staffed i (running task) p.workers v.staffed;
}

abbrev enqueue_at : ThreadPool → ℕ → Bool → ThreadPool × Bool
enqueue_at p task stops =
    if stops
    then (p, false)
    else (record p { tasks = p.tasks ++ task ∷ []; accepted = p.accepted ++ task ∷ [] }, true)

enqueue-IsSound : (p : ThreadPool) (task : ℕ) → IsSound p → IsSound (enqueue p task).0
unfolding enqueue
enqueue-IsSound p task v = elim (Bool-cases p.stopping) [
  | inl stops ↦ subst (λ b. IsSound (enqueue_at p task b).0) (sym stops) v
  | inr on ↦
      subst (λ b. IsSound (enqueue_at p task b).0) (sym on)
        record {
          in_order =
              ap (λ q. q ++ task ∷ []) v.in_order ∙ append_assoc p.started p.tasks (task ∷ []);
          last = λ h. absurd (no_exit_while_on on (v.last h));
          staffed = v.staffed;
        }
]

act-IsSound : (p : ThreadPool) (i : ℕ) (o : Option Worker) → IsSound p → IsSound (act p i o)
act-IsSound p i none v = v
act-IsSound p i (some waiting) v = look-IsSound p i p.tasks p.stopping refl refl v
act-IsSound p i (some exited) v = v
act-IsSound p i (some (running task)) v = record {
  in_order = v.in_order;
  last = λ h. v.last (still_waiting i p.workers h);
  staffed = still_staffed i waiting p.workers v.staffed;
}

step-IsSound : (p : ThreadPool) (m : Move) → IsSound p → IsSound (step p m)
unfolding begin_shutdown worker_step
step-IsSound p (enqueues task) v = enqueue-IsSound p task v
step-IsSound p shuts_down v = record {
  in_order = v.in_order;
  last = λ h. (refl, (v.last h).1);
  staffed = v.staffed;
}
step-IsSound p (works i) v = act-IsSound p i (worker_at i p.workers) v

idle_still : (n : ℕ) → some_exited (idle_workers n) ≡ false
unfolding some_exited idle_workers
idle_still zero = refl
idle_still (suc n) = idle_still n

idle-IsSound : (n : ℕ) → some_exited (new n).workers ≡ false
unfolding new
idle-IsSound n = idle_still (if n == 0 then 1 else n)

suc_not_zero : (n : ℕ) → (suc n == 0) ≡ false
suc_not_zero n = ground arith

new_staffed : (n : ℕ) → is_staffed (new n).workers ≡ true
unfolding new is_staffed idle_workers
new_staffed zero = refl
new_staffed (suc n) = rw (suc_not_zero n) refl

new-IsSound : (n : ℕ) → IsSound (new n)
unfolding new
new-IsSound n = record {
  in_order = refl;
  last = λ h. absurd (not_both (idle-IsSound n) h);
  staffed = new_staffed n;
}

run_from : (p : ThreadPool) (ms : List Move) → IsSound p → IsSound (run p ms)
unfolding run
run_from p [] v = v
run_from p (m ∷ ms) v = run_from (step p m) ms (step-IsSound p m v)

-- A pool of any size, after any sequence of enqueues, of a shutdown and of steps of its workers: the
-- tasks that were let in have started in that order, or wait in the queue in it; a worker has exited
-- only if the pool is stopping and the queue is empty; the pool has a worker.
pub run-new-IsSound : (n : ℕ) (ms : List Move) → IsSound (run (new n) ms)
run-new-IsSound n ms = run_from (new n) ms (new-IsSound n)

all_and_some : (l : List Worker) → is_staffed l ≡ true → all_exited l ≡ true → some_exited l ≡ true
unfolding is_staffed all_exited some_exited
all_and_some (exited ∷ l) s h = refl
all_and_some [] s h = s
all_and_some (waiting ∷ l) s h = absurd (not_both refl h)
all_and_some (running task ∷ l) s h = absurd (not_both refl h)

-- When every worker of a pool has exited, each task that was let in before has been started, in the
-- order in which they came: a shutdown drops no queued task.
pub run_drains :
    (n : ℕ) (ms : List Move)
    → all_exited (run (new n) ms).workers ≡ true
    → (run (new n) ms).started ≡ (run (new n) ms).accepted
run_drains n ms h =
    let v = run-new-IsSound n ms in
    let p = run (new n) ms in
    sym (
      v.in_order
      ∙ ap (λ q. p.started ++ q) (v.last (all_and_some p.workers v.staffed h)).1
      ∙ append-nil p.started)
