-- ===== src/Core/Scheduler/Steps.antt =====
-- scheduler.cpp: the critical sections of callers, the timer and the workers, in any order.
use gtproxy.Prelude.{ℕ, suc, ◌≤◌, ◌≡◌, Bool, true, false, List, [], ◌∷◌, ◌++◌, Bytes}
use gtproxy.Core.Scheduler.{
  Task, Scheduler, is_after, new_scheduler, schedule, cancel, cancel_by_tag, cancel_all, timer_take,
  worker_take, worker_finish,
}

abbrev NoneBefore : Task → List Task → Type 0
NoneBefore task [] = Unit
NoneBefore task (t ∷ ts) = (is_after task t ≡ false) × NoneBefore task ts

-- The top of the queue is any task with none before it.
pub data Step (s : Scheduler) : Scheduler → Type 0 where
  scheduled : (empty : Bool) (task : Task) → Step s (schedule empty task s).1
  cancelled : (id : ℕ) → Step s (cancel id s).1
  tag_cancelled : (tag : Bytes) → Step s (cancel_by_tag tag s).1
  all_cancelled : Step s (cancel_all s)
  paused : Step s (record s { paused = true })
  resumed : Step s (record s { paused = false })
  stopped : Step s (record s { running = false })
  timed :
      (now : ℕ) (before after : List Task) (task : Task)
      → s.running ≡ true
      → s.paused ≡ false
      → s.task_queue ≡ before ++ task ∷ after
      → NoneBefore task (before ++ after)
      → task.execute_at ≤ now
      → Step s (timer_take task (before ++ after) s)
  taken :
      (task : Task) (rest : List Task)
      → s.ready_queue ≡ task ∷ rest
      → Step s (worker_take task rest s)
  finished :
      (continues : Bool) (now : ℕ) (before after : List Task) (task : Task)
      → s.held ≡ before ++ task ∷ after
      → Step s (worker_finish task continues now (before ++ after) s)

-- The states that a scheduler can be in after so many steps.
pub data Run : ℕ → Scheduler → Type 0 where
  start : Run 0 new_scheduler
  later : {n : ℕ} {s t : Scheduler} → Run n s → Step s t → Run (suc n) t
