-- ===== src/Core/Scheduler/Cancel.antt =====
-- scheduler.cpp: `cancel` against the timer and the workers.
use gtproxy.Prelude.{ℕ, ◌<◌, ◌≡◌, ◌≢◌, arith, Bool, true, false, List, ◌∷◌}
use gtproxy.Core.Scheduler.{
  Task, Scheduler, has, insert, enqueue, cancel, is_pending, timer_take, worker_take, worker_finish,
  should_reschedule,
}
use gtproxy.Core.Scheduler.Pending.{has-insert, has-without}

module _ (task : Task) (s : Scheduler) where
  -- `cancel` of a pending task, whose id is not 0, is accepted and the task counts no longer as
  -- pending; when the timer takes it out of the queue it does not become ready, and is neither in
  -- the set of pending tasks nor in that of cancelled ones any more.
  pub cancel-timer_take :
      (others : List Task)
      → task.id ≢ 0
      → has task.id s.pending_tasks ≡ true
      → let c = cancel task.id s in
        let t = timer_take task others c.1 in
        (c.0 ≡ true)
        × (is_pending task.id c.1 ≡ false)
        × (t.ready_queue ≡ s.ready_queue)
        × (has task.id t.pending_tasks ≡ false)
        × (has task.id t.cancelled_tasks ≡ false)
  unfolding cancel timer_take is_pending
  cancel-timer_take others ne p = ground (
    arith,
    has-insert task.id task.id s.cancelled_tasks,
    has-without task.id task.id (insert task.id s.cancelled_tasks),
    has-without task.id task.id s.pending_tasks,
  )

  -- `cancel` of a pending task, whose id is not 0, is accepted also where the task is ready, and
  -- it counts no longer as pending, but it is still at the front of the ready queue, and the
  -- worker that takes it runs it.
  pub cancel-worker_take :
      (rest : List Task)
      → task.id ≢ 0
      → has task.id s.pending_tasks ≡ true
      → s.ready_queue ≡ task ∷ rest
      → let c = cancel task.id s in
        (c.0 ≡ true)
        × (is_pending task.id c.1 ≡ false)
        × (c.1.ready_queue ≡ task ∷ rest)
        × (has task.id (worker_take task rest c.1).running_tasks ≡ true)
  unfolding cancel worker_take is_pending
  cancel-worker_take rest ne p e = ground (
    arith,
    has-insert task.id task.id s.cancelled_tasks,
    has-without task.id task.id s.pending_tasks,
  )

  -- A task that is to be run again comes back under a new id, which is pending, and `cancel`
  -- refuses the id that it had, if that was given out before and is not pending, as for a task
  -- that has just run.
  pub cancel-worker_finish :
      (continues : Bool) (now : ℕ) (others : List Task)
      → should_reschedule task continues s ≡ true
      → task.id < s.next_id
      → has task.id s.pending_tasks ≡ false
      → let t = worker_finish task continues now others s in
        ((cancel task.id t).0 ≡ false) × (has s.next_id t.pending_tasks ≡ true)
  unfolding cancel worker_finish enqueue
  cancel-worker_finish continues now others e old p = ground (
    arith,
    has-insert task.id task.id s.cancelled_tasks,
    has-without task.id task.id s.pending_tasks,
  )
