-- ===== src/Tests/Schedules.antt =====
-- core/scheduler.cpp on concrete tasks.
use gtproxy.Prelude.{◌≡◌, refl, arith, true, false, [], ◌∷◌, none}
use gtproxy.Core.Scheduler.{
  Task, Scheduler, normal, new_scheduler, has, schedule, cancel, is_pending, timer_take,
  worker_take, worker_finish, should_reschedule,
}
use gtproxy.Core.Scheduler.Steps.{start, later, scheduled, timed, taken}
use gtproxy.Core.Scheduler.Pending.{Inv}
use gtproxy.Core.Scheduler.Runs.{Run-Inv}
use gtproxy.Core.Scheduler.Cancel.{cancel-timer_take, cancel-worker_take, cancel-worker_finish}

abbrev ping : Task
ping = record {
  id = 1;
  tag = b'p' ∷ [];
  priority = normal;
  execute_at = 5;
  interval = 10;
  callback = 0;
  should_continue = none;
}

abbrev queued_once : Scheduler
queued_once = (schedule false ping new_scheduler).1

abbrev ready_once : Scheduler
ready_once = timer_take ping [] queued_once

abbrev taken_once : Scheduler
taken_once = worker_take ping [] ready_once

first_id : (schedule false ping new_scheduler).0 ≡ 1
unfolding schedule
first_id = refl

Run-Inv_example : Inv taken_once
unfolding schedule timer_take
Run-Inv_example =
    Run-Inv
      (later
        (later (later start (scheduled false ping))
          (timed 5 [] [] ping refl refl refl tt (omega arith)))
        (taken ping [] refl))
      (omega arith)

cancel-timer_take_example :
    let c = cancel 1 queued_once in
    let t = timer_take ping [] c.1 in
    (c.0 ≡ true)
    × (is_pending 1 c.1 ≡ false)
    × (t.ready_queue ≡ [])
    × (has 1 t.pending_tasks ≡ false)
    × (has 1 t.cancelled_tasks ≡ false)
unfolding schedule
cancel-timer_take_example = cancel-timer_take ping queued_once [] (λ p. omega arith) refl

cancel-worker_take_example :
    let c = cancel 1 ready_once in
    (c.0 ≡ true)
    × (is_pending 1 c.1 ≡ false)
    × (c.1.ready_queue ≡ ping ∷ [])
    × (has 1 (worker_take ping [] c.1).running_tasks ≡ true)
unfolding schedule timer_take
cancel-worker_take_example = cancel-worker_take ping ready_once [] (λ p. omega arith) refl refl

cancel-worker_finish_example :
    let t = worker_finish ping true 20 [] taken_once in
    ((cancel 1 t).0 ≡ false) × (has 2 t.pending_tasks ≡ true)
unfolding schedule timer_take worker_take should_reschedule
cancel-worker_finish_example =
    cancel-worker_finish ping taken_once true 20 [] refl (omega arith) refl
