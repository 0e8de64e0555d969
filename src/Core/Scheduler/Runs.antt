-- ===== src/Core/Scheduler/Runs.antt =====
-- scheduler.cpp: the ids that are given out, and what holds after any steps.
use gtproxy.Prelude.{
  ℕ, suc, ◌+◌, ◌<◌, ◌≤◌, ◌^◌, ◌≡◌, refl, arith, true, false, List, [], ◌∷◌, Bytes,
}
use gtproxy.Core.Scheduler.{
  Scheduler, has, count_up, enqueue, schedule, cancel, cancel_ids, cancel_by_tag, cancel_all,
  timer_take, worker_finish, worker_take,
}
use gtproxy.Core.Scheduler.Steps.{
  Step, scheduled, cancelled, tag_cancelled, all_cancelled, paused, resumed, stopped, timed, taken,
  finished, Run, start, later,
}
use gtproxy.Core.Scheduler.Pending.{Inv, Step-Inv}

cancel_ids-next_id : (ids : List ℕ) (s : Scheduler) → (cancel_ids ids s).1.next_id ≡ s.next_id
unfolding cancel_ids
cancel_ids-next_id [] s = refl
cancel_ids-next_id (id ∷ ids) s = ground (arith, cancel_ids-next_id ids s)

cancel_by_tag-next_id : (tag : Bytes) (s : Scheduler) → (cancel_by_tag tag s).1.next_id ≡ s.next_id
unfolding cancel_by_tag
cancel_by_tag-next_id [] s = refl
cancel_by_tag-next_id (c ∷ tag) s = cancel_ids-next_id _ s

-- A step gives out at most one id.
Step-next_id : {s t : Scheduler} → Step s t → suc s.next_id < 2 ^ 64 → t.next_id ≤ suc s.next_id
unfolding schedule count_up enqueue cancel cancel_all timer_take worker_take worker_finish
Step-next_id (scheduled true task) small = omega arith
Step-next_id (scheduled false task) small = ground arith
Step-next_id (cancelled id) small = ground arith
Step-next_id {s = s} (tag_cancelled tag) small = omega (arith, cancel_by_tag-next_id tag s)
Step-next_id {s = s} all_cancelled small = omega (arith, cancel_ids-next_id s.pending_tasks s)
Step-next_id paused small = omega arith
Step-next_id resumed small = omega arith
Step-next_id stopped small = omega arith
Step-next_id (timed now before after task _ _ e _ _) small = ground arith
Step-next_id (taken task rest e) small = omega arith
Step-next_id (finished continues now before after task e) small = ground arith

Run-next_id : {n : ℕ} {s : Scheduler} → Run n s → n + 2 < 2 ^ 64 → s.next_id ≤ suc n
Run-next_id start small = omega arith
Run-next_id (later r x) small =
    let before : _ ≤ _ = Run-next_id r (omega arith) in omega (arith, Step-next_id x (omega arith))

-- In whatever order callers, the timer and the workers go on, the pending ids are exactly those of
-- the tasks in the two queues, each of one task, and no id that is still to be given out is
-- pending, for as many steps as the ids last.
pub Run-Inv : {n : ℕ} {s : Scheduler} → Run n s → n + 2 < 2 ^ 64 → Inv s
unfolding has
Run-Inv start small = λ id. ground arith
Run-Inv (later r x) small =
    Step-Inv x (omega (arith, Run-next_id r (omega arith))) (Run-Inv r (omega arith))
