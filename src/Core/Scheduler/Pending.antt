-- ===== src/Core/Scheduler/Pending.antt =====
-- scheduler.cpp: the set of pending tasks against the two queues.
use gtproxy.Prelude.{
  Bool-cases, inl, inr, Bytes, ℕ, suc, ◌+◌, ◌<◌, ◌≤◌, ◌^◌, ◌≡◌, refl, ap, arith, Bool, true, false,
  List, [], ◌∷◌, ◌++◌, ◌==◌, if◌then◌else◌,
}
use gtproxy.Core.Scheduler.{
  Task, Scheduler, has, insert, without, enqueue, count_up, schedule, cancel, cancel_ids,
  cancel_by_tag, cancel_all, should_reschedule, tag_erase, timer_take, worker_take, worker_finish,
}
use gtproxy.Utils.TextParse.{is_empty}
use gtproxy.Core.Scheduler.Steps.{
  Step, scheduled, cancelled, tag_cancelled, all_cancelled, paused, resumed, stopped, timed, taken,
  finished,
}

pub has-insert :
    (j id : ℕ) (xs : List ℕ) → has j (insert id xs) ≡ (if id == j then true else has j xs)
unfolding has insert
has-insert j id [] = ground arith
has-insert j id (x ∷ xs) = ground (arith, has-insert j id xs)

pub has-without :
    (j id : ℕ) (xs : List ℕ) → has j (without id xs) ≡ (if id == j then false else has j xs)
unfolding has without
has-without j id [] = ground arith
has-without j id (x ∷ xs) = ground (arith, has-without j id xs)

-- How many tasks have the id.
abbrev pub count : ℕ → List Task → ℕ
count id [] = 0
count id (t ∷ ts) = (if t.id == id then 1 else 0) + count id ts

count-append : (id : ℕ) (ts us : List Task) → count id (ts ++ us) ≡ count id ts + count id us
count-append id [] us = omega arith
count-append id (t ∷ ts) us = omega (arith, count-append id ts us)

abbrev pub queued : ℕ → Scheduler → ℕ
queued id s = count id s.task_queue + count id s.ready_queue

-- The pending ids are those of the queued tasks, each of one task, and all have been given out.
abbrev PendingAt : Scheduler → ℕ → Type 0
PendingAt s id =
    (queued id s ≡ (if has id s.pending_tasks then 1 else 0))
    × (s.next_id ≤ id → has id s.pending_tasks ≡ false)

abbrev pub Inv : Scheduler → Type 0
Inv s = (id : ℕ) → PendingAt s id

module _ (task : Task) (s : Scheduler) where
  enqueue-Inv :
      task.id ≡ s.next_id → suc s.next_id < 2 ^ 64 → Inv s → Inv (enqueue task (count_up s))
  unfolding enqueue count_up
  enqueue-Inv new small i id = ground (
    arith,
    has-insert id task.id s.pending_tasks,
    has-insert task.id task.id s.pending_tasks,
    i id,
    i task.id,
  )

  count_up-Inv : suc s.next_id < 2 ^ 64 → Inv s → Inv (count_up s)
  unfolding count_up
  count_up-Inv small i id = ground (arith, i id)

schedule-Inv :
    (empty : Bool) (task : Task) (s : Scheduler)
    → suc s.next_id < 2 ^ 64
    → Inv s
    → Inv (schedule empty task s).1
unfolding schedule
schedule-Inv true task s small i = i
schedule-Inv false task s small i = elim (Bool-cases s.running) [
  | inl e ↦ rw e (enqueue-Inv (record task { id = s.next_id }) s refl small i)
  | inr e ↦ rw e (count_up-Inv task s small i)
]

cancel_ids-Inv : (ids : List ℕ) (s : Scheduler) → Inv s → Inv (cancel_ids ids s).1
unfolding cancel_ids
cancel_ids-Inv [] s i = i
cancel_ids-Inv (id ∷ ids) s i = elim (Bool-cases (has id s.pending_tasks)) [
  | inl e ↦ rw e (cancel_ids-Inv ids s i)
  | inr e ↦ rw e (cancel_ids-Inv ids s i)
]

cancel-Inv : (id : ℕ) (s : Scheduler) → Inv s → Inv (cancel id s).1
unfolding cancel
cancel-Inv id s i = elim (Bool-cases (id == 0)) [
  | inl e ↦ rw e i
  | inr e ↦ elim (Bool-cases (has id s.pending_tasks)) [ inl h ↦ rw (e, h) i | inr h ↦ rw (e, h) i ]
]

cancel_by_tag-Inv : (tag : Bytes) (s : Scheduler) → Inv s → Inv (cancel_by_tag tag s).1
unfolding cancel_by_tag
cancel_by_tag-Inv [] s i = i
cancel_by_tag-Inv (c ∷ tag) s i = cancel_ids-Inv _ s i

worker_finish-Inv :
    (task : Task) (continues : Bool) (now : ℕ) (others : List Task) (s : Scheduler)
    → suc s.next_id < 2 ^ 64
    → Inv s
    → Inv (worker_finish task continues now others s)
unfolding worker_finish
worker_finish-Inv task continues now others s small i =
    elim (Bool-cases (should_reschedule task continues s)) [
      | inl e ↦ rw e (
          enqueue-Inv (record task { id = s.next_id; execute_at = now + task.interval })
            (record s {
              held = others;
              running_tasks = without task.id s.running_tasks;
              tasks_by_tag =
                  if is_empty task.tag
                  then s.tasks_by_tag
                  else tag_erase task.tag task.id s.tasks_by_tag;
            })
            refl small i)
      | inr e ↦ rw e i
    ]

module _ (task : Task) (s : Scheduler) where
  timer_take-Inv :
      (before after : List Task)
      → s.task_queue ≡ before ++ task ∷ after
      → Inv s
      → Inv (timer_take task (before ++ after) s)
  unfolding timer_take
  timer_take-Inv before after e i id = ground (
    arith,
    has-without id task.id s.pending_tasks,
    count-append id before (task ∷ after),
    count-append id before after,
    count-append id s.ready_queue (task ∷ []),
    ap (count id) e,
    i id,
  )

  worker_take-Inv :
      (rest : List Task) → s.ready_queue ≡ task ∷ rest → Inv s → Inv (worker_take task rest s)
  unfolding worker_take
  worker_take-Inv rest e i id =
      ground (arith, has-without id task.id s.pending_tasks, ap (count id) e, i id)

pub Step-Inv : {s t : Scheduler} → Step s t → suc s.next_id < 2 ^ 64 → Inv s → Inv t
Step-Inv (scheduled empty task) small i = schedule-Inv empty task _ small i
Step-Inv (cancelled id) small i = cancel-Inv id _ i
Step-Inv (tag_cancelled tag) small i = cancel_by_tag-Inv tag _ i
Step-Inv all_cancelled small i = unfold cancel_all in cancel_ids-Inv _ _ i
Step-Inv paused small i = i
Step-Inv resumed small i = i
Step-Inv stopped small i = i
Step-Inv (timed now before after task _ _ e _ _) small i = timer_take-Inv task _ before after e i
Step-Inv (taken task rest e) small i = worker_take-Inv task _ rest e i
Step-Inv (finished continues now before after task e) small i =
    worker_finish-Inv task continues now (before ++ after) _ small i
