-- ===== src/Core/Scheduler.antt =====
-- core/scheduler.hpp and scheduler.cpp: the queues of tasks, under the mutex, and what each thread
-- does to them in one critical section.
pub mod Steps
pub mod Pending
pub mod Runs
pub mod Cancel
pub mod CancelMany
use gtproxy.Prelude.{
  ℕ, ◌+◌, ◌%◌, ◌^◌, Bool, true, false, not, ◌&&◌, ◌||◌, List, [], ◌∷◌, ◌++◌, Option, none, some,
  Bytes, ltb, leb, ◌==◌, if◌then◌else◌, str_eq,
}
use gtproxy.Utils.TextParse.{is_empty}

-- The value of each priority, counted from -128.
pub data TaskPriority : Type 0 where
  highest high normal low lowest : TaskPriority

abbrev rank : TaskPriority → ℕ
rank highest = 0
rank high = 64
rank normal = 128
rank low = 192
rank lowest = 255

-- Times in ticks of the clock. A callback stands for its function, `should_continue` for the flag
-- that is shared, if there is one.
pub record Task : Type 0 where
  pub id : ℕ
  pub tag : Bytes
  pub priority : TaskPriority
  pub execute_at : ℕ
  pub interval : ℕ
  pub callback : ℕ
  pub should_continue : Option ℕ

-- `operator>`
unfoldable pub is_after : Task → Task → Bool
is_after t u =
    if not (t.execute_at == u.execute_at)
    then ltb u.execute_at t.execute_at
    else ltb (rank u.priority) (rank t.priority)

-- The sets are lists, the priority queue a bag. `held` is the task in the local variable of each
-- worker.
pub record Scheduler : Type 0 where
  pub running : Bool
  pub paused : Bool
  pub next_id : ℕ
  pub task_queue : List Task
  pub ready_queue : List Task
  pub held : List Task
  pub pending_tasks : List ℕ
  pub cancelled_tasks : List ℕ
  pub running_tasks : List ℕ
  pub tasks_by_tag : List (Bytes × List ℕ)

abbrev pub new_scheduler : Scheduler
new_scheduler = record {
  running = true;
  paused = false;
  next_id = 1;
  task_queue = [];
  ready_queue = [];
  held = [];
  pending_tasks = [];
  cancelled_tasks = [];
  running_tasks = [];
  tasks_by_tag = [];
}

-- The operations of std::unordered_set.
unfoldable pub has : ℕ → List ℕ → Bool
has id [] = false
has id (x ∷ xs) = x == id || has id xs

unfoldable pub insert : ℕ → List ℕ → List ℕ
unfolding has
insert id xs = if has id xs then xs else id ∷ xs

unfoldable pub without : ℕ → List ℕ → List ℕ
without id [] = []
without id (x ∷ xs) = let rest = without id xs in if x == id then rest else x ∷ rest

-- `tasks_by_tag_[tag].insert(id)`
unfoldable tag_insert : Bytes → ℕ → List (Bytes × List ℕ) → List (Bytes × List ℕ)
unfolding insert
tag_insert tag id [] = (tag, id ∷ []) ∷ []
tag_insert tag id ((t, ids) ∷ rest) =
    if str_eq t tag then (t, insert id ids) ∷ rest else (t, ids) ∷ tag_insert tag id rest

-- The id goes from its tag, and a tag that is left without ids goes too.
unfoldable pub tag_erase : Bytes → ℕ → List (Bytes × List ℕ) → List (Bytes × List ℕ)
unfolding without
tag_erase tag id [] = []
tag_erase tag id ((t, ids) ∷ rest) =
    if str_eq t tag
    then (if is_empty (without id ids) then rest else (t, without id ids) ∷ rest)
    else (t, ids) ∷ tag_erase tag id rest

unfoldable pub tag_ids : Bytes → List (Bytes × List ℕ) → List ℕ
tag_ids tag [] = []
tag_ids tag ((t, ids) ∷ rest) = if str_eq t tag then ids else tag_ids tag rest

-- `generate_id`, on a std::uint64_t. It stands in front of the lock, and here in the same step.
unfoldable pub count_up : Scheduler → Scheduler
count_up s = record s { next_id = (s.next_id + 1) % 2 ^ 64 }

abbrev invalid_id : ℕ
invalid_id = 0

-- A task enters the queue.
unfoldable pub enqueue : Task → Scheduler → Scheduler
unfolding insert tag_insert
enqueue task s = record s {
  pending_tasks = insert task.id s.pending_tasks;
  tasks_by_tag =
      if is_empty task.tag then s.tasks_by_tag else tag_insert task.tag task.id s.tasks_by_tag;
  task_queue = task ∷ s.task_queue;
}

-- `schedule` and `schedule_periodic`: `task` is what the call describes, its id not yet set; `empty` is
-- an empty std::function.
unfoldable pub schedule : (empty : Bool) → Task → Scheduler → ℕ × Scheduler
unfolding count_up enqueue
schedule true task s = (invalid_id, s)
schedule false task s =
    if s.running
    then (s.next_id, enqueue (record task { id = s.next_id }) (count_up s))
    else (invalid_id, count_up s)

unfoldable pub cancel : ℕ → Scheduler → Bool × Scheduler
unfolding has insert
cancel id s =
    if id == invalid_id
    then (false, s)
    else if not (has id s.pending_tasks)
    then (false, s)
    else (true, record s { cancelled_tasks = insert id s.cancelled_tasks })

-- The loop of `cancel_by_tag` and that of `cancel_all`: the ids that are pending, among these.
unfoldable pub cancel_ids : List ℕ → Scheduler → ℕ × Scheduler
unfolding has insert
cancel_ids [] s = (0, s)
cancel_ids (id ∷ ids) s =
    let rest = cancel_ids ids s in
    if has id s.pending_tasks
    then (rest.0 + 1, record rest.1 { cancelled_tasks = insert id rest.1.cancelled_tasks })
    else rest

unfoldable pub cancel_by_tag : Bytes → Scheduler → ℕ × Scheduler
unfolding cancel_ids tag_ids
cancel_by_tag tag s = if is_empty tag then (0, s) else cancel_ids (tag_ids tag s.tasks_by_tag) s

unfoldable pub cancel_all : Scheduler → Scheduler
unfolding cancel_ids
cancel_all s = (cancel_ids s.pending_tasks s).1

unfoldable pub is_pending : ℕ → Scheduler → Bool
unfolding has
is_pending id s = has id s.pending_tasks && not (has id s.cancelled_tasks)

-- The loop of `pending_count`, over the set that is given.
unfoldable pub count_pending : List ℕ → Scheduler → ℕ
unfolding has
count_pending [] s = 0
count_pending (id ∷ ids) s = (if has id s.cancelled_tasks then 0 else 1) + count_pending ids s

unfoldable pub pending_count : Scheduler → ℕ
unfolding count_pending
pending_count s = count_pending s.pending_tasks s

-- `timer_thread` takes the top task, which is due, out of the queue; the other tasks are `others`.
unfoldable pub timer_take : Task → (others : List Task) → Scheduler → Scheduler
unfolding has without tag_erase
timer_take task others s =
    if has task.id s.cancelled_tasks
    then record s {
      task_queue = others;
      pending_tasks = without task.id s.pending_tasks;
      cancelled_tasks = without task.id s.cancelled_tasks;
      tasks_by_tag =
          if is_empty task.tag then s.tasks_by_tag else tag_erase task.tag task.id s.tasks_by_tag;
    }
    else record s { task_queue = others; ready_queue = s.ready_queue ++ task ∷ [] }

-- `worker_thread` takes the front of the ready queue, which leaves `rest`.
unfoldable pub worker_take : Task → (rest : List Task) → Scheduler → Scheduler
unfolding insert without
worker_take task rest s = record s {
  ready_queue = rest;
  held = task ∷ s.held;
  pending_tasks = without task.id s.pending_tasks;
  running_tasks = insert task.id s.running_tasks;
}

-- The test behind the callback; `continues` is what the flag holds.
unfoldable pub should_reschedule : Task → (continues : Bool) → Scheduler → Bool
unfolding has
should_reschedule task continues s =
    ltb 0 task.interval
    && not (has task.id s.cancelled_tasks)
    && elim task.should_continue [ none ↦ true | some f ↦ continues ]

-- `worker_thread` behind the callback, at the time `now`.
unfoldable pub worker_finish :
    Task → (continues : Bool) → (now : ℕ) → List Task → Scheduler → Scheduler
unfolding should_reschedule enqueue count_up without tag_erase
worker_finish task continues now others s =
    let left = record s {
      held = others;
      running_tasks = without task.id s.running_tasks;
      tasks_by_tag =
          if is_empty task.tag then s.tasks_by_tag else tag_erase task.tag task.id s.tasks_by_tag;
    } in
    let after =
      if should_reschedule task continues s
      then enqueue (record task { id = s.next_id; execute_at = now + task.interval })
          (count_up left)
      else left in
    record after { cancelled_tasks = without task.id s.cancelled_tasks }
