-- ===== src/Scripting/ScriptScheduler.antt =====
-- scripting/script_scheduler.cpp: the timers of scripts. A std::shared_ptr of a task is its position, since
-- the list only grows at its end until the last line of `update`.
pub mod Rounds
pub mod Quiet
pub mod Waiting
use gtproxy.Prelude.{
  ℕ, zero, suc, ◌+◌, ◌*◌, ◌%◌, ◌^◌, Bool, true, false, not, ◌&&◌, ◌||◌, ◌≡◌, ◌++◌, List, [], ◌∷◌,
  map, Option, none, some, ◌==◌, if◌then◌else◌, get_elem?, length,
}
use gtproxy.Prelude.Int.{ℤ, pos, negsuc, ◌-ℤ◌, int_gt}
use gtproxy.Utils.TextParse.{is_empty}
use gtproxy.Event.{erase_if}

-- Times are microseconds, without a bound: the 64 bits that count them last for more than 290000 years.
-- A callback of Lua has a number.
pub record Task : Type 0 where
  pub id : ℕ
  pub remaining : ℤ
  pub interval : ℤ
  pub callback : ℕ
  pub periodic : Bool
  pub cancelled : Bool

pub record ScriptScheduler : Type 0 where
  pub tasks : List Task
  pub next_id : ℕ

abbrev pub new_scheduler : ScriptScheduler
new_scheduler = record { tasks = []; next_id = 1 }

-- `duration_cast` of milliseconds.
unfoldable pub microseconds : ℤ → ℤ
microseconds (pos n) = pos (n * 1000)
microseconds (negsuc n) = negsuc (n * 1000 + 999)

abbrev pub generate_id : ScriptScheduler → ℕ
generate_id s = (s.next_id + 1) % 2 ^ 64

abbrev push_task : Task → ScriptScheduler → ScriptScheduler
push_task task s = record { tasks = s.tasks ++ task ∷ []; next_id = generate_id s }

unfoldable pub schedule : ℤ → ℕ → ScriptScheduler → ℕ × ScriptScheduler
unfolding microseconds
schedule delay callback s = (
  s.next_id,
  push_task
      (record {
        id = s.next_id;
        remaining = microseconds delay;
        interval = pos 0;
        callback = callback;
        periodic = false;
        cancelled = false;
      })
      s,
)

unfoldable pub schedule_periodic : ℤ → ℕ → ℤ → ScriptScheduler → ℕ × ScriptScheduler
unfolding microseconds
schedule_periodic interval callback initial_delay s = (
  s.next_id,
  push_task
      (record {
        id = s.next_id;
        remaining = microseconds (if int_gt initial_delay (pos 0) then initial_delay else interval);
        interval = microseconds interval;
        callback = callback;
        periodic = true;
        cancelled = false;
      })
      s,
)

-- The first task with the id is flagged.
unfoldable pub cancel_tasks : ℕ → List Task → Bool × List Task
cancel_tasks id [] = (false, [])
cancel_tasks id (t ∷ ts) =
    let (found, rest) = cancel_tasks id ts in
    if t.id == id then (true, record t { cancelled = true } ∷ ts) else (found, t ∷ rest)

unfoldable pub cancel : ℕ → ScriptScheduler → Bool × ScriptScheduler
unfolding cancel_tasks
cancel id s = let (found, tasks) = cancel_tasks id s.tasks in (found, record s { tasks = tasks })

unfoldable pub cancel_all : ScriptScheduler → ScriptScheduler
cancel_all s = record s { tasks = map (λ (t : Task). record t { cancelled = true }) s.tasks }

unfoldable pub is_pending : ℕ → List Task → Bool
is_pending id [] = false
is_pending id (t ∷ ts) = (t.id == id && not t.cancelled) || is_pending id ts

unfoldable pub pending_count : List Task → ℕ
pending_count [] = 0
pending_count (t ∷ ts) = let rest = pending_count ts in if t.cancelled then rest else suc rest

-- What a callback may do to the scheduler while it runs.
pub data Action : Type 0 where
  do_schedule : (delay : ℤ) (callback : ℕ) → Action
  do_schedule_periodic : (interval : ℤ) (callback : ℕ) (initial_delay : ℤ) → Action
  do_cancel : (id : ℕ) → Action
  do_cancel_all : Action

unfoldable pub perform : List Action → ScriptScheduler → ScriptScheduler
unfolding schedule schedule_periodic cancel cancel_all
perform [] s = s
perform (do_schedule delay callback ∷ actions) s = perform actions (schedule delay callback s).1
perform (do_schedule_periodic interval callback initial_delay ∷ actions) s =
    perform actions (schedule_periodic interval callback initial_delay s).1
perform (do_cancel id ∷ actions) s = perform actions (cancel id s).1
perform (do_cancel_all ∷ actions) s = perform actions (cancel_all s)

-- What a callback returns: the Boolean, or anything else, an error among it.
pub data Answer : Type 0 where
  boolean : Bool → Answer
  something : Answer

-- Lua is a parameter: what the callback does in the state in which it is called, and its answer.
abbrev pub Lua : Type 0
Lua = ℕ → ScriptScheduler → List Action × Answer

-- The first loop of `update`, from the position n: the tasks after it, and the positions of those that
-- are due.
unfoldable pub elapse : ℤ → ℕ → List Task → List Task × List ℕ
elapse elapsed n [] = ([], [])
elapse elapsed n (t ∷ ts) =
    let (rest, due) = elapse elapsed (suc n) ts in
    let remaining = t.remaining -ℤ elapsed in
    if t.cancelled
    then (t ∷ rest, due)
    else if int_gt remaining (pos 0)
    then (record t { remaining = remaining } ∷ rest, due)
    else (record t { remaining = if t.periodic then t.interval else remaining } ∷ rest, n ∷ due)

unfoldable pub flag_at : ℕ → List Task → List Task
flag_at n [] = []
flag_at zero (t ∷ ts) = record t { cancelled = true } ∷ ts
flag_at (suc n) (t ∷ ts) = t ∷ flag_at n ts

unfoldable pub stops : Answer → Bool
stops (boolean b) = not b
stops something = false

module _ (lua : Lua) where
  -- The body of the second loop behind the test, for the task at the position.
  unfoldable pub call_task : ℕ → Task → ScriptScheduler → ScriptScheduler
  unfolding perform stops flag_at
  call_task n t s =
      let (actions, answer) = lua t.callback s in
      let after = perform actions s in
      if (stops answer && t.periodic) || not t.periodic
      then record after { tasks = flag_at n after.tasks }
      else after

  -- The second loop, with the callbacks that it calls.
  unfoldable pub call_due : List ℕ → ScriptScheduler → ScriptScheduler × List ℕ
  unfolding call_task
  call_due [] s = (s, [])
  call_due (n ∷ due) s = elim (get_elem? s.tasks n) [
    | none ↦ call_due due s
    | some t ↦
        let skipped = call_due due s in
        let (last, called) = call_due due (call_task n t s) in
        if t.cancelled then skipped else (last, t.callback ∷ called)
  ]

  unfoldable pub update : ℤ → ScriptScheduler → ScriptScheduler × List ℕ
  unfolding elapse call_due erase_if
  update elapsed s =
      let (tasks, due) = elapse elapsed 0 s.tasks in
      let (last, called) = call_due due (record s { tasks = tasks }) in
      if is_empty s.tasks
      then (s, [])
      else (record last { tasks = erase_if (λ (t : Task). t.cancelled) last.tasks }, called)
