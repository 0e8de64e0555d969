-- ===== src/Tests/Timers.antt =====
-- script_scheduler.cpp on two timers.
use gtproxy.Scripting.ScriptScheduler.Waiting.{updates, Member, updates-schedule}
use gtproxy.Prelude.{arith, ℕ, ◌≡◌, refl, true, [], ◌∷◌, if◌then◌else◌, ◌==◌}
use gtproxy.Prelude.Int.{pos, ◌-ℤ◌, int_gt}
use gtproxy.Scripting.ScriptScheduler.{
  ScriptScheduler, new_scheduler, schedule, schedule_periodic, Lua, Answer, boolean, something,
  do_cancel, update,
}
use gtproxy.Scripting.ScriptScheduler.Quiet.{after_round, calls, update-after_round}
use gtproxy.Scripting.ScriptScheduler.Rounds.{Sublist, update-Sublist}

abbrev answers : ℕ → Answer
answers c = boolean true

abbrev idle : Lua
idle c s = ([], answers c)

-- The callback 1 cancels the task 2.
abbrev meddling : Lua
meddling c s = if c == 1 then (do_cancel 2 ∷ [], something) else ([], something)

abbrev s : ScriptScheduler
s = (schedule_periodic (pos 1) 2 (pos 0) (schedule (pos 1) 1 new_scheduler).1).1

update-after_round_example :
    update idle (pos 1000) s
    ≡ (record s { tasks = after_round answers (pos 1000) s.tasks }, calls (pos 1000) s.tasks)
update-after_round_example = update-after_round idle answers (pos 1000) s (λ c t. refl)

update-Sublist_example : Sublist (update meddling (pos 1000) s).1 (calls (pos 1000) s.tasks)
update-Sublist_example = update-Sublist meddling (pos 1000) s

both : calls (pos 1000) s.tasks ≡ 1 ∷ 2 ∷ []
unfolding calls schedule schedule_periodic int_gt ◌-ℤ◌
both = refl

-- A task that an earlier callback of the round cancels is not called.
meddled : (update meddling (pos 1000) s).1 ≡ 1 ∷ []
unfolding update schedule schedule_periodic int_gt ◌-ℤ◌
meddled = refl

-- Three rounds of a millisecond, and a callback after two.
updates-schedule_example :
    Member 9 (updates idle (1000 ∷ 1000 ∷ 1000 ∷ []) (schedule (pos 2) 9 s).1).1
updates-schedule_example =
    updates-schedule idle answers (λ c t. refl) 2 9 s 1000 (1000 ∷ 1000 ∷ []) (omega arith)
