-- ===== src/Scripting/ScriptScheduler/Waiting.antt =====
-- script_scheduler.cpp: a task is called when its time has come.
use gtproxy.Prelude.{
  ◌%◌, ◌^◌, ℕ, ◌+◌, ◌-◌, ◌*◌, ◌≤◌, ◌<◌, ◌≡◌, refl, sym, ap, ◌∙◌, arith, true, false, List, [], ◌∷◌,
  ◌++◌, append_assoc, ltb, Bool-cases, inl, inr,
}
use gtproxy.Prelude.Int.{ℤ, pos, ◌-ℤ◌, int_gt}
use native.Mathlib.Decide.{dec_le}
use gtproxy.Scripting.ScriptScheduler.{
  Task, ScriptScheduler, Lua, Answer, update, schedule, microseconds,
}
use gtproxy.Scripting.ScriptScheduler.Quiet.{
  is_due, calls, after_round, goes_on, update-after_round,
}

-- Rounds of `update`, each with the time that has gone by, and the callbacks that they call.
unfoldable pub updates : Lua → List ℕ → ScriptScheduler → ScriptScheduler × List ℕ
unfolding update
updates lua [] s = (s, [])
updates lua (elapsed ∷ times) s =
    let (t, called) = update lua (pos elapsed) s in
    let (u, later) = updates lua times t in (u, called ++ later)

abbrev pub total : List ℕ → ℕ
total [] = 0
total (n ∷ ns) = n + total ns

abbrev pub Member : ℕ → List ℕ → Type 0
Member c l = (before after : List ℕ) × (l ≡ before ++ c ∷ after)

module _ (elapsed : ℤ) where
  calls-append :
      (xs ys : List Task) → calls elapsed (xs ++ ys) ≡ calls elapsed xs ++ calls elapsed ys
  unfolding calls
  calls-append [] ys = refl
  calls-append (t ∷ xs) ys = elim (Bool-cases (is_due elapsed t)) [
    | inl e ↦ rw e (ap (◌∷◌ t.callback) (calls-append xs ys))
    | inr e ↦ rw e (calls-append xs ys)
  ]

  after_round-append :
      (answer : ℕ → Answer) (xs ys : List Task)
      → after_round answer elapsed (xs ++ ys)
        ≡ after_round answer elapsed xs ++ after_round answer elapsed ys
  unfolding after_round
  after_round-append answer [] ys = refl
  after_round-append answer (t ∷ xs) ys =
      let rest = after_round-append answer xs ys in
      elim (Bool-cases t.cancelled) [
        | inl c ↦ rw c rest
        | inr c ↦ elim (Bool-cases (int_gt (t.remaining -ℤ elapsed) (pos 0))) [
          | inl w ↦
              rw (c, w)
                (ap (◌∷◌ (record t { remaining = t.remaining -ℤ elapsed; cancelled = false })) rest)
          | inr w ↦ elim (Bool-cases (goes_on answer elapsed t)) [
            | inl g ↦
                rw (c, w, g)
                  (ap (◌∷◌ (record t { remaining = t.interval; cancelled = false })) rest)
            | inr g ↦ rw (c, w, g) rest
          ]
        ]
      ]

int_gt-sub : (r d : ℕ) → int_gt (pos r -ℤ pos d) (pos 0) ≡ ltb d r
unfolding int_gt ◌-ℤ◌
int_gt-sub r d = ground arith

pos-sub : (r d : ℕ) → d < r → pos r -ℤ pos d ≡ pos (r - d)
unfolding ◌-ℤ◌
pos-sub r d h = ground arith

-- Whether the time that is left is over.
over_lem :
    (t : Task) (r elapsed : ℕ)
    → t.remaining ≡ pos r
    → int_gt (t.remaining -ℤ pos elapsed) (pos 0) ≡ ltb elapsed r
over_lem t r elapsed e = ap (λ (z : ℤ). int_gt (z -ℤ pos elapsed) (pos 0)) e ∙ int_gt-sub r elapsed

calls-due :
    (t : Task) (back : List Task) (r elapsed : ℕ)
    → t.cancelled ≡ false
    → t.remaining ≡ pos r
    → r ≤ elapsed
    → calls (pos elapsed) (t ∷ back) ≡ t.callback ∷ calls (pos elapsed) back
unfolding calls
calls-due t back r elapsed c e h =
    let over : int_gt (t.remaining -ℤ pos elapsed) (pos 0) ≡ false =
      over_lem t r elapsed e ∙ ground arith in
    rw (c, over) refl

after_round-waiting :
    (answer : ℕ → Answer) (t : Task) (back : List Task) (r elapsed : ℕ)
    → t.cancelled ≡ false
    → t.remaining ≡ pos r
    → elapsed < r
    → after_round answer (pos elapsed) (t ∷ back)
      ≡ record t { remaining = pos (r - elapsed) } ∷ after_round answer (pos elapsed) back
unfolding after_round
after_round-waiting answer t back r elapsed c e h =
    let over : int_gt (t.remaining -ℤ pos elapsed) (pos 0) ≡ true =
      over_lem t r elapsed e ∙ ground arith in
    let left : t.remaining -ℤ pos elapsed ≡ pos (r - elapsed) =
      ap (λ (z : ℤ). z -ℤ pos elapsed) e ∙ pos-sub r elapsed h in
    rw (c, over)
      (ap
        (λ (z : ℤ).
          record t { remaining = z; cancelled = false } ∷ after_round answer (pos elapsed) back)
        left)

module _ (lua : Lua) (answer : ℕ → Answer)
    (quiet : (c : ℕ) (t : ScriptScheduler) → lua c t ≡ ([], answer c)) where
  updates-cons :
      (elapsed : ℕ) (times : List ℕ) (s : ScriptScheduler)
      → (updates lua (elapsed ∷ times) s).1
        ≡ calls (pos elapsed) s.tasks
          ++ (updates lua times (record s { tasks = after_round answer (pos elapsed) s.tasks })).1
  unfolding updates
  updates-cons elapsed times s =
      ap (λ (r : ScriptScheduler × List ℕ). r.1 ++ (updates lua times r.0).1)
        (update-after_round lua answer (pos elapsed) s quiet)

  abbrev with_tasks : List Task → ℕ → ScriptScheduler
  with_tasks tasks next_id = record { tasks = tasks; next_id = next_id }

  Member-now :
      (t : Task) (front back : List Task) (r elapsed : ℕ) (times : List ℕ) (next_id : ℕ)
      → t.cancelled ≡ false
      → t.remaining ≡ pos r
      → r ≤ elapsed
      → Member t.callback (updates lua (elapsed ∷ times) (with_tasks (front ++ t ∷ back) next_id)).1
  Member-now t front back r elapsed times next_id c e h =
      let later =
        (updates lua times
          (with_tasks (after_round answer (pos elapsed) (front ++ t ∷ back)) next_id)).1 in
      (
        calls (pos elapsed) front,
        calls (pos elapsed) back ++ later,
        updates-cons elapsed times (with_tasks (front ++ t ∷ back) next_id)
            ∙ ap (λ (l : List ℕ). l ++ later)
                (calls-append (pos elapsed) front (t ∷ back)
                  ∙ ap (◌++◌ (calls (pos elapsed) front)) (calls-due t back r elapsed c e h))
            ∙ append_assoc (calls (pos elapsed) front) (t.callback ∷ calls (pos elapsed) back)
                later,
      )

  Member-later :
      (c : ℕ) (elapsed : ℕ) (times : List ℕ) (s : ScriptScheduler) (tasks : List Task)
      → after_round answer (pos elapsed) s.tasks ≡ tasks
      → Member c (updates lua times (with_tasks tasks s.next_id)).1
      → Member c (updates lua (elapsed ∷ times) s).1
  Member-later c elapsed times s tasks e (before, after, m) = (
    calls (pos elapsed) s.tasks ++ before,
    after,
    updates-cons elapsed times s
        ∙ ap (◌++◌ (calls (pos elapsed) s.tasks))
            (ap (λ (l : List Task). (updates lua times (with_tasks l s.next_id)).1) e ∙ m)
        ∙ sym (append_assoc (calls (pos elapsed) s.tasks) before (c ∷ after)),
  )

  called_at :
      (times : List ℕ) (t : Task) (front back : List Task) (r elapsed next_id : ℕ)
      → t.cancelled ≡ false
      → t.remaining ≡ pos r
      → r ≤ total (elapsed ∷ times)
      → Member t.callback (updates lua (elapsed ∷ times) (with_tasks (front ++ t ∷ back) next_id)).1
  called_at [] t front back r elapsed next_id c e h =
      Member-now t front back r elapsed [] next_id c e (omega arith)
  called_at (n ∷ ns) t front back r elapsed next_id c e h = elim (dec_le r elapsed) [
    | yes due ↦ Member-now t front back r elapsed (n ∷ ns) next_id c e due
    | no more ↦
        Member-later t.callback elapsed (n ∷ ns) (with_tasks (front ++ t ∷ back) next_id)
          (after_round answer (pos elapsed) front
            ++ record t { remaining = pos (r - elapsed) } ∷ after_round answer (pos elapsed) back)
          (after_round-append (pos elapsed) answer front (t ∷ back)
            ∙ ap (◌++◌ (after_round answer (pos elapsed) front))
                (after_round-waiting answer t back r elapsed c e (omega arith)))
          (called_at ns (record t { remaining = pos (r - elapsed) })
            (after_round answer (pos elapsed) front) (after_round answer (pos elapsed) back)
            (r - elapsed) n next_id c refl (omega arith))
  ]

  -- A callback that is scheduled after a delay of so many milliseconds is called by the rounds of
  -- `update` that follow, as soon as they have taken that time in all, in microseconds, if there is
  -- a round at all, and whatever else is scheduled. No callback schedules or cancels anything.
  pub updates-schedule :
      (delay callback : ℕ) (s : ScriptScheduler) (elapsed : ℕ) (times : List ℕ)
      → delay * 1000 ≤ total (elapsed ∷ times)
      → Member callback (updates lua (elapsed ∷ times) (schedule (pos delay) callback s).1).1
  unfolding schedule microseconds
  updates-schedule delay callback s elapsed times h =
      called_at times
        (record {
          id = s.next_id;
          remaining = pos (delay * 1000);
          interval = pos 0;
          callback = callback;
          periodic = false;
          cancelled = false;
        })
        s.tasks [] (delay * 1000) elapsed ((s.next_id + 1) % 2 ^ 64) refl refl h
