-- ===== src/Scripting/ScriptScheduler/Quiet.antt =====
-- script_scheduler.cpp: a round of callbacks that leave the scheduler alone.
use gtproxy.Prelude.{
  length-append, ℕ, suc, ◌≡◌, refl, sym, ap, ◌∙◌, arith, Bool, true, false, not, ◌&&◌, ◌||◌, ◌++◌,
  List, [], ◌∷◌, some, if◌then◌else◌, get_elem?, length, append_assoc, Bool-cases, inl, inr,
}
use gtproxy.Prelude.Int.{ℤ, pos, ◌-ℤ◌, int_gt}
use gtproxy.Event.{erase_if}
use gtproxy.Scripting.ScriptScheduler.{
  Task, ScriptScheduler, Lua, Answer, elapse, flag_at, stops, call_task, call_due, update, perform,
}

module _ (elapsed : ℤ) where
  abbrev pub is_due : Task → Bool
  is_due t = not t.cancelled && not (int_gt (t.remaining -ℤ elapsed) (pos 0))

  -- The callbacks of the tasks that are due.
  unfoldable pub calls : List Task → List ℕ
  calls [] = []
  calls (t ∷ ts) = let rest = calls ts in if is_due t then t.callback ∷ rest else rest

module _ (answer : ℕ → Answer) (elapsed : ℤ) where
  abbrev pub goes_on : Task → Bool
  goes_on t = t.periodic && not (stops (answer t.callback))

  -- What is left when the round is over: a task that was due and periodic, under its interval again, if
  -- its callback does not return false, and a task that still waits.
  unfoldable pub after_round : List Task → List Task
  after_round [] = []
  after_round (t ∷ ts) =
      let rest = after_round ts in
      if t.cancelled
      then rest
      else if int_gt (t.remaining -ℤ elapsed) (pos 0)
      then record t { remaining = t.remaining -ℤ elapsed } ∷ rest
      else if goes_on t
      then record t { remaining = t.interval } ∷ rest
      else rest

pub get_elem?-append {ℓ} :
    {A : Type ℓ} (front : List A) (x : A) (rest : List A)
    → get_elem? (front ++ x ∷ rest) (length front) ≡ some x
get_elem?-append [] x rest = refl
get_elem?-append (y ∷ front) x rest = get_elem?-append front x rest

flag_at-append :
    (front : List Task) (t : Task) (rest : List Task)
    → flag_at (length front) (front ++ t ∷ rest) ≡ front ++ record t { cancelled = true } ∷ rest
unfolding flag_at
flag_at-append [] t rest = refl
flag_at-append (u ∷ front) t rest = ap (◌∷◌ u) (flag_at-append front t rest)

module _ (elapsed : ℤ) where
  abbrev pub waiting : Task → Task
  waiting t = record t { remaining = t.remaining -ℤ elapsed }

  abbrev pub renewed : Task → Task
  renewed t = record t { remaining = if t.periodic then t.interval else t.remaining -ℤ elapsed }

  abbrev pub first : ℕ → List Task → List Task × List ℕ
  first n ts = elapse elapsed n ts

  pub elapse-cons :
      (n : ℕ) (t : Task) (ts : List Task)
      → first n (t ∷ ts) ≡ (
          if t.cancelled
          then (t ∷ (first (suc n) ts).0, (first (suc n) ts).1)
          else if int_gt (t.remaining -ℤ elapsed) (pos 0)
          then (waiting t ∷ (first (suc n) ts).0, (first (suc n) ts).1)
          else (renewed t ∷ (first (suc n) ts).0, n ∷ (first (suc n) ts).1))
  unfolding elapse
  elapse-cons n t ts = refl

module _ (lua : Lua) where
  pub call_due-step :
      (n : ℕ) (due : List ℕ) (t : Task) (s : ScriptScheduler)
      → get_elem? s.tasks n ≡ some t
      → t.cancelled ≡ false
      → call_due lua (n ∷ due) s ≡ (
        (call_due lua due (call_task lua n t s)).0,
        t.callback ∷ (call_due lua due (call_task lua n t s)).1,
      )
  unfolding call_due
  call_due-step n due t s e c = rw (call_due, e, c) refl

ends-goes_on : (e p : Bool) → ((e && p) || not p) ≡ not (p && not e)
ends-goes_on true true = refl
ends-goes_on true false = refl
ends-goes_on false true = refl
ends-goes_on false false = refl

module _ (lua : Lua) (answer : ℕ → Answer)
    (quiet : (c : ℕ) (s : ScriptScheduler) → lua c s ≡ ([], answer c)) (elapsed : ℤ)
    (next_id : ℕ) where
  abbrev with_tasks : List Task → ScriptScheduler
  with_tasks ts = record { tasks = ts; next_id = next_id }

  -- The task after its callback.
  abbrev called_task : Task → Task
  called_task t = if goes_on answer elapsed t then t else record t { cancelled = true }

  call_task-quiet :
      (front rest : List Task) (t : Task)
      → call_task lua (length front) t (with_tasks (front ++ t ∷ rest))
        ≡ with_tasks (front ++ called_task t ∷ rest)
  unfolding call_task perform
  call_task-quiet front rest t =
      rw (quiet t.callback _, ends-goes_on (stops (answer t.callback)) t.periodic)
        (elim (Bool-cases (t.periodic && not (stops (answer t.callback)))) [
          | inl e ↦ rw e refl
          | inr e ↦ rw e (ap with_tasks (flag_at-append front t rest))
        ])

  call_due-cons :
      (front rest : List Task) (t : Task) (due : List ℕ)
      → t.cancelled ≡ false
      → call_due lua (length front ∷ due) (with_tasks (front ++ t ∷ rest)) ≡ (
        (call_due lua due (with_tasks (front ++ called_task t ∷ rest))).0,
        t.callback ∷ (call_due lua due (with_tasks (front ++ called_task t ∷ rest))).1,
      )
  call_due-cons front rest t due e =
      call_due-step lua (length front) due t (with_tasks (front ++ t ∷ rest))
        (get_elem?-append front t rest) e
      ∙ ap (λ (s : ScriptScheduler). ((call_due lua due s).0, t.callback ∷ (call_due lua due s).1))
          (call_task-quiet front rest t)

  settle : Task → Task
  settle t =
      if t.cancelled
      then t
      else if int_gt (t.remaining -ℤ elapsed) (pos 0)
      then waiting elapsed t
      else called_task (renewed elapsed t)

  settle_all : List Task → List Task
  settle_all [] = []
  settle_all (t ∷ ts) = settle t ∷ settle_all ts

  abbrev second : List Task → List Task × List ℕ → ScriptScheduler × List ℕ
  second front r = call_due lua r.1 (with_tasks (front ++ r.0))

  Round : List Task → List Task → Type 0
  Round front ts =
      second front (first elapsed (length front) ts)
      ≡ (with_tasks (front ++ settle_all ts), calls elapsed ts)

  moved :
      (front ts : List Task) (t : Task)
      → Round (front ++ t ∷ []) ts
      → call_due lua
          (first elapsed (suc (length front)) ts).1
          (with_tasks (front ++ t ∷ (first elapsed (suc (length front)) ts).0))
        ≡ (with_tasks (front ++ t ∷ settle_all ts), calls elapsed ts)
  unfolding Round
  moved front ts t h =
      let size : length (front ++ t ∷ []) ≡ suc (length front) =
        omega (arith, length-append front (t ∷ [])) in
      ap
        (λ (xs : List Task). call_due lua (first elapsed (suc (length front)) ts).1 (with_tasks xs))
        (sym (append_assoc front (t ∷ []) (first elapsed (suc (length front)) ts).0))
      ∙ ap (λ (k : ℕ). second (front ++ t ∷ []) (first elapsed k ts)) (sym size)
      ∙ h
      ∙ ap (λ (xs : List Task). (with_tasks xs, calls elapsed ts))
          (append_assoc front (t ∷ []) (settle_all ts))

  Round-due :
      (front ts : List Task) (t : Task)
      → t.cancelled ≡ false
      → Round (front ++ called_task t ∷ []) ts
      → call_due lua
          (length front ∷ (first elapsed (suc (length front)) ts).1)
          (with_tasks (front ++ t ∷ (first elapsed (suc (length front)) ts).0))
        ≡ (with_tasks (front ++ called_task t ∷ settle_all ts), t.callback ∷ calls elapsed ts)
  Round-due front ts t e h =
      call_due-cons front (first elapsed (suc (length front)) ts).0 t
        (first elapsed (suc (length front)) ts).1 e
      ∙ ap (λ (r : ScriptScheduler × List ℕ). (r.0, t.callback ∷ r.1))
          (moved front ts (called_task t) h)

  round : (ts front : List Task) → Round front ts
  unfolding Round settle_all calls settle
  round [] front = unfold elapse call_due in refl
  round (t ∷ ts) front =
      ap (second front) (elapse-cons elapsed (length front) t ts) ∙ (elim (Bool-cases t.cancelled) [
        | inl c ↦ rw c (moved front ts (record t { cancelled = true }) (round ts _))
        | inr c ↦ (elim (Bool-cases (int_gt (t.remaining -ℤ elapsed) (pos 0))) [
          | inl w ↦
              rw (c, w)
                (moved front ts (record t { remaining = t.remaining -ℤ elapsed; cancelled = false })
                  (round ts _))
          | inr w ↦
              rw (c, w)
                (Round-due front ts (renewed elapsed (record t { cancelled = false })) refl
                  (round ts _))
        ])
      ])

  erase_if-settle_all :
      (ts : List Task)
      → erase_if (λ (t : Task). t.cancelled) (settle_all ts) ≡ after_round answer elapsed ts
  unfolding settle_all erase_if after_round settle
  erase_if-settle_all [] = refl
  erase_if-settle_all (t ∷ ts) = elim (Bool-cases t.cancelled) [
    | inl c ↦ rw c (erase_if-settle_all ts)
    | inr c ↦ (elim (Bool-cases (int_gt (t.remaining -ℤ elapsed) (pos 0))) [
      | inl w ↦
          rw (c, w)
            (ap (◌∷◌ (record t { remaining = t.remaining -ℤ elapsed; cancelled = false }))
              (erase_if-settle_all ts))
      | inr w ↦ (elim (Bool-cases t.periodic) [
        | inl p ↦ (elim (Bool-cases (stops (answer t.callback))) [
          | inl e ↦ rw (c, w, p, e) (erase_if-settle_all ts)
          | inr e ↦
              rw (c, w, p, e)
                (ap (◌∷◌ (record t { remaining = t.interval; periodic = true; cancelled = false }))
                  (erase_if-settle_all ts))
        ])
        | inr p ↦ rw (c, w, p) (erase_if-settle_all ts)
      ])
    ])
  ]

  update-list :
      (ts : List Task)
      → update lua elapsed (with_tasks ts)
        ≡ (with_tasks (after_round answer elapsed ts), calls elapsed ts)
  unfolding update Round
  update-list [] = unfold after_round calls in refl
  update-list (t ∷ ts) =
      ap
        (λ (r : ScriptScheduler × List ℕ).
          (record r.0 { tasks = erase_if (λ (u : Task). u.cancelled) r.0.tasks }, r.1))
        (round (t ∷ ts) [])
      ∙ ap (λ (us : List Task). (with_tasks us, calls elapsed (t ∷ ts)))
          (erase_if-settle_all (t ∷ ts))

-- A round of `update` whose callbacks do nothing to the scheduler, whatever they answer, does to each task
-- what it does alone: it calls those that are due, in their order, and keeps those that wait and the
-- periodic ones that go on.
pub update-after_round :
    (lua : Lua) (answer : ℕ → Answer) (elapsed : ℤ) (s : ScriptScheduler)
    → ((c : ℕ) (t : ScriptScheduler) → lua c t ≡ ([], answer c))
    → update lua elapsed s
      ≡ (record s { tasks = after_round answer elapsed s.tasks }, calls elapsed s.tasks)
update-after_round lua answer elapsed s quiet =
    update-list lua answer quiet elapsed s.next_id s.tasks
