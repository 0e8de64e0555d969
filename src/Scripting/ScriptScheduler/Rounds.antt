-- ===== src/Scripting/ScriptScheduler/Rounds.antt =====
-- script_scheduler.cpp: what callbacks can do to the tasks while a round runs.
use gtproxy.Prelude.{
  ℕ, zero, suc, ◌≡◌, refl, sym, ap, ◌∙◌, arith, true, false, not, ◌&&◌, ◌||◌, ◌++◌, List, [], ◌∷◌,
  map, Option, none, some, get_elem?, length, length-append, append_assoc, Bool-cases, inl, inr,
  subst, ◌⊎◌, ◌==◌,
}
use gtproxy.Prelude.Int.{ℤ, pos, ◌-ℤ◌, int_gt}
use gtproxy.Utils.TextParse.{is_empty}
use gtproxy.Scripting.ScriptScheduler.{
  Task, ScriptScheduler, Lua, Action, do_schedule, do_schedule_periodic, do_cancel, do_cancel_all,
  elapse, flag_at, stops, call_task, call_due, update, perform, schedule, schedule_periodic, cancel,
  cancel_all, cancel_tasks,
}
use gtproxy.Scripting.ScriptScheduler.Quiet.{
  first, elapse-cons, renewed, call_due-step, calls, get_elem?-append,
}

-- The same task later: a flag that is up stays up.
abbrev Later : Task → Task → Type 0
Later t u = (u.id ≡ t.id) × (u.callback ≡ t.callback) × (t.cancelled ≡ true → u.cancelled ≡ true)

-- The same tasks later, with new ones behind them.
abbrev Grown : List Task → List Task → Type 0
Grown [] us = Unit
Grown (t ∷ ts) [] = ⊥
Grown (t ∷ ts) (u ∷ us) = Later t u × Grown ts us

Later-refl : (t : Task) → Later t t
Later-refl t = (refl, refl, λ e. e)

flagged : (t : Task) → Later t (record t { cancelled = true })
flagged t = (refl, refl, λ e. refl)

Grown-append : (ts us : List Task) → Grown ts (ts ++ us)
Grown-append [] us = tt
Grown-append (t ∷ ts) us = (Later-refl t, Grown-append ts us)

Grown-refl : (ts : List Task) → Grown ts ts
Grown-refl [] = tt
Grown-refl (t ∷ ts) = (Later-refl t, Grown-refl ts)

Grown-trans : (ts us vs : List Task) → Grown ts us → Grown us vs → Grown ts vs
Grown-trans [] us vs h k = tt
Grown-trans (t ∷ ts) [] vs h k = absurd h
Grown-trans (t ∷ ts) (u ∷ us) [] h k = absurd k
Grown-trans (t ∷ ts) (u ∷ us) (v ∷ vs) h k =
    ((k.0.0 ∙ h.0.0, k.0.1 ∙ h.0.1, λ e. k.0.2 (h.0.2 e)), Grown-trans ts us vs h.1 k.1)

Grown-cancel_tasks : (id : ℕ) (ts : List Task) → Grown ts (cancel_tasks id ts).1
unfolding cancel_tasks
Grown-cancel_tasks id [] = tt
Grown-cancel_tasks id (t ∷ ts) = elim (Bool-cases (t.id == id)) [
  | inl e ↦ rw e (flagged t, Grown-refl ts)
  | inr e ↦ rw e (Later-refl t, Grown-cancel_tasks id ts)
]

Grown-all : (ts : List Task) → Grown ts (map (λ (t : Task). record t { cancelled = true }) ts)
Grown-all [] = tt
Grown-all (t ∷ ts) = (flagged t, Grown-all ts)

Grown-flag_at : (n : ℕ) (ts : List Task) → Grown ts (flag_at n ts)
unfolding flag_at
Grown-flag_at n [] = tt
Grown-flag_at zero (t ∷ ts) = (flagged t, Grown-refl ts)
Grown-flag_at (suc n) (t ∷ ts) = (Later-refl t, Grown-flag_at n ts)

Grown-perform :
    (actions : List Action) (s : ScriptScheduler) → Grown s.tasks (perform actions s).tasks
unfolding perform
Grown-perform [] s = Grown-refl s.tasks
Grown-perform (do_schedule delay callback ∷ actions) s =
    Grown-trans s.tasks _ _ (unfold schedule in Grown-append s.tasks _)
      (Grown-perform actions (schedule delay callback s).1)
Grown-perform (do_schedule_periodic interval callback initial_delay ∷ actions) s =
    Grown-trans s.tasks _ _ (unfold schedule_periodic in Grown-append s.tasks _)
      (Grown-perform actions (schedule_periodic interval callback initial_delay s).1)
Grown-perform (do_cancel id ∷ actions) s =
    Grown-trans s.tasks _ _ (unfold cancel in Grown-cancel_tasks id s.tasks)
      (Grown-perform actions (cancel id s).1)
Grown-perform (do_cancel_all ∷ actions) s =
    Grown-trans s.tasks _ _ (unfold cancel_all in Grown-all s.tasks)
      (Grown-perform actions (cancel_all s))

module _ (lua : Lua) where
  Grown-call_task :
      (n : ℕ) (t : Task) (s : ScriptScheduler) → Grown s.tasks (call_task lua n t s).tasks
  unfolding call_task
  Grown-call_task n t s =
      elim (Bool-cases ((stops (lua t.callback s).1 && t.periodic) || not t.periodic)) [
        | inl e ↦ rw e (
            Grown-trans s.tasks (perform (lua t.callback s).0 s).tasks _
              (Grown-perform (lua t.callback s).0 s) (Grown-flag_at n _))
        | inr e ↦ rw e (Grown-perform (lua t.callback s).0 s)
      ]

-- The list is what is left of the other when some elements are taken out.
abbrev pub Sublist : List ℕ → List ℕ → Type 0
Sublist [] ys = Unit
Sublist (x ∷ xs) [] = ⊥
Sublist (x ∷ xs) (y ∷ ys) = ((x ≡ y) × Sublist xs ys) ⊎ Sublist (x ∷ xs) ys

Sublist-skip : (xs ys : List ℕ) (y : ℕ) → Sublist xs ys → Sublist xs (y ∷ ys)
Sublist-skip [] ys y h = tt
Sublist-skip (x ∷ xs) ys y h = inr h

-- The tasks at the positions have these callbacks.
Positions : List Task → List ℕ → List ℕ → Type 0
Positions ts [] cs = cs ≡ []
Positions ts (n ∷ due) [] = ⊥
Positions ts (n ∷ due) (c ∷ cs) =
    ((t : Task) × (get_elem? ts n ≡ some t) × (t.callback ≡ c)) × Positions ts due cs

Grown-get_elem? :
    (ts us : List Task) (n : ℕ) (t : Task)
    → Grown ts us
    → get_elem? ts n ≡ some t
    → (u : Task) × (get_elem? us n ≡ some u) × (u.callback ≡ t.callback)
Grown-get_elem? [] us n t h e = absurd (cc e)
Grown-get_elem? (x ∷ ts) [] n t h e = absurd h
Grown-get_elem? (x ∷ ts) (u ∷ us) zero t h e =
    (u, refl, h.0.1 ∙ ap (λ (o : Option Task). elim o [ none ↦ 0 | some y ↦ y.callback ]) e)
Grown-get_elem? (x ∷ ts) (u ∷ us) (suc n) t h e = Grown-get_elem? ts us n t h.1 e

module _ (lua : Lua) where
  call_due-skipped :
      (n : ℕ) (due : List ℕ) (t : Task) (s : ScriptScheduler)
      → get_elem? s.tasks n ≡ some t
      → t.cancelled ≡ true
      → call_due lua (n ∷ due) s ≡ call_due lua due s
  unfolding call_due
  call_due-skipped n due t s e c = rw (call_due, e, c) refl

  call_due-Sublist :
      (ts : List Task) (due cs : List ℕ) (s : ScriptScheduler)
      → Positions ts due cs
      → Grown ts s.tasks
      → Sublist (call_due lua due s).1 cs
  unfolding Positions
  call_due-Sublist ts [] cs s h g = unfold call_due in tt
  call_due-Sublist ts (n ∷ due) [] s h g = absurd h
  call_due-Sublist ts (n ∷ due) (c ∷ cs) s ((t, e, is), h) g =
      let (u, e', same) = Grown-get_elem? ts s.tasks n t g e in
      (elim (Bool-cases u.cancelled) [
        | inl x ↦
            rw (call_due-skipped n due u s e' x)
              (Sublist-skip _ cs c (call_due-Sublist ts due cs s h g))
        | inr x ↦ rw (call_due-step lua n due u s e' x) (
            inl (
              same ∙ is,
              call_due-Sublist ts due cs (call_task lua n u s) h
                  (Grown-trans ts s.tasks _ g (Grown-call_task lua n u s)),
            ))
      ])

module _ (elapsed : ℤ) where
  Found : List Task → List Task × List ℕ → List ℕ → Type 0
  Found front r cs = Positions (front ++ r.0) r.1 cs

  found_behind :
      (ts front : List Task) (t : Task)
      → Found (front ++ t ∷ []) (first elapsed (length (front ++ t ∷ [])) ts) (calls elapsed ts)
      → Found front
          (t ∷ (first elapsed (suc (length front)) ts).0, (first elapsed (suc (length front)) ts).1)
          (calls elapsed ts)
  unfolding Found
  found_behind ts front t h =
      let size : length (front ++ t ∷ []) ≡ suc (length front) =
        omega (arith, length-append front (t ∷ [])) in
      subst
        (λ (us : List Task).
          Positions us (first elapsed (suc (length front)) ts).1 (calls elapsed ts))
        (append_assoc front (t ∷ []) (first elapsed (suc (length front)) ts).0)
        (subst
          (λ (n : ℕ).
            Positions ((front ++ t ∷ []) ++ (first elapsed n ts).0) (first elapsed n ts).1
              (calls elapsed ts))
          size h)

  found : (ts front : List Task) → Found front (first elapsed (length front) ts) (calls elapsed ts)
  unfolding Found calls Positions
  found [] front = unfold elapse in refl
  found (t ∷ ts) front =
      subst (λ (r : List Task × List ℕ). Found front r (calls elapsed (t ∷ ts)))
        (sym (elapse-cons elapsed (length front) t ts))
        (elim (Bool-cases t.cancelled) [
          | inl c ↦ rw c (found_behind ts front (record t { cancelled = true }) (found ts _))
          | inr c ↦ (elim (Bool-cases (int_gt (t.remaining -ℤ elapsed) (pos 0))) [
            | inl w ↦
                rw (c, w)
                  (found_behind ts front
                    (record t { remaining = t.remaining -ℤ elapsed; cancelled = false })
                    (found ts _))
            | inr w ↦
                rw (c, w)
                  (
                    (
                      renewed elapsed (record t { cancelled = false }),
                      get_elem?-append front _ _,
                      refl,
                    ),
                    found_behind ts front (renewed elapsed (record t { cancelled = false }))
                        (found ts _),
                  )
          ])
        ])

-- Whatever the callbacks do to the scheduler, a round of `update` calls none that is not due when it
-- begins, none twice, and those that it calls in the order of the tasks.
pub update-Sublist :
    (lua : Lua) (elapsed : ℤ) (s : ScriptScheduler)
    → Sublist (update lua elapsed s).1 (calls elapsed s.tasks)
unfolding update
update-Sublist lua elapsed s = elim (Bool-cases (is_empty s.tasks)) [
  | inl e ↦ rw e tt
  | inr e ↦ rw e (
      call_due-Sublist lua (first elapsed 0 s.tasks).0 (first elapsed 0 s.tasks).1
        (calls elapsed s.tasks) (record s { tasks = (first elapsed 0 s.tasks).0 })
        (unfold Found in found elapsed s.tasks []) (Grown-refl _))
]
