-- ===== src/Core/Scheduler/CancelMany.antt =====
-- scheduler.cpp: `cancel_by_tag` and `cancel_all`.
use gtproxy.Prelude.{
  ℕ, ◌≡◌, refl, ap, ◌∙◌, arith, true, false, not, ◌&&◌, ◌||◌, List, [], ◌∷◌, Bytes,
}
use gtproxy.Utils.TextParse.{is_empty}
use gtproxy.Core.Scheduler.{
  Scheduler, has, cancel_ids, cancel_by_tag, cancel_all, is_pending, tag_ids, count_pending,
  pending_count,
}
use gtproxy.Core.Scheduler.Pending.{has-insert}

module _ (s : Scheduler) where
  cancel_ids-pending : (ids : List ℕ) → (cancel_ids ids s).1.pending_tasks ≡ s.pending_tasks
  unfolding cancel_ids
  cancel_ids-pending [] = refl
  cancel_ids-pending (id ∷ ids) = ground (arith, cancel_ids-pending ids)

  has-cancel_ids :
      (j : ℕ) (ids : List ℕ)
      → has j (cancel_ids ids s).1.cancelled_tasks
        ≡ (has j s.cancelled_tasks || (has j ids && has j s.pending_tasks))
  unfolding cancel_ids has
  has-cancel_ids j [] = ground arith
  has-cancel_ids j (id ∷ ids) =
      ground (arith, has-insert j id (cancel_ids ids s).1.cancelled_tasks, has-cancel_ids j ids)

  is_pending-cancel_ids :
      (j : ℕ) (ids : List ℕ)
      → is_pending j (cancel_ids ids s).1 ≡ (is_pending j s && not (has j ids))
  unfolding is_pending
  is_pending-cancel_ids j ids =
      ground (arith, has-cancel_ids j ids, ap (has j) (cancel_ids-pending ids))

  -- `cancel_by_tag` ends the waiting of the tasks that stand under the tag, and of no others; under
  -- the empty tag it does nothing.
  pub is_pending-cancel_by_tag :
      (tag : Bytes) (j : ℕ)
      → is_pending j (cancel_by_tag tag s).1
        ≡ (is_pending j s && (is_empty tag || not (has j (tag_ids tag s.tasks_by_tag))))
  unfolding cancel_by_tag
  is_pending-cancel_by_tag [] j = ground arith
  is_pending-cancel_by_tag (c ∷ tag) j = is_pending-cancel_ids j _

  cancelled_all :
      (j : ℕ) → has j s.pending_tasks ≡ true → has j (cancel_all s).cancelled_tasks ≡ true
  unfolding cancel_all
  cancelled_all j h = ground (arith, has-cancel_ids j s.pending_tasks)

count_pending-none :
    (ids : List ℕ) (t : Scheduler)
    → ((j : ℕ) → has j ids ≡ true → has j t.cancelled_tasks ≡ true)
    → count_pending ids t ≡ 0
unfolding count_pending has
count_pending-none [] t h = refl
count_pending-none (id ∷ ids) t h =
    ground (arith, h id, count_pending-none ids t (λ j p. h j (ground (arith, p))))

-- After `cancel_all` nothing is pending: `pending_count` is 0, and `is_pending` false of every id.
pending_count-cancel_all :
    (s : Scheduler) (j : ℕ)
    → (pending_count (cancel_all s) ≡ 0) × (is_pending j (cancel_all s) ≡ false)
unfolding pending_count cancel_all is_pending
pending_count-cancel_all s j = (
  ap (λ (ids : List ℕ). count_pending ids (cancel_all s)) (cancel_ids-pending s s.pending_tasks)
      ∙ count_pending-none s.pending_tasks (cancel_all s) (cancelled_all s),
  ground (
    arith,
    has-cancel_ids s j s.pending_tasks,
    ap (has j) (cancel_ids-pending s s.pending_tasks),
  ),
)
