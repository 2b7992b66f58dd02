-- ===== src/Ingest/Counts.antt =====
-- The calls of the tracker in any order, and what the counts of a batch then mean. A file is in flight
-- from its registration to its result. The delayed cleanup after a final task may come at any time when
-- no file of its batch is in flight; Ingest/Late has what it does otherwise.
use nimo_os_photos.Prelude.{
  ℕ, suc, subst, ◌+◌, ◌≤◌, ◌≡◌, refl, text, sym, ◌∙◌, Bool, true, false, not, Option, none, some,
  Text, text_Eq, text_eq, text_eq_refl, lookup, lookup-insert, lookup-delete, ltb, Float64,
  Bool-cases, inl, inr, arith, if◌then◌else◌,
}
use nimo_os_photos.Tasks.{Task}
use nimo_os_photos.Ingest.{
  IngestBatch, IngestTracker, new_ingest_tracker, set_batch, noted, resulted, done_task,
  note_enqueue_with_batch, result_of, note_result_with_batch, idle_of, on_idle, forget,
}

-- The counts of a batch, with so many of its files in flight.
abbrev pub Counted : ℕ → IngestBatch → Type 0
Counted n b = (b.current + n ≡ b.enqueued) × (b.enqueued ≤ b.total) × (b.failed ≤ b.current)

abbrev pub SlotCounted : ℕ → Option IngestBatch → Type 0
SlotCounted n none = n ≡ 0
SlotCounted n (some b) = Counted n b

noted-Counted :
    (now : ℕ) (task_id : Text) (total n : ℕ) (o : Option IngestBatch)
    → SlotCounted n o
    → Counted (suc n) (noted now task_id total o)
unfolding noted
noted-Counted now task_id total n none h = ground arith
noted-Counted now task_id total n (some b) h = ground arith

resulted-Counted :
    (now idle : ℕ) (ok : Bool) (n : ℕ) (b : IngestBatch)
    → Counted (suc n) b
    → Counted n (resulted now idle ok b)
unfolding resulted
resulted-Counted now idle ok n b h = ground arith

-- With a registry the guard of the calls lets them through.
pub registered {ℓ} : {A : Type ℓ} (b : Bool) (x y : A) → b ≡ true → (if not b then x else y) ≡ y
registered true x y h = refl
registered false x y h = cc

module _ (f : Float64) (id : Text) where
  -- One call, and the files of the batch `id` in flight before and after it. A result is that of a
  -- file in flight.
  pub data Step : IngestTracker × ℕ → IngestTracker × ℕ → Type 0 where
    notes :
        (t : IngestTracker) (n now : ℕ) (task_id : Text) (total : ℕ)
        → Step (t, n) ((note_enqueue_with_batch f now task_id id total t).0, suc n)
    results :
        (t : IngestTracker) (n now : ℕ) (ok : Bool)
        → Step (t, suc n) ((note_result_with_batch f now id ok t).0, n)
    idles : (t : IngestTracker) (n : ℕ) → Step (t, n) ((on_idle f id t).0, n)
    forgets : (t : IngestTracker) → Step (t, 0) (forget id t, 0)
    notes_other :
        (t : IngestTracker) (n now : ℕ) (task_id w : Text) (total : ℕ)
        → text_eq w id ≡ false
        → Step (t, n) ((note_enqueue_with_batch f now task_id w total t).0, n)
    results_other :
        (t : IngestTracker) (n now : ℕ) (w : Text) (ok : Bool)
        → text_eq w id ≡ false
        → Step (t, n) ((note_result_with_batch f now w ok t).0, n)
    idles_other :
        (t : IngestTracker) (n : ℕ) (w : Text)
        → text_eq w id ≡ false
        → Step (t, n) ((on_idle f w t).0, n)
    forgets_other :
        (t : IngestTracker) (n : ℕ) (w : Text) → text_eq w id ≡ false → Step (t, n) (forget w t, n)

  pub data Reach : IngestTracker × ℕ → Type 0 where
    here : Reach (new_ingest_tracker true, 0)
    next : {x y : IngestTracker × ℕ} → Reach x → Step x y → Reach y

  abbrev Inv : IngestTracker × ℕ → Type 0
  Inv x = (x.0.has_reg ≡ true) × SlotCounted x.1 (lookup id x.0.batches)

  -- A call for another batch leaves this one.
  other-kept :
      (w : Text) (b : IngestBatch) (t : IngestTracker)
      → text_eq w id ≡ false
      → lookup id (set_batch w b t).batches ≡ lookup id t.batches
  other-kept w b t d = lookup-insert w id b t.batches ∙ rw d refl

  own-set : (b : IngestBatch) (t : IngestTracker) → lookup id (set_batch id b t).batches ≡ some b
  own-set b t = lookup-insert id id b t.batches ∙ rw (text_eq_refl id) refl

  result_of-Inv :
      (now n : ℕ) (ok : Bool) (o : Option IngestBatch) (t : IngestTracker)
      → t.has_reg ≡ true
      → lookup id t.batches ≡ o
      → SlotCounted (suc n) o
      → Inv ((result_of f now ok id o t).0, n)
  result_of-Inv now n ok none t r e h = absurd (omega arith)
  result_of-Inv now n ok (some b) t r e h =
      (r, rw (own-set _ t) (resulted-Counted now t.idle_after ok n b h))

  idle_of-Inv :
      (n : ℕ) (o : Option IngestBatch) (t : IngestTracker)
      → t.has_reg ≡ true
      → lookup id t.batches ≡ o
      → SlotCounted n o
      → Inv ((idle_of f id o t).0, n)
  idle_of-Inv n none t r e h = (r, rw e h)
  idle_of-Inv n (some b) t r e h = elim (Bool-cases (ltb b.current b.total)) [
    | inl l ↦ rw l (r, rw e h)
    | inr l ↦ rw l (r, rw (own-set _ t) h)
  ]

  result_of-other :
      (now n : ℕ) (w : Text) (ok : Bool) (o : Option IngestBatch) (t : IngestTracker)
      → text_eq w id ≡ false
      → Inv (t, n)
      → Inv ((result_of f now ok w o t).0, n)
  result_of-other now n w ok none t d h = h
  result_of-other now n w ok (some b) t d h = (h.0, rw (other-kept w _ t d) h.1)

  idle_of-other :
      (n : ℕ) (w : Text) (o : Option IngestBatch) (t : IngestTracker)
      → text_eq w id ≡ false
      → Inv (t, n)
      → Inv ((idle_of f w o t).0, n)
  idle_of-other n w none t d h = h
  idle_of-other n w (some b) t d h = elim (Bool-cases (ltb b.current b.total)) [
    | inl l ↦ rw l h
    | inr l ↦ rw l (h.0, rw (other-kept w _ t d) h.1)
  ]

  Step-Inv : {x y : IngestTracker × ℕ} → Step x y → Inv x → Inv y
  unfolding note_enqueue_with_batch note_result_with_batch on_idle forget
  Step-Inv (notes t n now task_id total) h =
      subst (λ (x : IngestTracker × Option (Task f)). Inv (x.0, suc n))
        (sym (registered t.has_reg (t, none) _ h.0))
        (h.0, rw (own-set _ t) (noted-Counted now task_id total n (lookup id t.batches) h.1))
  Step-Inv (results t n now ok) h =
      subst (λ (x : IngestTracker × Option (Task f)). Inv (x.0, n))
        (sym (registered t.has_reg (t, none) _ h.0))
        (result_of-Inv now n ok (lookup id t.batches) t h.0 refl h.1)
  Step-Inv (idles t n) h = idle_of-Inv n (lookup id t.batches) t h.0 refl h.1
  Step-Inv (forgets t) h = (h.0, rw (lookup-delete id id t.batches, text_eq_refl id) refl)
  Step-Inv (notes_other t n now task_id w total d) h =
      subst (λ (x : IngestTracker × Option (Task f)). Inv (x.0, n))
        (sym (registered t.has_reg (t, none) _ h.0)) (h.0, rw (other-kept w _ t d) h.1)
  Step-Inv (results_other t n now w ok d) h =
      subst (λ (x : IngestTracker × Option (Task f)). Inv (x.0, n))
        (sym (registered t.has_reg (t, none) _ h.0))
        (result_of-other now n w ok (lookup w t.batches) t d h)
  Step-Inv (idles_other t n w d) h = idle_of-other n w (lookup w t.batches) t d h
  Step-Inv (forgets_other t n w d) h = (h.0, rw (lookup-delete w id t.batches, d) h.1)

  pub reach-Inv : {x : IngestTracker × ℕ} → Reach x → Inv x
  unfolding new_ingest_tracker lookup
  reach-Inv here = (refl, refl)
  reach-Inv (next r s) = Step-Inv s (reach-Inv r)

  abbrev pub Complete : Option (Task f) → ℕ → IngestTracker → Type 0
  Complete none n t = Unit
  Complete (some task) n t =
      (n ≡ 0)
      × ((b : IngestBatch) × (lookup id t.batches ≡ some b)
          × (b.enqueued ≡ b.total)
          × (task.current ≡ b.total)
          × (task.total ≡ b.total)
          × (task.status ≡ text "done"))

  idle_of-Complete :
      (n : ℕ) (o : Option IngestBatch) (t : IngestTracker)
      → lookup id t.batches ≡ o
      → SlotCounted n o
      → Complete (idle_of f id o t).1 n t
  unfolding done_task
  idle_of-Complete n none t e h = tt
  idle_of-Complete n (some b) t e h = elim (Bool-cases (ltb b.current b.total)) [
    | inl l ↦ rw l tt
    | inr l ↦ rw l (
      ground (arith, h.0, h.1, l),
      (b, e, ground (arith, h.0, h.1, l), ground (arith, h.0, h.1, l), refl, refl),
    )
  ]

  -- As long as no cleanup forgets a batch with a file in flight, the final task of a batch is published
  -- only when each of its registered files has had its result, as many were registered as the total
  -- says, and the counts of the task are that total. So, under the same condition, a batch is not done
  -- while a result is missing, as where SubmitReserved has found the queue full.
  pub on_idle-Complete :
      (t : IngestTracker) (n : ℕ) → Reach (t, n) → Complete (on_idle f id t).1 n t
  unfolding on_idle
  on_idle-Complete t n r = idle_of-Complete n (lookup id t.batches) t refl (reach-Inv r).1

  abbrev pub Armed : ℕ → Option IngestBatch → Type 0
  Armed now none = ⊥
  Armed now (some b) = (b.current ≡ b.total) × (b.idle_timer ≡ some now)

  -- After the result of the last file in flight, of a batch of which as many files were registered as
  -- its total says, the timer of onIdle is armed for one quiet period later.
  last_result_arms :
      (t : IngestTracker) (now : ℕ) (ok : Bool) (b : IngestBatch)
      → Reach (t, 1)
      → lookup id t.batches ≡ some b
      → b.enqueued ≡ b.total
      → Armed (now + t.idle_after) (lookup id (note_result_with_batch f now id ok t).0.batches)
  unfolding note_result_with_batch resulted
  last_result_arms t now ok b r e q =
      let h : SlotCounted 1 (some b) = subst (SlotCounted 1) e (reach-Inv r).1 in
      subst
        (λ (x : IngestTracker × Option (Task f)).
          Armed (now + t.idle_after) (lookup id x.0.batches))
        (sym (registered t.has_reg (t, none) _ (reach-Inv r).0))
        (rw e (rw (own-set _ t) (omega (arith, h.0, q), ground (arith, h.0, q))))
