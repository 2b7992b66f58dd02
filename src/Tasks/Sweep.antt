-- ===== src/Tasks/Sweep.antt =====
-- What one sweep does to each task of the registry.
use mathlib.Core.List.{Memᴰ}
use nimo_os_photos.Prelude.{
  ℕ, ◌≡◌, refl, sym, ap, Bool, true, ◌&&◌, not, Option, none, some, List, [], ◌∷◌, ◌++◌, map, Text,
  text_eq, text_eq→≡, lookup, lookup-delete, Float64, if◌then◌else◌, is_some, any, text_Eq, arith,
  Bool-cases, inl, inr,
}
use nimo_os_photos.Tasks.{
  Task, TaskRegistry, remove, finalise, sweep_stale, sweep_keys, sweep_key, is_stale,
}

module _ (fl : Float64) (stale_after now : ℕ) where
  -- Whether the registry's task of the key is running and unseen for longer than `stale_after`.
  unfoldable pub stale_at : TaskRegistry fl → Text → Bool
  stale_at r id = is_stale fl stale_after now (lookup id r.last_seen) (lookup id r.tasks)

  lookup-remove :
      (r : TaskRegistry fl) (k id : Text)
      → (lookup id (remove fl r k).tasks ≡ (if text_eq k id then none else lookup id r.tasks))
        × (lookup id (remove fl r k).last_seen
            ≡ (if text_eq k id then none else lookup id r.last_seen))
  unfolding remove
  lookup-remove r k id = (lookup-delete k id r.tasks, lookup-delete k id r.last_seen)

  sweep : TaskRegistry fl → List Text → TaskRegistry fl × List (Task fl)
  sweep r ks = sweep_keys fl r stale_after now ks

  sweep_one : TaskRegistry fl → Text → TaskRegistry fl × List (Task fl)
  sweep_one r k = sweep_key fl r stale_after now k (lookup k r.tasks)

  registry-sweep_one :
      (r : TaskRegistry fl) (k : Text)
      → (sweep_one r k).0 ≡ (if stale_at r k then remove fl r k else r)
  unfolding sweep_one
  registry-sweep_one r k = go (lookup k r.tasks) refl
    where
      go :
          (o : Option (Task fl))
          → lookup k r.tasks ≡ o
          → (sweep_key fl r stale_after now k o).0 ≡ (if stale_at r k then remove fl r k else r)
      go none e = unfold sweep_key stale_at is_stale in rw e
      go (some t) e = unfold sweep_key stale_at in rw e (ground arith)

  same_stale :
      (r : TaskRegistry fl) (k id : Text)
      → (text_eq k id && stale_at r id) ≡ (text_eq k id && stale_at r k)
  same_stale r k id = elim (Bool-cases (text_eq k id)) [
    | inl e ↦ ap (λ j. text_eq k id && stale_at r j) (sym (text_eq→≡ k id e))
    | inr e ↦ rw e
  ]

  -- One round changes the key's own entries, and those only if the task is stale.
  round :
      (r : TaskRegistry fl) (k id : Text)
      → let r' = (sweep_one r k).0 in
        let gone = text_eq k id && stale_at r id in
        (lookup id r'.tasks ≡ (if gone then none else lookup id r.tasks))
        × (lookup id r'.last_seen ≡ (if gone then none else lookup id r.last_seen))
  round r k id = rw (registry-sweep_one, same_stale) (ground (arith, lookup-remove r k id))

  stale_at_lem :
      (r : TaskRegistry fl) (id : Text)
      → stale_at r id ≡ is_stale fl stale_after now (lookup id r.last_seen) (lookup id r.tasks)
  unfolding stale_at
  stale_at_lem r id = refl

  stale_at-sweep_one :
      (r : TaskRegistry fl) (k id : Text)
      → stale_at (sweep_one r k).0 id ≡ (not (text_eq k id) && stale_at r id)
  unfolding is_stale
  stale_at-sweep_one r k id =
      rw (stale_at_lem (sweep_one r k).0 id, (round r k id).0, (round r k id).1)
        (elim (Bool-cases (text_eq k id && stale_at r id)) [
          | inl e ↦ rw e (ground arith)
          | inr e ↦ rw (e, ← stale_at_lem r id) (ground arith)
        ])

  mentions : List Text → Text → Bool
  mentions ks id = any (λ k. text_eq k id) ks

  mentions-keys :
      {V : Type 0} (m : List (Text × V)) (id : Text)
      → mentions (map (λ p. p.0) m) id ≡ is_some (lookup id m)
  unfolding mentions lookup
  mentions-keys [] id = refl
  mentions-keys ((k, v) ∷ m) id = ground (arith, mentions-keys m id)

  Memᴰ-append_right :
      {A : Type 0} {a : A} (xs : List A) {ys : List A} → Memᴰ a ys → Memᴰ a (xs ++ ys)
  Memᴰ-append_right [] m = m
  Memᴰ-append_right (x ∷ xs) m = Memᴰ.tail (Memᴰ-append_right xs m)

  sweep_one-emits :
      (r : TaskRegistry fl) (k : Text) {t : Task fl}
      → lookup k r.tasks ≡ some t
      → stale_at r k ≡ true
      → (sweep_one r k).1 ≡ finalise fl t ∷ []
  unfolding sweep_one stale_at sweep_key
  sweep_one-emits r k e h = rw e (rw (rw e at h))

  emitted-sweep_cons :
      (r : TaskRegistry fl) (k : Text) (ks : List Text)
      → (sweep r (k ∷ ks)).1 ≡ (sweep_one r k).1 ++ (sweep (sweep_one r k).0 ks).1
  unfolding sweep sweep_keys sweep_one
  emitted-sweep_cons r k ks = refl

  -- Each stale task among the visited keys is emitted.
  sweep-emits :
      (r : TaskRegistry fl) (ks : List Text) (id : Text) {t : Task fl}
      → mentions ks id ≡ true
      → lookup id r.tasks ≡ some t
      → stale_at r id ≡ true
      → Memᴰ (finalise fl t) (sweep r ks).1
  unfolding mentions
  sweep-emits r [] id m e h = absurd (cc m)
  sweep-emits r (k ∷ ks) id {t} m e h = elim (Bool-cases (text_eq k id)) [
    | inl same ↦
        rw
          (
            emitted-sweep_cons,
            sweep_one-emits r k {t = t} (rw (text_eq→≡ k id same) e) (rw (text_eq→≡ k id same) h),
          )
          (Memᴰ.head refl)
    | inr other ↦ rw emitted-sweep_cons (
        Memᴰ-append_right (sweep_one r k).1 (
          sweep-emits (sweep_one r k).0 ks id {t = t} (rw other at m)
            (rw ((round r k id).0, other) e) (rw (stale_at-sweep_one, other) h)))
  ]

  -- A sweep emits each stale task of the registry, with status done and progress 1.
  sweep_emits :
      (r : TaskRegistry fl) (id : Text) (t : Task fl)
      → lookup id r.tasks ≡ some t
      → stale_at r id ≡ true
      → Memᴰ (finalise fl t) (sweep_stale fl r stale_after now).1
  unfolding sweep_stale sweep
  sweep_emits r id t e h = sweep-emits r (map (λ p. p.0) r.tasks) id (rw (mentions-keys, e)) e h
