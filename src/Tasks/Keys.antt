-- ===== src/Tasks/Keys.antt =====
-- The registry's maps agree with one another, whatever is done to it.
use nimo_os_photos.Prelude.{
  ℕ, ◌≡◌, refl, Bool, true, false, Option, none, some, List, [], ◌∷◌, map, Text, text_eq,
  text_eq_iff, lookup, lookup-insert, lookup-delete, Float64, is_some, text_Eq, arith, Bool-cases,
  text_eq_refl, text_eq→≡, subst, inl, inr,
}
use nimo_os_photos.Tasks.{
  Task, TaskRegistry, new_task_registry, upsert, remove, should_publish, publishes, sweep_stale,
  sweep_keys, sweep_key, is_stale,
}

module _ (fl : Float64) where
  abbrev status_of : Option (Task fl) → Option Text
  status_of none = none
  status_of (some t) = some t.status

  -- What the five maps hold for one key: all of them or none, and the status last published is the
  -- status of the task.
  pub record KeyInv (id : Text) (r : TaskRegistry fl) : Type 0 where
    pub published : is_some (lookup id r.last_pub) ≡ is_some (lookup id r.tasks)
    pub pct_known : is_some (lookup id r.last_pct) ≡ is_some (lookup id r.tasks)
    pub seen : is_some (lookup id r.last_seen) ≡ is_some (lookup id r.tasks)
    pub status_current : lookup id r.last_st ≡ status_of (lookup id r.tasks)

  unpublished_cases :
      (op : Option ℕ) (oc : Option fl.F) (os : Option Text) (ot : Option (Task fl)) (t : Task fl)
      (now : ℕ)
      → is_some op ≡ is_some ot
      → is_some oc ≡ is_some ot
      → os ≡ status_of ot
      → publishes fl op oc os t now ≡ false
      → (is_some op ≡ true) × (is_some oc ≡ true) × (os ≡ some t.status)
  unfolding publishes
  unpublished_cases none oc os ot t now p q s h = absurd (cc h)
  unpublished_cases (some u) oc os none t now p q s h = absurd (cc p)
  unpublished_cases (some u) oc none (some t') t now p q s h = absurd (cc s)
  unpublished_cases (some u) oc (some st) (some t') t now p q s h =
      ground (arith, text_eq_iff t.status st)

  -- An update that is not published is of a known task, whose status stays.
  unpublished :
      (r : TaskRegistry fl) (t : Task fl) (now : ℕ)
      → KeyInv t.id r
      → should_publish fl r t now ≡ false
      → (is_some (lookup t.id r.last_pub) ≡ true)
        × (is_some (lookup t.id r.last_pct) ≡ true)
        × (lookup t.id r.last_st ≡ some t.status)
  unfolding should_publish
  unpublished r t now v h =
      unpublished_cases _ _ _ _ t now v.published v.pct_known v.status_current h

  upsert-KeyInv_self :
      (r : TaskRegistry fl) (t : Task fl) (now : ℕ)
      → KeyInv t.id r
      → KeyInv t.id (upsert fl r t now).0
  unfolding upsert
  upsert-KeyInv_self r t now v = elim (Bool-cases (should_publish fl r t now)) [
    | inl e ↦ rw e (record {
      published = simp (lookup-insert, text_eq_refl);
      pct_known = simp (lookup-insert, text_eq_refl);
      seen = simp (lookup-insert, text_eq_refl);
      status_current = simp (lookup-insert, text_eq_refl);
    })
    | inr e ↦
        let (p, q, s) = unpublished r t now v e in
        rw e (record {
          published = simp (lookup-insert, text_eq_refl) p;
          pct_known = simp (lookup-insert, text_eq_refl) q;
          seen = simp (lookup-insert, text_eq_refl);
          status_current = simp (lookup-insert, text_eq_refl) s;
        })
  ]

  upsert-KeyInv_other :
      (id : Text) (r : TaskRegistry fl) (t : Task fl) (now : ℕ)
      → text_eq t.id id ≡ false
      → KeyInv id r
      → KeyInv id (upsert fl r t now).0
  unfolding upsert
  upsert-KeyInv_other id r t now h v = elim (Bool-cases (should_publish fl r t now)) [
    | inl e ↦ rw e (record {
      published = simp (lookup-insert, h) v.published;
      pct_known = simp (lookup-insert, h) v.pct_known;
      seen = simp (lookup-insert, h) v.seen;
      status_current = simp (lookup-insert, h) v.status_current;
    })
    | inr e ↦ rw e (record {
      published = simp (lookup-insert, h) v.published;
      pct_known = simp (lookup-insert, h) v.pct_known;
      seen = simp (lookup-insert, h) v.seen;
      status_current = simp (lookup-insert, h) v.status_current;
    })
  ]

  remove-KeyInv : (id key : Text) (r : TaskRegistry fl) → KeyInv id r → KeyInv id (remove fl r key)
  unfolding remove
  remove-KeyInv id key r v = elim (Bool-cases (text_eq key id)) [
    | inl e ↦ record {
      published = simp (lookup-delete, e);
      pct_known = simp (lookup-delete, e);
      seen = simp (lookup-delete, e);
      status_current = simp (lookup-delete, e);
    }
    | inr e ↦ record {
      published = simp (lookup-delete, e) v.published;
      pct_known = simp (lookup-delete, e) v.pct_known;
      seen = simp (lookup-delete, e) v.seen;
      status_current = simp (lookup-delete, e) v.status_current;
    }
  ]

  abbrev pub RegistryInv : TaskRegistry fl → Type 0
  RegistryInv r = (id : Text) → KeyInv id r

  upsert-RegistryInv :
      (r : TaskRegistry fl) (t : Task fl) (now : ℕ)
      → RegistryInv r
      → RegistryInv (upsert fl r t now).0
  upsert-RegistryInv r t now v id = elim (Bool-cases (text_eq t.id id)) [
    | inl e ↦
        subst (λ k. KeyInv k (upsert fl r t now).0) (text_eq→≡ t.id id e)
          (upsert-KeyInv_self r t now (v t.id))
    | inr e ↦ upsert-KeyInv_other id r t now e (v id)
  ]

  sweep_key-KeyInv :
      (id : Text) (r : TaskRegistry fl) (stale_after now : ℕ) (key : Text) (o : Option (Task fl))
      → KeyInv id r
      → KeyInv id (sweep_key fl r stale_after now key o).0
  unfolding sweep_key
  sweep_key-KeyInv id r stale_after now key none v = v
  sweep_key-KeyInv id r stale_after now key (some t) v =
      elim (Bool-cases (is_stale fl stale_after now (lookup key r.last_seen) (some t))) [
        | inl e ↦ rw e (remove-KeyInv id key r v)
        | inr e ↦ rw e v
      ]

  sweep_keys-KeyInv :
      (id : Text) (r : TaskRegistry fl) (stale_after now : ℕ) (keys : List Text)
      → KeyInv id r
      → KeyInv id (sweep_keys fl r stale_after now keys).0
  unfolding sweep_keys
  sweep_keys-KeyInv id r stale_after now [] v = v
  sweep_keys-KeyInv id r stale_after now (k ∷ ks) v =
      sweep_keys-KeyInv id (sweep_key fl r stale_after now k (lookup k r.tasks)).0 stale_after now
        ks (sweep_key-KeyInv id r stale_after now k (lookup k r.tasks) v)

  -- The calls on a registry, with the time at which each is made.
  pub data Call : Type 0 where
    upserts : Task fl → ℕ → Call
    removes : Text → Call
    sweeps : ℕ → ℕ → Call

  pub call : TaskRegistry fl → Call → TaskRegistry fl × List (Task fl)
  call r (upserts t now) = upsert fl r t now
  call r (removes id) = (remove fl r id, [])
  call r (sweeps stale_after now) = sweep_stale fl r stale_after now

  pub calls : TaskRegistry fl → List Call → TaskRegistry fl
  calls r [] = r
  calls r (c ∷ cs) = calls (call r c).0 cs

  call-RegistryInv : (r : TaskRegistry fl) (c : Call) → RegistryInv r → RegistryInv (call r c).0
  unfolding call sweep_stale
  call-RegistryInv r (upserts t now) v id = upsert-RegistryInv r t now v id
  call-RegistryInv r (removes key) v id = remove-KeyInv id key r (v id)
  call-RegistryInv r (sweeps stale_after now) v id =
      sweep_keys-KeyInv id r stale_after now (map (λ p. p.0) r.tasks) (v id)

  new-RegistryInv : (has_pub : Bool) → RegistryInv (new_task_registry fl has_pub)
  unfolding new_task_registry lookup
  new-RegistryInv has_pub id = record {
    published = refl;
    pct_known = refl;
    seen = refl;
    status_current = refl;
  }

  calls-RegistryInv :
      (r : TaskRegistry fl) (cs : List Call) → RegistryInv r → RegistryInv (calls r cs)
  unfolding calls
  calls-RegistryInv r [] v = v
  calls-RegistryInv r (c ∷ cs) v = calls-RegistryInv (call r c).0 cs (call-RegistryInv r c v)

  -- After any calls on a new registry the five maps hold the same keys, and the status last published
  -- for a task is the status it has.
  pub run_calls-KeyInv :
      (has_pub : Bool) (cs : List Call) (id : Text)
      → KeyInv id (calls (new_task_registry fl has_pub) cs)
  run_calls-KeyInv has_pub cs id = calls-RegistryInv _ cs (new-RegistryInv has_pub) id
