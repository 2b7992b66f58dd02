-- ===== src/SmartViews/Atomic.antt =====
-- What a failed call leaves of the store.
use nimo_os_photos.Prelude.{
  ℕ, ◌≡◌, refl, Bool, true, false, Option, none, some, List, Text, text_Eq, lookup, is_some,
  Float64, inl, inr, ◌⊎◌, if◌then◌else◌, not,
}
use nimo_os_photos.SmartViews.Evaluate.{
  Matches, View, Store, Result, done, not_found, db_error, Faults, Env,
}
use nimo_os_photos.SmartViews.Manual.{
  commit_pin, pin_assets, Removed, commit_remove, remove_from, remove_assets,
}

-- The call succeeds, or it fails and has left the whole store as it was.
abbrev pub Atomic : {F A : Type 0} → Store F → Store F × Result A → Type 0
Atomic s x = ((a : _) × (x.1 ≡ done a)) ⊎ (((x.1 ≡ db_error) ⊎ (x.1 ≡ not_found)) × (x.0 ≡ s))

module _ {F A : Type 0} where
  failed : (s : Store F) → Atomic {A = A} s (s, db_error)
  failed s = inr (inl refl, refl)

  missing : (s : Store F) → Atomic {A = A} s (s, not_found)
  missing s = inr (inr refl, refl)

  Atomic-if :
      (b : Bool) (s : Store F) (x y : Store F × Result A)
      → Atomic s x
      → Atomic s y
      → Atomic s (if b then x else y)
  Atomic-if true s x y p q = p
  Atomic-if false s x y p q = q

commit_pin-Atomic :
    {F : Type 0} (fault : Bool) (o : Option (ℕ × Matches F)) (s : Store F)
    → Atomic s (commit_pin fault o s)
commit_pin-Atomic fault none s = failed s
commit_pin-Atomic fault (some (added, ms)) s = Atomic-if fault s _ _ (failed s) (inl (added, refl))

module _ (r : Float64) where
  commit_remove-Atomic :
      (e : Env r.F) (f g : Faults) (now : ℕ) (id : Text) (v : View) (o : Option (Removed r.F))
      (s : Store r.F)
      → Atomic s (commit_remove r e f g now id v o s)
  commit_remove-Atomic e f g now id v none s = failed s
  commit_remove-Atomic e f g now id v (some (u, x, ms)) s =
      Atomic-if f.commit s _ _ (failed s) (inl ((u, x), refl))

  remove_from-Atomic :
      (e : Env r.F) (f g : Faults) (now : ℕ) (id : Text) (ids : List Text) (o : Option View)
      (s : Store r.F)
      → Atomic s (remove_from r e f g now id ids o s)
  remove_from-Atomic e f g now id ids none s = missing s
  remove_from-Atomic e f g now id ids (some v) s =
      Atomic-if f.begin s _ _ (failed s) (commit_remove-Atomic e f g now id v _ s)

  -- Whichever statements fail, in the call itself or in the recompute that it triggers: PinAssets and
  -- RemoveAssets succeed, or they fail and the whole store is as before.
  pin_and_remove_atomic :
      (e : Env r.F) (f g : Faults) (now : ℕ) (id : Text) (ids : List Text) (s : Store r.F)
      → Atomic s (pin_assets f now (r.lit 1 1) id ids s)
        × Atomic s (remove_assets r e f g now id ids s)
  unfolding pin_assets remove_assets
  pin_and_remove_atomic e f g now id ids s = (
    Atomic-if f.view s _ _ (failed s) (
        Atomic-if (not (is_some (lookup id s.views))) s _ _ (missing s)
          (Atomic-if f.begin s _ _ (failed s) (commit_pin-Atomic f.commit _ s))),
    Atomic-if f.view s _ _ (failed s) (remove_from-Atomic e f g now id ids (lookup id s.views) s),
  )
