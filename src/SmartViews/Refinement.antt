-- ===== src/SmartViews/Refinement.antt =====
-- The calls of the service refine the calls on the abstract view.
use nimo_os_photos.Prelude.{
  ℕ, ◌≡◌, refl, ap, ◌∙◌, Bool, true, false, ◌&&◌, ◌||◌, Option, some, List, [], ◌∷◌, Text, text_Eq,
  text_eq, text_eq_refl, text_mem, pair_Eq, lookup, any, ltb, is_some, Float64, arith,
  if◌then◌else◌,
}
use nimo_os_photos.SmartViews.Evaluate.{
  Origin, Match, MatchKey, Matches, View, Store, done, Env, selected,
}
use nimo_os_photos.SmartViews.Reconcile.{reconciled}
use nimo_os_photos.SmartViews.Rows.{quiet, evaluate_rows, evaluate-quiet}
use nimo_os_photos.SmartViews.Manual.{
  asset_ok, pin_assets, remove_assets, recompute, is_excluded, restore_all, restore_assets,
  finish_restore,
}
use nimo_os_photos.SmartViews.Changes.{
  pinned_row, removed_row, restored_row, is_pinned, after_ids, after_ids_mem, pin_all-quiet,
  remove_all-quiet, restore_all-quiet,
}
use nimo_os_photos.SmartViews.Membership.{
  Call, pin, remove, restore, evaluation, abstract_call, run_call, is_done, origin_of, members,
  pinned_member, excluded_member, remove_member, restore_member, recompute_member, removed_origin,
  restored_origin, pinned_origin, pinned_pinned, removed_removed, restored_restored,
  reconciled_origin, pinned_as, excluded_as,
}

any_cong : (p q : Text → Bool) (ids : List Text) → ((x : Text) → p x ≡ q x) → any p ids ≡ any q ids
any_cong p q [] h = refl
any_cong p q (x ∷ ids) h = ground (arith, h x, any_cong p q ids h)

module _ {F : Type 0} where
  -- The rows after a loop over the ids, in the view and in another one.
  changed_own :
      (ok : Text → Bool) (g : Option (Match F) → Option (Match F)) (id a : Text) (ids : List Text)
      (ms ms' : Matches F)
      → ((p : Option (Match F)) → g (g p) ≡ g p)
      → ((j : MatchKey) → lookup j ms' ≡ after_ids ok g id ids j (lookup j ms))
      → lookup (id, a) ms'
        ≡ (if text_mem a ids && ok a then g (lookup (id, a) ms) else lookup (id, a) ms)
  changed_own ok g id a ids ms ms' i rows =
      rows (id, a) ∙ after_ids_mem ok g id id a ids _ i ∙ rw (text_eq_refl id) refl

  changed_other :
      (ok : Text → Bool) (g : Option (Match F) → Option (Match F)) (id w a : Text) (ids : List Text)
      (ms ms' : Matches F)
      → ((p : Option (Match F)) → g (g p) ≡ g p)
      → ((j : MatchKey) → lookup j ms' ≡ after_ids ok g id ids j (lookup j ms))
      → text_eq id w ≡ false
      → lookup (w, a) ms' ≡ lookup (w, a) ms
  changed_other ok g id w a ids ms ms' i rows d =
      rows (w, a) ∙ after_ids_mem ok g id w a ids _ i ∙ rw d refl

  -- The row of an asset that a loop changes, and the abstract change.
  origin-if :
      (g : Option (Match F) → Option (Match F)) (h : Option Origin → Option Origin) (b : Bool)
      (o : Option (Match F))
      → ((p : Option (Match F)) → origin_of (g p) ≡ h (origin_of p))
      → origin_of (if b && true then g o else o) ≡ (if b then h (origin_of o) else origin_of o)
  origin-if g h true o c = c o
  origin-if g h false o c = refl

  origin-pinned_if :
      (now : ℕ) (one : F) (b : Bool) (o : Option (Match F))
      → origin_of (if b then pinned_row now one o else o)
        ≡ (if b then some Origin.pinned else origin_of o)
  origin-pinned_if now one true o = pinned_origin now one o
  origin-pinned_if now one false o = refl

  origin-recomputed :
      (now : ℕ) (sel : Option F) (b c : Bool) (o : Option (Match F)) (p : Option Origin)
      → b ≡ c
      → origin_of o ≡ p
      → origin_of (if b then reconciled now sel o else o)
        ≡ (if c then recompute_member (is_some sel) p else p)
  origin-recomputed now sel true c o p h k = rw (← h, ← k) (reconciled_origin now sel o)
  origin-recomputed now sel false c o p h k = rw (← h, ← k) refl

  any_members :
      (t : Option (Match F) → Bool) (u : Option Origin → Bool) (live : Bool) (n : ℕ) (id : Text)
      (ids : List Text) (ms : Matches F)
      → ((o : Option (Match F)) → t o ≡ u (origin_of o))
      → ltb 0 n ≡ (ltb 0 0 || any (λ a. t (lookup (id, a) ms)) ids)
      → (ltb 0 n && live) ≡ (live && any (λ a. u (members id ms a)) ids)
  any_members t u live n id ids ms h c = rw c (
      ground (
        arith,
        any_cong (λ a. t (lookup (id, a) ms)) (λ a. u (members id ms a)) ids
            (λ a. h (lookup (id, a) ms)),
      ))

module _ (r : Float64) where
  -- Evaluate where it is wanted, on each row.
  recompute_own :
      (wanted : Bool) (e : Env r.F) (now : ℕ) (id a : Text) (v : View) (scores : List (Text × r.F))
      (s : Store r.F)
      → lookup id s.views ≡ some v
      → selected r e v ≡ some scores
      → lookup (id, a) (recompute r wanted e quiet now id s).matches ≡ (
          if wanted
          then reconciled now (lookup a scores) (lookup (id, a) s.matches)
          else lookup (id, a) s.matches)
  recompute_own true e now id a v scores s hv hs =
      evaluate_rows r e quiet now id id a v scores s hv hs
        (evaluate-quiet r e now id v scores s hv hs)
      ∙ rw (text_eq_refl id) refl
  recompute_own false e now id a v scores s hv hs = refl

  recompute_other :
      (wanted : Bool) (e : Env r.F) (now : ℕ) (id w a : Text) (v : View)
      (scores : List (Text × r.F)) (s : Store r.F)
      → lookup id s.views ≡ some v
      → selected r e v ≡ some scores
      → text_eq id w ≡ false
      → lookup (w, a) (recompute r wanted e quiet now id s).matches ≡ lookup (w, a) s.matches
  recompute_other true e now id w a v scores s hv hs d =
      evaluate_rows r e quiet now id w a v scores s hv hs
        (evaluate-quiet r e now id v scores s hv hs)
      ∙ rw d refl
  recompute_other false e now id w a v scores s hv hs d = refl

  -- What a call of the service with the given result must do: it succeeds, the view holds each asset
  -- as the abstract call says, and the rows of the other views are as they were.
  abbrev pub Refines :
      Call → Bool → List (Text × r.F) → Text → Store r.F → Store r.F × Bool → Type 0
  Refines call live scores id s x =
      (x.1 ≡ true)
      × ((a : Text)
          → members id x.0.matches a
            ≡ abstract_call live (λ y. is_some (lookup y scores)) (λ y. asset_ok y s.assets) call
                (members id s.matches) a)
      × ((w a : Text) → text_eq id w ≡ false → lookup (w, a) x.0.matches ≡ lookup (w, a) s.matches)

  pin-Refines :
      (e : Env r.F) (now : ℕ) (id : Text) (ids : List Text) (v : View) (scores : List (Text × r.F))
      (s : Store r.F)
      → lookup id s.views ≡ some v
      → Refines (pin ids) v.live scores id s (run_call r e now id (pin ids) s)
  unfolding run_call pin_assets abstract_call
  pin-Refines e now id ids v scores s hv =
      let ok : Text → Bool = λ y. asset_ok y s.assets in
      let g : Option (Match r.F) → Option (Match r.F) = pinned_row now (r.lit 1 1) in
      let (acc, h, rows) = pin_all-quiet now (r.lit 1 1) id s.assets ids 0 s.matches in
      rw (hv, h)
        (
          refl,
          λ a.
              ap origin_of
                (changed_own ok g id a ids s.matches acc.1 (pinned_pinned now (r.lit 1 1)) rows)
              ∙ origin-pinned_if now (r.lit 1 1) (text_mem a ids && asset_ok a s.assets)
                  (lookup (id, a) s.matches),
          λ w a d.
              changed_other ok g id w a ids s.matches acc.1 (pinned_pinned now (r.lit 1 1)) rows d,
        )

  remove-Refines :
      (e : Env r.F) (now : ℕ) (id : Text) (ids : List Text) (v : View) (scores : List (Text × r.F))
      (s : Store r.F)
      → lookup id s.views ≡ some v
      → selected r e v ≡ some scores
      → Refines (remove ids) v.live scores id s (run_call r e now id (remove ids) s)
  unfolding run_call remove_assets abstract_call
  remove-Refines e now id ids v scores s hv hs =
      let (acc, h, c, rows) = remove_all-quiet id ids 0 0 s.matches in
      let s1 : Store r.F = record s { matches = acc.2 } in
      let wanted : Bool = ltb 0 acc.0 && v.live in
      rw (hv, h)
        (
          refl,
          λ a.
              ap origin_of (recompute_own wanted e now id a v scores s1 hv hs)
              ∙ origin-recomputed now (lookup a scores) wanted _ (lookup (id, a) acc.2) _
                  (any_members is_pinned pinned_member v.live acc.0 id ids s.matches pinned_as c)
                  (ap origin_of (
                      changed_own (λ y. true) removed_row id a ids s.matches acc.2 removed_removed
                        rows)
                    ∙ origin-if removed_row remove_member (text_mem a ids)
                        (lookup (id, a) s.matches) removed_origin),
          λ w a d.
              recompute_other wanted e now id w a v scores s1 hv hs d
              ∙ changed_other (λ y. true) removed_row id w a ids s.matches acc.2 removed_removed
                  rows d,
        )

  finished :
      (e : Env r.F) (now : ℕ) (id : Text) (v : View) (acc : ℕ × Matches r.F × Bool) (s : Store r.F)
      → acc.2 ≡ true
      → finish_restore r e quiet now id v acc s ≡ (
        recompute r (ltb 0 acc.0 && v.live) e quiet now id (record s { matches = acc.1 }),
        done acc.0,
      )
  finished e now id v (n, ms, true) s h = refl
  finished e now id v (n, ms, false) s h = cc

  restore-Refines :
      (e : Env r.F) (now : ℕ) (id : Text) (ids : List Text) (v : View) (scores : List (Text × r.F))
      (s : Store r.F)
      → lookup id s.views ≡ some v
      → selected r e v ≡ some scores
      → Refines (restore ids) v.live scores id s (run_call r e now id (restore ids) s)
  unfolding run_call restore_assets abstract_call
  restore-Refines e now id ids v scores s hv hs =
      let acc : ℕ × Matches r.F × Bool = restore_all quiet id ids 0 s.matches in
      let (ok, c, rows) = restore_all-quiet id ids 0 s.matches in
      let s1 : Store r.F = record s { matches = acc.1 } in
      let wanted : Bool = ltb 0 acc.0 && v.live in
      rw (hv, finished e now id v acc s ok)
        (
          refl,
          λ a.
              ap origin_of (recompute_own wanted e now id a v scores s1 hv hs)
              ∙ origin-recomputed now (lookup a scores) wanted _ (lookup (id, a) acc.1) _
                  (any_members is_excluded excluded_member v.live acc.0 id ids s.matches excluded_as
                    c)
                  (ap origin_of (
                      changed_own (λ y. true) restored_row id a ids s.matches acc.1
                        restored_restored rows)
                    ∙ origin-if restored_row restore_member (text_mem a ids)
                        (lookup (id, a) s.matches) restored_origin),
          λ w a d.
              recompute_other wanted e now id w a v scores s1 hv hs d
              ∙ changed_other (λ y. true) restored_row id w a ids s.matches acc.1 restored_restored
                  rows d,
        )

  evaluation-Refines :
      (e : Env r.F) (now : ℕ) (id : Text) (v : View) (scores : List (Text × r.F)) (s : Store r.F)
      → lookup id s.views ≡ some v
      → selected r e v ≡ some scores
      → Refines evaluation v.live scores id s (run_call r e now id evaluation s)
  unfolding run_call abstract_call
  evaluation-Refines e now id v scores s hv hs = (
    ap is_done (evaluate-quiet r e now id v scores s hv hs),
    λ a.
        ap origin_of (recompute_own true e now id a v scores s hv hs)
        ∙ reconciled_origin now (lookup a scores) (lookup (id, a) s.matches),
    λ w a d. recompute_other true e now id w a v scores s hv hs d,
  )

  -- Where no statement fails, the view is there and its queries answer, PinAssets, RemoveAssets,
  -- RestoreAssets and Evaluate succeed and refine the abstract view: a pin makes each existing asset
  -- pinned; a removal drops a pinned asset and excludes an automatic one; a restore drops an excluded
  -- one; a recompute (that of Evaluate, and of a live view after a removal that unpins and after a
  -- restore that drops) makes an asset without a row of the user automatic exactly if the conditions
  -- select it. No call changes a row of another view.
  pub calls_refine :
      (e : Env r.F) (now : ℕ) (id : Text) (call : Call) (v : View) (scores : List (Text × r.F))
      (s : Store r.F)
      → lookup id s.views ≡ some v
      → selected r e v ≡ some scores
      → Refines call v.live scores id s (run_call r e now id call s)
  calls_refine e now id (pin ids) v scores s hv hs = pin-Refines e now id ids v scores s hv
  calls_refine e now id (remove ids) v scores s hv hs = remove-Refines e now id ids v scores s hv hs
  calls_refine e now id (restore ids) v scores s hv hs =
      restore-Refines e now id ids v scores s hv hs
  calls_refine e now id evaluation v scores s hv hs = evaluation-Refines e now id v scores s hv hs
