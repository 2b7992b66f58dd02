-- ===== src/Prelude/Maps.antt =====
-- A Go map or a keyed SQL table, as an association list with at most one entry for a key.
use mathlib.Core.Path.{◌≡◌, refl, ap}
use mathlib.Core.List.{List, [], ◌∷◌}
use mathlib.Core.Bool.{Bool, true, ◌&&◌, not}
use mathlib.Core.Option.{Option, none, some}
use mathlib.Core.Option as Option
use native.Mathlib.Omega.{arith}
use nimo_os_photos.Prelude.Tests.{if◌then◌else◌, is_some, Eq}

module _ {ℓ κ} {K : Type ℓ} {V : Type κ} ⦃e : Eq K⦄ where
  unfoldable pub lookup : K → List (K × V) → Option V
  lookup k [] = none
  lookup k ((j, v) ∷ m) = if e.beq j k then some v else lookup k m

  unfoldable pub insert : K → V → List (K × V) → List (K × V)
  insert k v [] = (k, v) ∷ []
  insert k v ((j, w) ∷ m) = if e.beq j k then (k, v) ∷ m else (j, w) ∷ insert k v m

  unfoldable pub delete : K → List (K × V) → List (K × V)
  delete k [] = []
  delete k ((j, w) ∷ m) = let rest = delete k m in if e.beq j k then rest else (j, w) ∷ rest

  pub lookup-insert :
      (k j : K) (v : V) (m : List (K × V))
      → lookup j (insert k v m) ≡ (if e.beq k j then some v else lookup j m)
  unfolding lookup insert
  lookup-insert k j v [] = refl
  lookup-insert k j v ((i, w) ∷ m) =
      ground (arith, e.beq_iff k j, e.beq_iff i k, e.beq_iff i j, lookup-insert k j v m)

  pub lookup-delete :
      (k j : K) (m : List (K × V))
      → lookup j (delete k m) ≡ (if e.beq k j then none else lookup j m)
  unfolding lookup delete
  lookup-delete k j [] = ground arith
  lookup-delete k j ((i, w) ∷ m) =
      ground (arith, e.beq_iff k j, e.beq_iff i k, e.beq_iff i j, lookup-delete k j m)

  -- The value of a key changed, where it has one.
  unfoldable pub alter : K → (V → V) → List (K × V) → List (K × V)
  alter k g [] = []
  alter k g ((j, w) ∷ m) = if e.beq j k then (j, g w) ∷ m else (j, w) ∷ alter k g m

  pub lookup-alter :
      (k j : K) (g : V → V) (m : List (K × V))
      → lookup j (alter k g m) ≡ (if e.beq k j then Option.map g (lookup j m) else lookup j m)
  unfolding lookup alter
  lookup-alter k j g [] = ground arith
  lookup-alter k j g ((i, w) ∷ m) =
      ground (arith, e.beq_iff k j, e.beq_iff i k, e.beq_iff i j, lookup-alter k j g m)

  -- The entries whose keys pass a test.
  unfoldable pub keep_keys : (K → Bool) → List (K × V) → List (K × V)
  keep_keys p [] = []
  keep_keys p ((j, w) ∷ m) = let rest = keep_keys p m in if p j then (j, w) ∷ rest else rest

  pub lookup-keep_keys :
      (p : K → Bool) (k : K) (m : List (K × V))
      → lookup k (keep_keys p m) ≡ (if p k then lookup k m else none)
  unfolding lookup keep_keys
  lookup-keep_keys p k [] = ground arith
  lookup-keep_keys p k ((i, w) ∷ m) =
      ground (arith, e.beq_iff i k, λ (q : i ≡ k). ap p q, lookup-keep_keys p k m)

  -- No two entries have one key.
  unfoldable pub unique : List (K × V) → Bool
  unique [] = true
  unique ((k, v) ∷ m) = not (is_some (lookup k m)) && unique m

  pub unique-insert :
      (k : K) (v : V) (m : List (K × V)) → unique m ≡ true → unique (insert k v m) ≡ true
  unfolding unique insert lookup
  unique-insert k v [] h = refl
  unique-insert k v ((j, w) ∷ m) h =
      ground (arith, e.beq_iff j k, e.beq_iff k j, lookup-insert k j v m, unique-insert k v m)
