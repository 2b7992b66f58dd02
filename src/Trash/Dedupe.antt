-- ===== src/Trash/Dedupe.antt =====
-- dedupePath of service/trash.go: a free path beside one that is taken. The source's loop has no
-- bound; the fuel here is one more than the number of files, which is enough since the candidates
-- are distinct.
use nimo_os_photos.Prelude.{
  ℕ, zero, suc, ◌+◌, ◌-◌, ◌*◌, ◌/◌, ◌%◌, ◌≤◌, ◌<◌, ◌≡◌, refl, ap, sym, ◌∙◌, true, false, ◌&&◌, [],
  ◌∷◌, ◌++◌, Text, text, text_Eq, text_eq, text_eq→≡, lookup, delete, lookup-delete, length, take,
  ext, ltb, leb, if◌then◌else◌, arith, inl, inr, Bool-cases,
}
use nimo_os_photos.Files.{Files, exists}

-- The decimal digits of a number; the fuel bounds their count.
pub decimal : ℕ → ℕ → Text
decimal zero n = []
decimal (suc k) n = if ltb n 10 then (48 + n) ∷ [] else decimal k (n / 10) ++ ((48 + n % 10) ∷ [])

pub candidate : Text → Text → ℕ → Text
unfolding decimal
candidate base e i =
    if ltb i 2
    then base ++ (text " (restored" ++ (text ")" ++ e))
    else base ++ (text " (restored" ++ (text " " ++ (decimal i i ++ (text ")" ++ e))))

-- The path of the first try from the i-th that is free.
pub first_free : ℕ → (ℕ → Text) → ℕ → Files → Text
first_free zero c i files = c i
first_free (suc k) c i files =
    let later = first_free k c (suc i) files in if exists (c i) files then later else c i

unfoldable pub dedupe_path : Text → Files → Text
unfolding candidate first_free
dedupe_path p files =
    first_free (length files) (candidate (take (length p - length (ext p)) p) (ext p)) 1 files

-- The number that a text begins with.
read : ℕ → Text → ℕ
read n [] = n
read n (c ∷ s) = let rest = read (n * 10 + (c - 48)) s in if leb 48 c && leb c 57 then rest else n

++_assoc : (s t u : Text) → (s ++ t) ++ u ≡ s ++ (t ++ u)
++_assoc [] t u = refl
++_assoc (c ∷ s) t u = ap (◌∷◌ c) (++_assoc s t u)

read-decimal : (k n : ℕ) (t : Text) → n ≤ k → 1 ≤ k → read 0 (decimal k n ++ t) ≡ read n t
unfolding read decimal
read-decimal zero n t h p = absurd (omega arith)
read-decimal (suc zero) n t h p = ground arith
read-decimal (suc (suc k)) n t h p = elim (Bool-cases (ltb n 10)) [
  | inl e ↦ rw e (ground arith)
  | inr e ↦
      rw
        (
          e,
          ++_assoc,
          read-decimal (suc k) (n / 10) ((48 + n % 10) ∷ t) (ground arith) (ground arith),
        )
        (ground arith)
]

text_eq-append : (base s t : Text) → text_eq (base ++ s) (base ++ t) ≡ text_eq s t
unfolding text_eq
text_eq-append [] s t = refl
text_eq-append (c ∷ base) s t = ground (arith, text_eq-append base s t)

read_number : (e : Text) (i : ℕ) → 1 ≤ i → read 0 (decimal i i ++ (text ")" ++ e)) ≡ i
unfolding read
read_number e i h = read-decimal i i (text ")" ++ e) (omega arith) h

tail_apart :
    (e : Text) (i j : ℕ)
    → 2 ≤ i
    → i < j
    → text_eq (decimal i i ++ (text ")" ++ e)) (decimal j j ++ (text ")" ++ e)) ≡ false
tail_apart e i j h l =
    elim (Bool-cases (text_eq (decimal i i ++ (text ")" ++ e)) (decimal j j ++ (text ")" ++ e)))) [
      | inl q ↦ absurd (
          omega (
            arith,
            read_number e i (omega arith),
            read_number e j (omega arith),
            ap (read 0)
                (text_eq→≡ (decimal i i ++ (text ")" ++ e)) (decimal j j ++ (text ")" ++ e)) q),
          ))
      | inr q ↦ q
    ]

apart_after :
    (base s t : Text)
    → text_eq s t ≡ false
    → text_eq (base ++ (text " (restored" ++ s)) (base ++ (text " (restored" ++ t)) ≡ false
apart_after base s t h =
    text_eq-append base (text " (restored" ++ s) (text " (restored" ++ t)
    ∙ text_eq-append (text " (restored") s t
    ∙ h

candidate_apart :
    (base e : Text) (i j : ℕ)
    → 1 ≤ i
    → i < j
    → text_eq (candidate base e i) (candidate base e j) ≡ false
unfolding candidate text_eq
candidate_apart base e i j h l = elim (Bool-cases (ltb i 2)) [
  | inl q ↦
      rw (q, later)
        (apart_after base (text ")" ++ e) (text " " ++ (decimal j j ++ (text ")" ++ e))) refl)
  | inr q ↦
      rw (q, later)
        (apart_after base (text " " ++ (decimal i i ++ (text ")" ++ e)))
          (text " " ++ (decimal j j ++ (text ")" ++ e))) (tail_apart e i j (ground arith) l))
]
  where
    later : ltb j 2 ≡ false
    later = ground arith

length-delete-le : (p : Text) (files : Files) → length (delete p files) ≤ length files
unfolding delete
length-delete-le p [] = omega arith
length-delete-le p ((q, c) ∷ files) = ground (arith, length-delete-le p files)

length-delete :
    (p : Text) (files : Files)
    → exists p files ≡ true
    → suc (length (delete p files)) ≤ length files
unfolding lookup delete
length-delete p [] h = absurd (cc h)
length-delete p ((q, c) ∷ files) h = ground (arith, length-delete p files, length-delete-le p files)

module _ (c : ℕ → Text) (apart : (i j : ℕ) → 1 ≤ i → i < j → text_eq (c i) (c j) ≡ false) where
  first_free-candidate :
      (k i : ℕ) (files : Files) → (j : ℕ) × (i ≤ j) × (first_free k c i files ≡ c j)
  unfolding first_free
  first_free-candidate zero i files = (i, omega arith, refl)
  first_free-candidate (suc k) i files = elim (Bool-cases (exists (c i) files)) [
    | inl e ↦ let (j, l, q) = first_free-candidate k (suc i) files in (j, omega arith, rw e q)
    | inr e ↦ (i, omega arith, rw e refl)
  ]

  exists-delete :
      (i j : ℕ) (files : Files)
      → 1 ≤ i
      → i < j
      → exists (c j) (delete (c i) files) ≡ exists (c j) files
  exists-delete i j files h l = rw (lookup-delete (c i) (c j) files, apart i j h l)

  first_free-delete :
      (k i j : ℕ) (files : Files)
      → 1 ≤ i
      → i < j
      → first_free k c j (delete (c i) files) ≡ first_free k c j files
  unfolding first_free
  first_free-delete zero i j files h l = refl
  first_free-delete (suc k) i j files h l =
      rw (exists-delete i j files h l, first_free-delete k i (suc j) files h (omega arith))

  first_free-free :
      (k i : ℕ) (files : Files)
      → 1 ≤ i
      → length files ≤ k
      → exists (first_free k c i files) files ≡ false
  unfolding first_free
  first_free-free k i [] h l = unfold lookup in refl
  first_free-free zero i (f ∷ files) h l = absurd (omega arith)
  first_free-free (suc k) i (f ∷ files) h l = elim (Bool-cases (exists (c i) (f ∷ files))) [
    | inl e ↦
        let (j, m, q) = first_free-candidate k (suc i) (f ∷ files) in
        rw e (
          rw q (
            sym (exists-delete i j (f ∷ files) h m)
            ∙ rw (sym q, sym (first_free-delete k i (suc i) (f ∷ files) h (omega arith)))
                (first_free-free k (suc i) (delete (c i) (f ∷ files)) (omega arith)
                  (omega (arith, length-delete (c i) (f ∷ files) e)))))
    | inr e ↦ rw e e
  ]

-- The path that dedupePath returns is free, whatever files there are.
pub dedupe_path-free : (p : Text) (files : Files) → exists (dedupe_path p files) files ≡ false
unfolding dedupe_path
dedupe_path-free p files =
    first_free-free (candidate (take (length p - length (ext p)) p) (ext p))
      (candidate_apart (take (length p - length (ext p)) p) (ext p)) (length files) 1 files
      (omega arith) (omega arith)
