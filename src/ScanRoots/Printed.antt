-- ===== src/ScanRoots/Printed.antt =====
-- A mount table as the kernel prints it: a line for each mount, with the device, the mount point, the
-- type, and the options, where a space, a tab, a newline and a backslash of the mount point are written
-- as octal escapes.
use nimo_os_photos.Prelude.{
  ℕ, ◌≡◌, refl, ap, ◌∙◌, Bool, true, false, ◌&&◌, not, List, [], ◌∷◌, ◌++◌, Text, text, is_empty,
  is_space, lacks, split-lacks, leb, ◌==◌, arith, Bool-cases, inl, inr, if◌then◌else◌, none, some,
}
use nimo_os_photos.ScanRoots.{drop_empty, spaces_as_one, fields, escape, unescape_mount}

pub record MountEntry : Type 0 where
  pub device : Text
  pub mount_point : Text
  pub fs_type : Text
  pub options : Text

abbrev pub mangle_byte : ℕ → Text → Text
mangle_byte c s =
    if c == 32
    then text "\\040" ++ s
    else if c == 9
    then text "\\011" ++ s
    else if c == 10
    then text "\\012" ++ s
    else if c == b'\\'
    then text "\\134" ++ s
    else c ∷ s

unfoldable pub mangle : Text → Text
mangle [] = []
mangle (c ∷ s) = mangle_byte c (mangle s)

abbrev pub mount_line : MountEntry → Text
mount_line e = e.device ++ (32 ∷ (mangle e.mount_point ++ (32 ∷ (e.fs_type ++ (32 ∷ e.options)))))

abbrev pub mount_table : List MountEntry → Text
mount_table [] = []
mount_table (e ∷ es) = mount_line e ++ (10 ∷ mount_table es)

unescape-plain :
    (a : ℕ) (s : Text) → (a == b'\\') ≡ false → unescape_mount (a ∷ s) ≡ a ∷ unescape_mount s
unfolding unescape_mount
unescape-plain a [] h = refl
unescape-plain a (b ∷ []) h = refl
unescape-plain a (b ∷ c ∷ []) h = refl
unescape-plain a (b ∷ c ∷ d ∷ s) h =
    ap
      (λ x. elim (if x then escape b c d else none) [
        | none ↦ a ∷ unescape_mount (b ∷ c ∷ d ∷ s)
        | some e ↦ e ∷ unescape_mount s
      ])
      h

unescape-mangle_byte : (c : ℕ) (s : Text) → unescape_mount (mangle_byte c s) ≡ c ∷ unescape_mount s
unfolding unescape_mount escape
unescape-mangle_byte c s = elim (Bool-cases (c == 32)) [
  | inl e ↦ rw e (ground arith)
  | inr e ↦ rw e (elim (Bool-cases (c == 9)) [
    | inl e2 ↦ rw e2 (ground arith)
    | inr e2 ↦ rw e2 (elim (Bool-cases (c == 10)) [
      | inl e3 ↦ rw e3 (ground arith)
      | inr e3 ↦ rw e3 (elim (Bool-cases (c == b'\\')) [
        | inl e4 ↦ rw e4 (ground arith)
        | inr e4 ↦ rw e4 (unescape-plain c s e4)
      ])
    ])
  ])
]

pub unescape-mangle : (s : Text) → unescape_mount (mangle s) ≡ s
unfolding unescape_mount mangle
unescape-mangle [] = refl
unescape-mangle (c ∷ s) = unescape-mangle_byte c (mangle s) ∙ ap (λ t. c ∷ t) (unescape-mangle s)

pub lacks-append : (q : ℕ → Bool) (s t : Text) → lacks q (s ++ t) ≡ (lacks q s && lacks q t)
lacks-append q [] t = ground arith
lacks-append q (c ∷ s) t = ground (arith, lacks-append q s t)

spaces_as_one-lacks :
    (w s : Text)
    → lacks is_space w ≡ true
    → spaces_as_one (w ++ (32 ∷ s)) ≡ w ++ (32 ∷ spaces_as_one s)
unfolding spaces_as_one
spaces_as_one-lacks [] s h = refl
spaces_as_one-lacks (c ∷ w) s h = ground (arith, h, spaces_as_one-lacks w s)

no_space-byte :
    (k : ℕ) (w : Text) → is_space k ≡ true → lacks is_space w ≡ true → lacks (λ c. c == k) w ≡ true
no_space-byte k [] e h = refl
no_space-byte k (c ∷ w) e h = elim (Bool-cases (c == k)) [
  | inl d ↦ absurd (ground (arith, d, e, h))
  | inr d ↦ ground (arith, d, h, no_space-byte k w e)
]

abbrev pub is_word : Text → Bool
is_word w = not (is_empty w) && lacks is_space w

pub fields-word : (w s : Text) → is_word w ≡ true → fields (w ++ (32 ∷ s)) ≡ w ∷ fields s
unfolding fields drop_empty
fields-word w s h =
    let l : lacks is_space w ≡ true = ground (arith, h) in
    rw (spaces_as_one-lacks w s l, split-lacks 32 w (spaces_as_one s) (no_space-byte 32 w refl l))
      (ground (arith, h))

-- A vertical tab, a form feed or a carriage return.
abbrev pub is_vertical : ℕ → Bool
is_vertical c = leb 11 c && leb c 13

mangle_byte-is_word :
    (c : ℕ) (s : Text)
    → is_vertical c ≡ false
    → lacks is_space s ≡ true
    → is_word (mangle_byte c s) ≡ true
mangle_byte-is_word c s v h = elim (Bool-cases (c == 32)) [
  | inl e ↦ rw e h
  | inr e ↦ rw e (elim (Bool-cases (c == 9)) [
    | inl e2 ↦ rw e2 h
    | inr e2 ↦ rw e2 (elim (Bool-cases (c == 10)) [
      | inl e3 ↦ rw e3 h
      | inr e3 ↦ rw e3 (elim (Bool-cases (c == b'\\')) [
        | inl e4 ↦ rw e4 h
        | inr e4 ↦ rw e4 (ground (arith, v, h, e, e2, e3))
      ])
    ])
  ])
]

lacks-mangle : (s : Text) → lacks is_vertical s ≡ true → lacks is_space (mangle s) ≡ true
unfolding mangle
lacks-mangle [] h = refl
lacks-mangle (c ∷ s) h = ground (
  arith,
  mangle_byte-is_word c (mangle s) (ground (arith, h)) (lacks-mangle s (ground (arith, h))),
)

pub mangle-is_word :
    (s : Text) → is_empty s ≡ false → lacks is_vertical s ≡ true → is_word (mangle s) ≡ true
unfolding mangle
mangle-is_word [] e h = absurd (cc)
mangle-is_word (c ∷ s) e h =
    mangle_byte-is_word c (mangle s) (ground (arith, h)) (lacks-mangle s (ground (arith, h)))

-- The device and the type are words, the mount point has a byte and no vertical space, which the kernel
-- does not escape, and the options have no newline.
abbrev pub is_valid : MountEntry → Bool
is_valid e =
    is_word e.device
    && is_word e.fs_type
    && not (is_empty e.mount_point)
    && lacks is_vertical e.mount_point
    && lacks (λ c. c == 10) e.options

pub word-no_newline : (w : Text) → is_word w ≡ true → lacks (λ c. c == 10) w ≡ true
word-no_newline w h = no_space-byte 10 w refl (ground (arith, h))
