-- ===== src/Prelude/Strings.antt =====
-- Go strings: sequences of bytes, with Go's equality and its byte-wise order.
use Prim.Native.Nat.{ℕ}
use Prim.Native.Char.{code}
use Prim.Native.String.{String}
use mathlib.Core.Path.{◌≡◌, refl}
use mathlib.Core.Logic.{◌↔◌}
use mathlib.Core.Bool.{Bool, true, false, ◌&&◌, ◌||◌, not}
use mathlib.Core.List.{List, [], ◌∷◌, ◌++◌}
use nimo_os_photos.Prelude.Lists.{any}
use native.Mathlib.Omega.{arith}
use nimo_os_photos.Prelude.Tests.{◌==◌, ltb, leb, Eq, if◌then◌else◌}

abbrev pub Text : Type 0
Text = List ℕ

-- The bytes of an ASCII literal.
abbrev pub text : String → Text
text String.[] = []
text (String.◌∷◌ c s) = code c ∷ text s

unfoldable pub text_eq : Text → Text → Bool
text_eq [] [] = true
text_eq [] (c ∷ t) = false
text_eq (b ∷ s) [] = false
text_eq (b ∷ s) (c ∷ t) = b == c && text_eq s t

-- Go's `<` on strings.
unfoldable pub text_lt : Text → Text → Bool
text_lt s [] = false
text_lt [] (c ∷ t) = true
text_lt (b ∷ s) (c ∷ t) = ltb b c || (b == c && text_lt s t)

-- strings.HasPrefix, and `substr(path,1,length(p)) = p` of SQLite.
unfoldable pub has_prefix : Text → Text → Bool
has_prefix s [] = true
has_prefix [] (c ∷ p) = false
has_prefix (b ∷ s) (c ∷ p) = b == c && has_prefix s p

pub text_eq→≡ : (s t : Text) → text_eq s t ≡ true → s ≡ t
unfolding text_eq
text_eq→≡ [] [] h = refl
text_eq→≡ [] (c ∷ t) h = cc
text_eq→≡ (b ∷ s) [] h = cc
text_eq→≡ (b ∷ s) (c ∷ t) h = ground (arith, text_eq→≡ s t)

pub text_eq_refl : (s : Text) → text_eq s s ≡ true
unfolding text_eq
text_eq_refl [] = refl
text_eq_refl (b ∷ s) = ground (arith, text_eq_refl s)

pub text_eq_iff : (s t : Text) → (text_eq s t ≡ true) ↔ (s ≡ t)
text_eq_iff s t = (text_eq→≡ s t, λ e. rw e (text_eq_refl t))

instance abbrev pub text_Eq : Eq Text
text_Eq = record { beq = text_eq; beq_iff = text_eq_iff }

-- A key of two strings, as of a table with such a primary key.
unfoldable pub pair_eq : Text × Text → Text × Text → Bool
pair_eq a b = text_eq a.0 b.0 && text_eq a.1 b.1

pub pair_eq_iff : (a b : Text × Text) → (pair_eq a b ≡ true) ↔ (a ≡ b)
unfolding pair_eq
pair_eq_iff a b = ground (arith, text_eq_iff a.0 b.0, text_eq_iff a.1 b.1)

instance abbrev pub pair_Eq : Eq (Text × Text)
pair_Eq = record { beq = pair_eq; beq_iff = pair_eq_iff }

-- A byte put in front of the first string.
extend : ℕ → List Text → List Text
extend c [] = (c ∷ []) ∷ []
extend c (t ∷ ts) = (c ∷ t) ∷ ts

abbrev pub is_empty : Text → Bool
is_empty [] = true
is_empty (c ∷ s) = false

-- unicode.IsSpace of an ASCII byte.
abbrev pub is_space : ℕ → Bool
is_space c = c == 32 || (leb 9 c && leb c 13)

-- strings.Split by one byte.
unfoldable pub split : ℕ → Text → List Text
unfolding extend
split sep [] = [] ∷ []
split sep (c ∷ s) = let rest = split sep s in if c == sep then [] ∷ rest else extend c rest

-- No byte of a string satisfies a test.
abbrev pub lacks : (ℕ → Bool) → Text → Bool
lacks q s = not (any q s)

pub split-lacks :
    (sep : ℕ) (w s : Text)
    → lacks (λ c. c == sep) w ≡ true
    → split sep (w ++ (sep ∷ s)) ≡ w ∷ split sep s
unfolding split extend
split-lacks sep [] s h = ground arith
split-lacks sep (c ∷ w) s h = ground (arith, h, split-lacks sep w s)

-- strings.TrimRight(s, "/").
unfoldable pub trim_slashes : Text → Text
trim_slashes [] = []
trim_slashes (c ∷ s) =
    let rest = trim_slashes s in if c == b'/' && is_empty rest then [] else c ∷ rest

-- A string stands among others: the keys of a map[string]bool.
unfoldable pub text_mem : Text → List Text → Bool
text_mem s [] = false
text_mem s (t ∷ ts) = text_eq t s || text_mem s ts
