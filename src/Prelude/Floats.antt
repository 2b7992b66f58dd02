-- ===== src/Prelude/Floats.antt =====
-- Go's float64, as an interface: the type and the operations that the program uses, with no law. A
-- theorem that needs a law of the order or of the arithmetic names it as a hypothesis.
use Prim.Native.Nat.{ℕ, ◌+◌, ◌*◌, ◌/◌}
use mathlib.Core.Bool.{Bool, not, ◌||◌}
use nimo_os_photos.Prelude.Int.{ℤ, pos, pos_part, neg_part, sub_ℕ, ◌+ℤ◌, ◌-ℤ◌, ltb_ℤ}

pub record Float64 : Type 1 where
  pub F : Type 0
  -- The double nearest to a ratio: the program's literals and conversions from int.
  pub lit : ℕ → ℕ → F
  pub lt : F → F → Bool
  pub feq : F → F → Bool
  pub plus : F → F → F
  pub minus : F → F → F
  pub times : F → F → F
  pub div : F → F → F
  -- int(x): truncation towards zero.
  pub truncate : F → ℤ

-- A model of the interface for concrete runs: thousandths, rounded down.
abbrev pub thousandths : Float64
thousandths = record {
  F = ℤ;
  lit = λ n d. pos (n * 1000 / d);
  lt = ltb_ℤ;
  feq = λ a b. not (ltb_ℤ a b || ltb_ℤ b a);
  plus = ◌+ℤ◌;
  minus = ◌-ℤ◌;
  times = λ a b.
      sub_ℕ ((pos_part a * pos_part b + neg_part a * neg_part b) / 1000)
        ((pos_part a * neg_part b + neg_part a * pos_part b) / 1000);
  div = λ a b. sub_ℕ (pos_part a * 1000 / pos_part b) (neg_part a * 1000 / pos_part b);
  truncate = λ a. sub_ℕ (pos_part a / 1000) (neg_part a / 1000);
}
