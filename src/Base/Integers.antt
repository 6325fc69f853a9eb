-- ===== src/Base/Integers.antt =====
-- The integers over the native naturals.
use Prim.Native.Nat.{ℕ, zero, suc}
use mathlib.Core.Path.{◌≡◌, refl}
use native.Mathlib.Omega.{arith}
use porla.Base.Comparison.{
  Order, less, greater, reverse_order, Composes, IsComparison, compare_numbers,
}
use porla.Base.Preorders.{compare_numbers-IsComparison}

pub data ℤ : Type 0 where
  pos : ℕ → ℤ
  negsuc : ℕ → ℤ

-- The negative of a literal.
abbrev pub neg : ℕ → ℤ
neg zero = pos 0
neg (suc n) = negsuc n

-- `<=>` on them.
abbrev pub compare_ints : ℤ → ℤ → Order
compare_ints (pos a) (pos b) = compare_numbers a b
compare_ints (pos a) (negsuc b) = greater
compare_ints (negsuc a) (pos b) = less
compare_ints (negsuc a) (negsuc b) = compare_numbers b a

pub compare_ints-IsComparison : IsComparison compare_ints
compare_ints-IsComparison = record { flip = flips; composes = composed }
  where
    flips : (a b : ℤ) → compare_ints b a ≡ reverse_order (compare_ints a b)
    flips (pos a) (pos b) = ground arith
    flips (pos a) (negsuc b) = refl
    flips (negsuc a) (pos b) = refl
    flips (negsuc a) (negsuc b) = ground arith

    composed : (a b c : ℤ) → Composes (compare_ints a b) (compare_ints b c) (compare_ints a c)
    composed (pos a) (pos b) (pos c) = compare_numbers-IsComparison.composes a b c
    composed (pos a) (pos b) (negsuc c) = record {
      trans = λ h k. cc;
      left = λ h. refl;
      right = λ h. cc;
    }
    composed (pos a) (negsuc b) (pos c) = record {
      trans = λ h k. cc;
      left = λ h. cc;
      right = λ h. cc;
    }
    composed (pos a) (negsuc b) (negsuc c) = record {
      trans = λ h k. cc;
      left = λ h. cc;
      right = λ h. refl;
    }
    composed (negsuc a) (pos b) (pos c) = record {
      trans = λ h k. refl;
      left = λ h. cc;
      right = λ h. refl;
    }
    composed (negsuc a) (pos b) (negsuc c) = record {
      trans = λ h k. cc;
      left = λ h. cc;
      right = λ h. cc;
    }
    composed (negsuc a) (negsuc b) (pos c) = record {
      trans = λ h k. refl;
      left = λ h. refl;
      right = λ h. cc;
    }
    composed (negsuc a) (negsuc b) (negsuc c) =
        let l = compare_numbers-IsComparison.composes c b a in
        record { trans = λ h k. l.trans k h; left = l.right; right = l.left }
