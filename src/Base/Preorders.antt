-- ===== src/Base/Preorders.antt =====
-- Comparisons that are total preorders, and the ways to make others of them.
use mathlib.Core.Path.{◌≡◌, refl, sym}
use mathlib.Core.Option.{Option, none, some}
use native.Mathlib.Omega.{arith}
use porla.Base.Comparison.{
  Order, less, equal, greater, reverse_order, then_by, Composes, IsComparison,
  reverse_order-then_by, then_by-Composes, compare_numbers, compare_bools,
}

pub compare_numbers-IsComparison : IsComparison compare_numbers
compare_numbers-IsComparison = record {
  flip = λ a b. ground arith;
  composes = λ a b c. record {
    trans = λ h k. ground (arith, h, k);
    left = λ h. ground (arith, h);
    right = λ h. ground (arith, h);
  };
}

pub compare_bools-IsComparison : IsComparison compare_bools
compare_bools-IsComparison = record {
  flip = λ a b. ground arith;
  composes = λ a b c. record {
    trans = λ h k. ground (arith, h, k);
    left = λ h. ground (arith, h);
    right = λ h. ground (arith, h);
  };
}

module _ {ℓ} {A : Type ℓ} where
  pub IsComparison-eq :
      (c d : A → A → Order) → ((x y : A) → c x y ≡ d x y) → IsComparison d → IsComparison c
  IsComparison-eq c d e l = record {
    flip = λ x y. rw (e x y, e y x) (l.flip x y);
    composes = λ x y z. rw (e x y, e y z, e x z) (l.composes x y z);
  }

  pub reversed-IsComparison :
      (c : A → A → Order) → IsComparison c → IsComparison (λ x y. reverse_order (c x y))
  reversed-IsComparison c l =
      IsComparison-eq (λ x y. reverse_order (c x y)) (λ x y. c y x) (λ x y. sym (l.flip x y))
        (record {
          flip = λ x y. l.flip y x;
          composes = λ x y z. record {
            trans = λ h k. (l.composes z y x).trans k h;
            left = (l.composes z y x).right;
            right = (l.composes z y x).left;
          };
        })

  pub then_by-IsComparison :
      (c d : A → A → Order)
      → IsComparison c
      → IsComparison d
      → IsComparison (λ x y. then_by (c x y) (d x y))
  then_by-IsComparison c d l m = record {
    flip = λ x y. rw (l.flip x y, m.flip x y) (sym (reverse_order-then_by (c x y) (d x y)));
    composes = λ x y z.
        then_by-Composes (c x y) (c y z) (c x z) (d x y) (d y z) (d x z) (l.composes x y z)
          (m.composes x y z);
  }

  pub pulled-IsComparison {κ} :
      {B : Type κ} (f : B → A) (c : A → A → Order)
      → IsComparison c
      → IsComparison (λ x y. c (f x) (f y))
  pulled-IsComparison f c l = record {
    flip = λ x y. l.flip (f x) (f y);
    composes = λ x y z. l.composes (f x) (f y) (f z);
  }

  -- What is missing is last, whatever the direction.
  abbrev pub compare_options : (A → A → Order) → Option A → Option A → Order
  compare_options c (some x) (some y) = c x y
  compare_options c (some x) none = less
  compare_options c none (some y) = greater
  compare_options c none none = equal

  pub compare_options-IsComparison :
      (c : A → A → Order) → IsComparison c → IsComparison (compare_options c)
  compare_options-IsComparison c l = record { flip = flips; composes = composed }
    where
      flips : (x y : Option A) → compare_options c y x ≡ reverse_order (compare_options c x y)
      flips none none = refl
      flips none (some y) = refl
      flips (some x) none = refl
      flips (some x) (some y) = l.flip x y

      composed :
          (x y z : Option A)
          → Composes (compare_options c x y) (compare_options c y z) (compare_options c x z)
      composed none none z = record { trans = λ h k. cc; left = λ h. refl; right = λ h. h }
      composed none (some y) none = record { trans = λ h k. cc; left = λ h. cc; right = λ h. cc }
      composed none (some y) (some z) = record {
        trans = λ h k. cc;
        left = λ h. cc;
        right = λ h. refl;
      }
      composed (some x) none none = record {
        trans = λ h k. refl;
        left = λ h. cc;
        right = λ h. refl;
      }
      composed (some x) none (some z) = record {
        trans = λ h k. cc;
        left = λ h. cc;
        right = λ h. cc;
      }
      composed (some x) (some y) none = record {
        trans = λ h k. refl;
        left = λ h. refl;
        right = λ h. cc;
      }
      composed (some x) (some y) (some z) = l.composes x y z
