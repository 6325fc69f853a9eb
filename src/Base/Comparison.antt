-- ===== src/Base/Comparison.antt =====
-- Three-way comparisons, `std::weak_ordering`, and what is built from them.
use Prim.Native.Nat.{ℕ, compare, Ordering}
use mathlib.Core.Path.{◌≡◌, refl}
use mathlib.Core.Bool.{Bool, true, false}

pub data Order : Type 0 where
  less equal greater : Order

abbrev pub reverse_order : Order → Order
reverse_order less = greater
reverse_order equal = equal
reverse_order greater = less

-- The second comparison decides where the first finds no difference.
abbrev pub then_by : Order → Order → Order
then_by less o = less
then_by equal o = o
then_by greater o = greater

-- How the comparisons of a with b, of b with c and of a with c go together.
pub record Composes (ab bc ac : Order) : Type 0 where
  pub trans : ab ≡ less → bc ≡ less → ac ≡ less
  pub left : ab ≡ equal → ac ≡ bc
  pub right : bc ≡ equal → ac ≡ ab

-- A total preorder, as a three-way comparison.
pub record IsComparison {ℓ} {A : Type ℓ} (cmp : A → A → Order) : Type ℓ where
  pub flip : (a b : A) → cmp b a ≡ reverse_order (cmp a b)
  pub composes : (a b c : A) → Composes (cmp a b) (cmp b c) (cmp a c)

pub reverse_order-then_by :
    (o p : Order) → reverse_order (then_by o p) ≡ then_by (reverse_order o) (reverse_order p)
reverse_order-then_by less p = refl
reverse_order-then_by equal p = refl
reverse_order-then_by greater p = refl

pub then_by-Composes :
    (ab bc ac ab' bc' ac' : Order)
    → Composes ab bc ac
    → Composes ab' bc' ac'
    → Composes (then_by ab ab') (then_by bc bc') (then_by ac ac')
then_by-Composes less less ac ab' bc' ac' p q = record {
  trans = λ h k. rw (p.trans refl refl);
  left = λ h. cc;
  right = λ h. cc;
}
then_by-Composes less equal ac ab' bc' ac' p q =
    rw (p.right refl) (record { trans = λ h k. refl; left = λ h. cc; right = λ h. refl })
then_by-Composes less greater ac ab' bc' ac' p q = record {
  trans = λ h k. cc;
  left = λ h. cc;
  right = λ h. cc;
}
then_by-Composes equal less ac ab' bc' ac' p q =
    rw (p.left refl) (record { trans = λ h k. refl; left = λ h. refl; right = λ h. cc })
then_by-Composes equal equal ac ab' bc' ac' p q = rw (p.left refl) q
then_by-Composes equal greater ac ab' bc' ac' p q =
    rw (p.left refl) (record { trans = λ h k. cc; left = λ h. refl; right = λ h. cc })
then_by-Composes greater less ac ab' bc' ac' p q = record {
  trans = λ h k. cc;
  left = λ h. cc;
  right = λ h. cc;
}
then_by-Composes greater equal ac ab' bc' ac' p q =
    rw (p.right refl) (record { trans = λ h k. cc; left = λ h. cc; right = λ h. refl })
then_by-Composes greater greater ac ab' bc' ac' p q = record {
  trans = λ h k. cc;
  left = λ h. cc;
  right = λ h. cc;
}

-- `<=>` on numbers and on Booleans.
abbrev pub compare_numbers : ℕ → ℕ → Order
compare_numbers a b = elim (compare a b) [
  | Ordering.lt ↦ less
  | Ordering.eq ↦ equal
  | Ordering.gt ↦ greater
]

abbrev pub compare_bools : Bool → Bool → Order
compare_bools true true = equal
compare_bools true false = greater
compare_bools false true = less
compare_bools false false = equal

-- A Boolean test of the relation `<`.
abbrev pub is_less : Order → Bool
is_less less = true
is_less _ = false
