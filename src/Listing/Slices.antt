-- ===== src/Listing/Slices.antt =====
-- The page of `torrents.list` (src/rpc/methods/torrents.cpp) as a slice of a sorted list.
use porla.Base.{
  ℕ, zero, suc, ◌+◌, ◌-◌, ◌*◌, ◌/◌, ◌≤◌, ◌<◌, min, ◌≡◌, refl, sym, ap, ap₂, ◌∙◌, Bool-cases, inl,
  inr, List, [], ◌∷◌, leb, leb_iff, length, take, drop, arith,
}
use porla.Base.Comparison.{Order, IsComparison}
use porla.Base.Sorting.{
  insertion_sort, IsSort, IsPartialSort, IsSeparate, sort-insertion_sort, take-partial_sort,
  length-insertion_sort,
}
use porla.Listing.Paging.{Sorts, page_beg, page_end, sorted, page_items}

module _ {A : Type 0} where
  take-nil : (n : ℕ) → take {A = A} n [] ≡ []
  take-nil zero = refl
  take-nil (suc n) = refl

  -- The elements from place `b` to place `e`, in two ways.
  take-slice : (b e : ℕ) (s : List A) → take (e - b) (drop b s) ≡ drop b (take e s)
  take-slice zero e s = ap (λ n. take n s) (omega arith)
  take-slice (suc b) zero s =
      let none_left : 0 - suc b ≡ 0 = omega arith in ap (λ n. take n (drop (suc b) s)) none_left
  take-slice (suc b) (suc e) [] = take-nil (suc e - suc b)
  take-slice (suc b) (suc e) (x ∷ s) =
      let same : suc e - suc b ≡ e - b = omega arith in
      ap (λ n. take n (drop b s)) same ∙ take-slice b e s

  take-all : (n : ℕ) (s : List A) → length s ≤ n → take n s ≡ s
  take-all zero [] h = refl
  take-all zero (x ∷ s) h = absurd (omega (arith, h))
  take-all (suc n) [] h = refl
  take-all (suc n) (x ∷ s) h = ap (λ t. x ∷ t) (take-all n s (omega (arith, h)))

  drop-all : (n : ℕ) (s : List A) → length s ≤ n → drop n s ≡ []
  drop-all zero [] h = refl
  drop-all zero (x ∷ s) h = absurd (omega (arith, h))
  drop-all (suc n) [] h = refl
  drop-all (suc n) (x ∷ s) h = drop-all n s (omega (arith, h))

  length-drop : (n : ℕ) (s : List A) → length (drop n s) ≡ length s - n
  length-drop zero s = omega arith
  length-drop (suc n) [] = omega arith
  length-drop (suc n) (x ∷ s) = omega (arith, length-drop n s)

  -- A slice may begin or end behind the list.
  slice-min :
      (b n m : ℕ) (s : List A)
      → length s ≡ m
      → take (min (min b m + n) m - min b m) (drop (min b m) s) ≡ take n (drop b s)
  slice-min b n m s e = elim (Bool-cases (leb b m)) [
    | inr h ↦
        let k : m ≤ b = ground (arith, h) in
        ap (take (min (min b m + n) m - min b m)) (drop-all (min b m) s (omega (arith, e, k)))
        ∙ take-nil (min (min b m + n) m - min b m)
        ∙ sym (ap (take n) (drop-all b s (omega (arith, e, k))) ∙ take-nil n)
    | inl h ↦
        let k : b ≤ m = (leb_iff b m).0 h in
        ap₂ (λ i j. take i (drop j s)) {x = min (min b m + n) m - min b m} {y = min (b + n) m - b}
          (omega (arith, k)) (omega (arith, k))
        ∙ within k
  ]
    where
      within : b ≤ m → take (min (b + n) m - b) (drop b s) ≡ take n (drop b s)
      within k = elim (Bool-cases (leb (b + n) m)) [
        | inl h ↦ ap (λ i. take i (drop b s)) (omega (arith, (leb_iff (b + n) m).0 h))
        | inr h ↦
            let g : m < b + n = ground (arith, h) in
            take-all (min (b + n) m - b) (drop b s) (omega (arith, e, g, length-drop b s))
            ∙ sym (take-all n (drop b s) (omega (arith, e, g, length-drop b s)))
      ]

  module _ (cmp : A → A → Order) (l : IsComparison cmp) (std : Sorts A) (full : IsSort cmp std.sort)
      (partial : IsPartialSort cmp std.partial_sort) where
    sorted-take :
        (page page_size : ℕ) (s : List A)
        → IsSeparate cmp l s
        → take (page_end std page page_size s) (sorted std page page_size s)
          ≡ take (page_end std page page_size s) (insertion_sort cmp s)
    unfolding sorted
    sorted-take page page_size s d =
        elim (Bool-cases (leb (length s / 2) (page_end std page page_size s))) [
          | inl h ↦ rw h (
              ap (take (page_end std page page_size s))
                (sort-insertion_sort cmp l std.sort full s d))
          | inr h ↦
              rw h (
                take-partial_sort cmp l std.partial_sort partial (page_end std page page_size s) s
                  d)
        ]

    -- A page has the torrents at its places in the list that insertion sort gives, whichever of the two
    -- algorithms has sorted; equal elements being one.
    pub page_items_lem :
        (page page_size : ℕ) (s : List A)
        → IsSeparate cmp l s
        → page_items std page page_size s
          ≡ take page_size (drop (page * page_size) (insertion_sort cmp s))
    unfolding page_items
    page_items_lem page page_size s d =
        take-slice (page_beg std page page_size s) (page_end std page page_size s)
          (sorted std page page_size s)
        ∙ ap (drop (page_beg std page page_size s)) (sorted-take page page_size s d)
        ∙ sym (
            take-slice (page_beg std page page_size s) (page_end std page page_size s)
              (insertion_sort cmp s))
        ∙ slice-min (page * page_size) page_size (length s) (insertion_sort cmp s)
            (length-insertion_sort cmp s)
