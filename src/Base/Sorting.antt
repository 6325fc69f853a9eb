-- ===== src/Base/Sorting.antt =====
-- Insertion sort by a three-way comparison, as the reference for `std::sort` and
-- `std::partial_sort`, and why there is only one ascending arrangement.
use Prim.Native.Nat.{ℕ, zero, suc, ◌+◌}
use mathlib.Core.Path.{◌≡◌, refl, sym, ap, ap₂, subst, ◌∙◌}
use mathlib.Core.Logic.{◌≢◌}
use mathlib.Core.List.{
  List, [], ◌∷◌, ◌++◌, Mem, Perm, Pairwise, Pairwise-append, mem-cons_self, mem-cons, not-mem-nil,
}
use mathlib.Core.List.Perm
use mathlib.Core.Logic.Or
use mathlib.Core.HLevel.{¬_prop}
use porla.Base.Lists.{length, take, drop}
use porla.Base.Comparison.{Order, less, equal, greater, IsComparison, Composes, reverse_order}
use native.Mathlib.Omega.{arith}

order_refl : (o : Order) → o ≡ reverse_order o → o ≢ greater
order_refl less e = λ k. cc
order_refl equal e = λ k. cc
order_refl greater e = λ k. cc

order_trans : (ab bc ac : Order) → Composes ab bc ac → ab ≢ greater → bc ≢ greater → ac ≢ greater
order_trans less less ac c h k e = let t = c.trans refl refl in absurd cc
order_trans less equal ac c h k e = let t = c.right refl in absurd cc
order_trans less greater ac c h k e = k refl
order_trans equal bc ac c h k e = k (sym (c.left refl) ∙ e)
order_trans greater bc ac c h k e = h refl

order_antisymm : (o p : Order) → p ≡ reverse_order o → o ≢ greater → p ≢ greater → o ≡ equal
order_antisymm less p e h k = absurd (k e)
order_antisymm equal p e h k = refl
order_antisymm greater p e h k = absurd (h refl)

module _ {A : Type 0} where
  pub take-drop : (k : ℕ) (s : List A) → take k s ++ drop k s ≡ s
  take-drop zero s = refl
  take-drop (suc k) [] = refl
  take-drop (suc k) (a ∷ s) = ap (λ t. a ∷ t) (take-drop k s)

  -- The first places of a list whose first places are those of another.
  take-take : (k : ℕ) (s t : List A) → (drop k s ≡ [] → t ≡ []) → take k (take k s ++ t) ≡ take k s
  take-take zero s t h = refl
  take-take (suc k) [] t h = rw (h refl) refl
  take-take (suc k) (a ∷ s) t h = ap (λ u. a ∷ u) (take-take k s t h)

module _ {A : Type 0} (cmp : A → A → Order) where
  -- `a` may stand before `b`.
  abbrev pub Before : A → A → Type 0
  Before a b = cmp a b ≢ greater

  abbrev pub IsAscending : List A → Type 0
  IsAscending = Pairwise Before

  unfoldable pub insert_sorted : A → List A → List A
  insert_sorted a [] = a ∷ []
  insert_sorted a (b ∷ s) = elim (cmp a b) [ greater ↦ b ∷ insert_sorted a s | _ ↦ a ∷ b ∷ s ]

  unfoldable pub insertion_sort : List A → List A
  insertion_sort [] = []
  insertion_sort (a ∷ s) = insert_sorted a (insertion_sort s)

  Before-prop : (a b : A) → IsProp (Before a b)
  Before-prop a b = ¬_prop

  insert_sorted-Perm : (a : A) (s : List A) → Perm (insert_sorted a s) (a ∷ s)
  unfolding insert_sorted
  insert_sorted-Perm a [] = Perm.refl (a ∷ [])
  insert_sorted-Perm a (b ∷ s) =
      elim (cmp a b)
        as (λ o. Perm (elim o [ greater ↦ b ∷ insert_sorted a s | _ ↦ a ∷ b ∷ s ]) (a ∷ b ∷ s)) [
          | greater ↦ Perm.trans (Perm.cons b (insert_sorted-Perm a s)) (Perm.swap a b s)
          | less ↦ Perm.refl (a ∷ b ∷ s)
          | equal ↦ Perm.refl (a ∷ b ∷ s)
        ]

  length-insert_sorted : (a : A) (s : List A) → length (insert_sorted a s) ≡ 1 + length s
  unfolding insert_sorted
  length-insert_sorted a [] = refl
  length-insert_sorted a (b ∷ s) =
      elim (cmp a b)
        as (λ o.
          length (elim o [ greater ↦ b ∷ insert_sorted a s | _ ↦ a ∷ b ∷ s ])
          ≡ 1 + length (b ∷ s)) [
            | greater ↦ omega (arith, length-insert_sorted a s)
            | less ↦ omega arith
            | equal ↦ omega arith
          ]

  pub insertion_sort-Perm : (s : List A) → Perm (insertion_sort s) s
  unfolding insertion_sort
  insertion_sort-Perm [] = Perm.nil
  insertion_sort-Perm (a ∷ s) =
      Perm.trans (insert_sorted-Perm a (insertion_sort s)) (Perm.cons a (insertion_sort-Perm s))

  module _ (l : IsComparison cmp) where
    Before-refl : (a : A) → Before a a
    Before-refl a = order_refl (cmp a a) (l.flip a a)

    Before-trans : {a b c : A} → Before a b → Before b c → Before a c
    Before-trans {a} {b} {c} = order_trans (cmp a b) (cmp b c) (cmp a c) (l.composes a b c)

    Before-swap : {a b : A} → cmp a b ≡ greater → Before b a
    Before-swap {a} {b} e k =
        let t : less ≡ greater = sym (ap reverse_order e) ∙ sym (l.flip a b) ∙ k in absurd cc

    Before-cons :
        {a b : A} {s : List A}
        → Before a b
        → ((x : A) → Mem x s → Before a x)
        → (x : A) → Mem x (b ∷ s)
        → Before a x
    Before-cons {a} {b} {s} h k x m =
        Or.elim (Before-prop a x) (mem-cons.0 m) (λ e. subst (Before a) (sym e) h) (k x)

    insert_sorted-IsAscending :
        (a : A) (s : List A) → IsAscending s → IsAscending (insert_sorted a s)
    unfolding insert_sorted
    insert_sorted-IsAscending a [] p = Pairwise.cons (λ x m. absurd (not-mem-nil m)) Pairwise.nil
    insert_sorted-IsAscending a (b ∷ s) (Pairwise.cons h p) =
        by_order (cmp a b) refl (insert_sorted-IsAscending a s p)
      where
        front : Before a b → IsAscending (a ∷ b ∷ s)
        front k = Pairwise.cons (Before-cons k (λ x m. Before-trans k (h x m))) (Pairwise.cons h p)

        by_order :
            (o : Order)
            → cmp a b ≡ o
            → IsAscending (insert_sorted a s)
            → IsAscending (elim o [ greater ↦ b ∷ insert_sorted a s | _ ↦ a ∷ b ∷ s ])
        by_order greater e rest =
            Pairwise.cons
              (λ x m. Before-cons (Before-swap e) h x ((Perm.mem_iff (insert_sorted-Perm a s)).0 m))
              rest
        by_order less e rest = front (λ k. let t : less ≡ greater = sym e ∙ k in absurd cc)
        by_order equal e rest = front (λ k. let t : equal ≡ greater = sym e ∙ k in absurd cc)

    pub insertion_sort-IsAscending : (s : List A) → IsAscending (insertion_sort s)
    unfolding insertion_sort
    insertion_sort-IsAscending [] = Pairwise.nil
    insertion_sort-IsAscending (a ∷ s) =
        insert_sorted-IsAscending a (insertion_sort s) (insertion_sort-IsAscending s)

    -- Elements that compare equal are one.
    abbrev pub IsSeparate : List A → Type 0
    IsSeparate s = (a b : A) → Mem a s → Mem b s → cmp a b ≡ equal → a ≡ b

    Before-head : {a b : A} {s t : List A} → IsAscending (a ∷ s) → Perm (a ∷ s) (b ∷ t) → Before a b
    Before-head {a} {b} (Pairwise.cons h p) q =
        Before-cons (Before-refl a) h b ((Perm.mem_iff q).1 mem-cons_self)

    pub ascending_unique :
        (s t : List A) → IsSeparate s → IsAscending s → IsAscending t → Perm s t → s ≡ t
    ascending_unique [] t d p q r = Perm.nil-eq r
    ascending_unique (a ∷ s) [] d p q r = Perm.eq-nil r
    ascending_unique (a ∷ s) (b ∷ t) d p q r =
        let same : a ≡ b = d a b mem-cons_self ((Perm.mem_iff r).1 mem-cons_self) (
          order_antisymm (cmp a b) (cmp b a) (l.flip a b) (Before-head p r)
            (Before-head q (Perm.symm r))) in
        let tails = Perm.cons_inv (Perm.trans r (Perm.cons' (sym same) Perm.rfl)) in
        ap₂ ◌∷◌ same (
          ascending_unique s t (λ x y m n. d x y (mem-cons.1 (Or.inr m)) (mem-cons.1 (Or.inr n)))
            (tail_of p) (tail_of q) tails)
      where
        tail_of : {x : A} {u : List A} → IsAscending (x ∷ u) → IsAscending u
        tail_of (Pairwise.cons h p) = p

  -- What `std::sort` and `std::partial_sort` promise; the second sorts the first `k` places only, in
  -- which it puts what may stand before all the rest.
  pub record IsSort (sort : List A → List A) : Type 0 where
    pub same : (s : List A) → Perm (sort s) s
    pub ascending : (s : List A) → IsAscending (sort s)

  pub record IsPartialSort (partial_sort : ℕ → List A → List A) : Type 0 where
    pub same : (k : ℕ) (s : List A) → Perm (partial_sort k s) s
    pub ascending : (k : ℕ) (s : List A) → IsAscending (take k (partial_sort k s))
    pub least :
        (k : ℕ) (s : List A) (a : A)
        → Mem a (take k (partial_sort k s))
        → (b : A) → Mem b (drop k (partial_sort k s))
        → Before a b

  module _ (l : IsComparison cmp) where
    IsSeparate-Perm : {s t : List A} → Perm s t → IsSeparate l t → IsSeparate l s
    IsSeparate-Perm p d a b m n = d a b ((Perm.mem_iff p).0 m) ((Perm.mem_iff p).0 n)

    pub sort-insertion_sort :
        (sort : List A → List A) (law : IsSort sort) (s : List A)
        → IsSeparate l s
        → sort s ≡ insertion_sort s
    sort-insertion_sort sort law s d =
        ascending_unique l (sort s) (insertion_sort s) (IsSeparate-Perm (law.same s) d)
          (law.ascending s) (insertion_sort-IsAscending l s)
          (Perm.trans (law.same s) (Perm.symm (insertion_sort-Perm s)))

    -- What a partial sort leaves, with its unsorted part sorted.
    pub take-partial_sort :
        (partial_sort : ℕ → List A → List A) (law : IsPartialSort partial_sort) (k : ℕ) (s : List A)
        → IsSeparate l s
        → take k (partial_sort k s) ≡ take k (insertion_sort s)
    unfolding insertion_sort
    take-partial_sort partial_sort law k s d =
        let t : List A = partial_sort k s in
        let rest = insertion_sort-Perm (drop k t) in
        let whole : Perm (take k t ++ insertion_sort (drop k t)) s =
          Perm.trans (Perm.append_left (take k t) rest)
            (subst (λ u. Perm u s) (sym (take-drop k t)) (law.same k s)) in
        let ordered : IsAscending (take k t ++ insertion_sort (drop k t)) =
          (Pairwise-append Before-prop {l₁ = take k t}).1 (
            law.ascending k s,
            insertion_sort-IsAscending l (drop k t),
            λ a m b n. law.least k s a m b ((Perm.mem_iff rest).0 n),
          ) in
        sym (take-take k t (insertion_sort (drop k t)) (λ e. rw e refl))
        ∙ ap (take k) (
            ascending_unique l (take k t ++ insertion_sort (drop k t)) (insertion_sort s)
              (IsSeparate-Perm whole d) ordered (insertion_sort-IsAscending l s)
              (Perm.trans whole (Perm.symm (insertion_sort-Perm s))))

  pub length-insertion_sort : (s : List A) → length (insertion_sort s) ≡ length s
  unfolding insertion_sort
  length-insertion_sort [] = refl
  length-insertion_sort (a ∷ s) =
      omega (arith, length-insert_sorted a (insertion_sort s), length-insertion_sort s)
