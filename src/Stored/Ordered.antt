-- ===== src/Stored/Ordered.antt =====
-- Lists in strictly ascending order, and what of them comes after one of their elements: why the statement of
-- src/data/models/addtorrentparams.cpp goes on where it stopped.
use porla.Base.{
  ◌≡◌, ◌≢◌, refl, sym, ap, ◌∙◌, subst, Bool, true, false, Bool-cases, inl, inr, List, [], ◌∷◌, ◌++◌,
  ◌⊎◌, if◌then◌else◌, if_cases, keep, All,
}
use porla.Base.Comparison.{Order, less, equal, greater, reverse_order, IsComparison}
use porla.Base.Sorting.{insert_sorted, insertion_sort}

module _ {A : Type 0} where
  pub All-imp : {P Q : A → Type 0} (xs : List A) → ((x : A) → P x → Q x) → All P xs → All Q xs
  All-imp [] f h = tt
  All-imp (x ∷ xs) f h = (f x h.0, All-imp xs f h.1)

  pub All-keep : (P : A → Type 0) (p : A → Bool) (xs : List A) → All P xs → All P (keep p xs)
  All-keep P p [] h = tt
  All-keep P p (x ∷ xs) h =
      elim (p x) as (λ b. All P (elim b [ true ↦ x ∷ keep p xs | false ↦ keep p xs ])) [
        | true ↦ (h.0, All-keep P p xs h.1)
        | false ↦ All-keep P p xs h.1
      ]

  pub All-front : (P : A → Type 0) (xs ys : List A) → All P (xs ++ ys) → All P xs
  All-front P [] ys h = tt
  All-front P (x ∷ xs) ys h = (h.0, All-front P xs ys h.1)

  pub keep-taken :
      (p : A → Bool) (x : A) (xs : List A) → p x ≡ true → keep p (x ∷ xs) ≡ x ∷ keep p xs
  keep-taken p x xs h = rw (keep, h) refl

  pub keep-left : (p : A → Bool) (x : A) (xs : List A) → p x ≡ false → keep p (x ∷ xs) ≡ keep p xs
  keep-left p x xs h = rw (keep, h) refl

  pub All-keep_passed : (p : A → Bool) (xs : List A) → All (λ x. p x ≡ true) (keep p xs)
  All-keep_passed p [] = tt
  All-keep_passed p (x ∷ xs) = elim (Bool-cases (p x)) [
    | inl e ↦ subst (All (λ y. p y ≡ true)) (sym (keep-taken p x xs e)) (e, All-keep_passed p xs)
    | inr e ↦ subst (All (λ y. p y ≡ true)) (sym (keep-left p x xs e)) (All-keep_passed p xs)
  ]

  pub keep-all : (p : A → Bool) (xs : List A) → All (λ x. p x ≡ true) xs → keep p xs ≡ xs
  keep-all p [] h = refl
  keep-all p (x ∷ xs) h = keep-taken p x xs h.0 ∙ ap (λ t. x ∷ t) (keep-all p xs h.1)

  pub keep-keep :
      (p q : A → Bool) (xs : List A)
      → ((x : A) → q x ≡ true → p x ≡ true)
      → keep q (keep p xs) ≡ keep q xs
  keep-keep p q [] h = refl
  keep-keep p q (x ∷ xs) h = elim (Bool-cases (p x)) [
    | inl e ↦ ap (keep q) (keep-taken p x xs e) ∙ both (Bool-cases (q x)) (keep-keep p q xs h)
    | inr e ↦
        ap (keep q) (keep-left p x xs e)
        ∙ keep-keep p q xs h
        ∙ sym (keep-left q x xs (missed e (Bool-cases (q x))))
  ]
    where
      both :
          (q x ≡ true) ⊎ (q x ≡ false)
          → keep q (keep p xs) ≡ keep q xs
          → keep q (x ∷ keep p xs) ≡ keep q (x ∷ xs)
      both (inl e) r = keep-taken q x _ e ∙ ap (λ t. x ∷ t) r ∙ sym (keep-taken q x xs e)
      both (inr e) r = keep-left q x _ e ∙ r ∙ sym (keep-left q x xs e)

      missed : p x ≡ false → (q x ≡ true) ⊎ (q x ≡ false) → q x ≡ false
      missed e (inl f) = let t : true ≡ false = sym (h x f) ∙ e in absurd cc
      missed e (inr f) = f

module _ {A : Type 0} (cmp : A → A → Order) where
  abbrev pub Strict : List A → Type 0
  Strict [] = Unit
  Strict (x ∷ xs) = All (λ y. cmp x y ≡ less) xs × Strict xs

  -- No two of the elements compare equal.
  abbrev pub Distinct : List A → Type 0
  Distinct [] = Unit
  Distinct (x ∷ xs) = All (λ y. cmp x y ≢ equal) xs × Distinct xs

  pub Strict-front : (xs ys : List A) → Strict (xs ++ ys) → Strict xs
  Strict-front [] ys h = tt
  Strict-front (x ∷ xs) ys h = (All-front _ xs ys h.0, Strict-front xs ys h.1)

  pub Strict-keep : (p : A → Bool) (xs : List A) → Strict xs → Strict (keep p xs)
  Strict-keep p [] h = tt
  Strict-keep p (x ∷ xs) h =
      elim (p x) as (λ b. Strict (elim b [ true ↦ x ∷ keep p xs | false ↦ keep p xs ])) [
        | true ↦ (All-keep _ p xs h.0, Strict-keep p xs h.1)
        | false ↦ Strict-keep p xs h.1
      ]

  All-insert_sorted :
      (P : A → Type 0) (a : A) (xs : List A) → P a → All P xs → All P (insert_sorted cmp a xs)
  unfolding insert_sorted
  All-insert_sorted P a [] h k = (h, tt)
  All-insert_sorted P a (b ∷ xs) h k =
      elim (cmp a b)
        as (λ o. All P (elim o [ greater ↦ b ∷ insert_sorted cmp a xs | _ ↦ a ∷ b ∷ xs ])) [
          | greater ↦ (k.0, All-insert_sorted P a xs h k.1)
          | less ↦ (h, k)
          | equal ↦ (h, k)
        ]

  pub All-insertion_sort : (P : A → Type 0) (xs : List A) → All P xs → All P (insertion_sort cmp xs)
  unfolding insertion_sort
  All-insertion_sort P [] h = tt
  All-insertion_sort P (x ∷ xs) h =
      All-insert_sorted P x (insertion_sort cmp xs) h.0 (All-insertion_sort P xs h.1)

  insert_sorted-front :
      (a : A) (xs : List A) → All (λ y. cmp a y ≡ less) xs → insert_sorted cmp a xs ≡ a ∷ xs
  unfolding insert_sorted
  insert_sorted-front a [] h = refl
  insert_sorted-front a (b ∷ xs) h = rw (insert_sorted, h.0) refl

  insert_sorted-back :
      (a b : A) (xs : List A)
      → cmp a b ≡ greater
      → insert_sorted cmp a (b ∷ xs) ≡ b ∷ insert_sorted cmp a xs
  unfolding insert_sorted
  insert_sorted-back a b xs h = rw (insert_sorted, h) refl

  module _ (l : IsComparison cmp) where
    pub less_trans : (a b c : A) → cmp a b ≡ less → cmp b c ≡ less → cmp a c ≡ less
    less_trans a b c = (l.composes a b c).trans

    pub cmp_self : (a : A) → cmp a a ≡ equal
    cmp_self a = self (cmp a a) (l.flip a a)
      where
        self : (o : Order) → o ≡ reverse_order o → o ≡ equal
        self less e = absurd cc
        self equal e = refl
        self greater e = absurd cc

    below-all :
        (a b : A) (xs : List A)
        → cmp a b ≡ less
        → All (λ y. cmp b y ≡ less) xs
        → All (λ y. cmp a y ≡ less) (b ∷ xs)
    below-all a b xs h k = (h, All-imp xs (λ y. less_trans a b y h) k)

    -- An element stands before the first of the others, or it is put behind it.
    data Placed (a b : A) (xs : List A) : Type 0 where
      front : cmp a b ≡ less → Placed a b xs
      back : cmp b a ≡ less → cmp a b ≡ greater → Placed a b xs

    placed : (a b : A) (xs : List A) → cmp a b ≢ equal → Placed a b xs
    placed a b xs n = by_order (cmp a b) refl
      where
        by_order : (o : Order) → cmp a b ≡ o → Placed a b xs
        by_order less e = front e
        by_order equal e = absurd (n e)
        by_order greater e = back (l.flip a b ∙ ap reverse_order e) e

    insert_sorted-Strict :
        (a : A) (xs : List A)
        → All (λ y. cmp a y ≢ equal) xs
        → Strict xs
        → Strict (insert_sorted cmp a xs)
    insert_sorted-Strict a [] n h = unfold insert_sorted in (tt, tt)
    insert_sorted-Strict a (b ∷ xs) n h = elim (placed a b xs n.0) [
      | front e ↦
          let low = below-all a b xs e h.0 in rw (insert_sorted-front a (b ∷ xs) low) (low, h)
      | back e g ↦
          rw (insert_sorted-back a b xs g)
            (All-insert_sorted _ a xs e h.0, insert_sorted-Strict a xs n.1 h.1)
    ]

    pub insertion_sort-Strict : (xs : List A) → Distinct xs → Strict (insertion_sort cmp xs)
    unfolding insertion_sort
    insertion_sort-Strict [] h = tt
    insertion_sort-Strict (x ∷ xs) h =
        insert_sorted-Strict x (insertion_sort cmp xs) (All-insertion_sort _ xs h.0)
          (insertion_sort-Strict xs h.1)

    keep-insert_sorted :
        (p : A → Bool) (a : A) (xs : List A)
        → All (λ y. cmp a y ≢ equal) xs
        → Strict xs
        → keep p (insert_sorted cmp a xs)
          ≡ (if p a then insert_sorted cmp a (keep p xs) else keep p xs)
    keep-insert_sorted p a [] n h =
        if_cases (λ t. keep p (insert_sorted cmp a []) ≡ t) (p a)
          (λ e. alone ∙ keep-taken p a [] e ∙ sym alone') (λ e. alone ∙ keep-left p a [] e)
      where
        alone' : insert_sorted cmp a [] ≡ a ∷ []
        alone' = insert_sorted-front a [] tt

        alone : keep p (insert_sorted cmp a []) ≡ keep p (a ∷ [])
        alone = ap (keep p) alone'
    keep-insert_sorted p a (b ∷ xs) n h = elim (placed a b xs n.0) [
      | front e ↦
          let low = below-all a b xs e h.0 in
          ap (keep p) (insert_sorted-front a (b ∷ xs) low)
          ∙ if_cases (λ t. keep p (a ∷ b ∷ xs) ≡ t) (p a)
              (λ f.
                keep-taken p a (b ∷ xs) f
                ∙ sym (insert_sorted-front a (keep p (b ∷ xs)) (All-keep _ p (b ∷ xs) low)))
              (λ f. keep-left p a (b ∷ xs) f)
      | back e g ↦
          let rest = keep-insert_sorted p a xs n.1 h.1 in
          ap (keep p) (insert_sorted-back a b xs g)
          ∙ behind g rest (Bool-cases (p b)) (Bool-cases (p a))
    ]
      where
        behind :
            cmp a b ≡ greater
            → keep p (insert_sorted cmp a xs)
              ≡ (if p a then insert_sorted cmp a (keep p xs) else keep p xs)
            → (p b ≡ true) ⊎ (p b ≡ false)
            → (p a ≡ true) ⊎ (p a ≡ false)
            → keep p (b ∷ insert_sorted cmp a xs)
              ≡ (if p a then insert_sorted cmp a (keep p (b ∷ xs)) else keep p (b ∷ xs))
        behind g rest (inr f) q = keep-left p b _ f ∙ rest ∙ rw (keep-left p b xs f) refl
        behind g rest (inl f) (inl q) =
            keep-taken p b _ f
            ∙ ap (λ t. b ∷ t) (rest ∙ rw q refl)
            ∙ sym (insert_sorted-back a b (keep p xs) g)
            ∙ ap (insert_sorted cmp a) (sym (keep-taken p b xs f))
            ∙ rw q refl
        behind g rest (inl f) (inr q) =
            keep-taken p b _ f
            ∙ ap (λ t. b ∷ t) (rest ∙ rw q refl)
            ∙ sym (keep-taken p b xs f)
            ∙ rw q refl

    -- The order of sorting and selecting makes no difference.
    pub keep-insertion_sort :
        (p : A → Bool) (xs : List A)
        → Distinct xs
        → insertion_sort cmp (keep p xs) ≡ keep p (insertion_sort cmp xs)
    unfolding insertion_sort
    keep-insertion_sort p [] h = refl
    keep-insertion_sort p (x ∷ xs) h = sym (
        keep-insert_sorted p x (insertion_sort cmp xs) (All-insertion_sort _ xs h.0)
          (insertion_sort-Strict xs h.1)
        ∙ if_cases (λ t. t ≡ insertion_sort cmp (keep p (x ∷ xs))) (p x)
            (λ e.
              ap (insert_sorted cmp x) (sym (keep-insertion_sort p xs h.1))
              ∙ sym (ap (insertion_sort cmp) (keep-taken p x xs e)))
            (λ e.
              sym (keep-insertion_sort p xs h.1)
              ∙ sym (ap (insertion_sort cmp) (keep-left p x xs e))))
