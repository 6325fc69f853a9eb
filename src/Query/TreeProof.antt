-- ===== src/Query/TreeProof.antt =====
-- What the `Build` functions of src/query/pql.cpp make of a parse tree.
use porla.Base.{
  ◌≡◌, refl, sym, ap, ap₂, ◌∙◌, Bool, false, not, ◌&&◌, ◌||◌, List, [], ◌∷◌, Option, none, some,
}
use porla.Query.{Span, Reason, Result, ok, fail, ◌>>=◌}
use porla.Query.Tree.{
  OrExpr, AndExpr, Unary, or_last, or_more, and_last, and_more, not_expr, group_expr, leaf_expr,
  all_filters, any_filters, not_filter, cons_filter, build_or, build_and, build_unary, build,
  all_filters-all_of, any_filters-any_of,
}

-- The error of the first leaf, from left to right, that cannot be built.
abbrev pub Failure : Type 0
Failure = Option (Reason × Span)

abbrev first : Failure → Failure → Failure
first none e = e
first (some x) e = some x

module _ {Ctx : Type 0} where
  leaf_value : Result (Ctx → Bool) → Ctx → Bool
  leaf_value (ok f) ctx = f ctx
  leaf_value (fail r s) ctx = false

  leaf_error : Result (Ctx → Bool) → Failure
  leaf_error (ok f) = none
  leaf_error (fail r s) = some (r, s)

  -- A filter with the value `v`, if there is no error; the error, if there is one.
  abbrev pub Means : (Ctx → Bool) → Failure → Result (Ctx → Bool) → Type 0
  Means v none (ok f) = (ctx : Ctx) → f ctx ≡ v ctx
  Means v none (fail r s) = ⊥
  Means v (some e) (ok f) = ⊥
  Means v (some e) (fail r s) = e ≡ (r, s)

  Means-leaf : (r : Result (Ctx → Bool)) → Means (leaf_value r) (leaf_error r) r
  unfolding leaf_value leaf_error
  Means-leaf (ok f) = λ ctx. refl
  Means-leaf (fail r s) = refl

  Means-not :
      (v : Ctx → Bool) (e : Failure) (r : Result (Ctx → Bool))
      → Means v e r
      → Means (λ ctx. not (v ctx)) e (r >>= λ f. ok (not_filter f))
  unfolding not_filter
  Means-not v none (ok f) m = λ ctx. ap not (m ctx)
  Means-not v none (fail r s) m = m
  Means-not v (some e) (ok f) m = m
  Means-not v (some e) (fail r s) m = m

  -- A chain: `fold` joins the values of its filters, of which there is at least one.
  module _ (fold : List (Ctx → Bool) → Ctx → Bool) (join : Bool → Bool → Bool) where
    abbrev MeansList : (Ctx → Bool) → Failure → Result (List (Ctx → Bool)) → Type 0
    MeansList v none (ok []) = ⊥
    MeansList v none (ok (f ∷ fs)) = (ctx : Ctx) → fold (f ∷ fs) ctx ≡ v ctx
    MeansList v none (fail r s) = ⊥
    MeansList v (some e) (ok fs) = ⊥
    MeansList v (some e) (fail r s) = e ≡ (r, s)

    Means-fold :
        (v : Ctx → Bool) (e : Failure) (r : Result (List (Ctx → Bool)))
        → MeansList v e r
        → Means v e (r >>= λ fs. ok (fold fs))
    Means-fold v none (ok []) m = absurd m
    Means-fold v none (ok (f ∷ fs)) m = m
    Means-fold v none (fail r s) m = m
    Means-fold v (some e) (ok fs) m = m
    Means-fold v (some e) (fail r s) m = m

    module _ (one : (f : Ctx → Bool) (ctx : Ctx) → fold (f ∷ []) ctx ≡ f ctx)
        (more : (f g : Ctx → Bool) (fs : List (Ctx → Bool)) (ctx : Ctx)
          → fold (f ∷ g ∷ fs) ctx ≡ join (f ctx) (fold (g ∷ fs) ctx)) where
      MeansList-last :
          (v : Ctx → Bool) (e : Failure) (r : Result (Ctx → Bool))
          → Means v e r
          → MeansList v e (cons_filter r (ok []))
      unfolding cons_filter
      MeansList-last v none (ok f) m = λ ctx. one f ctx ∙ m ctx
      MeansList-last v none (fail r s) m = m
      MeansList-last v (some e) (ok f) m = m
      MeansList-last v (some e) (fail r s) m = m

      MeansList-more :
          (v w : Ctx → Bool) (d e : Failure) (r : Result (Ctx → Bool))
          (rs : Result (List (Ctx → Bool)))
          → Means v d r
          → MeansList w e rs
          → MeansList (λ ctx. join (v ctx) (w ctx)) (first d e) (cons_filter r rs)
      unfolding cons_filter
      MeansList-more v w none none (ok f) (ok []) m n = absurd n
      MeansList-more v w none none (ok f) (ok (g ∷ fs)) m n =
          λ ctx. more f g fs ctx ∙ ap₂ join (m ctx) (n ctx)
      MeansList-more v w none none (ok f) (fail r s) m n = n
      MeansList-more v w none (some e) (ok f) (ok fs) m n = n
      MeansList-more v w none (some e) (ok f) (fail r s) m n = n
      MeansList-more v w none e (fail r s) rs m n = absurd m
      MeansList-more v w (some d) e (ok f) rs m n = absurd m
      MeansList-more v w (some d) e (fail r s) rs m n = m

any_one : {Ctx : Type 0} (f : Ctx → Bool) (ctx : Ctx) → any_filters (f ∷ []) ctx ≡ f ctx
unfolding any_filters
any_one f ctx = refl

any_more :
    {Ctx : Type 0} (f g : Ctx → Bool) (fs : List (Ctx → Bool)) (ctx : Ctx)
    → any_filters (f ∷ g ∷ fs) ctx ≡ f ctx || any_filters (g ∷ fs) ctx
any_more f g fs ctx =
    any_filters-any_of f (g ∷ fs) ctx ∙ ap (λ b. f ctx || b) (sym (any_filters-any_of g fs ctx))

all_one : {Ctx : Type 0} (f : Ctx → Bool) (ctx : Ctx) → all_filters (f ∷ []) ctx ≡ f ctx
unfolding all_filters
all_one f ctx = refl

all_more :
    {Ctx : Type 0} (f g : Ctx → Bool) (fs : List (Ctx → Bool)) (ctx : Ctx)
    → all_filters (f ∷ g ∷ fs) ctx ≡ f ctx && all_filters (g ∷ fs) ctx
all_more f g fs ctx =
    all_filters-all_of f (g ∷ fs) ctx ∙ ap (λ b. f ctx && b) (sym (all_filters-all_of g fs ctx))

module _ {Ctx Leaf : Type 0} (leaf : Leaf → Result (Ctx → Bool)) where
  -- The Boolean that a query denotes.
  mutual
    pub or_value : OrExpr Leaf → Ctx → Bool
    or_value (or_last a) ctx = and_value a ctx
    or_value (or_more a o) ctx = and_value a ctx || or_value o ctx

    pub and_value : AndExpr Leaf → Ctx → Bool
    and_value (and_last u) ctx = unary_value u ctx
    and_value (and_more u a) ctx = unary_value u ctx && and_value a ctx

    pub unary_value : Unary Leaf → Ctx → Bool
    unary_value (not_expr u) ctx = not (unary_value u ctx)
    unary_value (group_expr o) ctx = or_value o ctx
    unary_value (leaf_expr l) ctx = leaf_value (leaf l) ctx

  -- The error of its first leaf that cannot be built.
  mutual
    pub or_error : OrExpr Leaf → Failure
    or_error (or_last a) = and_error a
    or_error (or_more a o) = first (and_error a) (or_error o)

    pub and_error : AndExpr Leaf → Failure
    and_error (and_last u) = unary_error u
    and_error (and_more u a) = first (unary_error u) (and_error a)

    pub unary_error : Unary Leaf → Failure
    unary_error (not_expr u) = unary_error u
    unary_error (group_expr o) = or_error o
    unary_error (leaf_expr l) = leaf_error (leaf l)

  abbrev OrMeans : (Ctx → Bool) → Failure → Result (List (Ctx → Bool)) → Type 0
  OrMeans = MeansList any_filters ◌||◌

  abbrev AndMeans : (Ctx → Bool) → Failure → Result (List (Ctx → Bool)) → Type 0
  AndMeans = MeansList all_filters ◌&&◌

  mutual
    unfolding build_or build_and build_unary or_value and_value unary_value or_error and_error
        unary_error

    or-Means : (o : OrExpr Leaf) → OrMeans (or_value o) (or_error o) (build_or leaf o)
    or-Means (or_last a) =
        MeansList-last any_filters ◌||◌ any_one any_more _ (and_error a) _
          (Means-fold all_filters ◌&&◌ _ (and_error a) (build_and leaf a) (and-Means a))
    or-Means (or_more a o) =
        MeansList-more any_filters ◌||◌ any_one any_more _ _ (and_error a) (or_error o) _
          (build_or leaf o)
          (Means-fold all_filters ◌&&◌ _ (and_error a) (build_and leaf a) (and-Means a))
          (or-Means o)

    and-Means : (a : AndExpr Leaf) → AndMeans (and_value a) (and_error a) (build_and leaf a)
    and-Means (and_last u) =
        MeansList-last all_filters ◌&&◌ all_one all_more _ (unary_error u) (build_unary leaf u)
          (unary-Means u)
    and-Means (and_more u a) =
        MeansList-more all_filters ◌&&◌ all_one all_more _ _ (unary_error u) (and_error a)
          (build_unary leaf u) (build_and leaf a) (unary-Means u) (and-Means a)

    unary-Means : (u : Unary Leaf) → Means (unary_value u) (unary_error u) (build_unary leaf u)
    unary-Means (not_expr u) = Means-not _ (unary_error u) (build_unary leaf u) (unary-Means u)
    unary-Means (group_expr o) =
        Means-fold any_filters ◌||◌ _ (or_error o) (build_or leaf o) (or-Means o)
    unary-Means (leaf_expr l) = Means-leaf (leaf l)

  -- If each leaf of a query can be built, `Build` gives a filter with the Boolean value of the query;
  -- if not, it fails with the error of the first leaf that cannot.
  pub build-Means : (o : OrExpr Leaf) → Means (or_value o) (or_error o) (build leaf o)
  unfolding build
  build-Means o = Means-fold any_filters ◌||◌ _ (or_error o) (build_or leaf o) (or-Means o)
