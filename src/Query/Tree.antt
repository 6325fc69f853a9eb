-- ===== src/Query/Tree.antt =====
-- `All`, `Any`, `Not` and the `Build` functions of src/query/pql.cpp, over parse trees of the grammar
-- src/query/PqlParser.g4. `leaf` is the builder of a qualifier or of a free text.
use porla.Base.{◌≡◌, refl, Bool, not, List, [], ◌∷◌, arith, any_of, all_of}
use porla.Query.{Result, ok, ◌>>=◌}

-- `orExpr`, `andExpr` and `unary` with `primary`.
mutual
  pub data OrExpr (Leaf : Type 0) : Type 0 where
    or_last : AndExpr Leaf → OrExpr Leaf
    or_more : AndExpr Leaf → OrExpr Leaf → OrExpr Leaf

  pub data AndExpr (Leaf : Type 0) : Type 0 where
    and_last : Unary Leaf → AndExpr Leaf
    and_more : Unary Leaf → AndExpr Leaf → AndExpr Leaf

  pub data Unary (Leaf : Type 0) : Type 0 where
    not_expr : Unary Leaf → Unary Leaf
    group_expr : OrExpr Leaf → Unary Leaf
    leaf_expr : Leaf → Unary Leaf

module _ {Ctx : Type 0} where
  -- One filter is returned as it is.
  unfoldable pub all_filters : List (Ctx → Bool) → Ctx → Bool
  all_filters (f ∷ []) = f
  all_filters fs = λ ctx. all_of (λ f. f ctx) fs

  unfoldable pub any_filters : List (Ctx → Bool) → Ctx → Bool
  any_filters (f ∷ []) = f
  any_filters fs = λ ctx. any_of (λ f. f ctx) fs

  unfoldable pub not_filter : (Ctx → Bool) → Ctx → Bool
  not_filter inner ctx = not (inner ctx)

  unfoldable pub cons_filter :
      Result (Ctx → Bool) → Result (List (Ctx → Bool)) → Result (List (Ctx → Bool))
  cons_filter r rs = do f ← r; fs ← rs; ok (f ∷ fs)

  pub all_filters-all_of :
      (f : Ctx → Bool) (fs : List (Ctx → Bool)) (ctx : Ctx)
      → all_filters (f ∷ fs) ctx ≡ all_of (λ g. g ctx) (f ∷ fs)
  unfolding all_filters
  all_filters-all_of f [] ctx = ground arith
  all_filters-all_of f (g ∷ fs) ctx = refl

  pub any_filters-any_of :
      (f : Ctx → Bool) (fs : List (Ctx → Bool)) (ctx : Ctx)
      → any_filters (f ∷ fs) ctx ≡ any_of (λ g. g ctx) (f ∷ fs)
  unfolding any_filters
  any_filters-any_of f [] ctx = ground arith
  any_filters-any_of f (g ∷ fs) ctx = refl

module _ {Ctx Leaf : Type 0} (leaf : Leaf → Result (Ctx → Bool)) where
  unfoldable mutual
    pub build_or : OrExpr Leaf → Result (List (Ctx → Bool))
    build_or (or_last a) = cons_filter (build_and a >>= λ fs. ok (all_filters fs)) (ok [])
    build_or (or_more a o) = cons_filter (build_and a >>= λ fs. ok (all_filters fs)) (build_or o)

    pub build_and : AndExpr Leaf → Result (List (Ctx → Bool))
    build_and (and_last u) = cons_filter (build_unary u) (ok [])
    build_and (and_more u a) = cons_filter (build_unary u) (build_and a)

    pub build_unary : Unary Leaf → Result (Ctx → Bool)
    build_unary (not_expr u) = build_unary u >>= λ f. ok (not_filter f)
    build_unary (group_expr o) = build_or o >>= λ fs. ok (any_filters fs)
    build_unary (leaf_expr l) = leaf l

  -- `Build` of a whole query.
  unfoldable pub build : OrExpr Leaf → Result (Ctx → Bool)
  build o = build_or o >>= λ fs. ok (any_filters fs)
