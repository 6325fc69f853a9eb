-- ===== src/Query/Parsing.antt =====
-- What `PQL::Parse` and `BuildHash` of src/query/pql.cpp let pass.
use porla.Base.{
  ℕ, ◌≡◌, ◌≤◌, ◌↔◌, ◌∙◌, refl, sym, subst, ap, ap₂, Bool, true, false, ◌&&◌, ◌||◌, List, [], ◌∷◌,
  Option, none, some, map, arith, Bytes, leb, ltb, if◌then◌else◌, any_of, all_of, length,
  Bool-cases, inl, inr, starts_with,
}
use porla.Text.{to_lower}
use porla.Query.{
  Span, Oper, Result, ok, fail, ◌>>=◌, Value, list_of, require_eq_or_none, expected_hex,
}
use porla.Query.Text.{
  check_part, InfoHash, is_hex, has_prefix, hash_has_prefix, to_hex, has_prefix-to_hex,
}
use porla.Query.Depth.{Token, check_depth}
use porla.Query.Shallow.{AreShallow, check_depth-AreShallow}
use porla.Query.Flags.{FlagSet}
use porla.Query.Interval.{Doubles}
use porla.Query.Fields.{StateSet, Context, Field}
use porla.Query.Tree.{OrExpr}
use porla.Query.Build.{Leaf, Filter, each, hash_prefix, build_hash, build_query, parse}

-- 4 to 64 hexadecimal digits.
abbrev pub is_hash_prefix : Bytes → Bool
is_hash_prefix item = leb 4 (length item) && (leb (length item) 64 && is_hex item)

-- One of the items begins the digits of a part of the hash.
abbrev pub begins_part : List Bytes → Option Bytes → Bool
begins_part items none = false
begins_part items (some h) = any_of (λ item. starts_with (to_lower item) (to_hex h)) items

hash_prefix_lem :
    (span : Span) (item : Bytes)
    → hash_prefix span item
      ≡ (if is_hash_prefix item then ok (to_lower item) else fail expected_hex span)
unfolding hash_prefix
hash_prefix_lem span item = ground arith

each-hash_prefix :
    (span : Span) (items : List Bytes)
    → each (hash_prefix span) items
      ≡ (if all_of is_hash_prefix items then ok (map to_lower items) else fail expected_hex span)
unfolding each
each-hash_prefix span [] = refl
each-hash_prefix span (item ∷ items) =
    rw (hash_prefix_lem span item, each-hash_prefix span items)
      (both (is_hash_prefix item) (all_of is_hash_prefix items))
  where
    both :
        (a b : Bool)
        → ((if a then ok (to_lower item) else fail expected_hex span) >>= λ p.
            (if b then ok (map to_lower items) else fail expected_hex span) >>= λ ps. ok (p ∷ ps))
          ≡ (if a && b then ok (to_lower item ∷ map to_lower items) else fail expected_hex span)
    both true true = refl
    both true false = refl
    both false b = refl

any_of-has_prefix :
    (h : Bytes) (items : List Bytes)
    → any_of (has_prefix h) (map to_lower items) ≡ begins_part items (some h)
any_of-has_prefix h [] = refl
any_of-has_prefix h (item ∷ items) =
    rw (has_prefix-to_hex h (to_lower item), any_of-has_prefix h items) refl

check_part-begins_part :
    (items : List Bytes) (part : Option Bytes)
    → check_part (map to_lower items) part ≡ begins_part items part
check_part-begins_part items none = refl
check_part-begins_part items (some h) = any_of-has_prefix h items

hash_has_prefix-begins_part :
    (ih : InfoHash) (items : List Bytes)
    → hash_has_prefix ih (map to_lower items) ≡ begins_part items ih.v1 || begins_part items ih.v2
unfolding hash_has_prefix
hash_has_prefix-begins_part ih items =
    ap₂ (λ a b. a || b) (check_part-begins_part items ih.v1) (check_part-begins_part items ih.v2)

module _ {A : Type 0} (rest : List Token → Result A) (f : A) where
  -- What follows a depth check whose result is known.
  checked_iff :
      (tokens : List Token) (c : Result (Unit {0}))
      → check_depth tokens ≡ c
      → ((c >>= λ u. rest tokens) ≡ ok f) ↔ (AreShallow tokens × (rest tokens ≡ ok f))
  checked_iff tokens (ok tt) e = (λ h. ((check_depth-AreShallow tokens).0 e, h), λ (a, h). h)
  checked_iff tokens (fail r s) e = (
    λ h. absurd cc,
    λ (a, h). let t : fail r s ≡ ok tt = sym e ∙ (check_depth-AreShallow tokens).1 a in absurd cc,
  )

  lexed_iff :
      (r : Result (List Token))
      → ((r >>= λ tokens. check_depth tokens >>= λ u. rest tokens) ≡ ok f)
        ↔ ((tokens : List Token) × (r ≡ ok tokens) × AreShallow tokens × (rest tokens ≡ ok f))
  lexed_iff (ok tokens) =
      let (g, k) = checked_iff tokens (check_depth tokens) refl in
      (
        λ h. (tokens, refl, (g h).0, (g h).1),
        λ (ts, e, a, h).
            let same : tokens ≡ ts = ground (arith, e) in
            k (subst AreShallow (sym same) a, ap rest same ∙ h),
      )
  lexed_iff (fail r s) = (λ h. absurd cc, λ (ts, e, a, h). absurd cc)

module _ (fp : Doubles) (fs : FlagSet) (ss : StateSet) where
  -- `BuildHash` fails for an operator other than "=" and for an item that is not 4 to 64 hexadecimal
  -- digits; else its filter passes the torrents of which a v1 or v2 hash, written in lowercase
  -- digits, begins with one of the items in lowercase.
  pub build_hash_lem :
      (oper : Oper) (oper_span : Span) (v : Value) (ctx : Context fp fs ss)
      → (build_hash fp fs ss oper oper_span v >>= λ f. ok (f ctx)) ≡ (
          require_eq_or_none oper oper_span >>= λ u.
          if all_of is_hash_prefix (list_of v)
          then ok (
              begins_part (list_of v) ctx.info_hashes.v1
              || begins_part (list_of v) ctx.info_hashes.v2)
          else fail expected_hex v.span)
  unfolding build_hash
  build_hash_lem oper oper_span v ctx =
      rw (each-hash_prefix v.span (list_of v))
        (begun (require_eq_or_none oper oper_span) (all_of is_hash_prefix (list_of v)))
    where
      begun :
          (r : Result (Unit {0})) (valid : Bool)
          → ◌>>=◌ {A = Filter fp fs ss}
              (r >>= λ u.
                (if valid then ok (map to_lower (list_of v)) else fail expected_hex v.span)
                >>= λ prefixes. ok (λ c. hash_has_prefix c.info_hashes prefixes))
              (λ f. ok (f ctx))
            ≡ (r >>= λ u.
                if valid
                then ok (
                    begins_part (list_of v) ctx.info_hashes.v1
                    || begins_part (list_of v) ctx.info_hashes.v2)
                else fail expected_hex v.span)
      begun (ok u) true = ap ok (hash_has_prefix-begins_part ctx.info_hashes (list_of v))
      begun (ok u) false = refl
      begun (fail r s) valid = refl

  -- A query is parsed to a filter exactly if it has at most 4096 bytes, it has tokens of which no
  -- beginning has more than 64 opening parentheses more than closing ones and no more than 64 negations
  -- stand in a row, and the tokens have a parse tree that builds this filter.
  pub parse_iff :
      (parse_date : Bytes → Option (fp.Double × fp.Double)) (check_now : ℕ)
      (fields : List (Field fp fs ss)) (lexer : Bytes → Result (List Token))
      (parser : List Token → Result (Option (OrExpr Leaf))) (input : Bytes) (f : Filter fp fs ss)
      → (parse fp fs ss parse_date check_now fields lexer parser input ≡ ok f) ↔ (
          (length input ≤ 4096)
          × (tokens : List Token) × (lexer input ≡ ok tokens)
          × AreShallow tokens
          × ((parser tokens >>= build_query fp fs ss parse_date check_now fields) ≡ ok f))
  unfolding parse
  parse_iff parse_date check_now fields lexer parser input f =
      elim (Bool-cases (ltb 4096 (length input))) [
        | inl long ↦
            rw long ((λ h. absurd cc), λ (h, ts, e, a, q). absurd (ground (arith, long, h)))
        | inr short ↦
            let (g, k) =
              lexed_iff
                (λ tokens. parser tokens >>= build_query fp fs ss parse_date check_now fields) f
                (lexer input) in
            rw short (
              (λ h. let (ts, e, a, q) = g h in (ground (arith, short), ts, e, a, q)),
              λ (h, ts, e, a, q). k (ts, e, a, q),
            )
      ]
