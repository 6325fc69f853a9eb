-- ===== src/Query/Build.antt =====
-- The builders of filters in src/query/pql.cpp, for qualifiers and free texts, and `PQL::Parse`.
use porla.Base.{
  ℕ, Bool, true, false, not, ◌&&◌, ◌||◌, List, [], ◌∷◌, Option, none, some, Bytes, codes, ltb,
  if◌then◌else◌, any_of, bytes_eq, is_empty, is_some, length,
}
use porla.Text.{to_lower}
use porla.Query.{
  Span, Oper, Kind, Result, ok, fail, ◌>>=◌, Value, list_of, require_eq_or_none, is_unset,
  always_has_value, has_with_operator, unknown_name, expected_hex, unknown_state, unexpected_bool,
  use_true, too_long,
}
use porla.Query.Text.{
  Mode, matches, matchers_of, is_hex, looks_like_hash, hash_has_prefix, search_text,
}
use porla.Query.Interval.{Doubles, numeric_interval, contains}
use porla.Query.Flags.{FlagSet, build_flags, passes_flags}
use porla.Query.Fields.{StateSet, Context, Field, find_field, suggest_field}
use porla.Query.Tree.{OrExpr, any_filters, build}
use porla.Query.Depth.{Token, check_depth}

-- The map of `BuildBool`.
unfoldable pub find_bool : Bytes → Option Bool
find_bool val =
    if bytes_eq val (codes "true") || (bytes_eq val (codes "1") || bytes_eq val (codes "yes"))
    then some true
    else if bytes_eq val (codes "false") || (bytes_eq val (codes "0") || bytes_eq val (codes "no"))
    then some false
    else none

-- A loop that builds one thing for each item; the first error ends it.
unfoldable pub each {ℓ κ} : {A : Type ℓ} {B : Type κ} → (A → Result B) → List A → Result (List B)
each f [] = ok []
each f (a ∷ items) = do b ← f a; bs ← each f items; ok (b ∷ bs)

unfoldable pub hash_prefix : Span → Bytes → Result Bytes
hash_prefix span item =
    if ltb (length item) 4 || (ltb 64 (length item) || not (is_hex item))
    then fail expected_hex span
    else ok (to_lower item)

abbrev text_mode : Oper → Mode
text_mode Oper.eq = Mode.equals
text_mode _ = Mode.contains

abbrev same_bool : Option Bool → Bool → Bool
same_bool none v = false
same_bool (some true) v = v
same_bool (some false) v = not v

-- A qualifier, its field in lowercase and without the colon, or a free text.
pub data Leaf : Type 0 where
  qualifier : Bytes → Span → Oper → Span → Value → Leaf
  free_text : Value → Leaf

module _ (fp : Doubles) (fs : FlagSet) (ss : StateSet) where
  abbrev pub Filter : Type 0
  Filter = Context fp fs ss → Bool

  unfoldable pub find_state : Bytes → Option ss.State
  find_state lower =
      if bytes_eq lower (codes "checking_files")
      then some ss.checking_files
      else if bytes_eq lower (codes "downloading_metadata")
      then some ss.downloading_metadata
      else if bytes_eq lower (codes "downloading")
      then some ss.downloading
      else if bytes_eq lower (codes "finished")
      then some ss.finished
      else if bytes_eq lower (codes "seeding")
      then some ss.seeding
      else if bytes_eq lower (codes "checking_resume_data")
      then some ss.checking_resume_data
      else none

  unfoldable pub presence_of_kind : Kind → Field fp fs ss → Span → Result Filter
  presence_of_kind Kind.tag def span =
      ok (λ ctx. elim ctx.tags [ none ↦ false | some tags ↦ not (is_empty tags) ])
  presence_of_kind Kind.text def span =
      ok (λ ctx. elim (def.text ctx) [ none ↦ false | some text ↦ not (is_empty text) ])
  presence_of_kind Kind.bool def span = fail (use_true def.name) span
  presence_of_kind Kind.flags def span = fail (always_has_value def.name) span
  presence_of_kind Kind.hash def span = fail (always_has_value def.name) span
  presence_of_kind Kind.state def span = fail (always_has_value def.name) span
  presence_of_kind _ def span = ok (λ ctx. is_some (def.number ctx))

  -- `PresenceOf`, for the field of an item of `has:`, if there is one.
  unfoldable pub presence_of : List (Field fp fs ss) → Span → Bytes → Result Filter
  unfolding presence_of_kind
  presence_of fields span item = elim (find_field fp fs ss (to_lower item) fields) [
    | none ↦
        fail (unknown_name (to_lower item) (suggest_field fp fs ss (to_lower item) fields)) span
    | some def ↦ presence_of_kind def.kind def span
  ]

  unfoldable pub build_has : List (Field fp fs ss) → Oper → Span → Value → Result Filter
  unfolding each
  build_has fields oper oper_span v =
      if is_unset oper
      then (each (presence_of fields v.span) (list_of v) >>= λ checks. ok (any_filters checks))
      else fail has_with_operator oper_span

  unfoldable pub build_text : Field fp fs ss → Oper → Span → Value → Result Filter
  build_text def oper oper_span v = do
    ready ← require_eq_or_none oper oper_span
    ok (λ ctx. elim (def.text ctx) [
      | none ↦ false
      | some text ↦ any_of (λ m. matches m text) (matchers_of v (text_mode oper))
    ])

  unfoldable pub build_tag : Oper → Span → Value → Result Filter
  build_tag oper oper_span v = do
    ready ← require_eq_or_none oper oper_span
    ok (λ ctx. elim ctx.tags [
      | none ↦ false
      | some tags ↦ any_of (λ tag. any_of (λ m. matches m tag) (matchers_of v Mode.equals)) tags
    ])

  unfoldable pub build_hash : Oper → Span → Value → Result Filter
  unfolding each hash_prefix
  build_hash oper oper_span v = do
    ready ← require_eq_or_none oper oper_span
    prefixes ← each (hash_prefix v.span) (list_of v)
    ok (λ ctx. hash_has_prefix ctx.info_hashes prefixes)

  unfoldable pub parse_state : Span → Bytes → Result ss.State
  unfolding find_state
  parse_state span s = elim (find_state (to_lower s)) [
    | none ↦ fail (unknown_state s) span
    | some state ↦ ok state
  ]

  unfoldable pub build_state : Oper → Span → Value → Result Filter
  unfolding each parse_state
  build_state oper oper_span v = do
    ready ← require_eq_or_none oper oper_span
    states ← each (parse_state v.span) (list_of v)
    ok (λ ctx. any_of (λ s. ss.same_state ctx.state s) states)

  unfoldable pub build_bool : Field fp fs ss → Oper → Span → Value → Result Filter
  unfolding find_bool
  build_bool field oper oper_span v = do
    ready ← require_eq_or_none oper oper_span
    elim (find_bool (to_lower v.text)) [
      | none ↦ fail unexpected_bool v.span
      | some b ↦ ok (λ ctx. same_bool (field.boolean ctx) b)
    ]

  unfoldable pub build_free_text : Value → Filter
  build_free_text v ctx =
      let lower = to_lower v.text in
      let as_hash = not v.quoted && looks_like_hash lower in
      if search_text ctx.name lower
      then true
      else as_hash && hash_has_prefix ctx.info_hashes (lower ∷ [])

  module _ (parse_date : Bytes → Option (fp.Double × fp.Double)) (check_now : ℕ) where
    unfoldable pub build_numeric : Field fp fs ss → Oper → Span → Value → Result Filter
    build_numeric def oper oper_span v = do
      iv ← numeric_interval fp parse_date def.kind oper oper_span v check_now
      ok (λ ctx. elim (def.number ctx) [ none ↦ false | some x ↦ contains fp iv x ctx.now ])

    -- The `switch` on the kind of the field.
    unfoldable pub build_kind : Kind → Field fp fs ss → Oper → Span → Value → Result Filter
    unfolding build_text build_tag build_hash build_state build_bool build_numeric
    build_kind Kind.text def oper oper_span v = build_text def oper oper_span v
    build_kind Kind.tag def oper oper_span v = build_tag oper oper_span v
    build_kind Kind.hash def oper oper_span v = build_hash oper oper_span v
    build_kind Kind.state def oper oper_span v = build_state oper oper_span v
    build_kind Kind.bool def oper oper_span v = build_bool def oper oper_span v
    build_kind Kind.flags def oper oper_span v = do
      r ← build_flags fs oper oper_span v
      ok (λ ctx. passes_flags fs r ctx.flags)
    build_kind _ def oper oper_span v = build_numeric def oper oper_span v

    module _ (fields : List (Field fp fs ss)) where
      unfoldable pub build_qualifier : Bytes → Span → Oper → Span → Value → Result Filter
      unfolding build_has build_kind
      build_qualifier field span oper oper_span v =
          if bytes_eq field (codes "has")
          then build_has fields oper oper_span v
          else elim (find_field fp fs ss field fields) [
            | none ↦ fail (unknown_name field (suggest_field fp fs ss field fields)) span
            | some def ↦ build_kind def.kind def oper oper_span v
          ]

      unfoldable pub build_leaf : Leaf → Result Filter
      unfolding build_qualifier build_free_text
      build_leaf (qualifier field span oper oper_span v) =
          build_qualifier (to_lower field) span oper oper_span v
      build_leaf (free_text v) = ok (build_free_text v)

      abbrev pub max_query_length : ℕ
      max_query_length = 4096

      -- No tree is the query without an expression.
      unfoldable pub build_query : Option (OrExpr Leaf) → Result Filter
      build_query none = ok (λ ctx. true)
      build_query (some o) = build build_leaf o

      -- `PQL::Parse`, with the lexer and the parser that are generated.
      unfoldable pub parse :
          (Bytes → Result (List Token))
          → (List Token → Result (Option (OrExpr Leaf)))
          → Bytes
          → Result Filter
      unfolding build_query
      parse lexer parser input =
          if ltb max_query_length (length input)
          then fail too_long (record { start = max_query_length; stop = length input })
          else do
            tokens ← lexer input
            shallow ← check_depth tokens
            query ← parser tokens
            build_query query
