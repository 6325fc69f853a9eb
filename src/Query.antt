-- ===== src/Query.antt =====
-- src/query/pql.cpp: the query language of the torrent list. This file has its errors, its values and
-- the fields that a query may name; the children translate the parts of the file.
pub mod Text
pub mod Glob
pub mod GlobProof
pub mod Depth
pub mod Shallow
pub mod Flags
pub mod Number
pub mod Interval
pub mod Meaning
pub mod Fields
pub mod Build
pub mod Parsing
pub mod Matching
pub mod Suggesting
pub mod Tree
pub mod TreeProof
use porla.Base.{
  ℕ, Bool, true, false, Bytes, List, [], ◌∷◌, Option, none, some, if◌then◌else◌, ltb, ◌≡◌, ap,
}
use porla.Text.{to_lower}
use porla.Text.Split.{split_on}
use porla.Text.Levenshtein.{levenshtein}

pub record Span : Type 0 where
  pub start : ℕ
  pub stop : ℕ

pub data Oper : Type 0 where
  unset eq gt gte lt lte : Oper

-- `Fields::Kind`.
pub data Kind : Type 0 where
  text tag hash size rate duration number percent date state bool flags : Kind

-- The messages of `Fail`, with the names that they quote.
pub data Reason : Type 0 where
  nested_too_deeply has_with_operator lists_unsupported globs_unsupported : Reason
  range_with_operator range_reversed relative_equal expected_hex unexpected_bool : Reason
  expected_date did_you_mean_ago out_of_range expected_percentage too_long : Reason
  always_has_value use_true unknown_state repeated_flag unknown_unit : Bytes → Reason
  invalid_operator : Oper → Reason
  expected_value : Kind → Reason
  unknown_name : Bytes → Option Bytes → Reason

-- A `QueryError` carries its span.
pub data Result {ℓ} (A : Type ℓ) : Type ℓ where
  ok : A → Result A
  fail : Reason → Span → Result A

infixl 5 ◌>>=◌
abbrev pub ◌>>=◌ {ℓ κ} : {A : Type ℓ} {B : Type κ} → Result A → (A → Result B) → Result B
ok a >>= f = f a
fail r s >>= f = fail r s

pub ok-injective {ℓ} : {A : Type ℓ} (a b : A) → ok a ≡ ok b → a ≡ b
ok-injective {A} a b e = ap value e
  where
    value : Result A → A
    value (ok x) = x
    value (fail r s) = a

-- `Value`: text that was unquoted and unescaped.
pub record Value : Type 0 where
  pub text : Bytes
  pub quoted : Bool
  pub span : Span

-- A quoted value is literal; any other is split at commas.
unfoldable pub list_of : Value → List Bytes
list_of v = if v.quoted then v.text ∷ [] else split_on b',' v.text

unfoldable pub is_unset : Oper → Bool
is_unset Oper.unset = true
is_unset _ = false

-- `RequireEqOrNone`.
unfoldable pub require_eq_or_none : Oper → Span → Result (Unit {0})
require_eq_or_none Oper.unset s = ok tt
require_eq_or_none Oper.eq s = ok tt
require_eq_or_none o s = fail (invalid_operator o) s

-- The name nearest to `name`, among those at a distance below `best_distance`; the first of equals.
unfoldable pub nearest : Bytes → List Bytes → Option Bytes → ℕ → Option Bytes
nearest name [] best best_distance = best
nearest name (c ∷ candidates) best best_distance =
    let d = levenshtein name c in
    nearest name candidates (if ltb d best_distance then some c else best)
      (if ltb d best_distance then d else best_distance)

-- `Suggest`, and the same loop in `BuildFlags`.
unfoldable pub suggest : Bytes → List Bytes → Option Bytes
suggest name candidates = nearest name candidates none 3
