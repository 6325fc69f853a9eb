-- ===== src/Examples/QueryRuns.antt =====
-- src/query/pql.cpp at concrete inputs.
use porla.Base.{
  ℕ, zero, suc, ◌+◌, ◌-◌, ◌*◌, ◌≡◌, ◌≤◌, ◌↔◌, refl, Bool, true, false, not, ◌&&◌, ◌||◌, List, [],
  ◌∷◌, ◌++◌, Option, none, some, arith, Bytes, codes, ◌==◌, leb, ltb, if◌then◌else◌, bytes_eq,
  starts_with, All, reverse,
}
use porla.Query.{
  ◌>>=◌, Span, Oper, Kind, Reason, Result, ok, fail, Value, list_of, relative_equal, expected_hex,
}
use porla.Query.Text.{quote, unescape, escape, unescape-escape, has_prefix}
use porla.Query.Glob.{glob_match}
use porla.Query.GlobProof.{Globs, Answers, glob_match-Answers}
use porla.Query.Depth.{Token, lparen, negation, other, rparen}
use porla.Query.Flags.{FlagSet, IsBitField, Asks, build_flags, passes_flags, build_flags-meaning}
use porla.Query.Interval.{
  Doubles, Interval, parse_scalar, exactly, numeric_interval, contains, is_eq,
}
use porla.Query.Meaning.{meaning, numeric_interval-meaning}
use porla.Query.Tree.{OrExpr, or_last, or_more, and_last, not_expr, leaf_expr, build}
use porla.Query.TreeProof.{Means, or_value, or_error, build-Means}

abbrev quoted_name : Bytes
quoted_name = codes "a" ++ quote ∷ codes "b"

unescape-escape_example : unescape (quote ∷ escape quoted_name ++ quote ∷ []) ≡ quoted_name
unescape-escape_example = unescape-escape quoted_name

has_prefix_found : has_prefix (171 ∷ 205 ∷ []) (codes "abc") ≡ true
unfolding has_prefix
has_prefix_found = refl

glob_match_found : glob_match (codes "u*tu*iso") (codes "Ubuntu-24.iso") ≡ some true
unfolding glob_match
glob_match_found = refl

glob_match-Answers_example :
    Answers
      (Globs (codes "u*tu*iso") (codes "Ubuntu-24.iso"))
      (glob_match (codes "u*tu*iso") (codes "Ubuntu-24.iso"))
glob_match-Answers_example = glob_match-Answers (codes "u*tu*iso") (codes "Ubuntu-24.iso")

-- Two flags: "paused", and one for all other names.
abbrev pub two_has : Bool × Bool → ℕ → Bool
two_has f zero = f.0
two_has f (suc zero) = f.1
two_has f (suc (suc i)) = false

abbrev pub same_bool : Bool → Bool → Bool
same_bool true b = b
same_bool false b = not b

same_bool_iff : (a b : Bool) → (same_bool a b ≡ true) ↔ (a ≡ b)
same_bool_iff true true = ((λ h. refl), λ h. refl)
same_bool_iff true false = ((λ h. absurd cc), λ h. absurd cc)
same_bool_iff false true = ((λ h. absurd cc), λ h. absurd cc)
same_bool_iff false false = ((λ h. refl), λ h. refl)

abbrev pub two_bit : Bytes → Bool × Bool
two_bit n = (bytes_eq n (codes "paused"), not (bytes_eq n (codes "paused")))

abbrev pub two_flags : FlagSet
two_flags = record {
  Flags = Bool × Bool;
  empty = (false, false);
  join = λ a b. (a.0 || b.0, a.1 || b.1);
  meet = λ a b. (a.0 && b.0, a.1 && b.1);
  same = λ a b. same_bool a.0 b.0 && same_bool a.1 b.1;
  any = λ a. a.0 || a.1;
  bit = two_bit;
}

abbrev two_index : Bytes → ℕ
two_index n = if bytes_eq n (codes "paused") then 0 else 1

two_empty : (i : ℕ) → two_has (false, false) i ≡ false
two_empty zero = refl
two_empty (suc zero) = refl
two_empty (suc (suc i)) = refl

two_join : (a b : Bool × Bool) (i : ℕ) → two_has (two_flags.join a b) i ≡ two_has a i || two_has b i
two_join a b zero = refl
two_join a b (suc zero) = refl
two_join a b (suc (suc i)) = refl

two_meet : (a b : Bool × Bool) (i : ℕ) → two_has (two_flags.meet a b) i ≡ two_has a i && two_has b i
two_meet a b zero = refl
two_meet a b (suc zero) = refl
two_meet a b (suc (suc i)) = refl

two_bit_has : (n : Bytes) (i : ℕ) → two_has (two_bit n) i ≡ (i == two_index n)
two_bit_has n zero = ground arith
two_bit_has n (suc zero) = ground arith
two_bit_has n (suc (suc i)) = ground arith

two_any : (a : Bool × Bool) → two_flags.any a ≡ false → (i : ℕ) → two_has a i ≡ false
two_any a h zero = ground arith
two_any a h (suc zero) = ground arith
two_any a h (suc (suc i)) = refl

two_same : (a b : Bool × Bool) → (two_flags.same a b ≡ true) ↔ ((i : ℕ) → two_has a i ≡ two_has b i)
two_same a b = (
  λ h i. agree h i,
  λ h. rw ((same_bool_iff a.0 b.0).1 (h 0), (same_bool_iff a.1 b.1).1 (h 1)) refl,
)
  where
    agree : two_flags.same a b ≡ true → (i : ℕ) → two_has a i ≡ two_has b i
    agree h zero = (same_bool_iff a.0 b.0).0 (ground arith)
    agree h (suc zero) = (same_bool_iff a.1 b.1).0 (ground arith)
    agree h (suc (suc i)) = refl

two_flags-IsBitField : IsBitField two_flags
two_flags-IsBitField = record {
  has = two_has;
  index = two_index;
  has-empty = two_empty;
  has-join = two_join;
  has-meet = two_meet;
  has-bit = two_bit_has;
  any-false = two_any;
  same_iff = two_same;
}

abbrev pub nowhere : Span
nowhere = record { start = 0; stop = 0 }

abbrev pub unquoted : Bytes → Value
unquoted s = record { text = s; quoted = false; span = nowhere }

build_flags-meaning_example :
    (passes_flags two_flags ((true, true), (true, false)) (true, false) ≡ true)
    ↔ All
        (Asks two_flags two_flags-IsBitField (true, false))
        (list_of (unquoted (codes "paused,~seed_mode")))
unfolding build_flags list_of porla.Text.Split.split_on porla.Query.Flags.is_known bytes_eq
    porla.Query.Flags.flag_name porla.Text.to_lower porla.Base.to_lower_byte
build_flags-meaning_example =
    build_flags-meaning two_flags two_flags-IsBitField nowhere
      (unquoted (codes "paused,~seed_mode")) (true, false) ((true, true), (true, false)) refl

-- Whole numbers from -10 ^ 6 to 10 ^ 6 for doubles, each with 10 ^ 6 added; the ends are the
-- infinities.
abbrev pub bias : ℕ
bias = 1000000

abbrev pub decimal : ℕ → Bytes → ℕ
decimal n [] = n
decimal n (c ∷ s) = decimal (n * 10 + (c - b'0')) s

abbrev pub whole_numbers : Doubles
whole_numbers = record {
  Double = ℕ;
  less = ltb;
  at_most = leb;
  plus = λ a b. a + b - bias;
  times = λ a b. (a - bias) * (b - bias) + bias;
  negate = λ a. 2 * bias - a;
  infinity = 2 * bias;
  of_ℕ = λ n. n + bias;
  stod = λ s. some (decimal 0 s + bias);
}

abbrev ten_kb : Interval whole_numbers
ten_kb = exactly whole_numbers (10000 + bias)

numeric_interval-meaning_example :
    (numeric_interval whole_numbers
        (λ t. none)
        Kind.size
        Oper.gt
        nowhere
        (unquoted (codes "10kb"))
        0
      >>= λ iv. ok (contains whole_numbers iv (12000 + bias) 7))
    ≡ (if ten_kb.lo_relative && is_eq whole_numbers (λ t. none) Oper.gt
        then fail relative_equal nowhere
        else ok (meaning whole_numbers (λ t. none) Oper.gt ten_kb (12000 + bias) 7))
unfolding parse_scalar exactly porla.Query.Interval.dots porla.Text.Split.find
    porla.Base.strip_prefix porla.Text.Split.prepend porla.Text.Split.at_start
    porla.Query.Number.number_prefix porla.Base.is_digit porla.Query.Number.unit_multiplier bytes_eq
    porla.Text.to_lower porla.Base.to_lower_byte porla.Query.Number.is_percent
numeric_interval-meaning_example =
    numeric_interval-meaning whole_numbers (λ t. none) Kind.size Oper.gt nowhere
      (unquoted (codes "10kb")) 0 ten_kb (refl, refl) refl refl (12000 + bias) 7 refl refl

-- "(" "!" word ")".
abbrev pub short_query : List Token
short_query =
    record { symbol = lparen; span = nowhere }
    ∷ record { symbol = negation; span = nowhere }
    ∷ record { symbol = other; span = nowhere }
    ∷ record { symbol = rparen; span = nowhere }
    ∷ []

-- Leaves that compare the torrent with a number; 9 cannot be built.
abbrev number_leaf : ℕ → Result (ℕ → Bool)
number_leaf n = if n == 9 then fail expected_hex nowhere else ok (λ x. x == n)

abbrev one_or_not_two : OrExpr ℕ
one_or_not_two = or_more (and_last (leaf_expr 1)) (or_last (and_last (not_expr (leaf_expr 2))))

build-Means_example :
    Means
      (or_value number_leaf one_or_not_two)
      (or_error number_leaf one_or_not_two)
      (build number_leaf one_or_not_two)
build-Means_example = build-Means number_leaf one_or_not_two
