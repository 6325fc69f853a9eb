-- ===== src/Query/Interval.antt =====
-- `Interval`, `ParseScalar` and `BuildNumeric` of src/query/pql.cpp.
use porla.Base.{
  ℕ, Bool, true, false, not, ◌&&◌, [], ◌∷◌, Option, none, some, Bytes, codes, ◌==◌, if◌then◌else◌,
  any_of, take, drop,
}
use porla.Text.{to_lower}
use porla.Text.Split.{find}
use porla.Query.{
  is_unset, Span, Oper, Kind, Result, ok, fail, ◌>>=◌, Value, lists_unsupported, globs_unsupported,
  range_with_operator, range_reversed, relative_equal, expected_date, did_you_mean_ago,
  out_of_range, expected_percentage, unknown_unit, expected_value,
}
use porla.Query.Number.{unit_multiplier, number_prefix, is_duration_with_unit, is_percent}

-- `double`, `std::stod`, and `ParseDate`, which asks `std::mktime` for the local time zone.
pub record Doubles : Type 1 where
  pub Double : Type 0
  pub less : Double → Double → Bool
  pub at_most : Double → Double → Bool
  pub plus : Double → Double → Double
  pub times : Double → Double → Double
  pub negate : Double → Double
  pub infinity : Double
  pub of_ℕ : ℕ → Double
  pub stod : Bytes → Option Double

module _ (fp : Doubles) where
  open fp use {Double, less, at_most, plus, times, negate, infinity, of_ℕ, stod}

  pub record Interval : Type 0 where
    pub lo : Double
    pub hi : Double
    pub lo_relative : Bool
    pub hi_relative : Bool
    pub lo_open : Bool
    pub hi_open : Bool

  unfoldable pub exactly : Double → Interval
  exactly v = record {
    lo = v;
    hi = v;
    lo_relative = false;
    hi_relative = false;
    lo_open = false;
    hi_open = false;
  }

  -- `Lo`, `Hi` and `Contains`, at the time `now`.
  unfoldable pub low_end : Interval → ℕ → Double
  low_end iv now = if iv.lo_relative then plus (of_ℕ now) iv.lo else iv.lo

  unfoldable pub high_end : Interval → ℕ → Double
  high_end iv now = if iv.hi_relative then plus (of_ℕ now) iv.hi else iv.hi

  unfoldable pub contains : Interval → Double → ℕ → Bool
  unfolding low_end high_end
  contains iv v now =
      let l = low_end iv now in
      let h = high_end iv now in
      (if iv.lo_open then less l v else at_most l v)
      && (if iv.hi_open then less v h else at_most v h)

  -- `ParseScalar` at a kind other than `Date`, behind the length `i` of the number.
  unfoldable pub scale : Kind → Bytes → ℕ → Span → Result Interval
  unfolding exactly
  scale kind text i span = elim (stod (take i text)) [
    | none ↦ fail out_of_range span
    | some number ↦
        let unit = to_lower (drop i text) in
        elim (unit_multiplier kind unit) [
          | none ↦ fail (unknown_unit unit) span
          | some factor ↦
              if is_percent kind && less (of_ℕ 100) number
              then fail expected_percentage span
              else ok (exactly (times number (of_ℕ factor)))
        ]
  ]

  unfoldable pub parse_amount : Kind → Bytes → Span → Result Interval
  unfolding scale
  parse_amount kind text span =
      let i = number_prefix text in
      if i == 0 then fail (expected_value kind) span else scale kind text i span

  module _ (parse_date : Bytes → Option (Double × Double)) where
    unfoldable pub ago : Interval → Interval
    ago amount = record {
      lo = negate amount.lo;
      hi = negate amount.hi;
      lo_relative = true;
      hi_relative = true;
      lo_open = false;
      hi_open = false;
    }

    -- The `Date` branch of `ParseScalar`, for a text that does not begin with "-".
    unfoldable pub parse_day : Bytes → Span → Result Interval
    parse_day text span = elim (parse_date text) [
      | some (first, last) ↦ ok (record (exactly first) { hi = last })
      | none ↦
          if is_duration_with_unit text then fail did_you_mean_ago span else fail expected_date span
    ]

    unfoldable pub parse_moment : Bytes → Span → Result Interval
    unfolding ago parse_day
    parse_moment [] span = parse_day [] span
    parse_moment (c ∷ text) span =
        if c == b'-'
        then (do amount ← parse_amount Kind.duration text span; ok (ago amount))
        else parse_day (c ∷ text) span

    unfoldable pub parse_scalar : Kind → Bytes → Span → Result Interval
    unfolding parse_moment parse_amount
    parse_scalar Kind.date text span = parse_moment text span
    parse_scalar kind text span = parse_amount kind text span

    -- The `switch` on the operator.
    unfoldable pub with_oper : Oper → Interval → Interval
    unfolding exactly
    with_oper Oper.unset s =
        if s.lo_relative then record (exactly infinity) { lo = s.lo; lo_relative = true } else s
    with_oper Oper.eq s = s
    with_oper Oper.gt s = record (exactly infinity) {
      lo = s.hi;
      lo_relative = s.lo_relative;
      lo_open = true;
    }
    with_oper Oper.gte s = record (exactly infinity) { lo = s.lo; lo_relative = s.lo_relative }
    with_oper Oper.lt s = record (exactly (negate infinity)) {
      hi = s.lo;
      hi_relative = s.lo_relative;
      hi_open = true;
    }
    with_oper Oper.lte s = record (exactly (negate infinity)) {
      hi = s.hi;
      hi_relative = s.lo_relative;
    }

    unfoldable pub is_eq : Oper → Bool
    is_eq Oper.eq = true
    is_eq _ = false

    unfoldable pub point_interval : Oper → Span → Interval → Result Interval
    unfolding is_eq with_oper
    point_interval oper oper_span s =
        if s.lo_relative && is_eq oper then fail relative_equal oper_span else ok (with_oper oper s)

    unfoldable pub range_interval : Interval → Interval → ℕ → Span → Result Interval
    unfolding low_end high_end exactly
    range_interval a b check_now span =
        if less (high_end b check_now) (low_end a check_now)
        then fail range_reversed span
        else ok (record {
          lo = a.lo;
          hi = b.hi;
          lo_relative = a.lo_relative;
          hi_relative = b.hi_relative;
          lo_open = false;
          hi_open = false;
        })

    unfoldable pub dots : Value → Option (Bytes × Bytes)
    dots v = if v.quoted then none else find (codes "..") v.text

    unfoldable pub parse_range : Kind → Oper → Span → Value → ℕ → Bytes → Bytes → Result Interval
    unfolding is_unset range_interval parse_scalar
    parse_range kind oper oper_span v check_now before after =
        if not (is_unset oper) then fail range_with_operator v.span else do
          a ← parse_scalar kind before v.span
          b ← parse_scalar kind after v.span
          range_interval a b check_now v.span

    -- The parts of `BuildNumeric` behind the tests for lists and globs.
    unfoldable pub parse_interval : Kind → Oper → Span → Value → ℕ → Result Interval
    unfolding dots parse_range point_interval parse_scalar
    parse_interval kind oper oper_span v check_now = elim (dots v) [
      | some (before, after) ↦ parse_range kind oper oper_span v check_now before after
      | none ↦ do s ← parse_scalar kind v.text v.span; point_interval oper oper_span s
    ]

    unfoldable pub numeric_interval : Kind → Oper → Span → Value → ℕ → Result Interval
    unfolding parse_interval
    numeric_interval kind oper oper_span v check_now =
        if not v.quoted && any_of (λ c. c == b',') v.text
        then fail lists_unsupported v.span
        else if not v.quoted && any_of (λ c. c == b'*') v.text
        then fail globs_unsupported v.span
        else parse_interval kind oper oper_span v check_now
