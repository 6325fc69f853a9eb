-- ===== src/Query/Meaning.antt =====
-- What the filter of a numeric field in src/query/pql.cpp means.
use porla.Base.{
  refl, ap, Bool-cases, inl, inr, if◌then◌else◌, ℕ, ◌≡◌, Bool, true, false, not, ◌&&◌, [], ◌∷◌,
  Option, none, arith, Bytes, ◌==◌, if◌then◌else◌, any_of,
}
use porla.Query.{◌>>=◌, Span, Oper, Kind, ok, fail, Value, relative_equal}
use porla.Query.Interval.{
  Doubles, Interval, low_end, high_end, contains, exactly, parse_amount, parse_moment, parse_scalar,
  with_oper, is_eq, point_interval, dots, parse_interval, numeric_interval,
}

module _ (fp : Doubles) (parse_date : Bytes → Option (fp.Double × fp.Double)) where
  open fp use {Double, less, at_most, plus, times, negate, infinity, of_ℕ, stod}

  -- What the operators mean for a value `x`, a scalar `s` and the time `now`.
  abbrev pub meaning : Oper → Interval fp → Double → ℕ → Bool
  meaning Oper.unset s x now =
      if s.lo_relative
      then at_most (low_end fp s now) x
      else at_most (low_end fp s now) x && at_most x (high_end fp s now)
  meaning Oper.eq s x now = at_most (low_end fp s now) x && at_most x (high_end fp s now)
  meaning Oper.gt s x now = less (high_end fp s now) x
  meaning Oper.gte s x now = at_most (low_end fp s now) x
  meaning Oper.lt s x now = less x (low_end fp s now)
  meaning Oper.lte s x now = at_most x (high_end fp s now)

  -- A scalar as `ParseScalar` returns it.
  pub record IsScalar (s : Interval fp) : Type 0 where
    pub same_base : s.hi_relative ≡ s.lo_relative
    pub lo_closed : s.lo_open ≡ false
    pub hi_closed : s.hi_open ≡ false

  contains-with_oper :
      (oper : Oper) (s : Interval fp) (x : Double) (now : ℕ)
      → IsScalar s
      → at_most (negate infinity) x ≡ true
      → at_most x infinity ≡ true
      → contains fp (with_oper fp parse_date oper s) x now ≡ meaning oper s x now
  unfolding contains with_oper
  contains-with_oper Oper.unset s x now p l h =
      ground (arith, p.same_base, p.lo_closed, p.hi_closed)
  contains-with_oper Oper.eq s x now p l h = ground (arith, p.lo_closed, p.hi_closed)
  contains-with_oper Oper.gt s x now p l h = ground (arith, p.same_base, p.lo_closed, p.hi_closed)
  contains-with_oper Oper.gte s x now p l h = ground (arith, p.same_base, p.lo_closed, p.hi_closed)
  contains-with_oper Oper.lt s x now p l h = ground (arith, p.same_base, p.lo_closed, p.hi_closed)
  contains-with_oper Oper.lte s x now p l h = ground (arith, p.same_base, p.lo_closed, p.hi_closed)

  parse_amount-IsScalar :
      (kind : Kind) (text : Bytes) (span : Span) (s : Interval fp)
      → parse_amount fp kind text span ≡ ok s
      → IsScalar s
  unfolding parse_amount
  parse_amount-IsScalar kind text span s h = record {
    same_base = ground arith;
    lo_closed = ground arith;
    hi_closed = ground arith;
  }

  parse_moment-IsScalar :
      (text : Bytes) (span : Span) (s : Interval fp)
      → parse_moment fp parse_date text span ≡ ok s
      → IsScalar s
  unfolding parse_moment exactly
  parse_moment-IsScalar [] span s h = record {
    same_base = ground arith;
    lo_closed = ground arith;
    hi_closed = ground arith;
  }
  parse_moment-IsScalar (c ∷ text) span s h = record {
    same_base = ground arith;
    lo_closed = ground arith;
    hi_closed = ground arith;
  }

  parse_scalar-IsScalar :
      (kind : Kind) (text : Bytes) (span : Span) (s : Interval fp)
      → parse_scalar fp parse_date kind text span ≡ ok s
      → IsScalar s
  unfolding parse_scalar
  parse_scalar-IsScalar Kind.date text span s h = parse_moment-IsScalar text span s h
  parse_scalar-IsScalar kind text span s h = parse_amount-IsScalar kind text span s h

  -- The value is neither a list nor a glob.
  abbrev pub IsSingle : Value → Type 0
  IsSingle v =
      ((not v.quoted && any_of (λ c. c == b',') v.text) ≡ false)
      × ((not v.quoted && any_of (λ c. c == b'*') v.text) ≡ false)

  single_interval :
      (kind : Kind) (oper : Oper) (oper_span : Span) (v : Value) (now : ℕ)
      → IsSingle v
      → numeric_interval fp parse_date kind oper oper_span v now
        ≡ parse_interval fp parse_date kind oper oper_span v now
  unfolding numeric_interval
  single_interval kind oper oper_span v now h = rw (h.0, h.1)

  point :
      (kind : Kind) (oper : Oper) (oper_span : Span) (v : Value) (now : ℕ) (s : Interval fp)
      → dots fp parse_date v ≡ none
      → parse_scalar fp parse_date kind v.text v.span ≡ ok s
      → parse_interval fp parse_date kind oper oper_span v now
        ≡ point_interval fp parse_date oper oper_span s
  unfolding parse_interval
  point kind oper oper_span v now s h e = rw (h, parse_interval, e)

  refused :
      (oper : Oper) (oper_span : Span) (s : Interval fp)
      → (s.lo_relative && is_eq fp parse_date oper) ≡ true
      → point_interval fp parse_date oper oper_span s ≡ fail relative_equal oper_span
  unfolding point_interval
  refused oper oper_span s h = rw h

  granted :
      (oper : Oper) (oper_span : Span) (s : Interval fp)
      → (s.lo_relative && is_eq fp parse_date oper) ≡ false
      → point_interval fp parse_date oper oper_span s ≡ ok (with_oper fp parse_date oper s)
  unfolding point_interval
  granted oper oper_span s h = rw h

  -- For a single value that parses as the scalar `s`: the filter passes a number between the
  -- infinities exactly if the number is to the scalar as the operator says; but "=" with a relative
  -- time is an error.
  pub numeric_interval-meaning :
      (kind : Kind) (oper : Oper) (oper_span : Span) (v : Value) (check_now : ℕ) (s : Interval fp)
      → IsSingle v
      → dots fp parse_date v ≡ none
      → parse_scalar fp parse_date kind v.text v.span ≡ ok s
      → (x : Double) (now : ℕ) → at_most (negate infinity) x ≡ true
      → at_most x infinity ≡ true
      → (numeric_interval fp parse_date kind oper oper_span v check_now >>= λ iv.
          ok (contains fp iv x now))
        ≡ (if s.lo_relative && is_eq fp parse_date oper
            then fail relative_equal oper_span
            else ok (meaning oper s x now))
  numeric_interval-meaning kind oper oper_span v check_now s single no_dots parsed x now l u =
      rw
        (
          single_interval kind oper oper_span v check_now single,
          point kind oper oper_span v check_now s no_dots parsed,
        )
        (elim (Bool-cases (s.lo_relative && is_eq fp parse_date oper)) [
          | inl h ↦ rw (refused oper oper_span s h, h) refl
          | inr h ↦
              rw (granted oper oper_span s h, h)
                (ap ok (
                  contains-with_oper oper s x now
                    (parse_scalar-IsScalar kind v.text v.span s parsed) l u))
        ])
