-- ===== src/Query/Depth.antt =====
-- `CheckDepth` of src/query/pql.cpp.
use mathlib.Core.List.{reverse_aux}
use porla.Base.{
  ℕ, ◌+◌, ◌≤◌, ◌≡◌, ◌↔◌, refl, subst, ap, Bool, true, false, ◌||◌, List, [], ◌∷◌, ◌++◌, arith, ltb,
  if◌then◌else◌, Bool-cases, inl, inr, reverse,
}
use porla.Query.{Span, nested_too_deeply, Result, ok, fail}

pub data Symbol : Type 0 where
  lparen rparen negation other : Symbol

pub record Token : Type 0 where
  pub symbol : Symbol
  pub span : Span

abbrev pub max_query_depth : ℕ
max_query_depth = 64

unfoldable pub opens : Symbol → ℕ → ℕ
opens lparen n = n + 1
opens rparen n = n
opens negation n = n
opens other n = n

unfoldable pub closes : Symbol → ℕ → ℕ
closes lparen n = n
closes rparen n = n + 1
closes negation n = n
closes other n = n

unfoldable pub next_run : Symbol → ℕ → ℕ
next_run lparen n = 0
next_run rparen n = 0
next_run negation n = n + 1
next_run other n = 0

-- The `int depth` of the source, which may fall below 0, is `opened - closed`.
unfoldable pub check_depth_loop : ℕ → ℕ → ℕ → List Token → Result (Unit {0})
unfolding opens closes next_run
check_depth_loop opened closed not_run [] = ok tt
check_depth_loop opened closed not_run (t ∷ ts) =
    let o = opens t.symbol opened in
    let c = closes t.symbol closed in
    let n = next_run t.symbol not_run in
    let rest = check_depth_loop o c n ts in
    if ltb (c + max_query_depth) o || ltb max_query_depth n
    then fail nested_too_deeply t.span
    else rest

unfoldable pub check_depth : List Token → Result (Unit {0})
unfolding check_depth_loop
check_depth ts = check_depth_loop 0 0 0 ts

-- The counts over a list of tokens, the last token first.
unfoldable pub opened_by : List Token → ℕ
opened_by [] = 0
opened_by (t ∷ ts) = opens t.symbol (opened_by ts)

unfoldable pub closed_by : List Token → ℕ
closed_by [] = 0
closed_by (t ∷ ts) = closes t.symbol (closed_by ts)

unfoldable pub last_run : List Token → ℕ
last_run [] = 0
last_run (t ∷ ts) = next_run t.symbol (last_run ts)

-- At most 64 parentheses are open behind the tokens, and at most 64 negations stand at their end.
pub record IsShallow (seen : List Token) : Type 0 where
  pub groups : opened_by seen ≤ closed_by seen + max_query_depth
  pub negations : last_run seen ≤ max_query_depth

abbrev pub AllShallow : List Token → List Token → Type 0
AllShallow seen ts = (pre post : List Token) → ts ≡ pre ++ post → IsShallow (reverse_aux pre seen)

AllShallow-cons :
    (seen : List Token) (t : Token) (ts : List Token)
    → AllShallow seen (t ∷ ts)
    → AllShallow (t ∷ seen) ts
AllShallow-cons seen t ts a pre post e = a (t ∷ pre) post (ap (λ (l : List Token). t ∷ l) e)

AllShallow-step :
    (seen : List Token) (t : Token) (ts : List Token)
    → IsShallow seen
    → AllShallow (t ∷ seen) ts
    → AllShallow seen (t ∷ ts)
AllShallow-step seen t ts s a [] post e = s
AllShallow-step seen t ts s a (x ∷ pre) post e =
    subst (λ y. IsShallow (reverse_aux pre (y ∷ seen))) (ground (arith, e))
      (a pre post (ground (arith, e)))

abbrev loop_from : List Token → List Token → Result (Unit {0})
loop_from seen ts = check_depth_loop (opened_by seen) (closed_by seen) (last_run seen) ts

-- One round passes exactly if the tokens up to it are shallow.
round_fails :
    (seen : List Token) (t : Token) (ts : List Token)
    → (ltb (closed_by (t ∷ seen) + max_query_depth) (opened_by (t ∷ seen))
        || ltb max_query_depth (last_run (t ∷ seen)))
      ≡ true
    → loop_from seen (t ∷ ts) ≡ fail nested_too_deeply t.span
unfolding check_depth_loop opened_by closed_by last_run
round_fails seen t ts h = rw h

round_passes :
    (seen : List Token) (t : Token) (ts : List Token)
    → (ltb (closed_by (t ∷ seen) + max_query_depth) (opened_by (t ∷ seen))
        || ltb max_query_depth (last_run (t ∷ seen)))
      ≡ false
    → loop_from seen (t ∷ ts) ≡ loop_from (t ∷ seen) ts
unfolding check_depth_loop opened_by closed_by last_run
round_passes seen t ts h = rw h

abbrev is_deep : List Token → Bool
is_deep seen =
    ltb (closed_by seen + max_query_depth) (opened_by seen) || ltb max_query_depth (last_run seen)

too_deep : (seen : List Token) → is_deep seen ≡ true → ¬ IsShallow seen
too_deep seen h s = ground (arith, s.groups, s.negations)

shallow : (seen : List Token) → is_deep seen ≡ false → IsShallow seen
shallow seen h = record { groups = ground arith; negations = ground arith }

only_empty : (seen : List Token) → IsShallow seen → AllShallow seen []
only_empty seen s [] post e = s
only_empty seen s (x ∷ pre) post e = cc

loop_iff :
    (ts seen : List Token) → IsShallow seen → (loop_from seen ts ≡ ok tt) ↔ AllShallow seen ts
loop_iff [] seen s = (λ e. only_empty seen s, λ a. unfold check_depth_loop in refl)
loop_iff (t ∷ ts) seen s =
    elim (Bool-cases (
      ltb (closed_by (t ∷ seen) + max_query_depth) (opened_by (t ∷ seen))
      || ltb max_query_depth (last_run (t ∷ seen)))) [
        | inl h ↦
            rw (round_fails seen t ts h)
              ((λ e. cc), λ a. absurd (too_deep (t ∷ seen) h (a (t ∷ []) ts refl)))
        | inr h ↦
            let (f, g) = loop_iff ts (t ∷ seen) (shallow (t ∷ seen) h) in
            rw (round_passes seen t ts h)
              ((λ e. AllShallow-step seen t ts s (f e)), λ a. g (AllShallow-cons seen t ts a))
      ]

-- `CheckDepth` passes exactly if, at the end of every part of the query that begins at its start, at
-- most 64 parentheses are open and at most 64 negations stand in a row.
pub check_depth_iff :
    (ts : List Token)
    → (check_depth ts ≡ ok tt)
      ↔ ((pre post : List Token) → ts ≡ pre ++ post → IsShallow (reverse pre))
unfolding check_depth opened_by closed_by last_run
check_depth_iff ts = start ts
  where
    none_seen : IsShallow []
    none_seen = record { groups = omega arith; negations = omega arith }

    start : (ts : List Token) → (check_depth_loop 0 0 0 ts ≡ ok tt) ↔ AllShallow [] ts
    start ts = loop_iff ts [] none_seen
