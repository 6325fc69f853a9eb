-- ===== src/Stored/Visiting.antt =====
-- How the cursor of src/data/models/addtorrentparams.cpp moves: what is left to read after a call of `Next`.
use porla.Base.{
  ℕ, ◌≡◌, refl, sym, ap, ◌∙◌, subst, Bool, true, false, ◌&&◌, ◌||◌, Bool-cases, inl, inr, List, [],
  ◌∷◌, ◌++◌, &&_iff, keep, All, ◌==◌,
}
use porla.Base.Integers.{compare_ints, compare_ints-IsComparison}
use porla.Base.Comparison.{
  Order, less, equal, greater, reverse_order, then_by, is_less, IsComparison,
}
use porla.Base.Preorders.{then_by-IsComparison, pulled-IsComparison}
use porla.Stored.{Row, Cursor, at_least, at_most, max_position, selects, compare_rows, step_over}
use porla.Stored.Ordered.{
  All-imp, All-keep_passed, All-front, Strict-front, keep-left, keep-all, keep-keep, Strict,
  Strict-keep, less_trans, cmp_self,
}

pub compare_rows-IsComparison : IsComparison compare_rows
compare_rows-IsComparison =
    then_by-IsComparison (λ (r s : Row). compare_ints r.queue_position s.queue_position)
      (λ r s. compare_ints r.id s.id)
      (pulled-IsComparison (λ (r : Row). r.queue_position) compare_ints compare_ints-IsComparison)
      (pulled-IsComparison (λ (r : Row). r.id) compare_ints compare_ints-IsComparison)

-- The place of a cursor among the rows, and what else a statement asks of a row.
abbrev pub at : Cursor → Row
at c = record { session_id = 0; queue_position = c.position; id = c.id }

abbrev pub in_phase : ℕ → Bool → Row → Bool
in_phase session unqueued r =
    (r.session_id == session) && at_most (compare_ints r.queue_position (max_position unqueued))

is_after :
    (o p : Order) → (at_least (reverse_order o) && (is_less o || is_less p)) ≡ is_less (then_by o p)
is_after less p = refl
is_after equal p = refl
is_after greater p = refl

and_assoc : (a b c : Bool) → (a && (b && c)) ≡ ((a && b) && c)
and_assoc true b c = refl
and_assoc false b c = refl

pub selects-in_phase :
    (session : ℕ) (c : Cursor) (r : Row)
    → selects session c r ≡ (in_phase session c.unqueued r && is_less (compare_rows (at c) r))
unfolding selects
selects-in_phase session c r =
    ap
      (λ o.
        (r.session_id == session)
        && (at_most (compare_ints r.queue_position (max_position c.unqueued))
            && (at_least o
                && (is_less (compare_ints c.position r.queue_position)
                    || is_less (compare_ints c.id r.id)))))
      (compare_ints-IsComparison.flip c.position r.queue_position)
    ∙ ap
        (λ b.
          (r.session_id == session)
          && (at_most (compare_ints r.queue_position (max_position c.unqueued)) && b))
        (is_after (compare_ints c.position r.queue_position) (compare_ints c.id r.id))
    ∙ and_assoc (r.session_id == session) _ _

is_less_iff : (o : Order) → is_less o ≡ true → o ≡ less
is_less_iff less h = refl
is_less_iff equal h = absurd cc
is_less_iff greater h = absurd cc

-- A row comes after a cursor.
abbrev pub Follows : Cursor → Row → Type 0
Follows c r = compare_rows (at c) r ≡ less

abbrev pub moved : Row → Cursor → Cursor
moved r c = record c { position = r.queue_position; id = r.id }

pub unqueued-step_over : (rs : List Row) (c : Cursor) → (step_over rs c).unqueued ≡ c.unqueued
unfolding step_over
unqueued-step_over [] c = refl
unqueued-step_over (r ∷ rs) c = unqueued-step_over rs (moved r c)

-- What follows the cursor after some rows follows it before them.
step_over-Follows :
    (rs : List Row) (c : Cursor) (w : Row)
    → All (Follows c) rs
    → Strict compare_rows rs
    → Follows (step_over rs c) w
    → Follows c w
unfolding step_over
step_over-Follows [] c w a s h = h
step_over-Follows (r ∷ rs) c w a s h =
    less_trans compare_rows compare_rows-IsComparison (at c) r w a.0
      (step_over-Follows rs (moved r c) w s.0 s.1 h)

module _ (session : ℕ) where
  selects→Follows :
      (c : Cursor) (r : Row)
      → selects session c r ≡ true
      → (in_phase session c.unqueued r ≡ true) × Follows c r
  selects→Follows c r h =
      let (phase, follows) =
        (&&_iff (in_phase session c.unqueued r) _).0 (sym (selects-in_phase session c r) ∙ h) in
      (phase, is_less_iff _ follows)

  Follows→selects :
      (c : Cursor) (r : Row)
      → in_phase session c.unqueued r ≡ true
      → Follows c r
      → selects session c r ≡ true
  Follows→selects c r h k = selects-in_phase session c r ∙ rw (h, k) refl

  -- Of rows in order that are selected, those behind the ones that have been read are selected next.
  keep-read :
      (c : Cursor) (read rest : List Row)
      → All (λ r. in_phase session c.unqueued r ≡ true) (read ++ rest)
      → All (Follows c) (read ++ rest)
      → Strict compare_rows (read ++ rest)
      → keep (selects session (step_over read c)) (read ++ rest) ≡ rest
  unfolding step_over
  keep-read c [] rest i f s = keep-all (selects session c) rest (both rest i f)
    where
      both :
          (xs : List Row)
          → All (λ r. in_phase session c.unqueued r ≡ true) xs
          → All (Follows c) xs
          → All (λ r. selects session c r ≡ true) xs
      both [] i f = tt
      both (x ∷ xs) i f = (Follows→selects c x i.0 f.0, both xs i.1 f.1)
  keep-read c (r ∷ read) rest i f s =
      keep-left (selects session (step_over read (moved r c))) r (read ++ rest) passed
      ∙ keep-read (moved r c) read rest i.1 s.0 s.1
    where
      not_itself : Follows (moved r c) r → ⊥
      not_itself h =
          let e : compare_rows r r ≡ equal = cmp_self compare_rows compare_rows-IsComparison r in
          let t : less ≡ equal = sym h ∙ e in absurd cc

      passed : selects session (step_over read (moved r c)) r ≡ false
      passed = elim (Bool-cases (selects session (step_over read (moved r c)) r)) [
        | inr e ↦ e
        | inl e ↦ absurd (
            not_itself (
              step_over-Follows read (moved r c) r (All-front _ read rest s.0)
                (Strict-front compare_rows read rest s.1)
                (selects→Follows (step_over read (moved r c)) r e).1))
      ]

  -- The same of the rows of a table, in order.
  pub keep-step_over :
      (c : Cursor) (sorted read rest : List Row)
      → Strict compare_rows sorted
      → keep (selects session c) sorted ≡ read ++ rest
      → keep (selects session (step_over read c)) sorted ≡ rest
  keep-step_over c sorted read rest s e =
      sym (keep-keep (selects session c) (selects session (step_over read c)) sorted back)
      ∙ ap (keep (selects session (step_over read c))) e
      ∙ keep-read c read rest (All-imp _ (λ x h. (selects→Follows c x h).0) kept)
          (All-imp _ (λ x h. (selects→Follows c x h).1) kept) ordered
    where
      kept : All (λ r. selects session c r ≡ true) (read ++ rest)
      kept =
          subst (All (λ r. selects session c r ≡ true)) e
            (All-keep_passed (selects session c) sorted)

      ordered : Strict compare_rows (read ++ rest)
      ordered =
          subst (Strict compare_rows) e (Strict-keep compare_rows (selects session c) sorted s)

      back : (x : Row) → selects session (step_over read c) x ≡ true → selects session c x ≡ true
      back x h =
          let after = selects→Follows (step_over read c) x h in
          Follows→selects c x
            (ap (λ b. in_phase session b x) (sym (unqueued-step_over read c)) ∙ after.0)
            (step_over-Follows read c x
              (All-front _ read rest (All-imp _ (λ y k. (selects→Follows c y k).1) kept))
              (Strict-front compare_rows read rest ordered) after.1)
