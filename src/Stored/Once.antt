-- ===== src/Stored/Once.antt =====
-- The order in which the cursor of src/data/models/addtorrentparams.cpp reads the stored torrents of a session.
use mathlib.Core.List.{Perm, perm_middle}
use mathlib.Core.List.Perm
use porla.Base.{
  ℕ, ◌+◌, ◌≤◌, ◌≡◌, ◌≢◌, refl, sym, ap, ap₂, ◌∙◌, subst, Bool, true, false, not, ◌&&◌, ◌||◌,
  Bool-cases, inl, inr, ◌⊎◌, List, [], ◌∷◌, ◌++◌, Option, if◌then◌else◌, keep, All, length,
  length-append, ◌==◌, arith,
}
use porla.Base.Integers.{ℤ, pos, negsuc, neg, compare_ints, compare_ints-IsComparison}
use porla.Base.Comparison.{Order, less, equal, greater, reverse_order, is_less, compare_numbers}
use porla.Base.Sorting.{insertion_sort, insertion_sort-Perm, length-insertion_sort}
use porla.Stored.{
  Row, new_cursor, unqueued_cursor, int64_min, int64_max, at_least, at_most, selects, compare_rows,
  next_all,
}
use porla.Stored.Ordered.{Distinct, All-insertion_sort, keep-insertion_sort, keep-taken, keep-left}
use porla.Stored.Visiting.{compare_rows-IsComparison}
use porla.Stored.Reading.{left, whole_calls, next_all-Reads}

-- A queue position of 64 bits, and an id that is not negative, as `id INTEGER PRIMARY KEY` gives them.
pub record InRange (r : Row) : Type 0 where
  pub low : compare_ints int64_min r.queue_position ≢ greater
  pub high : compare_ints r.queue_position int64_max ≢ greater
  pub id : compare_ints (neg 1) r.id ≡ less

abbrev pub is_queued : ℤ → Bool
is_queued (pos n) = true
is_queued (negsuc n) = false

abbrev pub of_queue : ℕ → Bool → Row → Bool
of_queue session queued r =
    (r.session_id == session)
    && (if queued then is_queued r.queue_position else not (is_queued r.queue_position))

abbrev pub of_session : ℕ → Row → Bool
of_session session r = r.session_id == session

at_most-true : (o : Order) → o ≢ greater → at_most o ≡ true
at_most-true less h = refl
at_most-true equal h = refl
at_most-true greater h = absurd (h refl)

at_least-true : (o : Order) → o ≢ greater → at_least (reverse_order o) ≡ true
at_least-true less h = refl
at_least-true equal h = refl
at_least-true greater h = absurd (h refl)

at_least_zero : (n : ℕ) → at_least (compare_numbers n 0) ≡ true
at_least_zero n = ground arith

at_most_last : (n : ℕ) → at_most (compare_numbers 0 n) ≡ true
at_most_last n = ground arith

or_true : (b : Bool) → (b || true) ≡ true
or_true true = refl
or_true false = refl

new_cursor_phase :
    (q : ℤ) (b : Bool)
    → compare_ints q int64_max ≢ greater
    → (at_most (compare_ints q int64_max) && (at_least (compare_ints q (pos 0)) && (b || true)))
      ≡ is_queued q
new_cursor_phase (pos n) b h =
    ap (λ c. c && (at_least (compare_numbers n 0) && (b || true))) (at_most-true _ h)
    ∙ ap (λ c. c && (b || true)) (at_least_zero n)
    ∙ or_true b
new_cursor_phase (negsuc n) b h = refl

unqueued_cursor_phase :
    (q : ℤ) (b : Bool)
    → compare_ints int64_min q ≢ greater
    → (at_most (compare_ints q (neg 1)) && (at_least (compare_ints q int64_min) && (b || true)))
      ≡ not (is_queued q)
unqueued_cursor_phase (pos n) b h = refl
unqueued_cursor_phase (negsuc n) b h =
    ap (λ c. c && (at_least (compare_ints (negsuc n) int64_min) && (b || true))) (at_most_last n)
    ∙ ap (λ o. at_least o && (b || true)) (compare_ints-IsComparison.flip int64_min (negsuc n))
    ∙ ap (λ c. c && (b || true)) (at_least-true _ h)
    ∙ or_true b

selects-new_cursor :
    (session : ℕ) (r : Row) → InRange r → selects session new_cursor r ≡ of_queue session true r
unfolding selects
selects-new_cursor session r i =
    ap
      (λ c.
        (r.session_id == session)
        && (at_most (compare_ints r.queue_position int64_max)
            && (at_least (compare_ints r.queue_position (pos 0))
                && (is_less (compare_ints (pos 0) r.queue_position) || is_less c))))
      i.id
    ∙ ap (λ b. (r.session_id == session) && b)
        (new_cursor_phase r.queue_position (is_less (compare_ints (pos 0) r.queue_position)) i.high)

selects-unqueued_cursor :
    (session : ℕ) (r : Row)
    → InRange r
    → selects session unqueued_cursor r ≡ of_queue session false r
unfolding selects
selects-unqueued_cursor session r i =
    ap
      (λ c.
        (r.session_id == session)
        && (at_most (compare_ints r.queue_position (neg 1))
            && (at_least (compare_ints r.queue_position int64_min)
                && (is_less (compare_ints int64_min r.queue_position) || is_less c))))
      i.id
    ∙ ap (λ b. (r.session_id == session) && b)
        (unqueued_cursor_phase r.queue_position (is_less (compare_ints int64_min r.queue_position))
          i.low)

module _ {A : Type 0} where
  keep-congr :
      (P : A → Type 0) (p q : A → Bool) (xs : List A)
      → ((x : A) → P x → p x ≡ q x)
      → All P xs
      → keep p xs ≡ keep q xs
  keep-congr P p q [] h a = refl
  keep-congr P p q (x ∷ xs) h a = elim (Bool-cases (p x)) [
    | inl e ↦
        keep-taken p x xs e
        ∙ ap (λ t. x ∷ t) (keep-congr P p q xs h a.1)
        ∙ sym (keep-taken q x xs (sym (h x a.0) ∙ e))
    | inr e ↦
        keep-left p x xs e ∙ keep-congr P p q xs h a.1 ∙ sym (keep-left q x xs (sym (h x a.0) ∙ e))
  ]

  -- A list is what passes one of two tests that exclude each other, and what passes the other.
  keep-Perm :
      (s t : A → Bool) (xs : List A)
      → Perm (keep (λ x. s x && t x) xs ++ keep (λ x. s x && not (t x)) xs) (keep s xs)
  keep-Perm s t [] = Perm.nil
  keep-Perm s t (x ∷ xs) = by_tests (s x) (t x) refl refl (keep-Perm s t xs)
    where
      first : A → Bool
      first y = s y && t y

      second : A → Bool
      second y = s y && not (t y)

      by_tests :
          (a b : Bool)
          → s x ≡ a
          → t x ≡ b
          → Perm (keep first xs ++ keep second xs) (keep s xs)
          → Perm (keep first (x ∷ xs) ++ keep second (x ∷ xs)) (keep s (x ∷ xs))
      by_tests false b e f p =
          rw
            (
              keep-left first x xs (ap (λ c. c && t x) e),
              keep-left second x xs (ap (λ c. c && not (t x)) e),
              keep-left s x xs e,
            )
            p
      by_tests true true e f p =
          rw
            (
              keep-taken first x xs (ap₂ ◌&&◌ e f),
              keep-left second x xs (ap₂ (λ c d. c && not d) e f),
              keep-taken s x xs e,
            )
            (Perm.cons x p)
      by_tests true false e f p =
          rw
            (
              keep-left first x xs (ap₂ ◌&&◌ e f),
              keep-taken second x xs (ap₂ (λ c d. c && not d) e f),
              keep-taken s x xs e,
            )
            (Perm.trans (perm_middle (keep first xs) (keep second xs)) (Perm.cons x p))

-- The rows of a session, the queued ones first, each part by position and id.
abbrev pub in_order : ℕ → List Row → List Row
in_order session rows =
    keep (of_queue session true) (insertion_sort compare_rows rows)
    ++ keep (of_queue session false) (insertion_sort compare_rows rows)

in_order-Perm :
    (session : ℕ) (rows : List Row)
    → Distinct compare_rows rows
    → Perm (in_order session rows) (keep (of_session session) rows)
in_order-Perm session rows d =
    Perm.trans
      (keep-Perm (of_session session) (λ r. is_queued r.queue_position)
        (insertion_sort compare_rows rows))
      (subst (λ l. Perm l (keep (of_session session) rows))
        (keep-insertion_sort compare_rows compare_rows-IsComparison (of_session session) rows d)
        (insertion_sort-Perm compare_rows (keep (of_session session) rows)))

-- What passes one of two tests that exclude each other is no more than there is.
length-keep-keep :
    (p q : Row → Bool) (rows : List Row)
    → ((r : Row) → p r ≡ true → q r ≡ false)
    → length (keep p rows) + length (keep q rows) ≤ length rows
length-keep-keep p q [] h = omega arith
length-keep-keep p q (r ∷ rows) h =
    by_tests (Bool-cases (p r)) (Bool-cases (q r)) (length-keep-keep p q rows h)
  where
    by_tests :
        (p r ≡ true) ⊎ (p r ≡ false)
        → (q r ≡ true) ⊎ (q r ≡ false)
        → length (keep p rows) + length (keep q rows) ≤ length rows
        → length (keep p (r ∷ rows)) + length (keep q (r ∷ rows)) ≤ length (r ∷ rows)
    by_tests (inl e) (inl f) l = let t : true ≡ false = sym f ∙ h r e in absurd cc
    by_tests (inl e) (inr f) l = rw (keep-taken p r rows e, keep-left q r rows f) (omega (arith, l))
    by_tests (inr e) (inl f) l = rw (keep-left p r rows e, keep-taken q r rows f) (omega (arith, l))
    by_tests (inr e) (inr f) l = rw (keep-left p r rows e, keep-left q r rows f) (omega (arith, l))

length-in_order : (session : ℕ) (rows : List Row) → length (in_order session rows) ≤ length rows
length-in_order session rows =
    let sorted = insertion_sort compare_rows rows in
    omega (
      arith,
      length-append (keep (of_queue session true) sorted) (keep (of_queue session false) sorted),
      length-keep-keep (of_queue session true) (of_queue session false) sorted
          (λ r. excludes (r.session_id == session) (is_queued r.queue_position)),
      length-insertion_sort compare_rows rows,
    )
  where
    excludes : (a b : Bool) → (a && b) ≡ true → (a && not b) ≡ false
    excludes true true e = refl
    excludes true false e = absurd cc
    excludes false b e = refl

left-new_cursor :
    (session : ℕ) (rows : List Row) (d : Distinct compare_rows rows)
    → All InRange rows
    → left session rows d new_cursor ≡ in_order session rows
left-new_cursor session rows d i =
    let sorted = All-insertion_sort compare_rows InRange rows i in
    ap₂ ◌++◌ (keep-congr InRange _ _ _ (selects-new_cursor session) sorted)
      (keep-congr InRange _ _ _ (selects-unqueued_cursor session) sorted)

-- If the rows have different ids, calls of Next with a new cursor, some of which may throw after any number of
-- rows, read the rows of the session until they say that there is no more: each of them once, the
-- queued ones first, in the order of their positions and ids. There is such an end after as many calls
-- that do not throw as there are rows, and two.
pub next_all-in_order :
    (session max : ℕ) (rows : List Row) (stops : List (Option ℕ))
    → 1 ≤ max
    → Distinct compare_rows rows
    → All InRange rows
    → let read = next_all session max rows stops new_cursor in
      (read.1 ≡ true
        → (read.0 ≡ in_order session rows) × Perm read.0 (keep (of_session session) rows))
      × (length rows + 2 ≤ whole_calls stops → read.1 ≡ true)
next_all-in_order session max rows stops h d i =
    let r = next_all-Reads session rows d max h stops new_cursor in
    let all = left-new_cursor session rows d i in
    (
      λ e. (
        r.all e ∙ all,
        subst (λ l. Perm l (keep (of_session session) rows)) (sym (r.all e ∙ all))
            (in_order-Perm session rows d),
      ),
      λ e. r.ends (omega (arith, e, ap length all, length-in_order session rows)),
    )
