-- ===== src/Stored/Reading.antt =====
-- That `Next` of src/data/models/addtorrentparams.cpp reads each stored torrent of a session once, and ends.
use porla.Base.{
  ℕ, zero, suc, ◌+◌, ◌≤◌, ◌≡◌, refl, sym, ap, ◌∙◌, Bool, true, false, List, [], ◌∷◌, ◌++◌,
  append_assoc, append-nil, Option, none, some, if_cases, is_empty, take, drop, keep, length,
  length-append, arith,
}
use porla.Base.Sorting.{insertion_sort, take-drop}
use porla.Stored.{
  Row, Cursor, unqueued_cursor, selects, compare_rows, select, step_over, more, thrown, Call,
  end_of_phase, next, next_all,
}
use porla.Stored.Ordered.{Strict, Distinct, insertion_sort-Strict, keep-insertion_sort}
use porla.Stored.Visiting.{compare_rows-IsComparison, unqueued-step_over, keep-step_over}

-- How many of the calls do not throw.
abbrev pub whole_calls : List (Option ℕ) → ℕ
whole_calls [] = 0
whole_calls (none ∷ stops) = 1 + whole_calls stops
whole_calls (some n ∷ stops) = whole_calls stops

module _ (session : ℕ) (rows : List Row) (distinct : Distinct compare_rows rows) where
  abbrev pub all_sorted : List Row
  all_sorted = insertion_sort compare_rows rows

  all_sorted-Strict : Strict compare_rows all_sorted
  all_sorted-Strict = insertion_sort-Strict compare_rows compare_rows-IsComparison rows distinct

  -- What is left to read at a cursor.
  abbrev pub then_unqueued : Bool → List Row
  then_unqueued true = []
  then_unqueued false = keep (selects session unqueued_cursor) all_sorted

  abbrev pub left : Cursor → List Row
  left c = keep (selects session c) all_sorted ++ then_unqueued c.unqueued

  select-take :
      (c : Cursor) (max : ℕ)
      → select session c max rows ≡ take max (keep (selects session c) all_sorted)
  unfolding select
  select-take c max =
      ap (take max) (
        keep-insertion_sort compare_rows compare_rows-IsComparison (selects session c) rows
          distinct)

  left-step_over :
      (c : Cursor) (read rest : List Row)
      → keep (selects session c) all_sorted ≡ read ++ rest
      → read ++ left (step_over read c) ≡ left c
  left-step_over c read rest e =
      ap (λ b. read ++ (keep (selects session (step_over read c)) all_sorted ++ then_unqueued b))
        (unqueued-step_over read c)
      ∙ ap (λ t. read ++ (t ++ then_unqueued c.unqueued))
          (keep-step_over session c all_sorted read rest all_sorted-Strict e)
      ∙ sym (append_assoc read rest (then_unqueued c.unqueued))
      ∙ ap (λ t. t ++ then_unqueued c.unqueued) (sym e)

  -- How many calls that do not throw there can still be.
  abbrev pub phases : Bool → ℕ
  phases true = 1
  phases false = 2

  abbrev pub due : Cursor → ℕ
  due c = length (left c) + phases c.unqueued

  -- A call goes on from what is left, or there was nothing left.
  data Went (c : Cursor) (stop : Option ℕ) : Call → Type 0 where
    ended :
        (d : Cursor)
        → left c ≡ []
        → Went c stop (record { cursor = d; read = []; outcome = more false })
    read_on :
        (d : Cursor) (read : List Row)
        → read ++ left d ≡ left c
        → due d + 1 ≤ due c
        → Went c stop (record { cursor = d; read = read; outcome = more true })
    threw :
        (d : Cursor) (read : List Row) (n : ℕ)
        → stop ≡ some n
        → read ++ left d ≡ left c
        → due d ≤ due c
        → Went c stop (record { cursor = d; read = read; outcome = thrown })

  due-read :
      (c d : Cursor) (read : List Row)
      → read ++ left d ≡ left c
      → d.unqueued ≡ c.unqueued
      → due d + length read ≡ due c
  due-read c d read e u =
      omega (arith, ap phases u, sym (length-append read (left d)) ∙ ap length e)

  selected :
      (c : Cursor) (max : ℕ)
      → keep (selects session c) all_sorted
        ≡ select session c max rows ++ drop max (keep (selects session c) all_sorted)
  selected c max =
      sym (take-drop max (keep (selects session c) all_sorted))
      ∙ ap (λ t. t ++ drop max (keep (selects session c) all_sorted)) (sym (select-take c max))

  threw-Went : (max n : ℕ) (c : Cursor) → Went c (some n) (next session max rows (some n) c)
  unfolding next
  threw-Went max n c =
      let all = select session c max rows in
      let rest = drop max (keep (selects session c) all_sorted) in
      let e : keep (selects session c) all_sorted ≡ take n all ++ (drop n all ++ rest) =
        selected c max
        ∙ ap (λ t. t ++ rest) (sym (take-drop n all))
        ∙ append_assoc (take n all) (drop n all) rest in
      let kept = left-step_over c (take n all) (drop n all ++ rest) e in
      threw (step_over (take n all) c) (take n all) n refl kept (
        omega (
          arith,
          due-read c (step_over (take n all) c) (take n all) kept
              (unqueued-step_over (take n all) c),
        ))

  end_of_phase-Went :
      (c : Cursor) → keep (selects session c) all_sorted ≡ [] → Went c none (end_of_phase c)
  unfolding end_of_phase
  end_of_phase-Went c e =
      if_cases (Went c none) c.unqueued (λ u. ended c (whole ∙ ap then_unqueued u))
        (λ u.
          let same : left unqueued_cursor ≡ left c =
            append-nil _ ∙ sym (whole ∙ ap then_unqueued u) in
          read_on unqueued_cursor [] same (omega (arith, ap phases u, ap length same)))
    where
      whole : left c ≡ then_unqueued c.unqueued
      whole = ap (λ t. t ++ then_unqueued c.unqueued) e

  next-Went :
      (max : ℕ)
      → 1 ≤ max
      → (stop : Option ℕ) (c : Cursor) → Went c stop (next session max rows stop c)
  unfolding next
  next-Went max h (some n) c = threw-Went max n c
  next-Went max h none c =
      if_cases (Went c none) (is_empty (select session c max rows))
        (λ e. end_of_phase-Went c (nothing max h _ (ap is_empty (sym (select-take c max)) ∙ e)))
        (λ e.
          let read = select session c max rows in
          let kept = left-step_over c read _ (selected c max) in
          read_on (step_over read c) read kept (
            omega (
              arith,
              due-read c (step_over read c) read kept (unqueued-step_over read c),
              some_read read e,
            )))
    where
      nothing : (m : ℕ) → 1 ≤ m → (xs : List Row) → is_empty (take m xs) ≡ true → xs ≡ []
      nothing zero l xs e = absurd (omega (arith, l))
      nothing (suc m) l [] e = refl
      nothing (suc m) l (x ∷ xs) e = absurd cc

      some_read : (xs : List Row) → is_empty xs ≡ false → 1 ≤ length xs
      some_read [] e = absurd cc
      some_read (x ∷ xs) e = omega arith

  -- At the end of calls all that was left has been read, and there is an end if enough of them do not throw.
  pub record Reads (c : Cursor) (stops : List (Option ℕ)) (r : List Row × Bool) : Type 0 where
    pub all : r.1 ≡ true → r.0 ≡ left c
    pub ends : due c ≤ whole_calls stops → r.1 ≡ true

  further :
      (c : Cursor) (stop : Option ℕ) (stops : List (Option ℕ)) (call : Call)
      (rest : List Row × Bool)
      → Went c stop call
      → Reads call.cursor stops rest
      → Reads c
          (stop ∷ stops)
          (elim call.outcome [ more false ↦ (call.read, true) | _ ↦ (call.read ++ rest.0, rest.1) ])
  further c stop stops _ rest (ended d e) r = record { all = λ h. sym e; ends = λ h. refl }
  further c stop stops _ rest (read_on d read e l) r = record {
    all = λ h. ap (λ t. read ++ t) (r.all h) ∙ e;
    ends = λ h. r.ends (omega (arith, l, h, at_most_one stop));
  }
    where
      at_most_one : (stop : Option ℕ) → whole_calls (stop ∷ stops) ≤ 1 + whole_calls stops
      at_most_one none = omega arith
      at_most_one (some n) = omega arith
  further c stop stops _ rest (threw d read n t e l) r = record {
    all = λ h. ap (λ t. read ++ t) (r.all h) ∙ e;
    ends = λ h. r.ends (omega (arith, l, h, ap (λ o. whole_calls (o ∷ stops)) t));
  }

  pub next_all-Reads :
      (max : ℕ)
      → 1 ≤ max
      → (stops : List (Option ℕ)) (c : Cursor) → Reads c stops (next_all session max rows stops c)
  unfolding next_all
  next_all-Reads max h [] c = record {
    all = λ e. cc;
    ends = λ e. absurd (omega (arith, e, some_phase c.unqueued));
  }
    where
      some_phase : (b : Bool) → 1 ≤ phases b
      some_phase true = omega arith
      some_phase false = omega arith
  next_all-Reads max h (stop ∷ stops) c =
      further c stop stops (next session max rows stop c) _ (next-Went max h stop c)
        (next_all-Reads max h stops (next session max rows stop c).cursor)
