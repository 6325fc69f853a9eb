-- ===== src/Examples/StoredRuns.antt =====
-- src/data/models/addtorrentparams.cpp with four rows, read in twos, where one call throws after a row.
use porla.Base.{
  ℕ, ◌+◌, ◌≤◌, ◌≡◌, ◌≢◌, refl, true, List, [], ◌∷◌, Option, none, some, arith, length, keep,
}
use porla.Base.Integers.{pos, neg, compare_ints}
use porla.Base.Comparison.{greater}
use porla.Stored.{
  Row, int64_max, new_cursor, next_all, selects, select, step_over, next, end_of_phase,
}
use porla.Stored.Reading.{whole_calls}
use porla.Stored.Once.{InRange, in_order, of_session, next_all-in_order}
use porla.Base.Sorting.{insertion_sort, insert_sorted}
use mathlib.Core.List.{Perm}

abbrev row : ℕ → Row
row n = record { session_id = 1; queue_position = pos n; id = pos (n + 1) }

abbrev seed : ℕ → Row
seed n = record { session_id = 1; queue_position = neg 1; id = pos n }

abbrev some_rows : List Row
some_rows =
    seed 12
    ∷ row 3
    ∷ record { session_id = 2; queue_position = pos 0; id = pos 5 }
    ∷ row 0
    ∷ seed 11
    ∷ []

abbrev some_stops : List (Option ℕ)
some_stops = some 1 ∷ none ∷ none ∷ none ∷ none ∷ none ∷ none ∷ none ∷ []

row-InRange : (n : ℕ) → compare_ints (pos n) int64_max ≢ greater → InRange (row n)
row-InRange n h = record { low = λ e. cc; high = h; id = refl }

seed-InRange : (n : ℕ) → InRange (seed n)
seed-InRange n = record { low = λ e. cc; high = λ e. cc; id = refl }

next_all-in_order_example :
    ((next_all 1 2 some_rows some_stops new_cursor).1 ≡ true
      → ((next_all 1 2 some_rows some_stops new_cursor).0 ≡ in_order 1 some_rows)
        × Perm (next_all 1 2 some_rows some_stops new_cursor).0 (keep (of_session 1) some_rows))
    × (length some_rows + 2 ≤ whole_calls some_stops
        → (next_all 1 2 some_rows some_stops new_cursor).1 ≡ true)
next_all-in_order_example =
    next_all-in_order 1 2 some_rows some_stops (omega arith)
      (
        (λ e. cc, (λ e. cc, (λ e. cc, (λ e. cc, tt)))),
        (
          (λ e. cc, (λ e. cc, (λ e. cc, tt))),
          ((λ e. cc, (λ e. cc, tt)), ((λ e. cc, tt), (tt, tt))),
        ),
      )
      (
        seed-InRange 12,
        (
          row-InRange 3 (λ e. cc),
          (
            record { low = λ e. cc; high = λ e. cc; id = refl },
            (row-InRange 0 (λ e. cc), (seed-InRange 11, tt)),
          ),
        ),
      )

next_all_runs :
    next_all 1 2 some_rows some_stops new_cursor ≡ (row 0 ∷ row 3 ∷ seed 11 ∷ seed 12 ∷ [], true)
unfolding next_all next selects select step_over end_of_phase insertion_sort insert_sorted
next_all_runs = refl
