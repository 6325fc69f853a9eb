-- ===== src/Stored.antt =====
-- `AddTorrentParams::Next` of src/data/models/addtorrentparams.cpp: the cursor by which the stored torrents of a
-- session are read in chunks, the queued ones first. A table is a list of rows, and the statement a
-- function on it; the row that is read is handed on as its id.
pub mod Ordered
pub mod Visiting
pub mod Reading
pub mod Once
use porla.Base.{
  ℕ, ◌-◌, ◌^◌, ◌++◌, Bool, true, false, not, ◌&&◌, ◌||◌, List, [], ◌∷◌, Option, none, some,
  if◌then◌else◌, is_empty, take, keep, ◌==◌,
}
use porla.Base.Integers.{ℤ, pos, negsuc, neg, compare_ints}
use porla.Base.Comparison.{Order, less, equal, greater, then_by, is_less}
use porla.Base.Sorting.{insertion_sort}

-- A row of `addtorrentparams`, its two columns that order it and the one that selects it.
pub record Row : Type 0 where
  pub session_id : ℕ
  pub queue_position : ℤ
  pub id : ℤ

-- `Cursor`.
pub record Cursor : Type 0 where
  pub unqueued : Bool
  pub position : ℤ
  pub id : ℤ

abbrev pub new_cursor : Cursor
new_cursor = record { unqueued = false; position = pos 0; id = neg 1 }

-- `std::numeric_limits<std::int64_t>`: the greatest number, and the least.
abbrev pub int64_max : ℤ
int64_max = pos (2 ^ 63 - 1)

abbrev pub int64_min : ℤ
int64_min = negsuc (2 ^ 63 - 1)

abbrev pub at_least : Order → Bool
at_least less = false
at_least _ = true

abbrev pub at_most : Order → Bool
at_most greater = false
at_most _ = true

abbrev pub max_position : Bool → ℤ
max_position true = neg 1
max_position false = int64_max

-- `WHERE` and `ORDER BY`.
unfoldable pub selects : ℕ → Cursor → Row → Bool
selects session c r =
    (r.session_id == session)
    && (at_most (compare_ints r.queue_position (max_position c.unqueued))
        && (at_least (compare_ints r.queue_position c.position)
            && (is_less (compare_ints c.position r.queue_position)
                || is_less (compare_ints c.id r.id))))

abbrev pub compare_rows : Row → Row → Order
compare_rows r s = then_by (compare_ints r.queue_position s.queue_position) (compare_ints r.id s.id)

unfoldable pub select : ℕ → Cursor → ℕ → List Row → List Row
select session c max rows = take max (insertion_sort compare_rows (keep (selects session c) rows))

-- The cursor after the rows that a statement has stepped over.
unfoldable pub step_over : List Row → Cursor → Cursor
step_over [] c = c
step_over (r ∷ rs) c = step_over rs (record c { position = r.queue_position; id = r.id })

-- Where the second phase begins.
abbrev pub unqueued_cursor : Cursor
unqueued_cursor = record { unqueued = true; position = int64_min; id = neg 1 }

-- What a call returns, or that it throws.
pub data Outcome : Type 0 where
  more : Bool → Outcome
  thrown : Outcome

pub record Call : Type 0 where
  pub cursor : Cursor
  pub read : List Row
  pub outcome : Outcome

-- After the last of a phase's rows: the second phase, or the end.
unfoldable pub end_of_phase : Cursor → Call
end_of_phase c =
    if c.unqueued
    then record { cursor = c; read = []; outcome = more false }
    else record { cursor = unqueued_cursor; read = []; outcome = more true }

-- `Next`, which may throw after some of the rows.
unfoldable pub next : ℕ → ℕ → List Row → Option ℕ → Cursor → Call
next session max rows (some n) c =
    let read = take n (select session c max rows) in
    record { cursor = step_over read c; read = read; outcome = thrown }
next session max rows none c =
    let read = select session c max rows in
    if is_empty read
    then end_of_phase c
    else record { cursor = step_over read c; read = read; outcome = more true }

-- Calls with a cursor until one says that there is no more, where some may throw: the rows that they have read, and
-- whether there was an end.
unfoldable pub next_all : ℕ → ℕ → List Row → List (Option ℕ) → Cursor → List Row × Bool
next_all session max rows [] c = ([], false)
next_all session max rows (stop ∷ stops) c =
    let call = next session max rows stop c in
    let rest = next_all session max rows stops call.cursor in
    elim call.outcome [ more false ↦ (call.read, true) | _ ↦ (call.read ++ rest.0, rest.1) ]
