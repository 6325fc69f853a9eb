-- ===== src/Text/Levenshtein.antt =====
-- `String::Levenshtein` (src/utils/string.cpp): one row of the table, updated in place.
use mathlib.Core.List.{reverse_aux}
use native.Mathlib.Numerals.{add-one}
use porla.Base.{
  ℕ, suc, ◌+◌, min, ◌≡◌, refl, ap, [], ◌∷◌, List, reverse, Bytes, ◌==◌, if◌then◌else◌, length,
}

unfoldable pub cost : ℕ → ℕ → ℕ
cost x y = if x == y then 0 else 1

-- The inner loop: `diag` and `left` are the cells at the corner and to the left.
cells : ℕ → ℕ → ℕ → Bytes → List ℕ → List ℕ
unfolding cost
cells x diag left (y ∷ b) (up ∷ row) =
    let here = min (min (up + 1) (left + 1)) (diag + cost x y) in here ∷ cells x up here b row
cells x diag left _ _ = []

-- The outer loop, with `row[0]` apart; `i` is the number of the next row.
rows : ℕ → Bytes → Bytes → ℕ → List ℕ → ℕ × List ℕ
rows i [] b first row = (first, row)
rows i (x ∷ a) b first row = rows (i + 1) a b i (cells x first i b row)

-- The row before the first round: 1, 2, ... behind `row[0] = 0`.
count_from : ℕ → Bytes → List ℕ
count_from i [] = []
count_from i (y ∷ b) = i ∷ count_from (i + 1) b

last_cell : ℕ → List ℕ → ℕ
last_cell d [] = d
last_cell d (c ∷ row) = last_cell c row

unfoldable pub levenshtein : Bytes → Bytes → ℕ
unfolding cells rows count_from last_cell
levenshtein a b = let (first, row) = rows 1 a b 0 (count_from 1 b) in last_cell first row

-- The table's recursion, on texts that are read backwards.
unfoldable pub dist : Bytes → Bytes → ℕ
unfolding cost
dist [] ys = length ys
dist (x ∷ xs) [] = suc (length xs)
dist (x ∷ xs) (y ∷ ys) =
    min (min (dist xs (y ∷ ys) + 1) (dist (x ∷ xs) ys + 1)) (dist xs ys + cost x y)

row_of : Bytes → Bytes → Bytes → List ℕ
row_of xs acc [] = []
row_of xs acc (y ∷ b) = dist xs (y ∷ acc) ∷ row_of xs (y ∷ acc) b

cells-row_of :
    (x : ℕ) (xs acc b : Bytes)
    → cells x (dist xs acc) (dist (x ∷ xs) acc) b (row_of xs acc b) ≡ row_of (x ∷ xs) acc b
unfolding cells row_of dist
cells-row_of x xs acc [] = refl
cells-row_of x xs acc (y ∷ b) =
    ap (λ (t : List ℕ). dist (x ∷ xs) (y ∷ acc) ∷ t) (cells-row_of x xs (y ∷ acc) b)

count_from-row_of : (acc b : Bytes) → count_from (suc (length acc)) b ≡ row_of [] acc b
unfolding count_from row_of dist
count_from-row_of acc [] = refl
count_from-row_of acc (y ∷ b) =
    rw add-one (ap (λ (t : List ℕ). suc (length acc) ∷ t) (count_from-row_of (y ∷ acc) b))

cells-row_of-nil :
    (x : ℕ) (xs b : Bytes)
    → cells x (length xs) (suc (length xs)) b (row_of xs [] b) ≡ row_of (x ∷ xs) [] b
unfolding dist
cells-row_of-nil x [] b = cells-row_of x [] [] b
cells-row_of-nil x (z ∷ xs) b = cells-row_of x (z ∷ xs) [] b

rows-row_of :
    (xs a b : Bytes)
    → rows (suc (length xs)) a b (length xs) (row_of xs [] b)
      ≡ (length (reverse_aux a xs), row_of (reverse_aux a xs) [] b)
unfolding rows
rows-row_of xs [] b = refl
rows-row_of xs (x ∷ a) b = rw (add-one, cells-row_of-nil x xs b) (rows-row_of (x ∷ xs) a b)

last_cell-row_of :
    (xs acc b : Bytes) → last_cell (dist xs acc) (row_of xs acc b) ≡ dist xs (reverse_aux b acc)
unfolding last_cell row_of
last_cell-row_of xs acc [] = refl
last_cell-row_of xs acc (y ∷ b) = last_cell-row_of xs (y ∷ acc) b

last_cell-length : (xs b : Bytes) → last_cell (length xs) (row_of xs [] b) ≡ dist xs (reverse b)
unfolding dist
last_cell-length [] b = last_cell-row_of [] [] b
last_cell-length (x ∷ xs) b = last_cell-row_of (x ∷ xs) [] b

pub levenshtein-dist : (a b : Bytes) → levenshtein a b ≡ dist (reverse a) (reverse b)
unfolding levenshtein
levenshtein-dist a b =
    rw (count_from-row_of [] b, rows-row_of [] a b) (last_cell-length (reverse a) b)
