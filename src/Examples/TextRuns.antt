-- ===== src/Examples/TextRuns.antt =====
-- src/utils/string.cpp at concrete inputs.
use porla.Base.{ℕ, ◌≡◌, ◌≤◌, refl, [], ◌∷◌, codes, some, none}
use porla.Text.Split.{split, split_loop, Splits, split-Splits, split_loop-empty_delim}
use porla.Text.Levenshtein.{levenshtein}
use porla.Text.Edits.{Edits, levenshtein-minimal}

kitten : levenshtein (codes "kitten") (codes "sitting") ≡ 3
unfolding levenshtein
kitten = refl

three_pieces : split (codes "a,,b") (codes ",") ≡ some (codes "a" ∷ [] ∷ codes "b" ∷ [])
unfolding split
three_pieces = refl

levenshtein-minimal_example :
    Edits (codes "ratio") (codes "ration") (levenshtein (codes "ratio") (codes "ration"))
    × ((n : ℕ)
        → Edits (codes "ratio") (codes "ration") n
        → levenshtein (codes "ratio") (codes "ration") ≤ n)
levenshtein-minimal_example = levenshtein-minimal (codes "ratio") (codes "ration")

split-Splits_example : Splits (codes "::") (codes "a::b:c") (split (codes "a::b:c") (codes "::"))
split-Splits_example = split-Splits b':' (codes ":") (codes "a::b:c")

split_loop-empty_delim_example : split_loop 9 (codes "ab") [] ≡ none
split_loop-empty_delim_example = split_loop-empty_delim 9 (codes "ab")
