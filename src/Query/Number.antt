-- ===== src/Query/Number.antt =====
-- Numbers and units of src/query/pql.cpp: `UnitMultiplier`, `NumberPrefix`, `IsDurationWithUnit`.
use porla.Base.{
  ℕ, suc, ◌+◌, ◌*◌, ◌^◌, Bool, true, false, ◌&&◌, ◌||◌, List, [], ◌∷◌, Option, none, some, Bytes,
  codes, ◌==◌, if◌then◌else◌, is_digit, bytes_eq, is_some, length, drop, is_empty,
}
use porla.Text.{to_lower}
use porla.Query.{Kind}

unfoldable pub lookup_unit : Bytes → List (Bytes × ℕ) → Option ℕ
lookup_unit unit [] = none
lookup_unit unit ((name, factor) ∷ units) =
    if bytes_eq name unit then some factor else lookup_unit unit units

abbrev sizes : List (Bytes × ℕ)
sizes =
    (codes "", 1)
    ∷ (codes "b", 1)
    ∷ (codes "kb", 10 ^ 3)
    ∷ (codes "mb", 10 ^ 6)
    ∷ (codes "gb", 10 ^ 9)
    ∷ (codes "tb", 10 ^ 12)
    ∷ (codes "pb", 10 ^ 15)
    ∷ (codes "kib", 1024)
    ∷ (codes "mib", 1024 ^ 2)
    ∷ (codes "gib", 1024 ^ 3)
    ∷ (codes "tib", 1024 ^ 4)
    ∷ (codes "pib", 1024 ^ 5)
    ∷ []

abbrev durations : List (Bytes × ℕ)
durations =
    (codes "", 1)
    ∷ (codes "s", 1)
    ∷ (codes "m", 60)
    ∷ (codes "h", 3600)
    ∷ (codes "d", 86400)
    ∷ (codes "w", 604800)
    ∷ (codes "mo", 30 * 86400)
    ∷ (codes "y", 365 * 86400)
    ∷ []

-- `unit` without a "/s" at its end.
unfoldable pub per_second : Bytes → Bytes
per_second [] = []
per_second (c ∷ s) = if bytes_eq (c ∷ s) (codes "/s") then [] else c ∷ per_second s

unfoldable pub unit_multiplier : Kind → Bytes → Option ℕ
unfolding lookup_unit per_second
unit_multiplier Kind.size unit = lookup_unit unit sizes
unit_multiplier Kind.rate unit = lookup_unit (per_second unit) sizes
unit_multiplier Kind.duration unit = lookup_unit unit durations
unit_multiplier Kind.percent unit =
    if is_empty unit || bytes_eq unit (codes "%") then some 10000 else none
unit_multiplier _ unit = if is_empty unit then some 1 else none

unfoldable pub count_digits : Bytes → ℕ
count_digits [] = 0
count_digits (c ∷ s) = let more = count_digits s in if is_digit c then suc more else 0

-- The digits behind a point, with the point, if there are any.
unfoldable pub fraction : Bytes → ℕ
unfolding count_digits
fraction (p ∷ c ∷ s) = if p == b'.' && is_digit c then suc (count_digits (c ∷ s)) else 0
fraction _ = 0

unfoldable pub number_prefix : Bytes → ℕ
unfolding fraction
number_prefix text = let i = count_digits text in if i == 0 then 0 else i + fraction (drop i text)

unfoldable pub is_duration_with_unit : Bytes → Bool
unfolding number_prefix unit_multiplier
is_duration_with_unit text =
    let n = number_prefix text in
    if (n == 0) || (n == length text)
    then false
    else is_some (unit_multiplier Kind.duration (to_lower (drop n text)))

unfoldable pub is_percent : Kind → Bool
is_percent Kind.percent = true
is_percent _ = false
