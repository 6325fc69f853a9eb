-- ===== src/Query/Glob.antt =====
-- `GlobMatch` of src/query/pql.cpp, and the comparison of bytes that it shares with the matchers.
use porla.Base.{
  ℕ, zero, suc, ◌+◌, ◌*◌, Bool, true, false, [], ◌∷◌, Option, none, some, Bytes, ◌==◌,
  if◌then◌else◌, length, ◌&&◌, leb,
}

-- `LowerAscii` and `EqualsIgnoreCase`: the second byte is lowercase already.
unfoldable pub lower_ascii : ℕ → ℕ
lower_ascii c = if leb b'A' c && leb c b'Z' then c + 32 else c

unfoldable pub equals_ignore_case : ℕ → ℕ → Bool
unfolding lower_ascii
equals_ignore_case text_char lower_char = lower_ascii text_char == lower_char

-- `star` and `mark`: the pattern behind the last star, and the text where that star began to match.
abbrev pub Star : Type 0
Star = Option (Bytes × Bytes)

unfoldable pub only_stars : Bytes → Bool
only_stars [] = true
only_stars (c ∷ p) = if c == b'*' then only_stars p else false

-- The third branch: the last star takes one more byte.
unfoldable pub back_up : Star → (Bytes → Bytes → Star → Option Bool) → Option Bool
back_up none next = some false
back_up (some (p, [])) next = some false
back_up (some (p, c ∷ mark)) next = next p mark (some (p, mark))

-- The loop, over what is left of the pattern and of the text. `none` means that the fuel ran out.
unfoldable pub glob_loop : ℕ → Bytes → Bytes → Star → Option Bool
unfolding back_up lower_ascii only_stars
glob_loop zero p t star = none
glob_loop (suc f) p [] star = some (only_stars p)
glob_loop (suc f) [] (c ∷ t) star = back_up star (glob_loop f)
glob_loop (suc f) (a ∷ p) (c ∷ t) star =
    let begin = glob_loop f p (c ∷ t) (some (p, c ∷ t)) in
    let onward = glob_loop f p t star in
    let again = back_up star (glob_loop f) in
    if a == b'*' then begin else if a == lower_ascii c then onward else again

abbrev pub glob_fuel : Bytes → Bytes → ℕ
glob_fuel p t = (length t + 1) * (length p + 2)

-- Whether the loop ends in `true`.
unfoldable pub glob_match : Bytes → Bytes → Option Bool
unfolding glob_loop
glob_match p t = glob_loop (glob_fuel p t) p t none
