-- ===== src/Text.antt =====
-- src/utils/string.cpp: `ToLower`, `Split` and `Levenshtein`.
pub mod Split
pub mod Levenshtein
pub mod Edits
use porla.Base.{ℕ, ◌≡◌, ap₂, refl, Bytes, map, [], ◌∷◌, to_lower_byte, to_lower_byte_idem}

unfoldable pub to_lower : Bytes → Bytes
to_lower = map to_lower_byte

pub to_lower_idem : (s : Bytes) → to_lower (to_lower s) ≡ to_lower s
unfolding to_lower
to_lower_idem [] = refl
to_lower_idem (c ∷ s) = ap₂ ◌∷◌ (to_lower_byte_idem c) (to_lower_idem s)
