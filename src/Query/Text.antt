-- ===== src/Query/Text.antt =====
-- The text helpers of src/query/pql.cpp: unescaping, matchers and hash prefixes.
use porla.Base.{
  ℕ, ◌+◌, ◌-◌, ◌*◌, ◌/◌, ◌%◌, ◌<◌, ◌≡◌, inl, inr, refl, sym, ap, ◌∙◌, Bool, true, false, not, ◌&&◌,
  ◌||◌, List, [], ◌∷◌, ◌++◌, Option, none, some, map, arith, Bytes, ◌==◌, leb, ltb, if◌then◌else◌,
  any_of, all_of, Bool-cases, is_xdigit, strip_prefix, starts_with, length,
}
use porla.Text.{to_lower}
use porla.Query.{Value, list_of}
use porla.Query.Glob.{glob_match, equals_ignore_case}

abbrev pub backslash : ℕ
backslash = 92

abbrev pub quote : ℕ
quote = 34

-- The loop of `Unescape` behind the opening quote. The last byte is the closing quote; a backslash
-- right before it stands for itself.
unfoldable pub unescape_loop : Bytes → Bytes
unescape_loop [] = []
unescape_loop (c ∷ []) = []
unescape_loop (c ∷ d ∷ []) = c ∷ []
unescape_loop (c ∷ d ∷ e ∷ s) =
    if c == backslash then d ∷ unescape_loop (e ∷ s) else c ∷ unescape_loop (d ∷ e ∷ s)

unfoldable pub unescape : Bytes → Bytes
unfolding unescape_loop
unescape [] = []
unescape (q ∷ s) = unescape_loop s

-- The source form of a text between quotes.
pub escape : Bytes → Bytes
escape [] = []
escape (c ∷ s) = if (c == backslash) || (c == quote) then backslash ∷ c ∷ escape s else c ∷ escape s

unescape_loop_plain :
    (c d : ℕ) (s : Bytes)
    → (c == backslash) ≡ false
    → unescape_loop (c ∷ d ∷ s) ≡ c ∷ unescape_loop (d ∷ s)
unfolding unescape_loop
unescape_loop_plain c d [] h = refl
unescape_loop_plain c d (e ∷ s) h = rw h

unescape_loop_escaped :
    (c d : ℕ) (s : Bytes) → unescape_loop (backslash ∷ c ∷ d ∷ s) ≡ c ∷ unescape_loop (d ∷ s)
unfolding unescape_loop
unescape_loop_escaped c d s = refl

escape-cons : (s : Bytes) → (d : ℕ) × (r : Bytes) × (escape s ++ quote ∷ [] ≡ d ∷ r)
unfolding escape
escape-cons [] = (quote, [], refl)
escape-cons (c ∷ s) = elim (Bool-cases ((c == backslash) || (c == quote))) [
  | inl h ↦ (backslash, c ∷ escape s ++ quote ∷ [], rw h)
  | inr h ↦ (c, escape s ++ quote ∷ [], rw h)
]

unescape_loop-escape : (s : Bytes) → unescape_loop (escape s ++ quote ∷ []) ≡ s
unfolding escape
unescape_loop-escape [] = unfold unescape_loop in refl
unescape_loop-escape (c ∷ s) =
    let (d, r, e) = escape-cons s in
    let ih : unescape_loop (d ∷ r) ≡ s = rw (← e) (unescape_loop-escape s) in
    elim (Bool-cases ((c == backslash) || (c == quote))) [
      | inl h ↦ rw (h, e) (unescape_loop_escaped c d r ∙ ap (λ (t : Bytes). c ∷ t) ih)
      | inr h ↦ rw (h, e) (unescape_loop_plain c d r (ground arith) ∙ ap (λ (t : Bytes). c ∷ t) ih)
    ]

-- What `Unescape` makes of a text in quotes, where each quote and each backslash has a backslash
-- before it, is that text.
pub unescape-escape : (s : Bytes) → unescape (quote ∷ escape s ++ quote ∷ []) ≡ s
unfolding unescape
unescape-escape s = unescape_loop-escape s

-- `TextMatcher`.
pub data Mode : Type 0 where
  contains equals glob : Mode

pub record TextMatcher : Type 0 where
  pub mode : Mode
  pub needle : Bytes

-- `std::equal` and the comparison at one place of `std::search`, with `EqualsIgnoreCase`.
unfoldable pub equals_text : Bytes → Bytes → Bool
equals_text [] [] = true
equals_text [] (n ∷ ns) = false
equals_text (c ∷ t) [] = false
equals_text (c ∷ t) (n ∷ ns) = equals_ignore_case c n && equals_text t ns

unfoldable pub begins_with : Bytes → Bytes → Bool
begins_with t [] = true
begins_with [] (n ∷ ns) = false
begins_with (c ∷ t) (n ∷ ns) = equals_ignore_case c n && begins_with t ns

-- Whether `std::search` stops before the end of the text: in an empty text it never does, whatever it
-- looks for.
unfoldable pub search_text : Bytes → Bytes → Bool
unfolding begins_with
search_text [] needle = false
search_text (c ∷ t) needle = begins_with (c ∷ t) needle || search_text t needle

abbrev is_true : Option Bool → Bool
is_true none = false
is_true (some b) = b

unfoldable pub matches_mode : Mode → Bytes → Bytes → Bool
matches_mode contains needle text = search_text text needle
matches_mode equals needle text = equals_text text needle
matches_mode glob needle text = is_true (glob_match needle text)

unfoldable pub matches : TextMatcher → Bytes → Bool
unfolding matches_mode
matches m text = matches_mode m.mode m.needle text

unfoldable pub matcher_of : Bool → Mode → Bytes → TextMatcher
matcher_of quoted default_mode item = record {
  mode = if not quoted && any_of (λ c. c == b'*') item then glob else default_mode;
  needle = to_lower item;
}

unfoldable pub matchers_of : Value → Mode → List TextMatcher
unfolding matcher_of list_of
matchers_of v default_mode = map (matcher_of v.quoted default_mode) (list_of v)

-- `IsHex` and `LooksLikeHash`.
unfoldable pub is_hex : Bytes → Bool
is_hex = all_of is_xdigit

unfoldable pub looks_like_hash : Bytes → Bool
unfolding is_hex
looks_like_hash s = leb 8 (length s) && leb (length s) 64 && is_hex s

-- A digit of `"0123456789abcdef"`.
unfoldable pub hex_digit : ℕ → ℕ
hex_digit n = if ltb n 10 then b'0' + n else b'a' + (n - 10)

-- The test of one prefix in `HashHasPrefix`: `low` tells whether the next digit is a low nibble. The
-- size is checked first, so that the loop does not run past the hash.
unfoldable pub has_prefix_loop : Bytes → Bool → Bytes → Bool
unfolding hex_digit
has_prefix_loop [] low hash = true
has_prefix_loop (c ∷ p) low [] = false
has_prefix_loop (c ∷ p) false (b ∷ hash) =
    if hex_digit (b / 16) == c then has_prefix_loop p true (b ∷ hash) else false
has_prefix_loop (c ∷ p) true (b ∷ hash) =
    if hex_digit (b % 16) == c then has_prefix_loop p false hash else false

unfoldable pub has_prefix : Bytes → Bytes → Bool
unfolding has_prefix_loop
has_prefix hash p = if ltb (length hash * 2) (length p) then false else has_prefix_loop p false hash

-- A hash has a v1 part, a v2 part or both.
pub record InfoHash : Type 0 where
  pub v1 : Option Bytes
  pub v2 : Option Bytes

abbrev pub check_part : List Bytes → Option Bytes → Bool
check_part prefixes none = false
check_part prefixes (some h) = any_of (has_prefix h) prefixes

unfoldable pub hash_has_prefix : InfoHash → List Bytes → Bool
unfolding has_prefix
hash_has_prefix ih prefixes = check_part prefixes ih.v1 || check_part prefixes ih.v2

-- The digits of a hash, as `ToHex` writes them.
pub to_hex : Bytes → Bytes
unfolding hex_digit
to_hex [] = []
to_hex (b ∷ hash) = hex_digit (b / 16) ∷ hex_digit (b % 16) ∷ to_hex hash

length-to_hex : (h : Bytes) → length (to_hex h) ≡ length h * 2
unfolding to_hex
length-to_hex [] = refl
length-to_hex (b ∷ h) = omega (arith, length-to_hex h)

mutual
  unfolding has_prefix_loop to_hex strip_prefix

  high_nibble : (p h : Bytes) → has_prefix_loop p false h ≡ starts_with p (to_hex h)
  high_nibble [] h = refl
  high_nibble (c ∷ p) [] = refl
  high_nibble (c ∷ p) (b ∷ h) = ground (arith, low_nibble p b h)

  low_nibble :
      (p : Bytes) (b : ℕ) (h : Bytes)
      → has_prefix_loop p true (b ∷ h) ≡ starts_with p (hex_digit (b % 16) ∷ to_hex h)
  low_nibble [] b h = refl
  low_nibble (c ∷ p) b h = ground (arith, high_nibble p h)

starts_with-length : (p s : Bytes) → length s < length p → starts_with p s ≡ false
unfolding strip_prefix
starts_with-length [] s h = absurd (omega arith)
starts_with-length (c ∷ p) [] h = refl
starts_with-length (c ∷ p) (d ∷ s) h = ground (arith, starts_with-length p s)

-- A prefix fits a hash exactly if it begins the hash's hexadecimal form.
pub has_prefix-to_hex : (h p : Bytes) → has_prefix h p ≡ starts_with p (to_hex h)
unfolding has_prefix
has_prefix-to_hex h p = elim (Bool-cases (ltb (length h * 2) (length p))) [
  | inl e ↦ rw e (sym (starts_with-length p (to_hex h) (rw (length-to_hex h) (ground arith))))
  | inr e ↦ rw e (high_nibble p h)
]
