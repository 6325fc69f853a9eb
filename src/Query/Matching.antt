-- ===== src/Query/Matching.antt =====
-- What a text matcher of src/query/pql.cpp accepts.
use porla.Base.{
  ℕ, ◌≡◌, ◌↔◌, refl, subst, ap, ap₂, sym, Bool, true, false, [], ◌∷◌, ◌++◌, some, map, arith, Bytes,
  ==_iff, Bool-cases, Option-cases, inl, inr,
}
use porla.Query.Glob.{lower_ascii, equals_ignore_case, glob_match}
use porla.Query.GlobProof.{Globs, Answers, glob_match-Answers}
use porla.Query.Text.{
  Mode, TextMatcher, equals_text, begins_with, search_text, matches_mode, matches,
}

abbrev pub lowered : Bytes → Bytes
lowered = map lower_ascii

-- The text in lowercase letters is the needle, has the needle as a part and is not empty, or is
-- matched by the needle as a pattern.
abbrev pub FitsMode : Mode → Bytes → Bytes → Type 0
FitsMode Mode.contains needle text =
    ¬ (text ≡ []) × ((pre mid post : Bytes) × (text ≡ pre ++ mid ++ post) × (lowered mid ≡ needle))
FitsMode Mode.equals needle text = lowered text ≡ needle
FitsMode Mode.glob needle text = Globs needle text

abbrev pub Fits : TextMatcher → Bytes → Type 0
Fits m text = FitsMode m.mode m.needle text

abbrev tail : Bytes → Bytes
tail [] = []
tail (c ∷ s) = s

abbrev head : Bytes → ℕ
head [] = 0
head (c ∷ s) = c

equals_text→eq : (t n : Bytes) → equals_text t n ≡ true → lowered t ≡ n
unfolding equals_text equals_ignore_case
equals_text→eq [] [] h = refl
equals_text→eq [] (x ∷ n) h = absurd cc
equals_text→eq (c ∷ t) [] h = absurd cc
equals_text→eq (c ∷ t) (x ∷ n) h =
    ap₂ (λ y ys. y ∷ ys) ((==_iff (lower_ascii c) x).0 (ground arith))
      (equals_text→eq t n (ground arith))

eq→equals_text : (t n : Bytes) → lowered t ≡ n → equals_text t n ≡ true
unfolding equals_text equals_ignore_case
eq→equals_text [] [] h = refl
eq→equals_text [] (x ∷ n) h = absurd cc
eq→equals_text (c ∷ t) [] h = absurd cc
eq→equals_text (c ∷ t) (x ∷ n) h =
    rw ((==_iff (lower_ascii c) x).1 (ap head h), eq→equals_text t n (ap tail h)) refl

abbrev Starts : Bytes → Bytes → Type 0
Starts t n = (mid post : Bytes) × (t ≡ mid ++ post) × (lowered mid ≡ n)

begins_with→Starts : (t n : Bytes) → begins_with t n ≡ true → Starts t n
unfolding begins_with equals_ignore_case
begins_with→Starts t [] h = ([], t, refl, refl)
begins_with→Starts [] (x ∷ n) h = absurd cc
begins_with→Starts (c ∷ t) (x ∷ n) h =
    let (mid, post, e, q) = begins_with→Starts t n (ground arith) in
    (
      c ∷ mid,
      post,
      ap (λ (s : Bytes). c ∷ s) e,
      ap₂ (λ y ys. y ∷ ys) ((==_iff (lower_ascii c) x).0 (ground arith)) q,
    )

Starts→begins_with :
    (t n mid post : Bytes) → t ≡ mid ++ post → lowered mid ≡ n → begins_with t n ≡ true
unfolding begins_with equals_ignore_case
Starts→begins_with t [] mid post e q = refl
Starts→begins_with t (x ∷ n) [] post e q = absurd cc
Starts→begins_with [] (x ∷ n) (c ∷ mid) post e q = absurd cc
Starts→begins_with (d ∷ t) (x ∷ n) (c ∷ mid) post e q =
    rw
      (
        ap head e,
        (==_iff (lower_ascii c) x).1 (ap head q),
        Starts→begins_with t n mid post (ap tail e) (ap tail q),
      )
      refl

-- The needle is a part of the text.
abbrev Occurs : Bytes → Bytes → Type 0
Occurs t n = (pre mid post : Bytes) × (t ≡ pre ++ mid ++ post) × (lowered mid ≡ n)

not_empty : (c : ℕ) (t : Bytes) → ¬ (c ∷ t ≡ [])
not_empty c t e = absurd cc

search_text→Occurs : (t n : Bytes) → search_text t n ≡ true → Occurs t n
unfolding search_text
search_text→Occurs [] n h = absurd cc
search_text→Occurs (c ∷ t) n h = elim (Bool-cases (begins_with (c ∷ t) n)) [
  | inl b ↦ let (mid, post, e, q) = begins_with→Starts (c ∷ t) n b in ([], mid, post, e, q)
  | inr b ↦
      let (pre, mid, post, e, q) = search_text→Occurs t n (ground arith) in
      (c ∷ pre, mid, post, ap (λ (s : Bytes). c ∷ s) e, q)
]

search_text→Fits : (t n : Bytes) → search_text t n ≡ true → FitsMode Mode.contains n t
unfolding search_text
search_text→Fits [] n h = absurd cc
search_text→Fits (c ∷ t) n h = (not_empty c t, search_text→Occurs (c ∷ t) n h)

-- The needle at the end of the text is found there only if it is not empty.
Occurs→search_text :
    (t n pre mid post : Bytes)
    → ¬ (mid ++ post ≡ [])
    → t ≡ pre ++ mid ++ post
    → lowered mid ≡ n
    → search_text t n ≡ true
unfolding search_text
Occurs→search_text [] n [] mid post z e q = absurd (z (sym e))
Occurs→search_text (c ∷ t) n [] mid post z e q = rw (Starts→begins_with (c ∷ t) n mid post e q) refl
Occurs→search_text [] n (d ∷ pre) mid post z e q = absurd cc
Occurs→search_text (c ∷ t) n (d ∷ pre) mid post z e q =
    ground (arith, Occurs→search_text t n pre mid post z (ap tail e) q)

-- An empty needle is found at the start of a text that is not empty.
Fits→search_text :
    (t n pre mid post : Bytes)
    → ¬ (t ≡ [])
    → t ≡ pre ++ mid ++ post
    → lowered mid ≡ n
    → search_text t n ≡ true
unfolding search_text
Fits→search_text [] n pre mid post z e q = absurd (z refl)
Fits→search_text (c ∷ t) n pre [] post z e q =
    rw (Starts→begins_with (c ∷ t) n [] (c ∷ t) refl q) refl
Fits→search_text (c ∷ t) n pre (d ∷ mid) post z e q =
    Occurs→search_text (c ∷ t) n pre (d ∷ mid) post (not_empty d (mid ++ post)) e q

glob_iff : (needle text : Bytes) → (matches_mode Mode.glob needle text ≡ true) ↔ Globs needle text
unfolding matches_mode
glob_iff needle text = elim (Option-cases (glob_match needle text)) [
  | inl e ↦ absurd (subst (Answers (Globs needle text)) e (glob_match-Answers needle text))
  | inr (b, e) ↦
      decided b e (subst (Answers (Globs needle text)) e (glob_match-Answers needle text))
]
  where
    decided :
        (b : Bool)
        → glob_match needle text ≡ some b
        → Answers (Globs needle text) (some b)
        → (matches_mode Mode.glob needle text ≡ true) ↔ Globs needle text
    decided true e a = rw e ((λ h. a), λ g. refl)
    decided false e a = rw e ((λ h. absurd cc), λ g. absurd (a g))

-- A matcher accepts a text exactly if, as its mode says, the text in lowercase letters is the needle,
-- or the text is not empty and the needle is a part of it in lowercase letters, or the needle is a
-- pattern that matches the text, where the case of ASCII letters does not count; so an empty text
-- contains nothing, not even an empty needle.
pub matches_iff : (m : TextMatcher) (text : Bytes) → (matches m text ≡ true) ↔ Fits m text
unfolding matches matches_mode
matches_iff m text = by_mode m.mode
  where
    by_mode : (mode : Mode) → (matches_mode mode m.needle text ≡ true) ↔ FitsMode mode m.needle text
    by_mode Mode.contains = (
      search_text→Fits text m.needle,
      λ (z, (pre, mid, post, e, q)). Fits→search_text text m.needle pre mid post z e q,
    )
    by_mode Mode.equals = (equals_text→eq text m.needle, eq→equals_text text m.needle)
    by_mode Mode.glob = glob_iff m.needle text
