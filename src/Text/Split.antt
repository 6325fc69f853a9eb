-- ===== src/Text/Split.antt =====
-- `String::Split` (src/utils/string.cpp): `find` and `substr` in a loop, with any delimiter.
use porla.Base.{
  ℕ, zero, suc, ◌≤◌, ◌<◌, ◌≡◌, ◌≢◌, refl, ap, List, [], ◌∷◌, ◌++◌, Option, none, some, true, false,
  arith, Bytes, ◌==◌, if◌then◌else◌, length, length-append, strip_prefix, strip_prefix→append,
  strip_prefix-append, Option-cases, Bool-cases, drop, inl, inr, All, append_assoc,
}

unfoldable pub prepend : ℕ → Option (Bytes × Bytes) → Option (Bytes × Bytes)
prepend c none = none
prepend c (some (before, after)) = some (c ∷ before, after)

unfoldable pub at_start : Option Bytes → Option (Bytes × Bytes)
at_start none = none
at_start (some rest) = some ([], rest)

-- `val.find(delim, pos_start)`: the text before the first match, and the text behind it.
unfoldable pub find : Bytes → Bytes → Option (Bytes × Bytes)
find delim [] = at_start (strip_prefix delim [])
find delim (c ∷ s) = elim (strip_prefix delim (c ∷ s)) [
  | some after ↦ some ([], after)
  | none ↦ prepend c (find delim s)
]

cons_piece : Bytes → Option (List Bytes) → Option (List Bytes)
cons_piece token none = none
cons_piece token (some pieces) = some (token ∷ pieces)

-- The `while` loop. `none` means that the fuel ran out.
pub split_loop : ℕ → Bytes → Bytes → Option (List Bytes)
split_loop zero val delim = none
split_loop (suc f) val delim = elim (find delim val) [
  | none ↦ some (val ∷ [])
  | some (token, rest) ↦ cons_piece token (split_loop f rest delim)
]

unfoldable pub split : Bytes → Bytes → Option (List Bytes)
unfolding split_loop find strip_prefix prepend at_start cons_piece
split val delim = split_loop (suc (length val)) val delim

pub join : Bytes → List Bytes → Bytes
join delim [] = []
join delim (p ∷ []) = p
join delim (p ∷ q ∷ ps) = p ++ (delim ++ join delim (q ∷ ps))

find-append :
    (delim s before after : Bytes)
    → find delim s ≡ some (before, after)
    → s ≡ before ++ (delim ++ after)
unfolding find prepend at_start
find-append delim [] before after h = ground (arith, strip_prefix→append delim [] after)
find-append delim (c ∷ s) before after h =
    ground
      (arith, strip_prefix→append delim (c ∷ s) after, find-append delim s (drop 1 before) after)

-- `find` stops at or before every occurrence.
find_before :
    (delim s x y : Bytes)
    → s ≡ x ++ (delim ++ y)
    → (before : Bytes) × (after : Bytes) × (find delim s ≡ some (before, after))
      × (length before ≤ length x)
unfolding find prepend at_start
find_before delim [] [] y e =
    ([], y, ground (arith, rw (← e) at (strip_prefix-append delim y)), omega arith)
find_before delim [] (d ∷ x) y e = cc
find_before delim (c ∷ s) [] y e =
    ([], y, ground (arith, rw (← e) at (strip_prefix-append delim y)), omega arith)
find_before delim (c ∷ s) (d ∷ x) y e = elim (Option-cases (strip_prefix delim (c ∷ s))) [
  | inl missing ↦
      let (before, after, found, short) = find_before delim s x y (cc) in
      (c ∷ before, after, rw (missing, find, found), omega arith)
  | inr (rest, hit) ↦ ([], rest, rw (hit, find), omega arith)
]

-- A text with `delim` in it.
abbrev pub Contains : Bytes → Bytes → Type 0
Contains delim s = (x : Bytes) × (y : Bytes) × (s ≡ x ++ (delim ++ y))

abbrev pub Splits : Bytes → Bytes → Option (List Bytes) → Type 0
Splits delim val none = ⊥
Splits delim val (some pieces) =
    (join delim pieces ≡ val) × (pieces ≢ []) × All (λ p. ¬ Contains delim p) pieces

cons_piece-Splits :
    (delim val token rest : Bytes) (o : Option (List Bytes))
    → val ≡ token ++ (delim ++ rest)
    → ¬ Contains delim token
    → Splits delim rest o
    → Splits delim val (cons_piece token o)
unfolding join cons_piece
cons_piece-Splits delim val token rest none e n h = h
cons_piece-Splits delim val token rest (some []) e n (j, p, a) = absurd (p refl)
cons_piece-Splits delim val token rest (some (q ∷ ps)) e n (j, p, a) = (rw (j, e), λ x. cc, (n, a))

-- What stands before the first match holds no match.
token_free :
    (d : ℕ) (ds val token rest : Bytes)
    → find (d ∷ ds) val ≡ some (token, rest)
    → ¬ Contains (d ∷ ds) token
token_free d ds val token rest h (x, y, e) =
    let place : val ≡ x ++ ((d ∷ ds) ++ (y ++ ((d ∷ ds) ++ rest))) =
      rw (find-append (d ∷ ds) val token rest h, e) (simp append_assoc) in
    let (before, after, found, short) = find_before (d ∷ ds) val x _ place in
    let same : before ≡ token = ground (arith, h, found) in
    omega
      (arith, ap length same, ap length e, length-append x (d ∷ ds ++ y), length-append (d ∷ ds) y)

no_match : (d : ℕ) (ds val : Bytes) → find (d ∷ ds) val ≡ none → ¬ Contains (d ∷ ds) val
no_match d ds val h (x, y, e) = let (_, _, found, _) = find_before (d ∷ ds) val x y e in cc

split_loop-Splits :
    (f d : ℕ) (val ds : Bytes) → length val < f → Splits (d ∷ ds) val (split_loop f val (d ∷ ds))
unfolding split_loop join
split_loop-Splits zero d val ds h = absurd (omega arith)
split_loop-Splits (suc f) d val ds h = elim (Option-cases (find (d ∷ ds) val)) [
  | inl e ↦ rw (e, split_loop) (refl, (λ x. cc), (no_match d ds val e, tt))
  | inr ((token, rest), e) ↦
      let parts = find-append (d ∷ ds) val token rest e in
      let shorter : length rest < f = omega (
        arith,
        ap length parts,
        length-append token (d ∷ ds ++ rest),
        length-append (d ∷ ds) rest,
      ) in
      rw (e, split_loop)
        (cons_piece-Splits (d ∷ ds) val token rest _ parts (token_free d ds val token rest e)
          (split_loop-Splits f d rest ds shorter))
]

-- With a delimiter that is not empty `Split` returns; its pieces, at least one, hold no delimiter
-- and give the text back when joined.
pub split-Splits : (d : ℕ) (ds val : Bytes) → Splits (d ∷ ds) val (split val (d ∷ ds))
unfolding split
split-Splits d ds val = split_loop-Splits (suc (length val)) d val ds (omega arith)

find-nil : (val : Bytes) → find [] val ≡ some ([], val)
unfolding find at_start strip_prefix
find-nil [] = refl
find-nil (c ∷ s) = refl

-- With an empty delimiter the loop never ends, whatever the text.
pub split_loop-empty_delim : (f : ℕ) (val : Bytes) → split_loop f val [] ≡ none
unfolding split_loop cons_piece
split_loop-empty_delim zero val = refl
split_loop-empty_delim (suc f) val = rw (find-nil val, split_loop, split_loop-empty_delim f val)

-- `Split` at a delimiter of one byte, as a recursion on the text.
onto_first : ℕ → List Bytes → List Bytes
onto_first c [] = (c ∷ []) ∷ []
onto_first c (p ∷ ps) = (c ∷ p) ∷ ps

unfoldable pub split_on : ℕ → Bytes → List Bytes
unfolding onto_first
split_on d [] = [] ∷ []
split_on d (c ∷ s) = if c == d then [] ∷ split_on d s else onto_first c (split_on d s)

map_pieces : (List Bytes → List Bytes) → Option (List Bytes) → Option (List Bytes)
map_pieces f none = none
map_pieces f (some ps) = some (f ps)

onto_first-cons_piece :
    (c : ℕ) (token : Bytes) (o : Option (List Bytes))
    → cons_piece (c ∷ token) o ≡ map_pieces (onto_first c) (cons_piece token o)
unfolding cons_piece map_pieces onto_first
onto_first-cons_piece c token none = refl
onto_first-cons_piece c token (some ps) = refl

pub find_hit : (c d : ℕ) (s : Bytes) → (c == d) ≡ true → find (d ∷ []) (c ∷ s) ≡ some ([], s)
unfolding find strip_prefix
find_hit c d s e = ground arith

pub find_miss :
    (c d : ℕ) (s : Bytes) → (c == d) ≡ false → find (d ∷ []) (c ∷ s) ≡ prepend c (find (d ∷ []) s)
unfolding find strip_prefix
find_miss c d s e = ground arith

split_loop_miss :
    (f c d : ℕ) (s : Bytes)
    → (c == d) ≡ false
    → split_loop (suc f) (c ∷ s) (d ∷ [])
      ≡ map_pieces (onto_first c) (split_loop (suc f) s (d ∷ []))
unfolding split_loop prepend
split_loop_miss f c d s e = elim (Option-cases (find (d ∷ []) s)) [
  | inl h ↦ rw (find_miss c d s e, split_loop, h) (unfold map_pieces onto_first in refl)
  | inr ((token, rest), h) ↦ rw (find_miss c d s e, split_loop, h) (onto_first-cons_piece c token _)
]

split_loop_hit :
    (f c d : ℕ) (s : Bytes)
    → (c == d) ≡ true
    → split_loop (suc f) (c ∷ s) (d ∷ []) ≡ cons_piece [] (split_loop f s (d ∷ []))
unfolding split_loop
split_loop_hit f c d s e = rw (find_hit c d s e, split_loop)

split_loop-split_on :
    (f d : ℕ) (val : Bytes) → length val < f → split_loop f val (d ∷ []) ≡ some (split_on d val)
unfolding split_on
split_loop-split_on zero d val h = absurd (omega arith)
split_loop-split_on (suc f) d [] h = unfold split_loop find at_start strip_prefix in refl
split_loop-split_on (suc f) d (c ∷ s) h = elim (Bool-cases (c == d)) [
  | inl e ↦
      rw (split_loop_hit f c d s e, split_loop-split_on f d s (omega arith), e)
        (unfold cons_piece in refl)
  | inr e ↦
      rw (split_loop_miss f c d s e, split_loop-split_on (suc f) d s (omega arith), e)
        (unfold map_pieces in refl)
]

-- At a delimiter of one byte `Split` is `split_on`.
pub split-split_on : (d : ℕ) (val : Bytes) → split val (d ∷ []) ≡ some (split_on d val)
unfolding split
split-split_on d val = split_loop-split_on (suc (length val)) d val (omega arith)
