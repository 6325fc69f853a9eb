-- ===== src/Query/Suggesting.antt =====
-- What `Suggest` of src/query/pql.cpp proposes.
use porla.Base.{
  ℕ, ◌≡◌, ◌≤◌, ◌<◌, refl, List, [], ◌∷◌, Option, none, some, arith, Bytes, ltb, All, In, Bool-cases,
  inl, inr, ◌⊎◌, ap, sym,
}
use porla.Text.Levenshtein.{levenshtein}
use porla.Query.{nearest, suggest}

-- The best so far, at the distance `d`: `c` is among the candidates, or it was the best before them.
abbrev NearestFrom : Bytes → List Bytes → Option Bytes → ℕ → Option Bytes → Type 0
NearestFrom name cs best bound none = (best ≡ none) × All (λ c. bound ≤ levenshtein name c) cs
NearestFrom name cs best bound (some r) =
    ((best ≡ some r) × All (λ c. bound ≤ levenshtein name c) cs)
    ⊎ (In r cs
        × (levenshtein name r < bound)
        × All (λ c. levenshtein name r ≤ levenshtein name c) cs)

-- A nearest candidate at a distance below `bound`, or none if there is no such candidate.
abbrev pub Nearest : Bytes → List Bytes → ℕ → Option Bytes → Type 0
Nearest name cs bound none = All (λ c. bound ≤ levenshtein name c) cs
Nearest name cs bound (some r) =
    In r cs × (levenshtein name r < bound) × All (λ c. levenshtein name r ≤ levenshtein name c) cs

All-mono_le :
    (name : Bytes) (a b : ℕ) (cs : List Bytes)
    → a ≤ b
    → All (λ c. b ≤ levenshtein name c) cs
    → All (λ c. a ≤ levenshtein name c) cs
All-mono_le name a b [] h p = tt
All-mono_le name a b (c ∷ cs) h p = (omega (arith, p.0), All-mono_le name a b cs h p.1)

abbrev get_or : Bytes → Option Bytes → Bytes
get_or c none = c
get_or c (some x) = x

closer :
    (name c : Bytes) (cs : List Bytes) (best : Option Bytes) (bound : ℕ) (r : Option Bytes)
    → levenshtein name c < bound
    → NearestFrom name cs (some c) (levenshtein name c) r
    → NearestFrom name (c ∷ cs) best bound r
closer name c cs best bound none h p = absurd (ground (arith, p.0))
closer name c cs best bound (some r) h (inl (e, p)) =
    let q : c ≡ r = ap (get_or c) e in
    let d : levenshtein name c ≡ levenshtein name r = ap (levenshtein name) q in
    inr (
      inl (sym q),
      omega (arith, h, d),
      (
        omega (arith, d),
        All-mono_le name (levenshtein name r) (levenshtein name c) cs (omega (arith, d)) p,
      ),
    )
closer name c cs best bound (some r) h (inr (i, l, p)) =
    inr (inr i, omega (arith, l), (omega (arith, l), p))

farther :
    (name c : Bytes) (cs : List Bytes) (best : Option Bytes) (bound : ℕ) (r : Option Bytes)
    → bound ≤ levenshtein name c
    → NearestFrom name cs best bound r
    → NearestFrom name (c ∷ cs) best bound r
farther name c cs best bound none h p = (p.0, (h, p.1))
farther name c cs best bound (some r) h (inl (e, p)) = inl (e, (h, p))
farther name c cs best bound (some r) h (inr (i, l, p)) = inr (inr i, l, (omega (arith, l), p))

nearest-NearestFrom :
    (name : Bytes) (cs : List Bytes) (best : Option Bytes) (bound : ℕ)
    → NearestFrom name cs best bound (nearest name cs best bound)
unfolding nearest
nearest-NearestFrom name [] none bound = (refl, tt)
nearest-NearestFrom name [] (some r) bound = inl (refl, tt)
nearest-NearestFrom name (c ∷ cs) best bound = elim (Bool-cases (ltb (levenshtein name c) bound)) [
  | inl h ↦ rw h (
      closer name c cs best bound _ (ground arith)
        (nearest-NearestFrom name cs (some c) (levenshtein name c)))
  | inr h ↦
      rw h (farther name c cs best bound _ (ground arith) (nearest-NearestFrom name cs best bound))
]

from_none :
    (name : Bytes) (cs : List Bytes) (bound : ℕ) (r : Option Bytes)
    → NearestFrom name cs none bound r
    → Nearest name cs bound r
from_none name cs bound none p = p.1
from_none name cs bound (some r) (inl (e, p)) = absurd cc
from_none name cs bound (some r) (inr p) = p

-- `Suggest` proposes one of the names, at a distance below 3 such that no name is nearer; or nothing,
-- if each name is at a distance of 3 or more.
pub suggest-Nearest :
    (name : Bytes) (candidates : List Bytes) → Nearest name candidates 3 (suggest name candidates)
unfolding suggest
suggest-Nearest name candidates =
    from_none name candidates 3 _ (nearest-NearestFrom name candidates none 3)
