-- ===== src/Text/Edits.antt =====
-- What `String::Levenshtein` is to compute: the length of a shortest edit script.
use mathlib.Core.List.{reverse-cons, reverse-reverse}
use mathlib.Core.Path.{subst₂}
use porla.Base.{
  ℕ, suc, ◌+◌, ◌≤◌, min, ◌≡◌, ◌⊎◌, inl, inr, subst, [], ◌∷◌, ◌++◌, reverse, arith, Bytes, length,
  ◌==◌, Bool-cases, ==_iff,
}
use porla.Text.Levenshtein.{levenshtein, levenshtein-dist, dist, cost}

-- A script of `n` erasures, insertions and substitutions that turns one text into the other.
pub data Edits : Bytes → Bytes → ℕ → Type 0 where
  done : Edits [] [] 0
  same : {x y : ℕ} {xs ys : Bytes} {n : ℕ} → x ≡ y → Edits xs ys n → Edits (x ∷ xs) (y ∷ ys) n
  change : {x y : ℕ} {xs ys : Bytes} {n : ℕ} → Edits xs ys n → Edits (x ∷ xs) (y ∷ ys) (suc n)
  erase : {x : ℕ} {xs ys : Bytes} {n : ℕ} → Edits xs ys n → Edits (x ∷ xs) ys (suc n)
  insert : {y : ℕ} {xs ys : Bytes} {n : ℕ} → Edits xs ys n → Edits xs (y ∷ ys) (suc n)

dist-erase : (x : ℕ) (xs ys : Bytes) → dist (x ∷ xs) ys ≤ suc (dist xs ys)
unfolding dist
dist-erase x [] [] = omega arith
dist-erase x (z ∷ xs) [] = omega arith
dist-erase x xs (y ∷ ys) = omega arith

dist-insert : (y : ℕ) (xs ys : Bytes) → dist xs (y ∷ ys) ≤ suc (dist xs ys)
unfolding dist
dist-insert y [] ys = omega arith
dist-insert y (x ∷ xs) ys = omega arith

-- No script is shorter than `dist`.
dist-le : {xs ys : Bytes} {n : ℕ} → Edits xs ys n → dist xs ys ≤ n
unfolding dist
dist-le done = omega arith
dist-le (same {x} {y} {xs} {ys} e d) = ground (arith, dist-le d, ==_iff x y)
dist-le (change {x} {y} {xs} {ys} d) = ground (arith, dist-le d)
dist-le (erase {x} {xs} {ys} d) = omega (arith, dist-le d, dist-erase x xs ys)
dist-le (insert {y} {xs} {ys} d) = omega (arith, dist-le d, dist-insert y xs ys)

erase_all : (xs : Bytes) → Edits xs [] (length xs)
erase_all [] = done
erase_all (x ∷ xs) = erase (erase_all xs)

insert_all : (ys : Bytes) → Edits [] ys (length ys)
insert_all [] = done
insert_all (y ∷ ys) = insert (insert_all ys)

at_cost : {xs ys : Bytes} {n m : ℕ} → n ≡ m → Edits xs ys n → Edits xs ys m
at_cost {xs} {ys} e d = subst (Edits xs ys) e d

diagonal :
    (x y : ℕ) (xs ys : Bytes) (n : ℕ) → Edits xs ys n → Edits (x ∷ xs) (y ∷ ys) (n + cost x y)
unfolding cost
diagonal x y xs ys n d = elim (Bool-cases (x == y)) [
  | inl e ↦ rw e (at_cost (omega arith) (same ((==_iff x y).0 e) d))
  | inr e ↦ rw e (at_cost (omega arith) (change d))
]

min_cases : (a b c : ℕ) → (min (min a b) c ≡ a) ⊎ (min (min a b) c ≡ b) ⊎ (min (min a b) c ≡ c)
min_cases a b c = grind arith

-- There is a script of that length.
dist-Edits : (xs ys : Bytes) → Edits xs ys (dist xs ys)
unfolding dist
dist-Edits [] ys = insert_all ys
dist-Edits (x ∷ xs) [] = erase_all (x ∷ xs)
dist-Edits (x ∷ xs) (y ∷ ys) =
    let up : Edits (x ∷ xs) (y ∷ ys) (suc (dist xs (y ∷ ys))) =
      erase {x = x} (dist-Edits xs (y ∷ ys)) in
    let left = insert {y = y} (dist-Edits (x ∷ xs) ys) in
    let corner = diagonal x y xs ys (dist xs ys) (dist-Edits xs ys) in
    elim (min_cases (dist xs (y ∷ ys) + 1) (dist (x ∷ xs) ys + 1) (dist xs ys + cost x y)) [
      | inl e ↦ at_cost (omega arith) up
      | inr (inl e) ↦ at_cost (omega arith) left
      | inr (inr e) ↦ at_cost (omega arith) corner
    ]

erase_last : (x : ℕ) {xs ys : Bytes} {n : ℕ} → Edits xs ys n → Edits (xs ++ x ∷ []) ys (suc n)
erase_last x done = erase done
erase_last x (same e d) = same e (erase_last x d)
erase_last x (change d) = change (erase_last x d)
erase_last x (erase d) = erase (erase_last x d)
erase_last x (insert d) = insert (erase_last x d)

insert_last : (y : ℕ) {xs ys : Bytes} {n : ℕ} → Edits xs ys n → Edits xs (ys ++ y ∷ []) (suc n)
insert_last y done = insert done
insert_last y (same e d) = same e (insert_last y d)
insert_last y (change d) = change (insert_last y d)
insert_last y (erase d) = erase (insert_last y d)
insert_last y (insert d) = insert (insert_last y d)

change_last :
    (x y : ℕ) {xs ys : Bytes} {n : ℕ} → Edits xs ys n → Edits (xs ++ x ∷ []) (ys ++ y ∷ []) (suc n)
change_last x y done = change done
change_last x y (same e d) = same e (change_last x y d)
change_last x y (change d) = change (change_last x y d)
change_last x y (erase d) = erase (change_last x y d)
change_last x y (insert d) = insert (change_last x y d)

same_last :
    {x y : ℕ} {xs ys : Bytes} {n : ℕ}
    → x ≡ y
    → Edits xs ys n
    → Edits (xs ++ x ∷ []) (ys ++ y ∷ []) n
same_last p done = same p done
same_last p (same e d) = same e (same_last p d)
same_last p (change d) = change (same_last p d)
same_last p (erase d) = erase (same_last p d)
same_last p (insert d) = insert (same_last p d)

-- A script read backwards.
reverse-Edits : {xs ys : Bytes} {n : ℕ} → Edits xs ys n → Edits (reverse xs) (reverse ys) n
reverse-Edits done = done
reverse-Edits (same {x} {y} {xs} {ys} e d) =
    rw (reverse-cons x xs, reverse-cons y ys) (same_last e (reverse-Edits d))
reverse-Edits (change {x} {y} {xs} {ys} d) =
    rw (reverse-cons x xs, reverse-cons y ys) (change_last x y (reverse-Edits d))
reverse-Edits (erase {x} {xs} {ys} d) = rw (reverse-cons x xs) (erase_last x (reverse-Edits d))
reverse-Edits (insert {y} {xs} {ys} d) = rw (reverse-cons y ys) (insert_last y (reverse-Edits d))

forwards : (a b : Bytes) (n : ℕ) → Edits (reverse a) (reverse b) n → Edits a b n
forwards a b n d =
    subst₂ (λ xs ys. Edits xs ys n) (reverse-reverse a) (reverse-reverse b) (reverse-Edits d)

-- `levenshtein a b` is the length of a script that turns `a` into `b`, and no such script is
-- shorter.
pub levenshtein-minimal :
    (a b : Bytes) → Edits a b (levenshtein a b) × ((n : ℕ) → Edits a b n → levenshtein a b ≤ n)
levenshtein-minimal a b =
    rw (levenshtein-dist a b)
      (forwards a b _ (dist-Edits (reverse a) (reverse b)), λ n d. dist-le (reverse-Edits d))
