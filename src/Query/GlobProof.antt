-- ===== src/Query/GlobProof.antt =====
-- `GlobMatch` of src/query/pql.cpp decides whether a text matches a pattern.
use porla.Base.{
  ℕ, zero, suc, ◌+◌, ◌*◌, ◌≤◌, ◌<◌, ◌≡◌, ◌≢◌, refl, Bool, true, false, [], ◌∷◌, Option, none, some,
  Bytes, arith, ◌==◌, ==_iff, length, Bool-cases, inl, inr,
}
use porla.Query.Glob.{Star, lower_ascii, only_stars, back_up, glob_loop, glob_fuel, glob_match}

-- A star stands for any run of bytes; any other byte for itself, whatever the case of the text.
mutual
  pub data Globs : Bytes → Bytes → Type 0 where
    stop : Globs [] []
    same :
        {a c : ℕ} {p t : Bytes} → a ≢ b'*' → a ≡ lower_ascii c → Globs p t → Globs (a ∷ p) (c ∷ t)
    star : {a : ℕ} {p t : Bytes} → a ≡ b'*' → Starred p t → Globs (a ∷ p) t

  -- The pattern fits some end of the text.
  pub data Starred : Bytes → Bytes → Type 0 where
    leave : {p t : Bytes} → Globs p t → Starred p t
    eat : {c : ℕ} {p t : Bytes} → Starred p t → Starred p (c ∷ t)

-- The question of a run ended with an answer, and the answer is right.
abbrev pub Answers : Type 0 → Option Bool → Type 0
Answers G none = ⊥
Answers G (some true) = G
Answers G (some false) = ¬ G

only_stars→Globs : (p : Bytes) → only_stars p ≡ true → Globs p []
unfolding only_stars
only_stars→Globs [] h = stop
only_stars→Globs (a ∷ p) h = elim (Bool-cases (a == b'*')) [
  | inl e ↦ star ((==_iff a b'*').0 e) (leave (only_stars→Globs p (ground arith)))
  | inr e ↦ absurd (ground arith)
]

Globs→only_stars : (p : Bytes) → Globs p [] → only_stars p ≡ true
unfolding only_stars
Globs→only_stars [] d = refl
Globs→only_stars (a ∷ p) (star e (leave d)) = ground (arith, e, Globs→only_stars p d)

at_end : {p : Bytes} → Starred p [] → Globs p []
at_end (leave d) = d

merge : {a : ℕ} {p t : Bytes} → a ≡ b'*' → Starred (a ∷ p) t → Starred p t
merge q (leave (same n _ _)) = absurd (n q)
merge q (leave (star e d)) = d
merge q (eat d) = eat (merge q d)

-- If the pattern fits an end of the text and not the whole, it fits an end of the rest.
must_eat : {p t : Bytes} {c : ℕ} → Starred p (c ∷ t) → ¬ Globs p (c ∷ t) → Starred p t
must_eat (leave d) n = absurd (n d)
must_eat (eat d) n = d

-- Where a plain byte was matched, what follows it fits an end of what is left.
forget : {a c : ℕ} {p : Bytes} (t : Bytes) → a ≢ b'*' → Starred (a ∷ p) (c ∷ t) → Starred p t
forget t n (leave (same _ _ d)) = leave d
forget t n (leave (star q d)) = absurd (n q)
forget [] n (eat (leave (star q d))) = absurd (n q)
forget (c ∷ t) n (eat d) = eat (forget t n d)

same_rest : {a c : ℕ} {p t : Bytes} → a ≢ b'*' → Globs (a ∷ p) (c ∷ t) → Globs p t
same_rest n (same _ _ d) = d
same_rest n (star q _) = absurd (n q)

starred : {a : ℕ} {p t : Bytes} → a ≡ b'*' → Globs (a ∷ p) t → Starred p t
starred q (same n _ _) = absurd (n q)
starred q (star _ d) = d

first_fits : {a c : ℕ} {p t : Bytes} → a ≢ b'*' → Globs (a ∷ p) (c ∷ t) → a ≡ lower_ascii c
first_fits n (same _ e _) = e
first_fits n (star q _) = absurd (n q)

plain : (a : ℕ) → (a == b'*') ≡ false → a ≢ b'*'
plain a h = ground arith

apart : (a b : ℕ) → (a == b) ≡ false → a ≢ b
apart a b h = ground arith

refuted : (p : Bytes) → only_stars p ≡ false → ¬ Globs p []
refuted p e d = ground (arith, e, Globs→only_stars p d)

-- `G` is the question at the start, and no pattern in play is longer than `k`.
module _ (G : Type 0) (k : ℕ) where
  -- What the saved star means; `m` bounds the text behind it.
  abbrev Saved : ℕ → Bytes → Bytes → Star → Type 0
  Saved m p t none = G → Globs p t
  Saved m p t (some (q, u)) =
      (Starred q u → G)
      × (G → Starred q u)
      × (Globs q u → Globs p t)
      × (length u ≤ m)
      × (length q ≤ k)

  record Inv (f m : ℕ) (p t : Bytes) (back : Star) : Type 0 where
    sound : Globs p t → G
    complete : G → Starred p t
    saved : Saved m p t back
    text_bound : length t ≤ m
    pattern_bound : length p ≤ k
    fuel : m * suc k + length p < f

  Inv-star :
      {f m : ℕ} {p t : Bytes}
      → (Starred p t → G)
      → (G → Starred p t)
      → length t ≤ m
      → length p ≤ k
      → m * suc k + length p < f
      → Inv f m p t (some (p, t))
  Inv-star s c ht hp hf = record {
    sound = λ d. s (leave d);
    complete = c;
    saved = (s, c, λ d. d, ht, hp);
    text_bound = ht;
    pattern_bound = hp;
    fuel = hf;
  }

  Saved-same :
      (m a c : ℕ) (p t : Bytes) (back : Star)
      → a ≢ b'*'
      → Saved m (a ∷ p) (c ∷ t) back
      → Saved m p t back
  Saved-same m a c p t none n h = λ g. same_rest n (h g)
  Saved-same m a c p t (some (q, u)) n (s, g, d, hu, hq) = (s, g, λ x. same_rest n (d x), hu, hq)

  Inv-same :
      {f m a c : ℕ} {p t : Bytes} {back : Star}
      → a ≢ b'*'
      → a ≡ lower_ascii c
      → Inv (suc f) m (a ∷ p) (c ∷ t) back
      → Inv f m p t back
  Inv-same {m} {a} {c} {p} {t} {back} n e i = record {
    sound = λ d. i.sound (same n e d);
    complete = λ g. forget t n (i.complete g);
    saved = Saved-same m a c p t back n i.saved;
    text_bound = omega arith;
    pattern_bound = omega arith;
    fuel = omega arith;
  }

  -- After a mismatch the last star takes one more byte.
  back_up-Answers :
      {f c : ℕ} {p t : Bytes} (m : ℕ) (back : Star) (next : Bytes → Bytes → Star → Option Bool)
      → ((m' : ℕ) (p' t' : Bytes) (b : Star) → Inv f m' p' t' b → Answers G (next p' t' b))
      → Inv (suc f) m p (c ∷ t) back
      → ¬ Globs p (c ∷ t)
      → Answers G (back_up back next)
  unfolding back_up
  back_up-Answers m none next ih i no_match = λ g. no_match (i.saved g)
  back_up-Answers m (some (q, [])) next ih i no_match =
      λ g. no_match (i.saved.2 (at_end (i.saved.1 g)))
  back_up-Answers zero (some (q, x ∷ u)) next ih i no_match = absurd (omega (arith, i.saved.3))
  back_up-Answers (suc m) (some (q, x ∷ u)) next ih i no_match =
      let (s, g, d, hu, hq) = i.saved in
      ih m q u (some (q, u)) (
        Inv-star (λ y. s (eat y)) (λ y. must_eat (g y) (λ z. no_match (d z))) (omega arith) hq
          (omega (arith, i.fuel)))

  loop-Answers :
      (f m : ℕ) (p t : Bytes) (back : Star) → Inv f m p t back → Answers G (glob_loop f p t back)
  unfolding glob_loop
  loop-Answers zero m p t back i = omega (arith, i.fuel)
  loop-Answers (suc f) m p [] back i = elim (Bool-cases (only_stars p)) [
    | inl e ↦ rw e (i.sound (only_stars→Globs p e))
    | inr e ↦ rw e (λ g. refuted p e (at_end (i.complete g)))
  ]
  loop-Answers (suc f) m [] (c ∷ t) back i =
      back_up-Answers m back (glob_loop f) (loop-Answers f) i λ d. elim d [ ]
  loop-Answers (suc f) m (a ∷ p) (c ∷ t) back i = elim (Bool-cases (a == b'*')) [
    | inl e ↦
        let q : a ≡ b'*' = (==_iff a b'*').0 e in
        rw e (
          loop-Answers f m p (c ∷ t) (some (p, c ∷ t)) (
            Inv-star (λ d. i.sound (star q d)) (λ g. merge q (i.complete g)) i.text_bound
              (omega arith) (omega (arith, i.fuel))))
    | inr n ↦ elim (Bool-cases (a == lower_ascii c)) [
      | inl e ↦
          rw (n, e)
            (loop-Answers f m p t back (Inv-same (plain a n) ((==_iff a (lower_ascii c)).0 e) i))
      | inr e ↦
          rw (n, e)
            (back_up-Answers m back (glob_loop f) (loop-Answers f) i
              (λ d. apart a (lower_ascii c) e (first_fits (plain a n) d)))
    ]
  ]

-- `GlobMatch` returns, and answers true exactly if the pattern, whose letters are lowercase, matches
-- the whole text, whatever the case of its ASCII letters.
pub glob_match-Answers : (p t : Bytes) → Answers (Globs p t) (glob_match p t)
unfolding glob_match
glob_match-Answers p t =
    loop-Answers (Globs p t) (length p) (glob_fuel p t) (length t) p t none (record {
      sound = λ d. d;
      complete = leave;
      saved = λ d. d;
      text_bound = omega arith;
      pattern_bound = omega arith;
      fuel = grind arith;
    })
