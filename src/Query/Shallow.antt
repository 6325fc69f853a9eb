-- ===== src/Query/Shallow.antt =====
-- What `CheckDepth` of src/query/pql.cpp demands of a query's tokens.
use mathlib.Core.List.{reverse_aux}
use porla.Base.{
  ℕ, ◌+◌, ◌≤◌, ◌≡◌, ◌↔◌, ◌⊎◌, refl, sym, ap, ◌∙◌, Bool, true, false, List, [], ◌∷◌, ◌++◌, arith,
  all_of, keep, length, inl, inr, reverse, append_assoc, if◌then◌else◌,
}
use porla.Query.{ok}
use porla.Query.Depth.{
  Symbol, lparen, rparen, negation, other, Token, opens, closes, next_run, check_depth, opened_by,
  closed_by, last_run, IsShallow, check_depth_iff,
}

abbrev pub is_lparen : Symbol → Bool
is_lparen lparen = true
is_lparen _ = false

abbrev pub is_rparen : Symbol → Bool
is_rparen rparen = true
is_rparen _ = false

abbrev pub is_negation : Symbol → Bool
is_negation negation = true
is_negation _ = false

abbrev pub count : (Symbol → Bool) → List Token → ℕ
count p ts = length (keep (λ t. p t.symbol) ts)

-- No beginning of the tokens has more than 64 opening parentheses more than closing ones, and there are
-- no more than 64 negations in a row.
pub record AreShallow (tokens : List Token) : Type 0 where
  pub groups :
      (pre post : List Token)
      → tokens ≡ pre ++ post
      → count is_lparen pre ≤ count is_rparen pre + 64
  pub negations :
      (pre run post : List Token)
      → tokens ≡ pre ++ (run ++ post)
      → all_of (λ t. is_negation t.symbol) run ≡ true
      → length run ≤ 64

count-cons :
    (p : Symbol → Bool) (t : Token) (ts : List Token)
    → count p (t ∷ ts) ≡ (if p t.symbol then 1 else 0) + count p ts
count-cons p t ts = by_test (p t.symbol)
  where
    by_test :
        (b : Bool)
        → length
            (elim b [ true ↦ t ∷ keep (λ t. p t.symbol) ts | false ↦ keep (λ t. p t.symbol) ts ])
          ≡ (if b then 1 else 0) + count p ts
    by_test true = omega arith
    by_test false = omega arith

opens-is_lparen : (s : Symbol) (n : ℕ) → opens s n ≡ (if is_lparen s then 1 else 0) + n
unfolding opens
opens-is_lparen lparen n = omega arith
opens-is_lparen rparen n = omega arith
opens-is_lparen negation n = omega arith
opens-is_lparen other n = omega arith

closes-is_rparen : (s : Symbol) (n : ℕ) → closes s n ≡ (if is_rparen s then 1 else 0) + n
unfolding closes
closes-is_rparen lparen n = omega arith
closes-is_rparen rparen n = omega arith
closes-is_rparen negation n = omega arith
closes-is_rparen other n = omega arith

opened_by-count :
    (pre seen : List Token)
    → opened_by (reverse_aux pre seen) ≡ count is_lparen pre + opened_by seen
unfolding opened_by
opened_by-count [] seen = omega arith
opened_by-count (t ∷ pre) seen = omega (
  arith,
  opened_by-count pre (t ∷ seen),
  opens-is_lparen t.symbol (opened_by seen),
  count-cons is_lparen t pre,
)

closed_by-count :
    (pre seen : List Token)
    → closed_by (reverse_aux pre seen) ≡ count is_rparen pre + closed_by seen
unfolding closed_by
closed_by-count [] seen = omega arith
closed_by-count (t ∷ pre) seen = omega (
  arith,
  closed_by-count pre (t ∷ seen),
  closes-is_rparen t.symbol (closed_by seen),
  count-cons is_rparen t pre,
)

-- A negation makes the run longer, and any other token ends it.
next_run-cases :
    (s : Symbol) (n : ℕ)
    → ((is_negation s ≡ true) × (next_run s n ≡ n + 1))
      ⊎ ((is_negation s ≡ false) × (next_run s n ≡ 0))
unfolding next_run
next_run-cases lparen n = inr (refl, refl)
next_run-cases rparen n = inr (refl, refl)
next_run-cases negation n = inl (refl, refl)
next_run-cases other n = inr (refl, refl)

abbrev AreNegations : List Token → Type 0
AreNegations ts = all_of (λ t. is_negation t.symbol) ts ≡ true

last_run-negations :
    (run seen : List Token)
    → AreNegations run
    → last_run (reverse_aux run seen) ≡ length run + last_run seen
unfolding last_run
last_run-negations [] seen h = omega arith
last_run-negations (t ∷ run) seen h = elim (next_run-cases t.symbol (last_run seen)) [
  | inl (s, e) ↦ omega (arith, last_run-negations run (t ∷ seen) (ground (arith, h)), e)
  | inr (s, e) ↦ absurd (ground (arith, h, s))
]

-- The run at the end of the tokens, or all of them.
last_run-split :
    (pre seen : List Token)
    → ((front : List Token) × (run : List Token) × (pre ≡ front ++ run)
        × AreNegations run
        × (last_run (reverse_aux pre seen) ≡ length run))
      ⊎ (AreNegations pre × (last_run (reverse_aux pre seen) ≡ length pre + last_run seen))
unfolding last_run
last_run-split [] seen = inr (refl, omega arith)
last_run-split (t ∷ pre) seen = elim (last_run-split pre (t ∷ seen)) [
  | inl (front, run, e, a, l) ↦ inl (t ∷ front, run, ap (λ (ts : List Token). t ∷ ts) e, a, l)
  | inr (a, l) ↦ elim (next_run-cases t.symbol (last_run seen)) [
    | inl (s, e) ↦ inr (ground (arith, s, a), omega (arith, l, e))
    | inr (s, e) ↦ inl (t ∷ [], pre, refl, a, omega (arith, l, e))
  ]
]

abbrev AllShallow : List Token → Type 0
AllShallow ts = (pre post : List Token) → ts ≡ pre ++ post → IsShallow (reverse pre)

reverse_aux-append :
    (front run seen : List Token)
    → reverse_aux (front ++ run) seen ≡ reverse_aux run (reverse_aux front seen)
reverse_aux-append [] run seen = refl
reverse_aux-append (t ∷ front) run seen = reverse_aux-append front run (t ∷ seen)

AllShallow→AreShallow : (ts : List Token) → AllShallow ts → AreShallow ts
unfolding opened_by closed_by
AllShallow→AreShallow ts a = record {
  groups = λ pre post e.
      let s = a pre post e in
      omega (arith, s.groups, opened_by-count pre [], closed_by-count pre []);
  negations = λ pre run post e h.
      let s = a (pre ++ run) post (e ∙ sym (append_assoc pre run post)) in
      omega (
        arith,
        s.negations,
        ap last_run (reverse_aux-append pre run []),
        last_run-negations run (reverse_aux pre []) h,
      );
}

AreShallow→AllShallow : (ts : List Token) → AreShallow ts → AllShallow ts
unfolding opened_by closed_by last_run
AreShallow→AllShallow ts a pre post e = record {
  groups = omega (arith, a.groups pre post e, opened_by-count pre [], closed_by-count pre []);
  negations = elim (last_run-split pre []) [
    | inl (front, run, q, h, l) ↦
        let split : ts ≡ front ++ (run ++ post) =
          e ∙ ap (λ (us : List Token). us ++ post) q ∙ append_assoc front run post in
        omega (arith, l, a.negations front run post split h)
    | inr (h, l) ↦ omega (arith, l, a.negations [] pre post e h)
  ];
}

-- `CheckDepth` passes exactly if the tokens are shallow.
pub check_depth-AreShallow : (ts : List Token) → (check_depth ts ≡ ok tt) ↔ AreShallow ts
check_depth-AreShallow ts =
    let (f, g) = check_depth_iff ts in
    ((λ e. AllShallow→AreShallow ts (f e)), λ a. g (AreShallow→AllShallow ts a))
