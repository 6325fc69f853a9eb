-- ===== src/HashMap/Halves.antt =====
-- An index of src/sessions/infohashmap.hpp, from the halves of keys to the keys.
use porla.Base.{
  some-injective, ℕ, ◌==◌, ==_iff, ◌≡◌, ◌≢◌, refl, sym, ap, ◌∙◌, Bool, true, false, Option, none,
  some, if◌then◌else◌, is_some, arith, Bool-cases, inl, inr,
}
use porla.HashMap.{Key, same_half, same_key, Halves, is_key, set_half, add_half, remove_half}

same_half→eq : (a b : Option ℕ) → same_half a b ≡ true → a ≡ b
unfolding same_half
same_half→eq none none h = refl
same_half→eq none (some b) h = absurd cc
same_half→eq (some a) none h = absurd cc
same_half→eq (some a) (some b) h = ap some ((==_iff a b).0 h)

pub same_half_refl : (a : Option ℕ) → same_half a a ≡ true
unfolding same_half
same_half_refl none = refl
same_half_refl (some a) = (==_iff a a).1 refl

pub same_key→eq : (a b : Key) → same_key a b ≡ true → a ≡ b
unfolding same_key
same_key→eq a b h =
    let p = same_half→eq a.v1 b.v1 (ground arith) in
    let q = same_half→eq a.v2 b.v2 (ground arith) in λ i. record { v1 = p i; v2 = q i }

pub same_key_refl : (a : Key) → same_key a a ≡ true
unfolding same_key
same_key_refl a = rw (same_half_refl a.v1, same_half_refl a.v2) refl

-- An index from the halves `half` of keys: each key in it has the half that it is found by, and is a
-- key of an item.
pub record Indexes (half : Key → Option ℕ) (present : Key → Bool) (m : Halves) : Type 0 where
  pub own : (h : ℕ) (k : Key) → m h ≡ some k → half k ≡ some h
  pub live : (h : ℕ) (k : Key) → m h ≡ some k → present k ≡ true

-- What is left of an index at `x`, when the half `h` of `key` is removed.
removed :
    (key : Key) (m : Halves) (h x : ℕ) (k : Key)
    → remove_half (some h) key m x ≡ some k
    → (m x ≡ some k) × ((h == x) ≡ true → same_key k key ≡ false)
unfolding remove_half set_half
removed key m h x k g = elim (Bool-cases (is_key (m h) key)) [
  | inl r ↦ elim (Bool-cases (h == x)) [
    | inl q ↦ absurd (ground (arith, r, q, g))
    | inr q ↦ (ground (arith, r, q, g), λ q'. absurd (ground (arith, q, q')))
  ]
  | inr r ↦
      let here : m x ≡ some k = ground (arith, r, g) in
      (
        here,
        λ q.
            let there : m h ≡ some k = ap m ((==_iff h x).0 q) ∙ here in
            sym (ap (λ o. is_key o key) there) ∙ r,
      )
]

module _ (half : Key → Option ℕ) where
  pub Indexes-mono :
      (before after : Key → Bool) (m : Halves)
      → ((k : Key) → before k ≡ true → after k ≡ true)
      → Indexes half before m
      → Indexes half after m
  Indexes-mono before after m p v = record { own = v.own; live = λ h k e. p k (v.live h k e) }

  set_half-Indexes :
      (present : Key → Bool) (key : Key) (h : ℕ) (m : Halves)
      → half key ≡ some h
      → present key ≡ true
      → Indexes half present m
      → Indexes half present (set_half h (some key) m)
  unfolding set_half
  set_half-Indexes present key h m q p v = record { own = own; live = live }
    where
      own : (x : ℕ) (k : Key) → (if h == x then some key else m x) ≡ some k → half k ≡ some x
      own x k e = elim (Bool-cases (h == x)) [
        | inl r ↦
            let same : some key ≡ some k = ground (arith, r, e) in
            ap half (sym (some-injective same)) ∙ q ∙ ap some ((==_iff h x).0 r)
        | inr r ↦ v.own x k (ground (arith, r, e))
      ]

      live : (x : ℕ) (k : Key) → (if h == x then some key else m x) ≡ some k → present k ≡ true
      live x k e = elim (Bool-cases (h == x)) [
        | inl r ↦
            let same : some key ≡ some k = ground (arith, r, e) in
            ap present (sym (some-injective same)) ∙ p
        | inr r ↦ v.live x k (ground (arith, r, e))
      ]

  pub add_half-Indexes :
      (present : Key → Bool) (key : Key) (m : Halves)
      → present key ≡ true
      → Indexes half present m
      → Indexes half present (add_half (half key) key m)
  unfolding add_half
  add_half-Indexes present key m p v = go (half key) refl
    where
      go : (o : Option ℕ) → half key ≡ o → Indexes half present (add_half o key m)
      go none q = v
      go (some h) q = elim (Bool-cases (is_some (m h))) [
        | inl r ↦ rw r v
        | inr r ↦ rw r (set_half-Indexes present key h m q p v)
      ]

  -- Without the keys that are no longer present.
  Indexes-removed :
      (before after : Key → Bool) (key : Key) (m n : Halves)
      → ((k : Key) → same_key k key ≡ false → before k ≡ true → after k ≡ true)
      → ((x : ℕ) (k : Key) → n x ≡ some k → (m x ≡ some k) × (same_key k key ≡ false))
      → Indexes half before m
      → Indexes half after n
  Indexes-removed before after key m n p q v = record {
    own = λ x k e. v.own x k (q x k e).0;
    live = λ x k e. p k (q x k e).1 (v.live x k (q x k e).0);
  }

  pub remove_half-Indexes :
      (before after : Key → Bool) (key : Key) (m : Halves)
      → ((k : Key) → same_key k key ≡ false → before k ≡ true → after k ≡ true)
      → Indexes half before m
      → Indexes half after (remove_half (half key) key m)
  unfolding remove_half
  remove_half-Indexes before after key m p v =
      Indexes-removed before after key m (remove_half (half key) key m) p (kept (half key) refl) v
    where
      unlike :
          (o : Option ℕ) (x : ℕ) (k : Key)
          → half key ≡ o
          → m x ≡ some k
          → o ≢ some x
          → same_key k key ≡ false
      unlike o x k e g n = elim (Bool-cases (same_key k key)) [
        | inl r ↦ absurd (n (sym e ∙ ap half (sym (same_key→eq k key r)) ∙ v.own x k g))
        | inr r ↦ r
      ]

      kept :
          (o : Option ℕ)
          → half key ≡ o
          → (x : ℕ) (k : Key) → remove_half o key m x ≡ some k
          → (m x ≡ some k) × (same_key k key ≡ false)
      kept none e x k g = (g, unlike none x k e g (λ q. absurd cc))
      kept (some h) e x k g =
          let (stays, same) = removed key m h x k g in
          (
            stays,
            elim (Bool-cases (h == x)) [
              | inl r ↦ same r
              | inr r ↦
                  unlike (some h) x k e stays
                    (λ q. absurd (ground (arith, (==_iff h x).1 (some-injective q))))
            ],
          )
