-- ===== src/HashMap/Lookup.antt =====
-- `find_by_half` of src/sessions/infohashmap.hpp.
use porla.Base.{
  some-injective, ℕ, ◌≡◌, refl, ap, ◌∙◌, sym, Bool, true, Option, none, some, is_some, arith,
  Bool-cases, Option-cases, inl, inr, ◌⊎◌,
}
use porla.HashMap.{Key, HashMap, Halves, compatible, checked, through, key_by_half, find_by_half}
use porla.HashMap.Halves.{Indexes}
use porla.HashMap.Index.{IsIndexed, present}

-- `hash` and `key` have the same half.
abbrev pub Share : (Key → Option ℕ) → Key → Key → Type 0
Share half hash key = (h : ℕ) × (half hash ≡ some h) × (half key ≡ some h)

-- `key` is the key of an item, has a half of `hash`, and has no half that `hash` has too and that
-- differs.
pub record Serves {T : Type 0} (s : HashMap T) (hash key : Key) : Type 0 where
  pub present : is_some (s.items key) ≡ true
  pub agrees : compatible hash key ≡ true
  pub shares : Share (λ k. k.v1) hash key ⊎ Share (λ k. k.v2) hash key

checked-some :
    (hash key : Key) (o : Option Key)
    → checked hash o ≡ some key
    → (o ≡ some key) × (compatible hash key ≡ true)
unfolding checked
checked-some hash key none e = absurd cc
checked-some hash key (some k) e = elim (Bool-cases (compatible hash k)) [
  | inl h ↦
      let same : some k ≡ some key = ground (arith, h, e) in
      (same, ap (compatible hash) (sym (some-injective same)) ∙ h)
  | inr h ↦ absurd (ground (arith, h, e))
]

through-some :
    (half : Key → Option ℕ) (exists : Key → Bool) (m : Halves) (hash key : Key)
    → Indexes half exists m
    → through (half hash) hash m ≡ some key
    → Share half hash key × (exists key ≡ true) × (compatible hash key ≡ true)
unfolding through
through-some half exists m hash key v e = go (half hash) refl e
  where
    go :
        (o : Option ℕ)
        → half hash ≡ o
        → through o hash m ≡ some key
        → Share half hash key × (exists key ≡ true) × (compatible hash key ≡ true)
    go none q g = absurd cc
    go (some h) q g =
        let (found, agrees) = checked-some hash key (m h) g in
        ((h, q, v.own h key found), v.live h key found, agrees)

module _ {T : Type 0} where
  -- In a map whose indexes are right, the key that `find_by_half` finds is the key of an item, so that
  -- it finds an item; the key has a half of the hash, and none that differs from the hash's.
  pub key_by_half-Serves :
      (s : HashMap T) (hash key : Key)
      → IsIndexed s
      → key_by_half hash s ≡ some key
      → Serves s hash key × (find_by_half hash s ≡ s.items key)
  unfolding key_by_half find_by_half
  key_by_half-Serves s hash key v e = (serves, rw (e, find_by_half) refl)
    where
      of_first : through hash.v1 hash s.by_v1 ≡ some key → Serves s hash key
      of_first g =
          let (shares, live, agrees) =
            through-some (λ k. k.v1) (present s) s.by_v1 hash key v.first g in
          record { present = live; agrees = agrees; shares = inl shares }

      of_second : through hash.v2 hash s.by_v2 ≡ some key → Serves s hash key
      of_second g =
          let (shares, live, agrees) =
            through-some (λ k. k.v2) (present s) s.by_v2 hash key v.second g in
          record { present = live; agrees = agrees; shares = inr shares }

      serves : Serves s hash key
      serves = elim (Option-cases (through hash.v1 hash s.by_v1)) [
        | inl n ↦ of_second (ground (arith, n, e))
        | inr (k, n) ↦ of_first (n ∙ ground (arith, n, e))
      ]
