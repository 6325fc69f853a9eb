-- ===== src/Tracking/Shared.antt =====
-- Hashes that share a half, and how a session (src/sessions/session.cpp) finds a torrent by one.
use porla.Base.{
  ℕ, ◌≡◌, refl, ap, ◌∙◌, true, Option-cases, inl, inr, ◌⊎◌, List, Option, none, some, is_some, In,
}
use porla.HashMap.{Key, HashMap, Halves, compatible, checked, through, key_by_half, find_by_half}
use porla.HashMap.Index.{IsIndexed, present}
use porla.HashMap.Lookup.{Share, key_by_half-Serves}
use porla.Tracking.{Tracked}
use porla.Tracking.Covered.{Covers}

-- Two hashes have a half in common.
abbrev pub Shares : Key → Key → Type 0
Shares a b = Share (λ k. k.v1) a b ⊎ Share (λ k. k.v2) a b

-- Hashes that share a half do not contradict each other in the other: they are of one torrent.
abbrev pub IsConsistent : List Key → Type 0
IsConsistent keys = (a b : Key) → In a keys → In b keys → Shares a b → compatible a b ≡ true

-- What holds of a session's map whose keys are among `keys`.
pub record IsApart (keys : List Key) (s : HashMap Tracked) : Type 0 where
  pub known : (k : Key) → present s k ≡ true → In k keys
  pub indexed : IsIndexed s
  pub first : Covers (λ k. k.v1) (present s) s.by_v1
  pub second : Covers (λ k. k.v2) (present s) s.by_v2

-- A hash finds an item if an index leads it to a key that it is compatible with.
through-found :
    (hash k : Key) (o : Option ℕ) (h : ℕ) (m : Halves)
    → o ≡ some h
    → m h ≡ some k
    → compatible hash k ≡ true
    → through o hash m ≡ some k
unfolding through checked
through-found hash k o h m e f c = ap (λ p. through p hash m) e ∙ ap (checked hash) f ∙ rw c refl

led_to :
    (s : HashMap Tracked) (hash : Key)
    → (o : Option Key) → through hash.v1 hash s.by_v1 ≡ o
    → (p : Option Key) → through hash.v2 hash s.by_v2 ≡ p
    → key_by_half hash s ≡ (elim o [ some k ↦ some k | none ↦ p ])
unfolding key_by_half
led_to s hash none e p f =
    ap (λ (o : Option Key). elim o [ some k ↦ some k | none ↦ through hash.v2 hash s.by_v2 ]) e ∙ f
led_to s hash (some k) e p f =
    ap (λ (o : Option Key). elim o [ some k ↦ some k | none ↦ through hash.v2 hash s.by_v2 ]) e

-- `find_by_half` finds the item of the key `j`, which is one of the keys that share a half with the hash.
pub record Finds (s : HashMap Tracked) (hash j : Key) : Type 0 where
  pub held : present s j ≡ true
  pub shares : Shares hash j
  pub item : find_by_half hash s ≡ s.items j

key-Finds :
    (s : HashMap Tracked) (hash j : Key)
    → IsIndexed s
    → key_by_half hash s ≡ some j
    → Finds s hash j
key-Finds s hash j i e =
    let (serves, same) = key_by_half-Serves s hash j i e in
    record { held = serves.present; shares = serves.shares; item = same }

pub shared-Finds :
    (keys : List Key) (s : HashMap Tracked) (hash k : Key)
    → IsApart keys s
    → compatible hash k ≡ true
    → present s k ≡ true
    → Shares hash k
    → (j : Key) × Finds s hash j
shared-Finds keys s hash k a c p (inl (h, e, f)) =
    let t = through-found hash k hash.v1 h s.by_v1 e (a.first k h p f) c in
    (k, key-Finds s hash k a.indexed (led_to s hash (some k) t _ refl))
shared-Finds keys s hash k a c p (inr (h, e, f)) =
    let t = through-found hash k hash.v2 h s.by_v2 e (a.second k h p f) c in
    elim (Option-cases (through hash.v1 hash s.by_v1)) [
      | inl n ↦ (k, key-Finds s hash k a.indexed (led_to s hash none n (some k) t))
      | inr (j, n) ↦ (j, key-Finds s hash j a.indexed (led_to s hash (some j) n _ refl))
    ]

pub shared-found :
    (keys : List Key) (s : HashMap Tracked) (hash k : Key)
    → IsApart keys s
    → compatible hash k ≡ true
    → present s k ≡ true
    → Shares hash k
    → is_some (find_by_half hash s) ≡ true
shared-found keys s hash k a c p shares =
    let (j, finds) = shared-Finds keys s hash k a c p shares in ap is_some finds.item ∙ finds.held
