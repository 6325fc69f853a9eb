-- ===== src/Tracking/Covered.antt =====
-- Indexes of src/sessions/infohashmap.hpp in which every key is found by its half, and what keeps them so.
use porla.Base.{
  ℕ, ◌≡◌, refl, sym, ap, ◌∙◌, Bool, true, false, Option, none, some, if_cases, is_some, ◌==◌,
  ==_iff,
}
use porla.HashMap.{Key, Halves, same_key, set_half, add_half, remove_half, is_key}

-- Each key that is present is the one that its half leads to.
abbrev pub Covers : (Key → Option ℕ) → (Key → Bool) → Halves → Type 0
Covers half present m = (k : Key) (h : ℕ) → present k ≡ true → half k ≡ some h → m h ≡ some k

pub add_half-keeps :
    (o : Option ℕ) (key k : Key) (m : Halves) (x : ℕ) → m x ≡ some k → add_half o key m x ≡ some k
unfolding add_half set_half
add_half-keeps none key k m x e = e
add_half-keeps (some h) key k m x e =
    if_cases (λ (n : Halves). n x ≡ some k) (is_some (m h)) (λ _. e)
      (λ free.
        if_cases (λ (v : Option Key). v ≡ some k) (h == x)
          (λ same.
            let t : true ≡ false = sym (ap is_some (ap m ((==_iff h x).0 same) ∙ e)) ∙ free in
            absurd cc)
          (λ _. e))

pub add_half-new :
    (h : ℕ) (key : Key) (m : Halves) → m h ≡ none → add_half (some h) key m h ≡ some key
unfolding add_half set_half
add_half-new h key m e =
    if_cases (λ (n : Halves). n h ≡ some key) (is_some (m h))
      (λ taken. let t : false ≡ true = sym (ap is_some e) ∙ taken in absurd cc)
      (λ _. rw ((==_iff h h).1 refl) refl)

pub remove_half-keeps :
    (o : Option ℕ) (key k : Key) (m : Halves) (x : ℕ)
    → same_key k key ≡ false
    → m x ≡ some k
    → remove_half o key m x ≡ some k
unfolding remove_half set_half
remove_half-keeps none key k m x n e = e
remove_half-keeps (some h) key k m x n e =
    if_cases (λ (l : Halves). l x ≡ some k) (is_key (m h) key)
      (λ mine.
        if_cases (λ (v : Option Key). v ≡ some k) (h == x)
          (λ same.
            let t : true ≡ false =
              sym mine ∙ ap (λ o. is_key o key) (ap m ((==_iff h x).0 same) ∙ e) ∙ n in
            absurd cc)
          (λ _. e))
      (λ _. e)
