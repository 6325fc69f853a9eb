-- ===== src/Scheduler/Ids.antt =====
-- Entries have different ids, and what that says of a change to one entry.
use mathlib.Core.Option.{some-injective}
use mathlib.Core.Path.{subst}
use porla.Base.{
  ℕ, ◌≡◌, ◌≢◌, sym, ◌∙◌, true, List, [], ◌∷◌, ◌++◌, some, none, arith, ◌==◌, ==_iff, All,
  Bool-cases, inl, inr,
}
use porla.Scheduler.Table.{Entry, find_entry, update_entry, erase_entry}

abbrev pub Distinct : List Entry → Type 0
Distinct [] = Unit {0}
Distinct (e ∷ es) = All (λ x. e.id ≢ x.id) es × Distinct es

abbrev pub Others : (Entry → Type 0) → ℕ → Entry → Type 0
Others P i e = e.id ≢ i → P e

pub All-mono {ℓ κ μ} :
    {A : Type ℓ} (P : A → Type κ) (Q : A → Type μ) (xs : List A)
    → ((x : A) → P x → Q x)
    → All P xs
    → All Q xs
All-mono P Q [] f a = tt
All-mono P Q (x ∷ xs) f a = (f x a.0, All-mono P Q xs f a.1)

pub All-append {ℓ κ} :
    {A : Type ℓ} (P : A → Type κ) (xs : List A) (y : A) → All P xs → P y → All P (xs ++ y ∷ [])
All-append P [] y a p = (p, tt)
All-append P (x ∷ xs) y a p = (a.0, All-append P xs y a.1 p)

pub All-update_entry :
    (P : Entry → Type 0) (i : ℕ) (f : Entry → Entry) (es : List Entry)
    → ((e : Entry) → P e → P (f e))
    → All P es
    → All P (update_entry i f es)
unfolding update_entry
All-update_entry P i f [] h a = tt
All-update_entry P i f (e ∷ es) h a = elim (Bool-cases (e.id == i)) [
  | inl m ↦ rw m (h e a.0, a.1)
  | inr m ↦ rw m (a.0, All-update_entry P i f es h a.1)
]

pub Distinct-update_entry :
    (i : ℕ) (f : Entry → Entry) (es : List Entry)
    → ((e : Entry) → (f e).id ≡ e.id)
    → Distinct es
    → Distinct (update_entry i f es)
unfolding update_entry
Distinct-update_entry i f [] h a = tt
Distinct-update_entry i f (e ∷ es) h a = elim (Bool-cases (e.id == i)) [
  | inl m ↦ rw m (rw (h e) a)
  | inr m ↦ rw m (
    All-update_entry (λ x. e.id ≢ x.id) i f es (λ x n. rw (h x) n) a.0,
    Distinct-update_entry i f es h a.1,
  )
]

pub All-erase_entry :
    (P : Entry → Type 0) (i : ℕ) (es : List Entry) → All P es → All P (erase_entry i es)
unfolding erase_entry
All-erase_entry P i [] a = tt
All-erase_entry P i (e ∷ es) a = elim (Bool-cases (e.id == i)) [
  | inl m ↦ rw m a.1
  | inr m ↦ rw m (a.0, All-erase_entry P i es a.1)
]

pub Distinct-erase_entry : (i : ℕ) (es : List Entry) → Distinct es → Distinct (erase_entry i es)
unfolding erase_entry
Distinct-erase_entry i [] a = tt
Distinct-erase_entry i (e ∷ es) a = elim (Bool-cases (e.id == i)) [
  | inl m ↦ rw m a.1
  | inr m ↦ rw m (All-erase_entry _ i es a.0, Distinct-erase_entry i es a.1)
]

pub Distinct-append :
    (es : List Entry) (x : Entry)
    → All (λ e. e.id ≢ x.id) es
    → Distinct es
    → Distinct (es ++ x ∷ [])
Distinct-append [] x n d = (tt, tt)
Distinct-append (e ∷ es) x n d = (All-append _ es x d.0 n.0, Distinct-append es x n.1 d.1)

-- Behind the entry `i` no entry has its id.
Others-behind :
    (P : Entry → Type 0) (i : ℕ) (e : Entry) (es : List Entry)
    → (e.id == i) ≡ true
    → All (λ x. e.id ≢ x.id) es
    → All (Others P i) es
    → All P es
Others-behind P i e [] m n a = tt
Others-behind P i e (x ∷ es) m n a =
    (a.0 (λ q. n.0 ((==_iff e.id i).0 m ∙ sym q)), Others-behind P i e es m n.1 a.1)

-- The entry `i` is given anew, and the others keep what they have.
pub All-update-Others :
    (P : Entry → Type 0) (i : ℕ) (f : Entry → Entry) (es : List Entry)
    → Distinct es
    → ((e : Entry) → find_entry i es ≡ some e → P (f e))
    → All (Others P i) es
    → All P (update_entry i f es)
unfolding update_entry find_entry
All-update-Others P i f [] d h a = tt
All-update-Others P i f (e ∷ es) d h a = elim (Bool-cases (e.id == i)) [
  | inl m ↦ rw m (h e (rw m), Others-behind P i e es m d.0 a.1)
  | inr m ↦
      rw m
        (a.0 (λ q. ground (arith, q, m)), All-update-Others P i f es d.1 (λ x q. h x (rw m q)) a.1)
]

pub All-complete :
    (P : Entry → Type 0) (i : ℕ) (es : List Entry)
    → Distinct es
    → ((e : Entry) → find_entry i es ≡ some e → P e)
    → All (Others P i) es
    → All P es
unfolding find_entry
All-complete P i [] d h a = tt
All-complete P i (e ∷ es) d h a = elim (Bool-cases (e.id == i)) [
  | inl m ↦ (h e (rw m), Others-behind P i e es m d.0 a.1)
  | inr m ↦ (a.0 (λ q. ground (arith, q, m)), All-complete P i es d.1 (λ x q. h x (rw m q)) a.1)
]

pub All-update_but :
    (P : Entry → Type 0) (i : ℕ) (f : Entry → Entry) (es : List Entry)
    → ((e : Entry) → (f e).id ≡ e.id)
    → All (Others P i) es
    → All (Others P i) (update_entry i f es)
unfolding update_entry
All-update_but P i f [] h a = tt
All-update_but P i f (e ∷ es) h a = elim (Bool-cases (e.id == i)) [
  | inl m ↦ rw m (λ n. absurd (n (h e ∙ (==_iff e.id i).0 m)), a.1)
  | inr m ↦ rw m (a.0, All-update_but P i f es h a.1)
]

pub All-erase-Others :
    (P : Entry → Type 0) (i : ℕ) (es : List Entry)
    → Distinct es
    → All (Others P i) es
    → All P (erase_entry i es)
unfolding erase_entry
All-erase-Others P i [] d a = tt
All-erase-Others P i (e ∷ es) d a = elim (Bool-cases (e.id == i)) [
  | inl m ↦ rw m (Others-behind P i e es m d.0 a.1)
  | inr m ↦ rw m (a.0 (λ q. ground (arith, q, m)), All-erase-Others P i es d.1 a.1)
]

pub All-find_entry :
    (P : Entry → Type 0) (i : ℕ) (es : List Entry) (e : Entry)
    → find_entry i es ≡ some e
    → All P es
    → P e × (e.id ≡ i)
unfolding find_entry
All-find_entry P i [] e h a = cc
All-find_entry P i (x ∷ es) e h a = elim (Bool-cases (x.id == i)) [
  | inl m ↦
      subst (λ z. P z × (z.id ≡ i)) (some-injective x e (rw m at h)) (a.0, (==_iff x.id i).0 m)
  | inr m ↦ All-find_entry P i es e (rw m at h) a.1
]

pub find_entry-none :
    (P : Entry → Type 0) (i : ℕ) (es : List Entry)
    → find_entry i es ≡ none
    → All (Others P i) es
    → All P es
unfolding find_entry
find_entry-none P i [] h a = tt
find_entry-none P i (x ∷ es) h a = elim (Bool-cases (x.id == i)) [
  | inl m ↦ ground arith
  | inr m ↦ (a.0 (λ q. ground (arith, q, m)), find_entry-none P i es (rw m at h) a.1)
]

pub id-find_entry : (i : ℕ) (es : List Entry) (e : Entry) → find_entry i es ≡ some e → e.id ≡ i
unfolding find_entry
id-find_entry i [] e h = cc
id-find_entry i (x ∷ es) e h = ground (arith, id-find_entry i es e)
