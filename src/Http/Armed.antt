-- ===== src/Http/Armed.antt =====
-- The waits in flight of src/curlmulti.cpp, against the flags of its sockets: what fits, and what changes it.
use porla.Base.{
  ℕ, ◌+◌, ◌≤◌, ◌<◌, ◌≡◌, ◌≢◌, refl, sym, ap, ◌∙◌, subst, Bool, true, false, ◌&&◌, Bool-cases, inl,
  inr, List, [], ◌∷◌, none, some, some-injective, if◌then◌else◌, ◌==◌, ==_iff, if_both, if_cases,
  arith,
}
use porla.Http.{Direction, reads, writes, Socket, Wait}
use porla.Http.Sockets.{flag, find_socket, erase_socket, change_socket}

abbrev pub same_direction : Direction → Direction → Bool
same_direction reads reads = true
same_direction writes writes = true
same_direction _ _ = false

-- How many waits are in flight for a registered socket in a direction.
abbrev pub matches : Wait → ℕ → ℕ → Direction → Bool
matches w sock id d = (w.socket == sock) && ((w.id == id) && same_direction w.direction d)

abbrev pub pending : List Wait → ℕ → ℕ → Direction → ℕ
pending [] sock id d = 0
pending (w ∷ ws) sock id d = (if matches w sock id d then 1 else 0) + pending ws sock id d

-- Sockets with ids that descend below a bound and with keys that differ, with a count of waits that agrees with
-- their flags.
abbrev pub Fits : ℕ → List Socket → (ℕ → ℕ → Direction → ℕ) → Type 0
Fits b [] p = Unit
Fits b (r ∷ rs) p =
    (r.id < b)
    × (find_socket r.socket rs ≡ none)
    × ((d : Direction) → p r.socket r.id d ≡ (if flag d r then 1 else 0))
    × Fits r.id rs p

pub ==-refl : (n : ℕ) → (n == n) ≡ true
==-refl n = (==_iff n n).1 refl

pub Fits-weaken :
    {b c : ℕ} (rs : List Socket) (p : ℕ → ℕ → Direction → ℕ) → b ≤ c → Fits b rs p → Fits c rs p
Fits-weaken [] p h f = tt
Fits-weaken (r ∷ rs) p h f = (omega (arith, f.0, h), f.1, f.2, f.3)

find_socket-here :
    (sock : ℕ) (r : Socket) (rs : List Socket)
    → (r.socket == sock) ≡ true
    → find_socket sock (r ∷ rs) ≡ some r
unfolding find_socket
find_socket-here sock r rs h = rw h refl

find_socket-later :
    (sock : ℕ) (r : Socket) (rs : List Socket)
    → (r.socket == sock) ≡ false
    → find_socket sock (r ∷ rs) ≡ find_socket sock rs
unfolding find_socket
find_socket-later sock r rs h = rw h refl

pub find_socket-below :
    {b : ℕ} (sock : ℕ) (rs : List Socket) (p : ℕ → ℕ → Direction → ℕ) (r : Socket)
    → Fits b rs p
    → find_socket sock rs ≡ some r
    → (r.id < b) × (r.socket ≡ sock)
find_socket-below sock [] p r f e = unfold find_socket in absurd cc
find_socket-below {b} sock (q ∷ rs) p r f e = elim (Bool-cases (q.socket == sock)) [
  | inl h ↦
      let same : q ≡ r = some-injective (sym (find_socket-here sock q rs h) ∙ e) in
      subst (λ (x : Socket). (x.id < b) × (x.socket ≡ sock)) same (f.0, (==_iff q.socket sock).0 h)
  | inr h ↦
      let later = find_socket-below sock rs p r f.3 (sym (find_socket-later sock q rs h) ∙ e) in
      (omega (arith, later.0, f.0), later.1)
]

-- Another count of the waits fits too, if it agrees on the sockets that are found.
pub Fits-agree :
    {b : ℕ} (rs : List Socket) (p q : ℕ → ℕ → Direction → ℕ)
    → ((r : Socket)
        → find_socket r.socket rs ≡ some r
        → r.id < b
        → (d : Direction) → q r.socket r.id d ≡ p r.socket r.id d)
    → Fits b rs p
    → Fits b rs q
Fits-agree [] p q g f = tt
Fits-agree {b} (r ∷ rs) p q g f = (
  f.0,
  f.1,
  λ d. g r (find_socket-here r.socket r rs (==-refl r.socket)) f.0 d ∙ f.2 d,
  Fits-agree rs p q (λ x e l d. g x (found x e) (omega (arith, l, f.0)) d) f.3,
)
  where
    found : (x : Socket) → find_socket x.socket rs ≡ some x → find_socket x.socket (r ∷ rs) ≡ some x
    found x e = elim (Bool-cases (r.socket == x.socket)) [
      | inl h ↦
          let same : r.socket ≡ x.socket = (==_iff r.socket x.socket).0 h in
          let t : none ≡ some x = sym f.1 ∙ ap (λ k. find_socket k rs) same ∙ e in absurd cc
      | inr h ↦ find_socket-later x.socket r rs h ∙ e
    ]

-- A change that keeps a socket's key and id.
pub record IsChange (f : Socket → Socket) : Type 0 where
  pub keeps_socket : (r : Socket) → (f r).socket ≡ r.socket
  pub keeps_id : (r : Socket) → (f r).id ≡ r.id

pub find_socket-change :
    (k sock : ℕ) (f : Socket → Socket) (c : IsChange f) (rs : List Socket)
    → find_socket k rs ≡ none
    → find_socket k (change_socket sock f rs) ≡ none
unfolding change_socket
find_socket-change k sock f c [] e = e
find_socket-change k sock f c (r ∷ rs) e = elim (Bool-cases (r.socket == k)) [
  | inl h ↦ let t : some r ≡ none = sym (find_socket-here k r rs h) ∙ e in absurd cc
  | inr h ↦
      let rest = sym (find_socket-later k r rs h) ∙ e in
      let h' : ((f r).socket == k) ≡ false = ap (λ n. n == k) (c.keeps_socket r) ∙ h in
      if_both (λ l. find_socket k l ≡ none) (r.socket == sock)
        (find_socket-later k (f r) rs h' ∙ rest)
        (find_socket-later k r (change_socket sock f rs) h ∙ find_socket-change k sock f c rs rest)
]

pub find_socket-changed :
    (sock : ℕ) (f : Socket → Socket) (c : IsChange f) (rs : List Socket) (r : Socket)
    → find_socket sock rs ≡ some r
    → find_socket sock (change_socket sock f rs) ≡ some (f r)
unfolding change_socket
find_socket-changed sock f c [] r e = unfold find_socket in absurd cc
find_socket-changed sock f c (q ∷ rs) r e =
    if_cases (λ l. find_socket sock l ≡ some (f r)) (q.socket == sock)
      (λ h.
        find_socket-here sock (f q) rs (ap (λ n. n == sock) (c.keeps_socket q) ∙ h)
        ∙ ap (λ x. some (f x)) (some-injective (sym (find_socket-here sock q rs h) ∙ e)))
      (λ h.
        find_socket-later sock q (change_socket sock f rs) h
        ∙ find_socket-changed sock f c rs r (sym (find_socket-later sock q rs h) ∙ e))

-- The sockets fit after a change of one of them, with a count that agrees with its new flags and is the same
-- for other ids.
pub Fits-change :
    (b sock : ℕ) (f : Socket → Socket) (c : IsChange f) (rs : List Socket)
    (p q : ℕ → ℕ → Direction → ℕ) (r : Socket)
    → find_socket sock rs ≡ some r
    → ((d : Direction) → q r.socket r.id d ≡ (if flag d (f r) then 1 else 0))
    → ((k i : ℕ) (d : Direction) → i ≢ r.id → q k i d ≡ p k i d)
    → Fits b rs p
    → Fits b (change_socket sock f rs) q
unfolding change_socket
Fits-change b sock f c [] p q r e g o h = unfold find_socket in absurd cc
Fits-change b sock f c (x ∷ rs) p q r e g o h =
    if_cases (λ l. Fits b l q) (x.socket == sock)
      (λ t. here (some-injective (sym (find_socket-here sock x rs t) ∙ e)))
      (λ t.
        let found = sym (find_socket-later sock x rs t) ∙ e in
        later found (Fits-change x.id sock f c rs p q r found g o h.3))
  where
    here : x ≡ r → Fits b (f x ∷ rs) q
    here same = (
      rw (c.keeps_id x) h.0,
      ap (λ k. find_socket k rs) (c.keeps_socket x) ∙ h.1,
      λ d.
          ap (λ k. q k (f x).id d) (c.keeps_socket x)
          ∙ ap (λ k. q x.socket k d) (c.keeps_id x)
          ∙ subst (λ y. q y.socket y.id d ≡ (if flag d (f y) then 1 else 0)) (sym same) (g d),
      rw (c.keeps_id x) (
          Fits-agree rs p q
            (λ y _ l d. o y.socket y.id d (λ k.
              let m : y.id ≡ x.id = k ∙ ap (λ z. z.id) (sym same) in absurd (omega (arith, l, m))))
            h.3),
    )

    later :
        find_socket sock rs ≡ some r
        → Fits x.id (change_socket sock f rs) q
        → Fits b (x ∷ change_socket sock f rs) q
    later found rest =
        let below = (find_socket-below sock rs p r h.3 found).0 in
        (
          h.0,
          find_socket-change x.socket sock f c rs h.1,
          λ d. o x.socket x.id d (λ k. absurd (omega (arith, below, k))) ∙ h.2 d,
          rest,
        )

find_socket-erase :
    (k sock : ℕ) (rs : List Socket)
    → find_socket k rs ≡ none
    → find_socket k (erase_socket sock rs) ≡ none
unfolding erase_socket
find_socket-erase k sock [] e = e
find_socket-erase k sock (r ∷ rs) e = elim (Bool-cases (r.socket == k)) [
  | inl h ↦ let t : some r ≡ none = sym (find_socket-here k r rs h) ∙ e in absurd cc
  | inr h ↦
      let rest = sym (find_socket-later k r rs h) ∙ e in
      if_both (λ l. find_socket k l ≡ none) (r.socket == sock) rest
        (find_socket-later k r (erase_socket sock rs) h ∙ find_socket-erase k sock rs rest)
]

pub Fits-erase :
    (b sock : ℕ) (rs : List Socket) (p : ℕ → ℕ → Direction → ℕ)
    → Fits b rs p
    → Fits b (erase_socket sock rs) p
unfolding erase_socket
Fits-erase b sock [] p f = tt
Fits-erase b sock (r ∷ rs) p f =
    if_both (λ l. Fits b l p) (r.socket == sock) (Fits-weaken rs p (omega (arith, f.0)) f.3)
      (f.0, find_socket-erase r.socket sock rs f.1, f.2, Fits-erase r.id sock rs p f.3)

-- The count of waits for a socket that is found.
pub find_socket-pending :
    (b sock : ℕ) (rs : List Socket) (p : ℕ → ℕ → Direction → ℕ) (r : Socket)
    → Fits b rs p
    → find_socket sock rs ≡ some r
    → (d : Direction) → p r.socket r.id d ≡ (if flag d r then 1 else 0)
find_socket-pending b sock [] p r f e = unfold find_socket in absurd cc
find_socket-pending b sock (q ∷ rs) p r f e = elim (Bool-cases (q.socket == sock)) [
  | inl h ↦
      subst (λ (x : Socket). (d : Direction) → p x.socket x.id d ≡ (if flag d x then 1 else 0))
        (some-injective (sym (find_socket-here sock q rs h) ∙ e)) f.2
  | inr h ↦ find_socket-pending q.id sock rs p r f.3 (sym (find_socket-later sock q rs h) ∙ e)
]
