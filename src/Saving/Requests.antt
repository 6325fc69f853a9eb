-- ===== src/Saving/Requests.antt =====
-- What the calls of `MarkDirty` in src/sessions/session.cpp come to when `SaveDirty` runs.
use porla.Base.{
  ℕ, ◌+◌, ◌≡◌, refl, sym, ap, ◌∙◌, Bool, true, false, ◌&&◌, ◌||◌, Bool-cases, inl, inr, List, [],
  ◌∷◌, if◌then◌else◌, is_empty, arith,
}
use porla.HashMap.{Key, same_key}
use porla.HashMap.Halves.{same_key→eq, same_key_refl}
use porla.Saving.{Dirty, clean, mark, mark_dirty, requests, save_dirty, mark_all}

-- The marks, or saves, of one torrent.
abbrev pub forces : Key → List (Key × Bool) → List Bool
forces k [] = []
forces k ((j, g) ∷ d) = if same_key j k then g ∷ forces k d else forces k d

abbrev pub is_marked : Key → List (Key × Bool) → Bool
is_marked k [] = false
is_marked k ((j, f) ∷ calls) = same_key j k || is_marked k calls

abbrev pub is_forced : Key → List (Key × Bool) → Bool
is_forced k [] = false
is_forced k ((j, f) ∷ calls) = (same_key j k && f) || is_forced k calls

abbrev pub armings : List Bool → ℕ
armings [] = 0
armings (b ∷ bs) = (if b then 1 else 0) + armings bs

join_force : Bool → List Bool → List Bool
join_force f [] = f ∷ []
join_force f (g ∷ gs) = (g || f) ∷ gs

forces-mark :
    (k j : Key) (f : Bool) (d : List (Key × Bool))
    → forces k (mark j f d) ≡ (if same_key j k then join_force f (forces k d) else forces k d)
unfolding mark join_force
forces-mark k j f [] = refl
forces-mark k j f ((i, g) ∷ d) = elim (Bool-cases (same_key i j)) [
  | inl e ↦ rw (e, same_key→eq i j e) (ground arith)
  | inr e ↦ elim (Bool-cases (same_key i k)) [
    | inr h ↦ rw (e, h) (forces-mark k j f d)
    | inl h ↦ elim (Bool-cases (same_key j k)) [
      | inr h' ↦
          rw (e, h, h')
            (ap (λ l. g ∷ l)
              (forces-mark k j f d
                ∙ ap (λ c. if c then join_force f (forces k d) else forces k d) h'))
      | inl h' ↦
          let same : i ≡ j = same_key→eq i k h ∙ sym (same_key→eq j k h') in
          let t : true ≡ false = sym (same_key_refl i) ∙ ap (same_key i) same ∙ e in absurd cc
    ]
  ]
]

or_assoc : (a b c : Bool) → ((a || b) || c) ≡ (a || (b || c))
or_assoc true b c = refl
or_assoc false b c = refl

joined : Key → List (Key × Bool) → List Bool → List Bool
joined k [] l = l
joined k ((j, f) ∷ calls) l = joined k calls (if same_key j k then join_force f l else l)

forces-mark_all :
    (k : Key) (calls : List (Key × Bool)) (d : Dirty)
    → forces k ((mark_all calls d).0).marks ≡ joined k calls (forces k d.marks)
unfolding mark_all mark_dirty joined
forces-mark_all k [] d = refl
forces-mark_all k ((j, f) ∷ calls) d =
    forces-mark_all k calls (mark_dirty j f d).0 ∙ ap (joined k calls) (forces-mark k j f d.marks)

joined-one :
    (k : Key) (calls : List (Key × Bool)) (g : Bool)
    → joined k calls (g ∷ []) ≡ (g || is_forced k calls) ∷ []
unfolding joined join_force
joined-one k [] g = ap (λ b. b ∷ []) (ground arith)
joined-one k ((j, f) ∷ calls) g = elim (Bool-cases (same_key j k)) [
  | inl h ↦ rw h (joined-one k calls (g || f) ∙ ap (λ b. b ∷ []) (or_assoc g f (is_forced k calls)))
  | inr h ↦ rw h (joined-one k calls g)
]

joined-none :
    (k : Key) (calls : List (Key × Bool))
    → joined k calls [] ≡ (if is_marked k calls then is_forced k calls ∷ [] else [])
unfolding joined join_force
joined-none k [] = refl
joined-none k ((j, f) ∷ calls) = elim (Bool-cases (same_key j k)) [
  | inl h ↦ rw h (joined-one k calls f)
  | inr h ↦ rw h (joined-none k calls)
]

forces-requests :
    (is_valid : Key → Bool) (k : Key) (d : List (Key × Bool))
    → forces k (requests is_valid d) ≡ (if is_valid k then forces k d else [])
unfolding requests
forces-requests is_valid k [] = ground arith
forces-requests is_valid k ((j, g) ∷ d) = elim (Bool-cases (is_valid j)) [
  | inl v ↦ elim (Bool-cases (same_key j k)) [
    | inr h ↦ rw (v, h) (forces-requests is_valid k d)
    | inl h ↦
        let u : is_valid k ≡ true = sym (ap is_valid (same_key→eq j k h)) ∙ v in
        rw (v, h, u)
          (ap (λ l. g ∷ l)
            (forces-requests is_valid k d ∙ ap (λ c. if c then forces k d else []) u))
  ]
  | inr v ↦ elim (Bool-cases (same_key j k)) [
    | inr h ↦ rw (v, h) (forces-requests is_valid k d)
    | inl h ↦
        let u : is_valid k ≡ false = sym (ap is_valid (same_key→eq j k h)) ∙ v in
        rw (v, h, u) (forces-requests is_valid k d ∙ ap (λ c. if c then forces k d else []) u)
  ]
]

armed-once :
    (calls : List (Key × Bool)) (d : Dirty) → d.armed ≡ true → armings (mark_all calls d).1 ≡ 0
unfolding mark_all mark_dirty
armed-once [] d h = refl
armed-once ((j, f) ∷ calls) d h =
    rw h (omega (arith, armed-once calls (record { marks = mark j f d.marks; armed = true }) refl))

armings-mark_all :
    (calls : List (Key × Bool))
    → armings (mark_all calls clean).1 ≡ (if is_empty calls then 0 else 1)
unfolding mark_all mark_dirty
armings-mark_all [] = refl
armings-mark_all ((j, f) ∷ calls) =
    omega (arith, armed-once calls (record { marks = mark j f []; armed = true }) refl)

if_and :
    (v m : Bool) (l : List Bool)
    → (if v then if m then l else [] else []) ≡ (if v && m then l else [])
if_and true m l = refl
if_and false m l = refl

-- The calls of MarkDirty arm the timer once, if there are any; when it runs, SaveDirty asks exactly once for a
-- save of each torrent that was marked and is still valid, forced if one of its marks was, and for no
-- other; and no mark is left.
pub save_dirty-mark_all :
    (is_valid : Key → Bool) (calls : List (Key × Bool))
    → let saved = save_dirty is_valid (mark_all calls clean).0 in
      (armings (mark_all calls clean).1 ≡ (if is_empty calls then 0 else 1))
      × (saved.0 ≡ clean)
      × ((k : Key)
          → forces k saved.1
            ≡ (if is_valid k && is_marked k calls then is_forced k calls ∷ [] else []))
unfolding save_dirty
save_dirty-mark_all is_valid calls = (
  armings-mark_all calls,
  refl,
  λ k.
      forces-requests is_valid k ((mark_all calls clean).0).marks
      ∙ ap (λ l. if is_valid k then l else []) (forces-mark_all k calls clean ∙ joined-none k calls)
      ∙ if_and (is_valid k) (is_marked k calls) (is_forced k calls ∷ []),
)
