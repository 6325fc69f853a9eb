-- ===== src/Tracking/Apart.antt =====
-- That the torrents of a session (src/sessions/session.cpp) do not share a half of their hashes.
use porla.Base.{
  ℕ, ◌≡◌, refl, sym, ap, ◌∙◌, subst, Bool, true, false, Bool-cases, inl, inr, List, [], ◌∷◌, Option,
  none, some, some-injective, if◌then◌else◌, if_both, if_cases, is_some, In,
}
use porla.HashMap.{
  Key, HashMap, empty, calls, add_half, same_key, set_item, add_halves, remove_halves, try_emplace,
  erase, find_by_half,
}
use porla.HashMap.Halves.{same_key→eq, same_key_refl}
use porla.HashMap.Index.{
  IsIndexed, present, inserted-IsIndexed, removed-IsIndexed, calls-empty-IsIndexed,
}
use porla.Tracking.{
  State, Tracked, Added, hand_over, add, untrack_found, untrack, Request, added, untracked, serve,
  serve_all, new_tracked,
}
use porla.Tracking.Covered.{add_half-keeps, add_half-new, remove_half-keeps}
use porla.Tracking.Shared.{Shares, IsConsistent, IsApart, Finds, shared-Finds, shared-found}

same_key_sym : (a b : Key) → same_key a b ≡ true → same_key b a ≡ true
same_key_sym a b h = subst (λ x. same_key x a ≡ true) (same_key→eq a b h) (same_key_refl a)

-- An item is inserted at a hash that finds none.
inserted-IsApart :
    (keys : List Key) (hash : Key) (item : Tracked) (s : HashMap Tracked)
    → IsConsistent keys
    → In hash keys
    → is_some (find_by_half hash s) ≡ false
    → IsApart keys s
    → IsIndexed (add_halves hash (set_item hash (some item) s))
    → IsApart keys (add_halves hash (set_item hash (some item) s))
unfolding add_halves set_item
inserted-IsApart keys hash item s consistent asked missing a i = record {
  known = λ k p. elim (Bool-cases (same_key hash k)) [
    | inl e ↦ subst (λ x. In x keys) (same_key→eq hash k e) asked
    | inr e ↦ a.known k (before k e p)
  ];
  indexed = i;
  first = λ k h p e. elim (Bool-cases (same_key hash k)) [
    | inl q ↦
        subst (λ (x : Key). (h : ℕ) → x.v1 ≡ some h → add_half hash.v1 hash s.by_v1 h ≡ some x)
          (same_key→eq hash k q) new_first h e
    | inr q ↦ add_half-keeps hash.v1 hash k s.by_v1 h (a.first k h (before k q p) e)
  ];
  second = λ k h p e. elim (Bool-cases (same_key hash k)) [
    | inl q ↦
        subst (λ (x : Key). (h : ℕ) → x.v2 ≡ some h → add_half hash.v2 hash s.by_v2 h ≡ some x)
          (same_key→eq hash k q) new_second h e
    | inr q ↦ add_half-keeps hash.v2 hash k s.by_v2 h (a.second k h (before k q p) e)
  ];
}
  where
    after : Key → Bool
    after k = is_some (if same_key hash k then some item else s.items k)

    before : (k : Key) → same_key hash k ≡ false → after k ≡ true → present s k ≡ true
    before k e p = sym (ap (λ b. is_some (if b then some item else s.items k)) e) ∙ p

    stranger : (j : Key) → present s j ≡ true → Shares hash j → ⊥
    stranger j p shares =
        let c = consistent hash j asked (a.known j p) shares in
        let t : true ≡ false = sym (shared-found keys s hash j a c p shares) ∙ missing in absurd cc

    new_first : (h : ℕ) → hash.v1 ≡ some h → add_half hash.v1 hash s.by_v1 h ≡ some hash
    new_first h e =
        ap (λ o. add_half o hash s.by_v1 h) e ∙ add_half-new h hash s.by_v1 (free (s.by_v1 h) refl)
      where
        free : (o : Option Key) → s.by_v1 h ≡ o → s.by_v1 h ≡ none
        free none f = f
        free (some j) f =
            absurd (stranger j (a.indexed.first.live h j f) (inl (h, e, a.indexed.first.own h j f)))

    new_second : (h : ℕ) → hash.v2 ≡ some h → add_half hash.v2 hash s.by_v2 h ≡ some hash
    new_second h e =
        ap (λ o. add_half o hash s.by_v2 h) e ∙ add_half-new h hash s.by_v2 (free (s.by_v2 h) refl)
      where
        free : (o : Option Key) → s.by_v2 h ≡ o → s.by_v2 h ≡ none
        free none f = f
        free (some j) f =
            absurd
              (stranger j (a.indexed.second.live h j f) (inr (h, e, a.indexed.second.own h j f)))

erased-IsApart :
    (keys : List Key) (hash : Key) (s : HashMap Tracked)
    → IsApart keys s
    → IsApart keys (erase hash s)
unfolding erase remove_halves set_item
erased-IsApart keys hash s a = record {
  known = λ k p. a.known k (before k (other k p) p);
  indexed = removed-IsIndexed hash s a.indexed;
  first = λ k h p e.
      remove_half-keeps hash.v1 hash k s.by_v1 h (flipped k (other k p))
        (a.first k h (before k (other k p) p) e);
  second = λ k h p e.
      remove_half-keeps hash.v2 hash k s.by_v2 h (flipped k (other k p))
        (a.second k h (before k (other k p) p) e);
}
  where
    nothing : Option Tracked
    nothing = none

    after : Key → Bool
    after k = is_some (if same_key hash k then nothing else s.items k)

    other : (k : Key) → after k ≡ true → same_key hash k ≡ false
    other k p = elim (Bool-cases (same_key hash k)) [
      | inl e ↦
          let t : false ≡ true = sym (ap (λ b. is_some (if b then nothing else s.items k)) e) ∙ p in
          absurd cc
      | inr e ↦ e
    ]

    before : (k : Key) → same_key hash k ≡ false → after k ≡ true → present s k ≡ true
    before k e p = sym (ap (λ b. is_some (if b then nothing else s.items k)) e) ∙ p

    flipped : (k : Key) → same_key hash k ≡ false → same_key k hash ≡ false
    flipped k e = elim (Bool-cases (same_key k hash)) [
      | inl f ↦ let t : true ≡ false = sym (same_key_sym k hash f) ∙ e in absurd cc
      | inr f ↦ f
    ]

-- The hashes that are added.
abbrev pub asked : List Request → List Key
asked [] = []
asked (added hash has_info state accepted ∷ rs) = hash ∷ asked rs
asked (untracked hash ∷ rs) = asked rs

module _ (keys : List Key) (consistent : IsConsistent keys) where
  hand_over-IsApart :
      (hash : Key) (accepted : Bool) (r : HashMap Tracked × Bool)
      → IsApart keys r.0
      → IsApart keys (hand_over hash accepted r).0
  unfolding hand_over
  hand_over-IsApart hash accepted (s, false) a = a
  hand_over-IsApart hash accepted (s, true) a =
      if_both (λ (r : HashMap Tracked × Added). IsApart keys r.0) accepted a
        (erased-IsApart keys hash s a)

  add-IsApart :
      (hash : Key) (has_info : Bool) (state : State) (accepted : Bool) (s : HashMap Tracked)
      → In hash keys
      → IsApart keys s
      → IsApart keys (add hash has_info state accepted s).0
  unfolding add try_emplace
  add-IsApart hash has_info state accepted s asked a =
      if_cases (λ (r : HashMap Tracked × Added). IsApart keys r.0) (is_some (find_by_half hash s))
        (λ _. a)
        (λ missing. hand_over-IsApart hash accepted _ (
          if_both (λ (r : HashMap Tracked × Bool). IsApart keys r.0) (is_some (s.items hash)) a
            (inserted-IsApart keys hash (new_tracked has_info state) s consistent asked missing a
              (inserted-IsIndexed hash (new_tracked has_info state) s a.indexed))))

  untrack-IsApart :
      (hash : Key) (s : HashMap Tracked) → IsApart keys s → IsApart keys (untrack hash s).0
  unfolding untrack
  untrack-IsApart hash s a = found (s.items hash)
    where
      found : (o : Option Tracked) → IsApart keys (untrack_found hash o s).0
      found none = unfold untrack_found in a
      found (some t) = unfold untrack_found in erased-IsApart keys hash s a

  serve_all-IsApart :
      (rs : List Request) (s : HashMap Tracked)
      → ((hash : Key) → In hash (asked rs) → In hash keys)
      → IsApart keys s
      → IsApart keys (serve_all rs s)
  unfolding serve_all serve
  serve_all-IsApart [] s i a = a
  serve_all-IsApart (added hash has_info state accepted ∷ rs) s i a =
      serve_all-IsApart rs (add hash has_info state accepted s).0 (λ k m. i k (inr m))
        (add-IsApart hash has_info state accepted s (i hash (inl refl)) a)
  serve_all-IsApart (untracked hash ∷ rs) s i a =
      serve_all-IsApart rs (untrack hash s).0 i (untrack-IsApart hash s a)

empty-IsApart : (keys : List Key) → IsApart keys empty
unfolding empty calls
empty-IsApart keys = record {
  known = λ k p. absurd cc;
  indexed = calls-empty-IsIndexed [];
  first = λ k h p e. absurd cc;
  second = λ k h p e. absurd cc;
}

-- If the hashes that are added do not contradict each other, then after any calls of Add and UntrackTorrent,
-- also where libtorrent refuses a torrent, no two torrents of the session share a half of their hashes.
-- One of those hashes that shares a half with a torrent finds a torrent that it shares a half with, and
-- finds that one if it shares a half with no other.
pub serve_all-Apart :
    (rs : List Request)
    → IsConsistent (asked rs)
    → let s = serve_all rs empty in
      ((k j : Key) → present s k ≡ true → present s j ≡ true → Shares k j → k ≡ j)
      × ((hash k : Key)
          → In hash (asked rs)
          → present s k ≡ true
          → Shares hash k
          → ((j : Key) × Finds s hash j)
            × (((j : Key) → present s j ≡ true → Shares hash j → j ≡ k)
                → find_by_half hash s ≡ s.items k))
serve_all-Apart rs consistent =
    let a =
      serve_all-IsApart (asked rs) consistent rs empty (λ k m. m) (empty-IsApart (asked rs)) in
    (λ k j p q shares. one a k j p q shares, λ hash k m p shares. found a hash k m p shares)
  where
    s : HashMap Tracked
    s = serve_all rs empty

    one :
        IsApart (asked rs) s
        → (k j : Key) → present s k ≡ true
        → present s j ≡ true
        → Shares k j
        → k ≡ j
    one a k j p q (inl (h, e, f)) = some-injective (sym (a.first k h p e) ∙ a.first j h q f)
    one a k j p q (inr (h, e, f)) = some-injective (sym (a.second k h p e) ∙ a.second j h q f)

    found :
        IsApart (asked rs) s
        → (hash k : Key) → In hash (asked rs)
        → present s k ≡ true
        → Shares hash k
        → ((j : Key) × Finds s hash j)
          × (((j : Key) → present s j ≡ true → Shares hash j → j ≡ k)
              → find_by_half hash s ≡ s.items k)
    found a hash k m p shares =
        let (j, finds) =
          shared-Finds (asked rs) s hash k a (consistent hash k m (a.known k p) shares) p shares in
        (
          (j, finds),
          λ only.
              subst (λ x. find_by_half hash s ≡ s.items x) (only j finds.held finds.shares)
                finds.item,
        )
