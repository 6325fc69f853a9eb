-- ===== src/Tracking/Adding.antt =====
-- What `Torrents::Add` of src/torrents.cpp leaves of the torrents of a session.
use porla.Base.{
  ℕ, ◌≡◌, ◌≢◌, refl, sym, ap, ◌∙◌, Bool, true, false, not, ◌&&◌, Bool-cases, inl, inr, ◌⊎◌, Option,
  none, some, if◌then◌else◌, if_both, if_cases, is_some, ◌==◌, ==_iff, &&_iff,
}
use porla.HashMap.{
  Key, HashMap, Halves, same_key, set_half, add_half, remove_half, is_key, set_item, add_halves,
  remove_halves, try_emplace, erase, find_by_half,
}
use porla.HashMap.Halves.{same_key→eq, same_key_refl}
use porla.HashMap.Index.{IsIndexed, present}
use porla.Tracking.{
  State, adding, Tracked, new_tracked, Added, taken, refused, thrown, hand_over, add, Error,
  no_error, Params, added_error, with_error, add_torrent, has_half,
}

-- Two maps have the same items and lead from the same halves to the same keys.
pub record Same (s t : HashMap Tracked) : Type 0 where
  pub items : (k : Key) → t.items k ≡ s.items k
  pub first : (h : ℕ) → t.by_v1 h ≡ s.by_v1 h
  pub second : (h : ℕ) → t.by_v2 h ≡ s.by_v2 h

Same-refl : (s : HashMap Tracked) → Same s s
Same-refl s = record { items = λ k. refl; first = λ h. refl; second = λ h. refl }

none_of : {A : Type 0} (o : Option A) → is_some o ≡ false → none ≡ o
none_of none e = refl
none_of (some a) e = absurd cc

-- A half that is added and removed again, of a key that the index did not lead to.
remove_half-add_half :
    (o : Option ℕ) (key : Key) (m : Halves) (x : ℕ)
    → ((h : ℕ) → is_key (m h) key ≡ false)
    → remove_half o key (add_half o key m) x ≡ m x
unfolding remove_half add_half set_half
remove_half-add_half none key m x n = refl
remove_half-add_half (some h) key m x n =
    if_cases (λ (l : Halves). (if is_key (l h) key then set_half h none l else l) x ≡ m x)
      (is_some (m h)) (λ _. ap (λ b. (if b then set_half h none m else m) x) (n h))
      (λ free.
        ap
          (λ b.
            (if b then set_half h none (set_half h (some key) m) else set_half h (some key) m) x)
          mine
        ∙ off free (Bool-cases (h == x)))
  where
    mine : is_key (set_half h (some key) m h) key ≡ true
    mine =
        ap (λ b. is_key (if b then some key else m h) key) ((==_iff h h).1 refl) ∙ same_key_refl key

    off :
        is_some (m h) ≡ false
        → ((h == x) ≡ true) ⊎ ((h == x) ≡ false)
        → set_half h none (set_half h (some key) m) x ≡ m x
    off free (inl e) =
        ap (λ b. if b then none else if b then some key else m x) e
        ∙ none_of (m h) free
        ∙ ap m ((==_iff h x).0 e)
    off free (inr e) = ap (λ b. if b then none else if b then some key else m x) e

-- What a call of `Add` leaves: as it was, or the torrent under its hash as well.
data Left (hash : Key) (item : Tracked) (s : HashMap Tracked)
    : HashMap Tracked × Added → Type 0 where
  unchanged : (t : HashMap Tracked) (r : Added) → r ≢ taken → Same s t → Left hash item s (t, r)
  inserted :
      (t : HashMap Tracked)
      → present s hash ≡ false
      → ((k : Key) → t.items k ≡ (if same_key hash k then some item else s.items k))
      → Left hash item s (t, taken)

erased-Same :
    (hash : Key) (item : Tracked) (s : HashMap Tracked)
    → IsIndexed s
    → present s hash ≡ false
    → Same s (erase hash (add_halves hash (set_item hash (some item) s)))
unfolding erase add_halves remove_halves set_item
erased-Same hash item s i n = record {
  items = λ k. restored k (Bool-cases (same_key hash k));
  first = λ h. remove_half-add_half hash.v1 hash s.by_v1 h (strange s.by_v1 i.first.live);
  second = λ h. remove_half-add_half hash.v2 hash s.by_v2 h (strange s.by_v2 i.second.live);
}
  where
    strange :
        (m : Halves)
        → ((h : ℕ) (k : Key) → m h ≡ some k → present s k ≡ true)
        → (h : ℕ) → is_key (m h) hash ≡ false
    strange m live h = led (m h) refl
      where
        led : (o : Option Key) → m h ≡ o → is_key o hash ≡ false
        led none e = refl
        led (some k) e = elim (Bool-cases (same_key k hash)) [
          | inl f ↦
              let t : true ≡ false = sym (live h k e) ∙ ap (present s) (same_key→eq k hash f) ∙ n in
              absurd cc
          | inr f ↦ f
        ]

    restored :
        (k : Key)
        → (same_key hash k ≡ true) ⊎ (same_key hash k ≡ false)
        → (if same_key hash k then none else if same_key hash k then some item else s.items k)
          ≡ s.items k
    restored k (inl e) =
        ap (λ b. if b then none else if b then some item else s.items k) e
        ∙ none_of (s.items hash) n
        ∙ ap s.items (same_key→eq hash k e)
    restored k (inr e) = ap (λ b. if b then none else if b then some item else s.items k) e

add-Left :
    (hash : Key) (has_info : Bool) (state : State) (accepted : Bool) (s : HashMap Tracked)
    → IsIndexed s
    → Left hash (new_tracked has_info state) s (add hash has_info state accepted s)
unfolding add hand_over try_emplace add_halves set_item
add-Left hash has_info state accepted s i =
    if_both L (is_some (find_by_half hash s)) (unchanged s refused (λ e. cc) (Same-refl s)) (
      if_cases (λ (r : HashMap Tracked × Bool). L (hand_over hash accepted r))
        (is_some (s.items hash)) (λ _. unchanged s refused (λ e. cc) (Same-refl s))
        (λ free.
          if_both L accepted (inserted _ free (λ k. refl)) (
            unchanged _ thrown (λ e. cc) (erased-Same hash (new_tracked has_info state) s i free))))
  where
    L : HashMap Tracked × Added → Type 0
    L = Left hash (new_tracked has_info state) s

-- What a call of `Torrents::Add` has done: nothing, and it says why; or it was given a torrent that can be added,
-- whose hash the session did not have, and which it now has, as one that is being added.
pub record Outcome (p : Params) (s : HashMap Tracked) (r : HashMap Tracked × Error) : Type 0 where
  pub on_error : r.1 ≢ no_error → Same s r.0
  pub complete :
      r.1 ≡ no_error
      → (p.has_session && (has_half p.hash && (p.is_valid && p.has_save_path))) ≡ true
  pub on_success :
      r.1 ≡ no_error
      → (present s p.hash ≡ false)
        × ((k : Key)
            → r.0.items k
              ≡ (if same_key p.hash k then some (new_tracked p.has_info adding) else s.items k))

refusal-Outcome : (p : Params) (s : HashMap Tracked) (e : Error) → e ≢ no_error → Outcome p s (s, e)
refusal-Outcome p s e n = record {
  on_error = λ _. Same-refl s;
  complete = λ k. absurd (n k);
  on_success = λ k. absurd (n k);
}

with_error-Outcome :
    (p : Params) (s : HashMap Tracked) (r : HashMap Tracked × Added)
    → (p.has_session && (has_half p.hash && (p.is_valid && p.has_save_path))) ≡ true
    → Left p.hash (new_tracked p.has_info adding) s r
    → Outcome p s (with_error r)
unfolding with_error
with_error-Outcome p s _ c (unchanged t r n same) = record {
  on_error = λ _. same;
  complete = λ _. c;
  on_success = λ e. absurd (n (only_taken r e));
}
  where
    only_taken : (r : Added) → added_error r ≡ no_error → r ≡ taken
    only_taken taken e = refl
    only_taken refused e = absurd cc
    only_taken thrown e = absurd cc
with_error-Outcome p s _ c (inserted t n items) = record {
  on_error = λ e. absurd (e refl);
  complete = λ _. c;
  on_success = λ _. (n, items);
}

-- In a session whose map has right indexes: a call of Torrents::Add that reports an error, also one where libtorrent
-- throws, leaves the session's torrents and their indexes as they were; and one that reports none was
-- given a session, a hash, valid client data and a path, and has added the torrent under its hash,
-- which the session did not have, and changed no other.
pub add_torrent-Outcome :
    (p : Params) (accepted : Bool) (s : HashMap Tracked)
    → IsIndexed s
    → Outcome p s (add_torrent p accepted s)
unfolding add_torrent
add_torrent-Outcome p accepted s i =
    if_cases (Outcome p s) (not p.has_session) (λ _. refusal-Outcome p s _ (λ e. cc))
      (λ a.
        if_cases (Outcome p s) (not (has_half p.hash)) (λ _. refusal-Outcome p s _ (λ e. cc))
          (λ b.
            if_cases (Outcome p s) (not p.is_valid) (λ _. refusal-Outcome p s _ (λ e. cc))
              (λ c.
                if_cases (Outcome p s) (not p.has_save_path) (λ _. refusal-Outcome p s _ (λ e. cc))
                  (λ d.
                    with_error-Outcome p s _ (all_given a b c d)
                      (add-Left p.hash p.has_info adding accepted s i)))))
  where
    given : (b : Bool) → not b ≡ false → b ≡ true
    given true e = refl
    given false e = absurd cc

    all_given :
        not p.has_session ≡ false
        → not (has_half p.hash) ≡ false
        → not p.is_valid ≡ false
        → not p.has_save_path ≡ false
        → (p.has_session && (has_half p.hash && (p.is_valid && p.has_save_path))) ≡ true
    all_given a b c d = (&&_iff p.has_session _).1 (
      given p.has_session a,
      (&&_iff (has_half p.hash) _).1 (
        given (has_half p.hash) b,
        (&&_iff p.is_valid _).1 (given p.is_valid c, given p.has_save_path d),
      ),
    )
