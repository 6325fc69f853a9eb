-- ===== src/HashMap/Index.antt =====
-- The indexes of src/sessions/infohashmap.hpp and its keys.
use porla.Base.{
  ◌≡◌, refl, subst, Bool, true, false, List, [], ◌∷◌, none, some, is_some, arith, Bool-cases,
  Option-cases, inl, inr,
}
use porla.HashMap.{
  Key, same_key, HashMap, empty, set_item, add_halves, remove_halves, try_emplace, erase,
  insert_node, rekey, Call, emplaced, erased, rekeyed, call, calls,
}
use porla.HashMap.Halves.{
  same_key→eq, same_key_refl, Indexes, Indexes-mono, add_half-Indexes, remove_half-Indexes,
}

module _ {T : Type 0} where
  abbrev pub present : HashMap T → Key → Bool
  present s k = is_some (s.items k)

  pub record IsIndexed (s : HashMap T) : Type 0 where
    pub first : Indexes (λ k. k.v1) (present s) s.by_v1
    pub second : Indexes (λ k. k.v2) (present s) s.by_v2

  pub inserted-IsIndexed :
      (key : Key) (item : T) (s : HashMap T)
      → IsIndexed s
      → IsIndexed (add_halves key (set_item key (some item) s))
  unfolding add_halves set_item
  inserted-IsIndexed key item s v = record {
    first =
        add_half-Indexes (λ k. k.v1) after key s.by_v1 there
          (Indexes-mono (λ k. k.v1) (present s) after s.by_v1 more v.first);
    second =
        add_half-Indexes (λ k. k.v2) after key s.by_v2 there
          (Indexes-mono (λ k. k.v2) (present s) after s.by_v2 more v.second);
  }
    where
      after : Key → Bool
      after = present (set_item key (some item) s)

      there : after key ≡ true
      there = rw (same_key_refl key) refl

      more : (k : Key) → present s k ≡ true → after k ≡ true
      more k h = ground (arith, h)

  pub removed-IsIndexed :
      (key : Key) (s : HashMap T)
      → IsIndexed s
      → IsIndexed (set_item key none (remove_halves key s))
  unfolding remove_halves set_item
  removed-IsIndexed key s v = record {
    first = remove_half-Indexes (λ k. k.v1) (present s) after key s.by_v1 others v.first;
    second = remove_half-Indexes (λ k. k.v2) (present s) after key s.by_v2 others v.second;
  }
    where
      after : Key → Bool
      after = present (set_item key none s)

      swapped : (k : Key) → same_key key k ≡ true → same_key k key ≡ true
      swapped k h = subst (λ x. same_key x key ≡ true) (same_key→eq key k h) (same_key_refl key)

      others : (k : Key) → same_key k key ≡ false → present s k ≡ true → after k ≡ true
      others k n h = elim (Bool-cases (same_key key k)) [
        | inl r ↦ absurd (ground (arith, swapped k r, n))
        | inr r ↦ ground (arith, r, h)
      ]

  insert_node-IsIndexed :
      (curr : Key) (item : T) (s : HashMap T) → IsIndexed s → IsIndexed (insert_node curr item s).0
  unfolding insert_node
  insert_node-IsIndexed curr item s v = elim (Bool-cases (is_some (s.items curr))) [
    | inl h ↦ rw h v
    | inr h ↦ rw h (inserted-IsIndexed curr item s v)
  ]

  try_emplace-IsIndexed :
      (key : Key) (item : T) (s : HashMap T) → IsIndexed s → IsIndexed (try_emplace key item s).0
  unfolding try_emplace
  try_emplace-IsIndexed key item s v = elim (Bool-cases (is_some (s.items key))) [
    | inl h ↦ rw h v
    | inr h ↦ rw h (inserted-IsIndexed key item s v)
  ]

  moved-IsIndexed :
      (prev : Key) (s : HashMap T)
      → IsIndexed s
      → IsIndexed (remove_halves prev (set_item prev none s))
  unfolding remove_halves set_item
  moved-IsIndexed prev s v = removed-IsIndexed prev s v

  rekey-IsIndexed :
      (prev curr : Key) (s : HashMap T) → IsIndexed s → IsIndexed (rekey prev curr s).0
  unfolding rekey
  rekey-IsIndexed prev curr s v = elim (Option-cases (s.items prev)) [
    | inl h ↦ rw (h, rekey) v
    | inr (item, h) ↦ rw (h, rekey) (insert_node-IsIndexed curr item _ (moved-IsIndexed prev s v))
  ]

  call-IsIndexed : (c : Call T) (s : HashMap T) → IsIndexed s → IsIndexed (call c s)
  unfolding call erase
  call-IsIndexed (emplaced key item) s v = try_emplace-IsIndexed key item s v
  call-IsIndexed (erased key) s v = removed-IsIndexed key s v
  call-IsIndexed (rekeyed prev curr) s v = rekey-IsIndexed prev curr s v

  calls-IsIndexed : (cs : List (Call T)) (s : HashMap T) → IsIndexed s → IsIndexed (calls cs s)
  unfolding calls
  calls-IsIndexed [] s v = v
  calls-IsIndexed (c ∷ cs) s v = calls-IsIndexed cs (call c s) (call-IsIndexed c s v)

  -- After any calls, each key that an index has under a half has that half, and is the key of an item.
  pub calls-empty-IsIndexed : (cs : List (Call T)) → IsIndexed (calls cs empty)
  unfolding empty
  calls-empty-IsIndexed cs = calls-IsIndexed cs empty (record {
    first = record { own = λ h k e. absurd cc; live = λ h k e. absurd cc };
    second = record { own = λ h k e. absurd cc; live = λ h k e. absurd cc };
  })
