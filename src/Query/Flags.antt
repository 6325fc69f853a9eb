-- ===== src/Query/Flags.antt =====
-- `BuildFlags` of src/query/pql.cpp.
use porla.Base.{
  ℕ, ◌≡◌, ◌↔◌, subst, sym, ap, ◌∙◌, Bool, true, false, not, ◌&&◌, ◌||◌, List, [], ◌∷◌, arith, Bytes,
  codes, ◌==◌, ==_iff, if◌then◌else◌, any_of, bytes_eq, All, Bool-cases, inl, inr, drop,
}
use porla.Text.{to_lower}
use porla.Query.{
  is_unset, Span, Oper, Result, ok, ok-injective, fail, Value, list_of, suggest, unknown_name,
  repeated_flag, invalid_operator,
}

-- `lt::torrent_flags_t`, and the flag that libtorrent gives a name.
pub record FlagSet : Type 1 where
  pub Flags : Type 0
  pub empty : Flags
  pub join : Flags → Flags → Flags
  pub meet : Flags → Flags → Flags
  pub same : Flags → Flags → Bool
  pub any : Flags → Bool
  pub bit : Bytes → Flags

-- A set of flags is a bit field, and each name stands for one bit.
pub record IsBitField (fs : FlagSet) : Type 0 where
  pub has : fs.Flags → ℕ → Bool
  pub index : Bytes → ℕ
  pub has-empty : (i : ℕ) → has fs.empty i ≡ false
  pub has-join : (a b : fs.Flags) (i : ℕ) → has (fs.join a b) i ≡ has a i || has b i
  pub has-meet : (a b : fs.Flags) (i : ℕ) → has (fs.meet a b) i ≡ has a i && has b i
  pub has-bit : (n : Bytes) (i : ℕ) → has (fs.bit n) i ≡ (i == index n)
  pub any-false : (a : fs.Flags) → fs.any a ≡ false → (i : ℕ) → has a i ≡ false
  pub same_iff : (a b : fs.Flags) → (fs.same a b ≡ true) ↔ ((i : ℕ) → has a i ≡ has b i)

-- The keys of the map, in its order.
abbrev pub flag_names : List Bytes
flag_names =
    codes "apply_ip_filter"
    ∷ codes "auto_managed"
    ∷ codes "default_dont_download"
    ∷ codes "disable_dht"
    ∷ codes "disable_lsd"
    ∷ codes "disable_pex"
    ∷ codes "disable_v1_hashes"
    ∷ codes "duplicate_is_error"
    ∷ codes "i2p_torrent"
    ∷ codes "need_save_resume"
    ∷ codes "no_verify_files"
    ∷ codes "paused"
    ∷ codes "seed_mode"
    ∷ codes "sequential_download"
    ∷ codes "share_mode"
    ∷ codes "stop_when_ready"
    ∷ codes "super_seeding"
    ∷ codes "update_subscribe"
    ∷ codes "upload_mode"
    ∷ []

unfoldable pub is_negated : Bytes → Bool
is_negated [] = false
is_negated (c ∷ item) = c == b'~'

unfoldable pub flag_name : Bytes → Bytes
unfolding is_negated
flag_name item = to_lower (if is_negated item then drop 1 item else item)

unfoldable pub is_known : Bytes → Bool
is_known name = any_of (bytes_eq name) flag_names

module _ (fs : FlagSet) where
  open fs use {Flags, empty, join, meet, same, any, bit}

  -- The loop over the items, with `mask` and `want`.
  unfoldable pub flags_loop : Span → List Bytes → Flags → Flags → Result (Flags × Flags)
  flags_loop span [] mask want = ok (mask, want)
  flags_loop span (item ∷ items) mask want =
      let name = flag_name item in
      let rest =
        flags_loop span items (join mask (bit name))
          (if is_negated item then want else join want (bit name)) in
      if not (is_known name)
      then fail (unknown_name name (suggest name flag_names)) span
      else if any (meet mask (bit name))
      then fail (repeated_flag name) span
      else rest

  unfoldable pub build_flags : Oper → Span → Value → Result (Flags × Flags)
  unfolding flags_loop is_unset
  build_flags oper oper_span v =
      if is_unset oper
      then flags_loop v.span (list_of v) empty empty
      else fail (invalid_operator oper) oper_span

  -- The filter that `BuildFlags` returns.
  unfoldable pub passes_flags : Flags × Flags → Flags → Bool
  passes_flags (mask, want) flags = same (meet flags mask) want

  module _ (l : IsBitField fs) where
    open l use {has, index, has-empty, has-join, has-meet, has-bit, any-false, same_iff}

    -- What an item asks of the flags of a torrent.
    abbrev pub Asks : Flags → Bytes → Type 0
    Asks flags item = has flags (index (flag_name item)) ≡ not (is_negated item)

    -- The flags agree with `want` on `mask`.
    abbrev Agree : Flags → Flags → Flags → Type 0
    Agree mask want flags = (i : ℕ) → has mask i ≡ true → has flags i ≡ has want i

    abbrev Within : Flags → Flags → Type 0
    Within mask want = (i : ℕ) → has mask i ≡ false → has want i ≡ false

    passes_iff :
        (mask want flags : Flags)
        → Within mask want
        → (passes_flags (mask, want) flags ≡ true) ↔ Agree mask want flags
    unfolding passes_flags
    passes_iff mask want flags w = (
      λ h i m. ground (arith, (same_iff (meet flags mask) want).0 h i, has-meet flags mask i, m),
      λ a. (same_iff (meet flags mask) want).1 λ i. elim (Bool-cases (has mask i)) [
        | inl m ↦ ground (arith, a i m, has-meet flags mask i, m)
        | inr m ↦ ground (arith, w i m, has-meet flags mask i, m)
      ],
    )

    module _ (item : Bytes) (mask want : Flags) where
      next_want : Flags
      next_want = if is_negated item then want else join want (bit (flag_name item))

      next_mask : Flags
      next_mask = join mask (bit (flag_name item))

      has-next_want :
          (i : ℕ)
          → has next_want i ≡ has want i || (not (is_negated item) && (i == index (flag_name item)))
      unfolding next_want
      has-next_want i = elim (Bool-cases (is_negated item)) [
        | inl h ↦ rw (h, next_want) (ground arith)
        | inr h ↦ rw (h, next_want) (has-join want _ i ∙ ap (λ b. has want i || b) (has-bit _ i))
      ]

      has-next_mask : (i : ℕ) → has next_mask i ≡ has mask i || (i == index (flag_name item))
      unfolding next_mask
      has-next_mask i = has-join mask _ i ∙ ap (λ b. has mask i || b) (has-bit _ i)

      next-Within : Within mask want → Within next_mask next_want
      next-Within w i h = ground (arith, has-next_mask i, has-next_want i, w i)

      -- The flag is new to the mask.
      fresh_bit :
          any (meet mask (bit (flag_name item))) ≡ false → has mask (index (flag_name item)) ≡ false
      fresh_bit h =
          let n = flag_name item in
          ground (
            arith,
            any-false (meet mask (bit n)) h (index n),
            has-meet mask (bit n) (index n),
            has-bit n (index n),
          )

      Agree-iff :
          (flags : Flags)
          → Within mask want
          → has mask (index (flag_name item)) ≡ false
          → Agree next_mask next_want flags ↔ (Asks flags item × Agree mask want flags)
      Agree-iff flags w f =
          let j = index (flag_name item) in
          (
            λ a. (
              ground (arith, a j, has-next_mask j, has-next_want j, w j f),
              λ i m. ground (arith, a i, has-next_mask i, has-next_want i, f, m),
            ),
            λ p i m. elim (Bool-cases (i == j)) [
              | inl e ↦ ground (arith, e, p.0, has-next_want i, w j f, ==_iff i j)
              | inr e ↦ ground (arith, e, p.1 i, has-next_mask i, has-next_want i, m)
            ],
          )

    module _ (span : Span) (item : Bytes) (items : List Bytes) (mask want : Flags) where
      unknown_item :
          is_known (flag_name item) ≡ false
          → flags_loop span (item ∷ items) mask want
            ≡ fail (unknown_name (flag_name item) (suggest (flag_name item) flag_names)) span
      unfolding flags_loop
      unknown_item k = rw k

      repeated_item :
          is_known (flag_name item) ≡ true
          → any (meet mask (bit (flag_name item))) ≡ true
          → flags_loop span (item ∷ items) mask want ≡ fail (repeated_flag (flag_name item)) span
      unfolding flags_loop
      repeated_item k r = rw (k, r)

      next_item :
          is_known (flag_name item) ≡ true
          → any (meet mask (bit (flag_name item))) ≡ false
          → flags_loop span (item ∷ items) mask want
            ≡ flags_loop span items (next_mask item mask want) (next_want item mask want)
      unfolding flags_loop next_mask next_want
      next_item k r = rw (k, r)

    flags_loop-meaning :
        (span : Span) (items : List Bytes) (mask want flags : Flags) (r : Flags × Flags)
        → Within mask want
        → flags_loop span items mask want ≡ ok r
        → (passes_flags r flags ≡ true) ↔ (All (Asks flags) items × Agree mask want flags)
    flags_loop-meaning span [] mask want flags r h e =
        subst (λ q. (passes_flags q flags ≡ true) ↔ (Unit {0} × Agree mask want flags))
          (ok-injective (mask, want) r (unfold flags_loop in e))
          (let (to, from) = passes_iff mask want flags h in ((λ p. (tt, to p)), λ p. from p.1))
    flags_loop-meaning span (item ∷ items) mask want flags r h e =
        elim (Bool-cases (is_known (flag_name item))) [
          | inr k ↦ absurd (cc (unknown_item span item items mask want k))
          | inl k ↦ elim (Bool-cases (any (meet mask (bit (flag_name item))))) [
            | inl q ↦ absurd (cc (repeated_item span item items mask want k q))
            | inr q ↦
                let f = fresh_bit item mask want q in
                let ih =
                  flags_loop-meaning span items (next_mask item mask want)
                    (next_want item mask want) flags r (next-Within item mask want h)
                    (sym (next_item span item items mask want k q) ∙ e) in
                let (to, from) = Agree-iff item mask want flags h f in
                (
                  (λ p. let (all, agree) = ih.0 p in (((to agree).0, all), (to agree).1)),
                  λ p. ih.1 (p.0.1, from (p.0.0, p.1)),
                )
          ]
        ]

    -- The filter of a list of flags passes exactly the torrents that have each flag of the list, and
    -- that lack each flag with a "~".
    pub build_flags-meaning :
        (oper_span : Span) (v : Value) (flags : Flags) (r : Flags × Flags)
        → build_flags Oper.unset oper_span v ≡ ok r
        → (passes_flags r flags ≡ true) ↔ All (Asks flags) (list_of v)
    unfolding build_flags
    build_flags-meaning oper_span v flags r e =
        let (to, from) =
          flags_loop-meaning v.span (list_of v) empty empty flags r (λ i h. has-empty i) e in
        ((λ p. (to p).0), λ a. from (a, λ i m. absurd (cc (has-empty i))))
