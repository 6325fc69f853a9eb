-- ===== src/Listing/Counting.antt =====
-- `torrents.count` against `torrents.list` (src/rpc/methods/torrents.cpp).
use porla.Base.{
  ℕ, ◌+◌, ◌≡◌, refl, sym, ap, ap₂, ◌∙◌, Bool, true, false, not, ◌&&◌, ◌||◌, List, [], ◌∷◌, none,
  some, Bytes, codes, bytes_eq, keep, length, arith, All,
}
use porla.Listing.{Torrent}
use porla.Listing.Status.{
  Filters, Counters, no_counts, plus, is_leeching, is_complete, names_status, passes, is_listed,
  count_torrent, count_torrents,
}

-- The statuses that are counted.
pub data Status : Type 0 where
  downloading downloading_queued error finished paused seeding seeding_queued : Status

abbrev pub status_name : Status → Bytes
status_name downloading = codes "downloading"
status_name downloading_queued = codes "downloading_queued"
status_name error = codes "error"
status_name finished = codes "finished"
status_name paused = codes "paused"
status_name seeding = codes "seeding"
status_name seeding_queued = codes "seeding_queued"

abbrev pub counter : Status → Counters → ℕ
counter downloading c = c.downloading
counter downloading_queued c = c.downloading_queued
counter error c = c.error
counter finished c = c.finished
counter paused c = c.paused
counter seeding c = c.seeding
counter seeding_queued c = c.seeding_queued

-- The filters that ask for one status only.
abbrev pub only : Status → Filters
only s = record {
  query = none;
  session_id = none;
  category = none;
  save_path = none;
  state = none;
  status = some (status_name s ∷ []);
  tags = none;
}

or_false : (b : Bool) → (b || false) ≡ b
or_false true = refl
or_false false = refl

and_true : (b : Bool) → (b && true) ≡ b
and_true true = refl
and_true false = refl

plus-swap : (a n : ℕ) (b : Bool) → plus a b + n ≡ a + plus n b
plus-swap a n true = omega arith
plus-swap a n false = refl

length-keep :
    {A : Type 0} (p : A → Bool) (x : A) (xs : List A)
    → length (keep p (x ∷ xs)) ≡ plus (length (keep p xs)) (p x)
length-keep p x xs =
    elim (p x)
      as (λ b.
        length (elim b [ true ↦ x ∷ keep p xs | false ↦ keep p xs ])
        ≡ plus (length (keep p xs)) b) [ true ↦ omega arith | false ↦ refl ]

module _ {Hash Data : Type 0} where
  abbrev has_status : Status → Torrent Hash Data → Bool
  has_status downloading t = is_leeching t && not t.paused
  has_status downloading_queued t = is_leeching t && (t.auto_managed && t.paused)
  has_status error t = t.errc
  has_status finished t = is_complete t && (not t.auto_managed && t.paused)
  has_status paused t = is_leeching t && (not t.auto_managed && t.paused)
  has_status seeding t = is_complete t && not t.paused
  has_status seeding_queued t = is_complete t && (t.auto_managed && t.paused)

  names_status-has_status :
      (s : Status) (t : Torrent Hash Data) → names_status t (status_name s) ≡ has_status s t
  unfolding names_status bytes_eq
  names_status-has_status downloading t = or_false (has_status downloading t)
  names_status-has_status downloading_queued t = or_false (has_status downloading_queued t)
  names_status-has_status error t = or_false (has_status error t)
  names_status-has_status finished t = or_false (has_status finished t)
  names_status-has_status paused t = or_false (has_status paused t)
  names_status-has_status seeding t = or_false (has_status seeding t)
  names_status-has_status seeding_queued t = refl

  is_listed-has_status :
      (s : Status) (t : Torrent Hash Data)
      → t.is_valid ≡ true
      → is_listed none (some (only s)) t ≡ has_status s t
  unfolding is_listed passes
  is_listed-has_status s t v =
      ap₂ (λ b c. b && ((c || false) && true)) v (names_status-has_status s t)
      ∙ and_true (has_status s t || false)
      ∙ or_false (has_status s t)

  count_torrent-counter :
      (s : Status) (t : Torrent Hash Data) (c : Counters)
      → counter s (count_torrent t c) ≡ plus (counter s c) (has_status s t)
  unfolding count_torrent
  count_torrent-counter downloading t c = refl
  count_torrent-counter downloading_queued t c = refl
  count_torrent-counter error t c = refl
  count_torrent-counter finished t c = refl
  count_torrent-counter paused t c = refl
  count_torrent-counter seeding t c = refl
  count_torrent-counter seeding_queued t c = refl

  counter-step :
      (s : Status) (t : Torrent Hash Data) (ts : List (Torrent Hash Data)) (c : Counters)
      → t.is_valid ≡ true
      → counter s (count_torrent t c) + length (keep (is_listed none (some (only s))) ts)
        ≡ counter s c + length (keep (is_listed none (some (only s))) (t ∷ ts))
  counter-step s t ts c v =
      let listed : ℕ = length (keep (is_listed none (some (only s))) ts) in
      ap (λ n. n + listed) (count_torrent-counter s t c)
      ∙ plus-swap (counter s c) listed (has_status s t)
      ∙ ap (λ n. counter s c + n)
          (sym (
            length-keep (is_listed none (some (only s))) t ts
            ∙ ap (plus listed) (is_listed-has_status s t v)))

  count_torrents-keep :
      (s : Status) (ts : List (Torrent Hash Data)) (c : Counters)
      → All (λ t. t.is_valid ≡ true) ts
      → counter s (count_torrents ts c)
        ≡ counter s c + length (keep (is_listed none (some (only s))) ts)
  unfolding count_torrents
  count_torrents-keep s [] c v = omega arith
  count_torrents-keep s (t ∷ ts) c (v, vs) =
      count_torrents-keep s ts (count_torrent t c) vs ∙ counter-step s t ts c v

  -- While all handles are valid, each counter of Count by status is the number of torrents that List
  -- takes with that status as its only filter.
  pub count_torrents-is_listed :
      (s : Status) (ts : List (Torrent Hash Data))
      → All (λ t. t.is_valid ≡ true) ts
      → counter s (count_torrents ts no_counts) ≡ length (keep (is_listed none (some (only s))) ts)
  count_torrents-is_listed s ts v = count_torrents-keep s ts no_counts v ∙ from_zero s
    where
      from_zero :
          (s : Status)
          → counter s no_counts + length (keep (is_listed none (some (only s))) ts)
            ≡ length (keep (is_listed none (some (only s))) ts)
      from_zero downloading = omega arith
      from_zero downloading_queued = omega arith
      from_zero error = omega arith
      from_zero finished = omega arith
      from_zero paused = omega arith
      from_zero seeding = omega arith
      from_zero seeding_queued = omega arith
