-- ===== src/Listing/Status.antt =====
-- The filters of `torrents.list` and the counters of `torrents.count` (src/rpc/methods/torrents.cpp).
use porla.Base.{
  ℕ, ◌+◌, Bool, true, false, not, ◌&&◌, ◌||◌, List, [], ◌∷◌, Option, none, some, Bytes, codes,
  bytes_eq, if◌then◌else◌, any_of, all_of, is_empty,
}
use porla.Base.Integers.{ℤ}
use porla.Listing.{
  State, checking_files, downloading_metadata, downloading, finished, seeding, checking_resume_data,
  ClientData, Torrent,
}

abbrev pub same_state : State → State → Bool
same_state checking_files checking_files = true
same_state downloading_metadata downloading_metadata = true
same_state downloading downloading = true
same_state finished finished = true
same_state seeding seeding = true
same_state checking_resume_data checking_resume_data = true
same_state _ _ = false

-- The members of a request's filters that `List` reads.
pub record Filters : Type 0 where
  pub query : Option Bytes
  pub session_id : Option ℤ
  pub category : Option Bytes
  pub save_path : Option Bytes
  pub state : Option (List Bytes)
  pub status : Option (List Bytes)
  pub tags : Option (List Bytes)

-- What a member asks for, if it is there.
abbrev pub asks {ℓ} : {A : Type ℓ} → Option A → (A → Bool) → Bool
asks none test = true
asks (some a) test = test a

unfoldable pub names_state : State → Bytes → Bool
names_state state name =
    (bytes_eq name (codes "checking_files") && same_state state checking_files)
    || ((bytes_eq name (codes "checking_resume_data") && same_state state checking_resume_data)
        || ((bytes_eq name (codes "downloading_metadata") && same_state state downloading_metadata)
            || ((bytes_eq name (codes "downloading") && same_state state downloading)
                || ((bytes_eq name (codes "finished") && same_state state finished)
                    || (bytes_eq name (codes "seeding") && same_state state seeding)))))

abbrev pub same_category : Bytes → Option ClientData → Bool
same_category name none = false
same_category name (some data') = elim data'.category [
  | none ↦ false
  | some category ↦ bytes_eq name category
]

abbrev pub has_tag : Option ClientData → Bytes → Bool
has_tag none tag = false
has_tag (some data') tag = any_of (bytes_eq tag) data'.tags

-- The counters of `CountRes`; its maps are functions, 0 where there is no key.
pub record Counters : Type 0 where
  pub downloading : ℕ
  pub downloading_queued : ℕ
  pub error : ℕ
  pub finished : ℕ
  pub paused : ℕ
  pub seeding : ℕ
  pub seeding_queued : ℕ
  pub categories : Bytes → ℕ
  pub tags : Bytes → ℕ
  pub trackers : Bytes → ℕ

abbrev pub no_counts : Counters
no_counts = record {
  downloading = 0;
  downloading_queued = 0;
  error = 0;
  finished = 0;
  paused = 0;
  seeding = 0;
  seeding_queued = 0;
  categories = λ name. 0;
  tags = λ tag. 0;
  trackers = λ url. 0;
}

abbrev pub plus : ℕ → Bool → ℕ
plus n b = if b then n + 1 else n

-- `m[key]++`.
unfoldable pub bump : Bytes → (Bytes → ℕ) → Bytes → ℕ
bump key m x = if bytes_eq key x then m x + 1 else m x

unfoldable pub count_category : Option Bytes → (Bytes → ℕ) → Bytes → ℕ
count_category none m = m
count_category (some name) m = if is_empty name then m else bump name m

unfoldable pub count_tags : List Bytes → (Bytes → ℕ) → Bytes → ℕ
count_tags [] m = m
count_tags (tag ∷ tags) m = count_tags tags (if is_empty tag then m else bump tag m)

abbrev pub categories_with : Option ClientData → (Bytes → ℕ) → Bytes → ℕ
categories_with none m = m
categories_with (some data') m = count_category data'.category m

abbrev pub tags_with : Option ClientData → (Bytes → ℕ) → Bytes → ℕ
tags_with none m = m
tags_with (some data') m = count_tags data'.tags m

module _ {Hash Data : Type 0} where
  abbrev pub is_leeching : Torrent Hash Data → Bool
  is_leeching t = same_state t.state downloading || same_state t.state downloading_metadata

  abbrev pub is_complete : Torrent Hash Data → Bool
  is_complete t = same_state t.state finished || same_state t.state seeding

  -- A status that a torrent is asked for.
  unfoldable pub names_status : Torrent Hash Data → Bytes → Bool
  names_status t name =
      (bytes_eq name (codes "downloading") && (is_leeching t && not t.paused))
      || ((bytes_eq name (codes "downloading_queued")
            && (is_leeching t && (t.auto_managed && t.paused)))
          || ((bytes_eq name (codes "error") && t.errc)
              || ((bytes_eq name (codes "finished")
                    && (is_complete t && (not t.auto_managed && t.paused)))
                  || ((bytes_eq name (codes "paused")
                        && (is_leeching t && (not t.auto_managed && t.paused)))
                      || ((bytes_eq name (codes "seeding") && (is_complete t && not t.paused))
                          || (bytes_eq name (codes "seeding_queued")
                              && (is_complete t && (t.auto_managed && t.paused))))))))

  -- The filters, with the compiled query.
  unfoldable pub passes : Option (Torrent Hash Data → Bool) → Filters → Torrent Hash Data → Bool
  passes query filters t =
      asks query (λ filter. filter t)
      && (asks filters.category (λ name. same_category name t.client_data)
          && (asks filters.save_path (λ path. bytes_eq path t.save_path)
              && (asks filters.state (any_of (names_state t.state))
                  && (asks filters.status (any_of (names_status t))
                      && asks filters.tags (all_of (has_tag t.client_data))))))

  -- Whether the loop of `List` takes a torrent.
  unfoldable pub is_listed :
      Option (Torrent Hash Data → Bool) → Option Filters → Torrent Hash Data → Bool
  is_listed query filters t = t.is_valid && asks filters (λ f. passes query f t)

  -- The loop of `Count`, for one torrent.
  unfoldable pub count_torrent : Torrent Hash Data → Counters → Counters
  count_torrent t c = record {
    downloading = plus c.downloading (is_leeching t && not t.paused);
    downloading_queued = plus c.downloading_queued (is_leeching t && (t.auto_managed && t.paused));
    error = plus c.error t.errc;
    finished = plus c.finished (is_complete t && (not t.auto_managed && t.paused));
    paused = plus c.paused (is_leeching t && (not t.auto_managed && t.paused));
    seeding = plus c.seeding (is_complete t && not t.paused);
    seeding_queued = plus c.seeding_queued (is_complete t && (t.auto_managed && t.paused));
    categories = categories_with t.client_data c.categories;
    tags = tags_with t.client_data c.tags;
    trackers = bump t.current_tracker c.trackers;
  }

  unfoldable pub count_torrents : List (Torrent Hash Data) → Counters → Counters
  count_torrents [] c = c
  count_torrents (t ∷ ts) c = count_torrents ts (count_torrent t c)
