-- ===== src/Listing/Paging.antt =====
-- The sorting and paging of `torrents.list` (src/rpc/methods/torrents.cpp).
use porla.Base.{ℕ, ◌+◌, ◌-◌, ◌*◌, ◌/◌, min, List, leb, if◌then◌else◌, length, take, drop}

-- `std::sort` and `std::partial_sort` by an order that is given.
pub record Sorts (A : Type 0) : Type 0 where
  pub sort : List A → List A
  pub partial_sort : ℕ → List A → List A

module _ {A : Type 0} (std : Sorts A) (page page_size : ℕ) where
  abbrev pub page_beg : List A → ℕ
  page_beg torrents = min (page * page_size) (length torrents)

  abbrev pub page_end : List A → ℕ
  page_end torrents = min (page_beg torrents + page_size) (length torrents)

  unfoldable pub sorted : List A → List A
  sorted torrents =
      if leb (length torrents / 2) (page_end torrents)
      then std.sort torrents
      else std.partial_sort (page_end torrents) torrents

  -- The items from `page_beg` to `page_end`.
  unfoldable pub page_items : List A → List A
  unfolding sorted
  page_items torrents =
      take (page_end torrents - page_beg torrents) (drop (page_beg torrents) (sorted torrents))
