-- ===== src/Listing/Response.antt =====
-- `List` and `Count` (src/rpc/methods/torrents.cpp) and `ResolveSession` (src/rpc/methods/resolve.cpp). A number is
-- the code of the `Error` that is thrown.
use porla.Base.{
  ℕ, Bool, ◌&&◌, ◌⊎◌, inl, inr, List, Option, none, some, Bytes, codes, bytes_eq, if◌then◌else◌,
  leb, length, keep,
}
use porla.Base.Integers.{ℤ, pos, negsuc, neg}
use porla.Base.Comparison.{Order, then_by}
use porla.Listing.{Torrent}
use porla.Listing.Keys.{Column, is_sortable, key, find_column, compare_keys}
use porla.Listing.Status.{Filters, Counters, no_counts, count_torrents, is_listed}
use porla.Listing.Paging.{Sorts, page_items}

-- `Sessions::Resolve`, for a session that is named or for the default one, and `Sessions::Get`; a
-- loaded session is the list of its current torrents, `Torrents`, whose number is `Count`.
pub record Registry (Hash Data : Type 0) : Type 0 where
  pub resolve : Option ℤ → Option ℤ
  pub get : ℤ → Option (List (Torrent Hash Data))

pub record ListReq : Type 0 where
  pub filters : Option Filters
  pub page : Option ℤ
  pub page_size : Option ℤ
  pub order_by : Option Bytes
  pub order_by_dir : Option Bytes

pub record ListRes (Hash Data : Type 0) : Type 0 where
  pub order_by : Bytes
  pub order_by_dir : Bytes
  pub page : ℤ
  pub page_size : ℤ
  pub torrents : List (Torrent Hash Data)
  pub torrents_total : ℕ
  pub torrents_total_unfiltered : ℕ

abbrev pub value_or {ℓ} : {A : Type ℓ} → A → Option A → A
value_or d none = d
value_or d (some a) = a

infixl 5 ◌>>=◌
abbrev pub ◌>>=◌ {ℓ κ} : {A : Type ℓ} {B : Type κ} → ℤ ⊎ A → (A → ℤ ⊎ B) → ℤ ⊎ B
inl code >>= f = inl code
inr a >>= f = f a

module _ {Hash Data : Type 0} where
  unfoldable pub loaded : Option (List (Torrent Hash Data)) → ℤ ⊎ List (Torrent Hash Data)
  loaded none = inl (neg 2)
  loaded (some torrents) = inr torrents

  unfoldable pub resolved : Registry Hash Data → Option ℤ → ℤ ⊎ List (Torrent Hash Data)
  resolved sessions none = inl (neg 1)
  resolved sessions (some id) = loaded (sessions.get id)

  -- `ResolveSession`.
  unfoldable pub resolve_session : Registry Hash Data → Option ℤ → ℤ ⊎ List (Torrent Hash Data)
  resolve_session sessions id = resolved sessions (sessions.resolve id)

  -- `Count`, with the number of torrents.
  unfoldable pub count : Registry Hash Data → Option ℤ → ℤ ⊎ (ℕ × Counters)
  count sessions id = resolve_session sessions id >>= λ torrents.
      inr (length torrents, count_torrents torrents no_counts)

-- The pages that can be asked for.
unfoldable pub check_page : ℤ → ℤ ⊎ ℕ
check_page (pos n) = inr n
check_page (negsuc n) = inl (neg 1)

unfoldable pub check_page_size : ℤ → ℤ ⊎ ℕ
check_page_size (negsuc n) = inl (neg 1)
check_page_size (pos n) = if leb 1 n && leb n 1000 then inr n else inl (neg 1)

module _ {Number Row : Type 0} where
  unfoldable pub check_column : Option (Column Number Row) → ℤ ⊎ Column Number Row
  check_column none = inl (neg 2)
  check_column (some f) = if is_sortable f then inr f else inl (neg 2)

unfoldable pub parsed : {Row : Type 0} → Option (Row → Bool) → ℤ ⊎ Option (Row → Bool)
parsed none = inl (neg 1000)
parsed (some filter) = inr (some filter)

module _ {Row : Type 0} (parse : Bytes → Option (Row → Bool)) where
  -- The compiled query of the filters, if they have one.
  unfoldable pub check_query : Option Filters → ℤ ⊎ Option (Row → Bool)
  check_query none = inr none
  check_query (some filters) = elim filters.query [
    | none ↦ inr none
    | some query ↦ parsed (parse query)
  ]

abbrev pub filtered_session : Option Filters → Option ℤ
filtered_session none = none
filtered_session (some filters) = filters.session_id

abbrev pub is_ascending : ListReq → Bool
is_ascending req = bytes_eq (value_or (codes "asc") req.order_by_dir) (codes "asc")

module _ {Number Hash Data : Type 0} (weak_order : Number → Number → Order)
    (hash_order : Hash → Hash → Order) (fields : List (Column Number (Torrent Hash Data)))
    (parse : Bytes → Option (Torrent Hash Data → Bool))
    (std : (Torrent Hash Data → Torrent Hash Data → Order) → Sorts (Torrent Hash Data)) where
  -- `cmp`, of which `List` asks whether it is less.
  unfoldable pub entry_order :
      Column Number (Torrent Hash Data) → Bool → Torrent Hash Data → Torrent Hash Data → Order
  entry_order f ascending lhs rhs =
      then_by (compare_keys weak_order (key f lhs) (key f rhs) ascending)
        (hash_order lhs.info_hashes rhs.info_hashes)

  -- The response, once nothing can fail any more.
  unfoldable pub respond :
      ListReq
      → ℕ
      → ℕ
      → Column Number (Torrent Hash Data)
      → Option (Torrent Hash Data → Bool)
      → List (Torrent Hash Data)
      → ListRes Hash Data
  unfolding page_items is_listed
  respond req page page_size f query torrents =
      let listed = keep (is_listed query req.filters) torrents in
      record {
        order_by = value_or (codes "queue_position") req.order_by;
        order_by_dir = value_or (codes "asc") req.order_by_dir;
        page = value_or (pos 0) req.page;
        page_size = value_or (pos 50) req.page_size;
        torrents = page_items (std (entry_order f (is_ascending req))) page page_size listed;
        torrents_total = length listed;
        torrents_total_unfiltered = length torrents;
      }

  -- `List`.
  unfoldable pub list : Registry Hash Data → ListReq → ℤ ⊎ ListRes Hash Data
  list sessions req = do
    page ← check_page (value_or (pos 0) req.page)
    page_size ← check_page_size (value_or (pos 50) req.page_size)
    f ← check_column (find_column (value_or (codes "queue_position") req.order_by) fields)
    query ← check_query parse req.filters
    torrents ← resolve_session sessions (filtered_session req.filters)
    inr (respond req page page_size f query torrents)
