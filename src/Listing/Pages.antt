-- ===== src/Listing/Pages.antt =====
-- The torrents in a response of `torrents.list` (src/rpc/methods/torrents.cpp).
use porla.Base.{ℕ, ◌*◌, ◌≡◌, Bool, true, false, List, [], ◌∷◌, Option, Bytes, take, drop, keep}
use mathlib.Core.List.{Mem, mem-cons, Mem-prop}
use mathlib.Core.Logic.Or
use porla.Base.Comparison.{Order, less, equal, greater, then_by, IsComparison}
use porla.Base.Preorders.{then_by-IsComparison, pulled-IsComparison}
use porla.Base.Sorting.{insertion_sort, IsSort, IsPartialSort}
use porla.Listing.{Torrent}
use porla.Listing.Keys.{Column, key, compare_keys}
use porla.Listing.Ordering.{compare_keys-IsComparison}
use porla.Listing.Status.{is_listed}
use porla.Listing.Paging.{Sorts}
use porla.Listing.Slices.{page_items_lem}
use porla.Listing.Response.{ListReq, entry_order, is_ascending, respond}

module _ {A : Type 0} (p : A → Bool) where
  mem-keep : {a : A} (s : List A) → Mem a (keep p s) → Mem a s
  mem-keep [] m = m
  mem-keep {a} (x ∷ s) m = by_test (p x) m (λ k. mem-keep s k)
    where
      by_test :
          (b : Bool)
          → Mem a (elim b [ true ↦ x ∷ keep p s | false ↦ keep p s ])
          → (Mem a (keep p s) → Mem a s)
          → Mem a (x ∷ s)
      by_test true m rest =
          Or.elim Mem-prop (mem-cons.0 m) (λ e. mem-cons.1 (Or.inl e))
            (λ k. mem-cons.1 (Or.inr (rest k)))
      by_test false m rest = mem-cons.1 (Or.inr (rest m))

then_by-equal : (o p : Order) → then_by o p ≡ equal → p ≡ equal
then_by-equal less p e = absurd cc
then_by-equal equal p e = e
then_by-equal greater p e = absurd cc

module _ {Number Hash Data : Type 0} (weak_order : Number → Number → Order)
    (hash_order : Hash → Hash → Order) (fields : List (Column Number (Torrent Hash Data)))
    (parse : Bytes → Option (Torrent Hash Data → Bool))
    (std : (Torrent Hash Data → Torrent Hash Data → Order) → Sorts (Torrent Hash Data)) where
  entry_order-IsComparison :
      IsComparison weak_order
      → IsComparison hash_order
      → (f : Column Number (Torrent Hash Data)) (ascending : Bool)
      → IsComparison (entry_order weak_order hash_order fields parse std f ascending)
  unfolding entry_order
  entry_order-IsComparison l m f ascending =
      then_by-IsComparison (λ a b. compare_keys weak_order (key f a) (key f b) ascending)
        (λ a b. hash_order a.info_hashes b.info_hashes)
        (compare_keys-IsComparison Number (Torrent Hash Data) weak_order l f ascending)
        (pulled-IsComparison (λ t. t.info_hashes) hash_order m)

  -- What `<algorithm>` promises of the two sorts, for every total preorder.
  pub record AreSorts : Type 0 where
    pub full :
        (cmp : Torrent Hash Data → Torrent Hash Data → Order)
        → IsComparison cmp
        → IsSort cmp (std cmp).sort
    pub partial :
        (cmp : Torrent Hash Data → Torrent Hash Data → Order)
        → IsComparison cmp
        → IsPartialSort cmp (std cmp).partial_sort

  -- The page of a response has the places that were asked for in the list of all the torrents that pass the
  -- filters, sorted by the field in the direction, and by the hashes where that finds no difference;
  -- whether the list was sorted as a whole or in part, if no two torrents of the session have one hash.
  pub respond-insertion_sort :
      IsComparison weak_order
      → IsComparison hash_order
      → AreSorts
      → (req : ListReq) (page page_size : ℕ) (f : Column Number (Torrent Hash Data))
        (query : Option (Torrent Hash Data → Bool)) (torrents : List (Torrent Hash Data))
      → ((a b : Torrent Hash Data)
          → Mem a torrents
          → Mem b torrents
          → hash_order a.info_hashes b.info_hashes ≡ equal
          → a ≡ b)
      → (respond weak_order hash_order fields parse std req page page_size f query
          torrents).torrents
        ≡ take page_size (
            drop (page * page_size) (
              insertion_sort
                (entry_order weak_order hash_order fields parse std f (is_ascending req))
                (keep (is_listed query req.filters) torrents)))
  unfolding respond entry_order
  respond-insertion_sort l m law req page page_size f query torrents distinct =
      let cmp = entry_order weak_order hash_order fields parse std f (is_ascending req) in
      let c = entry_order-IsComparison l m f (is_ascending req) in
      page_items_lem cmp c (std cmp) (law.full cmp c) (law.partial cmp c) page page_size
        (keep (is_listed query req.filters) torrents)
        (λ a b i j e.
          distinct a b (mem-keep (is_listed query req.filters) torrents i)
            (mem-keep (is_listed query req.filters) torrents j)
            (then_by-equal _ (hash_order a.info_hashes b.info_hashes) e))
