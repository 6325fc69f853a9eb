-- ===== src/Examples/ListingRuns.antt =====
-- `torrents.list` and `torrents.count` of src/rpc/methods/torrents.cpp in a session of two torrents, whose hashes
-- are numbers, with insertion sort as the library's sorts.
use porla.Base.{
  ℕ, ◌*◌, ◌≡◌, refl, sym, ap, ap₂, subst, ◌∙◌, Bool, true, false, List, [], ◌∷◌, Option, none, some,
  Bytes, codes, take, drop, keep, length,
}
use mathlib.Core.List.{Mem, mem-cons, not-mem-nil, Pairwise-append}
use mathlib.Core.HLevel.{¬_prop}
use native.Mathlib.Nat.{ℕ_set}
use mathlib.Core.Logic.Or
use porla.Base.Integers.{pos}
use porla.Base.Comparison.{Order, equal, compare_numbers}
use porla.Base.Preorders.{compare_numbers-IsComparison}
use porla.Base.Sorting.{
  insertion_sort, insertion_sort-Perm, insertion_sort-IsAscending, IsAscending, Before, take-drop,
}
use porla.Listing.{Torrent, downloading}
use porla.Listing.Keys.{Column}
use porla.Listing.Status.{is_listed, count_torrents, no_counts}
use porla.Listing.Paging.{Sorts}
use porla.Listing.Response.{Registry, ListReq, respond, entry_order, is_ascending, list}
use porla.Listing.Counting.{Status, counter, only, count_torrents-is_listed}
use porla.Listing.Refusing.{failure, first_of, refusals, failure-list}
use porla.Listing.Pages.{AreSorts, respond-insertion_sort}

abbrev Item : Type 0
Item = Torrent ℕ ℕ

abbrev item : ℕ → ℕ → Item
item hash size = record {
  is_valid = true;
  info_hashes = hash;
  state = downloading;
  paused = false;
  auto_managed = true;
  errc = false;
  save_path = codes "/srv";
  current_tracker = codes "udp://t";
  client_data = none;
  rest = size;
}

abbrev two_items : List Item
two_items = item 1 30 ∷ item 2 20 ∷ []

abbrev size_column : Column ℕ Item
size_column = record {
  name = codes "size";
  number = some (λ t. some t.rest);
  text = none;
  boolean = none;
}

abbrev sorts : (Item → Item → Order) → Sorts Item
sorts cmp = record { sort = insertion_sort cmp; partial_sort = λ k. insertion_sort cmp }

abbrev parse_all : Bytes → Option (Item → Bool)
parse_all query = some (λ t. true)

abbrev two_sessions : Registry ℕ ℕ
two_sessions = record { resolve = λ id. some (pos 1); get = λ id. some two_items }

abbrev by_size : ListReq
by_size = record {
  filters = none;
  page = none;
  page_size = some (pos 1);
  order_by = some (codes "size");
  order_by_dir = some (codes "desc");
}

prefix :
    (cmp : Item → Item → Order) (k : ℕ) (s : List Item)
    → IsAscending cmp s
    → IsAscending cmp (take k s)
      × IsAscending cmp (drop k s)
      × ((a : Item) → Mem a (take k s) → (b : Item) → Mem b (drop k s) → Before cmp a b)
prefix cmp k s h =
    (Pairwise-append (λ a b. ¬_prop) {l₁ = take k s}).0
      (subst (IsAscending cmp) (sym (take-drop k s)) h)

sorts-AreSorts : AreSorts compare_numbers compare_numbers (size_column ∷ []) parse_all sorts
sorts-AreSorts = record {
  full = λ cmp l. record {
    same = insertion_sort-Perm cmp;
    ascending = insertion_sort-IsAscending cmp l;
  };
  partial = λ cmp l. record {
    same = λ k. insertion_sort-Perm cmp;
    ascending = λ k s. (prefix cmp k (insertion_sort cmp s) (insertion_sort-IsAscending cmp l s)).0;
    least = λ k s. (prefix cmp k (insertion_sort cmp s) (insertion_sort-IsAscending cmp l s)).2;
  };
}

failure-list_example :
    failure
      (list compare_numbers compare_numbers (size_column ∷ []) parse_all sorts two_sessions by_size)
    ≡ first_of (
        refusals compare_numbers compare_numbers
          (size_column ∷ [])
          parse_all
          sorts
          two_sessions
          by_size)
failure-list_example =
    failure-list compare_numbers compare_numbers (size_column ∷ []) parse_all sorts two_sessions
      by_size

count_torrents-is_listed_example :
    counter Status.downloading (count_torrents two_items no_counts)
    ≡ length (keep (is_listed none (some (only Status.downloading))) two_items)
count_torrents-is_listed_example =
    count_torrents-is_listed Status.downloading two_items (refl, (refl, tt))

abbrev is_equal : Order → Bool
is_equal equal = true
is_equal _ = false

Item_set : IsSet Item
Item_set = hlevel ℕ_set

one_of :
    {P : Type 0} (a : Item)
    → IsProp P
    → Mem a two_items
    → (a ≡ item 1 30 → P)
    → (a ≡ item 2 20 → P)
    → P
one_of a h m f g =
    Or.elim h (mem-cons.0 m) f (λ k. Or.elim h (mem-cons.0 k) g (λ n. absurd (not-mem-nil n)))

two_items-distinct :
    (a b : Item)
    → Mem a two_items
    → Mem b two_items
    → compare_numbers a.info_hashes b.info_hashes ≡ equal
    → a ≡ b
two_items-distinct a b m n e =
    one_of a (Item_set a b) m
      (λ p. one_of b (Item_set a b) n (λ q. p ∙ sym q) (λ q. absurd (differ 1 2 (same p q) e refl)))
      (λ p. one_of b (Item_set a b) n (λ q. absurd (differ 2 1 (same p q) e refl)) (λ q. p ∙ sym q))
  where
    same :
        {x y : Item}
        → a ≡ x
        → b ≡ y
        → compare_numbers a.info_hashes b.info_hashes ≡ compare_numbers x.info_hashes y.info_hashes
    same p q = ap₂ (λ x y. compare_numbers x.info_hashes y.info_hashes) p q

    differ :
        (i j : ℕ)
        → compare_numbers a.info_hashes b.info_hashes ≡ compare_numbers i j
        → compare_numbers a.info_hashes b.info_hashes ≡ equal
        → is_equal (compare_numbers i j) ≡ false
        → ⊥
    differ i j p q r = let t : false ≡ true = sym r ∙ ap is_equal (sym p ∙ q) in absurd cc

respond-insertion_sort_example :
    (respond compare_numbers compare_numbers
      (size_column ∷ [])
      parse_all
      sorts
      by_size
      0
      1
      size_column
      none
      two_items).torrents
    ≡ take 1 (
        drop (0 * 1) (
          insertion_sort
            (entry_order compare_numbers compare_numbers
              (size_column ∷ [])
              parse_all
              sorts
              size_column
              (is_ascending by_size))
            (keep (is_listed none none) two_items)))
respond-insertion_sort_example =
    respond-insertion_sort compare_numbers compare_numbers (size_column ∷ []) parse_all sorts
      compare_numbers-IsComparison compare_numbers-IsComparison sorts-AreSorts by_size 0 1
      size_column none two_items two_items-distinct
