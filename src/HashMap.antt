-- ===== src/HashMap.antt =====
-- src/sessions/infohashmap.hpp: a map with keys that have a v1 half, a v2 half or both, and two
-- indexes from a half to the key. A `std::map` is a function to options; the order of its keys, which
-- iterators follow, is left out.
pub mod Halves
pub mod Index
pub mod Lookup
use porla.Base.{
  ℕ, ◌==◌, Bool, true, false, ◌&&◌, List, [], ◌∷◌, Option, none, some, if◌then◌else◌, is_some,
}

-- `lt::info_hash_t`, each hash as a number; a half is absent where it is all zeros.
pub record Key : Type 0 where
  pub v1 : Option ℕ
  pub v2 : Option ℕ

unfoldable pub same_half : Option ℕ → Option ℕ → Bool
same_half none none = true
same_half none (some b) = false
same_half (some a) none = false
same_half (some a) (some b) = a == b

unfoldable pub same_key : Key → Key → Bool
unfolding same_half
same_key a b = same_half a.v1 b.v1 && same_half a.v2 b.v2

abbrev pub Halves : Type 0
Halves = ℕ → Option Key

pub record HashMap (T : Type 0) : Type 0 where
  pub items : Key → Option T
  pub by_v1 : Halves
  pub by_v2 : Halves

unfoldable pub set_half : ℕ → Option Key → Halves → Halves
set_half h value m x = if h == x then value else m x

unfoldable pub add_half : Option ℕ → Key → Halves → Halves
unfolding set_half
add_half none key m = m
add_half (some h) key m = if is_some (m h) then m else set_half h (some key) m

abbrev pub is_key : Option Key → Key → Bool
is_key none key = false
is_key (some k) key = same_key k key

unfoldable pub remove_half : Option ℕ → Key → Halves → Halves
unfolding set_half
remove_half none key m = m
remove_half (some h) key m = if is_key (m h) key then set_half h none m else m

-- `Compatible`.
unfoldable pub agree : Option ℕ → Option ℕ → Bool
agree none b = true
agree (some a) none = true
agree (some a) (some b) = a == b

unfoldable pub compatible : Key → Key → Bool
unfolding agree
compatible a b = agree a.v1 b.v1 && agree a.v2 b.v2

unfoldable pub checked : Key → Option Key → Option Key
checked hash none = none
checked hash (some k) = if compatible hash k then some k else none

unfoldable pub through : Option ℕ → Key → Halves → Option Key
unfolding checked
through none hash m = none
through (some h) hash m = checked hash (m h)

-- The calls that change the map.
pub data Call (T : Type 0) : Type 0 where
  emplaced : Key → T → Call T
  erased : Key → Call T
  rekeyed : Key → Key → Call T

module _ {T : Type 0} where
  unfoldable pub empty : HashMap T
  empty = record { items = λ k. none; by_v1 = λ h. none; by_v2 = λ h. none }

  unfoldable pub set_item : Key → Option T → HashMap T → HashMap T
  set_item key value s = record s { items = λ k. if same_key key k then value else s.items k }

  unfoldable pub add_halves : Key → HashMap T → HashMap T
  unfolding add_half
  add_halves key s = record s {
    by_v1 = add_half key.v1 key s.by_v1;
    by_v2 = add_half key.v2 key s.by_v2;
  }

  unfoldable pub remove_halves : Key → HashMap T → HashMap T
  unfolding remove_half
  remove_halves key s = record s {
    by_v1 = remove_half key.v1 key s.by_v1;
    by_v2 = remove_half key.v2 key s.by_v2;
  }

  -- `try_emplace`; `item` is the item as it is made, and the flag tells whether it was inserted.
  unfoldable pub try_emplace : Key → T → HashMap T → HashMap T × Bool
  unfolding add_halves set_item
  try_emplace key item s =
      if is_some (s.items key)
      then (s, false)
      else (add_halves key (set_item key (some item) s), true)

  -- `erase`, at the iterator to `key`.
  unfoldable pub erase : Key → HashMap T → HashMap T
  unfolding remove_halves set_item
  erase key s = set_item key none (remove_halves key s)

  -- `rekey`, from the node that was taken out; the key of the result, if it is not `end()`.
  unfoldable pub insert_node : Key → T → HashMap T → HashMap T × Option Key
  unfolding add_halves set_item
  insert_node curr item s =
      if is_some (s.items curr)
      then (s, none)
      else (add_halves curr (set_item curr (some item) s), some curr)

  unfoldable pub rekey : Key → Key → HashMap T → HashMap T × Option Key
  unfolding insert_node remove_halves set_item
  rekey prev curr s = elim (s.items prev) [
    | none ↦ (s, none)
    | some item ↦ insert_node curr item (remove_halves prev (set_item prev none s))
  ]

  unfoldable pub key_by_half : Key → HashMap T → Option Key
  unfolding through
  key_by_half hash s = elim (through hash.v1 hash s.by_v1) [
    | some k ↦ some k
    | none ↦ through hash.v2 hash s.by_v2
  ]

  unfoldable pub find_by_half : Key → HashMap T → Option T
  unfolding key_by_half
  find_by_half hash s = elim (key_by_half hash s) [ none ↦ none | some k ↦ s.items k ]

  unfoldable pub call : Call T → HashMap T → HashMap T
  unfolding try_emplace erase rekey
  call (emplaced key item) s = (try_emplace key item s).0
  call (erased key) s = erase key s
  call (rekeyed prev curr) s = (rekey prev curr s).0

  unfoldable pub calls : List (Call T) → HashMap T → HashMap T
  calls [] s = s
  calls (c ∷ cs) s = calls cs (call c s)
