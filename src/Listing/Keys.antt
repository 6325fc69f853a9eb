-- ===== src/Listing/Keys.antt =====
-- `Fields::Key`, `Fields::Compare` and `Field::Sortable` (src/fields.cpp and src/fields.hpp). `Number` stands for
-- `double`, which `std::weak_order` orders.
use porla.Base.{
  ℕ, Bool, true, false, ◌||◌, List, [], ◌∷◌, Option, none, some, Bytes, bytes_eq, if◌then◌else◌,
  is_some, to_lower_byte,
}
use porla.Base.Comparison.{
  Order, less, equal, greater, reverse_order, then_by, compare_numbers, compare_bools,
}

pub data SortKey (Number : Type 0) : Type 0 where
  empty : SortKey Number
  number : Number → SortKey Number
  text : Bytes → SortKey Number
  boolean : Bool → SortKey Number

-- `FoldAscii`.
abbrev pub fold_ascii : ℕ → ℕ
fold_ascii = to_lower_byte

-- `std::lexicographical_compare_three_way`, by the images of the bytes.
unfoldable pub lexicographical : (ℕ → ℕ) → Bytes → Bytes → Order
lexicographical f [] [] = equal
lexicographical f [] (y ∷ t) = less
lexicographical f (x ∷ s) [] = greater
lexicographical f (x ∷ s) (y ∷ t) = then_by (compare_numbers (f x) (f y)) (lexicographical f s t)

-- `CompareText`.
unfoldable pub compare_text : Bytes → Bytes → Order
compare_text s t = then_by (lexicographical fold_ascii s t) (lexicographical (λ c. c) s t)

-- A field's getters; those of other kinds than the field's are null pointers.
pub record Column (Number Row : Type 0) : Type 0 where
  pub name : Bytes
  pub number : Option (Row → Option Number)
  pub text : Option (Row → Option Bytes)
  pub boolean : Option (Row → Option Bool)

abbrev pub key_of : {Number A : Type 0} → (A → SortKey Number) → Option A → SortKey Number
key_of make none = SortKey.empty
key_of make (some a) = make a

module _ {Number Row : Type 0} where
  unfoldable pub is_sortable : Column Number Row → Bool
  is_sortable f = is_some f.number || (is_some f.text || is_some f.boolean)

  abbrev pub boolean_key : Option (Row → Option Bool) → Row → SortKey Number
  boolean_key none row = SortKey.empty
  boolean_key (some get) row = key_of SortKey.boolean (get row)

  abbrev pub text_key :
      Option (Row → Option Bytes) → Option (Row → Option Bool) → Row → SortKey Number
  text_key none b row = boolean_key b row
  text_key (some get) b row = key_of SortKey.text (get row)

  abbrev pub number_key :
      Option (Row → Option Number)
      → Option (Row → Option Bytes)
      → Option (Row → Option Bool)
      → Row
      → SortKey Number
  number_key none t b row = text_key t b row
  number_key (some get) t b row = key_of SortKey.number (get row)

  -- `Key`.
  unfoldable pub key : Column Number Row → Row → SortKey Number
  key f row = number_key f.number f.text f.boolean row

  -- `Find`.
  unfoldable pub find_column : Bytes → List (Column Number Row) → Option (Column Number Row)
  find_column name [] = none
  find_column name (f ∷ fields) =
      let rest = find_column name fields in if bytes_eq f.name name then some f else rest

module _ {Number : Type 0} (weak_order : Number → Number → Order) where
  abbrev pub is_empty_key : SortKey Number → Bool
  is_empty_key SortKey.empty = true
  is_empty_key _ = false

  -- The visit of two keys, of which neither is empty.
  unfoldable pub compare_values : SortKey Number → SortKey Number → Order
  compare_values (SortKey.number a) (SortKey.number b) = weak_order a b
  compare_values (SortKey.text a) (SortKey.text b) = compare_text a b
  compare_values (SortKey.boolean a) (SortKey.boolean b) = compare_bools a b
  compare_values _ _ = equal

  -- `Compare`.
  unfoldable pub compare_keys : SortKey Number → SortKey Number → Bool → Order
  compare_keys lhs rhs ascending =
      if is_empty_key lhs || is_empty_key rhs
      then compare_bools (is_empty_key lhs) (is_empty_key rhs)
      else if ascending
      then compare_values lhs rhs
      else reverse_order (compare_values lhs rhs)
