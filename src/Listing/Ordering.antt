-- ===== src/Listing/Ordering.antt =====
-- The order in which `torrents.list` of src/rpc/methods/torrents.cpp sorts is a total preorder.
use porla.Base.{
  ℕ, ◌≡◌, refl, sym, Bool, true, false, [], ◌∷◌, Option, none, some, Bytes, if◌then◌else◌,
}
use porla.Base.Comparison.{
  Order, less, greater, reverse_order, Composes, IsComparison, reverse_order-then_by,
  then_by-Composes, compare_numbers, compare_bools,
}
use porla.Base.Preorders.{
  compare_numbers-IsComparison, compare_bools-IsComparison, IsComparison-eq, reversed-IsComparison,
  then_by-IsComparison, pulled-IsComparison, compare_options, compare_options-IsComparison,
}
use porla.Listing.Keys.{
  SortKey, fold_ascii, lexicographical, compare_text, Column, key, key_of, number_key,
  compare_values, compare_keys,
}

byte-IsComparison : (f : ℕ → ℕ) → IsComparison (λ x y. compare_numbers (f x) (f y))
byte-IsComparison f = pulled-IsComparison f compare_numbers compare_numbers-IsComparison

lexicographical-flip :
    (f : ℕ → ℕ) (s t : Bytes) → lexicographical f t s ≡ reverse_order (lexicographical f s t)
unfolding lexicographical
lexicographical-flip f [] [] = refl
lexicographical-flip f [] (y ∷ t) = refl
lexicographical-flip f (x ∷ s) [] = refl
lexicographical-flip f (x ∷ s) (y ∷ t) =
    rw ((byte-IsComparison f).flip x y, lexicographical-flip f s t)
      (sym (reverse_order-then_by (compare_numbers (f x) (f y)) (lexicographical f s t)))

lexicographical-Composes :
    (f : ℕ → ℕ) (s t u : Bytes)
    → Composes (lexicographical f s t) (lexicographical f t u) (lexicographical f s u)
unfolding lexicographical
lexicographical-Composes f [] [] u = record { trans = λ h k. k; left = λ h. refl; right = λ h. h }
lexicographical-Composes f [] (y ∷ t) [] = record {
  trans = λ h k. cc;
  left = λ h. cc;
  right = λ h. cc;
}
lexicographical-Composes f [] (y ∷ t) (z ∷ u) = record {
  trans = λ h k. refl;
  left = λ h. cc;
  right = λ h. refl;
}
lexicographical-Composes f (x ∷ s) [] [] = record {
  trans = λ h k. cc;
  left = λ h. cc;
  right = λ h. refl;
}
lexicographical-Composes f (x ∷ s) [] (z ∷ u) = record {
  trans = λ h k. cc;
  left = λ h. cc;
  right = λ h. cc;
}
lexicographical-Composes f (x ∷ s) (y ∷ t) [] = record {
  trans = λ h k. cc;
  left = λ h. refl;
  right = λ h. cc;
}
lexicographical-Composes f (x ∷ s) (y ∷ t) (z ∷ u) =
    then_by-Composes (compare_numbers (f x) (f y)) (compare_numbers (f y) (f z))
      (compare_numbers (f x) (f z)) (lexicographical f s t) (lexicographical f t u)
      (lexicographical f s u) ((byte-IsComparison f).composes x y z)
      (lexicographical-Composes f s t u)

lexicographical-IsComparison : (f : ℕ → ℕ) → IsComparison (lexicographical f)
lexicographical-IsComparison f = record {
  flip = lexicographical-flip f;
  composes = lexicographical-Composes f;
}

pub compare_text-IsComparison : IsComparison compare_text
unfolding compare_text
compare_text-IsComparison =
    then_by-IsComparison (lexicographical fold_ascii) (lexicographical (λ c. c))
      (lexicographical-IsComparison fold_ascii) (lexicographical-IsComparison (λ c. c))

module _ (Number Row : Type 0) (weak_order : Number → Number → Order) where
  directed : {A : Type 0} → (A → A → Order) → Bool → A → A → Order
  directed c ascending x y = if ascending then c x y else reverse_order (c x y)

  directed-IsComparison :
      {A : Type 0} (c : A → A → Order) (ascending : Bool)
      → IsComparison c
      → IsComparison (directed c ascending)
  unfolding directed
  directed-IsComparison c true l = l
  directed-IsComparison c false l = reversed-IsComparison c l

  -- Keys of one type are compared as their values are, in the direction, with the empty ones last.
  key_of-options :
      {A : Type 0} (make : A → SortKey Number) (c : A → A → Order) (ascending : Bool)
      → ((x y : A) → compare_keys weak_order (make x) (make y) ascending ≡ directed c ascending x y)
      → ((x : A) → compare_keys weak_order (make x) SortKey.empty ascending ≡ less)
      → ((x : A) → compare_keys weak_order SortKey.empty (make x) ascending ≡ greater)
      → (x y : Option A)
      → compare_keys weak_order (key_of make x) (key_of make y) ascending
        ≡ compare_options (directed c ascending) x y
  key_of-options make c ascending e f g none none = unfold compare_keys in refl
  key_of-options make c ascending e f g none (some y) = g y
  key_of-options make c ascending e f g (some x) none = f x
  key_of-options make c ascending e f g (some x) (some y) = e x y

  key_of-IsComparison :
      {A : Type 0} (make : A → SortKey Number) (c : A → A → Order) (ascending : Bool)
      → IsComparison c
      → ((x y : A) → compare_keys weak_order (make x) (make y) ascending ≡ directed c ascending x y)
      → ((x : A) → compare_keys weak_order (make x) SortKey.empty ascending ≡ less)
      → ((x : A) → compare_keys weak_order SortKey.empty (make x) ascending ≡ greater)
      → (get : Row → Option A)
      → IsComparison
          (λ a b. compare_keys weak_order (key_of make (get a)) (key_of make (get b)) ascending)
  key_of-IsComparison make c ascending l e f g get =
      pulled-IsComparison get
        (λ x y. compare_keys weak_order (key_of make x) (key_of make y) ascending)
        (IsComparison-eq _ (compare_options (directed c ascending))
          (key_of-options make c ascending e f g)
          (compare_options-IsComparison (directed c ascending)
            (directed-IsComparison c ascending l)))

  getters-IsComparison :
      IsComparison weak_order
      → (ascending : Bool) (n : Option (Row → Option Number)) (t : Option (Row → Option Bytes))
        (b : Option (Row → Option Bool))
      → IsComparison
          (λ x y. compare_keys weak_order (number_key n t b x) (number_key n t b y) ascending)
  unfolding compare_keys compare_values directed
  getters-IsComparison l ascending (some get) t b =
      key_of-IsComparison SortKey.number weak_order ascending l (λ x y. refl) (λ x. refl)
        (λ x. refl) get
  getters-IsComparison l ascending none (some get) b =
      key_of-IsComparison SortKey.text compare_text ascending compare_text-IsComparison
        (λ x y. refl) (λ x. refl) (λ x. refl) get
  getters-IsComparison l ascending none none (some get) =
      key_of-IsComparison SortKey.boolean compare_bools ascending compare_bools-IsComparison
        (λ x y. refl) (λ x. refl) (λ x. refl) get
  getters-IsComparison l ascending none none none = record {
    flip = λ x y. refl;
    composes = λ x y z. record { trans = λ h k. h; left = λ h. refl; right = λ h. refl };
  }

  -- By the keys of any field, in either direction, rows are in a total preorder.
  pub compare_keys-IsComparison :
      IsComparison weak_order
      → (f : Column Number Row) (ascending : Bool)
      → IsComparison (λ a b. compare_keys weak_order (key f a) (key f b) ascending)
  unfolding key
  compare_keys-IsComparison l f ascending =
      getters-IsComparison l ascending f.number f.text f.boolean
