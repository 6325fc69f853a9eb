-- ===== src/Preparing/Settings.antt =====
-- Where the settings of a torrent that is added come from (src/torrents.cpp).
use porla.Base.{
  ℕ, ◌==◌, ==_iff, ◌≡◌, refl, sym, ap, ◌∙◌, Bool, true, false, not, ◌&&◌, ◌||◌, Bool-cases, inl,
  inr, List, [], ◌∷◌, Option, none, some, if◌then◌else◌, if_cases, is_empty, Bytes, codes, arith,
}
use porla.Preparing.{
  Flags, Storage, allocate, sparse, Preset, Params, set_if, is_mode, set_storage, set_flags,
  set_category, set_tags, apply_preset, apply_default, apply_chosen,
}

-- The first of some choices that is made, or else what there was.
abbrev pub first_of : {A : Type 0} → List (Option A) → A → A
first_of [] a = a
first_of (none ∷ os) a = first_of os a
first_of (some b ∷ os) a = b

abbrev pub choice : {A : Type 0} → (Preset → Option A) → Option Preset → Option A
choice f none = none
choice f (some r) = f r

-- The choices that a preset makes for the settings that are no options.
abbrev pub storage_of : Preset → Option Storage
storage_of r =
    if is_mode (codes "sparse") r.storage_mode
    then some sparse
    else if is_mode (codes "allocate") r.storage_mode
    then some allocate
    else none

abbrev pub bit_in : Option Flags → Option Flags → ℕ → Option Bool
bit_in (some flags) (some mask) i = if mask i then some (flags i) else none
bit_in _ _ i = none

abbrev pub category_of : Option Bytes → Option (Option Bytes)
category_of none = none
category_of (some c) = some (some c)

abbrev pub tags_of : List Bytes → Option (List Bytes)
tags_of tags = if is_empty tags then none else some tags

-- Each setting is chosen by the preset that was asked for, or else by the default one, or else is as it was given.
pub record Follows (preset default : Option Preset) (p q : Params) : Type 0 where
  pub download_limit :
      q.download_limit
      ≡ first_of
          (choice (λ r. r.download_limit) preset ∷ choice (λ r. r.download_limit) default ∷ [])
          p.download_limit
  pub max_connections :
      q.max_connections
      ≡ first_of
          (choice (λ r. r.max_connections) preset ∷ choice (λ r. r.max_connections) default ∷ [])
          p.max_connections
  pub max_uploads :
      q.max_uploads
      ≡ first_of
          (choice (λ r. r.max_uploads) preset ∷ choice (λ r. r.max_uploads) default ∷ [])
          p.max_uploads
  pub upload_limit :
      q.upload_limit
      ≡ first_of
          (choice (λ r. r.upload_limit) preset ∷ choice (λ r. r.upload_limit) default ∷ [])
          p.upload_limit
  pub save_path :
      q.save_path
      ≡ first_of
          (choice (λ r. r.save_path) preset ∷ choice (λ r. r.save_path) default ∷ [])
          p.save_path
  pub storage_mode :
      q.storage_mode
      ≡ first_of (choice storage_of preset ∷ choice storage_of default ∷ []) p.storage_mode
  pub flags :
      (i : ℕ)
      → q.flags i
        ≡ first_of
            (choice (λ r. bit_in r.flags r.flags_mask i) preset
              ∷ choice (λ r. bit_in r.flags r.flags_mask i) default
              ∷ [])
            (p.flags i)
  pub category :
      q.category
      ≡ first_of
          (choice (λ r. category_of r.category) preset
            ∷ choice (λ r. category_of r.category) default
            ∷ [])
          p.category
  pub tags :
      q.tags
      ≡ first_of
          (choice (λ r. tags_of r.tags) preset ∷ choice (λ r. tags_of r.tags) default ∷ [])
          p.tags

-- A preset with the id of the default one is the default one.
abbrev pub IsSame : Option Preset → Option Preset → Type 0
IsSame (some r) (some d) = r.id ≡ d.id → r ≡ d
IsSame _ _ = Unit

module _ {A : Type 0} (get : Params → A) (f : Preset → Option A)
    (sets : (r : Preset) (p : Params) → get (apply_preset r p) ≡ set_if (f r) (get p)) where
  two : (x y : Option A) (a : A) → set_if x (set_if y a) ≡ first_of (x ∷ y ∷ []) a
  two none none a = refl
  two none (some c) a = refl
  two (some b) y a = refl

  one : (x : Option A) (a : A) → set_if x a ≡ first_of (x ∷ x ∷ []) a
  one none a = refl
  one (some b) a = refl

  last : (x : Option A) (a : A) → set_if x a ≡ first_of (none ∷ x ∷ []) a
  last none a = refl
  last (some b) a = refl

  only : (x : Option A) (a : A) → set_if x a ≡ first_of (x ∷ none ∷ []) a
  only none a = refl
  only (some b) a = refl

  settled :
      (preset default : Option Preset) (p : Params)
      → IsSame preset default
      → get (apply_chosen preset default (apply_default default p))
        ≡ first_of (choice f preset ∷ choice f default ∷ []) (get p)
  unfolding apply_chosen
  settled none none p s = refl
  settled none (some d) p s = sets d p ∙ last (f d) (get p)
  settled (some r) none p s = sets r p ∙ only (f r) (get p)
  settled (some r) (some d) p s =
      if_cases (λ q. get q ≡ first_of (f r ∷ f d ∷ []) (get p)) (r.id == d.id)
        (λ e.
          sets d p
          ∙ one (f d) (get p)
          ∙ ap (λ t. first_of (f t ∷ f d ∷ []) (get p)) (sym (s ((==_iff r.id d.id).0 e))))
        (λ e. sets r (apply_preset d p) ∙ ap (set_if (f r)) (sets d p) ∙ two (f r) (f d) (get p))

set_storage-set_if :
    (r : Preset) (s : Storage) → set_storage r.storage_mode s ≡ set_if (storage_of r) s
set_storage-set_if r s = elim (Bool-cases (is_mode (codes "sparse") r.storage_mode)) [
  | inl e ↦ rw e refl
  | inr e ↦ elim (Bool-cases (is_mode (codes "allocate") r.storage_mode)) [
    | inl f ↦ rw (e, f) refl
    | inr f ↦ rw (e, f) refl
  ]
]

set_flags-set_if :
    (flags mask : Option Flags) (f : Flags) (i : ℕ)
    → set_flags flags mask f i ≡ set_if (bit_in flags mask i) (f i)
set_flags-set_if none mask f i = refl
set_flags-set_if (some flags) none f i = refl
set_flags-set_if (some flags) (some mask) f i = bits (mask i) (flags i) (f i)
  where
    bits : (m b o : Bool) → ((o && not m) || (b && m)) ≡ set_if (if m then some b else none) o
    bits true b true = ground arith
    bits true b false = ground arith
    bits false b true = ground arith
    bits false b false = ground arith

set_category-set_if : (b c : Option Bytes) → set_category b c ≡ set_if (category_of b) c
set_category-set_if none c = refl
set_category-set_if (some b) c = refl

set_tags-set_if : (tags old : List Bytes) → set_tags tags old ≡ set_if (tags_of tags) old
set_tags-set_if tags old =
    if_cases (λ t. t ≡ set_if (tags_of tags) old) (is_empty tags) (λ e. rw e refl) (λ e. rw e refl)

pub settings-Follows :
    (preset default : Option Preset) (p : Params)
    → IsSame preset default
    → Follows preset default p (apply_chosen preset default (apply_default default p))
unfolding apply_preset
settings-Follows preset default p s = record {
  download_limit =
      settled (λ q. q.download_limit) (λ r. r.download_limit) (λ r q. refl) preset default p s;
  max_connections =
      settled (λ q. q.max_connections) (λ r. r.max_connections) (λ r q. refl) preset default p s;
  max_uploads = settled (λ q. q.max_uploads) (λ r. r.max_uploads) (λ r q. refl) preset default p s;
  upload_limit =
      settled (λ q. q.upload_limit) (λ r. r.upload_limit) (λ r q. refl) preset default p s;
  save_path = settled (λ q. q.save_path) (λ r. r.save_path) (λ r q. refl) preset default p s;
  storage_mode =
      settled (λ q. q.storage_mode) storage_of (λ r q. set_storage-set_if r q.storage_mode) preset
        default p s;
  flags = λ i.
      settled (λ q. q.flags i) (λ r. bit_in r.flags r.flags_mask i)
        (λ r q. set_flags-set_if r.flags r.flags_mask q.flags i) preset default p s;
  category =
      settled (λ q. q.category) (λ r. category_of r.category)
        (λ r q. set_category-set_if r.category q.category) preset default p s;
  tags =
      settled (λ q. q.tags) (λ r. tags_of r.tags) (λ r q. set_tags-set_if r.tags q.tags) preset
        default p s;
}
