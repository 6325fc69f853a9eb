-- ===== src/Listing/Refusing.antt =====
-- The errors of `torrents.list` (src/rpc/methods/torrents.cpp), in their order.
use porla.Base.{
  ◌≡◌, refl, Bool, true, false, not, ◌&&◌, ◌⊎◌, inl, inr, List, [], ◌∷◌, Option, none, some, Bytes,
  codes, if◌then◌else◌, leb, drop, is_some, Bool-cases, Option-cases,
}
use porla.Base.Integers.{ℤ, pos, negsuc, neg}
use porla.Base.Comparison.{Order}
use porla.Listing.{Torrent}
use porla.Listing.Keys.{Column, is_sortable, find_column}
use porla.Listing.Status.{Filters}
use porla.Listing.Paging.{Sorts}
use porla.Listing.Response.{
  Registry, ListReq, value_or, ◌>>=◌, loaded, resolved, resolve_session, check_page,
  check_page_size, check_column, parsed, check_query, filtered_session, list,
}

abbrev pub failure {ℓ} : {A : Type ℓ} → ℤ ⊎ A → Option ℤ
failure (inl code) = some code
failure (inr a) = none

-- The code of the first condition that holds.
abbrev pub first_of : List (Bool × ℤ) → Option ℤ
first_of [] = none
first_of ((holds, code) ∷ rest) = if holds then some code else first_of rest

abbrev pub is_negative : ℤ → Bool
is_negative (pos n) = false
is_negative (negsuc n) = true

abbrev pub is_page_size : ℤ → Bool
is_page_size (pos n) = leb 1 n && leb n 1000
is_page_size (negsuc n) = false

module _ {Number Hash Data : Type 0} (weak_order : Number → Number → Order)
    (hash_order : Hash → Hash → Order) (fields : List (Column Number (Torrent Hash Data)))
    (parse : Bytes → Option (Torrent Hash Data → Bool))
    (std : (Torrent Hash Data → Torrent Hash Data → Order) → Sorts (Torrent Hash Data)) where
  abbrev pub sorts_by : Option (Column Number (Torrent Hash Data)) → Bool
  sorts_by none = false
  sorts_by (some f) = is_sortable f

  abbrev pub is_query : Option Bytes → Bool
  is_query none = true
  is_query (some query) = is_some (parse query)

  abbrev pub has_good_query : Option Filters → Bool
  has_good_query none = true
  has_good_query (some filters) = is_query filters.query

  abbrev pub is_loaded : Registry Hash Data → Option ℤ → Bool
  is_loaded sessions none = false
  is_loaded sessions (some id) = is_some (sessions.get id)

  -- Why a request is refused.
  abbrev pub refusals : Registry Hash Data → ListReq → List (Bool × ℤ)
  refusals sessions req =
      (is_negative (value_or (pos 0) req.page), neg 1)
      ∷ (not (is_page_size (value_or (pos 50) req.page_size)), neg 1)
      ∷ (
        not (sorts_by (find_column (value_or (codes "queue_position") req.order_by) fields)),
        neg 2,
      )
      ∷ (not (has_good_query req.filters), neg 1000)
      ∷ (not (is_some (sessions.resolve (filtered_session req.filters))), neg 1)
      ∷ (not (is_loaded sessions (sessions.resolve (filtered_session req.filters))), neg 2)
      ∷ []

  -- A check is followed by the next ones where it does not fail.
  Agrees : {A : Type 0} → ℤ ⊎ A → Bool → ℤ → Type 0
  Agrees (inl code) holds expected = (holds ≡ true) × (code ≡ expected)
  Agrees (inr a) holds expected = holds ≡ false

  failure-bind :
      {A B : Type 0} (x : ℤ ⊎ A) (f : A → ℤ ⊎ B) (holds : Bool) (code : ℤ) (rest : List (Bool × ℤ))
      → Agrees x holds code
      → ((a : A) → failure (f a) ≡ first_of rest)
      → failure (x >>= f) ≡ first_of ((holds, code) ∷ rest)
  unfolding Agrees
  failure-bind (inl c) f holds code rest (h, e) k = rw (h, e) refl
  failure-bind (inr a) f holds code rest h k = rw h (k a)

  check_page-Agrees : (n : ℤ) → Agrees (check_page n) (is_negative n) (neg 1)
  unfolding Agrees check_page
  check_page-Agrees (pos n) = refl
  check_page-Agrees (negsuc n) = (refl, refl)

  check_page_size-Agrees : (n : ℤ) → Agrees (check_page_size n) (not (is_page_size n)) (neg 1)
  unfolding Agrees check_page_size
  check_page_size-Agrees (negsuc n) = (refl, refl)
  check_page_size-Agrees (pos n) = elim (Bool-cases (leb 1 n && leb n 1000)) [
    | inl h ↦ rw h refl
    | inr h ↦ rw h (refl, refl)
  ]

  check_column-Agrees :
      (o : Option (Column Number (Torrent Hash Data)))
      → Agrees (check_column o) (not (sorts_by o)) (neg 2)
  unfolding Agrees check_column
  check_column-Agrees none = (refl, refl)
  check_column-Agrees (some f) = elim (Bool-cases (is_sortable f)) [
    | inl h ↦ rw h refl
    | inr h ↦ rw h (refl, refl)
  ]

  check_query-Agrees :
      (o : Option Filters) → Agrees (check_query parse o) (not (has_good_query o)) (neg 1000)
  unfolding Agrees check_query parsed
  check_query-Agrees none = refl
  check_query-Agrees (some filters) = elim (Option-cases filters.query) [
    | inl e ↦ rw e refl
    | inr (query, e) ↦ elim (Option-cases (parse query)) [
      | inl e' ↦ rw (e, e') (refl, refl)
      | inr (filter, e') ↦ rw (e, e') refl
    ]
  ]

  failure-session :
      {B : Type 0} (sessions : Registry Hash Data) (o : Option ℤ) (f : List (Torrent Hash Data) → B)
      → failure (resolved sessions o >>= λ torrents. inr (f torrents))
        ≡ first_of ((not (is_some o), neg 1) ∷ (not (is_loaded sessions o), neg 2) ∷ [])
  unfolding resolved loaded
  failure-session sessions none f = refl
  failure-session sessions (some id) f = elim (Option-cases (sessions.get id)) [
    | inl e ↦ rw e refl
    | inr (torrents, e) ↦ rw e refl
  ]

  -- A request fails with the code of the first reason that there is to refuse it: a negative page, a page
  -- size that is not 1 to 1000, a field that is unknown or cannot be sorted by, a query that cannot be
  -- parsed, and a session that is unknown or not loaded; and else it has a response.
  pub failure-list :
      (sessions : Registry Hash Data) (req : ListReq)
      → failure (list weak_order hash_order fields parse std sessions req)
        ≡ first_of (refusals sessions req)
  unfolding list resolve_session
  failure-list sessions req =
      let reasons : List (Bool × ℤ) = refusals sessions req in
      failure-bind (check_page (value_or (pos 0) req.page)) _ _ _ (drop 1 reasons)
        (check_page-Agrees _)
        (λ page.
          failure-bind (check_page_size (value_or (pos 50) req.page_size)) _ _ _ (drop 2 reasons)
            (check_page_size-Agrees _)
            (λ page_size.
              failure-bind (check_column _) _ _ _ (drop 3 reasons) (check_column-Agrees _) (λ f.
                failure-bind (check_query parse req.filters) _ _ _ (drop 4 reasons)
                  (check_query-Agrees req.filters)
                  (λ query.
                    failure-session sessions (sessions.resolve (filtered_session req.filters)) _))))
