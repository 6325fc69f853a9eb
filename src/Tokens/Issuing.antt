-- ===== src/Tokens/Issuing.antt =====
-- A token that `Issue` of src/auth/tokens.cpp gave out, and `Verify`.
use porla.Base.{
  some-injective, ℕ, ◌≡◌, refl, sym, ap, ◌∙◌, subst, Bool, true, false, ◌&&◌, [], ◌∷◌, ◌++◌, Option,
  none, some, Bytes, codes, ==_iff, if◌then◌else◌, length, length-append, take, drop, arith,
  is_some, bytes_eq, bytes_eq_refl, Bool-cases, inl, inr, append_assoc, strip_prefix,
}
use porla.Tokens.{
  Crypto, IsCrypto, Token, Table, Issued, insert, new_row, new_token, with_issued, issue,
  begins_underscore, is_well_formed, id_part, secret_part, has_expired, use_row, check_row,
  check_secret, verify, next_expiry, is_due, touch_row,
}

pub take-append : (xs ys : Bytes) → take (length xs) (xs ++ ys) ≡ xs
take-append [] ys = refl
take-append (x ∷ xs) ys = ap (λ (s : Bytes). x ∷ s) (take-append xs ys)

drop-append : (xs ys : Bytes) → drop (length xs) (xs ++ ys) ≡ ys
drop-append [] ys = refl
drop-append (x ∷ xs) ys = drop-append xs ys

pub take-suffix : (n : ℕ) (xs ys : Bytes) → length xs ≡ n → take n (xs ++ ys) ≡ xs
take-suffix n xs ys e = subst (λ k. take k (xs ++ ys) ≡ xs) e (take-append xs ys)

pub drop-suffix : (n : ℕ) (xs ys : Bytes) → length xs ≡ n → drop n (xs ++ ys) ≡ ys
drop-suffix n xs ys e = subst (λ k. drop k (xs ++ ys) ≡ ys) e (drop-append xs ys)

-- The row that `Verify` returns at the time `now`.
abbrev pub used_row : Bool → ℕ → Token → Token
used_row works now row =
    if is_due row.last_used_at now && works
    then touch_row now (next_expiry row.kind now) row
    else row

pub use_row-used_row :
    (works : Bool) (now : ℕ) (row : Token) (table : Table)
    → (use_row works now row table).1 ≡ some (used_row works now row)
unfolding use_row
use_row-used_row works now row table = ground arith

module _ (c : Crypto) (l : IsCrypto c) (id_bin secret : Bytes) (s : length id_bin ≡ 8)
    (t : length secret ≡ 32) where
  abbrev issued_token : Bytes
  issued_token = codes "porla_" ++ (c.bin2hex id_bin ++ b'_' ∷ c.encode secret)

  id_part-issued : id_part issued_token ≡ c.bin2hex id_bin
  id_part-issued =
      take-suffix 16 (c.bin2hex id_bin) (b'_' ∷ c.encode secret) (l.length-bin2hex id_bin s)

  drop-issued : drop 22 issued_token ≡ b'_' ∷ c.encode secret
  drop-issued =
      drop-suffix 16 (c.bin2hex id_bin) (b'_' ∷ c.encode secret) (l.length-bin2hex id_bin s)

  secret_part-issued : secret_part issued_token ≡ c.encode secret
  secret_part-issued =
      ap (drop 17) (sym (append_assoc (c.bin2hex id_bin) (b'_' ∷ []) (c.encode secret)))
      ∙ drop-suffix 17 (c.bin2hex id_bin ++ b'_' ∷ []) (c.encode secret)
          (omega (arith, length-append (c.bin2hex id_bin) (b'_' ∷ []), l.length-bin2hex id_bin s))

  length-issued : length issued_token ≡ 66
  length-issued = omega (
    arith,
    length-append (c.bin2hex id_bin) (b'_' ∷ c.encode secret),
    l.length-bin2hex id_bin s,
    l.length-encode secret t,
  )

  well_formed : is_well_formed issued_token ≡ true
  unfolding is_well_formed strip_prefix
  well_formed =
      rw ((==_iff (length issued_token) 66).1 length-issued, ap begins_underscore drop-issued) refl

  check_row-issued :
      (works : Bool) (now created : ℕ) (row : Token) (table : Table)
      → has_expired row.expires_at now ≡ false
      → (check_row works now (c.hash secret) (some (new_row c id_bin secret created row)) table).1
        ≡ some (used_row works now (new_row c id_bin secret created row))
  unfolding check_row new_row
  check_row-issued works now created row table h =
      rw (h, bytes_eq_refl (c.hash secret))
        (use_row-used_row works now (new_row c id_bin secret created row) table)

  verify-found :
      (works : Bool) (now created : ℕ) (row : Token) (table : Table)
      → table (c.bin2hex id_bin) ≡ some (new_row c id_bin secret created row)
      → has_expired row.expires_at now ≡ false
      → (verify c works now issued_token table).1
        ≡ some (used_row works now (new_row c id_bin secret created row))
  unfolding verify check_secret
  verify-found works now created row table found h =
      rw
        (
          well_formed,
          id_part-issued,
          secret_part-issued,
          l.decode-encode secret,
          (==_iff (length secret) 32).1 t,
          found,
        )
        (check_row-issued works now created row table h)

  insert-found :
      (row : Token) (table after : Table) → insert row table ≡ some after → after row.id ≡ some row
  unfolding insert
  insert-found row table after e = elim (Bool-cases (is_some (table row.id))) [
    | inl h ↦ absurd (ground (arith, h, e))
    | inr h ↦ added (ground (arith, h, e))
  ]
    where
      added :
          some (λ (id : Bytes). if bytes_eq row.id id then some row else table id) ≡ some after
          → after row.id ≡ some row
      added q = ap (λ f. f row.id) (sym (some-injective q)) ∙ rw (bytes_eq_refl row.id) refl

  with_issued-parts :
      (issued given : Issued) (o : Option Table) (after : Table)
      → with_issued issued o ≡ some (after, given)
      → (o ≡ some after) × (issued ≡ given)
  with_issued-parts issued given none after e = absurd cc
  with_issued-parts issued given (some table) after e =
      (ap some (ap (λ p. p.0) (some-injective e)), ap (λ p. p.1) (some-injective e))

  -- A token that was issued is accepted until it expires, whether its use can be written or not; the
  -- row that is returned is the one that was stored, with the time of this use and, for a session, the
  -- new expiry, if the use was written.
  pub verify-issue :
      (works : Bool) (now created : ℕ) (row : Token) (table after : Table) (issued : Issued)
      → issue c id_bin secret created row table ≡ some (after, issued)
      → has_expired row.expires_at now ≡ false
      → (verify c works now issued.token after).1
        ≡ some (used_row works now (new_row c id_bin secret created row))
  unfolding issue new_token new_row
  verify-issue works now created row table after issued e h =
      let (inserted, given) =
        with_issued-parts (new_token c id_bin secret) issued
          (insert (new_row c id_bin secret created row) table) after e in
      rw (← ap (λ x. x.token) given) (
        verify-found works now created row after
          (insert-found (new_row c id_bin secret created row) table after inserted) h)
