-- ===== src/Tokens/Verifying.antt =====
-- What `Verify` of src/auth/tokens.cpp accepts.
use porla.Base.{
  ℕ, ◌+◌, ◌<◌, ◌≤◌, ◌≡◌, ◌↔◌, ◌⊎◌, refl, Bool, true, false, Option, none, some, Bytes, ◌==◌, ==_iff,
  length, arith, Bool-cases, inl, inr, sym, ap, ◌∙◌, subst, some-injective, bytes_eq_iff, ◌&&◌,
  if◌then◌else◌,
}
use porla.Tokens.{
  Crypto, Token, Table, Kind, verify, is_well_formed, id_part, secret_part, check_secret, check_row,
  is_valid_row, is_due, has_expired, touch_row, next_expiry, use_row,
}
use porla.Tokens.Form.{
  IsForm, well_formed→IsForm, id_part-IsForm, secret_part-IsForm, IsForm→well_formed,
}
use porla.Tokens.Issuing.{used_row, use_row-used_row}

-- The token is "porla_<id>_<secret>" with an id of 16 characters and 43 characters for a secret of 32
-- bytes; `row` is the table's row of that id, its hash is that of the secret, and its time of expiry,
-- if it has one, has not passed.
pub record IsProof (c : Crypto) (now : ℕ) (token : Bytes) (table : Table) (row : Token)
    : Type 0 where
  pub id : Bytes
  pub text : Bytes
  pub secret : Bytes
  pub form : IsForm token id text
  pub stored : table id ≡ some row
  pub decoded : c.decode text ≡ some secret
  pub length_secret : length secret ≡ 32
  pub hashed : row.secret_hash ≡ c.hash secret
  pub unexpired : (t : ℕ) → row.expires_at ≡ some t → now ≤ t

-- The row was used less than five minutes ago.
abbrev pub UsedRecently : ℕ → Token → Type 0
UsedRecently now row = (t : ℕ) × (row.last_used_at ≡ some t) × (now < t + 300)

-- The use is noted; a session's expiry moves to 30 days from now.
abbrev pub renewed : Kind → ℕ → Token → Token
renewed Kind.session now row = record row {
  last_used_at = some now;
  expires_at = some (now + 2592000);
}
renewed Kind.api_key now row = record row { last_used_at = some now }

-- `r` is the row after its use: as it was if it was used recently or cannot be written, else renewed.
abbrev pub IsUse : Bool → ℕ → Token → Token → Type 0
IsUse works now row r =
    ((UsedRecently now row ⊎ (works ≡ false)) × (r ≡ row))
    ⊎ ((UsedRecently now row → ⊥) × (works ≡ true) × (r ≡ renewed row.kind now row))

touch_row-renewed :
    (kind : Kind) (now : ℕ) (row : Token)
    → touch_row now (next_expiry kind now) row ≡ renewed kind now row
touch_row-renewed Kind.session now row = refl
touch_row-renewed Kind.api_key now row = refl

is_due-recent :
    (now : ℕ) (o : Option ℕ) → is_due o now ≡ false → (t : ℕ) × (o ≡ some t) × (now < t + 300)
is_due-recent now none h = absurd cc
is_due-recent now (some t) h = (t, refl, ground (arith, h))

recent-is_due : (now : ℕ) (o : Option ℕ) (t : ℕ) → o ≡ some t → now < t + 300 → is_due o now ≡ false
recent-is_due now none t e h = absurd cc
recent-is_due now (some u) t e h = let q = some-injective e in ground (arith, q, h)

module _ (works : Bool) (now : ℕ) (row : Token) where
  used_row-kept : (is_due row.last_used_at now && works) ≡ false → used_row works now row ≡ row
  used_row-kept e = ap (λ b. if b then touch_row now (next_expiry row.kind now) row else row) e

  used_row-renewed :
      (is_due row.last_used_at now && works) ≡ true
      → used_row works now row ≡ renewed row.kind now row
  used_row-renewed e =
      ap (λ b. if b then touch_row now (next_expiry row.kind now) row else row) e
      ∙ touch_row-renewed row.kind now row

  used_row-IsUse : IsUse works now row (used_row works now row)
  used_row-IsUse = elim (Bool-cases (is_due row.last_used_at now)) [
    | inr d ↦
        inl (inl (is_due-recent now row.last_used_at d), used_row-kept (ap (λ b. b && works) d))
    | inl d ↦ elim (Bool-cases works) [
      | inr w ↦ inl (inr w, used_row-kept (ground (arith, d, w)))
      | inl w ↦ inr (
          (
            λ (t, e, h).
                let n : false ≡ true = sym (recent-is_due now row.last_used_at t e h) ∙ d in
                absurd cc,
            w,
            used_row-renewed (ground (arith, d, w)),
          ))
    ]
  ]

  IsUse-used_row : (r : Token) → IsUse works now row r → r ≡ used_row works now row
  IsUse-used_row r (inl (inl (t, e, h), q)) =
      q ∙ sym (used_row-kept (ap (λ b. b && works) (recent-is_due now row.last_used_at t e h)))
  IsUse-used_row r (inl (inr w, q)) = q ∙ sym (used_row-kept (ground (arith, w)))
  IsUse-used_row r (inr (n, w, q)) = elim (Bool-cases (is_due row.last_used_at now)) [
    | inr d ↦ absurd (n (is_due-recent now row.last_used_at d))
    | inl d ↦ q ∙ sym (used_row-renewed (ground (arith, d, w)))
  ]

-- The conditions on the row that is found, as the code tests them.
is_valid_row-parts :
    (hashed : Bytes) (now : ℕ) (row : Token)
    → is_valid_row hashed now row ≡ true
    → (row.secret_hash ≡ hashed) × ((t : ℕ) → row.expires_at ≡ some t → now ≤ t)
is_valid_row-parts hashed now row h = (
  (bytes_eq_iff row.secret_hash hashed).0 (ground arith),
  λ t e. not_past row.expires_at t e (ground (arith, h)),
)
  where
    not_past : (o : Option ℕ) (t : ℕ) → o ≡ some t → has_expired o now ≡ false → now ≤ t
    not_past none t e n = absurd cc
    not_past (some u) t e n = let q = some-injective e in ground (arith, q, n)

valid-is_valid_row :
    (hashed : Bytes) (now : ℕ) (row : Token)
    → row.secret_hash ≡ hashed
    → ((t : ℕ) → row.expires_at ≡ some t → now ≤ t)
    → is_valid_row hashed now row ≡ true
valid-is_valid_row hashed now row e h =
    rw ((bytes_eq_iff row.secret_hash hashed).1 e, fresh row.expires_at h) refl
  where
    fresh : (o : Option ℕ) → ((t : ℕ) → o ≡ some t → now ≤ t) → has_expired o now ≡ false
    fresh none k = refl
    fresh (some u) k = let q = k u refl in ground (arith, q)

module _ (c : Crypto) (works : Bool) (now : ℕ) (token : Bytes) (table : Table) where
  check_row-found :
      (hashed : Bytes) (o : Option Token) (r : Token)
      → (check_row works now hashed o table).1 ≡ some r
      → (row : Token) × (o ≡ some row)
        × (is_valid_row hashed now row ≡ true)
        × (r ≡ used_row works now row)
  unfolding check_row
  check_row-found hashed none r e = absurd cc
  check_row-found hashed (some row) r e = elim (Bool-cases (is_valid_row hashed now row)) [
    | inl h ↦
        let e' : (use_row works now row table).1 ≡ some r = ground (arith, h, e) in
        (row, refl, h, some-injective (sym e' ∙ use_row-used_row works now row table))
    | inr h ↦ absurd (ground (arith, h, e))
  ]

  check_secret-found :
      (id : Bytes) (o : Option Bytes) (r : Token)
      → (check_secret c works now id o table).1 ≡ some r
      → (secret : Bytes) × (o ≡ some secret)
        × (length secret ≡ 32)
        × ((check_row works now (c.hash secret) (table id) table).1 ≡ some r)
  unfolding check_secret
  check_secret-found id none r e = absurd cc
  check_secret-found id (some secret) r e = elim (Bool-cases (length secret == 32)) [
    | inl h ↦ (secret, refl, (==_iff (length secret) 32).0 h, ground (arith, h, e))
    | inr h ↦ absurd (ground (arith, h, e))
  ]

  accepted-IsProof :
      (r : Token)
      → (verify c works now token table).1 ≡ some r
      → (row : Token) × IsProof c now token table row × IsUse works now row r
  unfolding verify
  accepted-IsProof r e = elim (Bool-cases (is_well_formed token)) [
    | inl h ↦
        let (secret, decoded, length_secret, checked) =
          check_secret-found (id_part token) (c.decode (secret_part token)) r
            (ground (arith, h, e)) in
        let (row, stored, valid, used) =
          check_row-found (c.hash secret) (table (id_part token)) r checked in
        let (hashed, unexpired) = is_valid_row-parts (c.hash secret) now row valid in
        (
          row,
          record {
            id = id_part token;
            text = secret_part token;
            secret = secret;
            form = well_formed→IsForm token h;
            stored = stored;
            decoded = decoded;
            length_secret = length_secret;
            hashed = hashed;
            unexpired = unexpired;
          },
          subst (IsUse works now row) (sym used) (used_row-IsUse works now row),
        )
    | inr h ↦ absurd (ground (arith, h, e))
  ]

  IsProof-accepted :
      (row r : Token)
      → IsProof c now token table row
      → IsUse works now row r
      → (verify c works now token table).1 ≡ some r
  unfolding verify check_secret check_row
  IsProof-accepted row r p u =
      rw
        (
          IsForm→well_formed token p.id p.text p.form,
          id_part-IsForm token p.id p.text p.form,
          secret_part-IsForm token p.id p.text p.form,
          p.decoded,
          (==_iff (length p.secret) 32).1 p.length_secret,
          p.stored,
          valid-is_valid_row (c.hash p.secret) now row p.hashed p.unexpired,
        )
        (use_row-used_row works now row table ∙ ap some (sym (IsUse-used_row works now row r u)))

  -- `Verify` gives a row exactly if the token is "porla_<id>_<secret>" with an id of 16 and a secret of
  -- 43 characters that decode to 32 bytes, the table has a row of that id whose hash is that of the
  -- secret, that row's time of expiry, if it has one, has not passed, and the row that is given is the
  -- stored one after its use: as it was if it was used less than five minutes ago or `Touch` fails, else
  -- with the time of its use and, for a session, 30 more days.
  pub verify_iff :
      (r : Token)
      → ((verify c works now token table).1 ≡ some r)
        ↔ ((row : Token) × IsProof c now token table row × IsUse works now row r)
  verify_iff r = (accepted-IsProof r, λ (row, p, u). IsProof-accepted row r p u)
