-- ===== src/Auth/Granting.antt =====
-- When a request of src/auth/authenticator.cpp is authenticated.
use porla.Base.{
  ℕ, ◌≡◌, ◌≢◌, refl, Bool, Option, some, Bytes, Bool-cases, Option-cases, inl, inr, arith, ◌∙◌, ap,
  sym, subst, none,
}
use porla.Tokens.{Crypto, Token, Table, Kind, verify}
use porla.Tokens.Verifying.{IsProof, IsUse, renewed, verify_iff}
use porla.Auth.{
  Context, Headers, anon, user, machine, context_of, bearer_token, with_row, with_token,
  authenticate,
}

-- The context that a token stands for: a session's is that of the user it belongs to, who still exists,
-- and an API key's is a machine's.
abbrev pub StandsFor : (ℕ → Option Bytes) → Kind → Token → Context → Type 0
StandsFor users Kind.session row ctx =
    (user_id : ℕ) × (name : Bytes) × (row.user_id ≡ some user_id)
    × (users user_id ≡ some name)
    × (ctx.kind ≡ user)
    × (ctx.subject ≡ some name)
    × (ctx.token_id ≡ some row.id)
StandsFor users Kind.api_key row ctx =
    (ctx.kind ≡ machine) × (ctx.subject ≡ some row.id) × (ctx.token_id ≡ some row.id)

-- The request carries a token that the table's row proves, and the context is what the row stands for.
pub record Granted (c : Crypto) (users : ℕ → Option Bytes) (now : ℕ) (headers : Headers)
    (table : Table) (ctx : Context) : Type 0 where
  pub token : Bytes
  pub carried : bearer_token headers ≡ some token
  pub row : Token
  pub proves : IsProof c now token table row
  pub granted : StandsFor users row.kind row ctx

module _ (users : ℕ → Option Bytes) where
  of_user-StandsFor :
      (row : Token) (o : Option ℕ)
      → row.user_id ≡ o
      → (context_of users Kind.session row.id o).kind ≢ anon
      → StandsFor users Kind.session row (context_of users Kind.session row.id o)
  unfolding context_of
  of_user-StandsFor row none e h = absurd (h refl)
  of_user-StandsFor row (some user_id) e h = elim (Option-cases (users user_id)) [
    | inl n ↦ absurd (h (rw n refl))
    | inr (name, n) ↦ (user_id, name, e, n, rw n refl, rw n refl, rw n refl)
  ]

  context_of-StandsFor :
      (kind : Kind) (row : Token)
      → (context_of users kind row.id row.user_id).kind ≢ anon
      → StandsFor users kind row (context_of users kind row.id row.user_id)
  unfolding context_of
  context_of-StandsFor Kind.session row h = of_user-StandsFor row row.user_id refl h
  context_of-StandsFor Kind.api_key row h = (refl, refl, refl)

  renewed-context :
      (kind : Kind) (now : ℕ) (row : Token)
      → context_of users
          (renewed kind now row).kind
          (renewed kind now row).id
          (renewed kind now row).user_id
        ≡ context_of users row.kind row.id row.user_id
  renewed-context Kind.session now row = refl
  renewed-context Kind.api_key now row = refl

  -- The use of a row does not change what it stands for.
  IsUse-context :
      (works : Bool) (now : ℕ) (row r : Token)
      → IsUse works now row r
      → context_of users r.kind r.id r.user_id ≡ context_of users row.kind row.id row.user_id
  IsUse-context works now row r (inl (w, e)) = ap (λ r. context_of users r.kind r.id r.user_id) e
  IsUse-context works now row r (inr (n, w, e)) =
      ap (λ r. context_of users r.kind r.id r.user_id) e ∙ renewed-context row.kind now row

module _ (c : Crypto) (users : ℕ → Option Bytes) (works : Bool) (now : ℕ) (table : Table) where
  with_row-verify :
      (token : Bytes)
      → ((with_row users (verify c works now token table)).1).kind ≢ anon
      → (r : Token) × ((verify c works now token table).1 ≡ some r)
        × ((with_row users (verify c works now token table)).1
            ≡ context_of users r.kind r.id r.user_id)
  unfolding with_row
  with_row-verify token h = elim (Option-cases ((verify c works now token table).1)) [
    | inl e ↦ absurd (ground (arith, h, e))
    | inr (r, e) ↦ (r, e, ground (arith, e))
  ]

  -- A request that is not anonymous carries a token "porla_<id>_<secret>" for which the table has a row
  -- of that id, with the hash of that secret, that has not expired; if the row is a session's, the row's
  -- user exists and the context is a user's with that user's name and the row's id; if it is an API
  -- key's, the context is a machine's, and its subject and its token are the row's id.
  pub authenticate-Granted :
      (readable : Bool) (headers : Headers)
      → ((authenticate c users readable works now headers table).1).kind ≢ anon
      → Granted c users now headers table (authenticate c users readable works now headers table).1
  unfolding authenticate with_token
  authenticate-Granted readable headers h = elim (Option-cases (bearer_token headers)) [
    | inl e ↦ absurd (h (rw e refl))
    | inr (token, e) ↦ elim (Bool-cases readable) [
      | inr k ↦ absurd (h (rw (e, k) refl))
      | inl k ↦
          let same : authenticate c users readable works now headers table
              ≡ with_row users (verify c works now token table) =
            rw (e, k) refl in
          let (r, found, ctx) = with_row-verify token (λ a. h (ap (λ p. (p.1).kind) same ∙ a)) in
          let (row, proves, used) = (verify_iff c works now token table r).0 found in
          let given : (authenticate c users readable works now headers table).1
              ≡ context_of users row.kind row.id row.user_id =
            ap (λ p. p.1) same ∙ ctx ∙ IsUse-context users works now row r used in
          record {
            token = token;
            carried = e;
            row = row;
            proves = proves;
            granted =
                subst (StandsFor users row.kind row) (sym given)
                  (context_of-StandsFor users row.kind row (λ a. h (ap (λ x. x.kind) given ∙ a)));
          }
    ]
  ]
