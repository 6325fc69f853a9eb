-- ===== src/Tokens.antt =====
-- src/auth/tokens.cpp: tokens that clients authenticate with, "porla_<id>_<secret>". `Crypto` stands for
-- libsodium; times are in seconds from the epoch. The table of src/data/models/tokens.cpp is a function
-- from ids, its primary key; of a row's columns, those that are only passed on are left out.
pub mod Form
pub mod Issuing
pub mod Verifying
use porla.Base.{
  ℕ, ◌+◌, ◌==◌, Bool, true, false, not, ◌&&◌, ◌||◌, List, [], ◌∷◌, ◌++◌, Option, none, some, Bytes,
  codes, if◌then◌else◌, is_some, take, drop, length, leb, ltb, bytes_eq, starts_with, ◌≡◌,
}

-- `sodium_bin2hex`, `sodium_bin2base64` and `sodium_base642bin` without padding, `crypto_generichash`.
pub record Crypto : Type 0 where
  pub bin2hex : Bytes → Bytes
  pub encode : Bytes → Bytes
  pub decode : Bytes → Option Bytes
  pub hash : Bytes → Bytes

pub record IsCrypto (c : Crypto) : Type 0 where
  pub length-bin2hex : (s : Bytes) → length s ≡ 8 → length (c.bin2hex s) ≡ 16
  pub length-encode : (s : Bytes) → length s ≡ 32 → length (c.encode s) ≡ 43
  pub decode-encode : (s : Bytes) → c.decode (c.encode s) ≡ some s

pub data Kind : Type 0 where
  session api_key : Kind

pub record Token : Type 0 where
  pub id : Bytes
  pub kind : Kind
  pub user_id : Option ℕ
  pub secret_hash : Bytes
  pub created_at : ℕ
  pub expires_at : Option ℕ
  pub last_used_at : Option ℕ

abbrev pub Table : Type 0
Table = Bytes → Option Token

-- `Insert` throws if the id is taken.
unfoldable pub insert : Token → Table → Option Table
insert row table =
    if is_some (table row.id)
    then none
    else some (λ id. if bytes_eq row.id id then some row else table id)

abbrev pub or_else : Option ℕ → Option ℕ → Option ℕ
or_else none b = b
or_else (some a) b = some a

abbrev pub touch_row : ℕ → Option ℕ → Token → Token
touch_row now expires_at row = record row {
  last_used_at = some now;
  expires_at = or_else expires_at row.expires_at;
}

abbrev pub touch_found : ℕ → Option ℕ → Option Token → Option Token
touch_found now expires_at none = none
touch_found now expires_at (some row) = some (touch_row now expires_at row)

-- `Touch`.
unfoldable pub touch : Bytes → ℕ → Option ℕ → Table → Table
touch key now expires_at table id =
    if bytes_eq key id then touch_found now expires_at (table id) else table id

abbrev pub session_idle_timeout : ℕ
session_idle_timeout = 2592000

abbrev pub touch_interval : ℕ
touch_interval = 300

pub record Issued : Type 0 where
  pub id : Bytes
  pub token : Bytes

unfoldable pub new_row : Crypto → Bytes → Bytes → ℕ → Token → Token
new_row c id_bin secret now row = record row {
  id = c.bin2hex id_bin;
  secret_hash = c.hash secret;
  created_at = now;
}

unfoldable pub new_token : Crypto → Bytes → Bytes → Issued
new_token c id_bin secret = record {
  id = c.bin2hex id_bin;
  token = codes "porla_" ++ (c.bin2hex id_bin ++ b'_' ∷ c.encode secret);
}

abbrev pub with_issued : Issued → Option Table → Option (Table × Issued)
with_issued issued none = none
with_issued issued (some table) = some (table, issued)

-- `Issue`, with the 8 and the 32 random bytes.
unfoldable pub issue : Crypto → Bytes → Bytes → ℕ → Token → Table → Option (Table × Issued)
issue c id_bin secret now row table =
    with_issued (new_token c id_bin secret) (insert (new_row c id_bin secret now row) table)

abbrev pub begins_underscore : Bytes → Bool
begins_underscore [] = false
begins_underscore (c ∷ s) = c == b'_'

-- The form that `Verify` checks first, and the parts of the token.
unfoldable pub is_well_formed : Bytes → Bool
is_well_formed token =
    (length token == 66)
    && (starts_with (codes "porla_") token && begins_underscore (drop 22 token))

abbrev pub id_part : Bytes → Bytes
id_part token = take 16 (drop 6 token)

abbrev pub secret_part : Bytes → Bytes
secret_part token = drop 23 token

abbrev pub has_expired : Option ℕ → ℕ → Bool
has_expired none now = false
has_expired (some t) now = ltb t now

abbrev pub is_due : Option ℕ → ℕ → Bool
is_due none now = true
is_due (some t) now = leb (t + touch_interval) now

abbrev pub next_expiry : Kind → ℕ → Option ℕ
next_expiry session now = some (now + session_idle_timeout)
next_expiry api_key now = none

-- The last part of `Verify`; `works` tells whether `Touch` does not throw.
unfoldable pub use_row : Bool → ℕ → Token → Table → Table × Option Token
unfolding touch
use_row works now row table =
    if is_due row.last_used_at now && works
    then (
      touch row.id now (next_expiry row.kind now) table,
      some (touch_row now (next_expiry row.kind now) row),
    )
    else (table, some row)

abbrev pub is_valid_row : Bytes → ℕ → Token → Bool
is_valid_row hashed now row =
    not (has_expired row.expires_at now) && bytes_eq row.secret_hash hashed

unfoldable pub check_row : Bool → ℕ → Bytes → Option Token → Table → Table × Option Token
check_row works now hashed none table = (table, none)
check_row works now hashed (some row) table =
    if is_valid_row hashed now row then use_row works now row table else (table, none)

unfoldable pub check_secret :
    Crypto → Bool → ℕ → Bytes → Option Bytes → Table → Table × Option Token
check_secret c works now id none table = (table, none)
check_secret c works now id (some secret) table =
    if length secret == 32
    then check_row works now (c.hash secret) (table id) table
    else (table, none)

unfoldable pub verify : Crypto → Bool → ℕ → Bytes → Table → Table × Option Token
verify c works now token table =
    if is_well_formed token
    then check_secret c works now (id_part token) (c.decode (secret_part token)) table
    else (table, none)
