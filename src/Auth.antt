-- ===== src/Auth.antt =====
-- src/auth/authenticator.cpp and src/auth/context.hpp: who sends a request. The headers of a request are a
-- function from their names, empty where there is none.
pub mod Granting
use porla.Base.{
  ℕ, Bool, true, false, List, [], ◌∷◌, Option, none, some, Bytes, codes, ◌==◌, if◌then◌else◌, ltb,
  leb, take, drop, length, is_empty, bytes_eq, reverse, ◌&&◌, ◌||◌,
}
use porla.Text.{to_lower}
use porla.Text.Split.{split}
use porla.Tokens.{Crypto, Token, Table, Kind, verify}

pub data Origin : Type 0 where
  anon user machine : Origin

pub record Context : Type 0 where
  pub kind : Origin
  pub subject : Option Bytes
  pub token_id : Option Bytes
  pub user_agent : Bytes
  pub remote_address : Bytes

abbrev pub anonymous : Context
anonymous = record {
  kind = anon;
  subject = none;
  token_id = none;
  user_agent = [];
  remote_address = [];
}

abbrev pub Headers : Type 0
Headers = Bytes → Bytes

-- `boost::iequals`.
abbrev pub iequals : Bytes → Bytes → Bool
iequals s t = bytes_eq (to_lower s) (to_lower t)

-- `std::isspace` and `boost::trim_copy`.
abbrev pub is_space : ℕ → Bool
is_space c = (c == 32) || (leb 9 c && leb c 13)

unfoldable pub trim_left : Bytes → Bytes
trim_left [] = []
trim_left (c ∷ s) = let rest = trim_left s in if is_space c then rest else c ∷ s

unfoldable pub trim : Bytes → Bytes
unfolding trim_left
trim s = reverse (trim_left (reverse (trim_left s)))

unfoldable pub without_bearer : Bytes → Bytes
without_bearer header =
    if ltb 7 (length header) && iequals (take 7 header) (codes "bearer ")
    then drop 7 header
    else header

-- `HeaderFinder`.
unfoldable pub find_header : Headers → Bytes → Option Bytes
find_header headers name =
    if is_empty (headers name) then none else some (without_bearer (headers name))

-- The value of one cookie, or what the others give.
unfoldable pub cookie_value : Option (List Bytes) → Option Bytes → Option Bytes
unfolding trim
cookie_value (some (name ∷ value ∷ [])) rest =
    if bytes_eq (trim name) (codes "porla-auth-token") then some value else rest
cookie_value pieces rest = rest

unfoldable pub find_item : List Bytes → Option Bytes
find_item [] = none
find_item (item ∷ items) = cookie_value (split item (codes "=")) (find_item items)

unfoldable pub find_in : Option (List Bytes) → Option Bytes
find_in none = none
find_in (some items) = find_item items

-- `CookieFinder`.
unfoldable pub find_cookie : Bytes → Option Bytes
find_cookie value = if is_empty value then none else find_in (split value (codes ";"))

abbrev pub or_else {ℓ} : {A : Type ℓ} → Option A → Option A → Option A
or_else none b = b
or_else (some a) b = some a

unfoldable pub bearer_token : Headers → Option Bytes
bearer_token headers =
    or_else (find_header headers (codes "x-porla-token")) (
      or_else (find_header headers (codes "authorization"))
        (find_cookie (headers (codes "cookie"))))

-- The name of the user that a row belongs to, as the query of src/data/models/tokens.cpp joins it.
abbrev pub user_name : (ℕ → Option Bytes) → Option ℕ → Option Bytes
user_name users none = none
user_name users (some user_id) = users user_id

abbrev of_user : Bytes → Option Bytes → Context
of_user id none = anonymous
of_user id (some name) = record anonymous { kind = user; subject = some name; token_id = some id }

-- The context that a row gives.
unfoldable pub context_of : (ℕ → Option Bytes) → Kind → Bytes → Option ℕ → Context
context_of users Kind.session id user_id = of_user id (user_name users user_id)
context_of users Kind.api_key id user_id = record anonymous {
  kind = machine;
  subject = some id;
  token_id = some id;
}

unfoldable pub with_row : (ℕ → Option Bytes) → Table × Option Token → Table × Context
with_row users (table, none) = (table, anonymous)
with_row users (table, some row) = (table, context_of users row.kind row.id row.user_id)

module _ (c : Crypto) (users : ℕ → Option Bytes) where
  unfoldable pub with_token : Bool → Bool → ℕ → Option Bytes → Table → Table × Context
  with_token readable works now none table = (table, anonymous)
  with_token readable works now (some token) table =
      if readable then with_row users (verify c works now token table) else (table, anonymous)

  -- `Authenticate`. `readable` tells whether `Verify` does not throw, `works` whether its `Touch`
  -- does not.
  unfoldable pub authenticate : Bool → Bool → ℕ → Headers → Table → Table × Context
  authenticate readable works now headers table =
      with_token readable works now (bearer_token headers) table
