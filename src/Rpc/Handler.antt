-- ===== src/Rpc/Handler.antt =====
-- The handlers of `JsonRpc::HttpHandler` (src/rpc/jsonrpc.cpp): the request's headers, then its body.
use porla.Base.{
  ℕ, Bool, true, false, not, ◌&&◌, ◌||◌, ◌⊎◌, inl, inr, List, [], ◌∷◌, ◌++◌, Option, none, some,
  Bytes, codes, ◌==◌, if◌then◌else◌, leb, length, take, is_empty, is_some, any_of,
}
use porla.Text.{to_lower}
use porla.Text.Split.{find}
use porla.Auth.{Context, Origin, anon, user, machine, Headers, iequals}
use porla.Rpc.Errors.{Code}
use porla.Rpc.{Library, Part, Call, error_of, write}

-- The loop that drops continuation bytes at the end of a text.
unfoldable pub drop_continuation : Bytes → Bytes
drop_continuation [] = []
drop_continuation (c ∷ s) =
    let rest = drop_continuation s in
    if is_empty rest && (leb 128 c && not (leb 192 c)) then [] else c ∷ rest

unfoldable pub drop_lead : Bytes → Bytes
drop_lead [] = []
drop_lead (c ∷ []) = if leb 192 c then [] else c ∷ []
drop_lead (c ∷ d ∷ s) = c ∷ drop_lead (d ∷ s)

-- The user agent that is kept.
unfoldable pub cut_agent : Bytes → Bytes
cut_agent agent =
    if length (take 512 agent) == 512
    then drop_lead (drop_continuation (take 512 agent))
    else take 512 agent

-- `boost::icontains`.
unfoldable pub icontains : Bytes → Bytes → Bool
icontains s part = is_some (find (to_lower part) (to_lower s))

pub record Request : Type 0 where
  pub headers : Headers
  pub remote_address : Bytes

-- What is known of a request that is not refused.
pub record Opened : Type 0 where
  pub caller : Context
  pub accepts_gzip : Bool

abbrev pub asleep : List Part
asleep =
    Part.status (codes "503 Unavailable")
    ∷ Part.end (codes "JSONRPC server gone to sleep") false
    ∷ []

unfoldable pub is_foreign : Bytes → Bool
is_foreign site = iequals site (codes "cross-site") || iequals site (codes "same-site")

-- The handler of a request, with the context that `Authenticate` gives.
unfoldable pub open_request : Bool → Context → Request → List Part ⊎ Opened
open_request alive ctx req =
    if not alive
    then inl asleep
    else if is_foreign (req.headers (codes "sec-fetch-site"))
    then inl (Part.status (codes "403 Forbidden") ∷ Part.end (codes "Forbidden") true ∷ [])
    else inr (record {
      caller = record ctx {
        remote_address = req.remote_address;
        user_agent = cut_agent (req.headers (codes "user-agent"));
      };
      accepts_gzip = icontains (req.headers (codes "accept-encoding")) (codes "gzip");
    })

abbrev pub max_body : ℕ
max_body = 8388608

module _ (lib : Library) where
  -- `Method::Invoke`: the calls that it makes, what it throws then, and the calls that the work it
  -- has started makes later.
  pub record Invoked : Type 0 where
    pub calls : List (Call lib)
    pub thrown : Option Bytes
    pub later : List (Call lib)

  -- A method and the callers it is for. `can_invoke` may throw.
  pub record Entry : Type 0 where
    pub kinds : List Origin
    pub can_invoke : Context → Bytes ⊎ Bool
    pub invoke : Context → lib.Json → Invoked

  abbrev pub same_origin : Origin → Origin → Bool
  same_origin anon anon = true
  same_origin user user = true
  same_origin machine machine = true
  same_origin _ _ = false

  -- `Entry::Allows`.
  unfoldable pub allows_caller : Entry → Context → Bool
  allows_caller method ctx = any_of (same_origin ctx.kind) method.kinds

  abbrev pub no_details : lib.Json
  no_details = lib.object []

  abbrev pub with_detail : Bytes → lib.Json
  with_detail detail = lib.object ((codes "detail", lib.text detail) ∷ [])

  -- `fail`.
  unfoldable pub fail : Bool → lib.Json → Code → Bytes → List Part
  fail aborted id code detail =
      (write lib aborted
        (error_of lib code [] (if is_empty detail then no_details else with_detail detail))
        (record { id = id; responded = false; gzip = false })).1

  unfoldable pub found_id : lib.Json → Option lib.Json
  found_id body = if lib.is_object body then lib.find (codes "id") body else none

  unfoldable pub id_ok : Option lib.Json → Bool
  id_ok none = true
  id_ok (some id) = lib.is_null id || (is_some (lib.as_string id) || lib.is_number id)

  abbrev pub value_or : Option lib.Json → lib.Json
  value_or none = lib.null
  value_or (some v) = v

  unfoldable pub reply_id : lib.Json → lib.Json
  reply_id body = if id_ok (found_id body) then value_or (found_id body) else lib.null

  abbrev pub as_text : Option lib.Json → Option Bytes
  as_text none = none
  as_text (some v) = lib.as_string v

  -- A member of the request that must be a string.
  unfoldable pub string_at : Bytes → lib.Json → Option Bytes
  string_at key body = if lib.is_object body then as_text (lib.find key body) else none

  -- The name of the method, or the reason for which a request is refused.
  unfoldable pub method_name : Bool → Option Bytes → Option Bytes → Bytes ⊎ Bytes
  method_name true (some version) (some name) = inr name
  method_name true version name =
      inl (codes "A request is an object with string jsonrpc and method")
  method_name false version name = inl (codes "Id is not a string, number or null")

  abbrev pub thrown_calls : Option Bytes → List (Call lib)
  thrown_calls none = []
  thrown_calls (some what) = error_of lib Code.internal_error [] (with_detail what) ∷ []

  -- What follows `CanInvoke`.
  unfoldable pub checked_calls : Bytes ⊎ Bool → Invoked → List (Call lib)
  checked_calls (inl what) r = thrown_calls (some what)
  checked_calls (inr false) r = error_of lib Code.permission_denied [] no_details ∷ []
  checked_calls (inr true) r = r.calls ++ thrown_calls r.thrown

  -- The calls of the writer until `Invoke` has returned or an exception has been caught.
  unfoldable pub method_calls : Entry → Context → lib.Json → List (Call lib)
  method_calls method ctx params =
      if allows_caller method ctx
      then checked_calls (method.can_invoke ctx) (method.invoke ctx params)
      else error_of lib Code.permission_denied [] no_details ∷ []
