-- ===== src/Rpc.antt =====
-- src/rpc/jsonrpc.cpp and src/rpc/responsewriter.hpp: a request over HTTP and the writer of its reply.
-- `Library` stands for nlohmann::json and zlib. What is sent to a client is a list, the first part
-- first.
pub mod Errors
pub mod Handler
pub mod Methods
pub mod Exchange
pub mod Once
pub mod Silence
pub mod Answers
pub mod Replies
pub mod Agents
pub mod Permission
use porla.Base.{
  ℕ, Bool, true, false, List, [], ◌∷◌, ◌++◌, Option, none, some, Bytes, codes, leb, length,
  if◌then◌else◌, is_empty, ◌||◌, ◌&&◌, ◌⊎◌,
}
use porla.Base.Integers.{ℤ}
use Errors.{Code, get_error}

-- `parse` is `Json::Parse`, which returns the text of an exception; `set` is the assignment to a key
-- of an object; `dump` replaces what is not UTF-8; `gzip` is `Gzip`, which is made of calls of zlib.
pub record Library : Type 1 where
  pub Json : Type 0
  pub null : Json
  pub integer : ℤ → Json
  pub text : Bytes → Json
  pub object : List (Bytes × Json) → Json
  pub is_null : Json → Bool
  pub is_number : Json → Bool
  pub as_string : Json → Option Bytes
  pub is_object : Json → Bool
  pub find : Bytes → Json → Option Json
  pub set : Bytes → Json → Json → Json
  pub parse : Bytes → Bytes ⊎ Json
  pub dump : Json → Bytes
  pub gzip : Bytes → Option Bytes

-- A call of `uWS::HttpResponse`: `writeStatus`, `writeHeader`, or `end`, which may close the connection.
pub data Part : Type 0 where
  status : Bytes → Part
  header : Bytes → Bytes → Part
  end : Bytes → Bool → Part

module _ (lib : Library) where
  -- A call of a `ResponseWriter`.
  pub data Call : Type 0 where
    error : ℤ → Bytes → lib.Json → Call
    header : Bytes → Bytes → Call
    ok : lib.Json → Call

  pub record Writer : Type 0 where
    pub id : lib.Json
    pub responded : Bool
    pub gzip : Bool

  -- `Error(Errors::Code, ...)`.
  unfoldable pub error_of : Code → Bytes → lib.Json → Call
  error_of code message extra =
      Call.error (get_error code).rpc_code
        (if is_empty message then (get_error code).message else message)
        (lib.set (codes "reason") (lib.text (get_error code).name) extra)

  unfoldable pub error_body : lib.Json → ℤ → Bytes → lib.Json → Bytes
  error_body id code message extra = lib.dump (
      lib.object (
        (codes "jsonrpc", lib.text (codes "2.0"))
        ∷ (codes "id", id)
        ∷ (
          codes "error",
          lib.object (
              (codes "code", lib.integer code)
              ∷ (codes "message", lib.text message)
              ∷ (codes "data", extra)
              ∷ []),
        )
        ∷ []))

  unfoldable pub result_body : lib.Json → lib.Json → Bytes
  result_body id result = lib.dump (
      lib.object (
        (codes "jsonrpc", lib.text (codes "2.0"))
        ∷ (codes "id", id)
        ∷ (codes "result", result)
        ∷ []))

  abbrev pub min_gzip_size : ℕ
  min_gzip_size = 1024

  -- The end of `Ok`.
  unfoldable pub compressed : Bytes → Option Bytes → List Part
  compressed body none = Part.end body false ∷ []
  compressed body (some gzipped) =
      Part.header (codes "Content-Encoding") (codes "gzip")
      ∷ Part.header (codes "Vary") (codes "Accept-Encoding")
      ∷ Part.end gzipped false
      ∷ []

  unfoldable pub ok_parts : Bool → Bytes → List Part
  ok_parts gzip body =
      if gzip && leb min_gzip_size (length body)
      then compressed body (lib.gzip body)
      else Part.end body false ∷ []

  -- `DefaultResponseWriter`: the writer after a call, and what it sends. The flag is `*m_aborted`.
  unfoldable pub write : Bool → Call → Writer → Writer × List Part
  write aborted (Call.error code message extra) w =
      if aborted || w.responded
      then (w, [])
      else (record w { responded = true }, Part.end (error_body w.id code message extra) false ∷ [])
  write aborted (Call.header key value) w =
      if aborted then (w, []) else (w, Part.header key value ∷ [])
  write aborted (Call.ok result) w =
      if aborted || w.responded
      then (w, [])
      else (record w { responded = true }, ok_parts w.gzip (result_body w.id result))

  unfoldable pub write_all : Bool → List Call → Writer → Writer × List Part
  write_all aborted [] w = (w, [])
  write_all aborted (call ∷ calls) w =
      let (w, parts) = write aborted call w in
      let (w, more) = write_all aborted calls w in (w, parts ++ more)
