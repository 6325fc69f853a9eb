-- ===== src/Rpc/Methods.antt =====
-- `FunctionMethod` of src/rpc/functionmethod.hpp: a method that runs a coroutine. `decode` stands for the
-- conversion of the parameters to the method's request, and `run` for the function that it wraps.
use porla.Base.{Bool, not, ◌&&◌, List, [], ◌∷◌, ◌++◌, none, some, Bytes, codes, if◌then◌else◌}
use porla.Base.Integers.{ℤ}
use porla.Auth.{Context}
use porla.Rpc.Errors.{Code}
use porla.Rpc.{Library, Call, error_of}
use porla.Rpc.Handler.{Invoked, no_details}

module _ (lib : Library) where
  -- What `get<TReq>` gives: a request, a `FieldError`, or another exception.
  pub data Decoded (Req : Type 0) : Type 0 where
    decoded : Req → Decoded Req
    field_error : Bytes → Bytes → Decoded Req
    other_error : Bytes → Decoded Req

  -- How a function ends: with a result, an `Rpc::Error` or another exception.
  pub data Outcome : Type 0 where
    returns : lib.Json → Outcome
    fails : ℤ → Bytes → lib.Json → Outcome
    throws : Outcome

  -- `is_raw` is that the request is a JSON value.
  pub record Function : Type 1 where
    pub Req : Type 0
    pub is_raw : Bool
    pub decode : lib.Json → Decoded Req
    pub run : Context → Req → List (Bytes × Bytes) × Outcome

  abbrev pub header_calls : List (Bytes × Bytes) → List (Call lib)
  header_calls [] = []
  header_calls ((name, value) ∷ headers) = Call.header name value ∷ header_calls headers

  -- The reply to an outcome: those of `MakeMethod`, of `Run` and of the handler of `co_spawn`.
  unfoldable pub outcome_call : Outcome → Call lib
  outcome_call (Outcome.returns result) = Call.ok result
  outcome_call (Outcome.fails code message extra) = Call.error code message extra
  outcome_call Outcome.throws = error_of lib Code.internal_error [] (no_details lib)

  -- The calls of the coroutine.
  unfoldable pub coroutine_calls : List (Bytes × Bytes) × Outcome → List (Call lib)
  coroutine_calls (headers, outcome) = header_calls headers ++ outcome_call outcome ∷ []

  abbrev refused : Call lib → Invoked lib
  refused call = record { calls = call ∷ []; thrown = none; later = [] }

  -- What follows the conversion of the parameters.
  unfoldable pub invoke_decoded :
      (Req : Type 0) → (Req → List (Bytes × Bytes) × Outcome) → Decoded Req → Invoked lib
  invoke_decoded Req run (Decoded.decoded req) = record {
    calls = [];
    thrown = none;
    later = coroutine_calls (run req);
  }
  invoke_decoded Req run (Decoded.field_error field what) = refused (
      error_of lib Code.invalid_params (codes "Invalid " ++ (field ++ (codes ": " ++ what)))
        (lib.object ((codes "field", lib.text field) ∷ [])))
  invoke_decoded Req run (Decoded.other_error what) = record {
    calls = [];
    thrown = some what;
    later = [];
  }

  -- `Invoke`.
  unfoldable pub invoke_function : Function → Context → lib.Json → Invoked lib
  invoke_function fn ctx body =
      if not fn.is_raw && (not (lib.is_null body) && not (lib.is_object body))
      then refused (
          error_of lib Code.invalid_params (codes "Invalid params: must be an object")
            (no_details lib))
      else invoke_decoded fn.Req (fn.run ctx)
          (fn.decode (if lib.is_null body then lib.object [] else body))
