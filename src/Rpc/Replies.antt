-- ===== src/Rpc/Replies.antt =====
-- How often a method of src/rpc/functionmethod.hpp replies.
use porla.Base.{
  ℕ, ◌+◌, ◌≡◌, refl, true, not, ◌&&◌, Bool-cases, inl, inr, List, [], ◌∷◌, ◌++◌, Bytes, arith,
  if◌then◌else◌,
}
use porla.Auth.{Context, Origin}
use porla.Rpc.{Library, Call, error_of}
use porla.Rpc.Handler.{Entry}
use porla.Rpc.Methods.{
  Function, Outcome, Decoded, header_calls, outcome_call, coroutine_calls, invoke_decoded,
  invoke_function,
}
use porla.Rpc.Answers.{is_reply, has_reply, all_calls, IsReplying}

module _ (lib : Library) where
  abbrev pub reply_count : List (Call lib) → ℕ
  reply_count [] = 0
  reply_count (c ∷ cs) = (if is_reply lib c then 1 else 0) + reply_count cs

  reply_count-headers :
      (headers : List (Bytes × Bytes)) (outcome : Outcome lib)
      → reply_count (header_calls lib headers ++ outcome_call lib outcome ∷ []) ≡ 1
  unfolding outcome_call error_of
  reply_count-headers [] (Outcome.returns result) = refl
  reply_count-headers [] (Outcome.fails code message extra) = refl
  reply_count-headers [] Outcome.throws = refl
  reply_count-headers ((name, value) ∷ headers) outcome =
      omega (arith, reply_count-headers headers outcome)

  reply_count-decoded :
      (Req : Type 0) (run : Req → List (Bytes × Bytes) × Outcome lib) (d : Decoded lib Req)
      → reply_count (all_calls lib (invoke_decoded lib Req run d)) ≡ 1
  unfolding invoke_decoded coroutine_calls error_of
  reply_count-decoded Req run (Decoded.decoded req) =
      reply_count-headers ((run req).0) ((run req).1)
  reply_count-decoded Req run (Decoded.field_error field what) = refl
  reply_count-decoded Req run (Decoded.other_error what) = refl

  -- A method that is made of a function replies exactly once, counting the exception that it lets
  -- through: whether the parameters can be converted, and however the function ends.
  pub reply_count-invoke_function :
      (fn : Function lib) (ctx : Context) (body : lib.Json)
      → reply_count (all_calls lib (invoke_function lib fn ctx body)) ≡ 1
  unfolding invoke_function error_of
  reply_count-invoke_function fn ctx body =
      elim (Bool-cases (not fn.is_raw && (not (lib.is_null body) && not (lib.is_object body)))) [
        | inl h ↦ rw h refl
        | inr h ↦ rw h (reply_count-decoded fn.Req (fn.run ctx) _)
      ]

  has_reply-count : (cs : List (Call lib)) → reply_count cs ≡ 1 → has_reply lib cs ≡ true
  has_reply-count [] e = absurd (omega (arith, e))
  has_reply-count (c ∷ cs) e = elim (Bool-cases (is_reply lib c)) [
    | inl h ↦ rw h refl
    | inr h ↦ rw h (has_reply-count cs (ground (arith, e, h)))
  ]

  -- The entry of a function.
  pub function_entry : Function lib → List Origin → Entry lib
  function_entry fn kinds = record {
    kinds = kinds;
    can_invoke = λ _. inr true;
    invoke = invoke_function lib fn;
  }

  pub function_entry-IsReplying :
      (fn : Function lib) (kinds : List Origin) → IsReplying lib (function_entry fn kinds)
  unfolding function_entry
  function_entry-IsReplying fn kinds ctx params =
      has_reply-count _ (reply_count-invoke_function fn ctx params)
