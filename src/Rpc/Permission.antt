-- ===== src/Rpc/Permission.antt =====
-- Callers for whom a method of src/rpc/jsonrpc.cpp is not meant.
use porla.Base.{◌≡◌, refl, Bool, false, ◌⊎◌, inl, inr, Option, none, some, Bytes, codes, ◌++◌}
use porla.Auth.{Context}
use porla.Rpc.{Library}
use porla.Rpc.Handler.{Opened, Entry, allows_caller, method_calls, reply_id}
use porla.Rpc.Exchange.{
  Exchange, Event, run_method, run_named, run_body, run_request, on_data, on_called, step,
}

module _ (lib : Library) where
  -- Two servers' methods of one name, as a caller sees them: one method, or two that are not meant for
  -- the caller.
  pub data Alike (ctx : Context) : Option (Entry lib) → Option (Entry lib) → Type 0 where
    same : {o : Option (Entry lib)} → Alike ctx o o
    unallowed :
        {m n : Entry lib}
        → allows_caller lib m ctx ≡ false
        → allows_caller lib n ctx ≡ false
        → Alike ctx (some m) (some n)

  module _ (ms ns : Bytes → Option (Entry lib)) (request : Opened) where
    run_method-Alike :
        {o p : Option (Entry lib)} (aborted : Bool) (id : lib.Json) (name : Bytes)
        (params : Option lib.Json)
        → Alike request.caller o p
        → run_method lib ms request aborted id name o params
          ≡ run_method lib ns request aborted id name p params
    unfolding run_method method_calls
    run_method-Alike aborted id name params (same {o}) =
        elim o
          as (λ o.
            run_method lib ms request aborted id name o params
            ≡ run_method lib ns request aborted id name o params) [ none ↦ refl | some m ↦ refl ]
    run_method-Alike aborted id name params (unallowed h k) = rw (h, k) refl

    module _ (alike : (name : Bytes) → Alike request.caller (ms name) (ns name)) where
      run_named-Alike :
          (aborted : Bool) (body : lib.Json) (o : Bytes ⊎ Bytes)
          → run_named lib ms request aborted body o ≡ run_named lib ns request aborted body o
      unfolding run_named
      run_named-Alike aborted body (inl detail) = refl
      run_named-Alike aborted body (inr name) =
          run_method-Alike aborted (reply_id lib body) name (lib.find (codes "params") body)
            (alike name)

      run_body-Alike :
          (aborted : Bool) (o : Bytes ⊎ lib.Json)
          → run_body lib ms request aborted o ≡ run_body lib ns request aborted o
      unfolding run_body
      run_body-Alike aborted (inl what) = refl
      run_body-Alike aborted (inr body) = run_named-Alike aborted body _

      -- Methods that are not meant for the caller are not run: a server in which they do anything
      -- else takes each event in the same way, with the same replies.
      pub step-Alike :
          (e : Event lib) (x : Exchange lib) → step lib ms request e x ≡ step lib ns request e x
      unfolding step on_data run_request on_called
      step-Alike (Event.received part last) x =
          rw (run_body-Alike x.aborted (lib.parse (x.buffer ++ part))) refl
      step-Alike Event.disconnected x = refl
      step-Alike Event.stopped x = refl
      step-Alike (Event.called calls) x =
          elim x.writer
            as (λ o. on_called lib ms request x calls o ≡ on_called lib ns request x calls o) [
              | none ↦ refl
              | some w ↦ refl
            ]
