-- ===== src/Rpc/Silence.antt =====
-- What a request of src/rpc/jsonrpc.cpp sends once its connection is gone.
use porla.Base.{
  ◌≡◌, refl, ap₂, true, false, inl, inr, List, [], ◌∷◌, ◌++◌, Option, Option-cases, Bytes, arith,
}
use porla.Rpc.{Library, Part, Call, Writer, write, write_all}
use porla.Rpc.Handler.{Opened, Entry}
use porla.Rpc.Exchange.{
  Exchange, Event, fresh, run_request, on_data, on_called, step, MayOccur, Run, here, next,
}

module _ (lib : Library) where
  abbrev IsGone : Exchange lib → Type 0
  IsGone x = (x.aborted ≡ true) × (x.receiving ≡ false)

  write_all-aborted :
      (calls : List (Call lib)) (w : Writer lib) → (write_all lib true calls w).1 ≡ []
  unfolding write_all write
  write_all-aborted [] w = refl
  write_all-aborted (Call.error code message extra ∷ calls) w = write_all-aborted calls w
  write_all-aborted (Call.header key value ∷ calls) w = write_all-aborted calls w
  write_all-aborted (Call.ok result ∷ calls) w = write_all-aborted calls w

  module _ (methods : Bytes → Option (Entry lib)) (request : Opened) where
    -- An exchange that is gone hears no more data, stays gone, and has sent what it sends.
    step-IsGone :
        (e : Event lib) (x : Exchange lib)
        → MayOccur lib methods request e x
        → IsGone x
        → ((step lib methods request e x).1 ≡ []) × IsGone ((step lib methods request e x).0)
    unfolding step on_called
    step-IsGone (Event.received part last) x m g = absurd (ground (arith, m, g.1))
    step-IsGone Event.disconnected x m g = (refl, (refl, refl))
    step-IsGone Event.stopped x m g = (refl, g)
    step-IsGone (Event.called calls) x m g = elim (Option-cases x.writer) [
      | inl e ↦ rw e (refl, g)
      | inr (w, e) ↦ rw (e, g.0) (write_all-aborted calls w, (refl, g.1))
    ]

    abbrev IsDone : Exchange lib → Type 0
    IsDone x = x.aborted ≡ true → x.receiving ≡ false

    step-IsDone :
        (e : Event lib) (x : Exchange lib) → IsDone x → IsDone ((step lib methods request e x).0)
    unfolding step on_called on_data run_request
    step-IsDone (Event.received part last) x d = ground (arith, d)
    step-IsDone Event.disconnected x d = λ _. refl
    step-IsDone Event.stopped x d = d
    step-IsDone (Event.called calls) x d = elim (Option-cases x.writer) [
      | inl e ↦ rw e d
      | inr (w, e) ↦ rw e d
    ]

    Run-IsDone :
        {x z : Exchange lib} {parts : List Part}
        → IsDone x
        → Run lib methods request x parts z
        → IsDone z
    Run-IsDone d here = d
    Run-IsDone d (next {parts} {y} run e m) = step-IsDone e y (Run-IsDone d run)

    Run-IsGone :
        {x z : Exchange lib} {parts : List Part}
        → IsGone x
        → Run lib methods request x parts z
        → (parts ≡ []) × IsGone z
    Run-IsGone g here = (refl, g)
    Run-IsGone g (next {parts} {y} run e m) =
        let (p, h) = Run-IsGone g run in let (q, k) = step-IsGone e y m h in (ap₂ ◌++◌ p q, k)

    -- Once a request's connection is gone, or has been cut off, nothing is sent on it any more.
    pub Run-silent :
        {y z : Exchange lib} {before after : List Part}
        → Run lib methods request (fresh lib) before y
        → y.aborted ≡ true
        → Run lib methods request y after z
        → after ≡ []
    Run-silent {y} run a run' = (Run-IsGone (a, Run-IsDone (λ h. absurd cc) run a) run').0
