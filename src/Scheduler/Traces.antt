-- ===== src/Scheduler/Traces.antt =====
-- Whole histories of src/sessions/scheduler.cpp.
use porla.Base.{◌≡◌, List, [], ◌∷◌, some}
use porla.Scheduler.{
  State, Event, every_called, start_called, register_called, set_interval_called, trigger_called,
  suspend_called, resume_called, stop_called, wait_ended, job_ended, step, run, init,
}
use porla.Scheduler.Table.{Wait, wait_at}
use porla.Scheduler.Invariant.{IsSound}
use porla.Scheduler.Requests.{
  every-IsSound, start-IsSound, register-IsSound, set_interval-IsSound, trigger-IsSound,
}
use porla.Scheduler.Resuming.{suspend-IsSound, resume-IsSound}
use porla.Scheduler.Running.{FailsFairly, stop-IsSound, complete-IsSound, finish-IsSound}

-- What asio promises of an event: a wait ends with an error only if it was cancelled.
abbrev pub IsFair : Event → State → Type 0
IsFair (wait_ended k failed) s = (w : Wait) → wait_at k s.waits ≡ some w → FailsFairly failed w
IsFair _ s = Unit

abbrev pub AreFair : List Event → State → Type 0
AreFair [] s = Unit
AreFair (ev ∷ evs) s = IsFair ev s × AreFair evs (step ev s)

pub step-IsSound : (ev : Event) (s : State) → IsFair ev s → IsSound s → IsSound (step ev s)
unfolding step
step-IsSound (every_called d t) s f v = every-IsSound d t s v
step-IsSound (start_called t) s f v = start-IsSound t s v
step-IsSound (register_called t) s f v = register-IsSound t s v
step-IsSound (set_interval_called t d) s f v = set_interval-IsSound t d s v
step-IsSound (trigger_called t) s f v = trigger-IsSound t s v
step-IsSound suspend_called s f v = suspend-IsSound s v
step-IsSound resume_called s f v = resume-IsSound s v
step-IsSound stop_called s f v = stop-IsSound s v
step-IsSound (wait_ended k failed) s f v = complete-IsSound k failed s f v
step-IsSound (job_ended i o) s f v = finish-IsSound i o s v

run-IsSound : (evs : List Event) (s : State) → AreFair evs s → IsSound s → IsSound (run evs s)
unfolding run
run-IsSound [] s f v = v
run-IsSound (ev ∷ evs) s f v = run-IsSound evs (step ev s) f.1 (step-IsSound ev s f.0 v)

init-IsSound : IsSound init
unfolding init
init-IsSound = record { bounded = tt; distinct = tt; served = λ h. tt }

-- After any history in which waits fail only when cancelled, the entries have different ids, and
-- while the scheduler is not stopped each of them is served: a scheduled job has a wait that was
-- not cancelled; a periodic or one-off job is scheduled or running; and so is a manual job that was
-- triggered, if nothing suspends the scheduler.
pub run-init-IsSound : (evs : List Event) → AreFair evs init → IsSound (run evs init)
run-init-IsSound evs f = run-IsSound evs init f init-IsSound
