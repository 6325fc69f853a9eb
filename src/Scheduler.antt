-- ===== src/Scheduler.antt =====
-- src/sessions/scheduler.cpp: the jobs of one session, on its io thread.
-- A state holds the entries, the waits that are outstanding on their timers, and a log of the jobs
-- that were run. asio is the environment: it ends each wait once, with an error only after the
-- timer was cancelled or set anew. The result of a job is part of the event that ends its run, and
-- what a job asks of the scheduler stands between the two events of its run.
pub mod Table
pub mod Ids
pub mod Invariant
pub mod Requests
pub mod Resuming
pub mod Running
pub mod Traces
pub mod Stopping
pub mod Suspending
use Table.{
  Kind, periodic, once, manual, Entry, Wait, is_manual, is_periodic, find_entry, update_entry,
  erase_entry, arm, cancel, remove_wait, wait_at,
}
use porla.Base.{
  ℕ, suc, ◌+◌, ◌-◌, Bool, true, false, not, ◌&&◌, ◌||◌, List, [], ◌∷◌, ◌++◌, Option, none, some,
  ◌==◌, if◌then◌else◌, map,
}

pub record State : Type 0 where
  pub entries : List Entry
  pub waits : List Wait
  pub suspends : ℕ
  pub stopped : Bool
  pub next_id : ℕ
  pub runs : List ℕ

-- `Job::Result`, or an exception.
pub data Outcome : Type 0 where
  done : Outcome
  again : ℕ → Outcome
  thrown : Outcome

unfoldable pub set_entry : ℕ → (Entry → Entry) → State → State
set_entry i f s = record s { entries = update_entry i f s.entries }

-- `Schedule`: `expires_after` cancels the wait before, if there is one.
unfoldable pub schedule : ℕ → ℕ → State → State
unfolding set_entry
schedule i delay s = if s.stopped then s else record s {
  entries = update_entry i (λ e. record e { scheduled = true }) s.entries;
  waits = arm i delay s.waits;
}

unfoldable pub new_entry : ℕ → Kind → ℕ → ℕ → Entry
new_entry id kind interval job_type = record {
  id = id;
  kind = kind;
  job_type = job_type;
  interval = interval;
  scheduled = false;
  running = false;
  triggered = false;
}

unfoldable pub add : Kind → ℕ → ℕ → State → State
unfolding new_entry
add kind interval job_type s = record s {
  entries = s.entries ++ new_entry s.next_id kind interval job_type ∷ [];
  next_id = s.next_id + 1;
}

unfoldable pub every : ℕ → ℕ → State → State
every interval job_type s = schedule s.next_id interval (add periodic interval job_type s)

unfoldable pub start : ℕ → State → State
start job_type s = schedule s.next_id 0 (add once 0 job_type s)

unfoldable pub register : ℕ → State → State
register job_type s = add manual 0 job_type s

-- The pointers that a loop over `entries` follows, and a loop's access to the entry behind one.
abbrev pub pointers : List Entry → List ℕ
pointers = map (λ e. e.id)

unfoldable pub at_entry : ℕ → (Entry → State → State) → State → State
at_entry i body s = elim (find_entry i s.entries) [ none ↦ s | some e ↦ body e s ]

unfoldable pub set_interval_entry : ℕ → ℕ → Entry → State → State
set_interval_entry job_type interval e s =
    if not (is_periodic e.kind) || not (e.job_type == job_type)
    then s
    else let s' = set_entry e.id (λ x. record x { interval = interval }) s in
      if e.scheduled && not e.running
      then schedule e.id interval (record s' { waits = cancel e.id s'.waits })
      else s'

unfoldable pub set_interval_loop : ℕ → ℕ → List ℕ → State → State
set_interval_loop job_type interval [] s = s
set_interval_loop job_type interval (i ∷ is) s =
    set_interval_loop job_type interval is (at_entry i (set_interval_entry job_type interval) s)

unfoldable pub set_interval : ℕ → ℕ → State → State
set_interval job_type interval s = set_interval_loop job_type interval (pointers s.entries) s

unfoldable pub trigger_entry : Entry → State → State
trigger_entry e s =
    let s' = set_entry e.id (λ x. record x { triggered = true }) s in
    if s.suspends == 0 && (not e.scheduled && not e.running) then schedule e.id 0 s' else s'

-- Only the first manual entry of the type is triggered.
unfoldable pub trigger_loop : ℕ → List ℕ → State → State
trigger_loop job_type [] s = s
trigger_loop job_type (i ∷ is) s =
    let rest = trigger_loop job_type is s in
    elim (find_entry i s.entries) [
      | none ↦ rest
      | some e ↦
          if not (is_manual e.kind) || not (e.job_type == job_type) then rest else trigger_entry e s
    ]

unfoldable pub trigger : ℕ → State → State
trigger job_type s = trigger_loop job_type (pointers s.entries) s

unfoldable pub suspend : State → State
suspend s = record s { suspends = s.suspends + 1 }

unfoldable pub resume_entry : Entry → State → State
resume_entry e s =
    if is_manual e.kind && (e.triggered && (not e.scheduled && not e.running))
    then schedule e.id 0 s
    else s

unfoldable pub resume_loop : List ℕ → State → State
resume_loop [] s = s
resume_loop (i ∷ is) s = resume_loop is (at_entry i resume_entry s)

unfoldable pub resume : State → State
resume s =
    if s.suspends == 0
    then s
    else let s' = record s { suspends = s.suspends - 1 } in
      if s'.suspends == 0 then resume_loop (pointers s'.entries) s' else s'

unfoldable pub stop_loop : List Entry → List Wait → List Wait
stop_loop [] waits = waits
stop_loop (e ∷ es) waits = stop_loop es (cancel e.id waits)

-- `Stop`. The calls that `Job::Stopped` makes on the scheduler are later events: since `stopped` is
-- set, they arm nothing.
unfoldable pub stop : State → State
stop s = if s.stopped then s else record s { stopped = true; waits = stop_loop s.entries s.waits }

-- The first half of `Run`, up to the call of the job.
unfoldable pub begin_run : ℕ → State → State
begin_run i s = record s {
  entries =
      update_entry i (λ e. record e { scheduled = false; running = true; triggered = false })
        s.entries;
  runs = i ∷ s.runs;
}

-- The handler of a wait: `failed` is its error code.
unfoldable pub expired : Bool → Wait → State → State
expired failed w s =
    if failed || s.stopped
    then s
    else elim (find_entry w.entry s.entries) [ none ↦ s | some e ↦ begin_run w.entry s ]

unfoldable pub complete : ℕ → Bool → State → State
complete k failed s = elim (wait_at k s.waits) [
  | none ↦ s
  | some w ↦ expired failed w (record s { waits = remove_wait k s.waits })
]

-- The `switch` on the kind of the entry.
unfoldable pub after_run : Kind → Entry → State → State
after_run periodic e s = schedule e.id e.interval s
after_run once e s = record s { entries = erase_entry e.id s.entries }
after_run manual e s = if e.triggered && s.suspends == 0 then schedule e.id 0 s else s

-- The second half of `Run`, from the return of the job.
unfoldable pub finish_entry : Entry → Outcome → State → State
finish_entry e (again delay) s = if s.stopped then s else schedule e.id delay s
finish_entry e done s = if s.stopped then s else after_run e.kind e s
finish_entry e thrown s = if s.stopped then s else after_run e.kind e s

unfoldable pub finish : ℕ → Outcome → State → State
finish i outcome s = elim (find_entry i s.entries) [
  | none ↦ s
  | some e ↦ finish_entry e outcome (set_entry i (λ x. record x { running = false }) s)
]

pub data Event : Type 0 where
  every_called : ℕ → ℕ → Event
  start_called : ℕ → Event
  register_called : ℕ → Event
  set_interval_called : ℕ → ℕ → Event
  trigger_called : ℕ → Event
  suspend_called resume_called stop_called : Event
  wait_ended : ℕ → Bool → Event
  job_ended : ℕ → Outcome → Event

unfoldable pub step : Event → State → State
step (every_called interval job_type) s = every interval job_type s
step (start_called job_type) s = start job_type s
step (register_called job_type) s = register job_type s
step (set_interval_called job_type interval) s = set_interval job_type interval s
step (trigger_called job_type) s = trigger job_type s
step suspend_called s = suspend s
step resume_called s = resume s
step stop_called s = stop s
step (wait_ended k failed) s = complete k failed s
step (job_ended i outcome) s = finish i outcome s

unfoldable pub init : State
init = record { entries = []; waits = []; suspends = 0; stopped = false; next_id = 0; runs = [] }

unfoldable pub run : List Event → State → State
run [] s = s
run (ev ∷ evs) s = run evs (step ev s)
