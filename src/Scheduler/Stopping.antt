-- ===== src/Scheduler/Stopping.antt =====
-- What src/sessions/scheduler.cpp does after `Scheduler::Stop`: it runs no job.
use porla.Base.{
  ℕ, ◌-◌, ◌≡◌, refl, ◌∙◌, Bool, true, false, List, [], ◌∷◌, arith, if◌then◌else◌, Option-cases, inl,
  inr, not, ◌&&◌, ◌||◌, ◌==◌,
}
use porla.Scheduler.{
  State, Outcome, done, again, thrown, Event, every_called, start_called, register_called,
  set_interval_called, trigger_called, suspend_called, resume_called, stop_called, wait_ended,
  job_ended, step, run, add, every, start, register, schedule, set_entry, set_interval,
  set_interval_entry, set_interval_loop, at_entry, trigger, trigger_loop, trigger_entry, suspend,
  resume, resume_loop, resume_entry, stop, complete, expired, finish, finish_entry, after_run,
  pointers,
}
use porla.Scheduler.Table.{
  Entry, Wait, Kind, periodic, once, manual, is_manual, is_periodic, wait_at, find_entry,
}

-- `t` comes after `s`, and no job was run in between.
record RunsNone (s t : State) : Type 0 where
  still : s.stopped ≡ true → t.stopped ≡ true
  silent : s.stopped ≡ true → t.runs ≡ s.runs

RunsNone-refl : (s : State) → RunsNone s s
RunsNone-refl s = record { still = λ h. h; silent = λ h. refl }

RunsNone-trans : {s t u : State} → RunsNone s t → RunsNone t u → RunsNone s u
RunsNone-trans p q = record {
  still = λ h. q.still (p.still h);
  silent = λ h. q.silent (p.still h) ∙ p.silent h;
}

RunsNone-if :
    (b : Bool) {s t u : State} → RunsNone s t → RunsNone s u → RunsNone s (if b then t else u)
RunsNone-if true p q = p
RunsNone-if false p q = q

schedule-RunsNone : (i d : ℕ) (s : State) → RunsNone s (schedule i d s)
unfolding schedule
schedule-RunsNone i d s = record { still = λ h. ground arith; silent = λ h. ground arith }

at_entry-RunsNone :
    (i : ℕ) (body : Entry → State → State) (s : State)
    → ((e : Entry) → RunsNone s (body e s))
    → RunsNone s (at_entry i body s)
unfolding at_entry
at_entry-RunsNone i body s h = elim (Option-cases (find_entry i s.entries)) [
  | inl m ↦ rw (m, at_entry) (RunsNone-refl s)
  | inr (e, m) ↦ rw (m, at_entry) (h e)
]

set_entry-RunsNone : (i : ℕ) (f : Entry → Entry) (s : State) → RunsNone s (set_entry i f s)
unfolding set_entry
set_entry-RunsNone i f s = record { still = λ h. h; silent = λ h. refl }

set_interval_entry-RunsNone :
    (t d : ℕ) (e : Entry) (s : State) → RunsNone s (set_interval_entry t d e s)
unfolding set_interval_entry set_entry
set_interval_entry-RunsNone t d e s =
    RunsNone-if (not (is_periodic e.kind) || not (e.job_type == t)) (RunsNone-refl s) (
      RunsNone-if (e.scheduled && not e.running)
        (RunsNone-trans (record { still = λ h. h; silent = λ h. refl })
          (schedule-RunsNone e.id d _))
        (record { still = λ h. h; silent = λ h. refl }))

set_interval_loop-RunsNone :
    (t d : ℕ) (is : List ℕ) (s : State) → RunsNone s (set_interval_loop t d is s)
unfolding set_interval_loop
set_interval_loop-RunsNone t d [] s = RunsNone-refl s
set_interval_loop-RunsNone t d (i ∷ is) s =
    RunsNone-trans (at_entry-RunsNone i _ s (λ e. set_interval_entry-RunsNone t d e s))
      (set_interval_loop-RunsNone t d is _)

trigger_entry-RunsNone : (e : Entry) (s : State) → RunsNone s (trigger_entry e s)
unfolding trigger_entry
trigger_entry-RunsNone e s =
    RunsNone-if (s.suspends == 0 && (not e.scheduled && not e.running))
      (RunsNone-trans (set_entry-RunsNone e.id _ s) (schedule-RunsNone e.id 0 _))
      (set_entry-RunsNone e.id _ s)

trigger_loop-RunsNone : (t : ℕ) (is : List ℕ) (s : State) → RunsNone s (trigger_loop t is s)
unfolding trigger_loop
trigger_loop-RunsNone t [] s = RunsNone-refl s
trigger_loop-RunsNone t (i ∷ is) s = elim (Option-cases (find_entry i s.entries)) [
  | inl m ↦ rw (m, trigger_loop) (trigger_loop-RunsNone t is s)
  | inr (e, m) ↦
      rw (m, trigger_loop)
        (RunsNone-if (not (is_manual e.kind) || not (e.job_type == t))
          (trigger_loop-RunsNone t is s) (trigger_entry-RunsNone e s))
]

resume_entry-RunsNone : (e : Entry) (s : State) → RunsNone s (resume_entry e s)
unfolding resume_entry
resume_entry-RunsNone e s =
    RunsNone-if (is_manual e.kind && (e.triggered && (not e.scheduled && not e.running)))
      (schedule-RunsNone e.id 0 s) (RunsNone-refl s)

resume_loop-RunsNone : (is : List ℕ) (s : State) → RunsNone s (resume_loop is s)
unfolding resume_loop
resume_loop-RunsNone [] s = RunsNone-refl s
resume_loop-RunsNone (i ∷ is) s =
    RunsNone-trans (at_entry-RunsNone i _ s (λ e. resume_entry-RunsNone e s))
      (resume_loop-RunsNone is _)

resume-RunsNone : (s : State) → RunsNone s (resume s)
unfolding resume
resume-RunsNone s = RunsNone-if (s.suspends == 0) (RunsNone-refl s) (
    RunsNone-if ((s.suspends - 1) == 0)
      (RunsNone-trans (record { still = λ h. h; silent = λ h. refl })
        (resume_loop-RunsNone (pointers s.entries) (record s { suspends = s.suspends - 1 })))
      (record { still = λ h. h; silent = λ h. refl }))

after_run-RunsNone : (k : Kind) (e : Entry) (s : State) → RunsNone s (after_run k e s)
unfolding after_run
after_run-RunsNone periodic e s = schedule-RunsNone e.id e.interval s
after_run-RunsNone once e s = record { still = λ h. h; silent = λ h. refl }
after_run-RunsNone manual e s =
    RunsNone-if (e.triggered && s.suspends == 0) (schedule-RunsNone e.id 0 s) (RunsNone-refl s)

finish_entry-RunsNone : (e : Entry) (o : Outcome) (s : State) → RunsNone s (finish_entry e o s)
unfolding finish_entry
finish_entry-RunsNone e (again d) s =
    RunsNone-if s.stopped (RunsNone-refl s) (schedule-RunsNone e.id d s)
finish_entry-RunsNone e done s =
    RunsNone-if s.stopped (RunsNone-refl s) (after_run-RunsNone e.kind e s)
finish_entry-RunsNone e thrown s =
    RunsNone-if s.stopped (RunsNone-refl s) (after_run-RunsNone e.kind e s)

finish-RunsNone : (i : ℕ) (o : Outcome) (s : State) → RunsNone s (finish i o s)
unfolding finish
finish-RunsNone i o s = elim (Option-cases (find_entry i s.entries)) [
  | inl m ↦ rw (m, finish) (RunsNone-refl s)
  | inr (e, m) ↦
      rw (m, finish) (RunsNone-trans (set_entry-RunsNone i _ s) (finish_entry-RunsNone e o _))
]

-- A wait that ends after the stop starts nothing.
expired-RunsNone : (failed : Bool) (w : Wait) (s : State) → RunsNone s (expired failed w s)
unfolding expired
expired-RunsNone true w s = RunsNone-refl s
expired-RunsNone false w s = record { still = λ h. ground arith; silent = λ h. ground arith }

complete-RunsNone : (k : ℕ) (failed : Bool) (s : State) → RunsNone s (complete k failed s)
unfolding complete
complete-RunsNone k failed s = elim (Option-cases (wait_at k s.waits)) [
  | inl m ↦ rw (m, complete) (RunsNone-refl s)
  | inr (w, m) ↦
      rw (m, complete)
        (RunsNone-trans (record { still = λ h. h; silent = λ h. refl })
          (expired-RunsNone failed w _))
]

step-RunsNone : (ev : Event) (s : State) → RunsNone s (step ev s)
unfolding step every start register add set_interval trigger suspend stop
step-RunsNone (every_called d t) s =
    RunsNone-trans (record { still = λ h. h; silent = λ h. refl }) (schedule-RunsNone _ d _)
step-RunsNone (start_called t) s =
    RunsNone-trans (record { still = λ h. h; silent = λ h. refl }) (schedule-RunsNone _ 0 _)
step-RunsNone (register_called t) s = record { still = λ h. h; silent = λ h. refl }
step-RunsNone (set_interval_called t d) s = set_interval_loop-RunsNone t d (pointers s.entries) s
step-RunsNone (trigger_called t) s = trigger_loop-RunsNone t (pointers s.entries) s
step-RunsNone suspend_called s = record { still = λ h. h; silent = λ h. refl }
step-RunsNone resume_called s = resume-RunsNone s
step-RunsNone stop_called s =
    RunsNone-if s.stopped (RunsNone-refl s) (record { still = λ h. refl; silent = λ h. refl })
step-RunsNone (wait_ended k failed) s = complete-RunsNone k failed s
step-RunsNone (job_ended i o) s = finish-RunsNone i o s

run-RunsNone : (evs : List Event) (s : State) → RunsNone s (run evs s)
unfolding run
run-RunsNone [] s = RunsNone-refl s
run-RunsNone (ev ∷ evs) s = RunsNone-trans (step-RunsNone ev s) (run-RunsNone evs (step ev s))

stop_lem : (s : State) → ((stop s).stopped ≡ true) × ((stop s).runs ≡ s.runs)
unfolding stop
stop_lem s = ground arith

-- Once `Stop` was called no job is run, whatever happens then.
runs-run_stop : (s : State) (evs : List Event) → (run evs (stop s)).runs ≡ s.runs
runs-run_stop s evs =
    let (still, same) = stop_lem s in (run-RunsNone evs (stop s)).silent still ∙ same
