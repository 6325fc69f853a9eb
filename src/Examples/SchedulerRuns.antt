-- ===== src/Examples/SchedulerRuns.antt =====
-- src/sessions/scheduler.cpp at concrete histories.
use porla.Base.{◌≡◌, refl, false, List, [], ◌∷◌}
use porla.Scheduler.{
  Event, init, run, step, suspend, resume, trigger, complete, done, every_called, register_called,
  trigger_called, suspend_called, resume_called, wait_ended, job_ended, every, register, schedule,
  add, new_entry, set_entry, trigger_loop, trigger_entry, expired, begin_run, resume_loop, at_entry,
  resume_entry, finish, finish_entry, after_run,
}
use porla.Scheduler.Table.{
  find_entry, update_entry, wait_at, remove_wait, arm, cancel, cancel_wait, is_manual,
}
use porla.Scheduler.Invariant.{IsSound}
use porla.Scheduler.Traces.{AreFair, run-init-IsSound}

-- A periodic job of type 1 and a manual job of type 2, which is triggered while suspended.
abbrev history : List Event
history =
    every_called 500 1
    ∷ register_called 2
    ∷ suspend_called
    ∷ trigger_called 2
    ∷ wait_ended 0 false
    ∷ resume_called
    ∷ job_ended 0 done
    ∷ []

-- The periodic job ran; it is scheduled again, and so is the manual job.
history_runs : (run history init).runs ≡ 0 ∷ []
unfolding run init step every register schedule add new_entry set_entry suspend trigger trigger_loop
    trigger_entry complete expired begin_run resume resume_loop at_entry resume_entry finish
    finish_entry after_run find_entry update_entry wait_at remove_wait arm cancel cancel_wait
    is_manual
history_runs = refl

history_fair : AreFair history init
history_fair = (tt, (tt, (tt, (tt, ((λ w m e. cc), (tt, (tt, tt)))))))

run-init-IsSound_example : IsSound (run history init)
run-init-IsSound_example = run-init-IsSound history history_fair
