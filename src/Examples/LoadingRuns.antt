-- ===== src/Examples/LoadingRuns.antt =====
-- src/sessions/jobs/loadtorrents.cpp where chunks throw, and where a call outside the chunks does.
use porla.Base.{ℕ, zero, suc, refl, ◌≡◌, true, false, List, [], ◌∷◌, ◌++◌, none, some, arith}
use porla.Loading.{
  Chunk, read, thrown, JobCall, run_call, stop_call, new_job, perform_all, run_until, Turn,
  no_fault, reconcile_throws, done, raised, run_job, run_counted, after_chunk, finish, reconcile,
  publish_loaded, complete, retry_delay,
}
use porla.Loading.Completing.{HasEnded, run_until-HasEnded}
use porla.Loading.Finishing.{callbacks}
use porla.Loading.Calling.{callbacks-perform_all}

abbrev turn_with : Chunk → Turn
turn_with chunk = record { stored = some 100; chunk = chunk; fault = no_fault }

abbrev failing : ℕ → List Turn → List Turn
failing zero turns = turns
failing (suc n) turns = turn_with (thrown 0) ∷ failing n turns

abbrev some_turns : List Turn
some_turns =
    turn_with (thrown 3)
    ∷ turn_with (read 97 true)
    ∷ failing 8 (turn_with (read 0 false) ∷ failing 7 [])

run_until-HasEnded_example : HasEnded some_turns (run_until some_turns new_job)
run_until-HasEnded_example = run_until-HasEnded some_turns (omega arith)

-- Its job is done, after eight failures in a row.
some_turns_done : (run_until some_turns new_job).2 ≡ done
unfolding run_until run_job run_counted after_chunk finish reconcile publish_loaded complete
    retry_delay
some_turns_done = refl

-- If `ReconcileTorrents` throws, the job ends without its callback.
abbrev unlucky_turns : List Turn
unlucky_turns = record { stored = some 3; chunk = read 3 false; fault = reconcile_throws } ∷ []

unlucky_turns_raised :
    run_until unlucky_turns new_job ≡ (record new_job { count = some 3; loaded = 3 }, [], raised)
unfolding run_until run_job run_counted after_chunk finish reconcile
unlucky_turns_raised = refl

abbrev some_calls : List JobCall
some_calls =
    run_call (record { stored = none; chunk = thrown 0; fault = no_fault })
    ∷ run_call (turn_with (read 100 true))
    ∷ run_call (record { stored = none; chunk = read 0 false; fault = reconcile_throws })
    ∷ []

callbacks-perform_all_example : callbacks (perform_all (some_calls ++ stop_call ∷ []) new_job).1 ≡ 1
callbacks-perform_all_example = callbacks-perform_all some_calls
