-- ===== src/Examples/HttpRuns.antt =====
-- src/curlmulti.cpp: a transfer that is served, one that is left when the client is shut down, and a body.
use porla.Base.{◌+◌, ◌≡◌, refl, true, false, List, [], ◌∷◌, some, arith}
use porla.Http.{
  poll_inout, writes, Socket, ok, aborted_by_callback, called, cleaned, new_multi, socket_update,
  timer_update, done, Answer, ready,
}
use porla.Http.Sockets.{
  find_socket, change_socket, arm, arm_found, arm_socket, register, set_action, update_found,
  on_socket_update, timer_callback, react, react_all,
}
use porla.Http.Transfers.{
  safe_invoke, cleanup, find_transfer, erase_transfer, conclude, finish_transfer, read_messages,
  set_checking, check_completed, set_running, socket_action, emplace, do_add_transfer, abort_all,
  detach_all, clear_sockets, shutdown,
}
use porla.Http.Events.{
  Event, add, added, waited, shut_down, take_at, add_transfer, readable_found, still_readable,
  post_drive, after_action, drive_socket, clear_flag, ended_wait, ready_found, on_socket_ready,
  run_added, run_waited, step, run,
}
use porla.Http.Answered.{calls-run}
use porla.Http.Balance.{calls, count}
use porla.Http.Armed.{pending}
use porla.Http.Stepping.{pending-run}
use porla.Http.Body.{receive, Received, receive-Received}

abbrev quiet : Answer
quiet = record { reactions = []; running = 2; messages = [] }

-- The first transfer ends when its socket is ready.
abbrev served : Answer
served = record { reactions = []; running = 1; messages = done 70 ok [] ∷ [] }

abbrev some_events : List Event
some_events =
    add (some 70) 1
    ∷ add (some 80) 2
    ∷ added 1 true (socket_update 4 poll_inout true ∷ timer_update (some 0) ∷ []) quiet
    ∷ added 0 true [] quiet
    ∷ waited 1 ready served true
    ∷ []

calls-run_example :
    (calls 2 (run some_events new_multi).effects
        + (count 2 (run some_events new_multi).transfers
            + count 2 (run some_events new_multi).queued)
      ≡ 1)
    × ((run some_events new_multi).is_shut ≡ true → (run some_events new_multi).transfers ≡ [])
calls-run_example = calls-run 2 some_events

abbrev some_socket : Socket
some_socket = record { socket = 4; id = 1; action = poll_inout; reading = false; writing = true }

pending-run_example : pending (run some_events new_multi).waits 4 1 writes ≡ 1
unfolding find_socket change_socket arm arm_found arm_socket register set_action update_found
    on_socket_update timer_callback react react_all safe_invoke cleanup find_transfer erase_transfer
    conclude finish_transfer read_messages set_checking check_completed set_running socket_action
    emplace do_add_transfer abort_all detach_all clear_sockets shutdown take_at add_transfer
    readable_found still_readable post_drive after_action drive_socket clear_flag ended_wait
    ready_found on_socket_ready run_added run_waited step run
pending-run_example = pending-run some_events (omega arith) 4 some_socket refl writes

receive-Received_example :
    Received ((1 ∷ 2 ∷ []) ∷ (3 ∷ []) ∷ []) [] (receive ((1 ∷ 2 ∷ []) ∷ (3 ∷ []) ∷ []) [])
receive-Received_example = receive-Received ((1 ∷ 2 ∷ []) ∷ (3 ∷ []) ∷ [])

shut_down_runs :
    (run (add (some 70) 1 ∷ added 0 true [] quiet ∷ shut_down ∷ []) new_multi).effects
    ≡ cleaned 70 ∷ called 1 70 aborted_by_callback ∷ []
unfolding find_socket change_socket arm arm_found arm_socket register set_action update_found
    on_socket_update timer_callback react react_all safe_invoke cleanup find_transfer erase_transfer
    conclude finish_transfer read_messages set_checking check_completed set_running socket_action
    emplace do_add_transfer abort_all detach_all clear_sockets shutdown take_at add_transfer
    readable_found still_readable post_drive after_action drive_socket clear_flag ended_wait
    ready_found on_socket_ready run_added run_waited step run
shut_down_runs = refl
