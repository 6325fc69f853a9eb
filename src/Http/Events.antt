-- ===== src/Http/Events.antt =====
-- What the event loop runs of src/curlmulti.cpp: the calls of its users, and the handlers that it holds.
use porla.Base.{
  ℕ, zero, suc, Bool, true, false, ◌&&◌, List, [], ◌∷◌, Option, none, some, if◌then◌else◌, ◌==◌,
  ltb,
}
use porla.Http.{
  Direction, reads, writes, Socket, Wait, CurlMulti, Reaction, Answer, Ended, ready, aborted,
  failed,
}
use porla.Http.Sockets.{wants, set_flag, find_socket, change_socket, arm_socket}
use porla.Http.Transfers.{socket_action, do_add_transfer, cancel_transfer, shutdown}

-- A place of a list: the element that stands there, and the list without it.
unfoldable pub take_at : {A : Type 0} → ℕ → List A → Option (A × List A)
take_at n [] = none
take_at zero (x ∷ xs) = some (x, xs)
take_at (suc n) (x ∷ xs) = elim (take_at n xs) [ none ↦ none | some r ↦ some (r.0, x ∷ r.1) ]

-- `AddTransfer`: a null handle is dropped.
unfoldable pub add_transfer : Option ℕ → ℕ → CurlMulti → CurlMulti
add_transfer none callback s = s
add_transfer (some easy) callback s = record s { queued = (easy, callback) ∷ s.queued }

-- `StillReadable`, with the answer of `poll`.
unfoldable pub readable_found : Bool → Option Socket → Bool
readable_found answer none = false
readable_found answer (some r) = wants r.action reads && answer

unfoldable pub still_readable : ℕ → Bool → CurlMulti → Bool
still_readable sock answer s = readable_found answer (find_socket sock s.sockets)

abbrev pub is_reads : Direction → Bool
is_reads reads = true
is_reads writes = false

unfoldable pub post_drive : ℕ → CurlMulti → CurlMulti
post_drive sock s = record s { drives = sock ∷ s.drives }

-- `DriveSocket`, after its `SocketAction`.
unfoldable pub after_action : ℕ → Direction → Bool → CurlMulti → CurlMulti
after_action sock mask readable s =
    if is_reads mask && (ltb 0 s.running && still_readable sock readable s)
    then post_drive sock s
    else arm_socket sock s

unfoldable pub drive_socket : ℕ → Direction → Answer → Bool → CurlMulti → CurlMulti
drive_socket sock mask a readable s = after_action sock mask readable (socket_action a s)

-- `OnSocketReady`, where the socket has been found.
unfoldable pub clear_flag : Wait → CurlMulti → CurlMulti
clear_flag w s = record s {
  sockets = change_socket w.socket (set_flag w.direction false) s.sockets;
}

unfoldable pub ended_wait : Wait → Ended → Answer → Bool → CurlMulti → CurlMulti
ended_wait w aborted a readable s = s
ended_wait w failed a readable s = socket_action a s
ended_wait w ready a readable s = drive_socket w.socket w.direction a readable s

unfoldable pub ready_found : Option Socket → Wait → Ended → Answer → Bool → CurlMulti → CurlMulti
ready_found none w ec a readable s = s
ready_found (some r) w ec a readable s =
    if r.id == w.id then ended_wait w ec a readable (clear_flag w s) else s

unfoldable pub on_socket_ready : Wait → Ended → Answer → Bool → CurlMulti → CurlMulti
on_socket_ready w ec a readable s =
    if s.is_shut then s else ready_found (find_socket w.socket s.sockets) w ec a readable s

-- The handler of the timer and `OnTimeout`.
unfoldable pub on_timeout : ℕ → Bool → Answer → CurlMulti → CurlMulti
on_timeout generation expired a s =
    if expired
    then if s.is_shut then s else if generation == s.generation then socket_action a s else s
    else s

-- The handler that `DriveSocket` posts.
unfoldable pub on_drive : ℕ → Answer → Bool → CurlMulti → CurlMulti
on_drive sock a readable s = if s.is_shut then s else drive_socket sock reads a readable s

-- A call of a user, or the place of the handler that runs with what comes of it.
pub data Event : Type 0 where
  add : Option ℕ → ℕ → Event
  added : ℕ → Bool → List Reaction → Answer → Event
  cancel : ℕ → List Reaction → Event
  waited : ℕ → Ended → Answer → Bool → Event
  timed_out : ℕ → Bool → Answer → Event
  drive : ℕ → Answer → Bool → Event
  shut_down : Event

unfoldable pub run_added :
    Option ((ℕ × ℕ) × List (ℕ × ℕ)) → Bool → List Reaction → Answer → CurlMulti → CurlMulti
run_added none accepted reactions a s = s
run_added (some ((easy, callback), rest)) accepted reactions a s =
    do_add_transfer easy callback accepted reactions a (record s { queued = rest })

unfoldable pub run_waited :
    Option (Wait × List Wait) → Ended → Answer → Bool → CurlMulti → CurlMulti
run_waited none ec a readable s = s
run_waited (some (w, rest)) ec a readable s =
    on_socket_ready w ec a readable (record s { waits = rest })

unfoldable pub run_timed_out : Option (ℕ × List ℕ) → Bool → Answer → CurlMulti → CurlMulti
run_timed_out none expired a s = s
run_timed_out (some (generation, rest)) expired a s =
    on_timeout generation expired a (record s { timers = rest })

unfoldable pub run_drive : Option (ℕ × List ℕ) → Answer → Bool → CurlMulti → CurlMulti
run_drive none a readable s = s
run_drive (some (sock, rest)) a readable s = on_drive sock a readable (record s { drives = rest })

unfoldable pub step : Event → CurlMulti → CurlMulti
step (add easy callback) s = add_transfer easy callback s
step (added n accepted reactions a) s = run_added (take_at n s.queued) accepted reactions a s
step (cancel easy reactions) s = cancel_transfer easy reactions s
step (waited n ec a readable) s = run_waited (take_at n s.waits) ec a readable s
step (timed_out n expired a) s = run_timed_out (take_at n s.timers) expired a s
step (drive n a readable) s = run_drive (take_at n s.drives) a readable s
step shut_down s = shutdown s

unfoldable pub run : List Event → CurlMulti → CurlMulti
run [] s = s
run (e ∷ es) s = run es (step e s)
