-- ===== src/Http/Flight.antt =====
-- What the transfers of src/curlmulti.cpp keep of the waits in flight.
use porla.Base.{
  ℕ, ◌+◌, ◌≡◌, refl, ap, ◌∙◌, Bool, true, ◌&&◌, List, [], ◌∷◌, Option, none, some, ltb, if_both,
  is_some, length, arith,
}
use porla.Http.{Direction, Code, CurlMulti, Reaction, Message, done, other_message, Answer}
use porla.Http.Sockets.{react_all}
use porla.Http.Transfers.{
  safe_invoke, cleanup, find_transfer, erase_transfer, conclude, finish_transfer, read_messages,
  set_checking, check_completed, set_running, socket_action, emplace, do_add_transfer,
  cancel_transfer, abort_all, detach_all, clear_sockets, shutdown,
}
use porla.Http.Events.{
  is_reads, still_readable, post_drive, after_action, drive_socket, Event, added, cancel, waited,
  timed_out, drive,
}
use porla.Http.Reacting.{react_all-Grows}
use porla.Http.Waiting.{
  Grows, Grows-trans, Grows-more, wired, wired-Grows, Grows-before, Grows-after, stays,
  arm_socket-Grows,
}

-- How many calls libcurl makes in what an event brings.
abbrev pub message_calls : List Message → ℕ
message_calls [] = 0
message_calls (done easy code rs ∷ ms) = length rs + message_calls ms
message_calls (other_message ∷ ms) = message_calls ms

abbrev pub answer_calls : Answer → ℕ
answer_calls a = length a.reactions + message_calls a.messages

abbrev pub event_calls : Event → ℕ
event_calls (added n accepted rs a) = length rs + answer_calls a
event_calls (cancel easy rs) = length rs
event_calls (waited n ec a readable) = answer_calls a
event_calls (timed_out n expired a) = answer_calls a
event_calls (drive n a readable) = answer_calls a
event_calls _ = 0

abbrev pub all_calls : List Event → ℕ
all_calls [] = 0
all_calls (e ∷ es) = event_calls e + all_calls es

wired-safe_invoke :
    (o : Option ℕ) (easy : ℕ) (code : Code) (s : CurlMulti)
    → wired (safe_invoke o easy code s) ≡ wired s
unfolding safe_invoke
wired-safe_invoke none easy code s = refl
wired-safe_invoke (some c) easy code s = refl

wired-conclude : (easy : ℕ) (code : Code) (s : CurlMulti) → wired (conclude easy code s) ≡ wired s
unfolding conclude cleanup
wired-conclude easy code s =
    wired-safe_invoke (find_transfer easy s.transfers) easy code
      (record s { transfers = erase_transfer easy s.transfers })

finish_transfer-Grows :
    (easy : ℕ) (code : Code) (rs : List Reaction) (s : CurlMulti)
    → Grows (length rs) s (finish_transfer easy code rs s)
unfolding finish_transfer
finish_transfer-Grows easy code rs s = Grows-more (length rs + 0) (length rs) s _ (omega arith) (
    Grows-trans (length rs) 0 s (react_all rs s) _ (react_all-Grows rs s)
      (wired-Grows _ _ (wired-conclude easy code (react_all rs s))))

read_messages-Grows :
    (ms : List Message) (s : CurlMulti) → Grows (message_calls ms) s (read_messages ms s)
unfolding read_messages
read_messages-Grows [] s = stays 0 s
read_messages-Grows (other_message ∷ ms) s = read_messages-Grows ms s
read_messages-Grows (done easy code rs ∷ ms) s =
    Grows-trans (length rs) (message_calls ms) s (finish_transfer easy code rs s) _
      (finish_transfer-Grows easy code rs s)
      (read_messages-Grows ms (finish_transfer easy code rs s))

check_completed-Grows :
    (ms : List Message) (s : CurlMulti) → Grows (message_calls ms) s (check_completed ms s)
unfolding check_completed set_checking
check_completed-Grows ms s =
    if_both (Grows (message_calls ms) s) s.is_checking (stays (message_calls ms) s) (
      Grows-before (message_calls ms) s (set_checking true s) _ refl (
        Grows-after (message_calls ms) _ (read_messages ms (set_checking true s)) _
          (read_messages-Grows ms (set_checking true s)) refl))

pub socket_action-Grows :
    (a : Answer) (s : CurlMulti) → Grows (answer_calls a) s (socket_action a s)
unfolding socket_action set_running
socket_action-Grows a s =
    Grows-trans (length a.reactions) (message_calls a.messages) s (react_all a.reactions s) _
      (react_all-Grows a.reactions s)
      (Grows-before (message_calls a.messages) _ (set_running a.running (react_all a.reactions s)) _
        refl (check_completed-Grows a.messages _))

pub do_add_transfer-Grows :
    (easy callback : ℕ) (accepted : Bool) (rs : List Reaction) (a : Answer) (s : CurlMulti)
    → Grows (length rs + answer_calls a) s (do_add_transfer easy callback accepted rs a s)
unfolding do_add_transfer cleanup emplace
do_add_transfer-Grows easy callback accepted rs a s =
    if_both (Grows n s) s.is_shut
      (Grows-after n s s _ (stays n s)
        (wired-safe_invoke (some callback) easy Code.aborted_by_callback s))
      (if_both (Grows n s) (is_some (find_transfer easy s.transfers))
        (Grows-after n s s _ (stays n s)
          (wired-safe_invoke (some callback) easy Code.failed_init s))
        (if_both (Grows n s) accepted
          (Grows-trans (length rs) (answer_calls a) s _ _ put (socket_action-Grows a _))
          (Grows-after n s _ _ (Grows-more (length rs) n s _ (omega arith) put)
            (wired-conclude easy Code.failed_init _))))
  where
    n : ℕ
    n = length rs + answer_calls a

    put : Grows (length rs) s (react_all rs (emplace easy callback s))
    put = Grows-before (length rs) s (emplace easy callback s) _ refl (react_all-Grows rs _)

pub cancel_transfer-Grows :
    (easy : ℕ) (rs : List Reaction) (s : CurlMulti)
    → Grows (length rs) s (cancel_transfer easy rs s)
unfolding cancel_transfer
cancel_transfer-Grows easy rs s = if_both (Grows (length rs) s) s.is_shut (stays (length rs) s) (
    if_both (Grows (length rs) s) (is_some (find_transfer easy s.transfers))
      (finish_transfer-Grows easy Code.aborted_by_callback rs s) (stays (length rs) s))

abort_all-waits : (ts : List (ℕ × ℕ)) (s : CurlMulti) → wired (abort_all ts s) ≡ wired s
unfolding abort_all cleanup
abort_all-waits [] s = refl
abort_all-waits ((easy, c) ∷ ts) s =
    abort_all-waits ts (cleanup easy (safe_invoke (some c) easy Code.aborted_by_callback s))
    ∙ wired-safe_invoke (some c) easy Code.aborted_by_callback s

pub shutdown-Grows : (s : CurlMulti) → Grows 0 s (shutdown s)
unfolding shutdown clear_sockets detach_all
shutdown-Grows s = if_both (Grows 0 s) s.is_shut (stays 0 s) (λ k l a.
    let e = abort_all-waits s.transfers (detach_all s) in
    record {
      few = rw (ap (λ w. w.0) e) (omega (arith, a.few));
      fits = tt;
      fresh = rw (ap (λ w. w.0) e, ap (λ w. w.2) e) a.fresh;
      closed = λ b. refl;
    })

after_action-Grows :
    (sock : ℕ) (d : Direction) (readable : Bool) (s : CurlMulti)
    → Grows 0 s (after_action sock d readable s)
unfolding after_action post_drive
after_action-Grows sock d readable s =
    if_both (Grows 0 s) (is_reads d && (ltb 0 s.running && still_readable sock readable s))
      (wired-Grows s (post_drive sock s) refl) (arm_socket-Grows sock s)

pub drive_socket-Grows :
    (sock : ℕ) (d : Direction) (a : Answer) (readable : Bool) (s : CurlMulti)
    → Grows (answer_calls a) s (drive_socket sock d a readable s)
unfolding drive_socket
drive_socket-Grows sock d a readable s =
    Grows-more (answer_calls a + 0) (answer_calls a) s _ (omega arith) (
      Grows-trans (answer_calls a) 0 s (socket_action a s) _ (socket_action-Grows a s)
        (after_action-Grows sock d readable (socket_action a s)))
