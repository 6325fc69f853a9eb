-- ===== src/Http/Answered.antt =====
-- That src/curlmulti.cpp calls each callback once, over all orders of its events.
use porla.Base.{
  ℕ, zero, suc, ◌+◌, ◌≡◌, refl, sym, ap, ◌∙◌, Bool, true, false, List, [], ◌∷◌, Option, none, some,
  if◌then◌else◌, ◌==◌, is_some, if_both, if_cases, arith,
}
use porla.Http.{
  Direction, reads, Socket, Code, CurlMulti, new_multi, Reaction, Answer, Ended, ready, aborted,
  failed, Wait,
}
use porla.Http.Sockets.{find_socket, react_all}
use porla.Http.Transfers.{
  safe_invoke, cleanup, find_transfer, socket_action, emplace, do_add_transfer, cancel_transfer,
  abort_all, detach_all, clear_sockets, shutdown,
}
use porla.Http.Events.{
  take_at, add_transfer, post_drive, after_action, drive_socket, clear_flag, ended_wait,
  ready_found, on_socket_ready, on_timeout, on_drive, Event, add, added, cancel, waited, timed_out,
  drive, shut_down, run_added, run_waited, run_timed_out, run_drive, step, run,
}
use porla.Http.Balance.{
  calls, count, balance, kept, ends, Keeps, Keeps-refl, Keeps-trans, kept-Keeps, kept-arm_socket,
  due, invoked, invoked_empty, conclude-Keeps, react_all-Keeps, finish_transfer-Keeps,
  socket_action-Keeps,
}

cancel_transfer-Keeps :
    (c easy : ℕ) (rs : List Reaction) (s : CurlMulti) → Keeps c s (cancel_transfer easy rs s)
unfolding cancel_transfer
cancel_transfer-Keeps c easy rs s = if_both (Keeps c s) s.is_shut (Keeps-refl c s) (
    if_both (Keeps c s) (is_some (find_transfer easy s.transfers))
      (finish_transfer-Keeps c easy Code.aborted_by_callback rs s) (Keeps-refl c s))

drive_socket-Keeps :
    (c sock : ℕ) (d : Direction) (a : Answer) (readable : Bool) (s : CurlMulti)
    → Keeps c s (drive_socket sock d a readable s)
unfolding drive_socket after_action post_drive
drive_socket-Keeps c sock d a readable s = Keeps-trans c (socket_action-Keeps c a s) (
    if_both (Keeps c (socket_action a s)) _ (kept-Keeps c _ _ refl)
      (kept-Keeps c _ _ (kept-arm_socket sock (socket_action a s))))

ended_wait-Keeps :
    (c : ℕ) (w : Wait) (ec : Ended) (a : Answer) (readable : Bool) (s : CurlMulti)
    → Keeps c s (ended_wait w ec a readable s)
unfolding ended_wait
ended_wait-Keeps c w aborted a readable s = Keeps-refl c s
ended_wait-Keeps c w failed a readable s = socket_action-Keeps c a s
ended_wait-Keeps c w ready a readable s = drive_socket-Keeps c w.socket w.direction a readable s

ready_found-Keeps :
    (c : ℕ) (o : Option Socket) (w : Wait) (ec : Ended) (a : Answer) (readable : Bool)
    (s : CurlMulti)
    → Keeps c s (ready_found o w ec a readable s)
unfolding ready_found clear_flag
ready_found-Keeps c none w ec a readable s = Keeps-refl c s
ready_found-Keeps c (some r) w ec a readable s =
    if_both (Keeps c s) (r.id == w.id)
      (Keeps-trans c (kept-Keeps c s (clear_flag w s) refl)
        (ended_wait-Keeps c w ec a readable (clear_flag w s)))
      (Keeps-refl c s)

run_waited-Keeps :
    (c : ℕ) (o : Option (Wait × List Wait)) (ec : Ended) (a : Answer) (readable : Bool)
    (s : CurlMulti)
    → Keeps c s (run_waited o ec a readable s)
unfolding run_waited on_socket_ready
run_waited-Keeps c none ec a readable s = Keeps-refl c s
run_waited-Keeps c (some (w, rest)) ec a readable s =
    Keeps-trans c (kept-Keeps c s (record s { waits = rest }) refl) (
      if_both (Keeps c (record s { waits = rest })) s.is_shut (Keeps-refl c _) (
        ready_found-Keeps c (find_socket w.socket s.sockets) w ec a readable
          (record s { waits = rest })))

run_timed_out-Keeps :
    (c : ℕ) (o : Option (ℕ × List ℕ)) (expired : Bool) (a : Answer) (s : CurlMulti)
    → Keeps c s (run_timed_out o expired a s)
unfolding run_timed_out on_timeout
run_timed_out-Keeps c none expired a s = Keeps-refl c s
run_timed_out-Keeps c (some (g, rest)) expired a s =
    let t : CurlMulti = record s { timers = rest } in
    Keeps-trans c (kept-Keeps c s t refl) (
      if_both (Keeps c t) expired
        (if_both (Keeps c t) s.is_shut (Keeps-refl c t)
          (if_both (Keeps c t) (g == s.generation) (socket_action-Keeps c a t) (Keeps-refl c t)))
        (Keeps-refl c t))

run_drive-Keeps :
    (c : ℕ) (o : Option (ℕ × List ℕ)) (a : Answer) (readable : Bool) (s : CurlMulti)
    → Keeps c s (run_drive o a readable s)
unfolding run_drive on_drive
run_drive-Keeps c none a readable s = Keeps-refl c s
run_drive-Keeps c (some (sock, rest)) a readable s =
    let t : CurlMulti = record s { drives = rest } in
    Keeps-trans c (kept-Keeps c s t refl) (
      if_both (Keeps c t) s.is_shut (Keeps-refl c t) (drive_socket-Keeps c sock reads a readable t))

-- What comes in with a call or an event, beside what is kept.
record Gives (c n : ℕ) (s t : CurlMulti) : Type 0 where
  same : balance c t ≡ n + balance c s
  empty : (s.is_shut ≡ true → s.transfers ≡ []) → t.is_shut ≡ true → t.transfers ≡ []

Keeps-Gives : (c : ℕ) {s t : CurlMulti} → Keeps c s t → Gives c 0 s t
Keeps-Gives c k = record { same = omega (arith, k.same); empty = k.empty }

Gives-Keeps : (c : ℕ) {n : ℕ} {s t u : CurlMulti} → Gives c n s t → Keeps c t u → Gives c n s u
Gives-Keeps c g k = record { same = k.same ∙ g.same; empty = λ e. k.empty (g.empty e) }

emplace-Gives :
    (c easy callback : ℕ) (s : CurlMulti)
    → s.is_shut ≡ false
    → Gives c (due c (some callback)) s (emplace easy callback s)
unfolding emplace
emplace-Gives c easy callback s live = record {
  same = omega arith;
  empty = λ e b. let t : true ≡ false = sym b ∙ live in absurd cc;
}

invoked-Gives :
    (c easy callback : ℕ) (code : Code) (s : CurlMulti)
    → Gives c (due c (some callback)) s (cleanup easy (safe_invoke (some callback) easy code s))
invoked-Gives c easy callback code s = record {
  same = invoked c easy code (some callback) s;
  empty = λ e b.
      let p = invoked_empty easy code (some callback) s in
      ap (λ k. k.1) p ∙ e (sym (ap (λ k. k.0) p) ∙ b);
}

refused-Gives :
    (c easy callback : ℕ) (code : Code) (s : CurlMulti)
    → Gives c (due c (some callback)) s (safe_invoke (some callback) easy code s)
unfolding safe_invoke
refused-Gives c easy callback code s = record { same = omega arith; empty = λ e. e }

do_add_transfer-Gives :
    (c easy callback : ℕ) (accepted : Bool) (rs : List Reaction) (a : Answer) (s : CurlMulti)
    → Gives c (due c (some callback)) s (do_add_transfer easy callback accepted rs a s)
unfolding do_add_transfer
do_add_transfer-Gives c easy callback accepted rs a s =
    if_cases G s.is_shut (λ h. invoked-Gives c easy callback Code.aborted_by_callback s)
      (λ h.
        if_both G (is_some (find_transfer easy s.transfers))
          (refused-Gives c easy callback Code.failed_init s)
          (if_both G accepted (Gives-Keeps c (put h) (socket_action-Keeps c a _))
            (Gives-Keeps c (put h) (conclude-Keeps c easy Code.failed_init _))))
  where
    G : CurlMulti → Type 0
    G = Gives c (due c (some callback)) s

    put : s.is_shut ≡ false → G (react_all rs (emplace easy callback s))
    put h =
        Gives-Keeps c (emplace-Gives c easy callback s h)
          (react_all-Keeps c rs (emplace easy callback s))

abort_all-balance :
    (c : ℕ) (ts : List (ℕ × ℕ)) (s : CurlMulti)
    → (balance c (abort_all ts s) ≡ count c ts + balance c s) × (ends (abort_all ts s) ≡ ends s)
unfolding abort_all
abort_all-balance c [] s = (omega arith, refl)
abort_all-balance c ((easy, k) ∷ ts) s =
    let t : CurlMulti = cleanup easy (safe_invoke (some k) easy Code.aborted_by_callback s) in
    let (same, kept) = abort_all-balance c ts t in
    (
      omega (arith, same, invoked c easy Code.aborted_by_callback (some k) s),
      kept ∙ invoked_empty easy Code.aborted_by_callback (some k) s,
    )

shutdown-Keeps : (c : ℕ) (s : CurlMulti) → Keeps c s (shutdown s)
unfolding shutdown clear_sockets detach_all
shutdown-Keeps c s = if_both (Keeps c s) s.is_shut (Keeps-refl c s) (
    let (same, kept) = abort_all-balance c s.transfers (detach_all s) in
    record { same = omega (arith, same); empty = λ e b. ap (λ k. k.1) kept })

-- What is taken from a list counted, and what is left of it.
abbrev Took : ℕ → Option ((ℕ × ℕ) × List (ℕ × ℕ)) → ℕ → Type 0
Took c none m = Unit
Took c (some r) m = m ≡ due c (some r.0.1) + count c r.1

take_at-Took : (c n : ℕ) (xs : List (ℕ × ℕ)) → Took c (take_at n xs) (count c xs)
unfolding take_at
take_at-Took c n [] = tt
take_at-Took c zero (x ∷ xs) = refl
take_at-Took c (suc n) (x ∷ xs) = further (take_at n xs) (take_at-Took c n xs)
  where
    further :
        (o : Option ((ℕ × ℕ) × List (ℕ × ℕ)))
        → Took c o (count c xs)
        → Took c (elim o [ none ↦ none | some r ↦ some (r.0, x ∷ r.1) ]) (count c (x ∷ xs))
    further none t = tt
    further (some r) t = omega (arith, t)

run_added-Keeps :
    (c : ℕ) (o : Option ((ℕ × ℕ) × List (ℕ × ℕ))) (accepted : Bool) (rs : List Reaction)
    (a : Answer) (s : CurlMulti)
    → Took c o (count c s.queued)
    → Keeps c s (run_added o accepted rs a s)
unfolding run_added
run_added-Keeps c none accepted rs a s t = Keeps-refl c s
run_added-Keeps c (some ((easy, callback), rest)) accepted rs a s t =
    let g = do_add_transfer-Gives c easy callback accepted rs a (record s { queued = rest }) in
    record { same = omega (arith, g.same, t); empty = g.empty }

-- How often a callback is handed over with a handle.
abbrev pub handed_over : ℕ → Event → ℕ
handed_over c (add (some easy) callback) = if callback == c then 1 else 0
handed_over c _ = 0

abbrev pub handed : ℕ → List Event → ℕ
handed c [] = 0
handed c (e ∷ es) = handed_over c e + handed c es

step-Gives : (c : ℕ) (e : Event) (s : CurlMulti) → Gives c (handed_over c e) s (step e s)
unfolding step add_transfer
step-Gives c (add none callback) s = Keeps-Gives c (Keeps-refl c s)
step-Gives c (add (some easy) callback) s = record { same = omega arith; empty = λ e. e }
step-Gives c (added n accepted rs a) s =
    Keeps-Gives c (run_added-Keeps c _ accepted rs a s (take_at-Took c n s.queued))
step-Gives c (cancel easy rs) s = Keeps-Gives c (cancel_transfer-Keeps c easy rs s)
step-Gives c (waited n ec a readable) s = Keeps-Gives c (run_waited-Keeps c _ ec a readable s)
step-Gives c (timed_out n expired a) s = Keeps-Gives c (run_timed_out-Keeps c _ expired a s)
step-Gives c (drive n a readable) s = Keeps-Gives c (run_drive-Keeps c _ a readable s)
step-Gives c shut_down s = Keeps-Gives c (shutdown-Keeps c s)

run-Gives : (c : ℕ) (es : List Event) (s : CurlMulti) → Gives c (handed c es) s (run es s)
unfolding run
run-Gives c [] s = Keeps-Gives c (Keeps-refl c s)
run-Gives c (e ∷ es) s =
    let g = step-Gives c e s in
    let h = run-Gives c es (step e s) in
    record { same = omega (arith, g.same, h.same); empty = λ k. h.empty (g.empty k) }

-- Whatever libcurl, the kernel and the event loop do, and in whatever order: a callback has been called exactly
-- as often as it was handed over with a handle, less the times that it still waits with its transfer or in
-- the event loop; and no transfer waits once the client is shut down.
pub calls-run :
    (c : ℕ) (es : List Event)
    → let s = run es new_multi in
      (calls c s.effects + (count c s.transfers + count c s.queued) ≡ handed c es)
      × (s.is_shut ≡ true → s.transfers ≡ [])
calls-run c es = let g = run-Gives c es new_multi in (omega (arith, g.same), g.empty (λ h. refl))
