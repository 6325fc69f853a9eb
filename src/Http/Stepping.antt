-- ===== src/Http/Stepping.antt =====
-- That src/curlmulti.cpp has at most one wait in flight for a socket in a direction, over all orders of its
-- events.
use porla.Base.{
  ℕ, ◌+◌, ◌^◌, ◌<◌, ◌≡◌, refl, sym, ap, ◌∙◌, subst, Bool, true, false, List, [], ◌∷◌, Option, none,
  some, some-injective, if◌then◌else◌, ◌==◌, ==_iff, if_both, if_cases, length, arith,
}
use porla.Http.{
  Direction, reads, Socket, Wait, CurlMulti, new_multi, Answer, Ended, ready, aborted, failed,
}
use porla.Http.Sockets.{flag, find_socket}
use porla.Http.Events.{
  take_at, add_transfer, clear_flag, ended_wait, ready_found, on_socket_ready, on_timeout, on_drive,
  Event, add, added, cancel, waited, timed_out, drive, shut_down, run_added, run_waited,
  run_timed_out, run_drive, step, run,
}
use porla.Http.Armed.{pending, find_socket-below, find_socket-pending}
use porla.Http.Waiting.{IsArmed, Grows, Grows-trans, wired-Grows, Grows-before, stays}
use porla.Http.Flight.{
  answer_calls, event_calls, all_calls, socket_action-Grows, do_add_transfer-Grows,
  cancel_transfer-Grows, shutdown-Grows, drive_socket-Grows,
}
use porla.Http.Ending.{without, Took, take_at-Took, gone-IsArmed, cleared-IsArmed}

ended_wait-Grows :
    (w : Wait) (ec : Ended) (a : Answer) (readable : Bool) (s : CurlMulti)
    → Grows (answer_calls a) s (ended_wait w ec a readable s)
unfolding ended_wait
ended_wait-Grows w aborted a readable s = stays (answer_calls a) s
ended_wait-Grows w failed a readable s = socket_action-Grows a s
ended_wait-Grows w ready a readable s = drive_socket-Grows w.socket w.direction a readable s

ready_found-Grows :
    (w : Wait) (rest : List Wait) (ec : Ended) (a : Answer) (readable : Bool) (s : CurlMulti)
    (o : Option Socket)
    → Took s.waits (some (w, rest))
    → find_socket w.socket s.sockets ≡ o
    → Grows (answer_calls a) s (ready_found o w ec a readable (without rest s))
unfolding ready_found
ready_found-Grows w rest ec a readable s none t e k l i =
    stays (answer_calls a) (without rest s) k l
      (gone-IsArmed k s w rest t (λ r f. let u : none ≡ some r = sym e ∙ f in absurd cc) i)
ready_found-Grows w rest ec a readable s (some r) t e k l i =
    if_cases (IsArmed (k + answer_calls a)) (r.id == w.id)
      (λ h.
        ended_wait-Grows w ec a readable (clear_flag w (without rest s)) k l
          (cleared-IsArmed k s w rest r t e ((==_iff r.id w.id).0 h) i))
      (λ h. stays (answer_calls a) (without rest s) k l (
        gone-IsArmed k s w rest t
          (λ q f n.
            let same : q ≡ r = some-injective (sym f ∙ e) in
            let u : true ≡ false = sym ((==_iff r.id w.id).1 (ap (λ x. x.id) (sym same) ∙ n)) ∙ h in
            absurd cc)
          i))

run_waited-Grows :
    (o : Option (Wait × List Wait)) (ec : Ended) (a : Answer) (readable : Bool) (s : CurlMulti)
    → Took s.waits o
    → Grows (answer_calls a) s (run_waited o ec a readable s)
unfolding run_waited on_socket_ready
run_waited-Grows none ec a readable s t = stays (answer_calls a) s
run_waited-Grows (some (w, rest)) ec a readable s t =
    if_cases (Grows (answer_calls a) s) s.is_shut
      (λ h k l i. stays (answer_calls a) (without rest s) k l (
        gone-IsArmed k s w rest t
          (λ r e. let u : none ≡ some r = sym (none_found (i.closed h)) ∙ e in absurd cc) i))
      (λ h. ready_found-Grows w rest ec a readable s (find_socket w.socket s.sockets) t refl)
  where
    none_found : s.sockets ≡ [] → find_socket w.socket s.sockets ≡ none
    none_found e = ap (find_socket w.socket) e ∙ unfold find_socket in refl

step-Grows : (e : Event) (s : CurlMulti) → Grows (event_calls e) s (step e s)
unfolding step add_transfer run_added run_timed_out on_timeout run_drive on_drive
step-Grows (add none callback) s = stays 0 s
step-Grows (add (some easy) callback) s = wired-Grows s _ refl
step-Grows (added n accepted rs a) s =
    elim (take_at n s.queued)
      as (λ o. Grows (length rs + answer_calls a) s (run_added o accepted rs a s)) [
        | none ↦ stays (length rs + answer_calls a) s
        | some r ↦
            Grows-before (length rs + answer_calls a) s (record s { queued = r.1 }) _ refl
              (do_add_transfer-Grows r.0.0 r.0.1 accepted rs a (record s { queued = r.1 }))
      ]
step-Grows (cancel easy rs) s = cancel_transfer-Grows easy rs s
step-Grows (waited n ec a readable) s =
    run_waited-Grows (take_at n s.waits) ec a readable s (take_at-Took n s.waits)
step-Grows (timed_out n expired a) s =
    elim (take_at n s.timers) as (λ o. Grows (answer_calls a) s (run_timed_out o expired a s)) [
      | none ↦ stays (answer_calls a) s
      | some r ↦
          let t : CurlMulti = record s { timers = r.1 } in
          Grows-before (answer_calls a) s t _ refl (
            if_both (Grows (answer_calls a) t) expired
              (if_both (Grows (answer_calls a) t) s.is_shut (stays (answer_calls a) t) (
                if_both (Grows (answer_calls a) t) (r.0 == s.generation) (socket_action-Grows a t)
                  (stays (answer_calls a) t)))
              (stays (answer_calls a) t))
    ]
step-Grows (drive n a readable) s =
    elim (take_at n s.drives) as (λ o. Grows (answer_calls a) s (run_drive o a readable s)) [
      | none ↦ stays (answer_calls a) s
      | some r ↦
          let t : CurlMulti = record s { drives = r.1 } in
          Grows-before (answer_calls a) s t _ refl (
            if_both (Grows (answer_calls a) t) s.is_shut (stays (answer_calls a) t)
              (drive_socket-Grows r.0 reads a readable t))
    ]
step-Grows shut_down s = shutdown-Grows s

run-Grows : (es : List Event) (s : CurlMulti) → Grows (all_calls es) s (run es s)
unfolding run
run-Grows [] s = stays 0 s
run-Grows (e ∷ es) s =
    Grows-trans (event_calls e) (all_calls es) s (step e s) _ (step-Grows e s)
      (run-Grows es (step e s))

-- Whatever libcurl, the kernel and the event loop do, and in whatever order, as long as libcurl makes fewer than
-- 2^64 calls: a registered socket has one wait in flight in a direction if its flag is set, and
-- none otherwise; so the waits do not stack up.
pub pending-run :
    (es : List Event)
    → all_calls es < 2 ^ 64
    → (sock : ℕ) (r : Socket) → find_socket sock (run es new_multi).sockets ≡ some r
    → (d : Direction) → pending (run es new_multi).waits sock r.id d ≡ (if flag d r then 1 else 0)
pending-run es h sock r e d =
    let i = run-Grows es new_multi 0 (omega (arith, h)) new-IsArmed in
    let key = (find_socket-below sock _ _ r i.fits e).1 in
    subst (λ k. pending (run es new_multi).waits k r.id d ≡ (if flag d r then 1 else 0)) key
      (find_socket-pending _ sock _ _ r i.fits e d)
  where
    new-IsArmed : IsArmed 0 new_multi
    new-IsArmed = record {
      few = omega arith;
      fits = tt;
      fresh = λ sock id d n. refl;
      closed = λ b. refl;
    }
