-- ===== src/Scheduler/Suspending.antt =====
-- What a suspension of src/sessions/scheduler.cpp holds back, and its end.
use porla.Base.{
  ℕ, ◌+◌, ◌-◌, ◌<◌, ◌≡◌, refl, subst, sym, Bool, false, List, [], ◌∷◌, some, arith, Bool-cases,
  Option-cases, inl, inr, not, ◌&&◌, ◌==◌,
}
use porla.Scheduler.{
  State, set_entry, at_entry, trigger, trigger_loop, trigger_entry, suspend, resume, resume_loop,
  resume_entry, pointers,
}
use porla.Scheduler.Table.{Entry, Wait, is_manual, find_entry}
use porla.Scheduler.Ids.{All-find_entry, id-find_entry}
use porla.Scheduler.Invariant.{IsSound, Served, ServedIn, schedule_stopped}

trigger_loop_suspended :
    (t : ℕ) (is : List ℕ) (s : State) → 0 < s.suspends → (trigger_loop t is s).waits ≡ s.waits
unfolding trigger_loop trigger_entry set_entry
trigger_loop_suspended t [] s h = refl
trigger_loop_suspended t (i ∷ is) s h = elim (Option-cases (find_entry i s.entries)) [
  | inl m ↦ rw (m, trigger_loop) (trigger_loop_suspended t is s h)
  | inr (e, m) ↦ rw (m, trigger_loop) (ground (arith, trigger_loop_suspended t is s h))
]

-- Under a suspension `Trigger` arms no timer.
trigger_suspended : (t : ℕ) (s : State) → 0 < s.suspends → (trigger t s).waits ≡ s.waits
unfolding trigger
trigger_suspended t s h = trigger_loop_suspended t (pointers s.entries) s h

abbrev is_pending : Entry → Bool
is_pending e = is_manual e.kind && (e.triggered && (not e.scheduled && not e.running))

is_pending-Served :
    (ws : List Wait) (n : ℕ) (e : Entry) → n ≡ 0 → Served ws n e → is_pending e ≡ false
is_pending-Served ws n e z p = elim (Bool-cases (is_manual e.kind && e.triggered)) [
  | inl h ↦ ground (arith, p.asked (ground arith) (ground arith) z)
  | inr h ↦ ground arith
]

resume_entry_idle :
    (e : Entry) (s : State)
    → s.suspends ≡ 0
    → find_entry e.id s.entries ≡ some e
    → IsSound s
    → resume_entry e s ≡ s
unfolding resume_entry
resume_entry_idle e s n m v = elim (Bool-cases s.stopped) [
  | inl h ↦ ground (arith, schedule_stopped e.id 0 s h)
  | inr h ↦
      let p = (All-find_entry (ServedIn s) e.id s.entries e m (v.served h)).0 in
      rw (is_pending-Served s.waits s.suspends e n p)
]

resume_loop_idle : (is : List ℕ) (s : State) → s.suspends ≡ 0 → IsSound s → resume_loop is s ≡ s
unfolding resume_loop at_entry
resume_loop_idle [] s n v = refl
resume_loop_idle (i ∷ is) s n v = elim (Option-cases (find_entry i s.entries)) [
  | inl m ↦ rw (m, at_entry) (resume_loop_idle is s n v)
  | inr (e, m) ↦
      let m' =
        subst (λ j. find_entry j s.entries ≡ some e) (sym (id-find_entry i s.entries e m)) m in
      rw (m, at_entry, resume_entry_idle e s n m' v) (resume_loop_idle is s n v)
]

-- In a state that the invariant allows, `Suspend` and then `Resume` change nothing.
resume-suspend : (s : State) → IsSound s → resume (suspend s) ≡ s
unfolding resume suspend
resume-suspend s v =
    let more : (s.suspends + 1 == 0) ≡ false = ground arith in
    let back : s.suspends + 1 - 1 ≡ s.suspends = omega arith in
    rw (more, back)
      (elim (Bool-cases (s.suspends == 0)) [
        | inl z ↦ rw z (resume_loop_idle (pointers s.entries) s (ground arith) v)
        | inr z ↦ rw z
      ])
