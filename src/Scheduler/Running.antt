-- ===== src/Scheduler/Running.antt =====
-- The end of a wait, `Scheduler::Run` and `Scheduler::Stop` keep the invariant.
use mathlib.Core.Option.{some-injective}
use porla.Base.{
  ℕ, ◌≡◌, refl, ap, sym, ◌∙◌, subst, Bool, true, false, ◌&&◌, List, some, none, arith, Option-cases,
  inl, inr, ◌==◌, if◌then◌else◌,
}
use porla.Scheduler.{
  State, Outcome, done, again, thrown, schedule, set_entry, stop, stop_loop, begin_run, expired,
  complete, after_run, finish_entry, finish,
}
use porla.Scheduler.Table.{
  Kind, periodic, once, manual, is_manual, Entry, Wait, find_entry, live, wait_at, remove_wait,
  live-remove_wait, live-remove_wait_cancelled,
}
use porla.Scheduler.Ids.{
  All-mono, All-find_entry, find_entry-none, id-find_entry, All-update-Others,
  Distinct-update_entry,
}
use porla.Scheduler.Requests.{IsSound-if}
use porla.Scheduler.Invariant.{
  Served, ServedIn, IsSound, IsSoundBut, IsSoundBut-IsSound, set_entry-IsSoundBut,
  set_entry-IsSound, schedule-IsSound, erase-IsSound, bounded-update,
}

pub stop-IsSound : (s : State) → IsSound s → IsSound (stop s)
unfolding stop
stop-IsSound s v =
    IsSound-if s.stopped s (record s { stopped = true; waits = stop_loop s.entries s.waits })
      (λ e. v) (λ e. record { bounded = v.bounded; distinct = v.distinct; served = λ h. cc })

without : ℕ → State → State
without k s = record s { waits = remove_wait k s.waits }

Served-waits :
    (ws us : List Wait) (n : ℕ) (e : Entry)
    → live e.id us ≡ live e.id ws
    → Served ws n e
    → Served us n e
Served-waits ws us n e q p = record { armed = λ h. q ∙ p.armed h; busy = p.busy; asked = p.asked }

-- Without its wait, only the entry of the wait may be in disorder.
without-IsSoundBut :
    (k : ℕ) (w : Wait) (s : State)
    → wait_at k s.waits ≡ some w
    → IsSound s
    → IsSoundBut w.entry (without k s)
unfolding without
without-IsSoundBut k w s m v = record {
  bounded = v.bounded;
  distinct = v.distinct;
  served = λ h.
      All-mono _ _ s.entries
        (λ e p q.
          Served-waits s.waits _ s.suspends e (live-remove_wait k e.id w s.waits m (λ r. q (sym r)))
            p)
        (v.served h);
}

-- Without a cancelled wait nothing is in disorder.
without-IsSound :
    (k : ℕ) (w : Wait) (s : State)
    → wait_at k s.waits ≡ some w
    → w.cancelled ≡ true
    → IsSound s
    → IsSound (without k s)
unfolding without
without-IsSound k w s m c v = record {
  bounded = v.bounded;
  distinct = v.distinct;
  served = λ h.
      All-mono _ _ s.entries
        (λ e p.
          Served-waits s.waits _ s.suspends e (live-remove_wait_cancelled k e.id w s.waits m c) p)
        (v.served h);
}

begin_run-IsSound : (i : ℕ) (s : State) → IsSoundBut i s → IsSound (begin_run i s)
unfolding begin_run
begin_run-IsSound i s v = record {
  bounded = bounded-update i _ (λ e. refl) s.next_id s.entries v.bounded;
  distinct = Distinct-update_entry i _ s.entries (λ e. refl) v.distinct;
  served = λ h.
      All-update-Others (ServedIn s) i _ s.entries v.distinct
        (λ e m. record { armed = λ a. cc; busy = λ a. refl; asked = λ a b c. refl }) (v.served h);
}

-- An error comes only after a cancellation.
abbrev pub FailsFairly : Bool → Wait → Type 0
FailsFairly failed w = failed ≡ true → w.cancelled ≡ true

stopped-IsSound : (i : ℕ) (s : State) → s.stopped ≡ true → IsSoundBut i s → IsSound s
stopped-IsSound i s h v = record { bounded = v.bounded; distinct = v.distinct; served = λ q. cc }

missing-IsSound : (i : ℕ) (s : State) → find_entry i s.entries ≡ none → IsSoundBut i s → IsSound s
missing-IsSound i s h v = record {
  bounded = v.bounded;
  distinct = v.distinct;
  served = λ q. find_entry-none (ServedIn s) i s.entries h (v.served q);
}

expired-IsSound : (w : Wait) (s : State) → IsSoundBut w.entry s → IsSound (expired false w s)
unfolding expired
expired-IsSound w s v =
    IsSound-if s.stopped s
      (elim (find_entry w.entry s.entries) [ none ↦ s | some e ↦ begin_run w.entry s ])
      (λ e. stopped-IsSound w.entry s e v)
      (λ e. elim (Option-cases (find_entry w.entry s.entries)) [
        | inl m ↦ rw m (missing-IsSound w.entry s m v)
        | inr (x, m) ↦ rw m (begin_run-IsSound w.entry s v)
      ])

ended-IsSound :
    (k : ℕ) (failed : Bool) (w : Wait) (s : State)
    → wait_at k s.waits ≡ some w
    → FailsFairly failed w
    → IsSound s
    → IsSound (expired failed w (without k s))
ended-IsSound k true w s m fair v = unfold expired in without-IsSound k w s m (fair refl) v
ended-IsSound k false w s m fair v = expired-IsSound w (without k s) (without-IsSoundBut k w s m v)

pub complete-IsSound :
    (k : ℕ) (failed : Bool) (s : State)
    → ((w : Wait) → wait_at k s.waits ≡ some w → FailsFairly failed w)
    → IsSound s
    → IsSound (complete k failed s)
unfolding complete without
complete-IsSound k failed s fair v = elim (Option-cases (wait_at k s.waits)) [
  | inl m ↦ rw (m, complete) v
  | inr (w, m) ↦ rw (m, complete) (ended-IsSound k failed w s m (fair w m) v)
]

-- A manual job that is not to run again is in order without `running`.
Served-rested :
    (ws : List Wait) (n : ℕ) (e : Entry)
    → is_manual e.kind ≡ true
    → (e.triggered && (n == 0)) ≡ false
    → Served ws n e
    → Served ws n (record e { running = false })
Served-rested ws n e k q p = record {
  armed = p.armed;
  busy = λ a. cc;
  asked = λ a b c. ground arith;
}

rest : ℕ → State → State
rest i s = set_entry i (λ x. record x { running = false }) s

rest-IsSoundBut : (i : ℕ) (s : State) → IsSound s → IsSoundBut i (rest i s)
unfolding rest
rest-IsSoundBut i s v = set_entry-IsSoundBut i _ (λ e. refl) s (IsSoundBut-IsSound i s v)

rested-IsSound :
    (e : Entry) (s : State)
    → find_entry e.id s.entries ≡ some e
    → is_manual e.kind ≡ true
    → (e.triggered && (s.suspends == 0)) ≡ false
    → IsSound s
    → IsSound (rest e.id s)
unfolding rest
rested-IsSound e s m k q v =
    set_entry-IsSound e.id _ (λ x. refl) s (IsSoundBut-IsSound e.id s v)
      λ x r n.
        subst (λ z. ServedIn s (record z { running = false })) (some-injective e x (sym m ∙ n))
          (Served-rested s.waits s.suspends e k q
            (All-find_entry (ServedIn s) e.id s.entries e m (v.served r)).0)

after_manual-IsSound :
    (e : Entry) (s : State)
    → find_entry e.id s.entries ≡ some e
    → is_manual e.kind ≡ true
    → IsSound s
    → IsSound
        (if e.triggered && s.suspends == 0 then schedule e.id 0 (rest e.id s) else rest e.id s)
after_manual-IsSound e s m k v =
    IsSound-if (e.triggered && s.suspends == 0) _ _
      (λ q. schedule-IsSound e.id 0 _ (rest-IsSoundBut e.id s v)) (λ q. rested-IsSound e s m k q v)

after_run-IsSound :
    (k : Kind) (e : Entry) (s : State)
    → find_entry e.id s.entries ≡ some e
    → k ≡ e.kind
    → IsSound s
    → IsSound (after_run k e (rest e.id s))
unfolding after_run
after_run-IsSound periodic e s m q v = schedule-IsSound e.id e.interval _ (rest-IsSoundBut e.id s v)
after_run-IsSound once e s m q v = erase-IsSound e.id _ (rest-IsSoundBut e.id s v)
after_run-IsSound manual e s m q v =
    unfold rest set_entry in after_manual-IsSound e s m (unfold is_manual in ap is_manual (sym q)) v

ended_run-IsSound :
    (e : Entry) (s : State)
    → find_entry e.id s.entries ≡ some e
    → IsSound s
    → IsSound (if s.stopped then rest e.id s else after_run e.kind e (rest e.id s))
ended_run-IsSound e s m v =
    IsSound-if s.stopped _ _
      (λ h.
        stopped-IsSound e.id (rest e.id s) (unfold rest set_entry in h) (rest-IsSoundBut e.id s v))
      (λ h. after_run-IsSound e.kind e s m refl v)

finish_entry-IsSound :
    (o : Outcome) (e : Entry) (s : State)
    → find_entry e.id s.entries ≡ some e
    → IsSound s
    → IsSound (finish_entry e o (rest e.id s))
unfolding finish_entry
finish_entry-IsSound (again d) e s m v =
    let but = rest-IsSoundBut e.id s v in
    IsSound-if (rest e.id s).stopped _ _ (λ h. stopped-IsSound e.id (rest e.id s) h but)
      (λ h. schedule-IsSound e.id d _ but)
finish_entry-IsSound done e s m v = unfold rest set_entry in ended_run-IsSound e s m v
finish_entry-IsSound thrown e s m v = unfold rest set_entry in ended_run-IsSound e s m v

pub finish-IsSound : (i : ℕ) (o : Outcome) (s : State) → IsSound s → IsSound (finish i o s)
unfolding finish rest
finish-IsSound i o s v = elim (Option-cases (find_entry i s.entries)) [
  | inl m ↦ rw (m, finish) v
  | inr (e, m) ↦
      rw (m, finish)
        (subst (λ j. IsSound (finish_entry e o (rest j s))) (id-find_entry i s.entries e m)
          (finish_entry-IsSound o e s
            (subst (λ j. find_entry j s.entries ≡ some e) (sym (id-find_entry i s.entries e m)) m)
            v))
]
