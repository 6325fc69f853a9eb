-- ===== src/Scheduler/Resuming.antt =====
-- `Scheduler::Suspend` and `Scheduler::Resume` keep the invariant.
use mathlib.Core.Option.{some-injective}
use porla.Base.{
  ℕ, ◌-◌, ◌<◌, ◌≡◌, ◌≢◌, refl, sym, ◌∙◌, true, false, not, ◌&&◌, List, [], ◌∷◌, some, arith, All,
  Bool-cases, inl, inr, ◌==◌, Option-cases, subst,
}
use porla.Scheduler.{
  State, schedule, at_entry, pointers, suspend, resume_entry, resume_loop, resume,
}
use porla.Scheduler.Table.{Entry, Wait, is_manual, find_entry, arm}
use porla.Scheduler.Ids.{
  Distinct, All-mono, All-complete, All-update-Others, Distinct-update_entry, id-find_entry,
  All-find_entry,
}
use porla.Scheduler.Invariant.{
  Served, ServedIn, IsSound, schedule_stopped, schedule_armed, armed_state, Served-arm,
  Served-scheduled, bounded-update,
}

pub suspend-IsSound : (s : State) → IsSound s → IsSound (suspend s)
unfolding suspend
suspend-IsSound s v = record {
  bounded = v.bounded;
  distinct = v.distinct;
  served = λ h.
      All-mono _ _ s.entries
        (λ e p. record { armed = p.armed; busy = p.busy; asked = λ a b c. absurd (omega arith) })
        (v.served h);
}

-- An entry that the loop has passed is served; one ahead of it may have been triggered in vain.
abbrev Passed : List ℕ → State → Entry → Type 0
Passed is s x = Served s.waits 1 x × (All (λ i. x.id ≢ i) is → ServedIn s x)

record IsResuming (is : List ℕ) (s : State) : Type 0 where
  bounded : All (λ e. e.id < s.next_id) s.entries
  distinct : Distinct s.entries
  served : s.stopped ≡ false → All (Passed is s) s.entries

-- What the loop leaves alone needs nothing.
Served-skipped :
    (ws : List Wait) (n : ℕ) (e : Entry)
    → (is_manual e.kind && (e.triggered && (not e.scheduled && not e.running))) ≡ false
    → Served ws 1 e
    → Served ws n e
Served-skipped ws n e q p = record { armed = p.armed; busy = p.busy; asked = λ a b c. ground arith }

Passed-other :
    (i d : ℕ) (is : List ℕ) (n : ℕ) (ws : List Wait) (x : Entry)
    → x.id ≢ i
    → Served ws 1 x × (All (λ j. x.id ≢ j) (i ∷ is) → Served ws n x)
    → Served (arm i d ws) 1 x × (All (λ j. x.id ≢ j) is → Served (arm i d ws) n x)
Passed-other i d is n ws x q p =
    (Served-arm i d 1 ws x p.0, λ a. Served-arm i d n ws x (p.1 (q, a)))

armed_state-IsResuming :
    (i d : ℕ) (is : List ℕ) (s : State) → IsResuming (i ∷ is) s → IsResuming is (armed_state i d s)
unfolding armed_state
armed_state-IsResuming i d is s v = record {
  bounded = bounded-update i _ (λ e. refl) s.next_id s.entries v.bounded;
  distinct = Distinct-update_entry i _ s.entries (λ e. refl) v.distinct;
  served = λ h.
      All-update-Others _ i _ s.entries v.distinct
        (λ e m.
          let q = id-find_entry i s.entries e m in
          (Served-scheduled i d 1 s.waits e q, λ a. Served-scheduled i d s.suspends s.waits e q))
        (All-mono _ _ s.entries (λ e p q. Passed-other i d is s.suspends s.waits e q p)
          (v.served h));
}

stopped-IsResuming :
    (is js : List ℕ) (s : State) → s.stopped ≡ true → IsResuming is s → IsResuming js s
stopped-IsResuming is js s h v = record {
  bounded = v.bounded;
  distinct = v.distinct;
  served = λ q. cc;
}

-- Nothing was done for entry `i`, and nothing was to be done.
skip-IsResuming :
    (i : ℕ) (is : List ℕ) (s : State)
    → ((x : Entry) → find_entry i s.entries ≡ some x → Served s.waits 1 x → ServedIn s x)
    → IsResuming (i ∷ is) s
    → IsResuming is s
skip-IsResuming i is s h v = record {
  bounded = v.bounded;
  distinct = v.distinct;
  served = λ q.
      All-complete _ i s.entries v.distinct
        (λ x m. let p = (All-find_entry _ i s.entries x m (v.served q)).0.0 in (p, λ a. h x m p))
        (All-mono _ _ s.entries (λ x p n. (p.0, λ a. p.1 (n, a))) (v.served q));
}

schedule-IsResuming :
    (i d : ℕ) (is : List ℕ) (s : State) → IsResuming (i ∷ is) s → IsResuming is (schedule i d s)
schedule-IsResuming i d is s v = elim (Bool-cases s.stopped) [
  | inl e ↦ rw (schedule_stopped i d s e) (stopped-IsResuming (i ∷ is) is s e v)
  | inr e ↦ rw (schedule_armed i d s e) (armed_state-IsResuming i d is s v)
]

resume_entry-IsResuming :
    (i : ℕ) (is : List ℕ) (s : State) (e : Entry)
    → find_entry i s.entries ≡ some e
    → IsResuming (i ∷ is) s
    → IsResuming is (resume_entry e s)
unfolding resume_entry
resume_entry-IsResuming i is s e m v =
    elim (Bool-cases (is_manual e.kind && (e.triggered && (not e.scheduled && not e.running)))) [
      | inl q ↦ rw q (
          subst (λ j. IsResuming is (schedule j 0 s)) (sym (id-find_entry i s.entries e m))
            (schedule-IsResuming i 0 is s v))
      | inr q ↦ rw q (
          skip-IsResuming i is s
            (λ x k p. subst (ServedIn s) (some-injective e x (sym m ∙ k)) (
              Served-skipped s.waits s.suspends e q
                (subst (Served s.waits 1) (some-injective x e (sym k ∙ m)) p)))
            v)
    ]

resume_loop-IsResuming :
    (is : List ℕ) (s : State) → IsResuming is s → IsResuming [] (resume_loop is s)
unfolding resume_loop at_entry
resume_loop-IsResuming [] s v = v
resume_loop-IsResuming (i ∷ is) s v = elim (Option-cases (find_entry i s.entries)) [
  | inl e ↦
      rw (e, at_entry)
        (resume_loop-IsResuming is s (skip-IsResuming i is s (λ x m. ground arith) v))
  | inr (x, e) ↦
      rw (e, at_entry)
        (resume_loop-IsResuming is (resume_entry x s) (resume_entry-IsResuming i is s x e v))
]

-- At the start of the loop every entry is ahead of it.
All-ahead :
    (is : List ℕ) (es : List Entry)
    → ((x : Entry) → All (λ i. x.id ≢ i) is → All (λ i. x.id ≢ i) (pointers es))
    → All (λ x. ¬ All (λ i. x.id ≢ i) is) es
All-ahead is [] h = tt
All-ahead is (e ∷ es) h = ((λ a. (h e a).0 refl), All-ahead is es (λ x a. (h x a).1))

All-zip {ℓ} :
    {A : Type ℓ} (P Q R : A → Type 0) (xs : List A)
    → ((x : A) → P x → Q x → R x)
    → All P xs
    → All Q xs
    → All R xs
All-zip P Q R [] f a b = tt
All-zip P Q R (x ∷ xs) f a b = (f x a.0 b.0, All-zip P Q R xs f a.1 b.1)

Served-one : (ws : List Wait) (n : ℕ) (e : Entry) → n ≢ 0 → Served ws n e → Served ws 1 e
Served-one ws n e q p = record {
  armed = p.armed;
  busy = p.busy;
  asked = λ a b c. absurd (omega arith);
}

resume_start :
    (s : State) (n : ℕ)
    → IsSound s
    → s.suspends ≢ 0
    → IsResuming (pointers s.entries) (record s { suspends = n })
resume_start s n v q = record {
  bounded = v.bounded;
  distinct = v.distinct;
  served = λ h.
      All-zip (ServedIn s) _ _ s.entries
        (λ x p k. (Served-one s.waits s.suspends x q p, λ a. absurd (k a))) (v.served h)
        (All-ahead (pointers s.entries) s.entries (λ x a. a));
}

resumed-IsSound : (s : State) → IsResuming [] s → IsSound s
resumed-IsSound s v = record {
  bounded = v.bounded;
  distinct = v.distinct;
  served = λ h. All-mono _ _ s.entries (λ x p. p.1 tt) (v.served h);
}

-- One suspension less, and others left.
fewer-IsSound :
    (s : State) (n : ℕ) → n ≢ 0 → s.suspends ≢ 0 → IsSound s → IsSound (record s { suspends = n })
fewer-IsSound s n m q v = record {
  bounded = v.bounded;
  distinct = v.distinct;
  served = λ h.
      All-mono _ _ s.entries
        (λ e p. record { armed = p.armed; busy = p.busy; asked = λ a b c. absurd (m c) })
        (v.served h);
}

pub resume-IsSound : (s : State) → IsSound s → IsSound (resume s)
unfolding resume
resume-IsSound s v = elim (Bool-cases (s.suspends == 0)) [
  | inl e ↦ rw (e, resume) v
  | inr e ↦ elim (Bool-cases ((s.suspends - 1) == 0)) [
    | inl z ↦
        rw (e, resume, z)
          (resumed-IsSound _
            (resume_loop-IsResuming _ _ (resume_start s (s.suspends - 1) v (ground arith))))
    | inr z ↦ rw (e, resume, z) (fewer-IsSound s (s.suspends - 1) (ground arith) (ground arith) v)
  ]
]
