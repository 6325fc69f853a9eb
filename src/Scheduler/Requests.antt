-- ===== src/Scheduler/Requests.antt =====
-- Every event keeps the invariant of src/sessions/scheduler.cpp.
use mathlib.Core.Option.{some-injective}
use mathlib.Core.Path.{subst}
use porla.Base.{
  if◌then◌else◌, ℕ, ◌≡◌, refl, sym, ◌∙◌, Bool, true, false, not, ◌&&◌, ◌||◌, List, [], ◌∷◌, some,
  arith, Bool-cases, Option-cases, inl, inr, ◌==◌,
}
use porla.Scheduler.{
  State, set_entry, new_entry, at_entry, pointers, add, every, start, register, set_interval_entry,
  set_interval_loop, set_interval, trigger_entry, trigger_loop, trigger,
}
use porla.Scheduler.Table.{
  manual, is_periodic, live-cancel, Kind, Entry, Wait, is_manual, find_entry, cancel,
}
use porla.Scheduler.Ids.{
  Others, All-mono, All-find_entry, id-find_entry, All-append, Distinct-append,
}
use porla.Scheduler.Invariant.{
  Served, ServedIn, IsSound, IsSoundBut, IsSoundBut-IsSound, set_entry-IsSoundBut,
  set_entry-IsSound, schedule-IsSound,
}

pub IsSound-if :
    (b : Bool) (s t : State)
    → (b ≡ true → IsSound s)
    → (b ≡ false → IsSound t)
    → IsSound (if b then s else t)
IsSound-if true s t f g = f refl
IsSound-if false s t f g = g refl

-- The new entry is the one that the others do not speak of.
add-IsSoundBut : (k : Kind) (d t : ℕ) (s : State) → IsSound s → IsSoundBut s.next_id (add k d t s)
unfolding add
add-IsSoundBut k d t s v = record {
  bounded =
      All-append _ s.entries _ (All-mono _ _ s.entries (λ e h. omega arith) v.bounded)
        (omega arith);
  distinct =
      Distinct-append s.entries _ (All-mono _ _ s.entries (λ e h. omega arith) v.bounded)
        v.distinct;
  served = λ h.
      All-append _ s.entries _ (All-mono _ _ s.entries (λ e p q. p) (v.served h))
        (λ q. absurd (q refl));
}

pub every-IsSound : (d t : ℕ) (s : State) → IsSound s → IsSound (every d t s)
unfolding every
every-IsSound d t s v = schedule-IsSound s.next_id d _ (add-IsSoundBut _ d t s v)

pub start-IsSound : (t : ℕ) (s : State) → IsSound s → IsSound (start t s)
unfolding start
start-IsSound t s v = schedule-IsSound s.next_id 0 _ (add-IsSoundBut _ 0 t s v)

Served-new : (ws : List Wait) (n i t : ℕ) → Served ws n (new_entry i manual 0 t)
unfolding new_entry is_manual
Served-new ws n i t = record { armed = λ h. cc; busy = λ h. cc; asked = λ h k l. ground arith }

pub register-IsSound : (t : ℕ) (s : State) → IsSound s → IsSound (register t s)
unfolding register add
register-IsSound t s v = record {
  bounded = (add-IsSoundBut manual 0 t s v).bounded;
  distinct = (add-IsSoundBut manual 0 t s v).distinct;
  served = λ h. All-append _ s.entries _ (v.served h) (Served-new s.waits s.suspends s.next_id t);
}

-- A change to entry `i` that the invariant does not see.
set_entry_keep :
    (i : ℕ) (f : Entry → Entry) (s : State)
    → ((e : Entry) → (f e).id ≡ e.id)
    → ((e : Entry) → ServedIn s e → ServedIn s (f e))
    → IsSound s
    → IsSound (set_entry i f s)
set_entry_keep i f s same_id h v =
    set_entry-IsSound i f same_id s (IsSoundBut-IsSound i s v)
      λ e q m. h e (All-find_entry (ServedIn s) i s.entries e m (v.served q)).0

Served-cancel :
    (i n : ℕ) (ws : List Wait) (e : Entry)
    → Others (Served ws n) i e
    → Others (Served (cancel i ws) n) i e
Served-cancel i n ws e p q = record {
  armed = λ h. live-cancel i e.id ws (λ r. q (sym r)) ∙ (p q).armed h;
  busy = (p q).busy;
  asked = (p q).asked;
}

cancel-IsSoundBut :
    (i : ℕ) (s : State) → IsSoundBut i s → IsSoundBut i (record s { waits = cancel i s.waits })
cancel-IsSoundBut i s v = record {
  bounded = v.bounded;
  distinct = v.distinct;
  served = λ h. All-mono _ _ s.entries (λ e p. Served-cancel i s.suspends s.waits e p) (v.served h);
}

-- The interval of an entry is not part of the invariant.
new_interval-IsSound :
    (i d : ℕ) (s : State) → IsSound s → IsSound (set_entry i (λ x. record x { interval = d }) s)
new_interval-IsSound i d s v =
    set_entry_keep i _ s (λ e. refl)
      (λ e p. record { armed = p.armed; busy = p.busy; asked = p.asked }) v

set_interval_entry-IsSound :
    (t d : ℕ) (e : Entry) (s : State) → IsSound s → IsSound (set_interval_entry t d e s)
unfolding set_interval_entry
set_interval_entry-IsSound t d e s v =
    let w = new_interval-IsSound e.id d s v in
    elim (Bool-cases (not (is_periodic e.kind) || not (e.job_type == t))) [
      | inl q ↦ rw q v
      | inr q ↦ rw q (elim (Bool-cases (e.scheduled && not e.running)) [
        | inl r ↦
            rw r
              (schedule-IsSound e.id d _ (cancel-IsSoundBut e.id _ (IsSoundBut-IsSound e.id _ w)))
        | inr r ↦ rw r w
      ])
    ]

pub at_entry-IsSound :
    (i : ℕ) (body : Entry → State → State) (s : State)
    → ((e : Entry) → find_entry i s.entries ≡ some e → IsSound (body e s))
    → IsSound s
    → IsSound (at_entry i body s)
unfolding at_entry
at_entry-IsSound i body s h v = elim (Option-cases (find_entry i s.entries)) [
  | inl e ↦ rw (e, at_entry) v
  | inr (x, e) ↦ rw (e, at_entry) (h x e)
]

set_interval_loop-IsSound :
    (t d : ℕ) (is : List ℕ) (s : State) → IsSound s → IsSound (set_interval_loop t d is s)
unfolding set_interval_loop
set_interval_loop-IsSound t d [] s v = v
set_interval_loop-IsSound t d (i ∷ is) s v =
    set_interval_loop-IsSound t d is _
      (at_entry-IsSound i _ s (λ e m. set_interval_entry-IsSound t d e s v) v)

pub set_interval-IsSound : (t d : ℕ) (s : State) → IsSound s → IsSound (set_interval t d s)
unfolding set_interval
set_interval-IsSound t d s v = set_interval_loop-IsSound t d (pointers s.entries) s v

-- A job that cannot be scheduled now is suspended, scheduled or running.
Served-triggered :
    (ws : List Wait) (n : ℕ) (e : Entry)
    → ((n == 0) && (not e.scheduled && not e.running)) ≡ false
    → Served ws n e
    → Served ws n (record e { triggered = true })
Served-triggered ws n e q p = record {
  armed = p.armed;
  busy = p.busy;
  asked = λ h k l. ground arith;
}

trigger_entry-IsSound :
    (e : Entry) (s : State)
    → find_entry e.id s.entries ≡ some e
    → IsSound s
    → IsSound (trigger_entry e s)
unfolding trigger_entry
trigger_entry-IsSound e s m v =
    let but = IsSoundBut-IsSound e.id s v in
    let f : Entry → Entry = λ x. record x { triggered = true } in
    IsSound-if _ _ _
      (λ q. schedule-IsSound e.id 0 _ (set_entry-IsSoundBut e.id f (λ x. refl) s but))
      (λ q.
        set_entry-IsSound e.id f (λ x. refl) s but
          λ x r k.
            let same : e ≡ x = some-injective e x (sym m ∙ k) in
            subst (λ z. ServedIn s (f z)) same
              (Served-triggered s.waits s.suspends e q
                (All-find_entry (ServedIn s) e.id s.entries e m (v.served r)).0))

trigger_loop-IsSound : (t : ℕ) (is : List ℕ) (s : State) → IsSound s → IsSound (trigger_loop t is s)
unfolding trigger_loop
trigger_loop-IsSound t [] s v = v
trigger_loop-IsSound t (i ∷ is) s v = elim (Option-cases (find_entry i s.entries)) [
  | inl e ↦ rw (e, trigger_loop) (trigger_loop-IsSound t is s v)
  | inr (x, e) ↦
      rw (e, trigger_loop)
        (IsSound-if _ _ _ (λ q. trigger_loop-IsSound t is s v)
          (λ q.
            trigger_entry-IsSound x s
              (subst (λ j. find_entry j s.entries ≡ some x) (sym (id-find_entry i s.entries x e)) e)
              v))
]

pub trigger-IsSound : (t : ℕ) (s : State) → IsSound s → IsSound (trigger t s)
unfolding trigger
trigger-IsSound t s v = trigger_loop-IsSound t (pointers s.entries) s v
