-- ===== src/Scheduler/Invariant.antt =====
-- The invariant of src/sessions/scheduler.cpp while it is not stopped, and its repair by `Schedule`.
use porla.Base.{ℕ, ◌<◌, ◌≡◌, refl, true, false, ◌||◌, List, some, arith, All, Bool-cases, inl, inr}
use porla.Scheduler.{State, schedule, set_entry}
use porla.Scheduler.Table.{
  Entry, Wait, is_manual, find_entry, update_entry, erase_entry, arm, live, live-arm, live-arm_mono,
}
use porla.Scheduler.Ids.{
  Distinct, Others, All-mono, All-update_entry, All-update_but, id-find_entry,
  Distinct-update_entry, All-erase_entry, Distinct-erase_entry, All-update-Others, All-erase-Others,
}

abbrev pub IsActive : Entry → Type 0
IsActive e = (e.scheduled || e.running) ≡ true

-- `armed`: an entry that is scheduled has a wait that ends without an error. `busy`: a periodic job
-- and a one-off job are scheduled or running. `asked`: so is a manual job that was triggered, unless
-- the scheduler is suspended.
pub record Served (ws : List Wait) (suspends : ℕ) (e : Entry) : Type 0 where
  pub armed : e.scheduled ≡ true → live e.id ws ≡ true
  pub busy : is_manual e.kind ≡ false → IsActive e
  pub asked : is_manual e.kind ≡ true → e.triggered ≡ true → suspends ≡ 0 → IsActive e

abbrev pub ServedIn : State → Entry → Type 0
ServedIn s e = Served s.waits s.suspends e

pub record IsSound (s : State) : Type 0 where
  pub bounded : All (λ e. e.id < s.next_id) s.entries
  pub distinct : Distinct s.entries
  pub served : s.stopped ≡ false → All (ServedIn s) s.entries

-- The invariant, but for what it says of entry `i` besides its id.
pub record IsSoundBut (i : ℕ) (s : State) : Type 0 where
  pub bounded : All (λ e. e.id < s.next_id) s.entries
  pub distinct : Distinct s.entries
  pub served : s.stopped ≡ false → All (Others (ServedIn s) i) s.entries

pub IsSoundBut-IsSound : (i : ℕ) (s : State) → IsSound s → IsSoundBut i s
IsSoundBut-IsSound i s v = record {
  bounded = v.bounded;
  distinct = v.distinct;
  served = λ h. All-mono (ServedIn s) (Others (ServedIn s) i) s.entries (λ e p _. p) (v.served h);
}

module _ (i : ℕ) (f : Entry → Entry) (same_id : (e : Entry) → (f e).id ≡ e.id) where
  pub bounded-update :
      (n : ℕ) (es : List Entry) → All (λ e. e.id < n) es → All (λ e. e.id < n) (update_entry i f es)
  bounded-update n es b = All-update_entry (λ e. e.id < n) i f es (λ e h. rw (same_id e) h) b

  -- A change to entry `i` that keeps its id.
  pub set_entry-IsSoundBut : (s : State) → IsSoundBut i s → IsSoundBut i (set_entry i f s)
  unfolding set_entry
  set_entry-IsSoundBut s v = record {
    bounded = bounded-update s.next_id s.entries v.bounded;
    distinct = Distinct-update_entry i f s.entries same_id v.distinct;
    served = λ h. All-update_but (ServedIn s) i f s.entries same_id (v.served h);
  }

  -- Entry `i` is brought in order by the change itself.
  pub set_entry-IsSound :
      (s : State)
      → IsSoundBut i s
      → ((e : Entry) → s.stopped ≡ false → find_entry i s.entries ≡ some e → ServedIn s (f e))
      → IsSound (set_entry i f s)
  unfolding set_entry
  set_entry-IsSound s v h = record {
    bounded = bounded-update s.next_id s.entries v.bounded;
    distinct = Distinct-update_entry i f s.entries same_id v.distinct;
    served =
        λ q. All-update-Others (ServedIn s) i f s.entries v.distinct (λ e m. h e q m) (v.served q);
  }

pub Served-arm : (i d n : ℕ) (ws : List Wait) (e : Entry) → Served ws n e → Served (arm i d ws) n e
Served-arm i d n ws e v = record {
  armed = λ h. live-arm_mono i d e.id ws (v.armed h);
  busy = v.busy;
  asked = v.asked;
}

pub schedule_stopped : (i d : ℕ) (s : State) → s.stopped ≡ true → schedule i d s ≡ s
unfolding schedule
schedule_stopped i d s h = ground arith

unfoldable pub armed_state : ℕ → ℕ → State → State
armed_state i d s = record s {
  entries = update_entry i (λ e. record e { scheduled = true }) s.entries;
  waits = arm i d s.waits;
}

pub schedule_armed : (i d : ℕ) (s : State) → s.stopped ≡ false → schedule i d s ≡ armed_state i d s
unfolding schedule armed_state
schedule_armed i d s h = ground arith

pub Served-scheduled :
    (i d n : ℕ) (ws : List Wait) (e : Entry)
    → e.id ≡ i
    → Served (arm i d ws) n (record e { scheduled = true })
Served-scheduled i d n ws e q = record {
  armed = λ h. rw q (live-arm i d ws);
  busy = λ h. refl;
  asked = λ h k l. refl;
}

armed_state-IsSound : (i d : ℕ) (s : State) → IsSoundBut i s → IsSound (armed_state i d s)
unfolding armed_state
armed_state-IsSound i d s v = record {
  bounded = bounded-update i _ (λ e. refl) s.next_id s.entries v.bounded;
  distinct = Distinct-update_entry i _ s.entries (λ e. refl) v.distinct;
  served = λ h.
      All-update-Others (Served (arm i d s.waits) s.suspends) i _ s.entries v.distinct
        (λ e m. Served-scheduled i d s.suspends s.waits e (id-find_entry i s.entries e m))
        (All-mono _ _ s.entries (λ e p q. Served-arm i d s.suspends s.waits e (p q)) (v.served h));
}

-- `Schedule` brings its entry in order.
pub schedule-IsSound : (i d : ℕ) (s : State) → IsSoundBut i s → IsSound (schedule i d s)
schedule-IsSound i d s v = elim (Bool-cases s.stopped) [
  | inl e ↦
      rw (schedule_stopped i d s e)
        (record { bounded = v.bounded; distinct = v.distinct; served = λ h. cc })
  | inr e ↦ rw (schedule_armed i d s e) (armed_state-IsSound i d s v)
]

pub erase-IsSound :
    (i : ℕ) (s : State) → IsSoundBut i s → IsSound (record s { entries = erase_entry i s.entries })
erase-IsSound i s v = record {
  bounded = All-erase_entry _ i s.entries v.bounded;
  distinct = Distinct-erase_entry i s.entries v.distinct;
  served = λ h. All-erase-Others (ServedIn s) i s.entries v.distinct (v.served h);
}
