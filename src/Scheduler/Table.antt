-- ===== src/Scheduler/Table.antt =====
-- The entries of a scheduler and the waits on their timers, as lists.
use porla.Base.{
  ℕ, zero, suc, ◌≡◌, ◌≢◌, refl, ◌∙◌, Bool, true, false, not, ◌&&◌, List, [], ◌∷◌, Option, none,
  some, map, arith, ◌==◌, ==_iff, if◌then◌else◌, any_of, Bool-cases, inl, inr,
}

pub data Kind : Type 0 where
  periodic once manual : Kind

unfoldable pub is_manual : Kind → Bool
is_manual manual = true
is_manual periodic = false
is_manual once = false

unfoldable pub is_periodic : Kind → Bool
is_periodic periodic = true
is_periodic once = false
is_periodic manual = false

-- `id` stands for the shared pointer to the entry.
pub record Entry : Type 0 where
  pub id : ℕ
  pub kind : Kind
  pub job_type : ℕ
  pub interval : ℕ
  pub scheduled : Bool
  pub running : Bool
  pub triggered : Bool

unfoldable pub find_entry : ℕ → List Entry → Option Entry
find_entry i [] = none
find_entry i (e ∷ es) = if e.id == i then some e else find_entry i es

unfoldable pub update_entry : ℕ → (Entry → Entry) → List Entry → List Entry
update_entry i f [] = []
update_entry i f (e ∷ es) = if e.id == i then f e ∷ es else e ∷ update_entry i f es

unfoldable pub erase_entry : ℕ → List Entry → List Entry
erase_entry i [] = []
erase_entry i (e ∷ es) = if e.id == i then es else e ∷ erase_entry i es

-- A wait on the timer of an entry. `cancelled`: its handler may get an error.
pub record Wait : Type 0 where
  pub entry : ℕ
  pub delay : ℕ
  pub cancelled : Bool

unfoldable pub cancel_wait : ℕ → Wait → Wait
cancel_wait i w = if w.entry == i then record w { cancelled = true } else w

-- `timer.cancel()`.
unfoldable pub cancel : ℕ → List Wait → List Wait
cancel i = map (cancel_wait i)

-- `timer.expires_after(delay)` and `timer.async_wait`.
unfoldable pub arm : ℕ → ℕ → List Wait → List Wait
arm i delay ws = record { entry = i; delay = delay; cancelled = false } ∷ cancel i ws

unfoldable pub wait_at : ℕ → List Wait → Option Wait
wait_at k [] = none
wait_at zero (w ∷ ws) = some w
wait_at (suc k) (w ∷ ws) = wait_at k ws

unfoldable pub remove_wait : ℕ → List Wait → List Wait
remove_wait k [] = []
remove_wait zero (w ∷ ws) = ws
remove_wait (suc k) (w ∷ ws) = w ∷ remove_wait k ws

is_live : ℕ → Wait → Bool
is_live i w = w.entry == i && not w.cancelled

-- A wait on the timer of entry `i` is outstanding and was not cancelled.
unfoldable pub live : ℕ → List Wait → Bool
unfolding is_live
live i ws = any_of (is_live i) ws

pub live-arm : (i d : ℕ) (ws : List Wait) → live i (arm i d ws) ≡ true
unfolding live arm
live-arm i d ws = ground arith

pub live-cancel : (i j : ℕ) (ws : List Wait) → i ≢ j → live j (cancel i ws) ≡ live j ws
unfolding live cancel cancel_wait
live-cancel i j [] n = refl
live-cancel i j (w ∷ ws) n = ground (arith, live-cancel i j ws n)

live-cons : (j : ℕ) (w : Wait) (ws : List Wait) → live j ws ≡ true → live j (w ∷ ws) ≡ true
unfolding live
live-cons j w ws h = ground arith

pub live-arm_mono : (i d j : ℕ) (ws : List Wait) → live j ws ≡ true → live j (arm i d ws) ≡ true
unfolding arm
live-arm_mono i d j ws h = elim (Bool-cases (i == j)) [
  | inl e ↦ rw (← (==_iff i j).0 e) (live-arm i d ws)
  | inr n ↦ live-cons _ _ _ (live-cancel i j ws (ground arith) ∙ h)
]

pub cancel-cancel : (i : ℕ) (ws : List Wait) → cancel i (cancel i ws) ≡ cancel i ws
unfolding cancel cancel_wait
cancel-cancel i [] = refl
cancel-cancel i (w ∷ ws) = ground (arith, cancel-cancel i ws)

pub live-remove_wait :
    (k j : ℕ) (w : Wait) (ws : List Wait)
    → wait_at k ws ≡ some w
    → w.entry ≢ j
    → live j (remove_wait k ws) ≡ live j ws
unfolding live wait_at remove_wait
live-remove_wait k j w [] e n = cc
live-remove_wait zero j w (x ∷ ws) e n = ground arith
live-remove_wait (suc k) j w (x ∷ ws) e n = ground (arith, live-remove_wait k j w ws e n)

-- A wait that was cancelled counts for nothing.
pub live-remove_wait_cancelled :
    (k j : ℕ) (w : Wait) (ws : List Wait)
    → wait_at k ws ≡ some w
    → w.cancelled ≡ true
    → live j (remove_wait k ws) ≡ live j ws
unfolding live wait_at remove_wait
live-remove_wait_cancelled k j w [] e n = cc
live-remove_wait_cancelled zero j w (x ∷ ws) e n = ground arith
live-remove_wait_cancelled (suc k) j w (x ∷ ws) e n =
    ground (arith, live-remove_wait_cancelled k j w ws e n)
