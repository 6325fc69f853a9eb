-- ===== src/Sessions.antt =====
-- `Sessions::Load` and `Sessions::LoadById` (src/sessions/sessions.cpp): the loading of all stored sessions, and
-- the callback that waits for them. A session that is started reports when its job of Loading calls back.
pub mod Reporting
use porla.Base.{
  ℕ, zero, suc, ◌+◌, ◌-◌, ◌%◌, ◌^◌, Bool, true, false, not, List, [], ◌∷◌, if◌then◌else◌, ltb,
  length, ◌==◌, any_of,
}

-- The counter of `Load`, which is a `std::size_t`, and how often its callback was posted.
pub record Waiting : Type 0 where
  pub outstanding : ℕ
  pub posted : ℕ

abbrev pub size_max : ℕ
size_max = 18446744073709551615

-- `--(*outstanding_sessions)`.
abbrev pub decrement : ℕ → ℕ
decrement n = (n + size_max) % (size_max + 1)

-- `single_session_loaded`.
unfoldable pub report : Waiting → Waiting
report w =
    if ltb 0 (decrement w.outstanding)
    then record w { outstanding = decrement w.outstanding }
    else record w { outstanding = decrement w.outstanding; posted = w.posted + 1 }

unfoldable pub report_all : ℕ → Waiting → Waiting
report_all zero w = w
report_all (suc k) w = report_all k (report w)

-- The start of `Load`, with the number of stored sessions and a callback.
unfoldable pub start_waiting : ℕ → Waiting
start_waiting count =
    if count == 0
    then record { outstanding = 0; posted = 1 }
    else record { outstanding = count; posted = 0 }

-- The ids of the sessions that are loaded, and how many sessions reported at once and were started.
pub record Loads : Type 0 where
  pub loaded : List ℕ
  pub reported : ℕ
  pub started : ℕ

-- `LoadById`, with whether the database has a session of an id.
unfoldable pub load_by_id : (ℕ → Bool) → ℕ → Loads → Loads
load_by_id is_stored id l =
    if not (is_stored id)
    then record l { reported = l.reported + 1 }
    else if any_of (λ other. other == id) l.loaded
    then record l { reported = l.reported + 1 }
    else record l { loaded = id ∷ l.loaded; started = l.started + 1 }

-- The loop of `Load`.
unfoldable pub load_all : (ℕ → Bool) → List ℕ → Loads → Loads
load_all is_stored [] l = l
load_all is_stored (id ∷ ids) l = load_all is_stored ids (load_by_id is_stored id l)

unfoldable pub load : (ℕ → Bool) → List ℕ → List ℕ → Loads
load is_stored ids loaded =
    load_all is_stored ids (record { loaded = loaded; reported = 0; started = 0 })
