-- ===== src/Examples/SessionRuns.antt =====
-- `Sessions::Load` of src/sessions/sessions.cpp with three sessions, one of which is loaded already.
use porla.Base.{ℕ, ◌+◌, ◌≡◌, Bool, true, List, [], ◌∷◌, if◌then◌else◌, length, ◌==◌, arith}
use porla.Sessions.{report_all, start_waiting, load}
use porla.Sessions.Reporting.{report_all-load}

abbrev all_stored : ℕ → Bool
all_stored id = true

abbrev three_ids : List ℕ
three_ids = 1 ∷ 2 ∷ 3 ∷ []

report_all-load_example : (report_all 3 (start_waiting (length three_ids))).posted ≡ (
    if 3
      == (load all_stored three_ids (2 ∷ [])).reported
        + (load all_stored three_ids (2 ∷ [])).started
    then 1
    else 0)
unfolding load porla.Sessions.load_all porla.Sessions.load_by_id
report_all-load_example =
    report_all-load all_stored three_ids (2 ∷ []) 3 (omega arith) (omega arith)
