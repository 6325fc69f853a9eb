-- ===== src/Examples/SavingRuns.antt =====
-- `MarkDirty` and `SaveDirty` of src/sessions/session.cpp for two torrents, of which one is gone.
use porla.Base.{◌≡◌, Bool, true, false, ◌&&◌, List, [], ◌∷◌, none, some, if◌then◌else◌, is_empty}
use porla.HashMap.{Key, same_key}
use porla.Saving.{clean, save_dirty, mark_all}
use porla.Saving.Requests.{forces, armings, is_marked, is_forced, save_dirty-mark_all}

abbrev first_hash : Key
first_hash = record { v1 = some 1; v2 = none }

abbrev second_hash : Key
second_hash = record { v1 = some 2; v2 = some 3 }

abbrev three_marks : List (Key × Bool)
three_marks = (first_hash, false) ∷ (second_hash, false) ∷ (first_hash, true) ∷ []

save_dirty-mark_all_example :
    let saved = save_dirty (same_key first_hash) (mark_all three_marks clean).0 in
    (armings (mark_all three_marks clean).1 ≡ (if is_empty three_marks then 0 else 1))
    × (saved.0 ≡ clean)
    × ((k : Key)
        → forces k saved.1 ≡ (
            if same_key first_hash k && is_marked k three_marks
            then is_forced k three_marks ∷ []
            else []))
save_dirty-mark_all_example = save_dirty-mark_all (same_key first_hash) three_marks
