-- ===== src/Examples/MapRuns.antt =====
-- src/sessions/infohashmap.hpp at concrete histories.
use porla.Base.{ℕ, List, [], ◌∷◌, none, some}
use porla.HashMap.{Key, HashMap, Call, emplaced, erased, rekeyed, calls, empty}
use porla.HashMap.Index.{IsIndexed, calls-empty-IsIndexed}

abbrev magnet : Key
magnet = record { v1 = some 11; v2 = none }

abbrev hybrid : Key
hybrid = record { v1 = some 11; v2 = some 22 }

abbrev other : Key
other = record { v1 = none; v2 = some 33 }

-- A magnet is added; its metadata gives it both hashes; another torrent comes and goes.
abbrev history : List (Call ℕ)
history = emplaced magnet 7 ∷ emplaced other 8 ∷ rekeyed magnet hybrid ∷ erased other ∷ []

calls-empty-IsIndexed_example : IsIndexed (calls history empty)
calls-empty-IsIndexed_example = calls-empty-IsIndexed history

abbrev with_magnet : HashMap ℕ
with_magnet = calls (emplaced magnet 7 ∷ []) empty
