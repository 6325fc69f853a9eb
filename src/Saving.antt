-- ===== src/Saving.antt =====
-- `MarkDirty`, `SaveDirty` and the part of `Stop` that ends them (src/sessions/session.cpp): which torrents are
-- saved, half a second after a change. The map of the dirty torrents is a list, in the order of their
-- first marks; the order of a `std::map` is left out.
pub mod Requests
use porla.Base.{
  ℕ, Bool, true, false, not, ◌&&◌, ◌||◌, List, [], ◌∷◌, Option, none, some, if◌then◌else◌, is_empty,
}
use porla.HashMap.{Key, same_key}

-- `m_dirty`, with whether the save is forced, and `m_dirty_armed`.
pub record Dirty : Type 0 where
  pub marks : List (Key × Bool)
  pub armed : Bool

abbrev pub clean : Dirty
clean = record { marks = []; armed = false }

-- `m_dirty[hash] = m_dirty[hash] || force`.
unfoldable pub mark : Key → Bool → List (Key × Bool) → List (Key × Bool)
mark hash force [] = (hash, force) ∷ []
mark hash force ((key, forced) ∷ marks) =
    let rest = mark hash force marks in
    if same_key key hash then (key, forced || force) ∷ marks else (key, forced) ∷ rest

-- `MarkDirty`, and whether it arms the timer.
unfoldable pub mark_dirty : Key → Bool → Dirty → Dirty × Bool
mark_dirty hash force d = (record { marks = mark hash force d.marks; armed = true }, not d.armed)

-- The loop of `SaveDirty`: the saves that are asked for. A torrent is valid if it is in the map of
-- torrents and its handle is valid.
unfoldable pub requests : (Key → Bool) → List (Key × Bool) → List (Key × Bool)
requests is_valid [] = []
requests is_valid ((hash, force) ∷ marks) =
    let rest = requests is_valid marks in if is_valid hash then (hash, force) ∷ rest else rest

-- `SaveDirty`.
unfoldable pub save_dirty : (Key → Bool) → Dirty → Dirty × List (Key × Bool)
save_dirty is_valid d = (clean, requests is_valid d.marks)

-- What `Stop` does to the marks, after it has read them.
unfoldable pub stop_saving : Dirty → Dirty
stop_saving d = clean

-- The calls of `MarkDirty` one after another, and how often the timer is armed.
unfoldable pub mark_all : List (Key × Bool) → Dirty → Dirty × List Bool
mark_all [] d = (d, [])
mark_all ((hash, force) ∷ calls) d =
    let (d, arms) = mark_dirty hash force d in let (d, more) = mark_all calls d in (d, arms ∷ more)
