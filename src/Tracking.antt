-- ===== src/Tracking.antt =====
-- src/sessions/session.cpp: the torrents that a session keeps track of, in its map by info hash: `Add`, `Find`
-- and `UntrackTorrent`; and `Torrents::Add` of src/torrents.cpp, which adds a torrent to a session. What libtorrent says of a torrent that it is given is an argument.
pub mod Covered
pub mod Shared
pub mod Apart
pub mod Adding
use porla.Base.{
  Bool, true, false, not, ◌||◌, List, [], ◌∷◌, Option, none, some, if◌then◌else◌, is_some,
}
use porla.HashMap.{Key, HashMap, try_emplace, erase, find_by_half}

-- `Torrent::State`.
pub data State : Type 0 where
  loading adding current : State

-- What `Add` sets of a `Torrent`; its status comes later.
pub record Tracked : Type 0 where
  pub state : State
  pub metadata_announced : Bool
  pub metadata_saved : Bool

-- `Add` returns true or false, or throws.
pub data Added : Type 0 where
  taken refused thrown : Added

abbrev pub new_tracked : Bool → State → Tracked
new_tracked has_info state = record {
  state = state;
  metadata_announced = has_info;
  metadata_saved = has_info;
}

-- The rest of `Add`, once the map was asked to insert the hash.
unfoldable pub hand_over : Key → Bool → HashMap Tracked × Bool → HashMap Tracked × Added
hand_over hash accepted (s, false) = (s, refused)
hand_over hash accepted (s, true) = if accepted then (s, taken) else (erase hash s, thrown)

-- `Add`: whether the parameters have a `torrent_info`, the state, and whether `async_add_torrent` returns.
unfoldable pub add : Key → Bool → State → Bool → HashMap Tracked → HashMap Tracked × Added
add hash has_info state accepted s =
    if is_some (find_by_half hash s)
    then (s, refused)
    else hand_over hash accepted (try_emplace hash (new_tracked has_info state) s)

abbrev pub is_current : State → Bool
is_current current = true
is_current _ = false

abbrev pub only_current : Option Tracked → Option Tracked
only_current none = none
only_current (some t) = if is_current t.state then some t else none

-- `Find`, but for the times that it brings up to date.
abbrev pub or_half : Option Tracked → Option Tracked → Option Tracked
or_half (some t) by_half = some t
or_half none by_half = by_half

unfoldable pub find : Key → HashMap Tracked → Option Tracked
find hash s = only_current (or_half (s.items hash) (find_by_half hash s))

-- `UntrackTorrent`: whether "torrent.removed" is published.
unfoldable pub untrack_found : Key → Option Tracked → HashMap Tracked → HashMap Tracked × Bool
untrack_found hash none s = (s, false)
untrack_found hash (some t) s = (erase hash s, is_current t.state)

unfoldable pub untrack : Key → HashMap Tracked → HashMap Tracked × Bool
untrack hash s = untrack_found hash (s.items hash) s

pub data Request : Type 0 where
  added : Key → Bool → State → Bool → Request
  untracked : Key → Request

unfoldable pub serve : Request → HashMap Tracked → HashMap Tracked
serve (added hash has_info state accepted) s = (add hash has_info state accepted s).0
serve (untracked hash) s = (untrack hash s).0

unfoldable pub serve_all : List Request → HashMap Tracked → HashMap Tracked
serve_all [] s = s
serve_all (r ∷ rs) s = serve_all rs (serve r s)

-- `TorrentsAddResult::Error`.
pub data Error : Type 0 where
  no_error session_not_found session_not_loaded already_in_session missing_preset : Error
  missing_info_hash missing_save_path invalid_data failed : Error

-- The hash is not `lt::info_hash_t()`.
abbrev pub has_half : Key → Bool
has_half k = is_some k.v1 || is_some k.v2

-- What `Torrents::Add` looks at in the parameters: whether the client data has a session that still lives, the
-- hash, whether the client data is valid UTF-8, and whether there is a path to save at.
pub record Params : Type 0 where
  pub has_session : Bool
  pub hash : Key
  pub has_info : Bool
  pub is_valid : Bool
  pub has_save_path : Bool

abbrev pub added_error : Added → Error
added_error taken = no_error
added_error refused = already_in_session
added_error thrown = failed

unfoldable pub with_error : HashMap Tracked × Added → HashMap Tracked × Error
with_error (s, r) = (s, added_error r)

-- `Torrents::Add`, on the torrents of the session; `accepted` as for `Session::Add`.
unfoldable pub add_torrent : Params → Bool → HashMap Tracked → HashMap Tracked × Error
add_torrent p accepted s =
    if not p.has_session
    then (s, session_not_loaded)
    else if not (has_half p.hash)
    then (s, missing_info_hash)
    else if not p.is_valid
    then (s, invalid_data)
    else if not p.has_save_path
    then (s, missing_save_path)
    else with_error (add p.hash p.has_info adding accepted s)
