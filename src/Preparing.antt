-- ===== src/Preparing.antt =====
-- src/torrents.cpp: `Torrents::Prepare`, which chooses the session of a torrent that is to be added, and applies
-- presets to its parameters. The presets and the sessions, which the database and other parts of the
-- program keep, are arguments.
pub mod Settings
pub mod Choosing
use porla.Base.{
  ℕ, ◌==◌, Bool, true, false, not, ◌&&◌, ◌||◌, List, [], ◌∷◌, Option, none, some, if◌then◌else◌,
  is_some, is_empty, Bytes, bytes_eq, codes,
}
use porla.Base.Integers.{ℤ}
use porla.Tracking.{Error, missing_preset, session_not_found, session_not_loaded}

-- `lt::torrent_flags_t`, as the bits that are set.
abbrev pub Flags : Type 0
Flags = ℕ → Bool

pub data Storage : Type 0 where
  allocate sparse : Storage

-- `Presets::Preset`, with what `Prepare` reads of it.
pub record Preset : Type 0 where
  pub id : ℕ
  pub session_id : Option ℕ
  pub download_limit : Option ℤ
  pub max_connections : Option ℤ
  pub max_uploads : Option ℤ
  pub upload_limit : Option ℤ
  pub save_path : Option Bytes
  pub storage_mode : Option Bytes
  pub flags : Option Flags
  pub flags_mask : Option Flags
  pub category : Option Bytes
  pub tags : List Bytes

-- What presets set of `lt::add_torrent_params` and of the client data in it.
pub record Params : Type 0 where
  pub download_limit : ℤ
  pub max_connections : ℤ
  pub max_uploads : ℤ
  pub upload_limit : ℤ
  pub save_path : Bytes
  pub storage_mode : Storage
  pub flags : Flags
  pub category : Option Bytes
  pub tags : List Bytes

abbrev pub set_if : {A : Type 0} → Option A → A → A
set_if none a = a
set_if (some b) a = b

abbrev pub is_mode : Bytes → Option Bytes → Bool
is_mode mode none = false
is_mode mode (some m) = bytes_eq m mode

abbrev pub set_storage : Option Bytes → Storage → Storage
set_storage m s =
    if is_mode (codes "sparse") m
    then sparse
    else if is_mode (codes "allocate") m
    then allocate
    else s

abbrev pub set_flags : Option Flags → Option Flags → Flags → Flags
set_flags (some flags) (some mask) f i = (f i && not (mask i)) || (flags i && mask i)
set_flags _ _ f i = f i

abbrev pub set_category : Option Bytes → Option Bytes → Option Bytes
set_category none c = c
set_category (some b) c = some b

abbrev pub set_tags : List Bytes → List Bytes → List Bytes
set_tags tags old = if is_empty tags then old else tags

-- `ApplyPreset`.
unfoldable pub apply_preset : Preset → Params → Params
apply_preset r p = record {
  download_limit = set_if r.download_limit p.download_limit;
  max_connections = set_if r.max_connections p.max_connections;
  max_uploads = set_if r.max_uploads p.max_uploads;
  upload_limit = set_if r.upload_limit p.upload_limit;
  save_path = set_if r.save_path p.save_path;
  storage_mode = set_storage r.storage_mode p.storage_mode;
  flags = set_flags r.flags r.flags_mask p.flags;
  category = set_category r.category p.category;
  tags = set_tags r.tags p.tags;
}

-- `TorrentsAddOptions`.
pub record Options : Type 0 where
  pub session_id : Option ℕ
  pub preset_id : Option ℕ
  pub preset : Option Bytes

-- What the presets and the sessions answer.
pub record Known : Type 0 where
  pub default_preset : Option Preset
  pub get : ℕ → Option Preset
  pub get_by_name : Bytes → Option Preset
  pub is_stored : ℕ → Bool
  pub default_session : Option ℕ
  pub is_loaded : ℕ → Bool

-- The parameters with their session, or an error with the session that it is about.
pub data Prepared : Type 0 where
  prepared : ℕ → Params → Prepared
  rejected : Error → Option ℕ → Prepared

abbrev pub preset_by_name : Known → Option Bytes → Option Preset
preset_by_name known none = none
preset_by_name known (some name) = known.get_by_name name

unfoldable pub choose_preset : Known → Option ℕ → Option Bytes → Option Preset
choose_preset known (some id) name = known.get id
choose_preset known none name = preset_by_name known name

abbrev pub session_of : Option Preset → Option ℕ
session_of none = none
session_of (some r) = r.session_id

abbrev pub or_next : Option ℕ → Option ℕ → Option ℕ
or_next none next = next
or_next (some id) next = some id

unfoldable pub wanted_session : Known → Options → Option Preset → Option ℕ
wanted_session known options preset =
    or_next options.session_id (or_next (session_of preset) (session_of known.default_preset))

abbrev pub if_stored : Known → ℕ → Option ℕ
if_stored known id = if known.is_stored id then some id else none

-- `Sessions::GetById` or `Sessions::GetDefault`.
unfoldable pub find_session : Known → Option ℕ → Option ℕ
find_session known none = known.default_session
find_session known (some id) = if_stored known id

abbrev pub apply_default : Option Preset → Params → Params
apply_default none p = p
apply_default (some r) p = apply_preset r p

-- The preset that was asked for, unless it is the default one.
unfoldable pub apply_chosen : Option Preset → Option Preset → Params → Params
apply_chosen none default p = p
apply_chosen (some r) none p = apply_preset r p
apply_chosen (some r) (some d) p = if r.id == d.id then p else apply_preset r p

unfoldable pub with_session : Known → Option Preset → Option ℕ → Option ℕ → Params → Prepared
with_session known preset wanted none p = rejected session_not_found wanted
with_session known preset wanted (some id) p =
    if known.is_loaded id
    then prepared id
        (apply_chosen preset known.default_preset (apply_default known.default_preset p))
    else rejected session_not_loaded (some id)

unfoldable pub with_preset : Known → Options → Option Preset → Params → Prepared
with_preset known options preset p =
    if (is_some options.preset || is_some options.preset_id) && not (is_some preset)
    then rejected missing_preset none
    else with_session known preset (wanted_session known options preset)
        (find_session known (wanted_session known options preset)) p

-- `Prepare`.
unfoldable pub prepare : Known → Options → Params → Prepared
prepare known options p =
    with_preset known options (choose_preset known options.preset_id options.preset) p
