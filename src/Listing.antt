-- ===== src/Listing.antt =====
-- `torrents.list` and `torrents.count` of src/rpc/methods/torrents.cpp, with src/rpc/methods/resolve.cpp and
-- `Fields::Key` and `Fields::Compare` of src/fields.cpp. `Data` is what fields read of a torrent beyond the
-- members below. `PQL::Parse`, modelled by itself, is an argument.
pub mod Keys
pub mod Status
pub mod Paging
pub mod Response
pub mod Refusing
pub mod Slices
pub mod Pages
pub mod Ordering
pub mod Counting
use porla.Base.{
  ℕ, zero, suc, ◌*◌, Bool, true, false, not, ◌&&◌, ◌||◌, List, [], ◌∷◌, Option, none, some, Bytes,
  codes, bytes_eq, if◌then◌else◌, any_of, all_of,
}

-- `lt::torrent_status::state_t`.
pub data State : Type 0 where
  checking_files downloading_metadata downloading finished seeding checking_resume_data : State

-- `TorrentClientData`.
pub record ClientData : Type 0 where
  pub category : Option Bytes
  pub tags : List Bytes

module _ (Hash Data : Type 0) where
  pub record Torrent : Type 0 where
    pub is_valid : Bool
    pub info_hashes : Hash
    pub state : State
    pub paused : Bool
    pub auto_managed : Bool
    pub errc : Bool
    pub save_path : Bytes
    pub current_tracker : Bytes
    pub client_data : Option ClientData
    pub rest : Data
