-- ===== src/Torrent.antt =====
-- src/sessions/torrent.hpp: what a session keeps of a torrent, and the times of its status that move with the
-- clock. Times are in nanoseconds from the epoch of the clock, durations of activity in seconds.
pub mod Catching
use porla.Base.{ℕ, ◌+◌, ◌-◌, ◌*◌, ◌/◌, Bool, true, false, not, ◌&&◌, ◌||◌, if◌then◌else◌, ◌==◌}
use porla.Base.Integers.{ℤ, pos, negsuc}

-- The members of `lt::torrent_status` that are brought up to now, and those that this depends on.
pub record Status : Type 0 where
  pub paused : Bool
  pub is_seeding : Bool
  pub is_finished : Bool
  pub active_duration : ℕ
  pub seeding_duration : ℕ
  pub finished_duration : ℕ
  pub next_announce : ℤ

-- `time_refreshed_at` is 0 until the first status.
pub record Torrent : Type 0 where
  pub status : Status
  pub time_refreshed_at : ℕ

abbrev pub second : ℕ
second = 1000000000

-- The whole seconds since the status was refreshed; none if that is in the future.
unfoldable pub elapsed_since : ℕ → ℕ → ℕ
elapsed_since at now = (now - at) / second

abbrev pub add_if : Bool → ℕ → ℕ → ℕ
add_if b n elapsed = if b then n + elapsed else n

-- `std::max(zero, next_announce - elapsed)`.
unfoldable pub announce_after : ℤ → ℕ → ℤ
announce_after (pos n) elapsed = pos (n - elapsed * second)
announce_after (negsuc n) elapsed = pos 0

unfoldable pub advance : Bool → ℕ → Torrent → Torrent
advance live elapsed t = record t {
  status = record t.status {
    active_duration = add_if live t.status.active_duration elapsed;
    seeding_duration = add_if (live && t.status.is_seeding) t.status.seeding_duration elapsed;
    finished_duration = add_if (live && t.status.is_finished) t.status.finished_duration elapsed;
    next_announce = announce_after t.status.next_announce elapsed;
  };
  time_refreshed_at = t.time_refreshed_at + elapsed * second;
}

abbrev pub is_live : Bool → Torrent → Bool
is_live session_paused t = not t.status.paused && not session_paused

-- `RefreshTimestamps`.
unfoldable pub refresh_timestamps : ℕ → Bool → Torrent → Torrent
refresh_timestamps now session_paused t =
    if (t.time_refreshed_at == 0) || (elapsed_since t.time_refreshed_at now == 0)
    then t
    else advance (is_live session_paused t) (elapsed_since t.time_refreshed_at now) t
