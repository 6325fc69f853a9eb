-- ===== src/Examples/TorrentRuns.antt =====
-- src/sessions/torrent.hpp for a torrent that seeds.
use porla.Base.{◌≡◌, true, false, arith}
use porla.Base.Integers.{pos}
use porla.Torrent.{Torrent, refresh_timestamps}
use porla.Torrent.Catching.{refresh_timestamps-refresh_timestamps}

abbrev seeder : Torrent
seeder = record {
  status = record {
    paused = false;
    is_seeding = true;
    is_finished = true;
    active_duration = 100;
    seeding_duration = 10;
    finished_duration = 10;
    next_announce = pos 5000000000;
  };
  time_refreshed_at = 7000000000;
}

refresh_timestamps-refresh_timestamps_example :
    refresh_timestamps 9700000000 false (refresh_timestamps 8500000000 false seeder)
    ≡ refresh_timestamps 9700000000 false seeder
refresh_timestamps-refresh_timestamps_example =
    refresh_timestamps-refresh_timestamps 8500000000 9700000000 false seeder (omega arith)
