-- ===== src/Examples/PreparingRuns.antt =====
-- src/torrents.cpp with a default preset and one that is asked for by name.
use porla.Base.{◌≡◌, refl, true, [], ◌∷◌, none, some, codes, bytes_eq, if◌then◌else◌}
use porla.Base.Integers.{pos, neg}
use porla.Preparing.{
  Preset, Params, sparse, Options, Known, prepared, choose_preset, prepare, with_preset,
  with_session, find_session, wanted_session, apply_chosen, apply_preset,
}
use porla.Preparing.Choosing.{IsChosen, prepare-IsChosen}

abbrev plain : Preset
plain = record {
  id = 1;
  session_id = some 4;
  download_limit = some (pos 100);
  max_connections = some (pos 20);
  max_uploads = none;
  upload_limit = none;
  save_path = some (codes "/data");
  storage_mode = none;
  flags = none;
  flags_mask = none;
  category = none;
  tags = codes "a" ∷ [];
}

abbrev films : Preset
films = record plain {
  id = 2;
  session_id = none;
  download_limit = some (pos 7);
  max_connections = none;
  category = some (codes "films");
  tags = [];
}

abbrev some_known : Known
some_known = record {
  default_preset = some plain;
  get = λ id. none;
  get_by_name = λ name. if bytes_eq name (codes "films") then some films else none;
  is_stored = λ id. true;
  default_session = some 0;
  is_loaded = λ id. true;
}

abbrev some_options : Options
some_options = record { session_id = none; preset_id = none; preset = some (codes "films") }

abbrev given : Params
given = record {
  download_limit = neg 1;
  max_connections = neg 1;
  max_uploads = neg 1;
  upload_limit = neg 1;
  save_path = [];
  storage_mode = sparse;
  flags = λ i. true;
  category = none;
  tags = [];
}

abbrev expected : Params
expected = record given {
  download_limit = pos 7;
  max_connections = pos 20;
  save_path = codes "/data";
  category = some (codes "films");
  tags = codes "a" ∷ [];
}

prepare_runs : prepare some_known some_options given ≡ prepared 4 expected
unfolding prepare with_preset with_session choose_preset find_session wanted_session apply_chosen
    apply_preset bytes_eq
prepare_runs = refl

prepare-IsChosen_example :
    IsChosen some_known some_options
      (choose_preset some_known none (some (codes "films")))
      given
      4
      expected
unfolding choose_preset bytes_eq
prepare-IsChosen_example =
    prepare-IsChosen some_known some_options given 4 expected (λ e. cc) prepare_runs
