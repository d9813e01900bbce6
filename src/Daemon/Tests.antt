-- ===== src/Daemon/Tests.antt =====
-- Runs of the program.
use opendias.Base.{◌+◌, ◌≡◌, refl, true, false, none, some, [], ◌∷◌}
use opendias.Base.Exec.{ok}
use opendias.Database.{
  History, Sqlite, bind_vars, record_set, kept_rows, kept_row, column_text, read_data,
}
use opendias.Database.Run.{run_query, queried}
use opendias.Database.Upgrade.{
  Files, get_db_version, upgrade, open_version, connected, created, connect_db,
}
use opendias.Base.CString.{bytes, str_eq}
use opendias.Base.Int.{atoi, bits32, signed_value, skip_space, digits_value, to_int32}
use opendias.Daemon.{
  default_settings, set_option, db, locale, log, sessions, started, stopped, waited, exited,
  Environment, noted, stop_if, server_shutdown, connections_made, create_dir_if_required, setup,
  serve, run_daemon,
}
use opendias.Daemon.Balance.{starts, stops, left_started, run_daemon-left_started}

-- A port beyond 16 bits wraps around.
port-wraps : (set_option default_settings (bytes "port") (bytes "65616")).port ≡ 80
unfolding set_option str_eq bytes atoi signed_value skip_space digits_value to_int32 bits32
port-wraps = refl

-- A run that does not fail.
abbrev normal : Environment
normal = record {
  config = true;
  connected = 0;
  connections = 1;
  base_dir = true;
  scans_dir = true;
  http = true;
}

-- The port is in use.
run-busy :
    run_daemon (record normal { http = false }) default_settings
    ≡ started log
      ∷ started db
      ∷ started sessions
      ∷ started locale
      ∷ stopped sessions
      ∷ waited
      ∷ stopped locale
      ∷ stopped db
      ∷ stopped log
      ∷ exited 1
      ∷ []
unfolding run_daemon setup serve server_shutdown stop_if noted create_dir_if_required
    connections_made
run-busy = refl

-- The directory of the scans cannot be made.
run-no_scans :
    run_daemon (record normal { scans_dir = false }) default_settings
    ≡ started log ∷ started db ∷ exited 1 ∷ []
unfolding run_daemon setup serve noted create_dir_if_required connections_made
run-no_scans = refl

-- A database of this version: its table `version` has one row.
abbrev current : Sqlite
current = record {
  rows = λ h. ((bytes "version", some (bytes "7")) ∷ []) ∷ [];
  is_error = λ h. false;
}

abbrev installed : Files
installed = record {
  database = true;
  misplaced = false;
  opens = true;
  script = λ i. none;
  base_dir = bytes "/home/opendias";
}

connected_run : (h : History) × (connect_db current installed true [] ≡ ok ((0, 1), h))
unfolding connect_db created open_version connected get_db_version upgrade bytes run_query queried
    bind_vars record_set kept_rows read_data kept_row str_eq atoi column_text to_int32 digits_value
connected_run = (_, refl)

run_daemon-left_started_example :
    starts db (run_daemon normal default_settings)
    ≡ stops db (run_daemon normal default_settings) + left_started normal db
run_daemon-left_started_example =
    run_daemon-left_started normal default_settings db current installed [] connected_run.0
      connected_run.1
