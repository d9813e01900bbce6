-- ===== src/Daemon.antt =====
-- src/main.c: the settings, and the services that the program starts and stops. What it meets on its
-- machine is an argument, and so are the rows of the table `config`.
pub mod Balance
mod Tests
use opendias.Base.{
  ℕ, zero, suc, ◌%◌, ◌^◌, Bool, true, false, Option, none, some, List, [], ◌∷◌, ◌++◌, if◌then◌else◌,
  ◌==◌,
}
use opendias.Base.Exec.{Exec, ok, fault, ◌>>=◌}
use opendias.Base.CString.{CString, bytes, str_eq}
use opendias.Base.Int.{ℤ, pos, atoi, bits32}
use opendias.Database.{Row, RecordSet, read_data}

-- VERBOSITY, PORT (unsigned short), MAX_SESSIONS (unsigned short), MAX_SESSION_AGE (unsigned int), and
-- `startedServices.backpopulate`.
pub record Settings : Type 0 where
  pub verbosity : ℤ
  pub port : ℕ
  pub max_sessions : ℕ
  pub max_session_age : ℕ
  pub backpopulate : Bool

-- DEBUGM of src/debug.h
abbrev pub default_settings : Settings
default_settings = record {
  verbosity = pos 4;
  port = 8988;
  max_sessions = 10;
  max_session_age = 3600;
  backpopulate = false;
}

unfoldable pub set_option : Settings → (config_option config_value : CString) → Settings
unfolding bytes
set_option s config_option config_value =
    if str_eq config_option (bytes "log_verbosity")
    then record s { verbosity = atoi config_value }
    else if str_eq config_option (bytes "port")
    then record s { port = bits32 (atoi config_value) % 2 ^ 16 }
    else if str_eq config_option (bytes "max_sessions")
    then record s { max_sessions = bits32 (atoi config_value) % 2 ^ 16 }
    else if str_eq config_option (bytes "max_session_age")
    then record s { max_session_age = bits32 (atoi config_value) }
    else if str_eq config_option (bytes "backpopulate_phash")
    then if str_eq config_value (bytes "yes") then record s { backpopulate = true } else s
    else s

-- The rows of the table, one after the other.
unfoldable pub set_options : Settings → List RecordSet → Exec Settings
unfolding bytes
set_options s [] = ok s
set_options s (r ∷ rs) = do
  config_option ← read_data r (bytes "config_option")
  config_value ← read_data r (bytes "config_value")
  set_options (set_option s config_option config_value) rs

pub data Service : Type 0 where
  log : Service
  db : Service
  sessions : Service
  locale : Service
  httpd : Service

-- What the program does: `waited` is `waitForSaneProcesses`, `exited` the end with a code.
pub data Event : Type 0 where
  started : Service → Event
  stopped : Service → Event
  waited : Event
  backpopulated : Event
  exited : ℕ → Event

-- What a run of the program meets: whether the config file can be read, what `connect_db` returns and
-- how many connections to the database it leaves open, whether the two directories are there or can be
-- made, and whether the http service starts.
pub record Environment : Type 0 where
  pub config : Bool
  pub connected : ℕ
  pub connections : ℕ
  pub base_dir : Bool
  pub scans_dir : Bool
  pub http : Bool

-- `startedServices`, less the pid.
pub record Started : Type 0 where
  pub has_log : Bool
  pub has_db : Bool
  pub has_sessions : Bool
  pub has_locale : Bool
  pub has_httpd : Bool

-- What has been done, in order, and what is noted as started.
pub record Running : Type 0 where
  pub events : List Event
  pub services : Started

abbrev pub idle : Running
idle = record {
  events = [];
  services = record {
    has_log = false;
    has_db = false;
    has_sessions = false;
    has_locale = false;
    has_httpd = false;
  };
}

abbrev pub then_does : Running → List Event → Running
then_does r es = record r { events = r.events ++ es }

-- `startedServices.log = 1`, and its like.
unfoldable pub noted : Service → Running → Running
noted log r = record r { services = record (r.services) { has_log = true } }
noted db r = record r { services = record (r.services) { has_db = true } }
noted sessions r = record r { services = record (r.services) { has_sessions = true } }
noted locale r = record r { services = record (r.services) { has_locale = true } }
noted httpd r = record r { services = record (r.services) { has_httpd = true } }

-- A service that is started and noted.
abbrev pub with_service : Service → Running → Running
with_service x r = noted x (then_does r (started x ∷ []))

unfoldable pub stop_if : Bool → Service → List Event
stop_if true service = stopped service ∷ []
stop_if false service = []

unfoldable pub server_shutdown : Started → List Event
server_shutdown s =
    stop_if s.has_httpd httpd
    ++ (stop_if s.has_sessions sessions
        ++ (waited
            ∷ (stop_if s.has_locale locale ++ (stop_if s.has_db db ++ stop_if s.has_log log))))

-- The connections that `connect_db` leaves open.
unfoldable pub connections_made : ℕ → List Event
connections_made zero = []
connections_made (suc n) = started db ∷ connections_made n

-- `setup` returns a code, or the program has ended in it.
pub data SetUp : Type 0 where
  returned : ℕ → Running → SetUp
  ended : Running → SetUp

-- `createDir_ifRequired` ends the program, with no shutdown, where the directory cannot be made.
unfoldable pub create_dir_if_required : (there : Bool) → Running → (Running → SetUp) → SetUp
create_dir_if_required there r continue =
    if there then continue r else ended (then_does r (exited 1 ∷ []))

unfoldable pub setup : Environment → SetUp
setup env =
    let logging = with_service log idle in
    let connecting = then_does logging (connections_made env.connections) in
    if env.config
    then if env.connected == 1
      then returned 1 connecting
      else create_dir_if_required env.base_dir (noted db connecting) (λ r.
        create_dir_if_required env.scans_dir r (λ r'. returned 0 (with_service sessions r')))
    else returned 1 logging

-- `server_shutdown` and `exit`.
abbrev pub finish : ℕ → Running → List Event
finish code r = r.events ++ (server_shutdown r.services ++ exited code ∷ [])

unfoldable pub serve : Environment → Settings → SetUp → List Event
serve env settings (ended r) = r.events
serve env settings (returned code r) =
    if code == 1
    then finish 1 r
    else if env.http
    then finish 0 (
        then_does (with_service httpd (with_service locale r))
          (if settings.backpopulate then backpopulated ∷ [] else []))
    else finish 1 (with_service locale r)

-- `main` up to its end, or to the signal that ends a daemon, which shuts down in the same way.
unfoldable pub run_daemon : Environment → Settings → List Event
run_daemon env settings = serve env settings (setup env)
