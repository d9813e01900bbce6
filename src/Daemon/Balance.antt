-- ===== src/Daemon/Balance.antt =====
-- What is started is stopped, and what is not.
use opendias.Base.{
  ℕ, zero, suc, ◌+◌, ◌-◌, ◌≡◌, refl, inl, inr, Bool, true, false, ◌&&◌, List, [], ◌∷◌, ◌++◌,
  if◌then◌else◌, ◌==◌, Bool-cases, arith,
}
use opendias.Base.Exec.{ok}
use opendias.Database.{History, Sqlite}
use opendias.Database.Upgrade.{Files, connect_db}
use opendias.Database.Upgrade.Connections.{connect_db-opens}
use opendias.Daemon.{
  Settings, Service, log, db, sessions, locale, httpd, Event, started, stopped, waited,
  backpopulated, exited, Environment, noted, stop_if, server_shutdown, connections_made,
  create_dir_if_required, setup, serve, run_daemon,
}

unfoldable pub is_service : Service → Service → Bool
is_service log log = true
is_service db db = true
is_service sessions sessions = true
is_service locale locale = true
is_service httpd httpd = true
is_service a b = false

-- How often a service is started, and how often it is stopped.
unfoldable pub starts : Service → List Event → ℕ
starts x [] = 0
starts x (started y ∷ es) = (if is_service x y then 1 else 0) + starts x es
starts x (e ∷ es) = starts x es

unfoldable pub stops : Service → List Event → ℕ
stops x [] = 0
stops x (stopped y ∷ es) = (if is_service x y then 1 else 0) + stops x es
stops x (e ∷ es) = stops x es

starts-append : (x : Service) (a b : List Event) → starts x (a ++ b) ≡ starts x a + starts x b
unfolding starts
starts-append x [] b = omega arith
starts-append x (started y ∷ a) b = omega (arith, starts-append x a b)
starts-append x (stopped y ∷ a) b = starts-append x a b
starts-append x (waited ∷ a) b = starts-append x a b
starts-append x (backpopulated ∷ a) b = starts-append x a b
starts-append x (exited n ∷ a) b = starts-append x a b

stops-append : (x : Service) (a b : List Event) → stops x (a ++ b) ≡ stops x a + stops x b
unfolding stops
stops-append x [] b = omega arith
stops-append x (stopped y ∷ a) b = omega (arith, stops-append x a b)
stops-append x (started y ∷ a) b = stops-append x a b
stops-append x (waited ∷ a) b = stops-append x a b
stops-append x (backpopulated ∷ a) b = stops-append x a b
stops-append x (exited n ∷ a) b = stops-append x a b

starts-connections :
    (x : Service) (n : ℕ) → starts x (connections_made n) ≡ (if is_service x db then n else 0)
unfolding starts connections_made
starts-connections x zero = ground arith
starts-connections x (suc n) = ground (arith, starts-connections x n)

stops-connections : (x : Service) (n : ℕ) → stops x (connections_made n) ≡ 0
unfolding stops connections_made
stops-connections x zero = refl
stops-connections x (suc n) = stops-connections x n

ruleset counts = (starts-append, stops-append, starts-connections, stops-connections)

-- What a run leaves started. Where `connect_db` fails, no connection that it made is closed. Where a
-- directory cannot be made, neither the log nor the database is stopped. Otherwise one connection is
-- closed.
unfoldable pub left_started : Environment → Service → ℕ
left_started env x =
    let connections : ℕ → ℕ = λ n. if is_service x db then n else 0 in
    if env.config
    then if env.connected == 1
      then connections env.connections
      else if env.base_dir && env.scans_dir
      then connections (env.connections - 1)
      else (if is_service x log then 1 else 0) + connections env.connections
    else 0

-- However a run ends that meets what a run of `connect_db` gives, each service is started as often as it
-- is stopped and is left started: none but the connections to the database but for the last, those of a
-- `connect_db` that fails, and the log and the database where a directory cannot be made.
pub run_daemon-left_started :
    (env : Environment) (settings : Settings) (x : Service) (s : Sqlite) (f : Files)
    (h h' : History)
    → connect_db s f true h ≡ ok ((env.connected, env.connections), h')
    → starts x (run_daemon env settings) ≡ stops x (run_daemon env settings) + left_started env x
unfolding run_daemon setup serve server_shutdown stop_if noted create_dir_if_required left_started
    starts stops is_service
run_daemon-left_started env settings x s f h h' e = elim (Bool-cases env.config) [
  | inr unread ↦ rw unread (omega arith)
  | inl read ↦ elim (Bool-cases (env.connected == 1)) [
    | inl failed ↦ rw (read, failed) (simp counts (omega arith))
    | inr made ↦ elim (Bool-cases env.base_dir) [
      | inr no_base ↦ rw (read, made, no_base) (simp counts (omega arith))
      | inl base ↦ elim (Bool-cases env.scans_dir) [
        | inr no_scans ↦ rw (read, made, base, no_scans) (simp counts (omega arith))
        | inl scans ↦ elim (Bool-cases env.http) [
          | inr busy ↦
              rw (read, made, base, scans, busy)
                (simp counts
                  (ground (arith, connect_db-opens s f h h' env.connected env.connections e made)))
          | inl serving ↦ elim (Bool-cases settings.backpopulate) [
            | inl hashed ↦
                rw (read, made, base, scans, serving, hashed)
                  (simp counts (
                    ground (arith, connect_db-opens s f h h' env.connected env.connections e made)))
            | inr plain ↦
                rw (read, made, base, scans, serving, plain)
                  (simp counts (
                    ground (arith, connect_db-opens s f h h' env.connected env.connections e made)))
          ]
        ]
      ]
    ]
  ]
]
