-- ===== src/Database/Upgrade.antt =====
-- `connect_db` of src/db.c: the version of the database, and the scripts that bring it up to date.
-- The files are arguments: whether the database is there, whether it opens, and the scripts.
pub mod Order
pub mod Connections
use opendias.Base.{
  ℕ, zero, suc, ◌+◌, ◌-◌, ◌≡◌, refl, ap, ◌≢◌, Bool, true, false, not, ◌&&◌, Option, none, some,
  List, [], ◌∷◌, ◌++◌, if◌then◌else◌, ◌==◌, arith, Bool-cases, Option-cases, inl, inr,
}
use opendias.Base.Exec.{Exec, ok, fault}
use opendias.Base.CString.{CString, bytes}
use opendias.Base.Int.{ℤ, pos, negsuc, is_zero, atoi}
use opendias.Database.{
  Value, text, Statement, History, Sqlite, Vars, bind_vars, RecordSet, read_data,
}
use opendias.Database.Run.{Run, return, ◌>>=◌, lift, run_query, run_update}
use opendias.Database.Binding.{vars_of}

-- DB_VERSION of configure.ac
abbrev pub db_version : ℕ
db_version = 7

-- What `connect_db` finds in the file system. A script is `none` where it is empty or cannot be read.
pub record Files : Type 0 where
  pub database : Bool
  pub misplaced : Bool
  pub opens : Bool
  pub script : ℤ → Option CString
  pub base_dir : CString

abbrev suc_ℤ : ℤ → ℤ
suc_ℤ (pos n) = pos (suc n)
suc_ℤ (negsuc zero) = pos 0
suc_ℤ (negsuc (suc n)) = negsuc n

-- How many numbers there are from behind `version` to DB_VERSION.
abbrev pub rounds_from : ℤ → ℕ
rounds_from (pos n) = db_version - n
rounds_from (negsuc n) = db_version + suc n

module _ (s : Sqlite) where
  version_of : Option RecordSet → Run ℤ
  version_of none = return (pos 0)
  version_of (some r) = do v ← lift (read_data r (bytes "version")); return (atoi v)

  version_in : Option RecordSet → Run ℤ
  unfolding version_of
  version_in none = return (pos 0)
  version_in (some r) = do
    found ← run_query s (bytes "SELECT version FROM version") none
    version_of found

  unfoldable pub get_db_version : Run ℤ
  unfolding version_in bytes
  get_db_version = do
    table ← run_query s (bytes "pragma table_info('version')") none
    version_in table

  module _ (f : Files) where
    run_script : Option CString → Run ℕ
    run_script none = return 0
    run_script (some sql) = run_update s sql none

    -- The loop over the versions, with as many rounds as there are versions left.
    unfoldable pub upgrade : (rounds : ℕ) (i : ℤ) → Run ℕ
    unfolding run_script
    upgrade zero i = return 0
    upgrade (suc rounds) i =
        let rest = upgrade rounds (suc_ℤ i) in
        (do rc ← run_script (f.script i); if rc == 1 then return 1 else rest)

    -- A database that was made from nothing gets its directory.
    new_directory : ℤ → Run ℕ
    new_directory version =
        if is_zero version
        then (do
          rc ←
              run_update s
                (bytes "UPDATE config SET config_value = ? WHERE config_option = 'scan_directory'")
                (some (vars_of (text f.base_dir ∷ [])))
          return 0)
        else return 0

    bring_up_to_date : ℤ → Run ℕ
    unfolding new_directory
    bring_up_to_date version = do
      rc ← upgrade (rounds_from version) (suc_ℤ version)
      if rc == 1 then return 1 else new_directory version

    -- Opens the database, if it may, for its version; `none` where it does not open. The number counts
    -- the connections that are open, and goes up with each.
    unfoldable pub open_version : Bool → ℤ × ℕ → Run (Option ℤ × ℕ)
    open_version may (version, connections) =
        if may
        then (if f.opens
            then (do v ← get_db_version; return (some v, connections + 1))
            else return (none, connections))
        else return (some version, connections)

    unfoldable pub connected : (create : Bool) → Option ℤ × ℕ → Run (ℕ × ℕ)
    unfolding bring_up_to_date
    connected create (none, connections) = return (1, connections)
    connected create (some version, connections) =
        if is_zero version && not create
        then return (1, connections)
        else (do code ← bring_up_to_date version; return (code, connections))

    unfoldable pub created : (create : Bool) → Option ℤ × ℕ → Run (ℕ × ℕ)
    created create (none, connections) = return (1, connections)
    created create (some version, connections) = do
      again ← open_version (is_zero version && create) (version, connections)
      connected create again

    -- The code, 0 where the database is connected, and how many connections are left open. A database of
    -- v0.8 that stands in the wrong place is moved.
    unfoldable pub connect_db : (create : Bool) → Run (ℕ × ℕ)
    unfolding bytes
    connect_db create = do
      first ← open_version (if f.database then true else f.misplaced) (pos 0, 0)
      created create first

    with_script : Option CString → List Statement → List Statement
    with_script none rest = rest
    with_script (some sql) rest = record { sql = sql; values = [] } ∷ rest

    -- The scripts from a version on, in their order.
    unfoldable pub scripts : (rounds : ℕ) (i : ℤ) → List Statement
    unfolding with_script
    scripts zero i = []
    scripts (suc rounds) i = with_script (f.script i) (scripts rounds (suc_ℤ i))
