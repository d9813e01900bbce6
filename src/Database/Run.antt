-- ===== src/Database/Run.antt =====
-- Programs that use the database: `runquery_db` and `runUpdate_db` of src/db.c, and the sequence of
-- such calls.
use opendias.Base.{ℕ, Bool, Option, none, List, ◌∷◌, if◌then◌else◌, ◌&&◌, is_some}
use opendias.Base.Exec.{Exec, ok, fault}
use opendias.Base.CString.{CString}
use opendias.Database.{Value, History, Sqlite, Vars, bind_vars, RecordSet, record_set, kept_rows}

-- A program goes on from the statements that were given before, or it faults.
abbrev pub Run : Type 0 → Type 0
Run A = History → Exec (A × History)

abbrev pub return : {A : Type 0} → A → Run A
return a h = ok (a, h)

infixl 5 ◌>>=◌
abbrev pub ◌>>=◌ : {A B : Type 0} → Run A → (A → Run B) → Run B
◌>>=◌ m f h = elim (m h) [ ok (a, h') ↦ f a h' | fault ↦ fault ]

-- C code that does not use the database.
abbrev pub lift : {A : Type 0} → Exec A → Run A
lift (ok a) h = ok (a, h)
lift fault h = fault

module _ (s : Sqlite) where
  unfoldable pub queried : (given : Bool) → CString → Exec (List Value) → Run (Option RecordSet)
  queried given sql fault h = fault
  queried given sql (ok values) h =
      let h' : History = record { sql = sql; values = values } ∷ h in
      if given && s.is_error h' then ok (none, h') else ok (record_set (kept_rows (s.rows h')), h')

  -- A statement with variables whose execution fails gives no record set, whatever rows came before.
  unfoldable pub run_query : CString → Option Vars → Run (Option RecordSet)
  run_query sql vars = queried (is_some vars) sql (bind_vars vars)

  unfoldable pub updated : CString → Exec (List Value) → Run ℕ
  updated sql fault h = fault
  updated sql (ok values) h =
      let h' : History = record { sql = sql; values = values } ∷ h in
      ok (if s.is_error h' then 1 else 0, h')

  -- 1 for an error.
  unfoldable pub run_update : CString → Option Vars → Run ℕ
  run_update sql vars = updated sql (bind_vars vars)
