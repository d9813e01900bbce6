-- ===== src/DbAccess.antt =====
-- src/dbaccess.c: the statements on documents, tags, links and scans.
pub mod Documents
pub mod Tags
use opendias.Base.{ℕ, Bool, Option, none, some, List, [], ◌∷◌, ◌++◌}
use opendias.Base.Exec.{Exec, ok, fault}
use opendias.Base.CString.{CString, bytes}
use opendias.Base.Int.{ℤ, pos, atoi}
use opendias.Database.{Value, text, int, Sqlite, RecordSet, read_data}
use opendias.Database.Run.{Run, return, ◌>>=◌, lift, run_query, run_update}
use opendias.Database.Binding.{vars_of}

abbrev pub scan_idle : ℤ
scan_idle = pos 0

abbrev pub scan_waiting_on_scanner : ℤ
scan_waiting_on_scanner = pos 4

abbrev pub scan_waiting_on_new_page : ℤ
scan_waiting_on_new_page = pos 7

abbrev pub scan_sane_busy : ℤ
scan_sane_busy = pos 13

module _ (s : Sqlite) where
  -- A statement whose result code is kept, and one whose code is not looked at, are the same.
  abbrev pub update : CString → List Value → Run ℕ
  update sql values = run_update s sql (some (vars_of values))

  unfoldable pub set_scan_param : (uuid : CString) (param : ℤ) (vvalue : CString) → Run ℕ
  unfolding bytes
  set_scan_param uuid param vvalue =
      update
        (bytes
          "INSERT OR REPLACE                         INTO scan_params                         (client_id, param_option, param_value)                         VALUES (?, ?, ?);")
        (text uuid ∷ int param ∷ text vvalue ∷ [])

  unfoldable pub add_scan_progress : (uuid : CString) → Run ℕ
  unfolding bytes
  add_scan_progress uuid =
      update (bytes "INSERT INTO scan_progress (client_id, status, value) VALUES (?, ?, 0);")
        (text uuid ∷ int scan_idle ∷ [])

  unfoldable pub update_scan_progress : (uuid : CString) (status value : ℤ) → Run ℕ
  unfolding bytes
  update_scan_progress uuid status value =
      update
        (bytes
          "UPDATE scan_progress                                    SET status = ?,                                        value = ?                                    WHERE client_id = ? ")
        (int status ∷ int value ∷ text uuid ∷ [])

  param_value : Option RecordSet → Exec (Option CString)
  unfolding bytes
  param_value none = ok none
  param_value (some r) =
      opendias.Base.Exec.◌>>=◌ (read_data r (bytes "param_value")) (λ v. ok (some v))

  unfoldable pub get_scan_param : (scanid : CString) (param_option : ℤ) → Run (Option CString)
  unfolding bytes param_value
  get_scan_param scanid param_option = do
    found ←
        run_query s
          (bytes
            "SELECT param_value                   FROM scan_params                   WHERE client_id = ?                   AND param_option = ?")
          (some (vars_of (text scanid ∷ int param_option ∷ [])))
    lift (param_value found)

  unfoldable pub do_update_doc_value : (kkey : CString) → List Value → Run ℕ
  unfolding bytes
  do_update_doc_value kkey values =
      update (bytes "UPDATE docs SET " ++ (kkey ++ bytes " = ? WHERE docid = ?")) values

  unfoldable pub update_doc_value_int : (docid kkey : CString) (vvalue : ℤ) → Run ℕ
  update_doc_value_int docid kkey vvalue = do_update_doc_value kkey (int vvalue ∷ text docid ∷ [])

  unfoldable pub update_doc_value : (docid kkey vvalue : CString) → Run ℕ
  update_doc_value docid kkey vvalue = do_update_doc_value kkey (text vvalue ∷ text docid ∷ [])

  unfoldable pub update_new_scanned_page : (docid : ℤ) (ocr_text : CString) (page : ℤ) → Run ℕ
  unfolding bytes
  update_new_scanned_page docid ocr_text page =
      update (bytes "UPDATE docs SET pages = ?, ocrText = ocrText || ? WHERE docid = ?")
        (int page ∷ text ocr_text ∷ int docid ∷ [])

  unfoldable pub add_doc_to_doc : (docid linkdocid : CString) → Run ℕ
  unfolding bytes
  add_doc_to_doc docid linkdocid =
      update (bytes "INSERT INTO doc_links (docid, linkeddocid) VALUES (?, ?) ")
        (text docid ∷ text linkdocid ∷ [])

  unfoldable pub remove_doc_from_doc : (docid linkdocid : CString) → Run ℕ
  unfolding bytes
  remove_doc_from_doc docid linkdocid =
      update (bytes "DELETE FROM doc_links WHERE docid = ? AND linkeddocid = ? ")
        (text docid ∷ text linkdocid ∷ [])

  unfoldable pub remove_doc_tags : (docid : CString) → Run ℕ
  unfolding bytes
  remove_doc_tags docid =
      update (bytes "DELETE FROM doc_tags WHERE docid = ?") (int (atoi docid) ∷ [])

  unfoldable pub remove_doc_links : (docid : CString) → Run ℕ
  unfolding bytes
  remove_doc_links docid = do
    code ← update (bytes "DELETE FROM doc_links WHERE docid = ?") (int (atoi docid) ∷ [])
    update (bytes "DELETE FROM doc_links WHERE linkeddocid = ?") (int (atoi docid) ∷ [])

  unfoldable pub remove_doc : (docid : CString) → Run ℕ
  unfolding bytes
  remove_doc docid = update (bytes "DELETE FROM docs WHERE docid = ?") (int (atoi docid) ∷ [])
