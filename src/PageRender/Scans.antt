-- ===== src/PageRender/Scans.antt =====
-- src/pageRender.c: the handlers of a scan. `send_command` of src/saneDispatcher.c, which passes a
-- command to the process that scans, is an argument; so is whether `pthread_create` makes a thread.
use opendias.Base.{ℕ, Bool, true, false, Option, none, some, [], ◌∷◌, ◌++◌, if◌then◌else◌, ◌==◌}
use opendias.Base.Exec.{Exec, ok}
use opendias.Base.CString.{CString, bytes, str_eq}
use opendias.Base.Int.{ℤ, pos, negsuc}
use opendias.Database.{text, Sqlite, RecordSet, each_last}
use opendias.Database.Run.{Run, return, ◌>>=◌, lift, run_query}
use opendias.Database.Binding.{vars_of}
use opendias.DbAccess.{
  set_scan_param, add_scan_progress, update_scan_progress, scan_waiting_on_scanner, scan_sane_busy,
}
use opendias.PageRender.Services.{tagged, response}
use opendias.PageRender.Entries.{status_entry, progress_entry}

-- "BUSY" and "ERROR" of the process become a response.
unfoldable pub scanner_answer : CString → CString
unfolding bytes
scanner_answer answer =
    if str_eq answer (bytes "BUSY")
    then bytes
        "<?xml version='1.0' encoding='iso-8859-1'?>\n<Response><error>BUSY</error></Response>"
    else if str_eq answer (bytes "ERROR")
    then bytes
        "<?xml version='1.0' encoding='iso-8859-1'?>\n<Response><error>ERROR</error></Response>"
    else answer

module _ (send_command : (command param : CString) → CString) where
  unfoldable pub get_scanner_list : (lang : CString) → CString
  unfolding bytes
  get_scanner_list lang = scanner_answer (send_command (bytes "internalGetScannerList") lang)

  unfoldable pub get_scanner_details : (deviceid lang : CString) → CString
  unfolding bytes
  get_scanner_details deviceid lang =
      scanner_answer
        (send_command (bytes "internalGetScannerDetails") (deviceid ++ (bytes "," ++ lang)))

  -- What the new thread runs.
  unfoldable pub do_scanning_operation : Sqlite → (uuid lang : CString) → Run ℕ
  unfolding bytes
  do_scanning_operation s uuid lang =
      if str_eq (send_command (bytes "internalDoScanningOperation") (uuid ++ (bytes "," ++ lang)))
        (bytes "BUSY")
      then update_scan_progress s uuid scan_sane_busy (pos 0)
      else return 0

abbrev pub select_status : CString
select_status =
    bytes "SELECT status                   FROM scan_progress                   WHERE client_id = ?"

abbrev pub select_progress : CString
select_progress =
    bytes
      "SELECT status, value                   FROM scan_progress                   WHERE client_id = ?"

unfoldable pub is_waiting : ℤ → Bool
is_waiting (pos n) = n == 7
is_waiting (negsuc n) = false

unfoldable pub page_ready : CString
unfolding bytes
page_ready = response (tagged (bytes "NextPageReady") (tagged (bytes "result") (bytes "OK")))

unfoldable pub status_of : Option RecordSet → Exec ℤ
status_of none = ok (pos 0)
status_of (some r) = each_last status_entry r

unfoldable pub progress_of : Option RecordSet → Exec (CString × CString)
unfolding bytes
progress_of none = ok (bytes "0", bytes "0")
progress_of (some r) = each_last progress_entry r

module _ (s : Sqlite) (thread : Bool) where
  unfoldable pub do_scan :
      (scan_uuid deviceid format resolution pages ocr pagelength : CString) → Run (Option CString)
  unfolding bytes
  do_scan scan_uuid deviceid format resolution pages ocr pagelength = do
    c1 ← set_scan_param s scan_uuid (pos 1) deviceid
    c2 ← set_scan_param s scan_uuid (pos 2) format
    c3 ← set_scan_param s scan_uuid (pos 3) ocr
    c4 ← set_scan_param s scan_uuid (pos 4) pages
    c5 ← set_scan_param s scan_uuid (pos 5) resolution
    c6 ← set_scan_param s scan_uuid (pos 9) pagelength
    c7 ← add_scan_progress s scan_uuid
    return (
        if thread
        then some (response (tagged (bytes "DoScan") (tagged (bytes "scanuuid") scan_uuid)))
        else none)

  unfoldable pub start_page : (scanid : CString) → (waiting : Bool) → Run (Option CString)
  start_page scanid false = return none
  start_page scanid true =
      if thread
      then (do
        code ← update_scan_progress s scanid scan_waiting_on_scanner (pos 0)
        return (some page_ready))
      else return none

  unfoldable pub next_page_ready : (scanid : CString) → Run (Option CString)
  next_page_ready scanid = do
    found ← run_query s select_status (some (vars_of (text scanid ∷ [])))
    status ← lift (status_of found)
    start_page scanid (is_waiting status)

unfoldable pub get_scanning_progress : Sqlite → (scanid : CString) → Run CString
unfolding bytes
get_scanning_progress s scanid = do
  found ← run_query s select_progress (some (vars_of (text scanid ∷ [])))
  (status, value) ← lift (progress_of found)
  return (
      response (
        tagged (bytes "ScanningProgress")
          (tagged (bytes "status") status ++ tagged (bytes "value") value)))
