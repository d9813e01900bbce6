-- ===== src/Handlers.antt =====
-- The calls of src/web_handler.c answered by the handlers of src/pageRender.c and src/doc_editor.c.
-- `getPostData` gives NULL for a field that is not there; a handler that reads it faults.
pub mod Stranger
pub mod Bound
mod Tests
use opendias.Base.{ℕ, Bool, Option, none, some, List, [], ◌∷◌}
use opendias.Base.Exec.{Exec, ok, fault}
use opendias.Base.CString.{CString}
use opendias.Base.Int.{ℤ}
use opendias.LinkedList.{Sll}
use opendias.Database.{History, Sqlite}
use opendias.Database.Run.{Run, return, ◌>>=◌, lift}
use opendias.PageRender.Services.{Services}
use opendias.PageRender.Login.{Session, check_login, do_logout}
use opendias.PageRender.Users.{update_user, delete_user, get_user_list}
use opendias.PageRender.DocFilter.Results.{doc_filter}
use opendias.PageRender.Completion.{title_auto_complete, tags_auto_complete}
use opendias.PageRender.Scans.{
  get_scanner_list, get_scanner_details, do_scan, next_page_ready, get_scanning_progress,
}
use opendias.PageRender.Similar.{check_for_similar}
use opendias.DocEditor.{update_doc_details, update_tag_linkage, do_delete}
use opendias.DocEditor.Detail.{get_doc_detail}
use opendias.WebHandler.Post.Calls.{
  Arg, Call, call_get_doc_detail, call_get_scanner_list, call_get_scanner_details, call_do_scan,
  call_get_scanning_progress, call_next_page_ready, call_update_doc_details,
  call_update_tag_linkage, call_doc_filter, call_do_delete, call_extract_thumbnail, call_uploadfile,
  call_title_auto_complete, call_tags_auto_complete, call_check_login, call_do_logout,
  call_update_user, call_delete_user, call_get_user_list, call_check_for_similar,
}

-- What the handlers use of the machine and of the parts that are not modelled: `others` answers the
-- calls of the handlers for thumbnails and uploads.
pub record Machine : Type 0 where
  pub sqlite : Sqlite
  pub services : Services
  pub now : ℕ
  pub uuid : CString
  pub thread : Bool
  pub last_insert : History → ℤ
  pub base_dir : CString
  pub print_int : ℤ → CString
  pub send_command : (command param : CString) → CString
  pub distance : (hash0 hash1 : CString) → ℤ
  pub others : Call → Run (Option CString)

abbrev pub needed : Arg → Run CString
needed none = lift fault
needed (some s) = return s

-- The session after the call, and its answer.
abbrev pub Answer : Type 0
Answer = Option Session × Option CString

module _ (m : Machine) where
  -- A handler that leaves the session alone.
  abbrev pub apart : Run (Option CString) → Run Answer
  apart run = do answer ← run; return (none, answer)

  abbrev pub always : Run CString → Run Answer
  always run = do answer ← run; return (none, some answer)

  -- No session is a NULL pointer, the empty list.
  abbrev pub session_of : Option (Sll CString) → Session
  session_of none = []
  session_of (some session) = session

  abbrev pub kept : Session × Option CString → Answer
  kept (session, answer) = (some session, answer)

  unfoldable pub handle : Call → Run Answer
  handle (call_get_doc_detail docid lang) = do
    docid ← needed docid
    apart (get_doc_detail m.sqlite m.services docid lang)
  handle (call_get_scanner_list lang) = return (none, some (get_scanner_list m.send_command lang))
  handle (call_get_scanner_details deviceid lang) = do
    deviceid ← needed deviceid
    return (none, some (get_scanner_details m.send_command deviceid lang))
  handle (call_do_scan deviceid format resolution pages ocr pagelength lang) = do
    deviceid ← needed deviceid
    format ← needed format
    ocr ← needed ocr
    pages ← needed pages
    resolution ← needed resolution
    pagelength ← needed pagelength
    apart (do_scan m.sqlite m.thread m.uuid deviceid format resolution pages ocr pagelength)
  handle (call_get_scanning_progress scanprogressid) = do
    scanid ← needed scanprogressid
    always (get_scanning_progress m.sqlite scanid)
  handle (call_next_page_ready scanprogressid lang) = do
    scanid ← needed scanprogressid
    apart (next_page_ready m.sqlite m.thread scanid)
  handle (call_update_doc_details docid key value) = do
    docid ← needed docid
    key ← needed key
    apart (update_doc_details m.sqlite docid key value)
  handle (call_update_tag_linkage docid tag subaction) = do
    docid ← needed docid
    tag ← needed tag
    subaction ← needed subaction
    apart (update_tag_linkage m.sqlite m.last_insert docid tag subaction)
  handle
        (call_doc_filter subaction text_search is_action_required start_date end_date tags page
          range sortfield sortorder lang) =
      do
        subaction ← needed subaction
        always (
            doc_filter m.sqlite m.services m.print_int subaction text_search is_action_required
              start_date end_date tags page range sortfield sortorder lang)
  handle (call_do_delete docid) = do
    docid ← needed docid
    (files, answer) ← do_delete m.sqlite m.base_dir m.print_int docid
    return (none, answer)
  handle (call_title_auto_complete starts_with not_linked_to) = do
    starts_with ← needed starts_with
    always (title_auto_complete m.sqlite starts_with not_linked_to)
  handle (call_tags_auto_complete starts_with docid) = do
    starts_with ← needed starts_with
    docid ← needed docid
    always (tags_auto_complete m.sqlite starts_with docid)
  handle (call_check_login username password lang session_data) = do
    username ← needed username
    password ← needed password
    found ← check_login m.sqlite m.services username password lang m.now (session_of session_data)
    return (kept found)
  handle (call_do_logout session_data) =
      let (session, answer) = do_logout (session_of session_data) in
      return (some session, some answer)
  handle (call_update_user username realname password role update_access session_data lang) = do
    username ← needed username
    always (
        update_user m.sqlite m.services username realname password role update_access
          (session_of session_data) lang)
  handle (call_delete_user username lang) = do
    username ← needed username
    always (delete_user m.sqlite m.services username lang)
  handle call_get_user_list = apart (get_user_list m.sqlite)
  handle (call_extract_thumbnail docid) = apart (m.others (call_extract_thumbnail docid))
  handle (call_uploadfile filename look lang) =
      apart (m.others (call_uploadfile filename look lang))
  handle (call_check_for_similar docid) = do
    docid ← needed docid
    apart (check_for_similar m.sqlite m.distance m.print_int docid)
