-- ===== src/WebHandler/Post/Calls.antt =====
-- The handlers that src/web_handler.c calls for the actions, with the arguments that it passes. They
-- stand in src/pageRender.c, src/doc_editor.c and src/import_doc.c.
use opendias.Base.{ℕ, Option, none, some}
use opendias.Base.Exec.{Exec, ok}
use opendias.Base.CString.{CString}
use opendias.Base.Int.{ℤ}
use opendias.LinkedList.{Sll}
use opendias.WebHandler.Site.{Mimetype}

-- An argument that `getPostData` gives.
abbrev pub Arg : Type 0
Arg = Option CString

pub data Call : Type 0 where
  call_get_doc_detail : (docid : Arg) (lang : CString) → Call
  call_get_scanner_list : (lang : CString) → Call
  call_get_scanner_details : (deviceid : Arg) (lang : CString) → Call
  call_do_scan : (deviceid format resolution pages ocr pagelength : Arg) (lang : CString) → Call
  call_get_scanning_progress : (scanprogressid : Arg) → Call
  call_next_page_ready : (scanprogressid : Arg) (lang : CString) → Call
  call_update_doc_details : (docid key value : Arg) → Call
  call_update_tag_linkage : (docid tag subaction : Arg) → Call
  call_doc_filter :
      (subaction text_search is_action_required start_date end_date tags page range sortfield
        sortorder : Arg)
      (lang : CString)
      → Call
  call_do_delete : (docid : Arg) → Call
  call_extract_thumbnail : (docid : Arg) → Call
  call_uploadfile : (filename look_for_similar : Arg) (lang : CString) → Call
  call_title_auto_complete : (starts_with not_linked_to : Arg) → Call
  call_tags_auto_complete : (starts_with docid : Arg) → Call
  call_check_login :
      (username password : Arg) (lang : CString) (session_data : Option (Sll CString)) → Call
  call_do_logout : (session_data : Option (Sll CString)) → Call
  call_update_user :
      (username realname password role : Arg) (update_access : ℤ)
      (session_data : Option (Sll CString)) (lang : CString)
      → Call
  call_delete_user : (username : Arg) (lang : CString) → Call
  call_get_user_list : Call
  call_check_for_similar : (docid : Arg) → Call

-- Where the content comes from: a text, or a handler with the text that stands in where it returns
-- NULL.
pub data Body : Type 0 where
  text : CString → Body
  from : Call → Exec CString → Body

pub record Page : Type 0 where
  pub status : ℕ
  pub mimetype : Mimetype
  pub body : Body

-- The handlers change the state of the program and return a text or NULL.
module _ {W : Type 0} (handle : Call → W → W × Option CString) where
  or_else : Option CString → Exec CString → Exec CString
  or_else none otherwise = otherwise
  or_else (some content) otherwise = ok content

  unfoldable pub content : Body → W → W × Exec CString
  unfolding or_else
  content (text s) w = (w, ok s)
  content (from call otherwise) w =
      let (w', result) = handle call w in (w', or_else result otherwise)
