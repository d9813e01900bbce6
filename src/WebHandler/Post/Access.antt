-- ===== src/WebHandler/Post/Access.antt =====
-- Which request calls which handler: the privileges, the switches and the calls by action.
use opendias.Base.{
  ℕ, ◌≡◌, refl, ◌≢◌, ◌↔◌, ◌⊎◌, inl, inr, Bool, true, false, not, ◌&&◌, Option, none, some, List, [],
  ◌∷◌, if◌then◌else◌, ◌==◌, arith, Any, Bool-cases, Option-cases,
}
use opendias.Base.Exec.{Exec, ok, ◌>>=◌}
use opendias.Base.CString.{CString, bytes}
use opendias.Base.Int.{ℤ, is_zero}
use opendias.LinkedList.{Sll}
use opendias.Validation.Fields.{Build}
use opendias.Validation.Keys.{PostData}
use opendias.Validation.Blocks.{field}
use opendias.Validation.Actions.Table.{
  Action, get_doc_detail, get_scanner_list, get_scanner_details, do_scan, get_scanning_progress,
  next_page_ready, update_doc_details, check_for_similar, move_tag, doc_filter, delete_doc,
  regenerate_thumb, title_auto_complete, tags_auto_complete, check_login, logout, update_user,
  create_user, delete_user, get_user_list, upload_file, name, is_built,
}
use opendias.WebHandler.Site.{Site, Privileges, Mimetype, html, xml, json, paragraph}
use opendias.WebHandler.Files.{build_page}
use opendias.WebHandler.Post.Calls.{
  Call, call_get_doc_detail, call_get_scanner_list, call_get_scanner_details, call_do_scan,
  call_get_scanning_progress, call_next_page_ready, call_update_doc_details,
  call_update_tag_linkage, call_doc_filter, call_do_delete, call_extract_thumbnail, call_uploadfile,
  call_title_auto_complete, call_tags_auto_complete, call_check_login, call_do_logout,
  call_update_user, call_delete_user, call_get_user_list, call_check_for_similar, Body, text, Page,
}
use opendias.WebHandler.Post.Branches
use opendias.WebHandler.Post.{action_page}

-- The privilege that an action needs, if any.
abbrev pub privilege : Privileges → Action → Option ℤ
privilege p get_scanner_list = some p.add_scan
privilege p get_scanner_details = some p.add_scan
privilege p do_scan = some p.add_scan
privilege p get_scanning_progress = some p.add_scan
privilege p next_page_ready = some p.add_scan
privilege p update_doc_details = some p.edit_doc
privilege p check_for_similar = some p.edit_doc
privilege p move_tag = some p.edit_doc
privilege p regenerate_thumb = some p.edit_doc
privilege p delete_doc = some p.delete_doc
privilege p upload_file = some p.add_import
privilege p check_login = none
privilege p logout = none
privilege p update_user = none
privilege p create_user = some p.update_access
privilege p delete_user = some p.update_access
privilege p get_user_list = some p.update_access
privilege p _ = some p.view_doc

-- The switches compile in the handler of the action.
abbrev pub is_served : Build → Action → Bool
is_served b check_for_similar = b.can_phash
is_served b a = is_built b a

abbrev pub mimetype : Action → Mimetype
mimetype upload_file = html
mimetype title_auto_complete = json
mimetype tags_auto_complete = json
mimetype check_login = json
mimetype logout = json
mimetype update_user = json
mimetype create_user = json
mimetype delete_user = json
mimetype get_user_list = json
mimetype _ = xml

-- The privilege, where one is needed, is there.
abbrev pub IsAllowed : Option ℤ → Type 0
IsAllowed none = Unit
IsAllowed (some v) = is_zero v ≡ false

abbrev pub gate : Option ℤ → Body → Exec Body → Exec Body
gate none refusal branch = branch
gate (some v) refusal branch = if is_zero v then ok refusal else branch

module _ (site : Site) (privs : Privileges) (lang : CString) (session : Option (Sll CString)) where
  -- The call for an action, with its arguments from the post data.
  abbrev pub call : Action → PostData → Call
  call get_doc_detail p = call_get_doc_detail (field p (bytes "docid")) lang
  call get_scanner_list p = call_get_scanner_list lang
  call get_scanner_details p = call_get_scanner_details (field p (bytes "deviceid")) lang
  call do_scan p =
      call_do_scan (field p (bytes "deviceid")) (field p (bytes "format"))
        (field p (bytes "resolution")) (field p (bytes "pages")) (field p (bytes "ocr"))
        (field p (bytes "pagelength")) lang
  call get_scanning_progress p = call_get_scanning_progress (field p (bytes "scanprogressid"))
  call next_page_ready p = call_next_page_ready (field p (bytes "scanprogressid")) lang
  call update_doc_details p =
      call_update_doc_details (field p (bytes "docid")) (field p (bytes "kkey"))
        (field p (bytes "vvalue"))
  call check_for_similar p = call_check_for_similar (field p (bytes "docid"))
  call move_tag p =
      call_update_tag_linkage (field p (bytes "docid")) (field p (bytes "tag"))
        (field p (bytes "subaction"))
  call doc_filter p =
      call_doc_filter (field p (bytes "subaction")) (field p (bytes "textSearch"))
        (field p (bytes "isActionRequired")) (field p (bytes "startDate"))
        (field p (bytes "endDate")) (field p (bytes "tags")) (field p (bytes "page"))
        (field p (bytes "range")) (field p (bytes "sortfield")) (field p (bytes "sortorder")) lang
  call delete_doc p = call_do_delete (field p (bytes "docid"))
  call regenerate_thumb p = call_extract_thumbnail (field p (bytes "docid"))
  call title_auto_complete p =
      call_title_auto_complete (field p (bytes "startsWith")) (field p (bytes "notLinkedTo"))
  call tags_auto_complete p =
      call_tags_auto_complete (field p (bytes "startsWith")) (field p (bytes "docid"))
  call check_login p =
      call_check_login (field p (bytes "username")) (field p (bytes "password")) lang session
  call logout p = call_do_logout session
  call update_user p =
      call_update_user (field p (bytes "username")) (field p (bytes "realname"))
        (field p (bytes "password")) (field p (bytes "role")) privs.update_access session lang
  call create_user p =
      call_update_user (field p (bytes "username")) (field p (bytes "realname"))
        (field p (bytes "password")) (field p (bytes "role")) privs.update_access session lang
  call delete_user p = call_delete_user (field p (bytes "username")) lang
  call get_user_list p = call_get_user_list
  call upload_file p =
      call_uploadfile (field p (bytes "uploadfile")) (field p (bytes "lookForSimilar")) lang

  -- What stands in for a handler that returns NULL.
  abbrev pub otherwise : PostData → Action → Exec CString
  otherwise post upload_file =
      build_page site
        (paragraph (site.get_string (bytes "LOCAL_unsuported_file_type") (bytes "en"))) (bytes "en")
      >>= Branches.not_null
  otherwise post title_auto_complete =
      ok (paragraph (site.get_string (bytes "LOCAL_server_error") lang))
  otherwise post tags_auto_complete =
      ok (paragraph (site.get_string (bytes "LOCAL_server_error") lang))
  otherwise post _ = ok (Branches.processing_error site privs lang session)

  -- The page of an action that is compiled in.
  abbrev pub served : PostData → Action → Exec Page
  served post a = Branches.page site privs lang session (mimetype a) (
      gate (privilege privs a) (text (Branches.no_access site privs lang session))
        (Branches.validated site privs lang session post (name a) (call a) (otherwise post a)))

  pub action_page-served :
      (post : PostData) (a : Action)
      → is_served site.build a ≡ true
      → action_page site privs lang session post (name a) ≡ served post a
  unfolding action_page opendias.Base.CString.str_eq Branches.get_doc_detail_page
      Branches.get_scanner_list_page Branches.get_scanner_details_page Branches.do_scan_page
      Branches.get_scanning_progress_page Branches.next_page_ready_page
      Branches.update_doc_details_page Branches.move_tag_page Branches.doc_filter_page
      Branches.delete_doc_page Branches.regenerate_thumb_page Branches.uploadfile_page
      Branches.title_auto_complete_page Branches.tags_auto_complete_page Branches.check_login_page
      Branches.logout_page Branches.update_user_page Branches.create_user_page
      Branches.delete_user_page Branches.get_user_list_page Branches.check_for_similar_page
      Branches.guarded
  action_page-served post get_scanner_list h = rw h refl
  action_page-served post get_scanner_details h = rw h refl
  action_page-served post do_scan h = rw h refl
  action_page-served post get_scanning_progress h = rw h refl
  action_page-served post next_page_ready h = rw h refl
  action_page-served post regenerate_thumb h = rw h refl
  action_page-served post check_for_similar h = rw h refl
  action_page-served post check_login h = rw h refl
  action_page-served post logout h = rw h refl
  action_page-served post update_user h = rw h refl
  action_page-served post create_user h = rw h refl
  action_page-served post delete_user h = rw h refl
  action_page-served post get_user_list h = rw h refl
  action_page-served post a h = refl
