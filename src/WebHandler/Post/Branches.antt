-- ===== src/WebHandler/Post/Branches.antt =====
-- The branches of src/web_handler.c for the actions of a POST.
use opendias.Base.{Bool, Option, none, some, if◌then◌else◌, ◌==◌}
use opendias.Base.Exec.{Exec, ok, fault, ◌>>=◌}
use opendias.Base.CString.{CString, bytes}
use opendias.Base.Int.{ℤ, is_zero}
use opendias.LinkedList.{Sll}
use opendias.Validation.Keys.{PostData}
use opendias.Validation.Blocks.{field}
use opendias.Validation.Actions.{validate}
use opendias.WebHandler.Site.{
  Site, Privileges, Mimetype, html, xml, json, error_response, paragraph,
}
use opendias.WebHandler.Files.{build_page}
use opendias.WebHandler.Post.Calls.{
  Call, call_get_doc_detail, call_get_scanner_list, call_get_scanner_details, call_do_scan,
  call_get_scanning_progress, call_next_page_ready, call_update_doc_details,
  call_update_tag_linkage, call_doc_filter, call_do_delete, call_extract_thumbnail, call_uploadfile,
  call_title_auto_complete, call_tags_auto_complete, call_check_login, call_do_logout,
  call_update_user, call_delete_user, call_get_user_list, call_check_for_similar, Body, text, from,
  Page,
}

-- A NULL page ends in `strlen(NULL)`.
abbrev pub not_null : Option CString → Exec CString
not_null none = fault
not_null (some s) = ok s

module _ (site : Site) (privs : Privileges) (lang : CString) (session : Option (Sll CString)) where
  abbrev pub no_access : CString
  no_access = error_response (site.get_string (bytes "LOCAL_no_access") lang)

  abbrev pub processing_error : CString
  processing_error = error_response (site.get_string (bytes "LOCAL_processing_error") lang)

  abbrev pub missing_support : CString
  missing_support = error_response (site.get_string (bytes "LOCAL_missing_support") lang)

  -- `else if validate(...)`: the handler is called with the post data as the checks leave it.
  unfoldable pub validated : PostData → CString → (PostData → Call) → Exec CString → Exec Body
  validated post action call otherwise = do
    (post', errors) ← validate site.build post action
    ok (if errors == 0 then from (call post') otherwise else text processing_error)

  -- `if accessPrivs.x == 0`
  unfoldable pub guarded : ℤ → PostData → CString → (PostData → Call) → Exec CString → Exec Body
  guarded privilege post action call otherwise =
      if is_zero privilege then ok (text no_access) else validated post action call otherwise

  -- `#ifdef`: a branch of a part that is not compiled in says so.
  abbrev pub supported : Bool → Exec Body → Exec Body
  supported built branch = if built then branch else ok (text missing_support)

  abbrev pub page : Mimetype → Exec Body → Exec Page
  page mimetype branch = do
    body ← branch
    ok (record { status = 200; mimetype = mimetype; body = body })

  module _ (post : PostData) (action : CString) where
    unfoldable pub get_doc_detail_page : Exec Page
    get_doc_detail_page = page xml (
        guarded privs.view_doc post action (λ p. call_get_doc_detail (field p (bytes "docid")) lang)
          (ok processing_error))

    unfoldable pub get_scanner_list_page : Exec Page
    get_scanner_list_page = page xml (
        supported site.build.can_scan (
          guarded privs.add_scan post action (λ p. call_get_scanner_list lang)
            (ok processing_error)))

    unfoldable pub get_scanner_details_page : Exec Page
    get_scanner_details_page = page xml (
        supported site.build.can_scan (
          guarded privs.add_scan post action
            (λ p. call_get_scanner_details (field p (bytes "deviceid")) lang)
            (ok processing_error)))

    unfoldable pub do_scan_page : Exec Page
    do_scan_page = page xml (
        supported site.build.can_scan (
          guarded privs.add_scan post action
            (λ p.
              call_do_scan (field p (bytes "deviceid")) (field p (bytes "format"))
                (field p (bytes "resolution")) (field p (bytes "pages")) (field p (bytes "ocr"))
                (field p (bytes "pagelength")) lang)
            (ok processing_error)))

    unfoldable pub get_scanning_progress_page : Exec Page
    get_scanning_progress_page = page xml (
        supported site.build.can_scan (
          guarded privs.add_scan post action
            (λ p. call_get_scanning_progress (field p (bytes "scanprogressid")))
            (ok processing_error)))

    unfoldable pub next_page_ready_page : Exec Page
    next_page_ready_page = page xml (
        supported site.build.can_scan (
          guarded privs.add_scan post action
            (λ p. call_next_page_ready (field p (bytes "scanprogressid")) lang)
            (ok processing_error)))

    unfoldable pub update_doc_details_page : Exec Page
    update_doc_details_page = page xml (
        guarded privs.edit_doc post action
          (λ p.
            call_update_doc_details (field p (bytes "docid")) (field p (bytes "kkey"))
              (field p (bytes "vvalue")))
          (ok processing_error))

    unfoldable pub move_tag_page : Exec Page
    move_tag_page = page xml (
        guarded privs.edit_doc post action
          (λ p.
            call_update_tag_linkage (field p (bytes "docid")) (field p (bytes "tag"))
              (field p (bytes "subaction")))
          (ok processing_error))

    unfoldable pub doc_filter_page : Exec Page
    doc_filter_page = page xml (
        guarded privs.view_doc post action
          (λ p.
            call_doc_filter (field p (bytes "subaction")) (field p (bytes "textSearch"))
              (field p (bytes "isActionRequired")) (field p (bytes "startDate"))
              (field p (bytes "endDate")) (field p (bytes "tags")) (field p (bytes "page"))
              (field p (bytes "range")) (field p (bytes "sortfield")) (field p (bytes "sortorder"))
              lang)
          (ok processing_error))

    unfoldable pub delete_doc_page : Exec Page
    delete_doc_page = page xml (
        guarded privs.delete_doc post action (λ p. call_do_delete (field p (bytes "docid")))
          (ok processing_error))

    unfoldable pub regenerate_thumb_page : Exec Page
    regenerate_thumb_page = page xml (
        supported site.build.can_pdf (
          guarded privs.edit_doc post action (λ p. call_extract_thumbnail (field p (bytes "docid")))
            (ok processing_error)))

    -- A file of unknown type gives an English page.
    unfoldable pub uploadfile_page : Exec Page
    uploadfile_page =
        let unsupported =
          paragraph (site.get_string (bytes "LOCAL_unsuported_file_type") (bytes "en")) in
        page html (
          guarded privs.add_import post action
            (λ p.
              call_uploadfile (field p (bytes "uploadfile")) (field p (bytes "lookForSimilar"))
                lang)
            (build_page site unsupported (bytes "en") >>= not_null))

    abbrev pub server_error : CString
    server_error = paragraph (site.get_string (bytes "LOCAL_server_error") lang)

    unfoldable pub title_auto_complete_page : Exec Page
    title_auto_complete_page = page json (
        guarded privs.view_doc post action
          (λ p.
            call_title_auto_complete (field p (bytes "startsWith")) (field p (bytes "notLinkedTo")))
          (ok server_error))

    unfoldable pub tags_auto_complete_page : Exec Page
    tags_auto_complete_page = page json (
        guarded privs.view_doc post action
          (λ p. call_tags_auto_complete (field p (bytes "startsWith")) (field p (bytes "docid")))
          (ok server_error))

    unfoldable pub check_login_page : Exec Page
    check_login_page = page json (
        validated post action
          (λ p.
            call_check_login (field p (bytes "username")) (field p (bytes "password")) lang session)
          (ok processing_error))

    unfoldable pub logout_page : Exec Page
    logout_page =
        page json (validated post action (λ p. call_do_logout session) (ok processing_error))

    -- `updateUser` is called alike for "updateUser" and "createUser".
    abbrev pub update_user_call : PostData → Call
    update_user_call p =
        call_update_user (field p (bytes "username")) (field p (bytes "realname"))
          (field p (bytes "password")) (field p (bytes "role")) privs.update_access session lang

    unfoldable pub update_user_page : Exec Page
    update_user_page = page json (validated post action update_user_call (ok processing_error))

    unfoldable pub create_user_page : Exec Page
    create_user_page =
        page json (guarded privs.update_access post action update_user_call (ok processing_error))

    unfoldable pub delete_user_page : Exec Page
    delete_user_page = page json (
        guarded privs.update_access post action
          (λ p. call_delete_user (field p (bytes "username")) lang) (ok processing_error))

    unfoldable pub get_user_list_page : Exec Page
    get_user_list_page =
        page json
          (guarded privs.update_access post action (λ p. call_get_user_list) (ok processing_error))

    unfoldable pub check_for_similar_page : Exec Page
    check_for_similar_page = page xml (
        supported site.build.can_phash (
          guarded privs.edit_doc post action (λ p. call_check_for_similar (field p (bytes "docid")))
            (ok processing_error)))
