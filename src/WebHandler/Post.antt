-- ===== src/WebHandler/Post.antt =====
-- The main branch of src/web_handler.c: the page for the action of a POST to "/dynamic".
pub mod Calls
pub mod Branches
pub mod Access
pub mod Authorized
pub mod Visitor
use opendias.Base.{
  ℕ, ◌≡◌, Bool, true, false, not, ◌&&◌, Option, none, some, List, [], ◌∷◌, if◌then◌else◌, ◌==◌,
}
use opendias.Base.Exec.{Exec, ok, fault, ◌>>=◌}
use opendias.Base.CString.{CString, bytes, str_eq}
use opendias.LinkedList.{Sll}
use opendias.Validation.Fields.{Build}
use opendias.Validation.Keys.{PostData, get_post_data}
use opendias.Validation.Actions.{basic_validation}
use opendias.WebHandler.Site.{Site, Privileges, Mimetype, html, xml}
use opendias.WebHandler.Post.Calls.{Call, Body, text, from, Page}
use opendias.WebHandler.Post.Branches

-- `if ( action && 0 == strcmp(action, name) ) page else ...`, where the switches compile it in.
unfoldable pub select : CString → List (Bool × CString × Exec Page) → Exec Page → Exec Page
unfolding str_eq
select action [] rest = rest
select action ((built, name, page) ∷ pages) rest =
    let others = select action pages rest in if str_eq action name && built then page else others

module _ (site : Site) (privs : Privileges) (lang : CString) (session : Option (Sll CString)) where
  abbrev pub pages : PostData → CString → List (Bool × CString × Exec Page)
  pages post action =
      (
        true,
        bytes "refresh",
        ok (record { status = 303; mimetype = html; body = text (bytes "/opendias/") }),
      )
      ∷ (
        true,
        bytes "getDocDetail",
        Branches.get_doc_detail_page site privs lang session post action,
      )
      ∷ (
        true,
        bytes "getScannerList",
        Branches.get_scanner_list_page site privs lang session post action,
      )
      ∷ (
        true,
        bytes "getScannerDetails",
        Branches.get_scanner_details_page site privs lang session post action,
      )
      ∷ (true, bytes "doScan", Branches.do_scan_page site privs lang session post action)
      ∷ (
        true,
        bytes "getScanningProgress",
        Branches.get_scanning_progress_page site privs lang session post action,
      )
      ∷ (
        true,
        bytes "nextPageReady",
        Branches.next_page_ready_page site privs lang session post action,
      )
      ∷ (
        true,
        bytes "updateDocDetails",
        Branches.update_doc_details_page site privs lang session post action,
      )
      ∷ (true, bytes "moveTag", Branches.move_tag_page site privs lang session post action)
      ∷ (true, bytes "docFilter", Branches.doc_filter_page site privs lang session post action)
      ∷ (true, bytes "deleteDoc", Branches.delete_doc_page site privs lang session post action)
      ∷ (
        true,
        bytes "regenerateThumb",
        Branches.regenerate_thumb_page site privs lang session post action,
      )
      ∷ (true, bytes "uploadfile", Branches.uploadfile_page site privs lang session post action)
      ∷ (
        true,
        bytes "titleAutoComplete",
        Branches.title_auto_complete_page site privs lang session post action,
      )
      ∷ (
        true,
        bytes "tagsAutoComplete",
        Branches.tags_auto_complete_page site privs lang session post action,
      )
      ∷ (
        not site.build.open_to_all,
        bytes "checkLogin",
        Branches.check_login_page site privs lang session post action,
      )
      ∷ (
        not site.build.open_to_all,
        bytes "logout",
        Branches.logout_page site privs lang session post action,
      )
      ∷ (
        not site.build.open_to_all,
        bytes "updateUser",
        Branches.update_user_page site privs lang session post action,
      )
      ∷ (
        not site.build.open_to_all,
        bytes "createUser",
        Branches.create_user_page site privs lang session post action,
      )
      ∷ (
        not site.build.open_to_all,
        bytes "deleteUser",
        Branches.delete_user_page site privs lang session post action,
      )
      ∷ (
        not site.build.open_to_all,
        bytes "getUserList",
        Branches.get_user_list_page site privs lang session post action,
      )
      ∷ (
        true,
        bytes "checkForSimilar",
        Branches.check_for_similar_page site privs lang session post action,
      )
      ∷ []

  unfoldable pub action_page : PostData → CString → Exec Page
  unfolding bytes select
  action_page post action =
      select action (pages post action)
        (ok (record { status = 200; mimetype = html; body = text [] }))

  -- The action that the post data name; `action` was found by `basicValidation`.
  chosen : PostData → Option CString → Exec Page
  unfolding action_page
  chosen post none = ok (record { status = 200; mimetype = html; body = text [] })
  chosen post (some action) = action_page post action

  unfoldable pub post_page : PostData → Exec Page
  unfolding chosen
  post_page post =
      if basic_validation post == 1
      then ok (record {
        status = 200;
        mimetype = xml;
        body = text (Branches.processing_error site privs lang session);
      })
      else chosen post (get_post_data post (some (bytes "action")))
