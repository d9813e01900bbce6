-- ===== src/Validation/Actions/Table.antt =====
-- The blocks of `validate` by action: the names, the switches and the rules for the keys.
use opendias.Base.{
  ℕ, ◌+◌, ◌≡◌, refl, ◌≢◌, ◌↔◌, ◌⊎◌, inl, inr, Bool, true, false, not, Option, none, some, List, [],
  ◌∷◌, arith, ◌==◌, if◌then◌else◌, Any,
}
use opendias.Base.Exec.{Exec, >>=-ok}
use opendias.Base.CString.{CString, bytes, str_eq, str_eq_iff}
use opendias.LinkedList.{Sll}
use opendias.Validation.Fields.{Build}
use opendias.Validation.Keys.{PostData}
use opendias.Validation.Keys.Laws.{Distinct, are_distinct, are_distinct_sound}
use opendias.Validation.Blocks.{
  Checked, vars, keys_only, get_doc_detail_rules, doc_id_rules, doc_id_block,
  get_scanner_details_block, scanner_details_rules, do_scan_rules, do_scan_block, progress_rules,
  progress_block, update_doc_details_rules, update_doc_details_block, move_tag_rules,
  move_tag_block, doc_filter_rules, doc_filter_block, title_auto_complete_rules,
  title_auto_complete_block, tags_auto_complete_rules, check_login_rules, update_user_rules,
  update_user_block, create_user_rules, create_user_block, delete_user_rules, upload_file_rules,
  upload_file_block,
}
use opendias.Validation.Actions.{validate}

-- The actions that `validate` has a block for.
pub data Action : Type 0 where
  get_doc_detail get_scanner_list get_scanner_details do_scan get_scanning_progress : Action
  next_page_ready update_doc_details check_for_similar move_tag doc_filter delete_doc : Action
  regenerate_thumb title_auto_complete tags_auto_complete check_login logout : Action
  update_user create_user delete_user get_user_list upload_file : Action

abbrev pub name : Action → CString
name get_doc_detail = bytes "getDocDetail"
name get_scanner_list = bytes "getScannerList"
name get_scanner_details = bytes "getScannerDetails"
name do_scan = bytes "doScan"
name get_scanning_progress = bytes "getScanningProgress"
name next_page_ready = bytes "nextPageReady"
name update_doc_details = bytes "updateDocDetails"
name check_for_similar = bytes "checkForSimilar"
name move_tag = bytes "moveTag"
name doc_filter = bytes "docFilter"
name delete_doc = bytes "deleteDoc"
name regenerate_thumb = bytes "regenerateThumb"
name title_auto_complete = bytes "titleAutoComplete"
name tags_auto_complete = bytes "tagsAutoComplete"
name check_login = bytes "checkLogin"
name logout = bytes "logout"
name update_user = bytes "updateUser"
name create_user = bytes "createUser"
name delete_user = bytes "deleteUser"
name get_user_list = bytes "getUserList"
name upload_file = bytes "uploadfile"

-- The switches compile the action's block in.
abbrev pub is_built : Build → Action → Bool
is_built b get_scanner_list = b.can_scan
is_built b get_scanner_details = b.can_scan
is_built b do_scan = b.can_scan
is_built b get_scanning_progress = b.can_scan
is_built b next_page_ready = b.can_scan
is_built b regenerate_thumb = b.can_pdf
is_built b check_login = not b.open_to_all
is_built b logout = not b.open_to_all
is_built b update_user = not b.open_to_all
is_built b create_user = not b.open_to_all
is_built b delete_user = not b.open_to_all
is_built b get_user_list = not b.open_to_all
is_built b _ = true

abbrev pub rules : Action → Sll CString
rules get_doc_detail = get_doc_detail_rules
rules get_scanner_list = vars
rules get_scanner_details = scanner_details_rules
rules do_scan = do_scan_rules
rules get_scanning_progress = progress_rules
rules next_page_ready = progress_rules
rules update_doc_details = update_doc_details_rules
rules check_for_similar = doc_id_rules
rules move_tag = move_tag_rules
rules doc_filter = doc_filter_rules
rules delete_doc = doc_id_rules
rules regenerate_thumb = doc_id_rules
rules title_auto_complete = title_auto_complete_rules
rules tags_auto_complete = tags_auto_complete_rules
rules check_login = check_login_rules
rules logout = vars
rules update_user = update_user_rules
rules create_user = create_user_rules
rules delete_user = delete_user_rules
rules get_user_list = vars
rules upload_file = upload_file_rules

rules-distinct : (a : Action) → are_distinct (rules a) ≡ true
unfolding are_distinct get_doc_detail_rules scanner_details_rules do_scan_rules progress_rules
    update_doc_details_rules doc_id_rules move_tag_rules doc_filter_rules title_auto_complete_rules
    tags_auto_complete_rules check_login_rules update_user_rules create_user_rules delete_user_rules
    upload_file_rules opendias.Base.CString.str_eq
rules-distinct get_doc_detail = refl
rules-distinct _ = refl

pub rules-Distinct : (a : Action) → Distinct (rules a)
rules-Distinct a = are_distinct_sound (rules a) (rules-distinct a)

abbrev pub block : Build → Action → Checked → Exec Checked
block b get_doc_detail = doc_id_block get_doc_detail_rules
block b get_scanner_list = keys_only vars
block b get_scanner_details = get_scanner_details_block
block b do_scan = do_scan_block b
block b get_scanning_progress = progress_block
block b next_page_ready = progress_block
block b update_doc_details = update_doc_details_block
block b check_for_similar = doc_id_block doc_id_rules
block b move_tag = move_tag_block
block b doc_filter = doc_filter_block
block b delete_doc = doc_id_block doc_id_rules
block b regenerate_thumb = doc_id_block doc_id_rules
block b title_auto_complete = title_auto_complete_block
block b tags_auto_complete = doc_id_block tags_auto_complete_rules
block b check_login = keys_only check_login_rules
block b logout = keys_only vars
block b update_user = update_user_block
block b create_user = create_user_block
block b delete_user = keys_only delete_user_rules
block b get_user_list = keys_only vars
block b upload_file = upload_file_block

-- Where the switches compile it in, `validate` runs the block of the action on the post data.
pub validate-block :
    (b : Build) (post : PostData) (a : Action)
    → is_built b a ≡ true
    → validate b post (name a) ≡ block b a (post, 0)
unfolding validate opendias.Base.CString.str_eq
validate-block b post get_scanner_list h = rw h (>>=-ok (keys_only vars (post, 0)))
validate-block b post get_scanner_details h = rw h (>>=-ok (get_scanner_details_block (post, 0)))
validate-block b post do_scan h = simp h (>>=-ok (do_scan_block b (post, 0)))
validate-block b post get_scanning_progress h = rw h (>>=-ok (progress_block (post, 0)))
validate-block b post next_page_ready h = rw h (>>=-ok (progress_block (post, 0)))
validate-block b post regenerate_thumb h = rw h (>>=-ok (doc_id_block doc_id_rules (post, 0)))
validate-block b post check_login h = rw h (>>=-ok (keys_only check_login_rules (post, 0)))
validate-block b post logout h = rw h (>>=-ok (keys_only vars (post, 0)))
validate-block b post update_user h = rw h (>>=-ok (update_user_block (post, 0)))
validate-block b post create_user h = rw h (>>=-ok (create_user_block (post, 0)))
validate-block b post delete_user h = rw h (>>=-ok (keys_only delete_user_rules (post, 0)))
validate-block b post get_user_list h = rw h (>>=-ok (keys_only vars (post, 0)))
validate-block b post upload_file h = refl
validate-block b post a h = >>=-ok (block b a (post, 0))
