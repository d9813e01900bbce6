-- ===== src/Validation/Actions.antt =====
-- src/validation.c: `basicValidation` and `validate`. Where the C code dereferences NULL or reads
-- behind the end of a string the model faults. The count of errors is unbounded.
pub mod Checks
pub mod Table
pub mod DocFilter
pub mod Accepted
pub mod Basic
pub mod Safety
use opendias.Base.{
  ℕ, ◌+◌, ◌≡◌, Bool, true, false, not, ◌&&◌, Option, none, some, List, [], ◌∷◌, ◌==◌, if◌then◌else◌,
}
use opendias.Base.Exec.{Exec, ok, fault, ◌>>=◌}
use opendias.Base.CString.{CString, bytes, str_eq}
use opendias.Validation.Fields.{Build, check_vitals, is_one_of}
use opendias.Validation.Keys.{PostData, get_post_data}
use opendias.Validation.Blocks.{
  Checked, vars, keys_only, get_doc_detail_rules, doc_id_rules, doc_id_block,
  get_scanner_details_block, do_scan_block, progress_block, update_doc_details_block,
  move_tag_block, doc_filter_block, title_auto_complete_block, tags_auto_complete_rules,
  check_login_rules, update_user_block, create_user_block, delete_user_rules, upload_file_block,
}

unfoldable pub known_actions : List CString
known_actions =
    bytes "getDocDetail"
    ∷ bytes "refresh"
    ∷ bytes "getScannerList"
    ∷ bytes "getScannerDetails"
    ∷ bytes "doScan"
    ∷ bytes "getScanningProgress"
    ∷ bytes "nextPageReady"
    ∷ bytes "updateDocDetails"
    ∷ bytes "moveTag"
    ∷ bytes "docFilter"
    ∷ bytes "deleteDoc"
    ∷ bytes "regenerateThumb"
    ∷ bytes "uploadfile"
    ∷ bytes "titleAutoComplete"
    ∷ bytes "tagsAutoComplete"
    ∷ bytes "checkLogin"
    ∷ bytes "logout"
    ∷ bytes "updateUser"
    ∷ bytes "createUser"
    ∷ bytes "getUserList"
    ∷ bytes "deleteUser"
    ∷ bytes "checkForSimilar"
    ∷ []

-- The loop of `basicValidation`: 1 at the first element without a key or without data.
unfoldable pub vitals_loop : PostData → PostData → ℕ
vitals_loop postdata [] = 0
vitals_loop postdata (row ∷ rows) =
    if check_vitals row.key == 0 && check_vitals (get_post_data postdata row.key) == 0
    then vitals_loop postdata rows
    else 1

-- `action` is the data of the key "action".
unfoldable pub basic_action : PostData → Option CString → ℕ
basic_action postdata none = 1
basic_action postdata (some action) =
    if check_vitals (some action) == 0
    then if is_one_of known_actions action then vitals_loop postdata postdata else 1
    else 1

unfoldable pub basic_validation : PostData → ℕ
basic_validation postdata = basic_action postdata (get_post_data postdata (some (bytes "action")))

-- `if ( 0 == strcmp(action, name) ) { block }`, where the switches compile the block in.
unfoldable pub on : Bool → CString → CString → (Checked → Exec Checked) → Checked → Exec Checked
unfolding str_eq
on built action name block s = if str_eq action name && built then block s else ok s

-- The blocks of `validate` in their order.
unfoldable pub validate_blocks : Build → CString → Checked → Exec Checked
unfolding on bytes
validate_blocks b action s = do
  s ← on true action (bytes "getDocDetail") (doc_id_block get_doc_detail_rules) s
  s ← on b.can_scan action (bytes "getScannerList") (keys_only vars) s
  s ← on b.can_scan action (bytes "getScannerDetails") get_scanner_details_block s
  s ← on b.can_scan action (bytes "doScan") (do_scan_block b) s
  s ← on b.can_scan action (bytes "getScanningProgress") progress_block s
  s ← on b.can_scan action (bytes "nextPageReady") progress_block s
  s ← on true action (bytes "updateDocDetails") update_doc_details_block s
  s ← on true action (bytes "checkForSimilar") (doc_id_block doc_id_rules) s
  s ← on true action (bytes "moveTag") move_tag_block s
  s ← on true action (bytes "docFilter") doc_filter_block s
  s ← on true action (bytes "deleteDoc") (doc_id_block doc_id_rules) s
  s ← on b.can_pdf action (bytes "regenerateThumb") (doc_id_block doc_id_rules) s
  s ← on true action (bytes "titleAutoComplete") title_auto_complete_block s
  s ← on true action (bytes "tagsAutoComplete") (doc_id_block tags_auto_complete_rules) s
  s ← on (not b.open_to_all) action (bytes "checkLogin") (keys_only check_login_rules) s
  s ← on (not b.open_to_all) action (bytes "logout") (keys_only vars) s
  s ← on (not b.open_to_all) action (bytes "updateUser") update_user_block s
  s ← on (not b.open_to_all) action (bytes "createUser") create_user_block s
  s ← on (not b.open_to_all) action (bytes "deleteUser") (keys_only delete_user_rules) s
  s ← on (not b.open_to_all) action (bytes "getUserList") (keys_only vars) s
  on true action (bytes "uploadfile") upload_file_block s

-- The post data as the checks leave it, and the number of errors.
unfoldable pub validate : Build → PostData → CString → Exec Checked
unfolding validate_blocks
validate b postdata action = validate_blocks b action (postdata, 0)
