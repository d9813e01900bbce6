-- ===== src/Validation/Blocks.antt =====
-- src/validation.c: the blocks of `validate`, one for each action. A block takes the post data and
-- the errors so far, and returns both: `checkFormat` writes to the post data.
pub mod Laws
use opendias.Base.{
  ℕ, ◌+◌, Bool, true, false, not, Option, none, some, List, [], ◌∷◌, ◌==◌, if◌then◌else◌, is_some,
}
use opendias.Base.Exec.{Exec, ok, fault, ◌>>=◌}
use opendias.Base.CString.{CString, bytes, str_eq}
use opendias.LinkedList.{Sll, element, key_is, sll_init, sll_insert}
use opendias.Validation.Fields.{
  check_sane_range, check_val, check_doc_id, check_page_length, check_pages, check_resolution,
  check_role, check_add_remove, check_full_count, check_date, check_ocr_language, check_device_id,
  check_format, check_update_key, check_tag_list, check_tag, check_uuid, Build,
}
use opendias.Validation.Keys.{PostData, get_post_data, check_keys, with_key}

abbrev pub Checked : Type 0
Checked = PostData × ℕ

-- `sll_init` and the key "action"
abbrev pub vars : Sll CString
vars = with_key (bytes "action") (bytes "") sll_init

abbrev pub mandatory : CString → Sll CString → Sll CString
mandatory key rules = with_key key (bytes "m") rules

abbrev pub optional : CString → Sll CString → Sll CString
optional key rules = with_key key (bytes "o") rules

-- `getPostData(postdata, key)`
abbrev pub field : PostData → CString → Option CString
field post key = get_post_data post (some key)

-- `checkKeys` on these rules and nothing else.
unfoldable pub keys_only : Sll CString → Checked → Exec Checked
keys_only rules (post, ret) = ok (post, ret + check_keys post rules)

unfoldable pub get_doc_detail_rules : Sll CString
unfolding sll_insert bytes
get_doc_detail_rules = with_key (bytes "docid") (bytes "") vars

-- The rules of several actions: a document id that must be supplied.
unfoldable pub doc_id_rules : Sll CString
unfolding sll_insert bytes
doc_id_rules = mandatory (bytes "docid") vars

-- `checkKeys` and `checkDocId`, the block of several actions.
unfoldable pub doc_id_block : Sll CString → Checked → Exec Checked
doc_id_block rules (post, ret) =
    ok (post, ret + check_keys post rules + check_doc_id (field post (bytes "docid")))

unfoldable pub scanner_details_rules : Sll CString
unfolding sll_insert bytes
scanner_details_rules = mandatory (bytes "deviceid") vars

unfoldable pub get_scanner_details_block : Checked → Exec Checked
get_scanner_details_block (post, ret) = ok (
  post,
  ret + check_keys post scanner_details_rules + check_device_id (field post (bytes "deviceid")),
)

unfoldable pub do_scan_rules : Sll CString
unfolding sll_insert bytes
do_scan_rules = mandatory (bytes "pagelength") (
    mandatory (bytes "ocr") (
      mandatory (bytes "pages") (
        mandatory (bytes "resolution")
          (mandatory (bytes "format") (mandatory (bytes "deviceid") vars)))))

-- A write through the pointer that `getPostData` returned.
unfoldable pub set_post_data : PostData → CString → Option CString → PostData
set_post_data [] key v = []
set_post_data (e ∷ es) key v =
    if key_is e.key key then element e.key v ∷ es else e ∷ set_post_data es key v

unfoldable pub do_scan_block : Build → Checked → Exec Checked
do_scan_block b (post, ret) =
    let keys = check_keys post do_scan_rules in
    let device = check_device_id (field post (bytes "deviceid")) in
    let (format, lowered) = check_format (field post (bytes "format")) in
    let post' = set_post_data post (bytes "format") lowered in
    let resolution = check_resolution (field post' (bytes "resolution")) in
    let pages = check_pages (field post' (bytes "pages")) in
    let ocr =
      if b.can_ocr
      then check_ocr_language b.is_ocr_language_available (field post' (bytes "ocr"))
      else 0 in
    let pagelength = check_page_length (field post' (bytes "pagelength")) in
    ok (post', ret + keys + device + format + resolution + pages + ocr + pagelength)

unfoldable pub progress_rules : Sll CString
unfolding sll_insert bytes
progress_rules = mandatory (bytes "scanprogressid") vars

unfoldable pub progress_block : Checked → Exec Checked
progress_block (post, ret) =
    ok (
      post,
      ret + check_keys post progress_rules + check_uuid (field post (bytes "scanprogressid")),
    )

unfoldable pub update_doc_details_rules : Sll CString
unfolding sll_insert bytes
update_doc_details_rules =
    mandatory (bytes "vvalue") (mandatory (bytes "kkey") (mandatory (bytes "docid") vars))

-- The part under `if( ret == 0 )`: `strcmp` faults on NULL.
unfoldable pub update_value : ℕ → Option CString → Option CString → Exec ℕ
update_value ret none vvalue = fault
update_value ret (some kkey) vvalue =
    if str_eq kkey (bytes "docDate")
    then (do date ← check_date vvalue; ok (ret + check_update_key (some kkey) + date))
    else ok (ret + check_update_key (some kkey) + check_val vvalue)

unfoldable pub update_doc_details_block : Checked → Exec Checked
update_doc_details_block (post, ret) =
    let ret' =
      ret + check_keys post update_doc_details_rules + check_doc_id (field post (bytes "docid")) in
    if ret' == 0
    then (do
      total ← update_value ret' (field post (bytes "kkey")) (field post (bytes "vvalue"))
      ok (post, total))
    else ok (post, ret')

unfoldable pub move_tag_rules : Sll CString
unfolding sll_insert bytes
move_tag_rules =
    mandatory (bytes "subaction") (mandatory (bytes "tag") (mandatory (bytes "docid") vars))

unfoldable pub move_tag_block : Checked → Exec Checked
move_tag_block (post, ret) = ok (
  post,
  ret
      + check_keys post move_tag_rules
      + check_doc_id (field post (bytes "docid"))
      + check_tag (field post (bytes "tag"))
      + check_add_remove (field post (bytes "subaction")),
)

unfoldable pub doc_filter_rules : Sll CString
unfolding sll_insert bytes
doc_filter_rules = optional (bytes "sortorder") (
    optional (bytes "sortfield") (
      optional (bytes "range") (
        optional (bytes "page") (
          optional (bytes "isActionRequired") (
            optional (bytes "tags") (
              optional (bytes "endDate") (
                optional (bytes "startDate")
                  (optional (bytes "textSearch") (mandatory (bytes "subaction") vars)))))))))

-- `if(data != NULL && strcmp(data,"")) ret += check(data);`
unfoldable pub if_given : Option CString → (CString → Exec ℕ) → Exec ℕ
if_given none check = ok 0
if_given (some d) check = if str_eq d (bytes "") then ok 0 else check d

unfoldable pub doc_filter_block : Checked → Exec Checked
doc_filter_block (post, ret) = do
  let keys = check_keys post doc_filter_rules
  let subaction = check_full_count (field post (bytes "subaction"))
  text ← if_given (field post (bytes "textSearch")) (λ d. ok (check_val (some d)))
  start ← if_given (field post (bytes "startDate")) (λ d. check_date (some d))
  end ← if_given (field post (bytes "endDate")) (λ d. check_date (some d))
  tags ← if_given (field post (bytes "tags")) (λ d. ok (check_tag_list (some d)))
  required ← if_given (field post (bytes "isActionRequired")) (λ d. ok (check_val (some d)))
  page ← if_given (field post (bytes "page")) (λ d. ok (check_sane_range d 1 9999))
  range ← if_given (field post (bytes "range")) (λ d. ok (check_sane_range d 1 200))
  sortfield ← if_given (field post (bytes "sortfield")) (λ d. ok (check_val (some d)))
  sortorder ← if_given (field post (bytes "sortorder")) (λ d. ok (check_val (some d)))
  ok (
    post,
    ret + keys + subaction + text + start + end + tags + required + page + range + sortfield
        + sortorder,
  )

unfoldable pub title_auto_complete_rules : Sll CString
unfolding sll_insert bytes
title_auto_complete_rules = optional (bytes "notLinkedTo") (mandatory (bytes "startsWith") vars)

unfoldable pub title_auto_complete_block : Checked → Exec Checked
title_auto_complete_block (post, ret) = do
  let keys = check_keys post title_auto_complete_rules
  linked ← if_given (field post (bytes "notLinkedTo")) (λ d. ok (check_doc_id (some d)))
  ok (post, ret + keys + linked)

unfoldable pub tags_auto_complete_rules : Sll CString
unfolding sll_insert bytes
tags_auto_complete_rules = mandatory (bytes "docid") (mandatory (bytes "startsWith") vars)

unfoldable pub check_login_rules : Sll CString
unfolding sll_insert bytes
check_login_rules = mandatory (bytes "password") (mandatory (bytes "username") vars)

unfoldable pub update_user_rules : Sll CString
unfolding sll_insert bytes
update_user_rules =
    optional (bytes "role") (
      optional (bytes "password") (optional (bytes "realname") (mandatory (bytes "username") vars)))

-- The role where a user name and a role are given; nobody may change the own role.
unfoldable pub update_role : Option CString → Option CString → ℕ
update_role none role = 0
update_role (some username) none = 0
update_role (some username) (some role) =
    check_role (some role) + (if str_eq username (bytes "[current]") then 1 else 0)

unfoldable pub update_user_block : Checked → Exec Checked
update_user_block (post, ret) = ok (
  post,
  ret
      + check_keys post update_user_rules
      + update_role (field post (bytes "username")) (field post (bytes "role")),
)

unfoldable pub create_user_rules : Sll CString
unfolding sll_insert bytes
create_user_rules = mandatory (bytes "role") (
    mandatory (bytes "password") (mandatory (bytes "realname") (mandatory (bytes "username") vars)))

unfoldable pub create_role : Option CString → Option CString → ℕ
create_role none role = 0
create_role (some username) none = 0
create_role (some username) (some role) = check_role (some role)

unfoldable pub create_user_block : Checked → Exec Checked
create_user_block (post, ret) = ok (
  post,
  ret
      + check_keys post create_user_rules
      + create_role (field post (bytes "username")) (field post (bytes "role")),
)

unfoldable pub delete_user_rules : Sll CString
unfolding sll_insert bytes
delete_user_rules = mandatory (bytes "username") vars

unfoldable pub upload_file_rules : Sll CString
unfolding sll_insert bytes
upload_file_rules = optional (bytes "lookForSimilar") (mandatory (bytes "uploadfile") vars)

unfoldable pub upload_file_block : Checked → Exec Checked
upload_file_block (post, ret) =
    ok
      (post, ret + check_keys post upload_file_rules + check_uuid (field post (bytes "uploadfile")))
