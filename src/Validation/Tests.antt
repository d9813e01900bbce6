-- ===== src/Validation/Tests.antt =====
-- Runs of the validation on requests, and the theorems at such requests.
use opendias.Base.{
  min, ◌%◌, ◌^◌, ◌≡◌, refl, ◌↔◌, ◌≤◌, ◌-◌, All, true, false, some, [], ◌∷◌, arith, length,
}
use opendias.Base.Exec.{Exec, ok, fault}
use opendias.Base.CString.{CString, bytes, str_eq, strstr, starts_with}
use opendias.Base.Int.{atoi, signed_value, digits_value, to_int32}
use opendias.LinkedList.{Element, element, sll_insert}
use opendias.Validation.Fields.{
  Build, check_string_is_int, check_sane_range, int_in_range, check_doc_id, check_uuid, uuid_loop,
  check_date, date_string_to_date_parts, date_part, check_tag, check_add_remove, check_full_count,
  check_format, lower, check_resolution, check_pages, check_page_length, check_device_id,
  check_ocr_language, check_update_key, check_val, is_one_of,
}
use opendias.Validation.Fields.Laws.{IsDigit, IsDate, check_date-zero_iff}
use opendias.Validation.Fields.Numbers.{decimal, check_doc_id-zero_iff, int_in_range-short_iff}
use opendias.Validation.Fields.Uuid.{IsUuid, check_uuid-zero_iff}
use opendias.Validation.Keys.{PostData, get_post_data, check_keys, is_mandatory}
use opendias.Validation.Keys.Laws.{KeysFit, check_keys-zero_iff}
use opendias.Validation.Blocks.{
  Checked, doc_id_block, move_tag_block, move_tag_rules, do_scan_block, do_scan_rules,
  set_post_data, if_given, doc_filter_block, doc_filter_rules,
}
use opendias.Validation.Actions.{
  validate, basic_validation, basic_action, vitals_loop, known_actions,
}
use opendias.Validation.Actions.Checks.{Accepted}
use opendias.Validation.Actions.Table.{rules, rules-Distinct, move_tag, doc_filter, name}
use opendias.Validation.Actions.Accepted.{Fits, validate-Accepted_iff}
use opendias.Validation.Actions.Basic.{IsBasic, basic_validation-zero_iff}
use opendias.Validation.Actions.Safety.{ReadsPastDate, validate-fault_iff}

-- The program with all its parts, and an OCR library that has English only.
abbrev full_build : Build
full_build = record {
  can_scan = true;
  can_ocr = true;
  can_pdf = true;
  can_phash = true;
  open_to_all = false;
  is_ocr_language_available = λ s. str_eq s (bytes "eng");
}

abbrev entry : CString → CString → Element CString
entry k v = element (some k) (some v)

abbrev move_tag_post : PostData
move_tag_post =
    entry (bytes "action") (bytes "moveTag")
    ∷ entry (bytes "docid") (bytes "12")
    ∷ entry (bytes "tag") (bytes "bills")
    ∷ entry (bytes "subaction") (bytes "addTag")
    ∷ []

abbrev filter_post : PostData
filter_post =
    entry (bytes "action") (bytes "docFilter")
    ∷ entry (bytes "subaction") (bytes "fullList")
    ∷ entry (bytes "startDate") (bytes "2010")
    ∷ []

abbrev scan_post : CString → PostData
scan_post format =
    entry (bytes "action") (bytes "doScan")
    ∷ entry (bytes "deviceid") (bytes "test:0")
    ∷ entry (bytes "format") format
    ∷ entry (bytes "resolution") (bytes "300")
    ∷ entry (bytes "pages") (bytes "2")
    ∷ entry (bytes "ocr") (bytes "eng")
    ∷ entry (bytes "pagelength") (bytes "100")
    ∷ []

-- `validate`, with a line that lets a test see through all that it calls.
run_validate : PostData → CString → Exec Checked
unfolding validate str_eq strstr starts_with bytes atoi signed_value digits_value to_int32
    sll_insert check_keys get_post_data check_string_is_int check_sane_range int_in_range
    check_doc_id check_date date_string_to_date_parts date_part check_tag check_add_remove
    check_full_count check_format lower check_resolution check_pages check_page_length
    check_device_id check_ocr_language check_val is_one_of doc_id_block move_tag_block
    move_tag_rules do_scan_block do_scan_rules set_post_data if_given doc_filter_block
    doc_filter_rules is_mandatory
run_validate post action = validate full_build post action

move_tag_run : run_validate move_tag_post (bytes "moveTag") ≡ ok (move_tag_post, 0)
unfolding run_validate
move_tag_run = refl

short_date_run : run_validate filter_post (bytes "docFilter") ≡ fault
unfolding run_validate
short_date_run = refl

-- The format is lowered in the post data.
scan_run :
    run_validate (scan_post (bytes "Gray")) (bytes "doScan") ≡ ok (scan_post (bytes "gray"), 0)
unfolding run_validate
scan_run = refl

-- 2 ^ 32 + 1 passes for the document 1.
overflow_run : check_doc_id (some (bytes "4294967297")) ≡ 0
unfolding check_doc_id int_in_range check_string_is_int check_sane_range atoi signed_value
    digits_value to_int32 bytes strstr
overflow_run = refl

uuid_run : check_uuid (some (bytes "09d8c3ab-5d3c-4ad3-bbd5-16ce4bbf6f40")) ≡ 0
unfolding check_uuid uuid_loop bytes strstr
uuid_run = refl

basic_run : basic_validation move_tag_post ≡ 0
unfolding basic_validation basic_action vitals_loop known_actions is_one_of get_post_data str_eq
    bytes opendias.Validation.Fields.check_vitals
basic_run = refl

validate-Accepted_iff_example :
    Accepted (validate full_build move_tag_post (name move_tag))
    ↔ Fits full_build move_tag move_tag_post
validate-Accepted_iff_example = validate-Accepted_iff full_build move_tag_post move_tag refl

filter_basic : basic_validation filter_post ≡ 0
unfolding basic_validation basic_action vitals_loop known_actions is_one_of get_post_data str_eq
    bytes opendias.Validation.Fields.check_vitals
filter_basic = refl

validate-fault_iff_example :
    (validate full_build filter_post (name doc_filter) ≡ fault)
    ↔ ReadsPastDate doc_filter filter_post
validate-fault_iff_example = validate-fault_iff full_build filter_post doc_filter filter_basic refl

check_uuid-zero_iff_example :
    (check_uuid (some (bytes "09d8c3ab-5d3c-4ad3-bbd5-16ce4bbf6f40")) ≡ 0)
    ↔ IsUuid (bytes "09d8c3ab-5d3c-4ad3-bbd5-16ce4bbf6f40")
check_uuid-zero_iff_example = check_uuid-zero_iff (bytes "09d8c3ab-5d3c-4ad3-bbd5-16ce4bbf6f40")

check_date-zero_iff_example :
    (check_date (some (bytes "2010-02-28")) ≡ ok 0) ↔ IsDate (bytes "2010-02-28")
check_date-zero_iff_example = check_date-zero_iff (bytes "2010-02-28")

basic_validation-zero_iff_example : (basic_validation move_tag_post ≡ 0) ↔ IsBasic move_tag_post
basic_validation-zero_iff_example = basic_validation-zero_iff move_tag_post

check_doc_id-zero_iff_example : (check_doc_id (some (bytes "4294967297")) ≡ 0) ↔ (
    All IsDigit (bytes "4294967297")
    × (min (decimal (bytes "4294967297")) (2 ^ 63 - 1) % 2 ^ 32 ≤ 9999999))
check_doc_id-zero_iff_example = check_doc_id-zero_iff (bytes "4294967297")

short_number : length (bytes "300") ≤ 9
unfolding bytes
short_number = omega arith

int_in_range-short_iff_example :
    (int_in_range 10 3000 (some (bytes "300")) ≡ 0)
    ↔ (All IsDigit (bytes "300") × (10 ≤ decimal (bytes "300")) × (decimal (bytes "300") ≤ 3000))
int_in_range-short_iff_example = int_in_range-short_iff 10 3000 (bytes "300") short_number

check_keys-zero_iff_example :
    (check_keys move_tag_post (rules move_tag) ≡ 0) ↔ KeysFit move_tag_post (rules move_tag)
check_keys-zero_iff_example =
    check_keys-zero_iff move_tag_post (rules move_tag) (rules-Distinct move_tag)
