-- ===== src/Validation/Fields.antt =====
-- src/validation.c, the checks on single values, and `lower` and `dateStringToDateParts` of
-- src/utils.c, which they call. A check returns 0 for a good value.
pub mod Laws
pub mod Numbers
pub mod Uuid
pub mod Kinds
use opendias.Base.{
  ℕ, ◌+◌, ◌≡◌, Bool, true, false, not, ◌&&◌, ◌||◌, Option, none, some, List, [], ◌∷◌, map, ◌==◌,
  leb, if◌then◌else◌, take, drop, length,
}
use opendias.Base.Exec.{Exec, ok, fault, ◌>>=◌}
use opendias.Base.CString.{CString, bytes, str_eq, strstr, tolower}
use opendias.Base.Int.{ℤ, pos, leb_ℤ, atoi}

-- The program as built: the compile-time switches, and what the OCR library says of a language.
pub record Build : Type 0 where
  pub can_scan : Bool
  pub can_ocr : Bool
  pub can_pdf : Bool
  pub can_phash : Bool
  pub open_to_all : Bool
  pub is_ocr_language_available : CString → Bool

-- 0 where a value is there and holds something.
unfoldable pub check_vitals : Option CString → ℕ
unfolding str_eq bytes
check_vitals none = 1
check_vitals (some value) = if str_eq value (bytes "") then 1 else 0

unfoldable pub int_loop : CString → ℕ
int_loop [] = 0
int_loop (c ∷ s) = if not (strstr (bytes "0123456789") (c ∷ [])) then 1 else int_loop s

unfoldable pub check_string_is_int : Option CString → ℕ
unfolding int_loop strstr bytes
check_string_is_int none = 1
check_string_is_int (some s) = int_loop s

unfoldable pub check_sane_range : CString → ℕ → ℕ → ℕ
check_sane_range s low high =
    let i = atoi s in if leb_ℤ (pos low) i && leb_ℤ i (pos high) then 0 else 1

unfoldable pub check_val : Option CString → ℕ
check_val val = 0

-- `if(checkStringIsInt(val)) return 1; if(checkSaneRange(val, low, high)) return 1; return 0;`
unfoldable pub int_in_range : ℕ → ℕ → Option CString → ℕ
unfolding check_string_is_int check_sane_range
int_in_range low high none = 1
int_in_range low high (some val) =
    if check_string_is_int (some val) == 0
    then if check_sane_range val low high == 0 then 0 else 1
    else 1

unfoldable pub check_doc_id : Option CString → ℕ
check_doc_id val = int_in_range 0 9999999 val

unfoldable pub check_page_length : Option CString → ℕ
check_page_length val = int_in_range 20 100 val

unfoldable pub check_pages : Option CString → ℕ
check_pages val = int_in_range 1 20 val

unfoldable pub check_resolution : Option CString → ℕ
check_resolution val = int_in_range 10 3000 val

unfoldable pub check_role : Option CString → ℕ
check_role val = int_in_range 1 10 val

-- `0 == strcmp(val, w)` for some `w` of the list
unfoldable pub is_one_of : List CString → CString → Bool
unfolding str_eq
is_one_of [] val = false
is_one_of (w ∷ ws) val = str_eq val w || is_one_of ws val

abbrev pub sub_actions : List CString
sub_actions = bytes "addTag" ∷ bytes "removeTag" ∷ bytes "addDoc" ∷ bytes "removeDoc" ∷ []

unfoldable pub check_add_remove : Option CString → ℕ
check_add_remove none = 1
check_add_remove (some val) = if is_one_of sub_actions val then 0 else 1

unfoldable pub check_full_count : Option CString → ℕ
check_full_count none = 1
check_full_count (some val) = if is_one_of (bytes "fullList" ∷ bytes "count" ∷ []) val then 0 else 1

pub record DateParts : Type 0 where
  pub year : CString
  pub month : CString
  pub day : CString

-- `strncpy` from the offsets 0, 5 and 8; a read that starts behind the closing NUL is out of bounds.
unfoldable pub date_string_to_date_parts : CString → Exec DateParts
date_string_to_date_parts s =
    if leb 8 (length s)
    then ok (record { year = take 4 s; month = take 2 (drop 5 s); day = take 2 (drop 8 s) })
    else fault

-- One of the three tests of `checkDate`: `if(checkStringIsInt(p)) x++; else if(checkSaneRange(…)) x++;`
unfoldable pub date_part : CString → ℕ → ℕ → ℕ
unfolding check_string_is_int check_sane_range
date_part p low high =
    if check_string_is_int (some p) == 0
    then if check_sane_range p low high == 0 then 0 else 1
    else 1

unfoldable pub check_date : Option CString → Exec ℕ
check_date none = fault
check_date (some val) = do
  dp ← date_string_to_date_parts val
  ok (date_part dp.year 1850 2038 + date_part dp.month 1 12 + date_part dp.day 1 31)

abbrev pub ocr_languages : List CString
ocr_languages =
    bytes "eng"
    ∷ bytes "deu"
    ∷ bytes "fra"
    ∷ bytes "spa"
    ∷ bytes "ita"
    ∷ bytes "nld"
    ∷ bytes "por"
    ∷ bytes "vie"
    ∷ []

unfoldable pub check_ocr_language : (CString → Bool) → Option CString → ℕ
check_ocr_language available none = 1
check_ocr_language available (some val) =
    if str_eq val (bytes "-")
    then 0
    else if is_one_of ocr_languages val
    then if available val then 0 else 1
    else 1

unfoldable pub check_device_id : Option CString → ℕ
unfolding check_val
check_device_id none = 1
check_device_id (some val) = check_val (some val)

unfoldable pub lower : CString → CString
unfolding tolower
lower s = map tolower s

-- The result, and the value as `lower` leaves it in the post data.
unfoldable pub check_format : Option CString → ℕ × Option CString
check_format none = (1, none)
check_format (some val) =
    (if is_one_of (bytes "gray" ∷ bytes "colour" ∷ []) (lower val) then 0 else 1, some (lower val))

abbrev pub update_keys : List CString
update_keys =
    bytes "title"
    ∷ bytes "actionrequired"
    ∷ bytes "hardcopyKept"
    ∷ bytes "ocrtext"
    ∷ bytes "docDate"
    ∷ []

unfoldable pub check_update_key : Option CString → ℕ
check_update_key none = 1
check_update_key (some val) = if is_one_of update_keys val then 0 else 1

unfoldable pub check_tag_list : Option CString → ℕ
unfolding check_val
check_tag_list none = 1
check_tag_list (some val) = check_val (some val)

unfoldable pub check_tag : Option CString → ℕ
unfolding check_val
check_tag none = 1
check_tag (some val) = check_val (some val)

abbrev pub hex : CString
hex = bytes "abcdefABCDEF0123456789"

abbrev pub template : CString
template = bytes "hhhhhhhh-hhhh-hhhh-hhhh-hhhhhhhhhhhh"

unfoldable pub uuid_loop : CString → CString → ℕ
uuid_loop (c ∷ s) (t ∷ ts) =
    if (strstr (bytes "-") (t ∷ []) && not (strstr (t ∷ []) (c ∷ [])))
      || (strstr (bytes "h") (t ∷ []) && not (strstr hex (c ∷ [])))
    then 1
    else uuid_loop s ts
uuid_loop [] [] = 0
uuid_loop _ _ = 1

unfoldable pub check_uuid : Option CString → ℕ
check_uuid none = 1
check_uuid (some val) = uuid_loop val template

-- 1 where the language is one that the program has.
unfoldable pub validate_language : CString → ℕ
unfolding is_one_of bytes
validate_language lang =
    if is_one_of (bytes "en" ∷ bytes "de" ∷ bytes "nl" ∷ bytes "hh" ∷ []) lang then 1 else 0
