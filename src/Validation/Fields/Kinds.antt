-- ===== src/Validation/Fields/Kinds.antt =====
-- What each check of a field accepts, NULL included.
use opendias.Base.{
  ℕ, ◌≡◌, ◌≢◌, ◌↔◌, ◌⊎◌, Bool, true, Option, none, some, List, [], ◌∷◌, arith, if◌then◌else◌, Any,
}
use opendias.Base.CString.{CString, bytes, str_eq_iff}
use opendias.Validation.Fields.{
  check_doc_id, check_page_length, check_pages, check_resolution, check_role, is_one_of,
  check_add_remove, check_full_count, check_update_key, check_ocr_language, check_device_id,
  check_tag, check_format, lower, check_uuid, sub_actions, update_keys, ocr_languages,
}
use opendias.Validation.Fields.Laws.{Given, InRange, int_in_range-zero_iff, is_one_of_iff}
use opendias.Validation.Fields.Uuid.{IsUuid, check_uuid-zero_iff}

-- A value is there.
abbrev pub IsGiven : Option CString → Type 0
IsGiven o = Given (λ v. Unit {0}) o

-- A value, where one is given that is not empty, satisfies `P`.
abbrev pub IfGiven : (CString → Type 0) → Option CString → Type 0
IfGiven P none = Unit
IfGiven P (some v) = v ≢ [] → P v

abbrev pub IsOneOf : List CString → CString → Type 0
IsOneOf ws v = Any (λ w. v ≡ w) ws

module _ (o : Option CString) where
  pub doc_id_iff : (check_doc_id o ≡ 0) ↔ Given (InRange 0 9999999) o
  unfolding check_doc_id
  doc_id_iff = int_in_range-zero_iff 0 9999999 o

  pub page_length_iff : (check_page_length o ≡ 0) ↔ Given (InRange 20 100) o
  unfolding check_page_length
  page_length_iff = int_in_range-zero_iff 20 100 o

  pub pages_iff : (check_pages o ≡ 0) ↔ Given (InRange 1 20) o
  unfolding check_pages
  pages_iff = int_in_range-zero_iff 1 20 o

  pub resolution_iff : (check_resolution o ≡ 0) ↔ Given (InRange 10 3000) o
  unfolding check_resolution
  resolution_iff = int_in_range-zero_iff 10 3000 o

  pub role_iff : (check_role o ≡ 0) ↔ Given (InRange 1 10) o
  unfolding check_role
  role_iff = int_in_range-zero_iff 1 10 o

pub IsUuid-iff : (o : Option CString) → (check_uuid o ≡ 0) ↔ Given IsUuid o
unfolding check_uuid
IsUuid-iff none = ground arith
IsUuid-iff (some v) = check_uuid-zero_iff v

pub device_id_iff : (o : Option CString) → (check_device_id o ≡ 0) ↔ IsGiven o
unfolding check_device_id
device_id_iff o = ground arith

pub tag_iff : (o : Option CString) → (check_tag o ≡ 0) ↔ IsGiven o
unfolding check_tag
tag_iff o = ground arith

-- `if (is_one_of ws val) return 0; return 1;`
choice_iff :
    (ws : List CString) (v : CString)
    → (◌≡◌ {A = ℕ} (if is_one_of ws v then 0 else 1) 0) ↔ IsOneOf ws v
choice_iff ws v = ground (arith, is_one_of_iff ws v)

pub add_remove_iff : (o : Option CString) → (check_add_remove o ≡ 0) ↔ Given (IsOneOf sub_actions) o
unfolding check_add_remove
add_remove_iff none = ground arith
add_remove_iff (some v) = choice_iff sub_actions v

abbrev pub counts : List CString
counts = bytes "fullList" ∷ bytes "count" ∷ []

pub full_count_iff : (o : Option CString) → (check_full_count o ≡ 0) ↔ Given (IsOneOf counts) o
unfolding check_full_count
full_count_iff none = ground arith
full_count_iff (some v) = choice_iff counts v

pub update_key_iff : (o : Option CString) → (check_update_key o ≡ 0) ↔ Given (IsOneOf update_keys) o
unfolding check_update_key
update_key_iff none = ground arith
update_key_iff (some v) = choice_iff update_keys v

abbrev pub formats : List CString
formats = bytes "gray" ∷ bytes "colour" ∷ []

-- The format is compared without regard to the case of its letters.
pub format_iff :
    (o : Option CString) → ((check_format o).0 ≡ 0) ↔ Given (λ v. IsOneOf formats (lower v)) o
unfolding check_format
format_iff none = ground arith
format_iff (some v) = choice_iff formats (lower v)

-- No OCR, or a language that the program knows and the OCR library has.
abbrev pub IsOcrLanguage : (CString → Bool) → CString → Type 0
IsOcrLanguage available v = (v ≡ bytes "-") ⊎ (IsOneOf ocr_languages v × (available v ≡ true))

pub IsOcrLanguage-iff :
    (available : CString → Bool) (o : Option CString)
    → (check_ocr_language available o ≡ 0) ↔ Given (IsOcrLanguage available) o
unfolding check_ocr_language
IsOcrLanguage-iff available none = ground arith
IsOcrLanguage-iff available (some v) =
    ground (arith, str_eq_iff v (bytes "-"), is_one_of_iff ocr_languages v)
