-- ===== src/Validation/Actions/Safety.antt =====
-- Where `validate` reads out of bounds, on post data that `basicValidation` accepts.
use opendias.Base.{
  ℕ, zero, suc, ◌+◌, ◌≡◌, refl, ap, ◌≢◌, ◌↔◌, ◌⊎◌, inl, inr, true, Option, none, some, arith, ◌==◌,
  if◌then◌else◌, Bool-cases,
}
use opendias.Base.Exec.{Exec, ok, fault, ◌>>=◌}
use opendias.Base.CString.{CString, bytes, str_eq, str_eq_iff, str_eq_sound}
use opendias.Validation.Fields.{Build, check_doc_id}
use opendias.Validation.Fields.Laws.{Given, check_date-fault_iff}
use opendias.Validation.Fields.Kinds.{doc_id_iff}
use opendias.Validation.Keys.{PostData, check_keys, is_mandatory}
use opendias.Validation.Keys.Laws.{KeysFit, check_keys-zero_iff}
use opendias.Validation.Blocks.{
  Checked, field, keys_only, doc_id_block, get_scanner_details_block, do_scan_block, progress_block,
  update_doc_details_block, update_doc_details_rules, update_value, move_tag_block,
  title_auto_complete_block, update_user_block, create_user_block, upload_file_block,
}
use opendias.Validation.Blocks.Laws.{if_given-ok}
use opendias.Validation.Actions.{validate, basic_validation}
use opendias.Validation.Actions.Basic.{IsFilled, IsBasic, IsBasic-field, basic_validation-zero_iff}
use opendias.Validation.Actions.DocFilter.{IsShortDate, doc_filter-fault_iff}
use opendias.Validation.Actions.Accepted.{IsDocId}
use opendias.Validation.Actions.Table.{
  Action, update_doc_details, doc_filter, title_auto_complete, name, is_built, rules-Distinct,
  block, validate-block,
}

-- The value of a document's date, where the other fields of the request are good.
abbrev pub IsShortUpdate : PostData → Type 0
IsShortUpdate post =
    KeysFit post update_doc_details_rules
    × Given IsDocId (field post (bytes "docid"))
    × (field post (bytes "kkey") ≡ some (bytes "docDate"))
    × IsShortDate (field post (bytes "vvalue"))

-- The post data that make an action read behind the end of a date.
abbrev pub ReadsPastDate : Action → PostData → Type 0
ReadsPastDate update_doc_details post = IsShortUpdate post
ReadsPastDate doc_filter post =
    IsShortDate (field post (bytes "startDate")) ⊎ IsShortDate (field post (bytes "endDate"))
ReadsPastDate _ post = ⊥

update_value-fault_iff :
    (k v : Option CString)
    → IsFilled k
    → IsFilled v
    → (update_value 0 k v ≡ fault) ↔ ((k ≡ some (bytes "docDate")) × IsShortDate v)
unfolding update_value
update_value-fault_iff none v f g = absurd f
update_value-fault_iff (some k) none f g = absurd g
update_value-fault_iff (some k) (some v) f g =
    let (to, from) = check_date-fault_iff v in
    elim (Bool-cases (str_eq k (bytes "docDate"))) [
      | inl hit ↦
          let same : k ≡ bytes "docDate" = str_eq_sound _ _ hit in
          rw hit ((λ e. (ap some same, (g, to (ground arith)))), λ h. rw (from h.1.1) refl)
      | inr miss ↦
          let ne : some k ≢ some (bytes "docDate") =
            ground (arith, str_eq_iff k (bytes "docDate")) in
          rw miss ((λ e. cc), λ h. absurd (ne h.0))
    ]

then_ok-fault_iff :
    (post : PostData) (m : Exec ℕ)
    → ◌≡◌ {A = Exec Checked} (m >>= λ total. ok (post, total)) fault ↔ (m ≡ fault)
then_ok-fault_iff post (ok n) = ground arith
then_ok-fault_iff post fault = ground arith

update-fault_iff :
    (post : PostData) (n : ℕ) (k v : Option CString)
    → ◌≡◌ {A = Exec Checked}
        (if n == 0 then (do total ← update_value n k v; ok (post, total)) else ok (post, n))
        fault
      ↔ ((n ≡ 0) × (update_value 0 k v ≡ fault))
update-fault_iff post zero k v =
    let (to, from) = then_ok-fault_iff post (update_value 0 k v) in
    ((λ e. (refl, to e)), λ h. from h.1)
update-fault_iff post (suc n) k v = ground arith

module _ (post : PostData) (basic : IsBasic post) where
  filled :
      KeysFit post update_doc_details_rules
      → IsFilled (field post (bytes "kkey")) × IsFilled (field post (bytes "vvalue"))
  unfolding update_doc_details_rules is_mandatory
  filled fit = (
    IsBasic-field post (bytes "kkey") basic (fit.1.1.1.0 refl),
    IsBasic-field post (bytes "vvalue") basic (fit.1.1.1.1.0 refl),
  )

  update-fault : (update_doc_details_block (post, 0) ≡ fault) ↔ IsShortUpdate post
  unfolding update_doc_details_block
  update-fault =
      let id = field post (bytes "docid") in
      let ck = check_keys post update_doc_details_rules in
      let key = field post (bytes "kkey") in
      let value = field post (bytes "vvalue") in
      let (to, from) = update-fault_iff post (0 + ck + check_doc_id id) key value in
      let (keys, keys') =
        check_keys-zero_iff post update_doc_details_rules (rules-Distinct update_doc_details) in
      let (good, good') = doc_id_iff id in
      (
        λ e.
            let (z, bad) = to e in
            let fit = keys (omega arith) in
            let (k, v) = filled fit in
            let (date, short) = (update_value-fault_iff key value k v).0 bad in
            (fit, good (omega arith), date, short),
        λ h.
            let (k, v) = filled h.0 in
            from (
              omega (arith, keys' h.0, good' h.1),
              (update_value-fault_iff key value k v).1 (h.2, h.3),
            ),
      )

  block-fault : (b : Build) (a : Action) → (block b a (post, 0) ≡ fault) ↔ ReadsPastDate a post
  unfolding keys_only doc_id_block get_scanner_details_block do_scan_block progress_block
      move_tag_block title_auto_complete_block update_user_block create_user_block upload_file_block
  block-fault b update_doc_details = update-fault
  block-fault b doc_filter = doc_filter-fault_iff post
  block-fault b title_auto_complete =
      rw (if_given-ok (field post (bytes "notLinkedTo")) (λ d. check_doc_id (some d)))
        ((λ e. cc), λ h. absurd h)
  block-fault b _ = ((λ e. cc), λ h. absurd h)

-- On post data that `basicValidation` accepts, for an action that is compiled in, `validate`
-- dereferences no NULL, and reads out of
-- bounds exactly where a date that it checks has fewer than 8 bytes.
pub validate-fault_iff :
    (b : Build) (post : PostData) (a : Action)
    → basic_validation post ≡ 0
    → is_built b a ≡ true
    → (validate b post (name a) ≡ fault) ↔ ReadsPastDate a post
validate-fault_iff b post a basic built =
    rw (validate-block b post a built)
      (block-fault post ((basic_validation-zero_iff post).0 basic) b a)
