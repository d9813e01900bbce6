-- ===== src/Validation/Actions/Accepted.antt =====
-- What `validate` accepts, action by action.
use opendias.Base.{
  ℕ, ◌+◌, ◌≡◌, refl, ap, ◌↔◌, Bool, true, false, not, Option, none, some, List, [], ◌∷◌, arith,
  ◌==◌, if◌then◌else◌, Bool-cases, inl, inr,
}
use opendias.Base.CString.{CString, bytes}
use opendias.LinkedList.{Sll}
use opendias.Validation.Fields.{
  Build, check_doc_id, check_format, check_ocr_language, sub_actions, lower,
}
use opendias.Validation.Fields.Laws.{Given, InRange}
use opendias.Validation.Fields.Uuid.{IsUuid}
use opendias.Validation.Fields.Kinds.{
  IsGiven, IfGiven, IsOneOf, formats, IsOcrLanguage, doc_id_iff, page_length_iff, pages_iff,
  resolution_iff, IsUuid-iff, device_id_iff, tag_iff, add_remove_iff, format_iff, IsOcrLanguage-iff,
}
use opendias.Validation.Keys.{PostData, check_keys}
use opendias.Validation.Keys.Laws.{Distinct, KeysFit, check_keys-zero_iff}
use opendias.Validation.Blocks.{
  field, keys_only, doc_id_block, get_scanner_details_block, do_scan_block, progress_block,
  update_doc_details_block, move_tag_block, title_auto_complete_block, update_user_block,
  create_user_block, upload_file_block, set_post_data, update_doc_details_rules,
}
use opendias.Validation.Blocks.Laws.{
  field-set_post_data_ne, if_given-ok, given_or_zero-zero_iff, RoleFits, NewRoleFits,
  create_role-zero_iff, update_role-zero_iff, UpdateFits,
}
use opendias.Validation.Actions.{validate}
use opendias.Validation.Actions.Checks.{
  Accepted, accepted0, accepted1, accepted3, accepted6, update-Accepted,
}
use opendias.Validation.Actions.DocFilter.{DocFilterFits, doc_filter-Accepted}
use opendias.Validation.Actions.Table.{
  Action, get_doc_detail, get_scanner_list, get_scanner_details, do_scan, get_scanning_progress,
  next_page_ready, update_doc_details, check_for_similar, move_tag, doc_filter, delete_doc,
  regenerate_thumb, title_auto_complete, tags_auto_complete, check_login, logout, update_user,
  create_user, delete_user, get_user_list, upload_file, name, is_built, rules, rules-Distinct,
  block, validate-block,
}

abbrev pub IsDocId : CString → Type 0
IsDocId = InRange 0 9999999

-- The conditions on the fields of an action's post data, besides those on its keys.
abbrev pub FieldsFit : Build → Action → PostData → Type 0
FieldsFit b get_doc_detail post = Given IsDocId (field post (bytes "docid"))
FieldsFit b get_scanner_list post = Unit
FieldsFit b get_scanner_details post = IsGiven (field post (bytes "deviceid"))
FieldsFit b do_scan post =
    IsGiven (field post (bytes "deviceid"))
    × Given (λ v. IsOneOf formats (lower v)) (field post (bytes "format"))
    × Given (InRange 10 3000) (field post (bytes "resolution"))
    × Given (InRange 1 20) (field post (bytes "pages"))
    × (b.can_ocr ≡ true
        → Given (IsOcrLanguage b.is_ocr_language_available) (field post (bytes "ocr")))
    × Given (InRange 20 100) (field post (bytes "pagelength"))
FieldsFit b get_scanning_progress post = Given IsUuid (field post (bytes "scanprogressid"))
FieldsFit b next_page_ready post = Given IsUuid (field post (bytes "scanprogressid"))
FieldsFit b update_doc_details post =
    Given IsDocId (field post (bytes "docid"))
    × UpdateFits (field post (bytes "kkey")) (field post (bytes "vvalue"))
FieldsFit b check_for_similar post = Given IsDocId (field post (bytes "docid"))
FieldsFit b move_tag post =
    Given IsDocId (field post (bytes "docid"))
    × IsGiven (field post (bytes "tag"))
    × Given (IsOneOf sub_actions) (field post (bytes "subaction"))
FieldsFit b doc_filter post = DocFilterFits post
FieldsFit b delete_doc post = Given IsDocId (field post (bytes "docid"))
FieldsFit b regenerate_thumb post = Given IsDocId (field post (bytes "docid"))
FieldsFit b title_auto_complete post = IfGiven IsDocId (field post (bytes "notLinkedTo"))
FieldsFit b tags_auto_complete post = Given IsDocId (field post (bytes "docid"))
FieldsFit b check_login post = Unit
FieldsFit b logout post = Unit
FieldsFit b update_user post =
    NewRoleFits (field post (bytes "username")) (field post (bytes "role"))
FieldsFit b create_user post = RoleFits (field post (bytes "username")) (field post (bytes "role"))
FieldsFit b delete_user post = Unit
FieldsFit b get_user_list post = Unit
FieldsFit b upload_file post = Given IsUuid (field post (bytes "uploadfile"))

-- The keys fit the action's rules, and the fields their conditions.
abbrev pub Fits : Build → Action → PostData → Type 0
Fits b a post = KeysFit post (rules a) × FieldsFit b a post

module _ (b : Build) (post : PostData) where
  keys_only-Accepted :
      (r : Sll CString)
      → Distinct r
      → Accepted (keys_only r (post, 0)) ↔ (KeysFit post r × Unit {0})
  unfolding keys_only
  keys_only-Accepted r d =
      let (to, from) = accepted0 post post r d in (λ a. (to a, tt), λ h. from h.0)

  doc_id_block-Accepted :
      (r : Sll CString)
      → Distinct r
      → Accepted (doc_id_block r (post, 0))
        ↔ (KeysFit post r × Given IsDocId (field post (bytes "docid")))
  unfolding doc_id_block
  doc_id_block-Accepted r d = accepted1 post post r d (doc_id_iff _)

  when_ocr :
      (o : Option CString)
      → ((if b.can_ocr then check_ocr_language b.is_ocr_language_available o else 0) ≡ 0)
        ↔ (b.can_ocr ≡ true → Given (IsOcrLanguage b.is_ocr_language_available) o)
  when_ocr o = elim (Bool-cases b.can_ocr) [
    | inl built ↦
        let (to, from) = IsOcrLanguage-iff b.is_ocr_language_available o in ground (arith, to, from)
    | inr absent ↦ ground arith
  ]

  do_scan-Accepted : Accepted (do_scan_block b (post, 0)) ↔ Fits b do_scan post
  unfolding do_scan_block opendias.Base.CString.str_eq bytes
  do_scan-Accepted =
      let (format, lowered) = check_format (field post (bytes "format")) in
      let post' = set_post_data post (bytes "format") lowered in
      let same = λ (key : CString). field-set_post_data_ne post (bytes "format") key lowered in
      accepted6 post' post _ (rules-Distinct do_scan) (device_id_iff _) (format_iff _)
        (rw (same (bytes "resolution") refl) (resolution_iff _))
        (rw (same (bytes "pages") refl) (pages_iff _)) (rw (same (bytes "ocr") refl) (when_ocr _))
        (rw (same (bytes "pagelength") refl) (page_length_iff _))

  update_doc_details-Accepted :
      Accepted (update_doc_details_block (post, 0)) ↔ Fits b update_doc_details post
  unfolding update_doc_details_block
  update_doc_details-Accepted =
      let ck = check_keys post update_doc_details_rules in
      let id = field post (bytes "docid") in
      let (to, from) =
        update-Accepted post (0 + ck + check_doc_id id) (field post (bytes "kkey"))
          (field post (bytes "vvalue")) in
      let (keys, keys') =
        check_keys-zero_iff post update_doc_details_rules (rules-Distinct update_doc_details) in
      let (good, good') = doc_id_iff id in
      (
        λ a. let (z, fits) = to a in (keys (omega arith), (good (omega arith), fits)),
        λ h. from (omega (arith, keys' h.0, good' h.1.0), h.1.1),
      )

  block-Accepted : (a : Action) → Accepted (block b a (post, 0)) ↔ Fits b a post
  unfolding get_scanner_details_block progress_block move_tag_block title_auto_complete_block
      update_user_block create_user_block upload_file_block
  block-Accepted get_doc_detail = doc_id_block-Accepted _ (rules-Distinct get_doc_detail)
  block-Accepted get_scanner_list = keys_only-Accepted _ (rules-Distinct get_scanner_list)
  block-Accepted get_scanner_details =
      accepted1 post post _ (rules-Distinct get_scanner_details) (device_id_iff _)
  block-Accepted do_scan = do_scan-Accepted
  block-Accepted get_scanning_progress =
      accepted1 post post _ (rules-Distinct get_scanning_progress) (IsUuid-iff _)
  block-Accepted next_page_ready =
      accepted1 post post _ (rules-Distinct next_page_ready) (IsUuid-iff _)
  block-Accepted update_doc_details = update_doc_details-Accepted
  block-Accepted check_for_similar = doc_id_block-Accepted _ (rules-Distinct check_for_similar)
  block-Accepted move_tag =
      accepted3 post post _ (rules-Distinct move_tag) (doc_id_iff _) (tag_iff _) (add_remove_iff _)
  block-Accepted doc_filter = doc_filter-Accepted post (rules-Distinct doc_filter)
  block-Accepted delete_doc = doc_id_block-Accepted _ (rules-Distinct delete_doc)
  block-Accepted regenerate_thumb = doc_id_block-Accepted _ (rules-Distinct regenerate_thumb)
  block-Accepted title_auto_complete =
      rw (if_given-ok (field post (bytes "notLinkedTo")) (λ d. check_doc_id (some d))) (
        accepted1 post post _ (rules-Distinct title_auto_complete)
          (given_or_zero-zero_iff _ _ IsDocId (λ d. doc_id_iff (some d))))
  block-Accepted tags_auto_complete = doc_id_block-Accepted _ (rules-Distinct tags_auto_complete)
  block-Accepted check_login = keys_only-Accepted _ (rules-Distinct check_login)
  block-Accepted logout = keys_only-Accepted _ (rules-Distinct logout)
  block-Accepted update_user =
      accepted1 post post _ (rules-Distinct update_user) (update_role-zero_iff _ _)
  block-Accepted create_user =
      accepted1 post post _ (rules-Distinct create_user) (create_role-zero_iff _ _)
  block-Accepted delete_user = keys_only-Accepted _ (rules-Distinct delete_user)
  block-Accepted get_user_list = keys_only-Accepted _ (rules-Distinct get_user_list)
  block-Accepted upload_file = accepted1 post post _ (rules-Distinct upload_file) (IsUuid-iff _)

-- For every action that is compiled in, `validate` returns without a fault and without an error
-- exactly if the keys of the post data are those of the action and its fields meet their conditions.
pub validate-Accepted_iff :
    (b : Build) (post : PostData) (a : Action)
    → is_built b a ≡ true
    → Accepted (validate b post (name a)) ↔ Fits b a post
validate-Accepted_iff b post a built = rw (validate-block b post a built) (block-Accepted b post a)
