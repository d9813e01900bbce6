-- ===== src/DocEditor.antt =====
-- src/doc_editor.c: the changes of a document, of its tags and of its links.
pub mod Columns
pub mod Parts
pub mod Detail
pub mod Links
use opendias.Base.{
  ℕ, zero, suc, ◌+◌, Bool, true, false, Option, none, some, List, [], ◌∷◌, ◌++◌, if◌then◌else◌,
  ◌==◌,
}
use opendias.Base.Exec.{Exec, ok, fault}
use opendias.Base.CString.{CString, bytes, str_eq}
use opendias.Base.Int.{ℤ, pos, negsuc, atoi}
use opendias.Validation.Fields.{DateParts, date_string_to_date_parts}
use opendias.Database.{Value, text, int, History, Sqlite, RecordSet, read_data}
use opendias.Database.Run.{Run, return, ◌>>=◌, lift, run_query}
use opendias.Database.Binding.{vars_of}
use opendias.DbAccess.{
  update_doc_value, update_doc_value_int, add_doc_to_doc, remove_doc_from_doc, remove_doc_tags,
  remove_doc_links, remove_doc,
}
use opendias.DbAccess.Tags.{
  get_tag_id, add_tag_to_doc, remove_tag_from_doc, count_docs_with_tag, delete_tag,
}
use opendias.PageRender.Services.{tagged, response}

abbrev pub select_pages : CString
select_pages = bytes "SELECT pages FROM docs WHERE docid = ?"

abbrev pub select_document : CString
select_document = bytes "SELECT docid FROM docs WHERE docid = ?"

unfoldable pub status_ok : (name : CString) → CString
unfolding bytes
status_ok name = response (tagged name (tagged (bytes "status") (bytes "OK")))

-- NULL for an error.
unfoldable pub answer_of : (name : CString) → ℕ → Option CString
answer_of name rc = if rc == 0 then some (status_ok name) else none

-- 1 for "true".
unfoldable pub flag_of : Option CString → ℤ
unfolding bytes
flag_of none = pos 0
flag_of (some vvalue) = if str_eq vvalue (bytes "true") then pos 1 else pos 0

-- A value that is NULL is read by the statement, or by the parts of the date.
unfoldable pub required : Option CString → Exec CString
required none = fault
required (some vvalue) = ok vvalue

-- How often `for(i = 1 ; i <= pages ; i++)` runs.
abbrev pub page_count : ℤ → ℕ
page_count (pos n) = n
page_count (negsuc n) = 0

-- The files of the pages 1 to n, as `unlink` is called on them.
module _ (base_dir : CString) (print_int : ℤ → CString) where
  unfoldable pub page_files : (document_id : CString) (first count : ℕ) → List CString
  unfolding bytes
  page_files document_id first zero = []
  page_files document_id first (suc count) =
      (base_dir
        ++ (bytes "/scans/"
            ++ (document_id ++ (bytes "_" ++ (print_int (pos first) ++ bytes ".jpg")))))
      ∷ page_files document_id (suc first) count

module _ (s : Sqlite) where
  -- The next part of a date, where the one before was saved.
  unfoldable pub save_part : (docid column part : CString) → ℕ → Run ℕ
  save_part docid column part rc =
      if rc == 0 then update_doc_value s docid column part else return rc

  unfoldable pub save_date : (docid : CString) → DateParts → Run ℕ
  unfolding bytes
  save_date docid dp = do
    rc ← update_doc_value s docid (bytes "docdatey") dp.year
    rc' ← save_part docid (bytes "docdatem") dp.month rc
    save_part docid (bytes "docdated") dp.day rc'

  unfoldable pub save_detail : (docid kkey : CString) (vvalue : Option CString) → Run ℕ
  unfolding bytes
  save_detail docid kkey vvalue =
      if str_eq kkey (bytes "docDate")
      then (do
        date ← lift (required vvalue)
        dp ← lift (date_string_to_date_parts date)
        save_date docid dp)
      else if str_eq kkey (bytes "actionrequired")
      then update_doc_value_int s docid kkey (flag_of vvalue)
      else if str_eq kkey (bytes "hardcopyKept")
      then update_doc_value_int s docid kkey (flag_of vvalue)
      else (do value ← lift (required vvalue); update_doc_value s docid kkey value)

  unfoldable pub update_doc_details :
      (docid kkey : CString) (vvalue : Option CString) → Run (Option CString)
  unfolding bytes
  update_doc_details docid kkey vvalue = do
    rc ← save_detail docid kkey vvalue
    return (answer_of (bytes "UpdateDocDetails") rc)

  unfoldable pub drop_unused : (tagid : CString) → ℤ → Run ℕ
  drop_unused tagid (pos zero) = delete_tag s tagid
  drop_unused tagid (pos (suc n)) = return 0
  drop_unused tagid (negsuc n) = return 0

  module _ (last_insert : History → ℤ) where
    unfoldable pub link_code : (docid link subaction : CString) → Run ℕ
    unfolding bytes
    link_code docid link subaction =
        if str_eq subaction (bytes "addTag")
        then (do tagid ← get_tag_id s last_insert link; add_tag_to_doc s docid tagid)
        else if str_eq subaction (bytes "removeTag")
        then (do
          tagid ← get_tag_id s last_insert link
          rc ← remove_tag_from_doc s docid tagid
          ct ← count_docs_with_tag s tagid
          code ← drop_unused tagid ct
          return rc)
        else if str_eq subaction (bytes "addDoc")
        then (do
          rc ← add_doc_to_doc s docid link
          rc' ← add_doc_to_doc s link docid
          return (rc + rc'))
        else if str_eq subaction (bytes "removeDoc")
        then (do
          rc ← remove_doc_from_doc s docid link
          rc' ← remove_doc_from_doc s link docid
          return (rc + rc'))
        else return 1

    unfoldable pub update_tag_linkage : (docid link subaction : CString) → Run (Option CString)
    unfolding bytes
    update_tag_linkage docid link subaction = do
      rc ← link_code docid link subaction
      return (answer_of (bytes "MoveTag") rc)

  module _ (base_dir : CString) (print_int : ℤ → CString) where
    -- The files that are removed, and the answer.
    unfoldable pub delete_rows :
        (document_id : CString) → Option RecordSet → Run (List CString × Option CString)
    unfolding bytes
    delete_rows document_id none = return ([], none)
    delete_rows document_id (some r) = do
      pages ← lift (read_data r (bytes "pages"))
      code ← remove_doc_tags s document_id
      code' ← remove_doc_links s document_id
      code'' ← remove_doc s document_id
      return (
        page_files base_dir print_int document_id 1 (page_count (atoi pages)),
        some (status_ok (bytes "DeleteDoc")),
      )

    unfoldable pub do_delete : (document_id : CString) → Run (List CString × Option CString)
    do_delete document_id = do
      found ← run_query s select_pages (some (vars_of (int (atoi document_id) ∷ [])))
      delete_rows document_id found
