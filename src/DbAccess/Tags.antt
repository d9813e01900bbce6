-- ===== src/DbAccess/Tags.antt =====
-- src/dbaccess.c: the tags of documents. `last_insert` of src/db.c is a function of the statements.
use opendias.Base.{ℕ, Option, none, some, [], ◌∷◌}
use opendias.Base.CString.{CString, bytes}
use opendias.Base.Int.{ℤ, pos, atoi}
use opendias.DbAccess.Documents.{inserted}
use opendias.Database.{text, int, History, Sqlite, RecordSet, read_data}
use opendias.Database.Run.{Run, return, ◌>>=◌, lift, run_query, run_update}
use opendias.Database.Binding.{vars_of}

abbrev pub add_tag_sql : CString
add_tag_sql = bytes "INSERT INTO doc_tags (docid, tagid) VALUES (?, ?) "

abbrev pub remove_tag_sql : CString
remove_tag_sql = bytes "DELETE FROM doc_tags WHERE docid = ? AND tagid = ? "

abbrev pub select_tag : CString
select_tag = bytes "SELECT tagid FROM tags WHERE tagname = ?"

abbrev pub insert_tag : CString
insert_tag = bytes "INSERT INTO tags (tagname) VALUES (?)"

abbrev pub count_tag : CString
count_tag = bytes "SELECT COUNT(tagid) ct FROM doc_tags WHERE tagid = ?"

abbrev pub delete_tag_sql : CString
delete_tag_sql = bytes "DELETE FROM tags WHERE tagid = ?"

module _ (s : Sqlite) (last_insert : History → ℤ) where
  unfoldable pub tag_id_of : (tagname : CString) → Option RecordSet → Run CString
  unfolding bytes
  tag_id_of tagname (some r) = lift (read_data r (bytes "tagid"))
  tag_id_of tagname none = do
    code ← run_update s insert_tag (some (vars_of (text tagname ∷ [])))
    inserted last_insert

  unfoldable pub get_tag_id : (tagname : CString) → Run CString
  get_tag_id tagname = do
    found ← run_query s select_tag (some (vars_of (text tagname ∷ [])))
    tag_id_of tagname found

module _ (s : Sqlite) where
  unfoldable pub add_tag_to_doc : (docid tagid : CString) → Run ℕ
  add_tag_to_doc docid tagid =
      run_update s add_tag_sql (some (vars_of (text docid ∷ text tagid ∷ [])))

  unfoldable pub remove_tag_from_doc : (docid tagid : CString) → Run ℕ
  remove_tag_from_doc docid tagid =
      run_update s remove_tag_sql (some (vars_of (text docid ∷ text tagid ∷ [])))

  unfoldable pub counted : Option RecordSet → Run ℤ
  unfolding bytes
  counted none = return (pos 0)
  counted (some r) = do ct ← lift (read_data r (bytes "ct")); return (atoi ct)

  unfoldable pub count_docs_with_tag : (tagid : CString) → Run ℤ
  count_docs_with_tag tagid = do
    found ← run_query s count_tag (some (vars_of (text tagid ∷ [])))
    counted found

  unfoldable pub delete_tag : (tagid : CString) → Run ℕ
  delete_tag tagid = run_update s delete_tag_sql (some (vars_of (int (atoi tagid) ∷ [])))
