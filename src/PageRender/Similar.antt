-- ===== src/PageRender/Similar.antt =====
-- src/pageRender.c: `checkForSimilar`. `distance` is `getDistance` of the hash library, on the numbers
-- that `strtoull` reads from two texts; `print_int` is "%d" of `printf`.
pub mod Matches
pub mod Near
mod Tests
use opendias.Base.{
  ℕ, zero, suc, ◌+◌, Bool, true, false, Option, none, some, List, [], ◌∷◌, ◌++◌, if◌then◌else◌,
  ◌==◌,
}
use opendias.Base.Exec.{Exec, ok, fault}
use opendias.Base.CString.{CString, bytes}
use opendias.Base.Int.{ℤ, pos, leb_ℤ, atoi}
use opendias.LinkedList.{Element, Sll, sll_init}
use opendias.LinkedList.Sort.{sll_sort}
use opendias.Database.{Value, text, Sqlite, RecordSet, read_data}
use opendias.Database.Run.{Run, return, ◌>>=◌, lift, run_query}
use opendias.Database.Binding.{vars_of}
use opendias.DocEditor.Detail.{rows_or_none}
use opendias.DocEditor.Parts.{tag_part}
use opendias.PageRender.Services.{tagged, response}
use opendias.PageRender.Similar.Matches.{match_rows}

abbrev pub select_hash : CString
select_hash = bytes "SELECT image_phash FROM docs WHERE docid = ?"

abbrev pub select_hashes : CString
select_hashes = bytes "SELECT docid, image_phash FROM docs WHERE image_phash != 0 and docid != ?"

abbrev pub select_doc_tags : CString
select_doc_tags =
    bytes
      "SELECT tagname       FROM tags JOIN       (SELECT *       FROM doc_tags       WHERE docid = ? ) dt       ON tags.tagid = dt.tagid       ORDER BY tagname"

abbrev pub select_title : CString
select_title = bytes "SELECT title FROM docs WHERE docid = ?"

unfoldable pub similar_docs : (docs : CString) → CString
unfolding bytes
similar_docs docs = response (tagged (bytes "CheckForSimilar") (tagged (bytes "Docs") docs))

-- A key, the data or a record set that is NULL is read.
abbrev pub present : {A : Type 0} → Option A → Exec A
present none = fault
present (some a) = ok a

unfoldable pub doc_text : (docid distance title tags : CString) → CString
unfolding bytes
doc_text docid distance title tags = tagged (bytes "Doc") (
    tagged (bytes "docid") docid
    ++ (tagged (bytes "distance") distance
        ++ (tagged (bytes "title") title ++ tagged (bytes "Tags") tags)))

module _ (s : Sqlite) where
  unfoldable pub similar_doc : Element CString → Run CString
  unfolding bytes
  similar_doc e = do
    docid ← lift (present e.key)
    distance ← lift (present e.value)
    tag_rows ← run_query s select_doc_tags (some (vars_of (text docid ∷ [])))
    tags ← lift (rows_or_none tag_part tag_rows)
    found ← run_query s select_title (some (vars_of (text docid ∷ [])))
    r ← lift (present found)
    title ← lift (read_data r (bytes "title"))
    return (doc_text docid distance title tags)

  -- `for( x = 0 ; x < 3 ; x++ )`, which ends with the list.
  unfoldable pub closest : (count : ℕ) → Sll CString → Run CString
  closest zero es = return []
  closest (suc count) [] = return []
  closest (suc count) (e ∷ es) = do
    doc ← similar_doc e
    docs ← closest count es
    return (doc ++ docs)

  module _ (distance : CString → CString → ℤ) (print_int : ℤ → CString) where
    unfoldable pub similar_matches : Sll CString × ℕ → Run (Option CString)
    similar_matches (matching, match_count) =
        if match_count == 0 then return (some (similar_docs [])) else (do
          sorted ← lift (sll_sort atoi matching)
          docs ← closest 3 sorted
          return (some (similar_docs docs)))

    unfoldable pub similar_to : (ref_hash : CString) → Option RecordSet → Run (Option CString)
    similar_to ref_hash none = return (some (similar_docs []))
    similar_to ref_hash (some r) = do
      found ← lift (match_rows (distance ref_hash) print_int (sll_init, 0) r.row r.rest)
      similar_matches found

    unfoldable pub with_hash : (docid : CString) → Option RecordSet → Run (Option CString)
    unfolding bytes
    with_hash docid none = return none
    with_hash docid (some r) = do
      ref_hash ← lift (read_data r (bytes "image_phash"))
      found ← run_query s select_hashes (some (vars_of (text docid ∷ [])))
      similar_to ref_hash found

    unfoldable pub check_for_similar : (docid : CString) → Run (Option CString)
    check_for_similar docid = do
      found ← run_query s select_hash (some (vars_of (text docid ∷ [])))
      with_hash docid found
