-- ===== src/DocEditor/Detail.antt =====
-- src/doc_editor.c: `getDocDetail`.
use opendias.Utils.{replace}
use opendias.Utils.Replace.{before, replaced, replace-replaced}
use opendias.Base.{
  ◌≡◌, refl, ap, ◌∙◌, length, arith, ==_iff, Option, none, some, List, [], ◌∷◌, if◌then◌else◌, ◌==◌,
}
use opendias.Base.Exec.{Exec, ok, fault}
use opendias.Base.CString.{CString, bytes}
use opendias.Base.Int.{atoi}
use opendias.Database.{Value, int, Sqlite, RecordSet, each_row}
use opendias.Database.Run.{Run, return, ◌>>=◌, lift, run_query}
use opendias.Database.Binding.{vars_of}
use opendias.DocEditor.{select_document}
use opendias.DocEditor.Parts.{tag_part, link_part, detail_page}
use opendias.PageRender.Services.{Services}

abbrev pub select_tags : CString
select_tags =
    bytes
      "SELECT tagname     FROM tags JOIN     (SELECT *     FROM doc_tags     WHERE docid = ? ) dt     ON tags.tagid = dt.tagid     ORDER BY tagname"

abbrev pub select_links : CString
select_links =
    bytes
      "SELECT l.linkeddocid, d.title     FROM doc_links l JOIN docs d     ON l.linkeddocid = d.docid     WHERE l.docid = ?     ORDER BY d.title"

abbrev pub select_all : CString
select_all = bytes "SELECT * FROM docs WHERE docid = ?"

-- `replace(documentId, "#", "")` ends the string at the first "#".
unfoldable pub cut_hash : CString → CString
cut_hash [] = []
cut_hash (c ∷ cs) = if c == b'#' then [] else c ∷ cut_hash cs

cut_hash-before : (s : CString) → before b'#' s ≡ cut_hash s
unfolding before cut_hash
cut_hash-before [] = refl
cut_hash-before (c ∷ s) = ground (arith, cut_hash-before s, ==_iff c b'#', ==_iff b'#' c)

-- The loop of `replace` ends with what `cut_hash` gives.
pub replace-cut_hash : (s : CString) → replace (length s) s (b'#' ∷ []) 0 ≡ some (cut_hash s)
unfolding replaced
replace-cut_hash s =
    replace-replaced b'#' 0 s (omega arith) (omega arith) ∙ ap (λ t. some t) (cut_hash-before s)

unfoldable pub rows_or_none : (RecordSet → Exec CString) → Option RecordSet → Exec CString
rows_or_none entry none = ok []
rows_or_none entry (some r) = each_row entry [] r

-- The record set of the document; NULL is read.
unfoldable pub detail_of :
    Services → (lang document_id tags docs : CString) → Option RecordSet → Exec CString
detail_of v lang document_id tags docs none = fault
detail_of v lang document_id tags docs (some r) = detail_page v lang document_id tags docs r

module _ (s : Sqlite) (v : Services) where
  unfoldable pub known_detail :
      (document_id lang : CString) → Option RecordSet → Run (Option CString)
  known_detail document_id lang none = return none
  known_detail document_id lang (some r) = do
    let doc_id : List Value = int (atoi document_id) ∷ []
    tag_rows ← run_query s select_tags (some (vars_of doc_id))
    tags ← lift (rows_or_none tag_part tag_rows)
    link_rows ← run_query s select_links (some (vars_of doc_id))
    docs ← lift (rows_or_none (link_part v lang) link_rows)
    found ← run_query s select_all (some (vars_of doc_id))
    page ← lift (detail_of v lang (cut_hash document_id) tags docs found)
    return (some page)

  unfoldable pub get_doc_detail : (document_id lang : CString) → Run (Option CString)
  get_doc_detail document_id lang = do
    found ← run_query s select_document (some (vars_of (int (atoi document_id) ∷ [])))
    known_detail document_id lang found
