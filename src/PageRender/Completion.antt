-- ===== src/PageRender/Completion.antt =====
-- src/pageRender.c: `titleAutoComplete` and `tagsAutoComplete`.
use opendias.Base.{Option, none, some, List, [], ◌∷◌, ◌++◌}
use opendias.Base.Exec.{Exec}
use opendias.Base.CString.{CString, bytes}
use opendias.Database.{Value, text, Sqlite, RecordSet, each_row}
use opendias.Database.Run.{Run, return, ◌>>=◌, lift, run_query}
use opendias.Database.Binding.{vars_of}
use opendias.PageRender.Entries.{title_entry, tag_entry}

abbrev pub titles_sql : CString
titles_sql =
    bytes "SELECT DISTINCT docs.docid, docs.title FROM docs WHERE title LIKE ? ORDER BY title "

abbrev pub unlinked_titles_sql : CString
unlinked_titles_sql =
    bytes
      "SELECT DISTINCT docs.docid, docs.title FROM docs LEFT JOIN (SELECT * FROM doc_links                         WHERE linkeddocid = ?) dl                      ON docs.docid = dl.docid WHERE title LIKE ? AND dl.docid IS NULL                      AND docs.docid != ? ORDER BY title "

abbrev pub tags_sql : CString
tags_sql =
    bytes
      "SELECT tagname     FROM tags LEFT JOIN       (SELECT docid, tagid       FROM doc_tags       WHERE docid = ?) dt     ON tags.tagid = dt.tagid     WHERE dt.docid IS NULL     AND tagname like ?     ORDER BY tagname"

-- "%s%%"
unfoldable pub prefix_pattern : CString → CString
unfolding bytes
prefix_pattern starts_with = starts_with ++ bytes "%"

-- `{"results":[...]}`
unfoldable pub results : (RecordSet → Exec CString) → Option RecordSet → Run CString
unfolding bytes
results entry none = return (bytes "{\"results\":[" ++ bytes "]}")
results entry (some r) = do
  entries ← lift (each_row entry (bytes ",") r)
  return (bytes "{\"results\":[" ++ (entries ++ bytes "]}"))

unfoldable pub titles_query :
    (starts_with : CString) (not_linked_to : Option CString) → CString × List Value
titles_query starts_with none = (titles_sql, text (prefix_pattern starts_with) ∷ [])
titles_query starts_with (some docid) =
    (unlinked_titles_sql, text docid ∷ text (prefix_pattern starts_with) ∷ text docid ∷ [])

module _ (s : Sqlite) where
  unfoldable pub title_auto_complete :
      (starts_with : CString) (not_linked_to : Option CString) → Run CString
  title_auto_complete starts_with not_linked_to = do
    let (sql, values) = titles_query starts_with not_linked_to
    found ← run_query s sql (some (vars_of values))
    results title_entry found

  unfoldable pub tags_auto_complete : (starts_with docid : CString) → Run CString
  tags_auto_complete starts_with docid = do
    found ←
        run_query s tags_sql (some (vars_of (text docid ∷ text (prefix_pattern starts_with) ∷ [])))
    results tag_entry found
