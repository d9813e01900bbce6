-- ===== src/PageRender/DocFilter/Results.antt =====
-- src/pageRender.c: `docFilter` from its query on.
use opendias.Base.{suc, Bool, true, false, Option, none, some, [], ◌++◌, length}
use opendias.Base.CString.{CString, bytes, str_eq}
use opendias.Base.Int.{ℤ, pos}
use opendias.Database.{Sqlite, RecordSet, each_row, each_last}
use opendias.Database.Run.{Run, return, ◌>>=◌, lift, run_query}
use opendias.Database.Binding.{vars_of}
use opendias.PageRender.Services.{Services, tagged, response}
use opendias.PageRender.Entries.{doc_entry, count_entry}
use opendias.PageRender.DocFilter.{filter_query}

-- `page_ret`
unfoldable pub page_text : (full : Bool) → (page range : Option CString) → CString
unfolding bytes
page_text true (some page) (some range) = tagged (bytes "page") page
page_text full page range = []

module _ (s : Sqlite) (v : Services) (print_int : ℤ → CString) where
  unfoldable pub filter_page : (count : ℤ) (page rows : CString) → CString
  unfolding bytes
  filter_page count page rows = response (
      tagged (bytes "DocFilter")
        (tagged (bytes "count") (print_int count) ++ (page ++ tagged (bytes "Results") rows)))

  -- The number of rows and their texts, or the count that the last row gives.
  unfoldable pub filter_rows : (full : Bool) (lang : CString) → Option RecordSet → Run (ℤ × CString)
  filter_rows full lang none = return (pos 0, [])
  filter_rows true lang (some r) = do
    rows ← lift (each_row (doc_entry v lang) [] r)
    return (pos (suc (length r.rest)), rows)
  filter_rows false lang (some r) = do count ← lift (each_last count_entry r); return (count, [])

  unfoldable pub doc_filter :
      (subaction : CString)
      (text_search is_action_required start_date end_date tags page range sortfield
        sortorder : Option CString)
      (lang : CString)
      → Run CString
  unfolding bytes
  doc_filter subaction text_search is_action_required start_date end_date tags page range sortfield
        sortorder lang =
      do
        let full = str_eq subaction (bytes "fullList")
        c ← lift (
            filter_query print_int full text_search is_action_required start_date end_date tags page
              range sortfield sortorder)
        found ← run_query s c.sql (some (vars_of c.values))
        (count, rows) ← filter_rows full lang found
        return (filter_page count (page_text full page range) rows)
