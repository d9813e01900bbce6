-- ===== src/PageRender/DocFilter/Tests.antt =====
-- Runs of `docFilter` on small inputs.
use opendias.Base.{◌≡◌, refl, ◌↔◌, true, none, some, [], ◌∷◌, ◌++◌, length}
use opendias.Base.Exec.{Exec, ok}
use opendias.Base.CString.{CString, bytes, count}
use opendias.Base.Int.{ℤ, pos}
use opendias.Database.{text, int}
use opendias.PageRender.DocFilter.{
  Clause, given, select_from, text_where, action_where, date_where, tag_tokens, quoted, closed,
  tag_list, tag_join, and_clauses, is_present, where_sql, values_of, order_by, limit_sql,
  filter_query,
}
use opendias.PageRender.DocFilter.Binding.{placeholders, text_or_none, filter_query-IsBound}
use opendias.PageRender.DocFilter.FirstValue.{
  first_value, SearchesTagsOnly, filter_query-first_value_iff,
}

tag_tokens-two : tag_tokens none (bytes "bill,car,") ≡ bytes "bill" ∷ bytes "car" ∷ []
unfolding tag_tokens bytes
tag_tokens-two = refl

abbrev as_empty : ℤ → CString
as_empty z = []

-- A search for a text in the documents that have the tag "car".
abbrev car_query : Exec Clause
car_query =
    filter_query as_empty true (some (bytes "oil")) none none none (some (bytes "car")) none none
      none none

abbrev car_clause : Clause
car_clause = record {
  sql =
      bytes
        "SELECT DISTINCT docs.* FROM docs  JOIN (SELECT docid, COUNT(docid) c FROM doc_tags                     JOIN tags ON tags.tagid = doc_tags.tagid                     WHERE tags.tagname IN ('car') GROUP BY docid HAVING c = ? ) t                     ON docs.docid = t.docid WHERE (title LIKE ? OR ocrText LIKE ?) ";
  values = text (bytes "%oil%") ∷ text (bytes "%oil%") ∷ int (pos 1) ∷ [];
}

car_query-clause : car_query ≡ ok car_clause
unfolding filter_query given text_where date_where action_where tag_join tag_tokens tag_list quoted
    closed and_clauses is_present where_sql values_of order_by limit_sql select_from bytes
car_query-clause = refl

filter_query-IsBound_example : placeholders car_clause.sql ≡ length car_clause.values
unfolding text_or_none given bytes count
filter_query-IsBound_example =
    filter_query-IsBound as_empty (λ z. refl) true (some (bytes "oil")) none none none
      (some (bytes "car")) none none none none car_clause refl car_query-clause

filter_query-first_value_iff_example :
    ((rest : CString) × (car_clause.sql
        ≡ select_from true ++ ((tag_join (some (bytes "car"))).sql ++ rest)))
    × ((first_value car_clause.values ≡ some (int (pos (length (tag_tokens none (bytes "car"))))))
        ↔ SearchesTagsOnly (some (bytes "oil")) none none)
unfolding given bytes
filter_query-first_value_iff_example =
    filter_query-first_value_iff as_empty true (some (bytes "oil")) none none none
      (some (bytes "car")) none none none none (bytes "car") car_clause refl car_query-clause
