-- ===== src/PageRender/DocFilter.antt =====
-- src/pageRender.c: `docFilter`. A NULL argument is `none`; `print_int` is "%d" of `printf`.
pub mod Binding
pub mod Results
mod Tests
pub mod FirstValue
use opendias.Base.{
  ℕ, suc, Bool, true, false, ◌+◌, ◌-◌, ◌*◌, ◌^◌, ◌||◌, not, Option, none, some, List, [], ◌∷◌, ◌++◌,
  if◌then◌else◌, length, is_some, ◌==◌,
}
use opendias.Base.Exec.{Exec, ok, fault, ◌>>=◌}
use opendias.Base.CString.{CString, bytes, str_eq}
use opendias.Base.Int.{ℤ, pos, negsuc, atoi, bits32, to_int32}
use opendias.Database.{Value, text, int}
use opendias.Utils.{replace}

-- A part of the statement, with the values of its placeholders.
pub record Clause : Type 0 where
  pub sql : CString
  pub values : List Value

abbrev pub no_clause : Clause
no_clause = record { sql = []; values = [] }

-- `x!=NULL && strlen(x)`
unfoldable pub given : Option CString → Option CString
given none = none
given (some []) = none
given (some (c ∷ s)) = some (c ∷ s)

unfoldable pub select_from : (full : Bool) → CString
unfolding bytes
select_from full =
    if full
    then bytes "SELECT DISTINCT docs.* FROM docs "
    else bytes "SELECT COUNT(docs.docid) c FROM docs "

unfoldable pub text_where : Option CString → Option Clause
unfolding bytes
text_where none = none
text_where (some search) =
    let like = text (bytes "%" ++ (search ++ bytes "%")) in
    some (record { sql = bytes "(title LIKE ? OR ocrText LIKE ?) "; values = like ∷ like ∷ [] })

unfoldable pub action_where : Option CString → Option Clause
unfolding bytes
action_where none = none
action_where (some required) =
    if str_eq required (bytes "true")
    then some (record { sql = bytes "actionrequired=1 "; values = [] })
    else none

abbrev pub date_sql : CString
date_sql =
    bytes
      "date(docdatey || '-' || substr('00'||docdatem, -2) || '-' || substr('00'||docdated, -2)) BETWEEN date(?) AND date(?) "

-- The dates with "-" for "/"; a loop that does not end within the length counts as a fault.
unfoldable pub munged_date : CString → Exec CString
unfolding bytes
munged_date date = elim (replace (length date) date (bytes "/") b'-') [
  | none ↦ fault
  | some d ↦ ok d
]

unfoldable pub date_where : Option CString → Option CString → Exec (Option Clause)
date_where (some start_date) (some end_date) = do
  munged_start ← munged_date start_date
  munged_end ← munged_date end_date
  ok (some (record { sql = date_sql; values = text munged_start ∷ text munged_end ∷ [] }))
date_where start_date end_date = ok none

-- The tags between the commas; `none` is the start of a tag, where the end of the text ends the loop.
unfoldable pub tag_tokens : Option CString → CString → List CString
tag_tokens none [] = []
tag_tokens (some token) [] = token ∷ []
tag_tokens none (c ∷ cs) = elim (c == b',') [
  | true ↦ [] ∷ tag_tokens none cs
  | false ↦ tag_tokens (some (c ∷ [])) cs
]
tag_tokens (some token) (c ∷ cs) = elim (c == b',') [
  | true ↦ token ∷ tag_tokens none cs
  | false ↦ tag_tokens (some (token ++ c ∷ [])) cs
]

-- "'%s',"
unfoldable pub quoted : List CString → CString
unfolding bytes
quoted [] = []
quoted (token ∷ tokens) = bytes "'" ++ (token ++ (bytes "'," ++ quoted tokens))

-- `tagWhere[strlen(tagWhere)-1] = ')'`
unfoldable pub closed : CString → CString
closed [] = []
closed (c ∷ []) = b')' ∷ []
closed (c ∷ d ∷ cs) = c ∷ closed (d ∷ cs)

unfoldable pub tag_list : List CString → CString
unfolding bytes
tag_list tokens = closed (bytes "tags.tagname IN (" ++ quoted tokens)

unfoldable pub tag_join : Option CString → Clause
unfolding bytes
tag_join none = no_clause
tag_join (some tags) =
    let tokens = tag_tokens none tags in
    record {
      sql =
          bytes
            " JOIN (SELECT docid, COUNT(docid) c FROM doc_tags                     JOIN tags ON tags.tagid = doc_tags.tagid                     WHERE "
          ++ (tag_list tokens
              ++ bytes
                  " GROUP BY docid HAVING c = ? ) t                     ON docs.docid = t.docid ");
      values = int (pos (length tokens)) ∷ [];
    }

-- The conditions that there are, with "AND " between them.
unfoldable pub and_clauses : (prefix_and : Bool) → List (Option Clause) → CString
unfolding bytes
and_clauses prefix_and [] = []
and_clauses prefix_and (none ∷ clauses) = and_clauses prefix_and clauses
and_clauses prefix_and (some c ∷ clauses) =
    (if prefix_and then bytes "AND " else []) ++ (c.sql ++ and_clauses true clauses)

unfoldable pub is_present : List (Option Clause) → Bool
is_present [] = false
is_present (c ∷ clauses) = is_some c || is_present clauses

unfoldable pub where_sql : List (Option Clause) → CString
unfolding bytes
where_sql clauses = if is_present clauses then bytes "WHERE " ++ and_clauses false clauses else []

unfoldable pub values_of : Option Clause → List Value
values_of none = []
values_of (some c) = c.values

unfoldable pub direction_of : Option CString → CString
unfolding bytes
direction_of none = bytes "ASC"
direction_of (some sortorder) = if str_eq sortorder (bytes "1") then bytes "DESC" else bytes "ASC"

unfoldable pub sort_by : ℤ → (direction : CString) → CString
unfolding bytes
sort_by (negsuc n) direction = []
sort_by (pos n) direction =
    if n == 0
    then bytes "ORDER BY docid " ++ (direction ++ bytes " ")
    else if n == 1
    then bytes "ORDER BY title " ++ (direction ++ bytes " ")
    else if n == 2
    then bytes "ORDER BY filetype " ++ (direction ++ bytes " ")
    else if n == 3
    then bytes "ORDER BY docdatey "
      ++ (direction
          ++ (bytes ", docdatem "
              ++ (direction ++ (bytes ", docdated " ++ (direction ++ bytes " ")))))
    else []

unfoldable pub order_by : (sortfield sortorder : Option CString) → CString
order_by none sortorder = []
order_by (some sortfield) sortorder = sort_by (atoi sortfield) (direction_of sortorder)

-- `(page_i - 1) * range_i`, which wraps around.
unfoldable pub offset_of : (page_i range_i : ℤ) → ℤ
unfolding bits32 to_int32
offset_of page_i range_i = to_int32 ((bits32 page_i + (2 ^ 32 - 1)) * bits32 range_i)

module _ (print_int : ℤ → CString) where
  unfoldable pub limit_sql : (full : Bool) → (page range : Option CString) → CString
  unfolding bytes
  limit_sql true (some page) (some range) =
      bytes "LIMIT "
      ++ (print_int (offset_of (atoi page) (atoi range))
          ++ (bytes ", " ++ (print_int (atoi range) ++ bytes " ")))
  limit_sql full page range = []

  -- The statement, and its values in the order in which they are appended to `vars`.
  unfoldable pub filter_query :
      (full : Bool)
      (text_search is_action_required start_date end_date tags page range sortfield
        sortorder : Option CString)
      → Exec Clause
  filter_query full text_search is_action_required start_date end_date tags page range sortfield
        sortorder =
      do
        let texts = text_where (given text_search)
        dates ← date_where (given start_date) (given end_date)
        let join = tag_join (given tags)
        let clauses = texts ∷ dates ∷ action_where is_action_required ∷ []
        ok (record {
          sql =
              select_from full
              ++ (join.sql
                  ++ (where_sql clauses
                      ++ (order_by sortfield sortorder ++ limit_sql full page range)));
          values = values_of texts ++ (values_of dates ++ join.values);
        })
