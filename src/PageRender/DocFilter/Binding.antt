-- ===== src/PageRender/DocFilter/Binding.antt =====
-- The placeholders of the statement of `docFilter`, and the values that are bound to them.
use opendias.Base.{
  ℕ, ◌+◌, ◌≤◌, ◌≡◌, refl, sym, ap, Bool, true, false, Option, none, some, List, [], ◌∷◌, ◌++◌,
  if◌then◌else◌, length, arith, Bool-cases, inl, inr, ◌==◌, length-append, All,
}
use opendias.Base.Exec.{ok, ok-injective, >>=-eq-ok}
use opendias.Base.CString.{CString, bytes, count, count-append, str_eq}
use opendias.Base.Int.{ℤ, pos, negsuc, atoi}
use opendias.PageRender.DocFilter.{
  Clause, given, select_from, text_where, action_where, munged_date, date_where, tag_tokens, quoted,
  closed, tag_list, tag_join, and_clauses, is_present, where_sql, values_of, direction_of, sort_by,
  order_by, limit_sql, offset_of, filter_query,
}

-- The placeholders of a text that has no quoted question mark.
abbrev pub placeholders : CString → ℕ
placeholders s = count b'?' s

-- One value for each placeholder.
abbrev IsBound : Clause → Type 0
IsBound c = placeholders c.sql ≡ length c.values

abbrev IsBoundIf : Option Clause → Type 0
IsBoundIf none = Unit
IsBoundIf (some c) = IsBound c

text_where-IsBound : (search : Option CString) → IsBoundIf (text_where search)
unfolding text_where bytes count
text_where-IsBound none = tt
text_where-IsBound (some search) = refl

action_where-IsBound : (required : Option CString) → IsBoundIf (action_where required)
unfolding action_where bytes count
action_where-IsBound none = tt
action_where-IsBound (some required) = elim (Bool-cases (str_eq required (bytes "true"))) [
  | inl y ↦ rw y refl
  | inr n ↦ rw n tt
]

date_where-IsBound :
    (start_date end_date : Option CString) (dates : Option Clause)
    → date_where start_date end_date ≡ ok dates
    → IsBoundIf dates
unfolding date_where bytes count
date_where-IsBound none e dates p = rw (← ok-injective p) tt
date_where-IsBound (some s) none dates p = rw (← ok-injective p) tt
date_where-IsBound (some s) (some e) dates p =
    let (a, _, q) = >>=-eq-ok (munged_date s) _ p in
    let (b, _, r) = >>=-eq-ok (munged_date e) _ q in rw (← ok-injective r) refl

unfoldable pub text_or_none : Option CString → CString
text_or_none none = []
text_or_none (some token) = token

branch-placeholders :
    (b : Bool) (ss ts : List CString)
    → All (λ t. placeholders t ≡ 0) ss
    → All (λ t. placeholders t ≡ 0) ts
    → All (λ t. placeholders t ≡ 0) (elim b [ true ↦ ss | false ↦ ts ])
branch-placeholders true ss ts p q = p
branch-placeholders false ss ts p q = q

if-placeholders :
    (b : Bool) (s t : CString)
    → placeholders s ≡ 0
    → placeholders t ≡ 0
    → placeholders (if b then s else t) ≡ 0
if-placeholders true s t p q = p
if-placeholders false s t p q = q

-- The tags as they stand in the statement bring no placeholder that they do not have.
tag_tokens-placeholders :
    (token : Option CString) (tags : CString)
    → placeholders (text_or_none token) ≡ 0
    → placeholders tags ≡ 0
    → All (λ t. placeholders t ≡ 0) (tag_tokens token tags)
unfolding tag_tokens count text_or_none
tag_tokens-placeholders none [] p q = tt
tag_tokens-placeholders (some token) [] p q = (p, tt)
tag_tokens-placeholders none (c ∷ cs) p q =
    branch-placeholders (c == b',') ([] ∷ tag_tokens none cs) (tag_tokens (some (c ∷ [])) cs)
      (refl, tag_tokens-placeholders none cs refl (omega arith))
      (tag_tokens-placeholders (some (c ∷ [])) cs (omega arith) (omega arith))
tag_tokens-placeholders (some token) (c ∷ cs) p q =
    branch-placeholders (c == b',') (token ∷ tag_tokens none cs)
      (tag_tokens (some (token ++ c ∷ [])) cs)
      (p, tag_tokens-placeholders none cs refl (omega arith))
      (tag_tokens-placeholders (some (token ++ c ∷ [])) cs
        (omega (arith, count-append b'?' token (c ∷ []))) (omega arith))

closed-placeholders : (s : CString) → placeholders (closed s) ≤ placeholders s
unfolding closed count
closed-placeholders [] = omega arith
closed-placeholders (c ∷ []) = omega arith
closed-placeholders (c ∷ d ∷ cs) = omega (arith, closed-placeholders (d ∷ cs))

quoted-placeholders :
    (tokens : List CString)
    → All (λ t. placeholders t ≡ 0) tokens
    → placeholders (quoted tokens) ≡ 0
unfolding quoted bytes count
quoted-placeholders [] all = refl
quoted-placeholders (t ∷ tokens) (p, all) =
    omega (arith, count-append b'?' t (bytes "'," ++ quoted tokens), quoted-placeholders tokens all)

tag_join-IsBound :
    (tags : Option CString) → placeholders (text_or_none tags) ≡ 0 → IsBound (tag_join tags)
unfolding tag_join tag_list bytes count text_or_none
tag_join-IsBound none p = refl
tag_join-IsBound (some tags) p =
    let tokens = tag_tokens none tags in
    omega (
      arith,
      count-append b'?' (tag_list tokens)
          (bytes " GROUP BY docid HAVING c = ? ) t                     ON docs.docid = t.docid "),
      closed-placeholders (bytes "tags.tagname IN (" ++ quoted tokens),
      quoted-placeholders tokens (tag_tokens-placeholders none tags refl p),
    )

bound_total : List (Option Clause) → ℕ
bound_total [] = 0
bound_total (c ∷ clauses) = length (values_of c) + bound_total clauses

and_clauses-IsBound :
    (prefix : Bool) (clauses : List (Option Clause))
    → All IsBoundIf clauses
    → placeholders (and_clauses prefix clauses) ≡ bound_total clauses
unfolding and_clauses values_of bytes count bound_total
and_clauses-IsBound prefix [] all = refl
and_clauses-IsBound prefix (none ∷ clauses) (b, all) =
    omega (arith, and_clauses-IsBound prefix clauses all)
and_clauses-IsBound true (some c ∷ clauses) (b, all) = omega (
  arith,
  b,
  count-append b'?' c.sql (and_clauses true clauses),
  and_clauses-IsBound true clauses all,
)
and_clauses-IsBound false (some c ∷ clauses) (b, all) = omega (
  arith,
  b,
  count-append b'?' c.sql (and_clauses true clauses),
  and_clauses-IsBound true clauses all,
)

absent-bound_total :
    (clauses : List (Option Clause)) → is_present clauses ≡ false → bound_total clauses ≡ 0
unfolding is_present bound_total values_of
absent-bound_total [] h = refl
absent-bound_total (none ∷ clauses) h = omega (arith, absent-bound_total clauses h)
absent-bound_total (some c ∷ clauses) h = absurd (ground (arith, h))

where_sql-IsBound :
    (clauses : List (Option Clause))
    → All IsBoundIf clauses
    → placeholders (where_sql clauses) ≡ bound_total clauses
unfolding where_sql bytes count
where_sql-IsBound clauses all = elim (Bool-cases (is_present clauses)) [
  | inl y ↦ rw y (omega (arith, and_clauses-IsBound false clauses all))
  | inr n ↦ rw n (sym (absent-bound_total clauses n))
]

action_where-values : (required : Option CString) → values_of (action_where required) ≡ []
unfolding action_where values_of
action_where-values none = refl
action_where-values (some required) = elim (Bool-cases (str_eq required (bytes "true"))) [
  | inl y ↦ rw y refl
  | inr n ↦ rw n refl
]

direction_of-placeholders : (sortorder : Option CString) → placeholders (direction_of sortorder) ≡ 0
unfolding direction_of bytes count
direction_of-placeholders none = refl
direction_of-placeholders (some o) = elim (Bool-cases (str_eq o (bytes "1"))) [
  | inl y ↦ rw y refl
  | inr n ↦ rw n refl
]

sort_by-placeholders :
    (z : ℤ) (direction : CString)
    → placeholders direction ≡ 0
    → placeholders (sort_by z direction) ≡ 0
unfolding sort_by bytes count
sort_by-placeholders (negsuc n) d p = refl
sort_by-placeholders (pos n) d p =
    let one = count-append b'?' d (bytes " ") in
    let two = count-append b'?' d (bytes ", docdated " ++ (d ++ bytes " ")) in
    let three =
      count-append b'?' d
        (bytes ", docdatem " ++ (d ++ (bytes ", docdated " ++ (d ++ bytes " ")))) in
    if-placeholders (n == 0) _ _ (omega (arith, one)) (
      if-placeholders (n == 1) _ _ (omega (arith, one)) (
        if-placeholders (n == 2) _ _ (omega (arith, one))
          (if-placeholders (n == 3) _ _ (omega (arith, one, two, three)) refl)))

order_by-placeholders :
    (sortfield sortorder : Option CString) → placeholders (order_by sortfield sortorder) ≡ 0
unfolding order_by count
order_by-placeholders none sortorder = refl
order_by-placeholders (some f) sortorder =
    sort_by-placeholders (atoi f) (direction_of sortorder) (direction_of-placeholders sortorder)

select_from-placeholders : (full : Bool) → placeholders (select_from full) ≡ 0
unfolding select_from bytes count
select_from-placeholders true = refl
select_from-placeholders false = refl

-- The parts of the statement together.
assembled :
    (full : Bool) (join : Clause) (clauses : List (Option Clause)) (sorted limit : CString)
    (texts dates action : Option Clause)
    → IsBound join
    → placeholders (where_sql clauses) ≡ bound_total (texts ∷ dates ∷ action ∷ [])
    → length (values_of action) ≡ 0
    → placeholders sorted ≡ 0
    → placeholders limit ≡ 0
    → placeholders (select_from full ++ (join.sql ++ (where_sql clauses ++ (sorted ++ limit))))
      ≡ length (values_of texts ++ (values_of dates ++ join.values))
unfolding bound_total
assembled full join clauses sorted limit texts dates action j w a o l = omega (
  arith,
  select_from-placeholders full,
  count-append b'?' (select_from full) (join.sql ++ (where_sql clauses ++ (sorted ++ limit))),
  count-append b'?' join.sql (where_sql clauses ++ (sorted ++ limit)),
  count-append b'?' (where_sql clauses) (sorted ++ limit),
  count-append b'?' sorted limit,
  length-append (values_of texts) (values_of dates ++ join.values),
  length-append (values_of dates) join.values,
)

module _ (print_int : ℤ → CString) (unasked : (z : ℤ) → placeholders (print_int z) ≡ 0) where
  limit_sql-placeholders :
      (full : Bool) (page range : Option CString)
      → placeholders (limit_sql print_int full page range) ≡ 0
  unfolding limit_sql bytes count
  limit_sql-placeholders false page range = refl
  limit_sql-placeholders true none range = refl
  limit_sql-placeholders true (some page) none = refl
  limit_sql-placeholders true (some page) (some range) = omega (
    arith,
    unasked (offset_of (atoi page) (atoi range)),
    unasked (atoi range),
    count-append b'?' (print_int (offset_of (atoi page) (atoi range)))
        (bytes ", " ++ (print_int (atoi range) ++ bytes " ")),
    count-append b'?' (print_int (atoi range)) (bytes " "),
  )

  -- Where the tags have no question mark, and "%d" prints none, the statement of `docFilter` has as many
  -- placeholders as values are bound to it.
  pub filter_query-IsBound :
      (full : Bool)
      (text_search is_action_required start_date end_date tags page range sortfield
        sortorder : Option CString)
      (c : Clause)
      → placeholders (text_or_none (given tags)) ≡ 0
      → filter_query print_int full text_search is_action_required start_date end_date tags page
          range sortfield sortorder
        ≡ ok c
      → IsBound c
  unfolding filter_query
  filter_query-IsBound full text_search is_action_required start_date end_date tags page range
        sortfield sortorder c p e =
      let (dates, d, q) = >>=-eq-ok (date_where (given start_date) (given end_date)) _ e in
      let texts = text_where (given text_search) in
      let action = action_where is_action_required in
      let join = tag_join (given tags) in
      let clauses : List (Option Clause) = texts ∷ dates ∷ action ∷ [] in
      let sorted = order_by sortfield sortorder in
      let limit = limit_sql print_int full page range in
      rw (← ok-injective q) (
        assembled full join clauses sorted limit texts dates action
          (tag_join-IsBound (given tags) p)
          (where_sql-IsBound clauses (
            text_where-IsBound (given text_search),
            (
              date_where-IsBound (given start_date) (given end_date) dates d,
              (action_where-IsBound is_action_required, tt),
            ),
          ))
          (ap length (action_where-values is_action_required))
          (order_by-placeholders sortfield sortorder) (limit_sql-placeholders full page range))
