-- ===== src/PageRender/DocFilter/FirstValue.antt =====
-- What is bound to the first placeholder of the statement of `docFilter`.
use opendias.Base.{
  ◌≡◌, refl, sym, ◌↔◌, ◌⊎◌, ◌≢◌, Bool, Option, none, some, List, [], ◌∷◌, ◌++◌, length, arith, inl,
  inr,
}
use mathlib.Core.Option.{some-injective}
use opendias.Base.Exec.{ok, ok-injective, >>=-eq-ok}
use opendias.Base.CString.{CString}
use opendias.Base.Int.{ℤ, pos}
use opendias.Database.{Value, text, int}
use opendias.PageRender.DocFilter.{
  Clause, given, select_from, text_where, action_where, munged_date, date_where, tag_tokens,
  tag_join, where_sql, values_of, order_by, limit_sql, filter_query,
}

abbrev pub first_value : List Value → Option Value
first_value [] = none
first_value (v ∷ vs) = some v

int-text : (z : ℤ) (s : CString) → int z ≢ text s
int-text z s e = cc

-- No text and no pair of dates is searched for.
abbrev pub SearchesTagsOnly : (text_search start_date end_date : Option CString) → Type 0
SearchesTagsOnly text_search start_date end_date =
    (given text_search ≡ none) × ((given start_date ≡ none) ⊎ (given end_date ≡ none))

dates_first :
    (start_date end_date : Option CString) (dates : Option Clause) (z : ℤ)
    → date_where start_date end_date ≡ ok dates
    → (first_value (values_of dates ++ int z ∷ []) ≡ some (int z))
      ↔ ((start_date ≡ none) ⊎ (end_date ≡ none))
unfolding date_where values_of
dates_first none e dates z p = rw (← ok-injective p) (λ _. inl refl, λ _. refl)
dates_first (some s) none dates z p = rw (← ok-injective p) (λ _. inr refl, λ _. refl)
dates_first (some s) (some e) dates z p =
    let (a, _, q) = >>=-eq-ok (munged_date s) _ p in
    let (b, _, r) = >>=-eq-ok (munged_date e) _ q in
    rw (← ok-injective r) (
      λ h. absurd (int-text z a (sym (some-injective _ _ h))),
      λ x. elim x [ inl n ↦ absurd (ground (arith, n)) | inr n ↦ absurd (ground (arith, n)) ],
    )

text_first :
    (search start_date end_date : Option CString) (dates : Option Clause) (z : ℤ)
    → date_where start_date end_date ≡ ok dates
    → (first_value (values_of (text_where search) ++ (values_of dates ++ int z ∷ []))
        ≡ some (int z))
      ↔ ((search ≡ none) × ((start_date ≡ none) ⊎ (end_date ≡ none)))
unfolding text_where values_of
text_first none start_date end_date dates z p =
    let (to, back) = dates_first start_date end_date dates z p in
    (λ h. (refl, to h), λ (_, d). back d)
text_first (some s) start_date end_date dates z p =
    (λ h. absurd (int-text z _ (sym (some-injective _ _ h))), λ (n, _). absurd (ground (arith, n)))

-- Where documents are searched by tags, the join is the first part of the statement that has a
-- placeholder, and the value that is bound to it is the number of tags exactly if neither a text nor
-- a pair of dates is searched for.
pub filter_query-first_value_iff :
    (print_int : ℤ → CString) (full : Bool)
    (text_search is_action_required start_date end_date tags page range sortfield sortorder : Option
      CString)
    (t : CString) (c : Clause)
    → given tags ≡ some t
    → filter_query print_int full text_search is_action_required start_date end_date tags page range
        sortfield sortorder
      ≡ ok c
    → ((rest : CString) × (c.sql ≡ select_from full ++ ((tag_join (some t)).sql ++ rest)))
      × ((first_value c.values ≡ some (int (pos (length (tag_tokens none t)))))
          ↔ SearchesTagsOnly text_search start_date end_date)
unfolding filter_query tag_join
filter_query-first_value_iff print_int full text_search is_action_required start_date end_date tags
      page range sortfield sortorder t c g e =
    let (dates, d, q) = >>=-eq-ok (date_where (given start_date) (given end_date)) _ e in
    let p = ok-injective q in
    let clauses : List (Option Clause) =
      text_where (given text_search) ∷ dates ∷ action_where is_action_required ∷ [] in
    (
      (
        where_sql clauses ++ (order_by sortfield sortorder ++ limit_sql print_int full page range),
        rw (← p, g) refl,
      ),
      rw (← p, g) (text_first (given text_search) (given start_date) (given end_date) dates _ d),
    )
