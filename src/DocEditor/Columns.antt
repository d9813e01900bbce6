-- ===== src/DocEditor/Columns.antt =====
-- The statements of `updateDocDetails`.
use opendias.Base.{
  ℕ, ◌≡◌, refl, sym, false, Option, some, List, [], ◌∷◌, ◌++◌, ◌==◌, Bool-cases, inl, inr, arith,
  Any,
}
use opendias.Base.CString.{CString, bytes, str_eq, differ}
use opendias.Base.Int.{ℤ}
use opendias.Validation.Fields.{DateParts, date_string_to_date_parts, update_keys, check_update_key}
use opendias.Validation.Fields.Laws.{is_one_of_iff}
use opendias.Database.{Value, text, int, Statement, Sqlite}
use opendias.Database.Queries.{statement}
use opendias.Database.Effects.{Only, Only-return, Only-lift, Only->>=, Only-run_update}
use opendias.DbAccess.{do_update_doc_value, update_doc_value, update_doc_value_int}
use opendias.DocEditor.{save_part, save_date, flag_of, required, save_detail, update_doc_details}

-- The columns of a document that a visitor may change.
abbrev pub columns : List CString
columns =
    bytes "title"
    ∷ bytes "actionrequired"
    ∷ bytes "hardcopyKept"
    ∷ bytes "ocrtext"
    ∷ bytes "docdatey"
    ∷ bytes "docdatem"
    ∷ bytes "docdated"
    ∷ []

unfoldable pub update_sql : (column : CString) → CString
unfolding bytes
update_sql column = bytes "UPDATE docs SET " ++ (column ++ bytes " = ? WHERE docid = ?")

-- A new value for a column of the document.
abbrev pub IsUpdate : (docid : CString) → Statement → Type 0
IsUpdate docid t =
    (column : CString) × Any (λ c. c ≡ column) columns
    × (value : Value) × (t ≡ statement (update_sql column) (value ∷ text docid ∷ []))

one-of-keys : (kkey : CString) → check_update_key (some kkey) ≡ 0 → Any (λ w. kkey ≡ w) update_keys
unfolding check_update_key
one-of-keys kkey a = ground (arith, a, is_one_of_iff update_keys kkey)

-- A key that the validation accepts, less the one for the date, names a column.
key-column :
    (kkey : CString)
    → check_update_key (some kkey) ≡ 0
    → str_eq kkey (bytes "docDate") ≡ false
    → Any (λ c. c ≡ kkey) columns
key-column kkey a n = elim (one-of-keys kkey a) [
  | inl p ↦ inl (sym p)
  | inr (inl p) ↦ inr (inl (sym p))
  | inr (inr (inl p)) ↦ inr (inr (inl (sym p)))
  | inr (inr (inr (inl p))) ↦ inr (inr (inr (inl (sym p))))
  | inr (inr (inr (inr (inl p)))) ↦ absurd (differ kkey (bytes "docDate") n p)
  | inr (inr (inr (inr (inr x)))) ↦ elim x [ ]
]

module _ (s : Sqlite) (docid : CString) where
  update_doc_value-Only :
      (column value : CString)
      → Any (λ c. c ≡ column) columns
      → Only (IsUpdate docid) (update_doc_value s docid column value)
  unfolding update_doc_value do_update_doc_value update_sql
  update_doc_value-Only column value m =
      Only-run_update (IsUpdate docid) s _ (text value ∷ text docid ∷ [])
        (column, m, text value, refl)

  update_doc_value_int-Only :
      (column : CString) (value : ℤ)
      → Any (λ c. c ≡ column) columns
      → Only (IsUpdate docid) (update_doc_value_int s docid column value)
  unfolding update_doc_value_int do_update_doc_value update_sql
  update_doc_value_int-Only column value m =
      Only-run_update (IsUpdate docid) s _ (int value ∷ text docid ∷ [])
        (column, m, int value, refl)

  save_part-Only :
      (column part : CString) (rc : ℕ)
      → Any (λ c. c ≡ column) columns
      → Only (IsUpdate docid) (save_part s docid column part rc)
  unfolding save_part
  save_part-Only column part rc m = elim (Bool-cases (rc == 0)) [
    | inl y ↦ rw y (update_doc_value-Only column part m)
    | inr n ↦ rw n (Only-return _ rc)
  ]

  save_date-Only : (dp : DateParts) → Only (IsUpdate docid) (save_date s docid dp)
  unfolding save_date
  save_date-Only dp =
      Only->>= _ _ _
        (update_doc_value-Only (bytes "docdatey") dp.year (inr (inr (inr (inr (inl refl))))))
        λ rc.
          Only->>= _ _ _
            (save_part-Only (bytes "docdatem") dp.month rc (inr (inr (inr (inr (inr (inl refl)))))))
            λ rc'.
              save_part-Only (bytes "docdated") dp.day rc'
                (inr (inr (inr (inr (inr (inr (inl refl)))))))

  save_detail-Only :
      (kkey : CString) (vvalue : Option CString)
      → check_update_key (some kkey) ≡ 0
      → Only (IsUpdate docid) (save_detail s docid kkey vvalue)
  unfolding save_detail
  save_detail-Only kkey vvalue a = elim (Bool-cases (str_eq kkey (bytes "docDate"))) [
    | inl y ↦ rw y (
        Only->>= _ _ _ (Only-lift _ (required vvalue)) λ date.
          Only->>= _ _ _ (Only-lift _ (date_string_to_date_parts date)) λ dp. save_date-Only dp)
    | inr n ↦ elim (Bool-cases (str_eq kkey (bytes "actionrequired"))) [
      | inl y ↦ rw (n, y) (update_doc_value_int-Only kkey (flag_of vvalue) (key-column kkey a n))
      | inr m ↦ elim (Bool-cases (str_eq kkey (bytes "hardcopyKept"))) [
        | inl y ↦
            rw (n, m, y) (update_doc_value_int-Only kkey (flag_of vvalue) (key-column kkey a n))
        | inr k ↦
            rw (n, m, k)
              (Only->>= _ _ _ (Only-lift _ (required vvalue))
                λ value. update_doc_value-Only kkey value (key-column kkey a n))
      ]
    ]
  ]

  -- With a key that the validation accepts, `updateDocDetails` gives the database only statements that
  -- set one of seven columns of the document to a value that is bound; the value that the visitor
  -- sends is in no statement's text.
  pub update_doc_details-Only :
      (kkey : CString) (vvalue : Option CString)
      → check_update_key (some kkey) ≡ 0
      → Only (IsUpdate docid) (update_doc_details s docid kkey vvalue)
  unfolding update_doc_details
  update_doc_details-Only kkey vvalue a =
      Only->>= _ _ _ (save_detail-Only kkey vvalue a) λ rc. Only-return _ _
