-- ===== src/DbAccess/Documents.antt =====
-- src/dbaccess.c: new documents. `last_insert` of src/db.c is a function of the statements.
use opendias.Base.{ℕ, some, [], ◌∷◌}
use opendias.Base.CString.{CString, bytes}
use opendias.Base.Int.{ℤ, pos}
use opendias.Utils.Itoa.{itoa}
use opendias.Database.{text, int, History, Sqlite}
use opendias.Database.Run.{Run, ◌>>=◌, lift, run_update}
use opendias.Database.Binding.{vars_of}

-- `itoa(last_insert(), 10)`
unfoldable pub inserted : (last_insert : History → ℤ) → Run CString
inserted last_insert h = lift (itoa (last_insert h)) h

abbrev pub insert_doc : CString
insert_doc =
    bytes
      "INSERT INTO docs     (depth, lines, ppl, resolution, ocrText, pages, entrydate, filetype)     VALUES (8, ?, ?, ?, ?, ?, ?, ?)"

abbrev pub scan_filetype : ℤ
scan_filetype = pos 2

abbrev pub save_hash : CString
save_hash = bytes "UPDATE docs SET image_phash = ? WHERE docid = ?"

module _ (s : Sqlite) where
  -- `date` is the time in the form of ISO 8601.
  module _ (last_insert : History → ℤ) (date : CString) where
    unfoldable pub add_new_doc :
        (ftype get_lines ppl resolution page_count : ℤ) (ocr_text : CString) → Run CString
    add_new_doc ftype get_lines ppl resolution page_count ocr_text = do
      code ← run_update s insert_doc (
          some (
            vars_of (
              int get_lines
              ∷ int ppl
              ∷ int resolution
              ∷ text ocr_text
              ∷ int page_count
              ∷ text date
              ∷ int ftype
              ∷ [])))
      inserted last_insert

    unfoldable pub add_new_scanned_doc : (get_lines ppl resolution page_count : ℤ) → Run CString
    add_new_scanned_doc get_lines ppl resolution page_count =
        add_new_doc scan_filetype get_lines ppl resolution page_count []

    unfoldable pub add_new_file_doc : (ftype x y : ℤ) (ocr_text : CString) → Run CString
    add_new_file_doc ftype x y ocr_text = add_new_doc ftype y x (pos 0) (pos 1) ocr_text

  -- `hash_s` is the hash printed with "%llu".
  unfoldable pub save_phash : (docid : ℤ) (hash_s : CString) → Run ℕ
  save_phash docid hash_s = run_update s save_hash (some (vars_of (text hash_s ∷ int docid ∷ [])))
