-- ===== src/DocEditor/Links.antt =====
-- The removal of a tag from a document, and of a document.
use opendias.Base.{ℕ, zero, suc, ◌≡◌, refl, ap, ◌∙◌, some, List, [], ◌∷◌, ◌++◌}
use opendias.Base.Exec.{ok}
use opendias.Base.CString.{CString, bytes, str_eq}
use opendias.Base.Int.{ℤ, pos, negsuc, atoi}
use opendias.Database.{text, int, Statement, History, Sqlite, RecordSet, read_data}
use opendias.Database.Run.{Run, ◌>>=◌}
use opendias.Database.Queries.{
  statement, answer, code, run_query->>=, run_update->>=, run_update-vars_of, lift->>=-ok,
  >>=-returned,
}
use opendias.DbAccess.{remove_doc_tags, remove_doc_links, remove_doc}
use opendias.DbAccess.Tags.{
  remove_tag_sql, select_tag, count_tag, delete_tag_sql, tag_id_of, get_tag_id, remove_tag_from_doc,
  counted, count_docs_with_tag, delete_tag,
}
use opendias.DocEditor.{
  answer_of, status_ok, drop_unused, link_code, update_tag_linkage, select_pages, page_files,
  page_count, delete_rows, do_delete,
}

-- The statement that deletes a tag, where the count is 0.
abbrev pub dropped : (tagid : CString) → ℤ → List Statement
dropped tagid (pos zero) = statement delete_tag_sql (int (atoi tagid) ∷ []) ∷ []
dropped tagid (pos (suc n)) = []
dropped tagid (negsuc n) = []

module _ (s : Sqlite) where
  drop_unused->>= :
      {A : Type 0} (tagid : CString) (ct : ℤ) (h : History) (m : Run A)
      → (drop_unused s tagid ct >>= λ _. m) h ≡ m (dropped tagid ct ++ h)
  unfolding drop_unused delete_tag
  drop_unused->>= tagid (pos zero) h m = run_update->>= s delete_tag_sql (int (atoi tagid) ∷ []) h _
  drop_unused->>= tagid (pos (suc n)) h m = refl
  drop_unused->>= tagid (negsuc n) h m = refl

  module _ (last_insert : History → ℤ) (docid link : CString) (h : History) where
    -- The queries and the removal.
    abbrev pub looked : History
    looked = statement select_tag (text link ∷ []) ∷ h

    abbrev pub removed : (tagid : CString) → History
    removed tagid = statement remove_tag_sql (text docid ∷ text tagid ∷ []) ∷ looked

    abbrev pub counted_after : (tagid : CString) → History
    counted_after tagid = statement count_tag (text tagid ∷ []) ∷ removed tagid

    get_tag_id-known :
        (r : RecordSet) (tagid : CString)
        → answer s looked ≡ some r
        → read_data r (bytes "tagid") ≡ ok tagid
        → get_tag_id s last_insert link h ≡ ok (tagid, looked)
    unfolding get_tag_id tag_id_of
    get_tag_id-known r tagid a t =
        run_query->>= s select_tag (text link ∷ []) h _
        ∙ ap (λ o. tag_id_of s last_insert link o looked) a
        ∙ rw t refl

    count-known :
        (q : RecordSet) (tagid ct : CString)
        → answer s (counted_after tagid) ≡ some q
        → read_data q (bytes "ct") ≡ ok ct
        → count_docs_with_tag s tagid (removed tagid) ≡ ok (atoi ct, counted_after tagid)
    unfolding count_docs_with_tag counted
    count-known q tagid ct a c =
        run_query->>= s count_tag (text tagid ∷ []) (removed tagid) _
        ∙ ap (λ o. counted s o (counted_after tagid)) a
        ∙ lift->>=-ok _ (counted_after tagid) c

    -- Where the tag has a row and the count of its documents gives one, the tag is removed from the
    -- document first; then its documents are counted, and it is deleted exactly if no document has it
    -- any more. The answer is an error exactly if the removal failed.
    pub update_tag_linkage-remove_tag :
        (r q : RecordSet) (tagid ct : CString)
        → answer s looked ≡ some r
        → read_data r (bytes "tagid") ≡ ok tagid
        → answer s (counted_after tagid) ≡ some q
        → read_data q (bytes "ct") ≡ ok ct
        → update_tag_linkage s last_insert docid link (bytes "removeTag") h
          ≡ ok (
            answer_of (bytes "MoveTag") (code s (removed tagid)),
            dropped tagid (atoi ct) ++ counted_after tagid,
          )
    unfolding update_tag_linkage link_code remove_tag_from_doc bytes str_eq
    update_tag_linkage-remove_tag r q tagid ct a t b c =
        >>=-returned (link_code s last_insert docid link (bytes "removeTag")) _ h (
          >>=-returned (get_tag_id s last_insert link) _ h (get_tag_id-known r tagid a t)
          ∙ run_update->>= s remove_tag_sql (text docid ∷ text tagid ∷ []) looked _
          ∙ >>=-returned (count_docs_with_tag s tagid) _ (removed tagid)
              (count-known q tagid ct b c)
          ∙ drop_unused->>= tagid (atoi ct) (counted_after tagid) _)

module _ (s : Sqlite) (base_dir : CString) (print_int : ℤ → CString) (document_id : CString) where
  abbrev delete_where : CString → Statement
  delete_where sql = statement sql (int (atoi document_id) ∷ [])

  abbrev links_deleted : List Statement
  links_deleted =
      delete_where (bytes "DELETE FROM doc_links WHERE linkeddocid = ?")
      ∷ delete_where (bytes "DELETE FROM doc_links WHERE docid = ?")
      ∷ []

  remove_doc_links-ran :
      (h : History) → (c : ℕ) × (remove_doc_links s document_id h ≡ ok (c, links_deleted ++ h))
  unfolding remove_doc_links
  remove_doc_links-ran h =
      let first = delete_where (bytes "DELETE FROM doc_links WHERE docid = ?") in
      (
        code s (links_deleted ++ h),
        run_update->>= s (bytes "DELETE FROM doc_links WHERE docid = ?")
              (int (atoi document_id) ∷ []) h _
            ∙ run_update-vars_of s (bytes "DELETE FROM doc_links WHERE linkeddocid = ?")
                (int (atoi document_id) ∷ []) (first ∷ h),
      )

  -- The statements of a deletion, the last one first: the document, its links and its tags.
  abbrev pub deletion : List Statement
  deletion =
      delete_where (bytes "DELETE FROM docs WHERE docid = ?")
      ∷ (links_deleted ++ delete_where (bytes "DELETE FROM doc_tags WHERE docid = ?") ∷ [])

  delete_rows-some :
      (r : RecordSet) (pages : CString) (h : History)
      → read_data r (bytes "pages") ≡ ok pages
      → delete_rows s base_dir print_int document_id (some r) h
        ≡ ok (
          (
            page_files base_dir print_int document_id 1 (page_count (atoi pages)),
            some (status_ok (bytes "DeleteDoc")),
          ),
          deletion ++ h,
        )
  unfolding delete_rows remove_doc_tags remove_doc
  delete_rows-some r pages h p =
      let h1 : History = delete_where (bytes "DELETE FROM doc_tags WHERE docid = ?") ∷ h in
      let (c, e) = remove_doc_links-ran h1 in
      lift->>=-ok _ h p
      ∙ run_update->>= s (bytes "DELETE FROM doc_tags WHERE docid = ?")
          (int (atoi document_id) ∷ []) h _
      ∙ >>=-returned (remove_doc_links s document_id) _ h1 e
      ∙ run_update->>= s (bytes "DELETE FROM docs WHERE docid = ?") (int (atoi document_id) ∷ [])
          (links_deleted ++ h1) _

  -- A document that has a row is deleted with its tags and its links in both directions, and the files
  -- of its pages, 1 to the number that the row gives, are removed; the answer is OK.
  pub do_delete-known :
      (r : RecordSet) (pages : CString) (h : History)
      → answer s (statement select_pages (int (atoi document_id) ∷ []) ∷ h) ≡ some r
      → read_data r (bytes "pages") ≡ ok pages
      → do_delete s base_dir print_int document_id h
        ≡ ok (
          (
            page_files base_dir print_int document_id 1 (page_count (atoi pages)),
            some (status_ok (bytes "DeleteDoc")),
          ),
          deletion ++ statement select_pages (int (atoi document_id) ∷ []) ∷ h,
        )
  unfolding do_delete
  do_delete-known r pages h a p =
      let asked : History = statement select_pages (int (atoi document_id) ∷ []) ∷ h in
      run_query->>= s select_pages (int (atoi document_id) ∷ []) h _
      ∙ ap (λ o. delete_rows s base_dir print_int document_id o asked) a
      ∙ delete_rows-some r pages asked p
