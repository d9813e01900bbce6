-- ===== src/PageRender/Similar/Matches.antt =====
-- src/pageRender.c: the documents that `checkForSimilar` finds to be near another.
use opendias.Base.{ℕ, ◌+◌, some, List, [], ◌∷◌, if◌then◌else◌}
use opendias.Base.Exec.{Exec, ok, ◌>>=◌}
use opendias.Base.CString.{CString, bytes}
use opendias.Base.Int.{ℤ, pos, leb_ℤ}
use opendias.LinkedList.{Sll, sll_insert}
use opendias.Database.{Row, RecordSet, read_data}

module _ (distance_to : CString → ℤ) (print_int : ℤ → CString) where
  -- A document at a distance of at most 15 goes into the list, with the distance as its data.
  unfoldable pub add_match : Sll CString × ℕ → (docid hash : CString) → Sll CString × ℕ
  add_match (matching, match_count) docid hash =
      if leb_ℤ (distance_to hash) (pos 15)
      then (sll_insert matching (some docid) (some (print_int (distance_to hash))), match_count + 1)
      else (matching, match_count)

  unfoldable pub match_row : Sll CString × ℕ → RecordSet → Exec (Sll CString × ℕ)
  unfolding bytes
  match_row found r = do
    docid ← read_data r (bytes "docid")
    hash ← read_data r (bytes "image_phash")
    ok (add_match found docid hash)

  unfoldable pub match_rows : Sll CString × ℕ → Row → List Row → Exec (Sll CString × ℕ)
  match_rows found row [] = match_row found (record { row = row; rest = [] })
  match_rows found row (r ∷ rs) = do
    found' ← match_row found (record { row = row; rest = r ∷ rs })
    match_rows found' r rs
