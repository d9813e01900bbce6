-- ===== src/PageRender/Similar/Tests.antt =====
-- A run of the search for similar documents.
use opendias.Base.{◌+◌, ◌≡◌, refl, some, [], ◌∷◌, length, arith}
use opendias.Base.Exec.{ok}
use opendias.Base.CString.{CString, bytes, str_eq}
use opendias.Base.Int.{ℤ, pos, negsuc, atoi}
use opendias.LinkedList.{element, Sll, sll_init, sll_insert}
use opendias.LinkedList.Sort.{sll_sort}
use opendias.LinkedList.Sort.Laws.{IsSort}
use opendias.Database.{Row, read_data}
use opendias.PageRender.Similar.Matches.{add_match, match_row, match_rows}
use opendias.PageRender.Similar.Near.{IsNear, match_rows-IsNear}

-- The hashes "9" and "99" are at the distances 9 and 18.
abbrev nines : CString → ℤ
nines s = elim s [ [] ↦ pos 0 | c ∷ cs ↦ elim cs [ [] ↦ pos 9 | d ∷ ds ↦ pos 18 ] ]

abbrev one_byte : ℤ → CString
one_byte z = elim z [ pos n ↦ (n + 48) ∷ [] | negsuc n ↦ [] ]

abbrev near_row : Row
near_row = (bytes "docid", bytes "4") ∷ (bytes "image_phash", bytes "9") ∷ []

abbrev far_row : Row
far_row = (bytes "docid", bytes "5") ∷ (bytes "image_phash", bytes "99") ∷ []

abbrev one_match : Sll CString
one_match = element (some (bytes "4")) (some (bytes "9")) ∷ []

match_rows-one : match_rows nines one_byte (sll_init, 0) near_row (far_row ∷ []) ≡ ok (one_match, 1)
unfolding match_rows match_row add_match sll_insert read_data str_eq bytes
match_rows-one = refl

match_rows-IsNear_example :
    IsNear nines one_byte (near_row ∷ far_row ∷ []) one_match
    × (length one_match ≡ 1)
    × ((sorted : Sll CString) × (sll_sort atoi one_match ≡ ok sorted)
        × IsSort atoi one_match sorted)
match_rows-IsNear_example =
    match_rows-IsNear nines one_byte near_row (far_row ∷ []) one_match 1 match_rows-one
      (omega arith)
