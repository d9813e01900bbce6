-- ===== src/PageRender/Similar/Near.antt =====
-- What `checkForSimilar` finds near a document.
use opendias.Base.{
  ℕ, ◌+◌, ◌≡◌, refl, sym, ap, ◌∙◌, ◌≢◌, true, false, Option, some, List, [], ◌∷◌, ◌++◌, length,
  is_some, append_assoc, Bool-cases, inl, inr, arith,
}
use mathlib.Core.Path.{subst}
use mathlib.Core.List.{append-nil}
use opendias.Base.Exec.{ok, ok-injective, >>=-eq-ok}
use opendias.Base.CString.{CString, bytes}
use opendias.Base.Int.{ℤ, pos, leb_ℤ, atoi}
use opendias.LinkedList.{Element, element, Sll, sll_init, sll_insert}
use opendias.LinkedList.Sort.{sll_sort}
use opendias.LinkedList.Sort.Laws.{IsFilled, IsSort, sll_sort-IsSort}
use opendias.Database.{Row, read_data}
use opendias.PageRender.Similar.Matches.{add_match, match_row, match_rows}

module _ (distance_to : CString → ℤ) (print_int : ℤ → CString) where
  -- The elements of a list stand for the rows of the documents whose hash is at a distance of at most
  -- 15, all of them and in their order: the key is the row's document, the data the distance.
  pub data IsNear : List Row → Sll CString → Type 0 where
    no_more : IsNear [] []
    near :
        (row : Row) (rs : List Row) (es : Sll CString) (docid hash : CString)
        → read_data (record { row = row; rest = rs }) (bytes "docid") ≡ ok docid
        → read_data (record { row = row; rest = rs }) (bytes "image_phash") ≡ ok hash
        → leb_ℤ (distance_to hash) (pos 15) ≡ true
        → IsNear rs es
        → IsNear (row ∷ rs) (element (some docid) (some (print_int (distance_to hash))) ∷ es)
    far :
        (row : Row) (rs : List Row) (es : Sll CString) (hash : CString)
        → read_data (record { row = row; rest = rs }) (bytes "image_phash") ≡ ok hash
        → leb_ℤ (distance_to hash) (pos 15) ≡ false
        → IsNear rs es
        → IsNear (row ∷ rs) es

  near-IsFilled : (rs : List Row) (es : Sll CString) → IsNear rs es → IsFilled es
  near-IsFilled _ _ no_more = tt
  near-IsFilled _ _ (near row rs es docid hash d h le is) = (refl, near-IsFilled rs es is)
  near-IsFilled _ _ (far row rs es hash h gt is) = near-IsFilled rs es is

  -- The inserts of some elements, one after the other.
  inserted : Sll CString → Sll CString → Sll CString
  inserted m [] = m
  inserted m (e ∷ es) = inserted (sll_insert m e.key e.value) es

  insert_full :
      (e : Element CString) (es : Sll CString) (k : Option CString) (v : Option CString)
      → is_some e.value ≡ true
      → sll_insert (e ∷ es) k v ≡ (e ∷ es) ++ element k v ∷ []
  unfolding sll_insert
  insert_full e [] k v filled = rw filled refl
  insert_full e (f ∷ es) k v filled = refl

  inserted-append :
      (e : Element CString) (es fs : Sll CString)
      → is_some e.value ≡ true
      → inserted (e ∷ es) fs ≡ (e ∷ es) ++ fs
  unfolding inserted
  inserted-append e es [] filled = ap (λ r. e ∷ r) (sym (append-nil es))
  inserted-append e es (f ∷ fs) filled =
      rw (insert_full e es f.key f.value filled)
        (inserted-append e (es ++ f ∷ []) fs filled ∙ ap (λ r. e ∷ r) (append_assoc es (f ∷ []) fs))

  inserted-init : (es : Sll CString) → IsFilled es → length es ≢ 0 → inserted sll_init es ≡ es
  unfolding inserted sll_insert
  inserted-init [] is some_there = absurd (some_there refl)
  inserted-init (e ∷ es) is some_there = inserted-append e [] es is.0

  -- What the rows from one on add to what is found.
  Grown : (found found' : Sll CString × ℕ) → List Row → Type 0
  Grown (m, n) (m', n') rs =
      (es : Sll CString) × IsNear rs es × (m' ≡ inserted m es) × (n' ≡ n + length es)

  row-Grown :
      (found next_found found' : Sll CString × ℕ) (row : Row) (rs : List Row)
      → match_row distance_to print_int found (record { row = row; rest = rs }) ≡ ok next_found
      → Grown next_found found' rs
      → Grown found found' (row ∷ rs)
  unfolding match_row add_match Grown inserted
  row-Grown (m, n) next_found found' row rs e g =
      let (docid, d, p) =
        >>=-eq-ok (read_data (record { row = row; rest = rs }) (bytes "docid")) _ e in
      let (hash, h, q) =
        >>=-eq-ok (read_data (record { row = row; rest = rs }) (bytes "image_phash")) _ p in
      elim (Bool-cases (leb_ℤ (distance_to hash) (pos 15))) [
        | inl le ↦
            let (es, is, same, more) =
              subst (λ x. Grown x found' rs) (sym (ok-injective (rw le at q))) g in
            (
              element (some docid) (some (print_int (distance_to hash))) ∷ es,
              near row rs es docid hash d h le is,
              same,
              omega (arith, more),
            )
        | inr gt ↦
            let (es, is, same, more) =
              subst (λ x. Grown x found' rs) (sym (ok-injective (rw gt at q))) g in
            (es, far row rs es hash h gt is, same, more)
      ]

  rows-Grown :
      (found found' : Sll CString × ℕ) (row : Row) (rs : List Row)
      → match_rows distance_to print_int found row rs ≡ ok found'
      → Grown found found' (row ∷ rs)
  unfolding match_rows Grown inserted
  rows-Grown found found' row [] e =
      row-Grown found found' found' row [] e ([], no_more, refl, omega arith)
  rows-Grown found found' row (r ∷ rs) e =
      let (next_found, p, q) =
        >>=-eq-ok (match_row distance_to print_int found (record { row = row; rest = r ∷ rs })) _
          e in
      row-Grown found next_found found' row (r ∷ rs) p (rows-Grown next_found found' r rs q)

  -- Where documents are counted, the list holds exactly those of the rows whose hash is at a distance of
  -- at most 15, in the order of the rows, each under the number of its row and with its distance; there
  -- are as many as are counted; and the sort of the list ends, with the same documents in the order of
  -- the distances that `atoi` reads.
  pub match_rows-IsNear :
      (row : Row) (rs : List Row) (m : Sll CString) (n : ℕ)
      → match_rows distance_to print_int (sll_init, 0) row rs ≡ ok (m, n)
      → n ≢ 0
      → IsNear (row ∷ rs) m
        × (length m ≡ n)
        × ((sorted : Sll CString) × (sll_sort atoi m ≡ ok sorted) × IsSort atoi m sorted)
  unfolding Grown
  match_rows-IsNear row rs m n e z =
      let (es, is, same, more) = rows-Grown (sll_init, 0) (m, n) row rs e in
      let filled = near-IsFilled (row ∷ rs) es is in
      let all : m ≡ es = same ∙ inserted-init es filled (λ none_there. z (omega arith)) in
      rw all (is, omega arith, sll_sort-IsSort atoi es filled)
