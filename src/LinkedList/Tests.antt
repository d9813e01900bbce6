-- ===== src/LinkedList/Tests.antt =====
-- A run of the sort of a list.
use opendias.Base.{ℕ, ◌≡◌, refl, none, some, [], ◌∷◌}
use opendias.Base.Exec.{ok}
use opendias.Base.Int.{pos}
use opendias.LinkedList.{element, Sll}
use opendias.LinkedList.Sort.{
  exceeds, swap_first, go_on, after_pass, sort_rounds, above, below, inversions, sll_sort,
}
use opendias.LinkedList.Sort.Laws.{IsSort, sll_sort-IsSort}

abbrev three_numbers : Sll ℕ
three_numbers = element none (some 7) ∷ element none (some 3) ∷ element none (some 5) ∷ []

sll_sort-three :
    sll_sort pos three_numbers
    ≡ ok (element none (some 3) ∷ element none (some 5) ∷ element none (some 7) ∷ [])
unfolding sll_sort sort_rounds swap_first exceeds go_on after_pass above below inversions
sll_sort-three = refl

sll_sort-IsSort_example :
    (sorted : Sll ℕ) × (sll_sort pos three_numbers ≡ ok sorted) × IsSort pos three_numbers sorted
sll_sort-IsSort_example = sll_sort-IsSort pos three_numbers (refl, (refl, (refl, tt)))
