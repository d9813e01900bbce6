-- ===== src/LinkedList/Sort.antt =====
-- `sll_sort` of src/simpleLinkedList.c: a bubble sort that starts anew behind each swap. `weight` is
-- the number that the data of an element spell.
pub mod Laws
use opendias.Base.{
  ℕ, zero, suc, ◌+◌, Bool, true, false, not, Option, none, some, List, [], ◌∷◌, map, if◌then◌else◌,
}
use opendias.Base.Exec.{Exec, ok, fault, ◌>>=◌}
use opendias.Base.Int.{ℤ, leb_ℤ}
use opendias.LinkedList.{Element, Sll}

abbrev pub later : {V : Type 0} → Element V → Option (Sll V) → Option (Sll V)
later e none = none
later e (some es) = some (e ∷ es)

module _ {V : Type 0} (weight : V → ℤ) where
  -- `atoi(this_data) > atoi(next_data)`; data that are NULL are read.
  unfoldable pub exceeds : Option V → Option V → Exec Bool
  exceeds (some this) (some next_data) = ok (not (leb_ℤ (weight this) (weight next_data)))
  exceeds (some this) none = fault
  exceeds none next_data = fault

  -- Two neighbours out of order are swapped, and the search is broken off.
  unfoldable pub go_on :
      (out_of_order : Bool) (e f : Element V) (es : Sll V)
      → Exec (Option (Sll V))
      → Exec (Option (Sll V))
  go_on true e f es rest = ok (some (f ∷ e ∷ es))
  go_on false e f es rest = rest >>= λ swapped. ok (later e swapped)

  -- The swap of the first two neighbours that are out of order, if there are such.
  unfoldable pub swap_first : Sll V → Exec (Option (Sll V))
  swap_first [] = ok none
  swap_first (e ∷ []) = ok none
  swap_first (e ∷ f ∷ es) = do
    let rest = swap_first (f ∷ es)
    out_of_order ← exceeds e.value f.value
    go_on out_of_order e f es rest

  unfoldable pub after_pass : Sll V → (Sll V → Exec (Sll V)) → Option (Sll V) → Exec (Sll V)
  after_pass es again none = ok es
  after_pass es again (some es') = again es'

  -- `while( swapped != 0 )`; a loop that does not end within the rounds counts as a fault.
  unfoldable pub sort_rounds : ℕ → Sll V → Exec (Sll V)
  sort_rounds zero es = fault
  sort_rounds (suc rounds) es = swap_first es >>= after_pass es (sort_rounds rounds)

  -- 1 for a pair that is out of order.
  unfoldable pub above : Option V → Option V → Bool
  above (some this) (some other) = not (leb_ℤ (weight this) (weight other))
  above this other = false

  -- How many elements behind an element are less.
  unfoldable pub below : Element V → Sll V → ℕ
  below e [] = 0
  below e (f ∷ es) = (if above e.value f.value then 1 else 0) + below e es

  -- The pairs that are out of order, which bound the rounds.
  unfoldable pub inversions : Sll V → ℕ
  inversions [] = 0
  inversions (e ∷ es) = below e es + inversions es

  unfoldable pub sll_sort : Sll V → Exec (Sll V)
  sll_sort es = sort_rounds (suc (inversions es)) es
