-- ===== src/Database/Binding.antt =====
-- The variables of a statement, as the callers put them in a list and `bind_vars` takes them out.
use opendias.Base.{
  append_assoc, ◌≡◌, refl, ap, true, Option, none, some, List, [], ◌∷◌, ◌++◌, is_some,
}
use opendias.Base.Exec.{ok}
use opendias.LinkedList.{Element, element, sll_init, sll_append}
use opendias.Database.{
  Value, null, text, int, Datum, str, num, Vars, db_null, db_text, db_int, bind_value, bind_loop,
  bind_vars,
}

-- The two pointers that a caller appends for a value: its type, and the value itself.
abbrev type_of : Value → Datum
type_of null = str db_null
type_of (text s) = str db_text
type_of (int n) = str db_int

abbrev pointer_of : Value → Option Datum
pointer_of null = none
pointer_of (text s) = some (str s)
pointer_of (int n) = some (num n)

-- `sll_append(vars, DB_TEXT ); sll_append(vars, value );`
unfoldable pub add_value : Vars → Value → Vars
add_value vars v = sll_append (sll_append vars (some (type_of v))) (pointer_of v)

unfoldable pub add_values : Vars → List Value → Vars
add_values vars [] = vars
add_values vars (v ∷ vs) = add_values (add_value vars v) vs

-- `vars = sll_init()`, and then the values.
unfoldable pub vars_of : List Value → Vars
vars_of vs = add_values sll_init vs

cells : List Value → Vars
cells [] = []
cells (v ∷ vs) = element none (some (type_of v)) ∷ element none (pointer_of v) ∷ cells vs

append-full :
    (e : Element Datum) (es : Vars) (d : Option Datum)
    → is_some e.value ≡ true
    → sll_append (e ∷ es) d ≡ e ∷ (es ++ element none d ∷ [])
unfolding sll_append
append-full e [] d h = rw h
append-full e (f ∷ es) d h = refl

add_values-cells :
    (e : Element Datum) (es : Vars) (vs : List Value)
    → is_some e.value ≡ true
    → add_values (e ∷ es) vs ≡ e ∷ (es ++ cells vs)
unfolding add_values add_value cells
add_values-cells e es [] h = ap (λ r. e ∷ r) (append_nil es)
  where
    append_nil : (r : Vars) → r ≡ r ++ []
    append_nil [] = refl
    append_nil (x ∷ r) = ap (λ t. x ∷ t) (append_nil r)
add_values-cells e es (v ∷ vs) h =
    let two : Vars = element none (some (type_of v)) ∷ element none (pointer_of v) ∷ [] in
    rw
      (
        append-full e es (some (type_of v)) h,
        append-full e (es ++ element none (some (type_of v)) ∷ []) (pointer_of v) h,
        append_assoc es (element none (some (type_of v)) ∷ []) (element none (pointer_of v) ∷ []),
        add_values-cells e (es ++ two) vs h,
        append_assoc es two (cells vs),
      )
      refl

bind_value-pointer : (v : Value) → bind_value (some (type_of v)) (pointer_of v) ≡ ok v
unfolding bind_value
bind_value-pointer null = refl
bind_value-pointer (text s) = refl
bind_value-pointer (int n) = refl

bind_loop-cells : (vs : List Value) → bind_loop (cells vs) ≡ ok vs
unfolding bind_loop cells
bind_loop-cells [] = refl
bind_loop-cells (v ∷ vs) = rw (bind_value-pointer v, bind_loop-cells vs) refl

add_value-init : (v : Value) → add_value sll_init v ≡ cells (v ∷ [])
unfolding add_value sll_append cells
add_value-init v = refl

-- The values that a caller puts in a list of variables, each behind its type, are those that
-- `bind_vars` binds, in their order.
pub bind_vars-vars_of : (vs : List Value) → bind_vars (some (vars_of vs)) ≡ ok vs
unfolding bind_vars vars_of add_values cells
bind_vars-vars_of [] = refl
bind_vars-vars_of (v ∷ vs) =
    rw
      (
        add_value-init v,
        add_values-cells (element none (some (type_of v))) (element none (pointer_of v) ∷ []) vs
            refl,
      )
      (bind_loop-cells (v ∷ vs))
