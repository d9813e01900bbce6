-- ===== src/Database.antt =====
-- src/db.c: the variables of a statement, the rows of a query, and the reading of their fields.
-- sqlite is an argument: what it answers is a function of the statements that it was given.
pub mod Run
pub mod Binding
pub mod Queries
pub mod Effects
pub mod Upgrade
mod Tests
use opendias.Base.{
  ℕ, ◌≡◌, Bool, true, false, Option, none, some, List, [], ◌∷◌, ◌++◌, map, if◌then◌else◌,
}
use opendias.Base.Exec.{Exec, ok, fault, ◌>>=◌}
use opendias.Base.CString.{CString, bytes, str_eq}
use opendias.Base.Int.{ℤ}
use opendias.LinkedList.{Element, Sll, sll_init, sll_append}

-- What a variable of a statement is bound to.
pub data Value : Type 0 where
  null : Value
  text : CString → Value
  int : ℤ → Value

pub record Statement : Type 0 where
  pub sql : CString
  pub values : List Value

-- The statements that sqlite was given, the last one first.
abbrev pub History : Type 0
History = List Statement

-- A row: the names of its columns and their texts, `none` for NULL.
abbrev pub SqlRow : Type 0
SqlRow = List (CString × Option CString)

-- How sqlite answers the last statement: its rows, and whether it ends in an error.
pub record Sqlite : Type 0 where
  pub rows : History → List SqlRow
  pub is_error : History → Bool

-- What `void *data` of an element of `vars` points to: a text, or an `int`.
pub data Datum : Type 0 where
  str : CString → Datum
  num : ℤ → Datum

abbrev pub Vars : Type 0
Vars = Sll Datum

abbrev pub db_null : CString
db_null = bytes "null"

abbrev pub db_text : CString
db_text = bytes "text"

abbrev pub db_int : CString
db_int = bytes "int"

-- The value of one variable, by its type; what is not of that type would be read out of bounds. A
-- variable that is not bound is NULL.
bind_text : Option Datum → Exec Value
bind_text (some (str s)) = ok (text s)
bind_text other = fault

bind_int : Option Datum → Exec Value
bind_int (some (num n)) = ok (int n)
bind_int other = fault

unfoldable pub bind_value : Option Datum → Option Datum → Exec Value
unfolding bind_text bind_int bytes str_eq
bind_value (some (str kind)) value =
    if str_eq kind db_null
    then ok null
    else if str_eq kind db_text
    then bind_text value
    else if str_eq kind db_int
    then bind_int value
    else ok null
bind_value other value = fault

-- The loop of `bind_vars`: a type without a value behind it ends in a read through NULL.
unfoldable pub bind_loop : Vars → Exec (List Value)
bind_loop [] = ok []
bind_loop (kind ∷ []) = fault
bind_loop (kind ∷ value ∷ rest) = do
  v ← bind_value kind.value value.value
  vs ← bind_loop rest
  ok (v ∷ vs)

-- `none` is a list that is NULL; a list whose first element is empty binds nothing.
unfoldable pub bind_vars : Option Vars → Exec (List Value)
bind_vars none = ok []
bind_vars (some []) = ok []
bind_vars (some (e ∷ es)) = elim e.value [ none ↦ ok [] | some d ↦ bind_loop (e ∷ es) ]

-- A row as `callback` keeps it: the text "NULL" stands for NULL.
abbrev pub Row : Type 0
Row = List (CString × CString)

unfoldable pub column_text : Option CString → CString
unfolding bytes
column_text none = bytes "NULL"
column_text (some s) = s

unfoldable pub kept_row : SqlRow → Row
kept_row [] = []
kept_row ((name, value) ∷ row) = (name, column_text value) ∷ kept_row row

unfoldable pub kept_rows : List SqlRow → List Row
kept_rows [] = []
kept_rows (row ∷ rows) = kept_row row ∷ kept_rows rows

-- A record set that is not NULL: the current row, and those behind it.
pub record RecordSet : Type 0 where
  pub row : Row
  pub rest : List Row

unfoldable pub record_set : List Row → Option RecordSet
record_set [] = none
record_set (row ∷ rows) = some (record { row = row; rest = rows })

field_of : Row → CString → Exec CString
field_of [] name = fault
field_of ((column, value) ∷ row) name =
    let rest = field_of row name in if str_eq column name then ok value else rest

-- The field of the current row; a name that no column has ends in a read through NULL.
unfoldable pub read_data : RecordSet → CString → Exec CString
unfolding field_of
read_data r name = field_of r.row name

unfoldable pub next_row : RecordSet → Option RecordSet
next_row r = record_set r.rest

-- `do ... while ( nextRow( rSet ) )`, with the texts of the rows behind each other.
rows_text : (RecordSet → Exec CString) → (between : CString) → Row → List Row → Exec CString
rows_text f between row [] = f (record { row = row; rest = [] })
rows_text f between row (r ∷ rs) = do
  first ← f (record { row = row; rest = r ∷ rs })
  others ← rows_text f between r rs
  ok (first ++ (between ++ others))

unfoldable pub each_row :
    (RecordSet → Exec CString) → (between : CString) → RecordSet → Exec CString
unfolding rows_text
each_row f between r = rows_text f between r.row r.rest

-- The same loop, where each row overwrites what the row before gave.
last_row : {A : Type 0} → (RecordSet → Exec A) → Row → List Row → Exec A
last_row f row [] = f (record { row = row; rest = [] })
last_row f row (r ∷ rs) = do a ← f (record { row = row; rest = r ∷ rs }); last_row f r rs

unfoldable pub each_last : {A : Type 0} → (RecordSet → Exec A) → RecordSet → Exec A
unfolding last_row
each_last f r = last_row f r.row r.rest
