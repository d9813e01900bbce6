-- ===== src/Session/Table.antt =====
-- The sessions as a table from identifiers to their data, and the list that stands for a table.
use opendias.Base.{ℕ, ◌≢◌, Option, none, some, List, [], ◌∷◌, ltb, if◌then◌else◌, All}
use opendias.Base.CString.{CString, str_eq}
use opendias.LinkedList.{Element, element, Sll, sll_init}
use opendias.Session.{SessionData, SessionValue, text, session, Manager, placeholder}

abbrev pub Table : Type 0
Table = List (CString × SessionData)

abbrev pub fresh : ℕ → SessionData
fresh now = record { last_accessed = now; session_container = sll_init }

unfoldable pub lookup : CString → Table → Option SessionData
lookup id [] = none
lookup id ((k, d) ∷ t) = if str_eq k id then some d else lookup id t

-- The session is accessed now.
unfoldable pub access : ℕ → CString → Table → Table
access now id [] = []
access now id ((k, d) ∷ t) =
    if str_eq k id then (k, record d { last_accessed = now }) ∷ t else (k, d) ∷ access now id t

-- The sessions that were accessed at `oldest` or later.
unfoldable pub keep : ℕ → Table → Table
keep oldest [] = []
keep oldest ((k, d) ∷ t) =
    if ltb d.last_accessed oldest then keep oldest t else (k, d) ∷ keep oldest t

abbrev pub row : CString × SessionData → Element SessionValue
row (k, d) = element (some k) (some (session d))

unfoldable pub rows : Table → Sll SessionValue
rows [] = []
rows (r ∷ t) = row r ∷ rows t

-- The placeholder, and behind it an element for each session.
unfoldable pub represent : Table → Sll SessionValue
represent t = element (some placeholder) (some (text placeholder)) ∷ rows t

-- No session is named like the placeholder.
abbrev pub IsNamed : Table → Type 0
IsNamed t = All (λ r. r.0 ≢ placeholder) t

-- The state of the manager that stands for a table.
abbrev pub managed : ℕ → ℕ → Table → Manager
managed n age t = record { sessions = represent t; max_sessions = n; max_age = age }
