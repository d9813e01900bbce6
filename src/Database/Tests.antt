-- ===== src/Database/Tests.antt =====
-- Runs of the database's code on small inputs.
use opendias.Base.{◌≡◌, true, false, some, List, [], ◌∷◌}
use opendias.Base.Exec.{ok}
use opendias.Base.CString.{bytes}
use opendias.Base.Int.{pos}
use opendias.Database.{Value, null, text, int, Sqlite, bind_vars}
use opendias.Database.Binding.{vars_of, bind_vars-vars_of}
use opendias.Database.Upgrade.{Files, upgrade, scripts}
use opendias.Database.Upgrade.Order.{IsPrefix, upgrade-IsPrefix}

abbrev three_values : List Value
three_values = text (bytes "report") ∷ null ∷ int (pos 7) ∷ []

bind_vars-vars_of_example : bind_vars (some (vars_of three_values)) ≡ ok three_values
bind_vars-vars_of_example = bind_vars-vars_of three_values

-- The second statement fails.
abbrev failing : Sqlite
failing = record {
  rows = λ h. [];
  is_error = λ h. elim h [ [] ↦ false | t ∷ ts ↦ elim ts [ [] ↦ false | u ∷ us ↦ true ] ];
}

abbrev installed : Files
installed = record {
  database = true;
  misplaced = false;
  opens = true;
  script = λ i. some (bytes "CREATE TABLE docs");
  base_dir = bytes "/home/opendias";
}

upgrade-IsPrefix_example :
    IsPrefix failing (upgrade failing installed 3 (pos 1)) (scripts failing installed 3 (pos 1)) []
upgrade-IsPrefix_example = upgrade-IsPrefix failing installed 3 (pos 1) []
