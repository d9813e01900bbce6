-- ===== src/WebHandler/Role.antt =====
-- `accessChecks` of src/web_handler.c: the privileges that the table `access_role` gives to the role
-- of a session. The caller's privileges are 0 before.
use opendias.Base.{Bool, Option, none, some, if◌then◌else◌}
use opendias.Base.CString.{CString, bytes}
use opendias.Base.Int.{ℤ, pos, atoi}
use opendias.LinkedList.{Sll}
use opendias.Validation.Keys.{get_post_data}
use opendias.WebHandler.Site.{Privileges}

-- The columns of a row, as text.
pub record AccessRole : Type 0 where
  pub update_access : CString
  pub view_doc : CString
  pub edit_doc : CString
  pub delete_doc : CString
  pub add_import : CString
  pub add_scan : CString

abbrev pub all_of : ℤ → Privileges
all_of v = record {
  update_access = v;
  view_doc = v;
  edit_doc = v;
  delete_doc = v;
  add_import = v;
  add_scan = v;
}

unfoldable pub privileges_of : Option AccessRole → Privileges
privileges_of none = all_of (pos 0)
privileges_of (some row) = record {
  update_access = atoi row.update_access;
  view_doc = atoi row.view_doc;
  edit_doc = atoi row.edit_doc;
  delete_doc = atoi row.delete_doc;
  add_import = atoi row.add_import;
  add_scan = atoi row.add_scan;
}

-- The role of a session; NULL data or no session is the role "".
unfoldable pub role_of : Option (Sll CString) → CString
unfolding bytes
role_of none = bytes ""
role_of (some session_data) = elim (get_post_data session_data (some (bytes "role"))) [
  | none ↦ bytes ""
  | some role ↦ role
]

-- `access_role` is the first row of the query for a role.
unfoldable pub access_checks :
    (open_to_all : Bool) → (CString → Option AccessRole) → Option (Sll CString) → Privileges
access_checks open_to_all access_role session_data =
    if open_to_all then all_of (pos 1) else privileges_of (access_role (role_of session_data))
