-- ===== src/PageRender/Users.antt =====
-- src/pageRender.c: `updateUser`, `getUserList` and `deleteUser`.
pub mod Changes
pub mod Done
use opendias.Base.{
  ℕ, Bool, true, false, Option, none, some, List, [], ◌∷◌, ◌++◌, if◌then◌else◌, ◌==◌,
}
use opendias.Base.Exec.{Exec, ok, fault}
use opendias.Base.CString.{CString, bytes, str_eq}
use opendias.Base.Int.{ℤ, pos, negsuc}
use opendias.LinkedList.{Element, sll_search_keys}
use opendias.Database.{Value, text, Sqlite, Row, RecordSet, read_data, each_row}
use opendias.Database.Run.{Run, return, ◌>>=◌, lift, run_query, run_update}
use opendias.Database.Binding.{vars_of}
use opendias.PageRender.Entries.{user_entry}
use opendias.PageRender.Services.{Services, xml_head, tagged, response}
use opendias.PageRender.Login.{Session, select_created}

abbrev pub current_user : CString
current_user = bytes "[current]"

-- The same query as at the login, with other spaces.
abbrev pub select_created_again : CString
select_created_again = bytes "SELECT created         FROM user_access         WHERE username = ?"

abbrev pub insert_user : CString
insert_user =
    bytes
      "INSERT INTO user_access                       VALUES (?, '-no password yet-', '-not set yet-',                       datetime('now'), datetime('now'), 0);"

abbrev pub set_role : CString
set_role = bytes "UPDATE user_access         SET role = ?         WHERE username = ? "

abbrev pub set_realname : CString
set_realname = bytes "UPDATE user_access       SET realname = ?       WHERE username = ? "

abbrev pub set_password : CString
set_password = bytes "UPDATE user_access       SET password = ?       WHERE username = ? "

abbrev pub select_users : CString
select_users = bytes "SELECT username, realname, last_access, role     FROM user_access "

abbrev pub delete_from_users : CString
delete_from_users = bytes "DELETE FROM user_access     WHERE username = ?"

unfoldable pub is_one : ℤ → Bool
is_one (pos n) = n == 1
is_one (negsuc n) = false

unfoldable pub error_text : Services → CString → CString
unfolding bytes
error_text v lang = response (tagged (bytes "error") (v.get_string (bytes "LOCAL_no_access") lang))

unfoldable pub user_updated : CString
unfolding bytes
user_updated = response (tagged (bytes "UpdateUser") (tagged (bytes "result") (bytes "OK")))

unfoldable pub user_deleted : CString
unfolding bytes
user_deleted = response (tagged (bytes "DeleteUser") (tagged (bytes "result") (bytes "OK")))

-- `useUsername = rSet->data`; a name that is NULL is read by the query behind.
unfoldable pub user_data : Option CString → Exec (Option CString)
user_data none = fault
user_data (some user) = ok (some user)

unfoldable pub session_user : Option (Element CString) → Exec (Option CString)
session_user none = ok none
session_user (some e) = user_data e.value

-- The user that is meant; `none` where the client may not change it.
unfoldable pub effective_user : Session → (username : CString) → ℤ → Exec (Option CString)
unfolding bytes
effective_user session username can_edit_access =
    if str_eq username current_user
    then session_user (sll_search_keys session (some (bytes "username")))
    else ok (if is_one can_edit_access then some username else none)

-- The record set of a query that gave no row is NULL.
abbrev pub read_created : Option RecordSet → Exec CString
read_created none = fault
read_created (some r) = read_data r (bytes "created")

module _ (s : Sqlite) (v : Services) (can_edit_access : ℤ) (lang user : CString) where
  -- A user that has no row is made, by a client that may.
  unfoldable pub user_row : Option RecordSet → Run (Option (Option RecordSet))
  user_row (some r) = return (some (some r))
  user_row none =
      if is_one can_edit_access
      then (do
        code ← run_update s insert_user (some (vars_of (text user ∷ [])))
        made ← run_query s select_created_again (some (vars_of (text user ∷ [])))
        return (some made))
      else return none

  -- False for a client that may not.
  unfoldable pub change_role : (role : Option CString) → Run Bool
  change_role none = return true
  change_role (some role) =
      if is_one can_edit_access
      then (do
        code ← run_update s set_role (some (vars_of (text role ∷ text user ∷ [])))
        return true)
      else return false

  unfoldable pub update_realname : (realname : Option CString) → Run ℕ
  update_realname none = return 0
  update_realname (some realname) =
      run_update s set_realname (some (vars_of (text realname ∷ text user ∷ [])))

  unfoldable pub update_password : (created : CString) (password : Option CString) → Run ℕ
  update_password created none = return 0
  update_password created (some password) =
      run_update s set_password
        (some (vars_of (text (v.str2md5 (created ++ (password ++ user))) ∷ text user ∷ [])))

  unfoldable pub update_others :
      (created : CString) (realname password : Option CString) → Bool → Run CString
  update_others created realname password false = return (error_text v lang)
  update_others created realname password true = do
    code ← update_realname realname
    code' ← update_password created password
    return user_updated

  unfoldable pub update_fields :
      (realname password role : Option CString) → Option (Option RecordSet) → Run CString
  update_fields realname password role none = return (error_text v lang)
  update_fields realname password role (some row) = do
    created ← lift (read_created row)
    allowed ← change_role role
    update_others created realname password allowed

  unfoldable pub update_known : (realname password role : Option CString) → Run CString
  update_known realname password role = do
    found ← run_query s select_created (some (vars_of (text user ∷ [])))
    row ← user_row found
    update_fields realname password role row

unfoldable pub user_list : CString → CString
unfolding bytes
user_list users = response (tagged (bytes "GetUserList") (tagged (bytes "Users") users))

-- NULL where there is no row.
unfoldable pub list_users : Option RecordSet → Run (Option CString)
list_users none = return none
list_users (some r) = do users ← lift (each_row user_entry [] r); return (some (user_list users))

unfoldable pub get_user_list : Sqlite → Run (Option CString)
get_user_list s = do found ← run_query s select_users none; list_users found

module _ (s : Sqlite) (v : Services) where
  unfoldable pub update_if_allowed :
      (realname password role : Option CString) (can_edit_access : ℤ) (lang : CString)
      → Option CString
      → Run CString
  update_if_allowed realname password role can_edit_access lang none = return (error_text v lang)
  update_if_allowed realname password role can_edit_access lang (some user) =
      update_known s v can_edit_access lang user realname password role

  unfoldable pub update_user :
      (username : CString) (realname password role : Option CString) (can_edit_access : ℤ)
      (session : Session) (lang : CString)
      → Run CString
  update_user username realname password role can_edit_access session lang = do
    user ← lift (effective_user session username can_edit_access)
    update_if_allowed realname password role can_edit_access lang user

  unfoldable pub delete_user : (username lang : CString) → Run CString
  unfolding bytes
  delete_user username lang =
      if str_eq username (bytes "admin") then return (error_text v lang) else (do
        code ← run_update s delete_from_users (some (vars_of (text username ∷ [])))
        return user_deleted)
