-- ===== src/PageRender/Login.antt =====
-- src/pageRender.c: `checkLogin` and `doLogout`. The session's data are a list that is empty where
-- the pointer is NULL; the time of the call is an argument.
pub mod Outcome
pub mod Statements
pub mod Identity
pub mod Throttle
pub mod Logout
use opendias.Base.{
  ℕ, ◌+◌, ◌≡◌, Bool, true, false, Option, none, some, List, [], ◌∷◌, ◌++◌, if◌then◌else◌, leb,
}
use opendias.Base.Exec.{Exec, ok, fault}
use opendias.Base.CString.{CString, bytes, str_eq}
use opendias.LinkedList.{Element, Sll, sll_insert, sll_search_keys, sll_delete_key, set_data}
use opendias.Database.{Value, text, Statement, History, Sqlite, RecordSet, read_data, next_row}
use opendias.Database.Run.{Run, return, ◌>>=◌, lift, run_query, run_update}
use opendias.Database.Binding.{vars_of}
use opendias.PageRender.Services.{Services, tagged, response}

abbrev pub Session : Type 0
Session = Sll CString

abbrev pub next_login_attempt : CString
next_login_attempt = bytes "next_login_attempt"

abbrev pub retry_throttle : ℕ
retry_throttle = 5

abbrev pub select_created : CString
select_created = bytes "SELECT created     FROM user_access     WHERE username = ?"

abbrev pub update_last_access : CString
update_last_access =
    bytes
      "UPDATE user_access     SET last_access = datetime('now')     WHERE username = ?     AND password = ? "

abbrev pub select_login : CString
select_login =
    bytes "SELECT realname, role     FROM user_access     WHERE username = ?     AND password = ?"

unfoldable pub login_done : CString
unfolding bytes
login_done = response (tagged (bytes "Login") (tagged (bytes "result") (bytes "OK")))

unfoldable pub login_failed : Services → CString → CString → CString
unfolding bytes
login_failed v key lang = response (
    tagged (bytes "Login") (
      tagged (bytes "result") (bytes "FAIL")
      ++ (tagged (bytes "message") (v.get_string key lang)
          ++ tagged (bytes "retry_throttle") (bytes "5"))))

-- A wrong user name or password: the time is noted in the session.
unfoldable pub refused_login : Services → CString → ℕ → Session → Run (Session × Option CString)
unfolding bytes
refused_login v lang now session = return (
  sll_insert session (some next_login_attempt) (some (v.print_time now)),
  some (login_failed v (bytes "LOCAL_bad_login") lang),
)

-- More than one row with the name and the password is an error of the program.
unfoldable pub keep_login :
    Session → (username realname role : CString) → Option RecordSet → Run (Session × Option CString)
unfolding bytes
keep_login session username realname role (some second) = return (session, none)
keep_login session username realname role none =
    let named = sll_insert session (some (bytes "username")) (some username) in
    let known = sll_insert named (some (bytes "realname")) (some realname) in
    return (sll_insert known (some (bytes "role")) (some role), some login_done)

module _ (s : Sqlite) (v : Services) (username password lang : CString) (now : ℕ) where
  unfoldable pub match_password : Session → Option RecordSet → Run (Session × Option CString)
  unfolding bytes
  match_password session none = refused_login v lang now session
  match_password session (some r) = do
    realname ← lift (read_data r (bytes "realname"))
    role ← lift (read_data r (bytes "role"))
    keep_login session username realname role (next_row r)

  unfoldable pub match_user : Session → Option RecordSet → Run (Session × Option CString)
  unfolding bytes
  match_user session none = refused_login v lang now session
  match_user session (some r) = do
    created ← lift (read_data r (bytes "created"))
    let hash = v.str2md5 (created ++ (password ++ username))
    code ← run_update s update_last_access (some (vars_of (text username ∷ text hash ∷ [])))
    found ← run_query s select_login (some (vars_of (text username ∷ text hash ∷ [])))
    match_password session found

  unfoldable pub try_login : Session → Run (Session × Option CString)
  try_login session = do
    found ← run_query s select_created (some (vars_of (text username ∷ [])))
    match_user session found

  -- Within the throttle the time is noted anew; behind it the last attempt is forgotten.
  unfoldable pub throttled : Session → Option CString → Run (Session × Option CString)
  unfolding bytes
  throttled session none = lift fault
  throttled session (some last) =
      if leb now (v.read_time last + retry_throttle)
      then return (
        set_data session next_login_attempt (v.print_time now),
        some (login_failed v (bytes "LOCAL_login_retry_too_soon") lang),
      )
      else try_login (sll_delete_key session next_login_attempt)

  unfoldable pub check_attempt : Session → Option (Element CString) → Run (Session × Option CString)
  check_attempt session none = try_login session
  check_attempt session (some last) = throttled session last.value

  unfoldable pub check_login : Session → Run (Session × Option CString)
  check_login session = check_attempt session (sll_search_keys session (some next_login_attempt))

-- The keys that a logout takes out of the session, each once.
abbrev pub login_keys : List CString
login_keys = bytes "next_login_attempt" ∷ bytes "username" ∷ bytes "realname" ∷ bytes "role" ∷ []

unfoldable pub delete_keys : List CString → Session → Session
delete_keys [] session = session
delete_keys (key ∷ keys) session = delete_keys keys (sll_delete_key session key)

unfoldable pub do_logout : Session → Session × CString
unfolding bytes
do_logout session = (
  delete_keys login_keys session,
  response (tagged (bytes "Logout") (tagged (bytes "result") (bytes "OK"))),
)
