-- ===== src/PageRender/Login/Statements.antt =====
-- The statements of a login.
use opendias.Base.{ℕ, ◌+◌, Option, none, some, [], ◌∷◌, ◌++◌, leb, Bool-cases, inl, inr}
use opendias.Base.Exec.{fault}
use opendias.Base.CString.{CString, bytes}
use opendias.LinkedList.{Element, sll_search_keys, sll_delete_key}
use opendias.Database.{text, Statement, Sqlite, RecordSet, read_data, next_row}
use opendias.Database.Queries.{statement}
use opendias.Database.Effects.{
  Only, Only-return, Only-lift, Only->>=, Only-run_query, Only-run_update,
}
use opendias.PageRender.Services.{Services}
use opendias.PageRender.Login.{
  Session, next_login_attempt, retry_throttle, select_created, update_last_access, select_login,
  refused_login, keep_login, match_password, match_user, try_login, throttled, check_attempt,
  check_login,
}

-- A look at the user, the note of the time of a login, and a look at the user with a hash.
pub data IsLogin (username : CString) : Statement → Type 0 where
  look : IsLogin username (statement select_created (text username ∷ []))
  note :
      (hash : CString)
      → IsLogin username (statement update_last_access (text username ∷ text hash ∷ []))
  compare :
      (hash : CString) → IsLogin username (statement select_login (text username ∷ text hash ∷ []))

module _ (s : Sqlite) (v : Services) (username password lang : CString) (now : ℕ) where
  keep_login-Only :
      (session : Session) (realname role : CString) (more : Option RecordSet)
      → Only (IsLogin username) (keep_login session username realname role more)
  unfolding keep_login
  keep_login-Only session realname role (some second) = Only-return _ _
  keep_login-Only session realname role none = Only-return _ _

  match_password-Only :
      (session : Session) (found : Option RecordSet)
      → Only (IsLogin username) (match_password s v username password lang now session found)
  unfolding match_password refused_login
  match_password-Only session none = Only-return _ _
  match_password-Only session (some r) =
      Only->>= _ _ _ (Only-lift _ (read_data r (bytes "realname"))) λ realname.
        Only->>= _ _ _ (Only-lift _ (read_data r (bytes "role")))
          λ role. keep_login-Only session realname role (next_row r)

  match_user-Only :
      (session : Session) (found : Option RecordSet)
      → Only (IsLogin username) (match_user s v username password lang now session found)
  unfolding match_user refused_login
  match_user-Only session none = Only-return _ _
  match_user-Only session (some r) =
      Only->>= _ _ _ (Only-lift _ (read_data r (bytes "created"))) λ created.
        let hash = v.str2md5 (created ++ (password ++ username)) in
        Only->>= _ _ _
          (Only-run_update _ s update_last_access (text username ∷ text hash ∷ []) (note hash))
          λ code.
            Only->>= _ _ _
              (Only-run_query _ s select_login (text username ∷ text hash ∷ []) (compare hash))
              λ found. match_password-Only session found

  try_login-Only :
      (session : Session)
      → Only (IsLogin username) (try_login s v username password lang now session)
  unfolding try_login
  try_login-Only session =
      Only->>= _ _ _ (Only-run_query _ s select_created (text username ∷ []) look)
        λ found. match_user-Only session found

  throttled-Only :
      (session : Session) (last : Option CString)
      → Only (IsLogin username) (throttled s v username password lang now session last)
  unfolding throttled
  throttled-Only session none = Only-lift _ fault
  throttled-Only session (some last) =
      elim (Bool-cases (leb now (v.read_time last + retry_throttle))) [
        | inl soon ↦ rw soon (Only-return _ _)
        | inr late ↦ rw late (try_login-Only (sll_delete_key session next_login_attempt))
      ]

  check_attempt-Only :
      (session : Session) (noted : Option (Element CString))
      → Only (IsLogin username) (check_attempt s v username password lang now session noted)
  unfolding check_attempt
  check_attempt-Only session none = try_login-Only session
  check_attempt-Only session (some last) = throttled-Only session last.value

  pub check_login-Only :
      (session : Session)
      → Only (IsLogin username) (check_login s v username password lang now session)
  unfolding check_login
  check_login-Only session =
      check_attempt-Only session (sll_search_keys session (some next_login_attempt))
