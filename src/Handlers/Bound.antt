-- ===== src/Handlers/Bound.antt =====
-- The placeholders of the statements of the handlers.
use opendias.Base.{ℕ, ◌≡◌, refl, inl, inr, Option, some, [], ◌∷◌, length, Any}
use opendias.Base.CString.{CString, bytes, count}
use opendias.Base.Int.{ℤ}
use opendias.Validation.Fields.{check_update_key}
use opendias.Database.{text, Statement, Sqlite}
use opendias.Database.Queries.{statement}
use opendias.Database.Effects.{Only, Only-map}
use opendias.PageRender.Services.{Services}
use opendias.PageRender.Login.{Session, check_login}
use opendias.PageRender.Login.Statements.{IsLogin, look, note, compare, check_login-Only}
use opendias.PageRender.Users.{update_user, delete_user, delete_from_users}
use opendias.PageRender.Users.Changes.{
  IsChange, look, look_again, make, give_role, rename, lock, update_user-Only,
}
use opendias.PageRender.Users.Done.{delete_user-Only}
use opendias.DocEditor.{update_doc_details}
use opendias.DocEditor.Columns.{IsUpdate, columns, update_sql, update_doc_details-Only}

-- One value for each placeholder.
abbrev pub IsBoundStatement : Statement → Type 0
IsBoundStatement t = count b'?' t.sql ≡ length t.values

login-bound : (username : CString) (t : Statement) → IsLogin username t → IsBoundStatement t
unfolding bytes count
login-bound username t look = refl
login-bound username t (note hash) = refl
login-bound username t (compare hash) = refl

change-bound :
    (s : Sqlite) (v : Services) (can_edit_access : ℤ) (user : CString)
    (realname password role : Option CString) (t : Statement)
    → IsChange s v can_edit_access user realname password role t
    → IsBoundStatement t
unfolding bytes count
change-bound s v can_edit_access user realname password role t look = refl
change-bound s v can_edit_access user realname password role t look_again = refl
change-bound s v can_edit_access user realname password role t (make y) = refl
change-bound s v can_edit_access user realname password role t (give_role y r e) = refl
change-bound s v can_edit_access user realname password role t (rename n e) = refl
change-bound s v can_edit_access user realname password role t (lock created p is e) = refl

column-bound :
    (column : CString) → Any (λ c. c ≡ column) columns → count b'?' (update_sql column) ≡ 2
unfolding update_sql bytes count
column-bound column (inl e) = rw (← e) refl
column-bound column (inr (inl e)) = rw (← e) refl
column-bound column (inr (inr (inl e))) = rw (← e) refl
column-bound column (inr (inr (inr (inl e)))) = rw (← e) refl
column-bound column (inr (inr (inr (inr (inl e))))) = rw (← e) refl
column-bound column (inr (inr (inr (inr (inr (inl e)))))) = rw (← e) refl
column-bound column (inr (inr (inr (inr (inr (inr (inl e))))))) = rw (← e) refl
column-bound column (inr (inr (inr (inr (inr (inr (inr x))))))) = elim x [ ]

update-bound : (docid : CString) (t : Statement) → IsUpdate docid t → IsBoundStatement t
update-bound docid t (column, m, value, e) = rw e (column-bound column m)

deletion-bound :
    (username : CString) (t : Statement)
    → t ≡ statement delete_from_users (text username ∷ [])
    → IsBoundStatement t
unfolding bytes count
deletion-bound username t e = rw e refl

-- Whatever the arguments, each statement of `checkLogin`, `updateUser`, `deleteUser` and, with a key
-- that the validation accepts, `updateDocDetails` binds one value for each of its placeholders.
pub statements-IsBoundStatement :
    (s : Sqlite) (v : Services) (username password lang : CString) (now : ℕ) (session : Session)
    (realname new_password role : Option CString) (can_edit_access : ℤ) (docid kkey : CString)
    (vvalue : Option CString)
    → check_update_key (some kkey) ≡ 0
    → Only IsBoundStatement (check_login s v username password lang now session)
      × Only IsBoundStatement
          (update_user s v username realname new_password role can_edit_access session lang)
      × Only IsBoundStatement (delete_user s v username lang)
      × Only IsBoundStatement (update_doc_details s docid kkey vvalue)
statements-IsBoundStatement s v username password lang now session realname new_password role
      can_edit_access docid kkey vvalue a =
    (
      Only-map (login-bound username) (check_login-Only s v username password lang now session),
      Only-map
          (λ t (user, _, c). change-bound s v can_edit_access user realname new_password role t c)
          (update_user-Only s v username realname new_password role can_edit_access session lang),
      Only-map (λ t (e, _). deletion-bound username t e) (delete_user-Only s v username lang),
      Only-map (update-bound docid) (update_doc_details-Only s docid kkey vvalue a),
    )
