-- ===== src/Handlers/Stranger.antt =====
-- What a visitor without privileges can do to the database.
use opendias.Base.{◌≡◌, ◌⊎◌, inl, inr, false, Option, none, some}
use opendias.Base.Exec.{fault}
use opendias.Base.CString.{CString, bytes}
use opendias.Base.Int.{pos}
use opendias.LinkedList.{Sll, Element, sll_search_keys}
use opendias.Validation.Keys.{PostData}
use opendias.Validation.Actions.Table.{Action}
use opendias.Database.{Statement, Sqlite}
use opendias.Database.Effects.{Only, Only-return, Only-lift, Only-map, Only->>=}
use opendias.PageRender.Services.{Services}
use opendias.PageRender.Login.{Session}
use opendias.PageRender.Login.Statements.{IsLogin, check_login-Only}
use opendias.PageRender.Users.{is_one}
use opendias.PageRender.Users.Changes.{IsMeant, IsChange, update_user-Only}
use opendias.WebHandler.Site.{Site}
use opendias.WebHandler.Role.{AccessRole, all_of, privileges_of, role_of, access_checks}
use opendias.WebHandler.Post.{post_page}
use opendias.WebHandler.Post.Calls.{Arg, Call, call_check_login, call_update_user}
use opendias.WebHandler.Post.Access.{call}
use opendias.WebHandler.Post.Authorized.{Calls}
use opendias.WebHandler.Post.Visitor.{IsPublic, visitor-IsPublic}
use opendias.Handlers.{Machine, needed, session_of, handle}

-- A statement of a login, or a change of the session's own user that needs no privilege.
abbrev pub IsHarmless : Sqlite → Services → Session → Statement → Type 0
IsHarmless s v session t =
    ((username : CString) × IsLogin username t)
    ⊎ ((user : CString) × ((e : Element CString) × (sll_search_keys session
              (some (bytes "username"))
            ≡ some e)
          × (e.value ≡ some user))
        × (realname : Option CString) × (password : Option CString) × (role : Option CString)
        × IsChange s v (pos 0) user realname password role t)

needed-Only : (P : Statement → Type 0) (a : Arg) → Only P (needed a)
needed-Only P none = Only-lift P fault
needed-Only P (some s) = Only-return P s

module _ (m : Machine) (session : Option (Sll CString)) where
  abbrev P : Statement → Type 0
  P = IsHarmless m.sqlite m.services (session_of m session)

  login-Only :
      (username password : Arg) (lang : CString)
      → Only P (handle m (call_check_login username password lang session))
  unfolding handle
  login-Only username password lang = Only->>= P _ _ (needed-Only P username) λ u.
      Only->>= P _ _ (needed-Only P password) λ p.
        Only->>= P _ _
          (Only-map (λ t l. inl (u, l))
            (check_login-Only m.sqlite m.services u p lang m.now (session_of m session)))
          λ found. Only-return P _

  own-IsHarmless :
      (username : CString) (realname password role : Option CString) (t : Statement)
      → (user : CString) × IsMeant (session_of m session) username (pos 0) user
        × IsChange m.sqlite m.services (pos 0) user realname password role t
      → P t
  unfolding is_one
  own-IsHarmless username realname password role t (user, inl (_, own), c) =
      inr (user, own, realname, password, role, c)
  own-IsHarmless username realname password role t (user, inr (_, z, _), c) = cc

  update_user-own :
      (username realname password role : Arg) (lang : CString)
      → Only P (handle m (call_update_user username realname password role (pos 0) session lang))
  unfolding handle
  update_user-own username realname password role lang =
      Only->>= P _ _ (needed-Only P username) λ u.
        Only->>= P _ _
          (Only-map (own-IsHarmless u realname password role) (
            update_user-Only m.sqlite m.services u realname password role (pos 0)
              (session_of m session) lang))
          λ answer. Only-return P _

  public-Only :
      (site : Site) (lang : CString) (post : PostData) (a : Action)
      → IsPublic a
      → Only P (handle m (call site (all_of (pos 0)) lang session a post))
  unfolding handle
  public-Only site lang post a (inl e) = rw e (login-Only _ _ lang)
  public-Only site lang post a (inr (inl e)) = rw e (Only-return P _)
  public-Only site lang post a (inr (inr e)) = rw e (update_user-own _ _ _ _ lang)

  -- Where the program is not built open to all, the POSTs of a visitor whose role has no row in
  -- `access_role` give the database only the statements of a login, and changes of the user of the
  -- visitor's session; none of them makes a user or gives a role.
  pub stranger-Only :
      (site : Site) (access_role : CString → Option AccessRole) (lang : CString) (post : PostData)
      (c : Call)
      → access_role (role_of session) ≡ none
      → Calls (post_page site (access_checks false access_role session) lang session post) c
      → Only P (handle m c)
  unfolding access_checks privileges_of
  stranger-Only site access_role lang post c stranger h =
      let (a, public, is) = visitor-IsPublic site access_role lang session post c stranger h in
      rw (is.called, stranger) (public-Only site lang is.checked a public)
