-- ===== src/WebHandler/Post/Visitor.antt =====
-- What a visitor whose role has no privileges can call.
use opendias.Base.{◌≡◌, refl, ◌⊎◌, inl, inr, false, Option, none}
use opendias.Base.CString.{CString}
use opendias.Base.Int.{pos}
use opendias.LinkedList.{Sll}
use opendias.Validation.Keys.{PostData}
use opendias.Validation.Actions.Table.{Action, check_login, logout, update_user}
use opendias.WebHandler.Site.{Site}
use opendias.WebHandler.Role.{AccessRole, all_of, privileges_of, role_of, access_checks}
use opendias.WebHandler.Post.{post_page}
use opendias.WebHandler.Post.Calls.{Call}
use opendias.WebHandler.Post.Access.{privilege, IsAllowed}
use opendias.WebHandler.Post.Authorized.{Calls, IsAuthorized, post_page-Calls_iff}

-- The actions that every visitor has.
abbrev pub IsPublic : Action → Type 0
IsPublic a = (a ≡ check_login) ⊎ ((a ≡ logout) ⊎ (a ≡ update_user))

allowed-IsPublic : (a : Action) → IsAllowed (privilege (all_of (pos 0)) a) → IsPublic a
allowed-IsPublic check_login h = inl refl
allowed-IsPublic logout h = inr (inl refl)
allowed-IsPublic update_user h = inr (inr refl)
allowed-IsPublic a h = absurd (cc)

-- Where the program is not built open to all, a visitor whose role has no row in `access_role` gets
-- no further than the handlers for the login, the logout and the change of the own user.
pub visitor-IsPublic :
    (site : Site) (access_role : CString → Option AccessRole) (lang : CString)
    (session : Option (Sll CString)) (post : PostData) (c : Call)
    → access_role (role_of session) ≡ none
    → Calls (post_page site (access_checks false access_role session) lang session post) c
    → (a : Action) × IsPublic a
      × IsAuthorized site (access_checks false access_role session) lang session post a c
unfolding access_checks privileges_of
visitor-IsPublic site access_role lang session post c stranger h =
    let (a, is) =
      (post_page-Calls_iff site (access_checks false access_role session) lang session post c).0
        h in
    (a, allowed-IsPublic a (rw stranger at is.allowed), is)
