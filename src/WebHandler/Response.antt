-- ===== src/WebHandler/Response.antt =====
-- `send_page` of src/web_handler.c: the headers of a response, with the cookies of the session.
use opendias.Base.{ℕ, ◌-◌, Option, none, some, List, [], ◌∷◌, ◌++◌, if◌then◌else◌, ◌==◌, leb}
use opendias.Base.CString.{CString, bytes}
use opendias.Base.Int.{ℤ, pos, negsuc}
use opendias.LinkedList.{Sll}
use opendias.Validation.Keys.{get_post_data}
use opendias.WebHandler.Site.{Mimetype}

pub data Header : Type 0 where
  set_cookie : (name value : CString) (max_age : ℤ) → Header
  location : CString → Header
  content_type : Mimetype → Header

pub record Response : Type 0 where
  pub status : ℕ
  pub headers : List Header
  pub content : CString

-- `a - b`
unfoldable pub difference : ℕ → ℕ → ℤ
difference a b = if leb b a then pos (a - b) else negsuc (b - a - 1)

-- The data of an element of the session, where both are there.
unfoldable pub session_value : Option (Sll CString) → CString → Option CString
session_value none key = none
session_value (some session_data) key = get_post_data session_data (some key)

or_name : Option CString → CString → CString
or_name none other = other
or_name (some value) other = value

-- The cookies by which the pages know who is logged in; without a role, the name stands for it.
unfoldable pub login_cookies : ℕ → (realname role : Option CString) → List Header
unfolding bytes or_name
login_cookies max_age none role =
    set_cookie (bytes "realname") [] (negsuc 4) ∷ set_cookie (bytes "role") [] (negsuc 4) ∷ []
login_cookies max_age (some realname) role =
    set_cookie (bytes "realname") realname (difference max_age 1)
    ∷ set_cookie (bytes "role") (or_name role realname) (difference max_age 1)
    ∷ []

unfoldable pub session_cookies : ℕ → Option CString → Option (Sll CString) → List Header
unfolding bytes
session_cookies max_age none session_data = []
session_cookies max_age (some session_id) session_data =
    set_cookie (bytes "o_session_id") session_id (difference max_age 5)
    ∷ login_cookies max_age (session_value session_data (bytes "realname"))
        (session_value session_data (bytes "role"))

-- A redirection goes where the content says.
unfoldable pub send_page :
    (max_age status : ℕ) → Mimetype → CString → Option CString → Option (Sll CString) → Response
send_page max_age status mimetype page session_id session_data =
    let redirection = if status == 303 then location page ∷ [] else [] in
    record {
      status = status;
      headers =
          session_cookies max_age session_id session_data
          ++ (redirection ++ content_type mimetype ∷ []);
      content = page;
    }
