-- ===== src/WebHandler/Connection/Served.antt =====
-- How a GET is answered, from its first call to its page.
use opendias.Base.{
  ℕ, ◌-◌, ◌≡◌, refl, ◌≢◌, Bool, Option, none, some, [], ◌∷◌, drop, leb, arith, Bool-cases, inl, inr,
}
use opendias.Base.Exec.{Exec, ok}
use opendias.Base.CString.{CString, bytes, str_eq, strstr, starts_with}
use opendias.LinkedList.{Sll}
use opendias.Session.{placeholder, clear_old_sessions}
use opendias.Session.Table.{Table, lookup, keep, managed, IsNamed}
use opendias.Session.Refinement.{clear-keep}
use opendias.Validation.Fields.{validate_language}
use opendias.WebHandler.Site.{Site, paragraph}
use opendias.WebHandler.Language.{user_language, user_language-available}
use opendias.WebHandler.Role.{AccessRole}
use opendias.WebHandler.Get.Laws.{IsInstalled, build_page-returns, get_page-Returns}
use opendias.WebHandler.Post.Calls.{Page}
use opendias.WebHandler.Connection.{
  Request, ConnectionInfo, Server, Outcome, answered, opened, refused, max_clients, message_page,
  checked_url, open_connection, first_call, privileges_for, last_call,
}
use opendias.WebHandler.Connection.Visit.{IsUnused, find_session-returns}

-- The call ends with a value of the kind.
abbrev Yields : {A : Type 0} → (A → Type 0) → Exec A → Type 0
Yields {A = A} P m = (a : A) × (m ≡ ok a) × P a

lookup-keep :
    (oldest : ℕ) (uuid : CString) (t : Table)
    → lookup uuid t ≡ none
    → lookup uuid (keep oldest t) ≡ none
unfolding lookup keep
lookup-keep oldest uuid [] h = refl
lookup-keep oldest uuid ((k, d) ∷ t) h = ground (arith, lookup-keep oldest uuid t)

-- The pages stand in every language that a visitor may have.
abbrev pub IsReady : Site → Type 0
IsReady site = (lang : CString) → validate_language lang ≡ 1 → IsInstalled site lang

-- The first call answers the request, or opens a connection on which the last call answers it.
abbrev pub IsServed : Site → (CString → Option AccessRole) → Request → Outcome → Type 0
IsServed site access_role r (answered page) = Unit
IsServed site access_role r (opened info) =
    (page : Page) × (last_call site access_role r info ≡ ok page)
IsServed site access_role r refused = ⊥

module _ (site : Site) (ready : IsReady site) where
  message_page-returns :
      (status : ℕ) (key lang : CString)
      → validate_language lang ≡ 1
      → (page : Page) × (message_page site status key lang ≡ ok page)
  unfolding message_page
  message_page-returns status key lang is =
      let (content, e) =
        build_page-returns site lang (ready lang is) (paragraph (site.get_string key lang)) in
      rw e (_, refl)

  english : validate_language (bytes "en") ≡ 1
  unfolding validate_language opendias.Validation.Fields.is_one_of str_eq bytes
  english = refl

  checked_url-Yields :
      {A : Type 0} (P : A → Type 0) (url_orig : CString) (respond : Page → A)
      (continue : CString → Exec A)
      → ((page : Page) → P (respond page))
      → ((url : CString) → Yields P (continue url))
      → Yields P (checked_url site url_orig respond continue)
  unfolding checked_url
  checked_url-Yields P url_orig respond continue told go =
      let (page, e) = message_page-returns 400 (bytes "LOCAL_request_error") (bytes "en") english in
      elim (Bool-cases (starts_with url_orig (bytes "/opendias"))) [
        | inr other ↦ rw (other, e) (respond page, refl, told page)
        | inl ours ↦ elim (Bool-cases (strstr (drop 9 url_orig) (bytes ".."))) [
          | inl up ↦ rw (ours, up, e) (respond page, refl, told page)
          | inr down ↦ elim (Bool-cases (strstr (drop 9 url_orig) (bytes "favicon.ico"))) [
            | inl icon ↦ rw (ours, down, icon) (_, refl, told _)
            | inr page_url ↦ rw (ours, down, page_url) (go (drop 9 url_orig))
          ]
        ]
      ]

  last_call-returns :
      (access_role : CString → Option AccessRole) (r : Request) (info : ConnectionInfo)
      → r.method ≡ bytes "GET"
      → validate_language info.lang ≡ 1
      → (page : Page) × (last_call site access_role r info ≡ ok page)
  unfolding last_call str_eq bytes
  last_call-returns access_role r info get is =
      let (page, e, _) =
        checked_url-Yields (λ _. Unit) r.url_orig (λ page. page) _ (λ _. tt)
          λ url.
            let (file, f) =
              get_page-Returns site info.lang (ready info.lang is)
                (privileges_for site access_role 0 (bytes "GET") url info) url in
            rw (get, f) (_, refl, tt) in
      (page, e)

  open_connection-get :
      (processor : Bool) (method lang : CString) (id : Option CString)
      (found : Option (Sll CString)) (s : Server)
      → method ≡ bytes "GET"
      → (info : ConnectionInfo) × (open_connection site processor method lang id found s
          ≡ (s, opened info))
        × (info.lang ≡ lang)
  unfolding open_connection str_eq bytes
  open_connection-get processor method lang id found s get = rw get (_, refl, refl)

  -- Where the pages stand in every language, a GET with any cookie but the session "placeholder" is
  -- answered: its first call ends with a page, or with a connection on which the last call ends with a
  -- page. Neither uses a NULL pointer, whatever the address, the languages of the request, the role and
  -- the sessions, none of which has the placeholder's name or the new identifier.
  pub first_call-IsServed :
      (n age now : ℕ) (t : Table) (uuid : CString) (processor : Bool) (clients : ℕ)
      (access_role : CString → Option AccessRole) (r : Request)
      → IsNamed t
      → IsUnused uuid t
      → r.method ≡ bytes "GET"
      → r.o_session_id ≢ some placeholder
      → (s : Server) × (out : Outcome) × (first_call site now uuid processor r
            (record { manager = managed n age t; nr_of_clients = clients })
          ≡ ok (s, out))
        × IsServed site access_role r out
  unfolding first_call clear_old_sessions
  first_call-IsServed n age now t uuid processor clients access_role r named new get cookie =
      let lang : CString = user_language r.requested_lang r.accept_language in
      let is : validate_language lang ≡ 1 =
        user_language-available r.requested_lang r.accept_language in
      let ((s, out), e, served) =
        checked_url-Yields (λ a. IsServed site access_role r a.1) r.url_orig _ _ (λ _. tt)
          λ url. elim (Bool-cases (leb max_clients clients)) [
            | inl busy ↦
                let (page, p) = message_page-returns 503 (bytes "LOCAL_server_busy") lang is in
                rw (busy, p) (_, refl, tt)
            | inr room ↦
                let ((m, id, found), f) =
                  find_session-returns site n age now (keep (now - age) t) uuid
                    (lookup-keep (now - age) uuid t new.0, new.1) r.o_session_id cookie in
                let (info, o, l) =
                  open_connection-get processor r.method lang id found
                    (record { manager = m; nr_of_clients = clients }) get in
                rw (room, clear-keep n age (now - age) t named, f, o)
                  (_, refl, last_call-returns access_role r info get (rw l is))
          ] in
      (s, out, e, served)
