-- ===== src/WebHandler/Connection.antt =====
-- `answer_to_connection` and `request_completed` of src/web_handler.c: the first call for a request
-- makes its `con_info`, the next ones answer it. Cookies, headers, the time, the identifier that
-- `uuid_generate` makes and whether `MHD_create_post_processor` succeeds are arguments.
pub mod Clients
pub mod Served
pub mod Visit
use opendias.Base.{
  ℕ, ◌+◌, ◌%◌, ◌^◌, ◌-◌, ◌≡◌, Bool, true, false, not, ◌&&◌, ◌||◌, Option, none, some, List, [], ◌∷◌,
  drop, if◌then◌else◌, ◌==◌, leb, is_some,
}
use opendias.Base.Exec.{Exec, ok, fault, ◌>>=◌}
use opendias.Base.CString.{CString, bytes, str_eq, strstr, starts_with}
use opendias.Base.Int.{pos}
use opendias.LinkedList.{Sll, sll_init}
use opendias.Validation.Keys.{PostData}
use opendias.Session.{Manager, create_session, get_session, clear_old_sessions}
use opendias.WebHandler.Site.{Site, Privileges, Mimetype, html, paragraph}
use opendias.WebHandler.Files.{build_page}
use opendias.WebHandler.Language.{user_language}
use opendias.WebHandler.Role.{AccessRole, all_of, access_checks}
use opendias.WebHandler.Get.{File, get_page}
use opendias.WebHandler.Post.{post_page}
use opendias.WebHandler.Post.Branches.{not_null}
use opendias.WebHandler.Post.Calls.{Body, text, Page}

pub record Request : Type 0 where
  pub url_orig : CString
  pub method : CString
  pub requested_lang : Option CString
  pub accept_language : Option CString
  pub o_session_id : Option CString

-- `struct connection_info_struct`; a POST has its post processor.
pub record ConnectionInfo : Type 0 where
  pub is_post : Bool
  pub post_data : PostData
  pub lang : CString
  pub session_data : Option (Sll CString)
  pub session_id : Option CString

-- The sessions and the global `nr_of_clients`, an `unsigned int`.
pub record Server : Type 0 where
  pub manager : Manager
  pub nr_of_clients : ℕ

-- A page, the connection to go on with, or MHD_NO.
pub data Outcome : Type 0 where
  answered : Page → Outcome
  opened : ConnectionInfo → Outcome
  refused : Outcome

abbrev pub max_clients : ℕ
max_clients = 5

module _ (site : Site) where
  -- A page with a text of the program in it, which `send_page_bin` sends.
  unfoldable pub message_page : ℕ → CString → CString → Exec Page
  message_page status key lang = do
    output ← build_page site (paragraph (site.get_string key lang)) lang
    content ← not_null output
    ok (record { status = status; mimetype = html; body = text content })

  -- The tests of the address: `continue` gets it without the prefix.
  unfoldable pub checked_url : {A : Type 0} → CString → (Page → A) → (CString → Exec A) → Exec A
  unfolding bytes strstr starts_with
  checked_url url_orig respond continue =
      let url = drop 9 url_orig in
      if not (starts_with url_orig (bytes "/opendias"))
      then (do
        page ← message_page 400 (bytes "LOCAL_request_error") (bytes "en")
        ok (respond page))
      else if strstr url (bytes "..")
      then (do
        page ← message_page 400 (bytes "LOCAL_request_error") (bytes "en")
        ok (respond page))
      else if strstr url (bytes "favicon.ico")
      then ok (respond (record { status = 404; mimetype = html; body = text [] }))
      else continue url

  -- A new session, if there is room for it.
  unfoldable pub new_session :
      (now : ℕ) (uuid : CString) → Manager → Exec (Manager × Option CString × Option (Sll CString))
  new_session now uuid m =
      let (m', id) = create_session uuid now m in
      (do (m'', found) ← get_session now id m'; ok (m'', id, found))

  unfoldable pub find_session :
      (now : ℕ) (uuid : CString)
      → Option CString
      → Manager
      → Exec (Manager × Option CString × Option (Sll CString))
  find_session now uuid sid m = do
    (m', found) ← get_session now sid m
    if is_some found then ok (m', sid, found) else new_session now uuid m'

  -- `con_info` for a request, and one client more for a POST.
  unfoldable pub open_connection :
      (processor : Bool)
      → CString
      → CString
      → Option CString
      → Option (Sll CString)
      → Server
      → Server × Outcome
  unfolding bytes str_eq
  open_connection processor method lang id found s =
      let info : Bool → ConnectionInfo = λ is_post. record {
        is_post = is_post;
        post_data = sll_init;
        lang = lang;
        session_data = found;
        session_id = id;
      } in
      if str_eq method (bytes "POST")
      then if processor
        then (record s { nr_of_clients = (s.nr_of_clients + 1) % 2 ^ 32 }, opened (info true))
        else (s, refused)
      else (s, opened (info false))

  unfoldable pub first_call :
      (now : ℕ) (uuid : CString) (processor : Bool) → Request → Server → Exec (Server × Outcome)
  unfolding bytes
  first_call now uuid processor r s =
      checked_url r.url_orig (λ page. (s, answered page))
        (λ _.
          let lang = user_language r.requested_lang r.accept_language in
          if leb max_clients s.nr_of_clients
          then (do page ← message_page 503 (bytes "LOCAL_server_busy") lang; ok (s, answered page))
          else (do
            m ← clear_old_sessions now s.manager
            (m', id, found) ← find_session now uuid r.o_session_id m
            ok (open_connection processor r.method lang id found (record s { manager = m' }))))

  -- The privileges that the later calls go by.
  unfoldable pub privileges_for :
      (CString → Option AccessRole)
      → (upload_data_size : ℕ) → CString
      → CString
      → ConnectionInfo
      → Privileges
  unfolding bytes str_eq strstr
  privileges_for access_role upload_data_size method url info =
      let page =
        str_eq method (bytes "GET")
        && (strstr url (bytes ".html") || strstr url (bytes "/scans/")) in
      if upload_data_size == 0 && (page || str_eq method (bytes "POST"))
      then access_checks site.build.open_to_all access_role info.session_data
      else all_of (pos 0)

  -- A GET, or a POST whose data are all there.
  unfoldable pub last_call : (CString → Option AccessRole) → Request → ConnectionInfo → Exec Page
  unfolding bytes str_eq strstr
  last_call access_role r info =
      checked_url r.url_orig (λ page. page)
        (λ url.
          let privs = privileges_for access_role 0 r.method url info in
          if str_eq r.method (bytes "GET")
          then (do
            file ← get_page site info.lang privs url
            ok (record {
              status = file.status;
              mimetype = file.mimetype;
              body = text file.content;
            }))
          else if str_eq r.method (bytes "POST")
          then if strstr url (bytes "/dynamic")
            then post_page site privs info.lang info.session_data info.post_data
            else ok (record { status = 200; mimetype = html; body = text [] })
          else message_page 400 (bytes "LOCAL_server_error") info.lang)

-- The counter goes down, as an `unsigned int`, when a POST ends.
unfoldable pub request_completed : ConnectionInfo → Server → Server
request_completed info s =
    if info.is_post then record s { nr_of_clients = (s.nr_of_clients + 2 ^ 32 - 1) % 2 ^ 32 } else s
