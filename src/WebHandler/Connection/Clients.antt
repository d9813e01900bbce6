-- ===== src/WebHandler/Connection/Clients.antt =====
-- The clients that post, and the counter of them.
use opendias.Base.{
  ℕ, ◌+◌, ◌≡◌, refl, sym, ◌≤◌, ◌<◌, Bool, Option, List, [], ◌∷◌, ◌++◌, drop, if◌then◌else◌, leb,
  leb_iff, arith, Bool-cases, inl, inr,
}
use opendias.Base.Exec.{ok, ◌>>=◌, >>=-eq-ok, ok-injective}
use opendias.Base.CString.{CString, bytes, str_eq, strstr, starts_with}
use opendias.LinkedList.{Sll}
use opendias.Session.{Manager, clear_old_sessions}
use opendias.WebHandler.Site.{Site}
use opendias.WebHandler.Language.{user_language}
use opendias.WebHandler.Post.Calls.{Page}
use opendias.WebHandler.Connection.{
  Request, ConnectionInfo, Server, Outcome, answered, opened, refused, max_clients, message_page,
  checked_url, find_session, open_connection, first_call, request_completed,
}

-- The connections that are open for POSTs.
unfoldable pub posts : List ConnectionInfo → ℕ
posts [] = 0
posts (info ∷ rest) = if info.is_post then 1 + posts rest else posts rest

-- The connection that a first call opens.
abbrev pub joined : Outcome → List ConnectionInfo
joined (answered page) = []
joined (opened info) = info ∷ []
joined refused = []

posts-append : (a b : List ConnectionInfo) → posts (a ++ b) ≡ posts a + posts b
unfolding posts
posts-append [] b = omega arith
posts-append (info ∷ a) b = ground (arith, posts-append a b)

-- A first call counts the connection that it opens.
abbrev Counts : Server → Server × Outcome → Type 0
Counts s r =
    (r.0.nr_of_clients ≡ s.nr_of_clients + posts (joined r.1)) × (r.0.nr_of_clients ≤ max_clients)

module _ (site : Site) where
  open_connection-Counts :
      (processor : Bool) (method lang : CString) (id : Option CString)
      (found : Option (Sll CString)) (s : Server)
      → s.nr_of_clients < max_clients
      → Counts s (open_connection site processor method lang id found s)
  unfolding open_connection posts
  open_connection-Counts processor method lang id found s room =
      elim (Bool-cases (str_eq method (bytes "POST"))) [
        | inl post ↦ elim (Bool-cases processor) [
          | inl made ↦ rw (post, made) (omega arith, omega arith)
          | inr failed ↦ rw (post, failed) (omega arith, omega arith)
        ]
        | inr other ↦ rw other (omega arith, omega arith)
      ]

  message-Counts :
      (n : ℕ) (key lang : CString) (s : Server) (r : Server × Outcome)
      → s.nr_of_clients ≤ max_clients
      → (message_page site n key lang >>= λ page. ok (s, answered page)) ≡ ok r
      → Counts s r
  unfolding posts
  message-Counts n key lang s r few e =
      let (page, made, same) = >>=-eq-ok (message_page site n key lang) _ e in
      rw (sym (ok-injective same)) (omega arith, few)

  session-Counts :
      (now : ℕ) (uuid : CString) (processor : Bool) (req : Request) (lang : CString) (s : Server)
      (r : Server × Outcome)
      → s.nr_of_clients < max_clients
      → (do
        m ← clear_old_sessions now s.manager
        (m', id, found) ← find_session site now uuid req.o_session_id m
        ok (open_connection site processor req.method lang id found (record s { manager = m' })))
        ≡ ok r
      → Counts s r
  session-Counts now uuid processor req lang s r room e =
      let (m, cleared, e') = >>=-eq-ok (clear_old_sessions now s.manager) _ e in
      let ((m', id, found), got, e'') =
        >>=-eq-ok (find_session site now uuid req.o_session_id m) _ e' in
      rw (sym (ok-injective e''))
        (open_connection-Counts processor req.method lang id found (record s { manager = m' }) room)

  answered-Counts :
      (page : Page) (s : Server) (r : Server × Outcome)
      → s.nr_of_clients ≤ max_clients
      → ok (s, answered page) ≡ ok r
      → Counts s r
  unfolding posts
  answered-Counts page s r few e = rw (sym (ok-injective e)) (omega arith, few)

  first_call-Counts :
      (now : ℕ) (uuid : CString) (processor : Bool) (req : Request) (s : Server)
      (r : Server × Outcome)
      → s.nr_of_clients ≤ max_clients
      → first_call site now uuid processor req s ≡ ok r
      → Counts s r
  unfolding first_call checked_url
  first_call-Counts now uuid processor req s r few e =
      let url = drop 9 req.url_orig in
      let lang = user_language req.requested_lang req.accept_language in
      elim (Bool-cases (starts_with req.url_orig (bytes "/opendias"))) [
        | inr foreign ↦ message-Counts _ _ _ s r few (rw foreign at e)
        | inl own ↦ elim (Bool-cases (strstr url (bytes ".."))) [
          | inl outside ↦ message-Counts _ _ _ s r few (rw (own, outside) at e)
          | inr inside ↦ elim (Bool-cases (strstr url (bytes "favicon.ico"))) [
            | inl icon ↦ answered-Counts _ s r few (rw (own, inside, icon) at e)
            | inr page ↦ elim (Bool-cases (leb max_clients s.nr_of_clients)) [
              | inl busy ↦ message-Counts _ _ _ s r few (rw (own, inside, page, busy) at e)
              | inr room ↦
                  session-Counts now uuid processor req lang s r
                    (ground (arith, leb_iff max_clients s.nr_of_clients))
                    (rw (own, inside, page, room) at e)
            ]
          ]
        ]
      ]

-- The server and the connections that are open.
pub record Clients : Type 0 where
  pub server : Server
  pub connections : List ConnectionInfo

-- A request comes, and its first call returns; or the request of a connection is completed.
pub data Step (site : Site) (c c' : Clients) : Type 0 where
  came :
      (now : ℕ) (uuid : CString) (processor : Bool) (req : Request) (r : Server × Outcome)
      → first_call site now uuid processor req c.server ≡ ok r
      → c' ≡ record { server = r.0; connections = joined r.1 ++ c.connections }
      → Step site c c'
  ended :
      (before after : List ConnectionInfo) (info : ConnectionInfo)
      → c.connections ≡ before ++ info ∷ after
      → c' ≡ record { server = request_completed info c.server; connections = before ++ after }
      → Step site c c'

-- The states from the start of the program, which has no client.
pub data Reach (site : Site) (m : Manager) : Clients → Type 0 where
  start :
      Reach site m (record { server = record { manager = m; nr_of_clients = 0 }; connections = [] })
  next : {c c' : Clients} → Reach site m c → Step site c c' → Reach site m c'

-- The counter is right, and the limit is kept.
abbrev pub IsCounted : Clients → Type 0
IsCounted c = (c.server.nr_of_clients ≡ posts c.connections) × (posts c.connections ≤ max_clients)

ended-IsCounted :
    (before after : List ConnectionInfo) (info : ConnectionInfo) (s : Server)
    → IsCounted (record { server = s; connections = before ++ info ∷ after })
    → IsCounted (record { server = request_completed info s; connections = before ++ after })
unfolding request_completed posts
ended-IsCounted before after info s (same, few) =
    let split = posts-append before (info ∷ after) in
    let rest = posts-append before after in
    elim (Bool-cases info.is_post) [
      | inl post ↦ rw post (ground arith, ground arith)
      | inr other ↦ rw other (ground arith, ground arith)
    ]

Step-IsCounted : (site : Site) (c c' : Clients) → IsCounted c → Step site c c' → IsCounted c'
Step-IsCounted site c c' (same, few) (came now uuid processor req r e after) =
    let (count, limit) = first_call-Counts site now uuid processor req c.server r (omega arith) e in
    let split = posts-append (joined r.1) c.connections in rw after (omega arith, omega arith)
Step-IsCounted site c c' is (ended before after info e result) =
    rw result (ended-IsCounted before after info c.server (rw e at is))

-- However requests come and end, `nr_of_clients` is the number of the POSTs that are open, it never
-- wraps, and there are never more than MAXCLIENTS of them.
pub Reach-IsCounted : (site : Site) (m : Manager) (c : Clients) → Reach site m c → IsCounted c
unfolding posts
Reach-IsCounted site m _ start = (refl, omega arith)
Reach-IsCounted site m c' (next {c} r s) = Step-IsCounted site c c' (Reach-IsCounted site m c r) s
