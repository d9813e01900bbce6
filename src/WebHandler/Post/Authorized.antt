-- ===== src/WebHandler/Post/Authorized.antt =====
-- When a POST calls a handler.
use opendias.Base.{
  ℕ, zero, suc, ap, sym, ◌∙◌, ◌≤◌, ◌≡◌, refl, ◌≢◌, ◌↔◌, ◌⊎◌, inl, inr, Bool, true, false, not, ◌&&◌,
  Option, none, some, List, [], ◌∷◌, if◌then◌else◌, ◌==◌, arith, Any, Bool-cases, Option-cases,
}
use opendias.Base.Exec.{Exec, ok, fault, ◌>>=◌}
use opendias.Base.CString.{CString, bytes}
use opendias.Base.Int.{ℤ, is_zero}
use opendias.LinkedList.{Sll}
use opendias.Validation.Fields.{Build}
use opendias.Validation.Fields.Kinds.{IsOneOf}
use opendias.Validation.Keys.{PostData, get_post_data}
use opendias.Validation.Blocks.{Checked}
use opendias.Validation.Actions.{
  validate, basic_validation, basic_action, vitals_loop, known_actions,
}
use opendias.Validation.Actions.Table.{
  Action, get_doc_detail, get_scanner_list, get_scanner_details, do_scan, get_scanning_progress,
  next_page_ready, update_doc_details, check_for_similar, move_tag, doc_filter, delete_doc,
  regenerate_thumb, title_auto_complete, tags_auto_complete, check_login, logout, update_user,
  create_user, delete_user, get_user_list, upload_file, name, is_built,
}
use opendias.WebHandler.Site.{Site, Privileges, Mimetype, html, xml}
use opendias.WebHandler.Post.Calls.{Call, Body, text, from, Page}
use opendias.WebHandler.Post.Branches
use opendias.WebHandler.Post.{action_page, chosen, post_page}
use opendias.WebHandler.Post.Access.{
  privilege, is_served, mimetype, IsAllowed, gate, call, otherwise, served, action_page-served,
}
use opendias.Validation.Actions.Accepted.{Fits, validate-Accepted_iff}
use opendias.Validation.Actions.Basic.{IsBasic, basic_validation-zero_iff}

-- The page has its content from this call.
abbrev pub Calls : Exec Page → Call → Type 0
Calls m c = (p : Page) × (o : Exec CString) × (m ≡ ok p) × (p.body ≡ from c o)

known :
    (v : CString) → IsOneOf known_actions v → (v ≡ bytes "refresh") ⊎ ((a : Action) × (v ≡ name a))
unfolding known_actions
known v (inl e) = inr (get_doc_detail, e)
known v (inr (inl e)) = inl e
known v (inr (inr (inl e))) = inr (get_scanner_list, e)
known v (inr (inr (inr (inl e)))) = inr (get_scanner_details, e)
known v (inr (inr (inr (inr (inl e))))) = inr (do_scan, e)
known v (inr (inr (inr (inr (inr (inl e)))))) = inr (get_scanning_progress, e)
known v (inr (inr (inr (inr (inr (inr (inl e))))))) = inr (next_page_ready, e)
known v (inr (inr (inr (inr (inr (inr (inr (inl e)))))))) = inr (update_doc_details, e)
known v (inr (inr (inr (inr (inr (inr (inr (inr (inl e))))))))) = inr (move_tag, e)
known v (inr (inr (inr (inr (inr (inr (inr (inr (inr (inl e)))))))))) = inr (doc_filter, e)
known v (inr (inr (inr (inr (inr (inr (inr (inr (inr (inr (inl e))))))))))) = inr (delete_doc, e)
known v (inr (inr (inr (inr (inr (inr (inr (inr (inr (inr (inr (inl e)))))))))))) =
    inr (regenerate_thumb, e)
known v (inr (inr (inr (inr (inr (inr (inr (inr (inr (inr (inr (inr (inl e))))))))))))) =
    inr (upload_file, e)
known v (inr (inr (inr (inr (inr (inr (inr (inr (inr (inr (inr (inr (inr (inl e)))))))))))))) =
    inr (title_auto_complete, e)
known v
      (inr (inr (inr (inr (inr (inr (inr (inr (inr (inr (inr (inr (inr (inr (inl e))))))))))))))) =
    inr (tags_auto_complete, e)
known v
      (inr (
        inr
          (inr (inr (inr (inr (inr (inr (inr (inr (inr (inr (inr (inr (inr (inl e)))))))))))))))) =
    inr (check_login, e)
known v
      (inr (
        inr (
          inr (
            inr
              (inr (inr (inr (inr (inr (inr (inr (inr (inr (inr (inr (inr (inl e))))))))))))))))) =
    inr (logout, e)
known v
      (inr (
        inr (
          inr (
            inr (
              inr (
                inr
                  (inr (inr (inr (inr (inr (inr (inr (inr (inr (inr (inr (inl e)))))))))))))))))) =
    inr (update_user, e)
known v
      (inr (
        inr (
          inr (
            inr (
              inr (
                inr (
                  inr (
                    inr
                      (inr (inr (inr (inr (inr (inr (inr (inr (inr (inr (inl e))))))))))))))))))) =
    inr (create_user, e)
known v
      (inr (
        inr (
          inr (
            inr (
              inr (
                inr (
                  inr (
                    inr (
                      inr (
                        inr
                          (inr (inr (inr (inr (inr (inr (inr (inr (inr (inl e)))))))))))))))))))) =
    inr (get_user_list, e)
known v
      (inr (
        inr (
          inr (
            inr (
              inr (
                inr (
                  inr (
                    inr (
                      inr (
                        inr (
                          inr (
                            inr
                              (inr (inr (inr (inr (inr (inr (inr (inr (inl e))))))))))))))))))))) =
    inr (delete_user, e)
known v
      (inr (
        inr (
          inr (
            inr (
              inr (
                inr (
                  inr (
                    inr (
                      inr (
                        inr (
                          inr (
                            inr (
                              inr (
                                inr
                                  (inr (inr (inr (inr (inr (inr (inr (inl e)))))))))))))))))))))) =
    inr (check_for_similar, e)
known v
      (inr (
        inr (
          inr (
            inr (
              inr (
                inr (
                  inr (
                    inr (
                      inr (
                        inr (
                          inr (
                            inr (
                              inr (
                                inr
                                  (inr (inr (inr (inr (inr (inr (inr (inr x)))))))))))))))))))))) =
    absurd x

text-Calls :
    (n : ℕ) (m : Mimetype) (t : CString) (c : Call)
    → ¬ Calls (ok (record { status = n; mimetype = m; body = text t })) c
text-Calls n m t c (p, o, e, f) = cc

vitals_loop-le : (post rows : PostData) → vitals_loop post rows ≤ 1
unfolding vitals_loop
vitals_loop-le post [] = omega arith
vitals_loop-le post (row ∷ rows) = ground (arith, vitals_loop-le post rows)

basic_action-le : (post : PostData) (o : Option CString) → basic_action post o ≤ 1
unfolding basic_action
basic_action-le post none = omega arith
basic_action-le post (some action) = ground (arith, vitals_loop-le post post)

basic_validation-le : (post : PostData) → basic_validation post ≤ 1
unfolding basic_validation
basic_validation-le post = basic_action-le post (get_post_data post (some (bytes "action")))

served-built : (b : Build) (a : Action) → is_served b a ≡ true → is_built b a ≡ true
served-built b check_for_similar h = refl
served-built b a h = h

module _ (site : Site) (privs : Privileges) (lang : CString) (session : Option (Sll CString)) where
  gate-Calls_iff :
      (m : Mimetype) (v : Option ℤ) (t : CString) (b : Exec Body) (c : Call)
      → Calls (Branches.page site privs lang session m (gate v (text t) b)) c
        ↔ (IsAllowed v × Calls (Branches.page site privs lang session m b) c)
  gate-Calls_iff m none t b c = ((λ h. (tt, h)), λ h. h.1)
  gate-Calls_iff m (some v) t b c = elim (Bool-cases (is_zero v)) [
    | inl without ↦ rw without ((λ h. absurd (text-Calls 200 m t c h)), λ h. absurd (cc))
    | inr there ↦ rw there ((λ h. (refl, h)), λ h. h.1)
  ]

  -- What `validated` does with the result of `validate`.
  answered : (PostData → Call) → Exec CString → Exec Checked → Exec Body
  answered f o r = do
    (p, errors) ← r
    ok (
        if errors == 0
        then from (f p) o
        else text (Branches.processing_error site privs lang session))

  answered-Calls_iff :
      (m : Mimetype) (f : PostData → Call) (o : Exec CString) (r : Exec Checked) (c : Call)
      → Calls (Branches.page site privs lang session m (answered f o r)) c
        ↔ ((p : PostData) × (r ≡ ok (p, 0)) × (c ≡ f p))
  unfolding answered
  answered-Calls_iff m f o fault c = ((λ h. absurd (cc)), λ h. absurd (cc))
  answered-Calls_iff m f o (ok (p, zero)) c =
      ((λ (x, o', e, g). (p, refl, cc)), λ (x, e, g). (_, o, refl, cc))
  answered-Calls_iff m f o (ok (p, suc n)) c =
      let failed : (suc n == 0) ≡ false = ground arith in
      rw failed (
        (λ h. absurd (text-Calls 200 m (Branches.processing_error site privs lang session) c h)),
        λ h. absurd (cc),
      )

  served-Calls_iff :
      (post : PostData) (a : Action) (c : Call)
      → Calls (served site privs lang session post a) c ↔ (
          IsAllowed (privilege privs a)
          × (p : PostData) × (validate site.build post (name a) ≡ ok (p, 0))
          × (c ≡ call site privs lang session a p))
  unfolding Branches.validated answered
  served-Calls_iff post a c =
      let (pass, enter) =
        gate-Calls_iff (mimetype a) (privilege privs a) _
          (answered (call site privs lang session a) (otherwise site privs lang session post a)
            (validate site.build post (name a)))
          c in
      let (asked, give) =
        answered-Calls_iff (mimetype a) (call site privs lang session a)
          (otherwise site privs lang session post a) (validate site.build post (name a)) c in
      (
        λ h.
            let (there, rest) = pass h in
            let (p, accepted, same) = asked rest in (there, p, accepted, same),
        λ (there, p, accepted, same). enter (there, give (p, accepted, same)),
      )

  unserved-Calls :
      (post : PostData) (a : Action) (c : Call)
      → is_served site.build a ≡ false
      → ¬ Calls (action_page site privs lang session post (name a)) c
  unfolding action_page opendias.Base.CString.str_eq Branches.get_scanner_list_page
      Branches.get_scanner_details_page Branches.do_scan_page Branches.get_scanning_progress_page
      Branches.next_page_ready_page Branches.regenerate_thumb_page Branches.check_for_similar_page
  unserved-Calls post get_scanner_list c h =
      rw h (text-Calls 200 xml (Branches.missing_support site privs lang session) c)
  unserved-Calls post get_scanner_details c h =
      rw h (text-Calls 200 xml (Branches.missing_support site privs lang session) c)
  unserved-Calls post do_scan c h =
      rw h (text-Calls 200 xml (Branches.missing_support site privs lang session) c)
  unserved-Calls post get_scanning_progress c h =
      rw h (text-Calls 200 xml (Branches.missing_support site privs lang session) c)
  unserved-Calls post next_page_ready c h =
      rw h (text-Calls 200 xml (Branches.missing_support site privs lang session) c)
  unserved-Calls post regenerate_thumb c h =
      rw h (text-Calls 200 xml (Branches.missing_support site privs lang session) c)
  unserved-Calls post check_for_similar c h =
      rw h (text-Calls 200 xml (Branches.missing_support site privs lang session) c)
  unserved-Calls post check_login c h = rw h (text-Calls 200 html [] c)
  unserved-Calls post logout c h = rw h (text-Calls 200 html [] c)
  unserved-Calls post update_user c h = rw h (text-Calls 200 html [] c)
  unserved-Calls post create_user c h = rw h (text-Calls 200 html [] c)
  unserved-Calls post delete_user c h = rw h (text-Calls 200 html [] c)
  unserved-Calls post get_user_list c h = rw h (text-Calls 200 html [] c)
  unserved-Calls post get_doc_detail c h = absurd (cc)
  unserved-Calls post update_doc_details c h = absurd (cc)
  unserved-Calls post move_tag c h = absurd (cc)
  unserved-Calls post doc_filter c h = absurd (cc)
  unserved-Calls post delete_doc c h = absurd (cc)
  unserved-Calls post title_auto_complete c h = absurd (cc)
  unserved-Calls post tags_auto_complete c h = absurd (cc)
  unserved-Calls post upload_file c h = absurd (cc)

  -- The post data that call a handler: they name an action that is compiled in, the visitor has the
  -- privilege for it, and `basicValidation` and `validate` accept them.
  pub record IsAuthorized (post : PostData) (a : Action) (c : Call) : Type 0 where
    pub basic : IsBasic post
    pub named : get_post_data post (some (bytes "action")) ≡ some (name a)
    pub compiled : is_served site.build a ≡ true
    pub allowed : IsAllowed (privilege privs a)
    pub fits : Fits site.build a post
    pub checked : PostData
    pub accepted : validate site.build post (name a) ≡ ok (checked, 0)
    pub called : c ≡ call site privs lang session a checked

  authorized :
      (post : PostData) (a : Action) (c : Call)
      → IsBasic post
      → get_post_data post (some (bytes "action")) ≡ some (name a)
      → Calls (action_page site privs lang session post (name a)) c
      → IsAuthorized post a c
  authorized post a c basic named h = elim (Bool-cases (is_served site.build a)) [
    | inl built ↦
        let (there, p, accepted, same) =
          (served-Calls_iff post a c).0
            (rw (action_page-served site privs lang session post a built) at h) in
        record {
          basic = basic;
          named = named;
          compiled = built;
          allowed = there;
          fits =
              (validate-Accepted_iff site.build post a (served-built site.build a built)).0
                (p, accepted);
          checked = p;
          accepted = accepted;
          called = same;
        }
    | inr absent ↦ absurd (unserved-Calls post a c absent h)
  ]

  refresh-Calls :
      (post : PostData) (c : Call)
      → ¬ Calls (action_page site privs lang session post (bytes "refresh")) c
  unfolding action_page opendias.Base.CString.str_eq
  refresh-Calls post c h = text-Calls 303 html (bytes "/opendias/") c h

  chosen-IsAuthorized :
      (post : PostData) (o : Option CString) (c : Call)
      → IsBasic post
      → get_post_data post (some (bytes "action")) ≡ o
      → Calls (chosen site privs lang session post o) c
      → (a : Action) × IsAuthorized post a c
  unfolding chosen
  chosen-IsAuthorized post none c basic e h = absurd (text-Calls 200 html [] c h)
  chosen-IsAuthorized post (some v) c basic e h =
      let vital : (v ≢ []) × IsOneOf known_actions v = rw e at basic.0 in
      elim (known v vital.1) [
        | inl same ↦ absurd (refresh-Calls post c (rw same at h))
        | inr (a, same) ↦ (a, authorized post a c basic (e ∙ ap some same) (rw same at h))
      ]

  -- A POST calls a handler exactly if it is authorized: the action is compiled in, the role of the
  -- visitor has the privilege that the action needs, and the validation accepts the post data. The
  -- handler is that of the action, with the post data as the validation leaves them.
  pub post_page-Calls_iff :
      (post : PostData) (c : Call)
      → Calls (post_page site privs lang session post) c ↔ ((a : Action) × IsAuthorized post a c)
  unfolding post_page chosen
  post_page-Calls_iff post c = (
    λ h. elim (Bool-cases (basic_validation post == 1)) [
      | inl bad ↦
          absurd
            (text-Calls 200 xml (Branches.processing_error site privs lang session) c (rw bad at h))
      | inr good ↦
          let basic =
            (basic_validation-zero_iff post).0 (ground (arith, basic_validation-le post)) in
          chosen-IsAuthorized post _ c basic refl (rw good at h)
    ],
    λ (a, is).
        let passed = (basic_validation-zero_iff post).1 is.basic in
        rw (passed, is.named, action_page-served site privs lang session post a is.compiled)
          ((served-Calls_iff post a c).1 (is.allowed, is.checked, is.accepted, is.called)),
  )
