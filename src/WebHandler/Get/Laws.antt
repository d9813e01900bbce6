-- ===== src/WebHandler/Get/Laws.antt =====
-- When a GET is answered, and what a visitor without the privilege to view may see.
use opendias.Base.{
  ℕ, ◌≡◌, refl, ◌≤◌, Bool, true, false, Option, none, some, List, [], ◌∷◌, if◌then◌else◌, ◌==◌,
  length, leb, leb_iff, Bool-cases, inl, inr,
}
use opendias.Base.Exec.{Exec, ok, ◌>>=◌}
use opendias.Base.CString.{CString, bytes, strstr}
use opendias.Base.Int.{is_zero}
use opendias.WebHandler.Site.{Site, Privileges, c_str}
use opendias.WebHandler.Files.{get_from_file, size_of, build_page, con_cat, as_text}
use opendias.WebHandler.Get.{
  is_root, is_html, is_png, is_jpg, is_scan, is_js, is_css, File, html_page, root_page, text_page,
  scan_file, get_page,
}

-- The call returns a file.
abbrev pub Returns : Exec File → Type 0
Returns m = (f : File) × (m ≡ ok f)

-- The header of the pages is longer than a byte, and there is a start page.
pub record IsInstalled (site : Site) (lang : CString) : Type 0 where
  pub header : List ℕ
  pub header_file : get_from_file site (bytes "/includes/header.txt") lang ≡ some header
  pub header_long : 2 ≤ length header
  pub body : List ℕ
  pub body_file : get_from_file site (bytes "/body.html") lang ≡ some body

con_cat-returns :
    (s : CString) (part : Option CString) → (t : CString) × (con_cat (some s) part ≡ ok (some t))
unfolding con_cat
con_cat-returns s none = (s, refl)
con_cat-returns s (some []) = (s, refl)
con_cat-returns s (some (c ∷ t)) = (_, refl)

module _ (site : Site) (lang : CString) where
  footed-returns :
      (o : Option (List ℕ)) (s : CString)
      → (t : CString) × ((if leb 2 (size_of o) then con_cat (some s) (as_text o) else ok (some s))
          ≡ ok (some t))
  footed-returns o s = elim (Bool-cases (leb 2 (size_of o))) [
    | inl long ↦ rw long (con_cat-returns s (as_text o))
    | inr short ↦ rw short (s, refl)
  ]

  module _ (is : IsInstalled site lang) where
    pub build_page-returns :
        (page : CString) → (t : CString) × (build_page site page lang ≡ ok (some t))
    unfolding build_page as_text size_of
    build_page-returns page =
        let long : leb 2 (length is.header) ≡ true = (leb_iff 2 _).1 is.header_long in
        let (s, e) = con_cat-returns (c_str is.header) (some page) in
        let (t, e') = footed-returns (get_from_file site (bytes "/includes/footer.txt") lang) s in
        (t, rw (is.header_file, long, e) e')

    paged-Returns : (page : CString) → Returns (build_page site page lang >>= html_page)
    unfolding html_page
    paged-Returns page = let (t, e) = build_page-returns page in rw e (_, refl)

    root_page-Returns : Returns (root_page site lang (get_from_file site (bytes "/body.html") lang))
    unfolding root_page html_page
    root_page-Returns = elim (Bool-cases (length is.body == 0)) [
      | inl none_read ↦ rw (is.body_file, root_page, none_read) (_, refl)
      | inr read ↦ rw (is.body_file, root_page, read) (paged-Returns (c_str is.body))
    ]

    text_page-Returns : (url : CString) (o : Option (List ℕ)) → Returns (text_page site lang url o)
    unfolding text_page html_page
    text_page-Returns url none = (_, refl)
    text_page-Returns url (some []) = (_, refl)
    text_page-Returns url (some (c ∷ s)) =
        elim (Bool-cases (strstr url (bytes "clientTesting.html"))) [
          | inl test ↦ rw test (_, refl)
          | inr plain ↦ rw plain (paged-Returns (c_str (c ∷ s)))
        ]

    ok-Returns : (f : File) → Returns (ok f)
    ok-Returns f = (f, refl)

    if-Returns : (t : Bool) (m n : Exec File) → Returns m → Returns n → Returns (if t then m else n)
    if-Returns true m n h g = h
    if-Returns false m n h g = g

    -- With its header and its start page installed in the visitor's language, `get_page` gives a file for
    -- every address: none makes it use a NULL pointer.
    pub get_page-Returns :
        (privs : Privileges) (url : CString) → Returns (get_page site lang privs url)
    unfolding get_page
    get_page-Returns privs url = if-Returns (is_root url) _ _ root_page-Returns (
        if-Returns (is_html url) _ _ (text_page-Returns url _) (
          if-Returns (is_png url) _ _ (ok-Returns _) (
            if-Returns (is_jpg url) _ _ (ok-Returns _) (
              if-Returns (is_scan url) _ _ (ok-Returns _) (
                if-Returns (is_js url) _ _ (ok-Returns _)
                  (if-Returns (is_css url) _ _ (ok-Returns _) (ok-Returns _)))))))

-- Without the privilege to view, what a GET is answered depends on no file of the archive: the
-- directory of the archive may be any other.
pub get_page-unprivileged :
    (site : Site) (lang dir url : CString) (privs : Privileges)
    → is_zero privs.view_doc ≡ true
    → get_page (record site { base_dir = dir }) lang privs url ≡ get_page site lang privs url
unfolding get_page scan_file get_from_file opendias.WebHandler.Files.get_from_file_full_path
    opendias.WebHandler.Files.localised root_page text_page build_page
get_page-unprivileged site lang dir url privs h = rw h refl
