-- ===== src/WebHandler/Upload.antt =====
-- `iterate_post` of src/web_handler.c: what comes in of a POST, piece by piece. The identifier that
-- `uuid_generate` makes for an uploaded file is an argument.
pub mod Pieces
use opendias.Base.{
  ℕ, ◌≡◌, Bool, true, false, Option, none, some, List, [], ◌∷◌, ◌++◌, length, if◌then◌else◌, ◌==◌,
}
use opendias.Base.Exec.{Exec, ok, fault, ◌>>=◌}
use opendias.Base.CString.{CString, bytes, str_eq}
use opendias.LinkedList.{Element, element, key_is, sll_insert, sll_search_keys}
use opendias.Validation.Keys.{PostData}
use opendias.WebHandler.Site.{c_str}
use opendias.WebHandler.Files.{con_cat}

-- `conCat` on the data of an element.
unfoldable pub add_to : Element CString → CString → Exec (Element CString)
unfolding con_cat
add_to e add = do t ← con_cat e.value (some add); ok (element e.key t)

-- The same on the first element with the key.
unfoldable pub add_data : CString → CString → PostData → Exec PostData
add_data key add [] = ok []
add_data key add (e ∷ es) =
    let rest = add_data key add es in
    if key_is e.key key then (do e' ← add_to e add; ok (e' ∷ es)) else (do es' ← rest; ok (e ∷ es'))

abbrev pub is_upload : CString → Bool
is_upload key = str_eq key (bytes "uploadfile")

-- The post data with a piece of the value for the key.
unfoldable pub store : (uuid key trimmed : CString) → PostData → Exec PostData
unfolding bytes str_eq
store uuid key trimmed post = elim (sll_search_keys post (some key)) [
  | none ↦ ok (sll_insert post (some key) (some (if is_upload key then uuid else trimmed)))
  | some e ↦ if is_upload key then ok post else add_data key trimmed post
]

-- The file that an element's data name; `printf` may not be given NULL.
unfoldable pub upload_file_name : Option (Element CString) → Exec CString
unfolding bytes
upload_file_name none = fault
upload_file_name (some e) = elim e.value [
  | none ↦ fault
  | some id ↦ ok (bytes "/tmp/" ++ id ++ bytes ".dat")
]

-- The post data, and for an upload the file that the bytes are put behind.
unfoldable pub iterate_post :
    (uuid key : CString) → List ℕ → PostData → Exec (PostData × Option (CString × List ℕ))
unfolding bytes str_eq
iterate_post uuid key data_in post = if length data_in == 0 then ok (post, none) else (do
  post' ← store uuid key (c_str data_in) post
  if is_upload key
      then (do
        file ← upload_file_name (sll_search_keys post' (some key))
        ok (post', some (file, data_in)))
      else ok (post', none))
