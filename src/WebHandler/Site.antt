-- ===== src/WebHandler/Site.antt =====
-- What src/web_handler.c uses of the rest of the program and of the machine, and what it answers.
use opendias.Base.{ℕ, Bool, Option, List, [], ◌∷◌, ◌==◌, if◌then◌else◌, ◌++◌}
use opendias.Base.CString.{CString, bytes}
use opendias.Base.Int.{ℤ}
use opendias.Validation.Fields.{Build}

-- The build, the texts of `getString` (src/localisation.c), the file system and the directories:
-- `exists` is `access(path, F_OK)`, and `file` has the bytes of the files that can be read.
pub record Site : Type 0 where
  pub build : Build
  pub get_string : CString → CString → CString
  pub exists : CString → Bool
  pub file : CString → Option (List ℕ)
  pub share_dir : CString
  pub base_dir : CString

-- `struct priverlage`
pub record Privileges : Type 0 where
  pub update_access : ℤ
  pub view_doc : ℤ
  pub edit_doc : ℤ
  pub delete_doc : ℤ
  pub add_import : ℤ
  pub add_scan : ℤ

-- The mime types of src/web_handler.h that are in use.
pub data Mimetype : Type 0 where
  html png jpg css js xml json pdf odt : Mimetype

-- The string up to the first NUL of a buffer.
unfoldable pub c_str : List ℕ → CString
c_str [] = []
c_str (c ∷ s) = if c == 0 then [] else c ∷ c_str s

-- The page that an XML error is reported in.
unfoldable pub error_response : CString → CString
unfolding bytes
error_response message =
    bytes "<?xml version='1.0' encoding='utf-8'?>\n<Response><error>"
    ++ message
    ++ bytes "</error></Response>"

unfoldable pub paragraph : CString → CString
unfolding bytes
paragraph message = bytes "<p>" ++ message ++ bytes "</p>"
