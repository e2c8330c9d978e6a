-- ===== src/UiCompress.antt =====
-- proxy/ui_compress.go: the files of the user interface, and the encoding that one is served with. The
-- file system is the argument `open_file`.
pub mod Files
mod Tests
use llmsnap.ProxyManager.Api.{without_slash}
use llmsnap.Prelude.{
  ◌⊎◌, sym, inr, inl, true, Text, List, Bool, codes, split, trim_space, text_eq, false,
  if◌then◌else◌, push_front, ◌∷◌, [], trim_left, ◌==◌, ◌||◌, trim_right, is_space, contains_rune,
  ◌≡◌, refl, Option, ℕ, ◌&&◌, not, some, ◌++◌, none,
}

-- `strings.SplitN(part, ";", 2)[0]`.
unfoldable pub before_semicolon : Text → Text
before_semicolon [] = []
before_semicolon (c ∷ cs) = let rest = before_semicolon cs in if c == 59 then [] else c ∷ rest

unfoldable pub encoding_of : Text → Text
encoding_of part = trim_space (before_semicolon part)

unfoldable pub has_encoding : Text → List Text → Bool
has_encoding enc [] = false
has_encoding enc (part ∷ parts) = text_eq (encoding_of part) enc || has_encoding enc parts

-- The encoding and the extension of the file; both are empty where the file is served as it is.
unfoldable pub select_encoding : Text → Text × Text
select_encoding accept_encoding =
    let parts = split 44 accept_encoding in
    if text_eq accept_encoding []
    then ([], [])
    else if has_encoding (codes "br") parts
    then (codes "br", codes ".br")
    else if has_encoding (codes "gzip") parts
    then (codes "gzip", codes ".gz")
    else ([], [])

-- What `Open` and `Stat` say of a file.
pub record UiFile : Type 0 where
  pub stat_works : Bool
  pub is_dir : Bool

-- A file that is sent, with its encoding, or an error with its status.
pub data Served : Type 0 where
  sends_file : Text → Text → Served
  not_served : ℕ → Served

unfoldable pub is_regular : UiFile → Bool
is_regular file = file.stat_works && not file.is_dir

unfoldable pub serve_plain : Text → Option UiFile → Served
serve_plain name none = not_served 404
serve_plain name (some file) =
    if not file.stat_works
    then not_served 500
    else if file.is_dir
    then not_served 403
    else sends_file [] name

unfoldable pub serve_encoded : (Text → Option UiFile) → Text × Text → Text → Option UiFile → Served
serve_encoded open_file chosen name none = serve_plain name (open_file name)
serve_encoded open_file chosen name (some file) =
    if is_regular file
    then sends_file chosen.0 (name ++ chosen.1)
    else serve_plain name (open_file name)

-- `ServeCompressedFile`.
unfoldable pub serve_compressed_file : (Text → Option UiFile) → Text → Text → Served
serve_compressed_file open_file accept_encoding name =
    let chosen = select_encoding accept_encoding in
    if text_eq chosen.0 []
    then serve_plain name (open_file name)
    else serve_encoded open_file chosen name (open_file (name ++ chosen.1))

-- The file of a path under /ui/.
unfoldable pub ui_file_name : Text → Text
ui_file_name param =
    let name = without_slash param in if text_eq name [] then codes "index.html" else name
