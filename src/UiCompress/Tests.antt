-- ===== src/UiCompress/Tests.antt =====
-- proxy/ui_compress.go on concrete inputs.
use llmsnap.UiCompress.Files.{Sends, serve_compressed_file_lem}
use llmsnap.Prelude.{
  Text, Option, codes, split, push_front, if◌then◌else◌, text_eq, some, trim_space, true, false,
  trim_left, none, trim_right, is_space, contains_rune, ◌≡◌, refl, [],
}
use llmsnap.UiCompress.{
  select_encoding, UiFile, serve_compressed_file, has_encoding, encoding_of, before_semicolon,
  serve_encoded, serve_plain, sends_file,
}

chosen : select_encoding (codes "gzip;q=1, br") ≡ (codes "br", codes ".br")
unfolding select_encoding split push_front has_encoding encoding_of before_semicolon text_eq
    trim_space trim_left trim_right is_space contains_rune
chosen = refl

abbrev two_files : Text → Option UiFile
two_files name =
    if text_eq name (codes "a.js")
    then some (record { stat_works = true; is_dir = false })
    else if text_eq name (codes "a.js.gz")
    then some (record { stat_works = true; is_dir = false })
    else none

served_plain :
    serve_compressed_file two_files (codes "br, gzip") (codes "a.js") ≡ sends_file [] (codes "a.js")
unfolding select_encoding split push_front has_encoding encoding_of before_semicolon text_eq
    trim_space trim_left trim_right is_space contains_rune serve_compressed_file serve_encoded
    serve_plain
served_plain = refl

serve_compressed_file_lem_case :
    Sends two_files
      (codes "gzip")
      (codes "a.js")
      (serve_compressed_file two_files (codes "gzip") (codes "a.js"))
serve_compressed_file_lem_case = serve_compressed_file_lem two_files (codes "gzip") (codes "a.js")
