-- ===== src/UiCompress/Files.antt =====
-- proxy/ui_compress.go: which file is sent.
use mathlib.Core.Path.{subst}
use llmsnap.UiCompress.{
  UiFile, Served, serve_compressed_file, serve_encoded, serve_plain, is_regular, select_encoding,
  sends_file, not_served, has_encoding,
}
use llmsnap.Prelude.{
  sym, refl, false, Option, Text, ◌≡◌, [], some, ◌++◌, ◌⊎◌, Bool, codes, inl, text_eq, true,
  if◌then◌else◌, none, ◌≢◌, arith, split, inr, not,
}

-- What may be sent: a regular file, the one named or, in an encoding that the request accepts, the one
-- with the encoding's extension.
abbrev pub Encodes : Text → Text → Text → Text → Type 0
Encodes accept_encoding name encoding file =
    ((encoding ≡ []) × (file ≡ name))
    ⊎ ((encoding ≡ codes "br")
        × (file ≡ name ++ codes ".br")
        × (has_encoding (codes "br") (split 44 accept_encoding) ≡ true))
    ⊎ ((encoding ≡ codes "gzip")
        × (file ≡ name ++ codes ".gz")
        × (has_encoding (codes "gzip") (split 44 accept_encoding) ≡ true))

abbrev pub Regular : Option UiFile → Type 0
Regular none = ⊥
Regular (some file) = is_regular file ≡ true

abbrev pub Sends : (Text → Option UiFile) → Text → Text → Served → Type 0
Sends open_file accept_encoding name (sends_file encoding file) =
    Regular (open_file file) × Encodes accept_encoding name encoding file
Sends open_file accept_encoding name (not_served status) =
    ((status ≡ 404) × (open_file name ≡ none))
    ⊎ (((status ≡ 500) ⊎ (status ≡ 403)) × (open_file name ≢ none))

module _ (open_file : Text → Option UiFile) (accept_encoding name : Text) where
  plain-Sends :
      (o : Option UiFile)
      → open_file name ≡ o
      → Sends open_file accept_encoding name (serve_plain name o)
  unfolding serve_plain is_regular
  plain-Sends none e = inl (refl, e)
  plain-Sends (some file) e = by_tests file.stat_works refl file.is_dir refl
    where
      opens : open_file name ≢ none
      opens n = ground (arith, e, n)

      by_tests :
          (works : Bool)
          → file.stat_works ≡ works
          → (dir : Bool) → file.is_dir ≡ dir
          → Sends open_file accept_encoding name (
              if not works
              then not_served 500
              else if dir
              then not_served 403
              else sends_file [] name)
      by_tests false w dir d = inr (inl refl, opens)
      by_tests true w true d = inr (inr refl, opens)
      by_tests true w false d = (subst Regular (sym e) (ground (arith, w, d)), inl (refl, refl))

  encoded-Sends :
      (chosen : Text × Text) (o : Option UiFile)
      → open_file (name ++ chosen.1) ≡ o
      → Encodes accept_encoding name chosen.0 (name ++ chosen.1)
      → Sends open_file accept_encoding name (serve_encoded open_file chosen name o)
  unfolding serve_encoded
  encoded-Sends chosen none e fits = plain-Sends (open_file name) refl
  encoded-Sends chosen (some file) e fits = by_kind (is_regular file) refl
    where
      by_kind :
          (b : Bool)
          → is_regular file ≡ b
          → Sends open_file accept_encoding name (
              if b
              then sends_file chosen.0 (name ++ chosen.1)
              else serve_plain name (open_file name))
      by_kind true regular = (subst Regular (sym e) regular, fits)
      by_kind false other = plain-Sends (open_file name) refl

  -- Whatever the file system has: `ServeCompressedFile` sends a regular file, which is the one named, or
  -- the one with the extension of brotli or gzip where the request lists that encoding, named in the
  -- answer; else it answers 404 where the file named does not open, and 500 or 403 where it does.
  pub serve_compressed_file_lem :
      Sends open_file accept_encoding name (serve_compressed_file open_file accept_encoding name)
  unfolding serve_compressed_file select_encoding text_eq
  serve_compressed_file_lem =
      by_tests (text_eq accept_encoding []) (has_encoding (codes "br") (split 44 accept_encoding))
        refl (has_encoding (codes "gzip") (split 44 accept_encoding)) refl
    where
      by_tests :
          (a b : Bool)
          → has_encoding (codes "br") (split 44 accept_encoding) ≡ b
          → (c : Bool) → has_encoding (codes "gzip") (split 44 accept_encoding) ≡ c
          → let chosen : Text × Text =
              if a
              then ([], [])
              else if b
              then (codes "br", codes ".br")
              else if c
              then (codes "gzip", codes ".gz")
              else ([], []) in
            Sends open_file accept_encoding name (
              if text_eq chosen.0 []
              then serve_plain name (open_file name)
              else serve_encoded open_file chosen name (open_file (name ++ chosen.1)))
      by_tests true b br c gz = plain-Sends (open_file name) refl
      by_tests false true br c gz =
          encoded-Sends (codes "br", codes ".br") (open_file (name ++ codes ".br")) refl
            (inr (inl (refl, refl, br)))
      by_tests false false br true gz =
          encoded-Sends (codes "gzip", codes ".gz") (open_file (name ++ codes ".gz")) refl
            (inr (inr (refl, refl, gz)))
      by_tests false false br false gz = plain-Sends (open_file name) refl
