-- ===== src/Proxy/Recording/Files.antt =====
-- internal/proxy/recording.go: what is recorded for a file, in it and in the writer.
use ro_proxy.Prelude.{
  ℕ, ◌≡◌, refl, sym, false, List, [], ◌++◌, append-nil, Option, some, none, arith,
}
use ro_proxy.Prelude.{◌==◌, ==_iff, if◌then◌else◌}
use ro_proxy.Prelude.Assoc.{lookup-insert}
use ro_proxy.Common.Base.{Bytes}
use ro_proxy.Proxy.Recording.{Recording, contents, extend}

-- Bytes for the file `name`, where they go to `file`.
abbrev pub for_file : ℕ → Option ℕ → Bytes → Bytes
for_file name none bytes = []
for_file name (some file) bytes = if file == name then bytes else []

-- What is recorded for a file so far: in the file, and then in the writer.
abbrev pub recorded : ℕ → Recording → Bytes
recorded name r = contents name r.files ++ for_file name r.file r.buffered

-- Without a file nothing is buffered, and a recording that is off has no file.
pub record IsSettled (r : Recording) : Type 0 where
  pub no_file : r.file ≡ none → r.buffered ≡ []
  pub off : r.status ≡ false → r.file ≡ none

pub contents-extend :
    (name : ℕ) (file : Option ℕ) (bytes : Bytes) (files : List (ℕ × Bytes))
    → contents name (extend file bytes files) ≡ contents name files ++ for_file name file bytes
contents-extend name none bytes files = sym (append-nil (contents name files))
contents-extend name (some file) bytes files = ground (
  arith,
  lookup-insert file name (contents file files ++ bytes) files,
  ==_iff file name,
  append-nil (contents name files),
)

pub for_file-append :
    (name : ℕ) (file : Option ℕ) (xs ys : Bytes)
    → for_file name file (xs ++ ys) ≡ for_file name file xs ++ for_file name file ys
for_file-append name none xs ys = refl
for_file-append name (some file) xs ys = ground arith

pub for_file-nil : (name : ℕ) (file : Option ℕ) → for_file name file [] ≡ []
for_file-nil name none = refl
for_file-nil name (some file) = ground arith
