-- ===== src/Core.antt =====
-- progressive-lsp-core/src/ids.rs: the language of a file. A path is a text, taken apart as
-- `Path::extension` does: by its last segment that is neither empty nor ".".
mod Examples
pub mod FileUri
pub mod Paths
use progressive_lsp.Base.{
  ℕ, ◌≡◌, refl, Bool, true, false, ◌||◌, not, List, [], ◌∷◌, ◌++◌, Option, none, some, Text,
  text_eq, nat_eq, codes, if◌then◌else◌, ◌==◌, keep, any, contains,
}

-- The parts between the slashes.
unfoldable pub segments : Text → Text → List Text
segments current [] = current ∷ []
segments current (c ∷ path) = elim (c == 47) [
  | true ↦ current ∷ segments [] path
  | false ↦ segments (current ++ c ∷ []) path
]

abbrev pub last_segment : List Text → Option Text
last_segment [] = none
last_segment (s ∷ rest) = elim (last_segment rest) [ none ↦ some s | some t ↦ some t ]

unfoldable pub file_name : Text → Option Text
unfolding segments
file_name path =
    elim (last_segment (keep (λ s. not (s == [] || s == codes ".")) (segments [] path))) [
      | none ↦ none
      | some s ↦ if s == codes ".." then none else some s
    ]

-- At the last dot.
abbrev pub split_last_dot : Text → Option (Text × Text)
split_last_dot [] = none
split_last_dot (c ∷ name) = elim (split_last_dot name) [
  | some (before, after) ↦ some (c ∷ before, after)
  | none ↦ if c == 46 then some ([], name) else none
]

abbrev pub name_extension : Option (Text × Text) → Option Text
name_extension none = none
name_extension (some ([], after)) = none
name_extension (some (c ∷ before, after)) = some after

unfoldable pub extension : Text → Option Text
unfolding file_name
extension path = elim (file_name path) [
  | none ↦ none
  | some name ↦ name_extension (split_last_dot name)
]

abbrev pub languages : List (List Text × Text)
languages =
    (codes "java" ∷ [], codes "java")
    ∷ (codes "php" ∷ [], codes "php")
    ∷ (codes "html" ∷ codes "htm" ∷ [], codes "html")
    ∷ (codes "css" ∷ [], codes "css")
    ∷ (codes "js" ∷ codes "mjs" ∷ codes "cjs" ∷ [], codes "javascript")
    ∷ (codes "ts" ∷ [], codes "typescript")
    ∷ (codes "go" ∷ [], codes "go")
    ∷ (codes "zig" ∷ [], codes "zig")
    ∷ (codes "py" ∷ [], codes "python")
    ∷ (codes "rs" ∷ [], codes "rust")
    ∷ (codes "c" ∷ codes "h" ∷ [], codes "c")
    ∷ (codes "cc" ∷ codes "cpp" ∷ codes "cxx" ∷ codes "hpp" ∷ codes "hh" ∷ [], codes "cpp")
    ∷ (codes "cs" ∷ [], codes "csharp")
    ∷ []

unfoldable pub language_of : Text → List (List Text × Text) → Option Text
language_of ext [] = none
language_of ext ((exts, id) ∷ rest) =
    let later = language_of ext rest in if contains exts ext then some id else later

abbrev pub or_blank : Option Text → Text
or_blank none = []
or_blank (some ext) = ext

unfoldable pub language_id_from_path : Text → Option Text
unfolding language_of extension
language_id_from_path path = language_of (or_blank (extension path)) languages
