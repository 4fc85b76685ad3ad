-- ===== src/Core/Paths.antt =====
-- When two paths are equal: `Path` compares the parts that `Path::components` gives on Unix, and so do the
-- maps and sets of the standard library whose keys are a PathBuf.
use progressive_lsp.Base.{
  Bool, ◌||◌, not, List, [], ◌∷◌, Text, text_eq, nat_eq, list_eq, PartialEq, codes, ◌==◌, keep,
}
use progressive_lsp.Core.{segments}

-- The parts of a path. The root is the part "/".
abbrev pub Components : Type 0
Components = List Text

instance abbrev pub path_eq : PartialEq Components
path_eq = list_eq ⦃e = text_eq⦄

-- A part that is kept wherever it stands.
abbrev pub is_name : Text → Bool
is_name s = not (s == [] || s == codes ".")

-- Only at the front of a relative path "." is a part; an empty first segment is the root.
abbrev pub components_of : List Text → Components
components_of [] = []
components_of ([] ∷ []) = []
components_of ([] ∷ s ∷ rest) = codes "/" ∷ keep is_name (s ∷ rest)
components_of ((c ∷ first) ∷ rest) = (c ∷ first) ∷ keep is_name rest

unfoldable pub components : Text → Components
unfolding segments
components path = components_of (segments [] path)

-- `==` on two paths.
abbrev pub same_path : Text → Text → Bool
same_path a b = components a == components b
