-- ===== src/Ide/Tree/Examples.antt =====
-- A small workspace (poc-ide/src/tree.rs).
use progressive_lsp.Base.{
  ◌≡◌, refl, [], ◌∷◌, ◌++◌, true, false, Text, text_eq, codes, List, if◌then◌else◌, ◌==◌, ok,
}
use progressive_lsp.Ide.Ports.{DirEntry, FsPort}
use progressive_lsp.Ide.Tree.{
  file, directory, Children, unlisted, listed, TreeNodes, no_nodes, and_nodes, from_entry,
  list_immediate, FileTree, expand, apply_listing,
}
use progressive_lsp.Ide.Tree.Expanding.{expand-again}
use progressive_lsp.Ide.Tree.Listings.{expand-eq-apply_listing}

abbrev entry : Text → DirEntry
entry n = record { name = n; path = codes "/w/a/" ++ n; is_dir = false }

-- The files say what is in `/w/a`.
abbrev one_dir : FsPort
one_dir = record {
  Files = List DirEntry;
  canonicalize = λ files p. ok p;
  is_dir = λ files p. true;
  read_dir = λ files p. if p == codes "/w/a" then ok files else ok [];
  read = λ files p. ok [];
  write = λ files p bytes. ok files;
}

abbrev workspace : FileTree
workspace = record {
  root = codes "/w";
  children = and_nodes (directory (codes "a") (codes "/w/a") unlisted) no_nodes;
}

abbrev kids : TreeNodes
kids = and_nodes (file (codes "x") (codes "/w/a/x")) no_nodes

abbrev expanded : FileTree
expanded = record workspace {
  children = and_nodes (directory (codes "a") (codes "/w/a") (listed kids)) no_nodes;
}

expand-again_example : expand one_dir [] (codes "/w/a") expanded ≡ (expanded, ok tt)
unfolding expand list_immediate from_entry
expand-again_example =
    expand-again one_dir (entry (codes "x") ∷ []) [] (codes "/w/a") workspace expanded refl

expand-eq-apply_listing_example :
    expand one_dir (entry (codes "x") ∷ []) (codes "/w/a") workspace
    ≡ apply_listing (codes "/w/a") ((codes "/w/a", kids) ∷ []) workspace
unfolding list_immediate from_entry
expand-eq-apply_listing_example =
    expand-eq-apply_listing one_dir (entry (codes "x") ∷ []) (codes "/w/a") kids workspace refl

abbrev nested : Children
nested = listed (and_nodes (directory (codes "b") (codes "/w/a/b") (listed kids)) no_nodes)
