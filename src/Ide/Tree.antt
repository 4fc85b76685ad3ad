-- ===== src/Ide/Tree.antt =====
-- poc-ide/src/tree.rs: the tree of a workspace, of which a directory is listed when it is expanded, and
-- the rows that show a chain of directories as one. The loops that list a whole chain are left out.
pub mod Chains
pub mod Expanding
pub mod Listings
mod Examples
use progressive_lsp.Base.{
  ℕ, ◌+◌, List, [], ◌∷◌, ◌++◌, Bool, true, false, not, ◌&&◌, ◌||◌, Option, none, some, Text,
  text_eq, nat_eq, codes, if◌then◌else◌, ltb, ◌==◌, contains, keep, Result, ok, err,
}
use progressive_lsp.Base.OrdMap.{text_lt}
use progressive_lsp.Base.Sorting.{sort_by}
use progressive_lsp.Base.Texts.{starts_with}
use progressive_lsp.Ide.Ports.{IdeError, not_found, not_a_directory, DirEntry, FsPort}

-- `TreeNode`; Children is its `Option<Vec<TreeNode>>`, and TreeNodes the vector in it.
mutual
  pub data TreeNode : Type 0 where
    file : Text → Text → TreeNode
    directory : Text → Text → Children → TreeNode

  pub data Children : Type 0 where
    unlisted : Children
    listed : TreeNodes → Children

  pub data TreeNodes : Type 0 where
    no_nodes : TreeNodes
    and_nodes : TreeNode → TreeNodes → TreeNodes

abbrev pub name : TreeNode → Text
name (file n p) = n
name (directory n p c) = n

abbrev pub path : TreeNode → Text
path (file n p) = p
path (directory n p c) = p

abbrev pub is_dir : TreeNode → Bool
is_dir (file n p) = false
is_dir (directory n p c) = true

abbrev pub is_loaded : TreeNode → Bool
is_loaded (file n p) = true
is_loaded (directory n p unlisted) = false
is_loaded (directory n p (listed nodes)) = true

-- The innermost directory of a chain; `self` is the directory whose children these are.
unfoldable mutual
  pub tail_in : TreeNode → Children → TreeNode
  tail_in self unlisted = self
  tail_in self (listed nodes) = tail_of self nodes

  pub tail_of : TreeNode → TreeNodes → TreeNode
  tail_of self (and_nodes (directory n p c) no_nodes) = tail_in (directory n p c) c
  tail_of self nodes = self

unfoldable pub compact_tail : TreeNode → TreeNode
unfolding tail_in
compact_tail (file n p) = file n p
compact_tail (directory n p c) = tail_in (directory n p c) c

pub record CompactChain : Type 0 where
  pub names : List Text
  pub path : Text

-- The loop of `from_node`, with what it has pushed.
unfoldable mutual
  pub chain_in : List Text → Text → Children → CompactChain
  chain_in names p unlisted = record { names = names; path = p }
  chain_in names p (listed nodes) = chain_of names p nodes

  pub chain_of : List Text → Text → TreeNodes → CompactChain
  chain_of names p (and_nodes (directory n q c) no_nodes) = chain_in (names ++ n ∷ []) q c
  chain_of names p nodes = record { names = names; path = p }

unfoldable pub from_node : TreeNode → Option CompactChain
unfolding chain_in
from_node (file n p) = none
from_node (directory n p c) = some (chain_in (n ∷ []) p c)

abbrev pub or_else : Option TreeNode → Option TreeNode → Option TreeNode
or_else none other = other
or_else (some node) other = some node

-- `find_node`, which looks into a node before it goes on to the next.
unfoldable mutual
  pub find_node : Text → TreeNodes → Option TreeNode
  find_node p no_nodes = none
  find_node p (and_nodes node nodes) =
      let inside = find_inside p node in
      let rest = find_node p nodes in if path node == p then some node else or_else inside rest

  pub find_inside : Text → TreeNode → Option TreeNode
  find_inside p (file n q) = none
  find_inside p (directory n q c) = find_children p c

  pub find_children : Text → Children → Option TreeNode
  find_children p unlisted = none
  find_children p (listed nodes) = find_node p nodes

-- `find_node_mut`, which looks at all nodes of a level first. What is done to the node that the
-- reference names is a function, and what it returns stands beside the nodes.
module _ {R : Type 0} (edit : TreeNode → TreeNode × R) (p : Text) where
  abbrev pub at_level : TreeNodes → Option (TreeNodes × R)
  at_level no_nodes = none
  at_level (and_nodes node nodes) = elim (path node == p) [
    | true ↦ some (and_nodes (edit node).0 nodes, (edit node).1)
    | false ↦ elim (at_level nodes) [ none ↦ none | some (ns, r) ↦ some (and_nodes node ns, r) ]
  ]

  unfoldable mutual
    pub in_nodes : TreeNodes → Option (TreeNodes × R)
    in_nodes no_nodes = none
    in_nodes (and_nodes node nodes) =
        let rest = in_nodes nodes in
        elim (in_node node) [
          | some (n, r) ↦ some (and_nodes n nodes, r)
          | none ↦ elim rest [ none ↦ none | some (ns, r) ↦ some (and_nodes node ns, r) ]
        ]

    pub in_node : TreeNode → Option (TreeNode × R)
    in_node (file n q) = none
    in_node (directory n q c) = elim (in_children c) [
      | none ↦ none
      | some (c', r) ↦ some (directory n q c', r)
    ]

    pub in_children : Children → Option (Children × R)
    in_children unlisted = none
    in_children (listed nodes) =
        let deeper = in_nodes nodes in
        elim (at_level nodes) [
          | some (ns, r) ↦ some (listed ns, r)
          | none ↦ elim deeper [ none ↦ none | some (ns, r) ↦ some (listed ns, r) ]
        ]

  unfoldable pub find_node_mut : TreeNodes → Option (TreeNodes × R)
  unfolding in_nodes
  find_node_mut nodes = elim (at_level nodes) [ some r ↦ some r | none ↦ in_nodes nodes ]

abbrev pub skips_display_name : Text → Bool
skips_display_name n = n == codes ".git" || (n == codes "target" || n == codes "node_modules")

-- `display_key`: entries without a dot first, of these directories first, then by name.
unfoldable pub entry_le : DirEntry → DirEntry → Bool
entry_le a b =
    let rank = λ (e : DirEntry).
      (if starts_with e.name (codes ".") then 2 else 0) + (if e.is_dir then 0 else 1) in
    ltb (rank a) (rank b) || (rank a == rank b && not (text_lt b.name a.name))

unfoldable pub from_entry : DirEntry → TreeNode
from_entry e = if e.is_dir then directory e.name e.path unlisted else file e.name e.path

abbrev pub from_entries : List DirEntry → TreeNodes
from_entries [] = no_nodes
from_entries (e ∷ entries) = and_nodes (from_entry e) (from_entries entries)

abbrev pub is_shown : DirEntry → Bool
is_shown e = not (e.is_dir && skips_display_name e.name)

pub record FileTree : Type 0 where
  pub root : Text
  pub children : TreeNodes

module _ (fs : FsPort) where
  open fs use {Files, read_dir}

  unfoldable pub list_immediate : Files → Text → Result TreeNodes IdeError
  list_immediate files dir = elim (read_dir files dir) [
    | err e ↦ err e
    | ok entries ↦ ok (from_entries (keep is_shown (sort_by entry_le entries)))
  ]

  unfoldable pub load_children : Files → TreeNode → TreeNode × Result (Unit {0}) IdeError
  unfolding list_immediate
  load_children files (file n p) = (file n p, err (not_a_directory p))
  load_children files (directory n p (listed nodes)) = (directory n p (listed nodes), ok tt)
  load_children files (directory n p unlisted) = elim (list_immediate files p) [
    | err e ↦ (directory n p unlisted, err e)
    | ok nodes ↦ (directory n p (listed nodes), ok tt)
  ]

  -- `FileTree::load`, from the path of the workspace root.
  unfoldable pub load : Files → Text → Result FileTree IdeError
  unfolding list_immediate
  load files root =
      if fs.is_dir files root
      then elim (list_immediate files root) [
        | err e ↦ err e
        | ok nodes ↦ ok (record { root = root; children = nodes })
      ]
      else err (not_a_directory root)

  unfoldable pub expand : Files → Text → FileTree → FileTree × Result (Unit {0}) IdeError
  unfolding load_children find_node_mut
  expand files p tree =
      if p == tree.root
      then (tree, ok tt)
      else elim (find_node_mut (load_children files) p tree.children) [
        | none ↦ (tree, err (not_found p))
        | some (nodes, r) ↦ (record tree { children = nodes }, r)
      ]

unfoldable pub apply_listed_children : TreeNodes → TreeNode → TreeNode × Result (Unit {0}) IdeError
apply_listed_children nodes (file n p) = (file n p, err (not_a_directory p))
apply_listed_children nodes (directory n p (listed kids)) = (directory n p (listed kids), ok tt)
apply_listed_children nodes (directory n p unlisted) = (directory n p (listed nodes), ok tt)

-- `apply_listing`, with the levels of the listing; the levels before an error stay applied.
abbrev pub apply_levels :
    List (Text × TreeNodes) → TreeNodes → TreeNodes × Result (Unit {0}) IdeError
apply_levels [] nodes = (nodes, ok tt)
apply_levels ((dir, kids) ∷ levels) nodes =
    elim (find_node_mut (apply_listed_children kids) dir nodes) [
      | none ↦ (nodes, err (not_found dir))
      | some (ns, err e) ↦ (ns, err e)
      | some (ns, ok done) ↦ apply_levels levels ns
    ]

unfoldable pub apply_listing :
    Text → List (Text × TreeNodes) → FileTree → FileTree × Result (Unit {0}) IdeError
apply_listing p levels tree =
    let (nodes, r) = apply_levels levels tree.children in
    if p == tree.root then (tree, ok tt) else (record tree { children = nodes }, r)

unfoldable pub compact_chain : Text → FileTree → Option CompactChain
unfolding find_node from_node
compact_chain p tree = elim (find_node p tree.children) [ none ↦ none | some node ↦ from_node node ]

unfoldable pub needs_compact_listing : Text → FileTree → Bool
unfolding find_node compact_tail
needs_compact_listing p tree = elim (find_node p tree.children) [
  | none ↦ true
  | some node ↦ if is_dir node then not (is_loaded (compact_tail node)) else false
]

-- `TreeExpansion`: the expanded paths, in the order in which they were expanded.
abbrev pub expand_path : Text → FileTree → List Text → List Text × Result (Unit {0}) IdeError
expand_path p tree expanded =
    let marked = if contains expanded p then expanded else expanded ++ p ∷ [] in
    if p == tree.root then (marked, ok tt) else elim (find_node p tree.children) [
      | none ↦ (expanded, err (not_found p))
      | some node ↦ (if is_dir node then marked else expanded, ok tt)
    ]

abbrev pub collapse_path : Text → List Text → List Text
collapse_path p expanded = keep (λ q. not (q == p)) expanded
