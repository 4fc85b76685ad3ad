-- ===== src/Ide/Tree/Listings.antt =====
-- The searches of the tree agree, and a listing that is made elsewhere does what expanding does
-- (poc-ide/src/tree.rs).
use progressive_lsp.Base.{
  ◌≡◌, ◌↔◌, inl, inr, refl, ap, ◌∙◌, [], ◌∷◌, none, some, arith, Text, text_eq, ==_iff, ok, err,
  Option-cases,
}
use progressive_lsp.Ide.Ports.{not_found, FsPort}
use progressive_lsp.Ide.Tree.{
  TreeNode, file, directory, Children, unlisted, listed, TreeNodes, no_nodes, and_nodes, path,
  find_node, find_inside, find_children, at_level, in_nodes, in_node, in_children, find_node_mut,
  list_immediate, load_children, FileTree, expand, apply_listed_children, apply_levels,
  apply_listing,
}
use progressive_lsp.Ide.Tree.Expanding.{Outcome}

module _ (f : TreeNode → TreeNode × Outcome) (p : Text) where
  mutual
    unfolding in_nodes find_node

    find_node-none :
        (nodes : TreeNodes)
        → at_level f p nodes ≡ none
        → in_nodes f p nodes ≡ none
        → find_node p nodes ≡ none
    find_node-none no_nodes h k = refl
    find_node-none (and_nodes node nodes) h k =
        ground (arith, h, k, find_inside-none node, find_node-none nodes)

    find_inside-none : (node : TreeNode) → in_node f p node ≡ none → find_inside p node ≡ none
    find_inside-none (file n q) h = refl
    find_inside-none (directory n q c) h = ground (arith, h, find_children-none c)

    find_children-none : (c : Children) → in_children f p c ≡ none → find_children p c ≡ none
    find_children-none unlisted h = refl
    find_children-none (listed nodes) h = ground (arith, h, find_node-none nodes)

  mutual
    unfolding in_nodes find_node

    none-find_node :
        (nodes : TreeNodes)
        → find_node p nodes ≡ none
        → (at_level f p nodes ≡ none) × (in_nodes f p nodes ≡ none)
    none-find_node no_nodes h = (refl, refl)
    none-find_node (and_nodes node nodes) h =
        ground (arith, h, none-find_inside node, none-find_node nodes)

    none-find_inside : (node : TreeNode) → find_inside p node ≡ none → in_node f p node ≡ none
    none-find_inside (file n q) h = refl
    none-find_inside (directory n q c) h = ground (arith, h, none-find_children c)

    none-find_children : (c : Children) → find_children p c ≡ none → in_children f p c ≡ none
    none-find_children unlisted h = refl
    none-find_children (listed nodes) h = ground (arith, h, none-find_node nodes)

-- The two searches find a path in the same trees.
find_node_iff :
    (f : TreeNode → TreeNode × Outcome) (p : Text) (nodes : TreeNodes)
    → (find_node p nodes ≡ none) ↔ (find_node_mut f p nodes ≡ none)
unfolding find_node_mut
find_node_iff f p nodes = (
  λ h. ground (arith, none-find_node f p nodes h),
  λ h. ground (arith, h, find_node-none f p nodes),
)

-- An edit is applied at most to a node of the path.
module _ (f g : TreeNode → TreeNode × Outcome) (p : Text)
    (agree : (n : TreeNode) → path n ≡ p → f n ≡ g n) where
  at_level-agree : (nodes : TreeNodes) → at_level f p nodes ≡ at_level g p nodes
  at_level-agree no_nodes = refl
  at_level-agree (and_nodes node nodes) =
      ground (arith, agree node, at_level-agree nodes, ==_iff (path node) p)

  mutual
    unfolding in_nodes

    in_nodes-agree : (nodes : TreeNodes) → in_nodes f p nodes ≡ in_nodes g p nodes
    in_nodes-agree no_nodes = refl
    in_nodes-agree (and_nodes node nodes) = ground (arith, in_node-agree node, in_nodes-agree nodes)

    in_node-agree : (node : TreeNode) → in_node f p node ≡ in_node g p node
    in_node-agree (file n q) = refl
    in_node-agree (directory n q c) = ground (arith, in_children-agree c)

    in_children-agree : (c : Children) → in_children f p c ≡ in_children g p c
    in_children-agree unlisted = refl
    in_children-agree (listed nodes) = ground (arith, at_level-agree nodes, in_nodes-agree nodes)

  find_node_mut-agree : (nodes : TreeNodes) → find_node_mut f p nodes ≡ find_node_mut g p nodes
  unfolding find_node_mut
  find_node_mut-agree nodes = ground (arith, at_level-agree nodes, in_nodes-agree nodes)

load_children-listed :
    (fs : FsPort) (files : fs.Files) (p : Text) (kids : TreeNodes)
    → list_immediate fs files p ≡ ok kids
    → (n : TreeNode) → path n ≡ p
    → load_children fs files n ≡ apply_listed_children kids n
unfolding load_children apply_listed_children
load_children-listed fs files p kids h (file m q) e = refl
load_children-listed fs files p kids h (directory m q (listed nodes)) e = refl
load_children-listed fs files p kids h (directory m q unlisted) e =
    let here : list_immediate fs files q ≡ ok kids = ap (list_immediate fs files) e ∙ h in
    ground (arith, here)

-- A listing of one level.
one_level :
    (p : Text) (kids nodes : TreeNodes)
    → apply_levels ((p, kids) ∷ []) nodes
      ≡ (elim (find_node_mut (apply_listed_children kids) p nodes) as (λ _. TreeNodes × Outcome) [
        | none ↦ (nodes, err (not_found p))
        | some (ns, r) ↦ (ns, r)
      ])
one_level p kids nodes = ground arith

-- If a directory can be listed, expanding its path does to the tree just what it does to apply
-- this listing of it, errors included.
pub expand-eq-apply_listing :
    (fs : FsPort) (files : fs.Files) (p : Text) (kids : TreeNodes) (tree : FileTree)
    → list_immediate fs files p ≡ ok kids
    → expand fs files p tree ≡ apply_listing p ((p, kids) ∷ []) tree
unfolding expand apply_listing
expand-eq-apply_listing fs files p kids tree h =
    let same =
      find_node_mut-agree (load_children fs files) (apply_listed_children kids) p
        (load_children-listed fs files p kids h) tree.children in
    elim (Option-cases (find_node_mut (load_children fs files) p tree.children)) [
      | inl missing ↦ ground (arith, same, missing, one_level p kids tree.children)
      | inr ((ns, r), e) ↦ ground (arith, same, e, one_level p kids tree.children)
    ]
