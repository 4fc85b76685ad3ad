-- ===== src/Ide/Tree/Expanding.antt =====
-- What it does to a tree to expand a directory (poc-ide/src/tree.rs).
use progressive_lsp.Base.{
  ◌≡◌, ◌⊎◌, inl, inr, refl, ap, Option, none, some, arith, Text, text_eq, ◌==◌, Result, ok,
  Bool-cases, Option-cases,
}
use progressive_lsp.Ide.Ports.{IdeError, FsPort}
use progressive_lsp.Ide.Tree.{
  TreeNode, file, directory, Children, unlisted, listed, TreeNodes, no_nodes, and_nodes, path,
  at_level, in_nodes, in_node, in_children, find_node_mut, load_children, FileTree, expand,
}

abbrev pub Outcome : Type 0
Outcome = Result (Unit {0}) IdeError

-- What a search that succeeds has found.
module _ (f : TreeNode → TreeNode × Outcome) (p : Text) where
  in_node-inv :
      (n q : Text) (c : Children) (m : TreeNode) (r : Outcome)
      → in_node f p (directory n q c) ≡ some (m, r)
      → (d : Children) × (in_children f p c ≡ some (d, r)) × (m ≡ directory n q d)
  unfolding in_nodes
  in_node-inv n q c m r h = elim (Option-cases (in_children f p c)) [
    | inl missing ↦ absurd (ground (arith, h, missing))
    | inr ((d, s), e) ↦
        let same : s ≡ r = ground (arith, h, e) in (d, rw same at e, ground (arith, h, e))
  ]

  in_nodes-inv :
      (node : TreeNode) (nodes ns : TreeNodes) (r : Outcome)
      → in_nodes f p (and_nodes node nodes) ≡ some (ns, r)
      → ((n : TreeNode) × (in_node f p node ≡ some (n, r)) × (ns ≡ and_nodes n nodes))
        ⊎ ((ms : TreeNodes) × (in_node f p node ≡ none)
            × (in_nodes f p nodes ≡ some (ms, r))
            × (ns ≡ and_nodes node ms))
  unfolding in_nodes
  in_nodes-inv node nodes ns r h = elim (Option-cases (in_node f p node)) [
    | inr ((n, s), e) ↦
        let same : s ≡ r = ground (arith, h, e) in inl (n, rw same at e, ground (arith, h, e))
    | inl missing ↦ elim (Option-cases (in_nodes f p nodes)) [
      | inl nothing ↦ absurd (ground (arith, h, missing, nothing))
      | inr ((ms, s), e) ↦
          let same : s ≡ r = ground (arith, h, missing, e) in
          inr (ms, missing, rw same at e, ground (arith, h, missing, e))
    ]
  ]

  in_children-listed :
      (nodes : TreeNodes)
      → in_children f p (listed nodes)
        ≡ (elim (find_node_mut f p nodes) as (λ _. Option (Children × Outcome)) [
          | none ↦ none
          | some (ns, r) ↦ some (listed ns, r)
        ])
  unfolding in_nodes find_node_mut
  in_children-listed nodes = ground arith

  in_children-inv :
      (nodes : TreeNodes) (d : Children) (r : Outcome)
      → in_children f p (listed nodes) ≡ some (d, r)
      → (ns : TreeNodes) × (find_node_mut f p nodes ≡ some (ns, r)) × (d ≡ listed ns)
  in_children-inv nodes d r h = elim (Option-cases (find_node_mut f p nodes)) [
    | inl missing ↦ absurd (ground (arith, h, missing, in_children-listed nodes))
    | inr ((ns, s), e) ↦
        let same : s ≡ r = ground (arith, h, e, in_children-listed nodes) in
        (ns, rw same at e, ground (arith, h, e, in_children-listed nodes))
  ]

-- An edit that keeps the path of its node, and one that leaves alone what the first has done.
module _ (f g : TreeNode → TreeNode × Outcome) (p : Text)
    (same : (n : TreeNode) → path (f n).0 ≡ path n)
    (again : (n : TreeNode) → (f n).1 ≡ ok tt → g (f n).0 ≡ ((f n).0, ok tt)) where
  at_level-again :
      (nodes ns : TreeNodes)
      → at_level f p nodes ≡ some (ns, ok tt)
      → at_level g p ns ≡ some (ns, ok tt)
  at_level-again no_nodes ns h = cc
  at_level-again (and_nodes node nodes) ns h = elim (Bool-cases (path node == p)) [
    | inl here ↦
        let e : and_nodes (f node).0 nodes ≡ ns = ground (arith, h, here) in
        let works : (f node).1 ≡ ok tt = ground (arith, h, here) in
        rw (← e) (ground (arith, here, same node, again node works))
    | inr there ↦ elim (Option-cases (at_level f p nodes)) [
      | inl missing ↦ absurd (ground (arith, h, there, missing))
      | inr ((ms, r), e) ↦
          let whole : and_nodes node ms ≡ ns = ground (arith, h, there, e) in
          let works : r ≡ ok tt = ground (arith, h, there, e) in
          let ih = at_level-again nodes ms (rw works at e) in
          rw (← whole) (ground (arith, there, ih))
    ]
  ]

  -- Where a search ends does not depend on the edit.
  at_level-none : (nodes : TreeNodes) → at_level f p nodes ≡ none → at_level g p nodes ≡ none
  at_level-none no_nodes h = refl
  at_level-none (and_nodes node nodes) h = ground (arith, h, at_level-none nodes)

  mutual
    unfolding in_nodes

    in_nodes-none : (nodes : TreeNodes) → in_nodes f p nodes ≡ none → in_nodes g p nodes ≡ none
    in_nodes-none no_nodes h = refl
    in_nodes-none (and_nodes node nodes) h =
        ground (arith, h, in_node-none node, in_nodes-none nodes)

    in_node-none : (node : TreeNode) → in_node f p node ≡ none → in_node g p node ≡ none
    in_node-none (file n q) h = refl
    in_node-none (directory n q c) h = ground (arith, h, in_children-none c)

    in_children-none : (c : Children) → in_children f p c ≡ none → in_children g p c ≡ none
    in_children-none unlisted h = refl
    in_children-none (listed nodes) h = ground (arith, h, at_level-none nodes, in_nodes-none nodes)

  -- A search in the depth changes no path of the level.
  in_node-path :
      (node n : TreeNode) (r : Outcome) → in_node f p node ≡ some (n, r) → path n ≡ path node
  unfolding in_nodes
  in_node-path (file m q) n r h = cc
  in_node-path (directory m q c) n r h =
      let (d, e, whole) = in_node-inv f p m q c n r h in ap path whole

  in_nodes-at_level :
      (nodes ns : TreeNodes) (r : Outcome)
      → in_nodes f p nodes ≡ some (ns, r)
      → at_level g p nodes ≡ none
      → at_level g p ns ≡ none
  unfolding in_nodes
  in_nodes-at_level no_nodes ns r h k = cc
  in_nodes-at_level (and_nodes node nodes) ns r h k = elim (in_nodes-inv f p node nodes ns r h) [
    | inl (n, e, whole) ↦ rw whole (ground (arith, k, in_node-path node n r e))
    | inr (ms, missing, e, whole) ↦ rw whole (ground (arith, k, in_nodes-at_level nodes ms r e))
  ]

  find_node_mut-deeper :
      (nodes ns : TreeNodes)
      → (in_nodes f p nodes ≡ some (ns, ok tt) → in_nodes g p ns ≡ some (ns, ok tt))
      → find_node_mut f p nodes ≡ some (ns, ok tt)
      → find_node_mut g p ns ≡ some (ns, ok tt)
  unfolding find_node_mut
  find_node_mut-deeper nodes ns deeper h = elim (Option-cases (at_level f p nodes)) [
    | inl missing ↦
        let e : in_nodes f p nodes ≡ some (ns, ok tt) = ground (arith, h, missing) in
        ground (arith, deeper e, in_nodes-at_level nodes ns (ok tt) e (at_level-none nodes missing))
    | inr (found, e) ↦
        let whole : at_level f p nodes ≡ some (ns, ok tt) = ground (arith, h, e) in
        ground (arith, at_level-again nodes ns whole)
  ]

  mutual
    unfolding in_nodes

    in_nodes-again :
        (nodes ns : TreeNodes)
        → in_nodes f p nodes ≡ some (ns, ok tt)
        → in_nodes g p ns ≡ some (ns, ok tt)
    in_nodes-again no_nodes ns h = cc
    in_nodes-again (and_nodes node nodes) ns h = elim (in_nodes-inv f p node nodes ns (ok tt) h) [
      | inl (n, e, whole) ↦ rw whole (ground (arith, in_node-again node n e))
      | inr (ms, missing, e, whole) ↦
          rw whole (ground (arith, in_node-none node missing, in_nodes-again nodes ms e))
    ]

    in_node-again :
        (node n : TreeNode) → in_node f p node ≡ some (n, ok tt) → in_node g p n ≡ some (n, ok tt)
    in_node-again (file m q) n h = cc
    in_node-again (directory m q c) n h =
        let (d, e, whole) = in_node-inv f p m q c n (ok tt) h in
        rw whole (ground (arith, in_children-again c d e))

    in_children-again :
        (c d : Children) → in_children f p c ≡ some (d, ok tt) → in_children g p d ≡ some (d, ok tt)
    in_children-again unlisted d h = cc
    in_children-again (listed nodes) d h =
        let (ns, e, whole) = in_children-inv f p nodes d (ok tt) h in
        rw whole (
          ground (
            arith,
            in_children-listed g p ns,
            find_node_mut-deeper nodes ns (in_nodes-again nodes ns) e,
          ))

  find_node_mut-again :
      (nodes ns : TreeNodes)
      → find_node_mut f p nodes ≡ some (ns, ok tt)
      → find_node_mut g p ns ≡ some (ns, ok tt)
  find_node_mut-again nodes ns h = find_node_mut-deeper nodes ns (in_nodes-again nodes ns) h

load_children-path :
    (fs : FsPort) (files : fs.Files) (n : TreeNode) → path (load_children fs files n).0 ≡ path n
unfolding load_children
load_children-path fs files (file n p) = refl
load_children-path fs files (directory n p (listed nodes)) = refl
load_children-path fs files (directory n p unlisted) = ground arith

load_children-again :
    (fs : FsPort) (files later : fs.Files) (n : TreeNode)
    → (load_children fs files n).1 ≡ ok tt
    → load_children fs later (load_children fs files n).0 ≡ ((load_children fs files n).0, ok tt)
unfolding load_children
load_children-again fs files later (file n p) h = cc
load_children-again fs files later (directory n p (listed nodes)) h = refl
load_children-again fs files later (directory n p unlisted) h = ground (arith, h)

-- If a directory has been expanded, expanding its path again works and changes nothing, whatever
-- the files are by then.
pub expand-again :
    (fs : FsPort) (files later : fs.Files) (p : Text) (tree tree' : FileTree)
    → expand fs files p tree ≡ (tree', ok tt)
    → expand fs later p tree' ≡ (tree', ok tt)
unfolding expand
expand-again fs files later p tree tree' h = elim (Bool-cases (p == tree.root)) [
  | inl at_root ↦
      let same : tree ≡ tree' = ground (arith, h, at_root) in rw (← same) (ground (arith, at_root))
  | inr below ↦ elim (Option-cases (find_node_mut (load_children fs files) p tree.children)) [
    | inl missing ↦ absurd (ground (arith, h, below, missing))
    | inr ((ns, r), e) ↦
        let works : r ≡ ok tt = ground (arith, h, below, e) in
        let same : record tree { children = ns } ≡ tree' = ground (arith, h, below, e) in
        let found =
          find_node_mut-again (load_children fs files) (load_children fs later) p
            (load_children-path fs files) (load_children-again fs files later) tree.children ns
            (rw works at e) in
        rw (← same) (ground (arith, below, found))
  ]
]
