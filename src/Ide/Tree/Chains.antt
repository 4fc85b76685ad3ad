-- ===== src/Ide/Tree/Chains.antt =====
-- A row that shows a chain of directories (poc-ide/src/tree.rs).
use progressive_lsp.Base.{◌≡◌, refl, List, [], ◌∷◌, ◌++◌, true, some, Text}
use progressive_lsp.Ide.Tree.{
  TreeNode, file, directory, Children, unlisted, listed, TreeNodes, no_nodes, and_nodes, name, path,
  is_dir, tail_in, tail_of, compact_tail, CompactChain, chain_in, chain_of, from_node,
}

-- A chain that ends in a directory, which is the tail of a chain itself.
abbrev pub EndsIn : CompactChain → TreeNode → Type 0
EndsIn chain tail =
    (chain.path ≡ path tail)
    × (is_dir tail ≡ true)
    × (compact_tail tail ≡ tail)
    × ((before : List Text) × (chain.names ≡ before ++ name tail ∷ []))

mutual
  unfolding chain_in tail_in compact_tail

  chain_in-EndsIn :
      (names before : List Text) (n p : Text) (c : Children)
      → names ≡ before ++ n ∷ []
      → EndsIn (chain_in names p c) (tail_in (directory n p c) c)
  chain_in-EndsIn names before n p unlisted h = (refl, refl, refl, (before, h))
  chain_in-EndsIn names before n p (listed nodes) h = chain_of-EndsIn names before n p nodes h

  chain_of-EndsIn :
      (names before : List Text) (n p : Text) (nodes : TreeNodes)
      → names ≡ before ++ n ∷ []
      → EndsIn (chain_of names p nodes) (tail_of (directory n p (listed nodes)) nodes)
  chain_of-EndsIn names before n p no_nodes h = (refl, refl, refl, (before, h))
  chain_of-EndsIn names before n p (and_nodes (directory m q c) no_nodes) h =
      chain_in-EndsIn (names ++ m ∷ []) names m q c refl
  chain_of-EndsIn names before n p (and_nodes (file m q) nodes) h = (refl, refl, refl, (before, h))
  chain_of-EndsIn names before n p (and_nodes (directory m q c) (and_nodes node nodes)) h =
      (refl, refl, refl, (before, h))

-- The chain that starts at a directory ends in the directory that `compact_tail` gives: this has
-- the chain's path and its last name, and is the tail of its own chain.
from_node-compact_tail :
    (n p : Text) (c : Children)
    → (chain : CompactChain) × (from_node (directory n p c) ≡ some chain)
      × EndsIn chain (compact_tail (directory n p c))
unfolding from_node compact_tail
from_node-compact_tail n p c = (chain_in (n ∷ []) p c, refl, chain_in-EndsIn (n ∷ []) [] n p c refl)
