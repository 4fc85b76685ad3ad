-- ===== src/Index/Priority.antt =====
-- progressive-lsp-index/src/priority.rs: the order in which dirty paths are indexed.
pub mod Order
use progressive_lsp.Base.{
  ℕ, Bool, true, false, ◌||◌, not, List, [], ◌∷◌, map, Option, none, some, Text, text_eq, nat_eq,
  codes, leb, if◌then◌else◌, ◌==◌, keep, contains,
}
use progressive_lsp.Core.Paths.{Components, path_eq, components}
use progressive_lsp.Base.Texts.{starts_with, contains_text, forward_slashes}

pub data IndexClass : Type 0 where
  open_file recent same_package other vendor : IndexClass

-- The order of the constructors, `IndexClass as u8`.
abbrev pub class_rank : IndexClass → ℕ
class_rank open_file = 0
class_rank recent = 1
class_rank same_package = 2
class_rank other = 3
class_rank vendor = 4

unfoldable pub is_vendor : Text → Bool
unfolding starts_with contains_text
is_vendor path =
    let s = forward_slashes path in
    contains_text s (codes "/node_modules/")
    || starts_with s (codes "node_modules/")
    || contains_text s (codes "/vendor/")
    || starts_with s (codes "vendor/")
    || contains_text s (codes "/zig-cache/")
    || contains_text s (codes "/.zig-cache/")
    || starts_with s (codes "zig-cache/")

-- The two `BTreeSet`s of paths, of which only membership is read; it compares the parts of a path.
pub record PriorityIndex : Type 0 where
  pub open_paths : List Components
  pub recent_paths : List Components
  pub package_prefix : Option Text

abbrev pub new_priority : PriorityIndex
new_priority = record { open_paths = []; recent_paths = []; package_prefix = none }

abbrev pub without : Components → List Components → List Components
without path = keep (λ x. not (x == path))

unfoldable pub mark_open : Text → PriorityIndex → PriorityIndex
unfolding components
mark_open path p = record p {
  recent_paths = without (components path) p.recent_paths;
  open_paths = components path ∷ p.open_paths;
}

unfoldable pub mark_closed : Text → PriorityIndex → PriorityIndex
unfolding components
mark_closed path p = record p {
  open_paths = without (components path) p.open_paths;
  recent_paths =
      if contains p.open_paths (components path)
      then components path ∷ p.recent_paths
      else p.recent_paths;
}

abbrev pub in_package : Option Text → Text → Bool
in_package none path = false
in_package (some prefix) path = contains_text path prefix

unfoldable pub classify : PriorityIndex → Text → IndexClass
unfolding is_vendor contains_text components
classify p path =
    if is_vendor path
    then vendor
    else if contains p.open_paths (components path)
    then open_file
    else if contains p.recent_paths (components path)
    then recent
    else if in_package p.package_prefix path
    then same_package
    else other

-- `sort_by_key`, which is stable: an element goes before those of its own rank.
unfoldable pub insert_by : (Text → ℕ) → Text → List Text → List Text
insert_by key path [] = path ∷ []
insert_by key path (x ∷ xs) =
    let rest = insert_by key path xs in if leb (key path) (key x) then path ∷ x ∷ xs else x ∷ rest

unfoldable pub sort_by_key : (Text → ℕ) → List Text → List Text
unfolding insert_by
sort_by_key key [] = []
sort_by_key key (x ∷ xs) = insert_by key x (sort_by_key key xs)

unfoldable pub order : PriorityIndex → List Text → List Text
unfolding sort_by_key classify
order p dirty = sort_by_key (λ path. class_rank (classify p path)) dirty
