-- ===== src/Ide/Tabs.antt =====
-- poc-ide/src/tabs.rs: the open tabs and the one in focus. A tab is known by its path.
pub mod Focus
use progressive_lsp.Base.{
  ℕ, zero, suc, ◌-◌, List, [], ◌∷◌, ◌++◌, Bool, true, false, Option, none, some, Text, text_eq,
  codes, if◌then◌else◌, ◌==◌, get_elem?, contains,
}

pub record TabStrip : Type 0 where
  pub tabs : List Text
  pub focused : Option Text

abbrev pub new_strip : TabStrip
new_strip = record { tabs = []; focused = none }

unfoldable pub open_tab : Text → TabStrip → TabStrip
open_tab id strip = record {
  tabs = if contains strip.tabs id then strip.tabs else strip.tabs ++ id ∷ [];
  focused = some id;
}

unfoldable pub focus : Text → TabStrip → TabStrip
focus id strip = if contains strip.tabs id then record strip { focused = some id } else strip

-- `iter().position(|t| t == id)`
abbrev pub position : Text → List Text → Option ℕ
position id [] = none
position id (t ∷ tabs) = elim (t == id) [
  | true ↦ some 0
  | false ↦ elim (position id tabs) [ none ↦ none | some n ↦ some (suc n) ]
]

abbrev pub remove_at : ℕ → List Text → List Text
remove_at n [] = []
remove_at zero (t ∷ tabs) = tabs
remove_at (suc n) (t ∷ tabs) = t ∷ remove_at n tabs

-- The tab in front of the closed one, or else the first one left.
abbrev pub neighbour : ℕ → List Text → Option Text
neighbour zero tabs = get_elem? tabs 0
neighbour (suc n) tabs = get_elem? tabs n

abbrev pub is_focused : Text → Option Text → Bool
is_focused id none = false
is_focused id (some t) = t == id

unfoldable pub close : Text → TabStrip → TabStrip
close id strip = elim (position id strip.tabs) [
  | none ↦ strip
  | some n ↦
      let left = remove_at n strip.tabs in
      record {
        tabs = left;
        focused = if is_focused id strip.focused then neighbour n left else strip.focused;
      }
]

-- The language of the focused tab, or of the first tab that has one; the catalog is an argument.
module _ (for_path : Text → Text) (is_known : Text → Bool) where
  abbrev pub first_known : List Text → Text
  first_known [] = codes "plaintext"
  first_known (t ∷ tabs) =
      let rest = first_known tabs in if is_known (for_path t) then for_path t else rest

  unfoldable pub language_for_strip : TabStrip → Text
  language_for_strip strip = elim strip.focused [
    | none ↦ first_known strip.tabs
    | some t ↦ if is_known (for_path t) then for_path t else first_known strip.tabs
  ]
