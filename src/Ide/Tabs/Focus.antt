-- ===== src/Ide/Tabs/Focus.antt =====
-- The tabs stay distinct, and the focus is on one of them (poc-ide/src/tabs.rs).
use progressive_lsp.Base.{
  ℕ, zero, suc, ◌≡◌, inl, inr, refl, ap, List, [], ◌∷◌, ◌++◌, true, false, Option, none, some,
  arith, Text, text_eq, if◌then◌else◌, ◌==◌, ==_iff, get_elem?, contains, Bool-cases, Option-cases,
}
use progressive_lsp.Ide.Tabs.{
  TabStrip, new_strip, open_tab, focus, position, remove_at, neighbour, is_focused, close,
}

abbrev pub Distinct : List Text → Type 0
Distinct [] = Unit
Distinct (t ∷ tabs) = (contains tabs t ≡ false) × Distinct tabs

-- The focus is on a tab, and there is one whenever there are tabs.
abbrev pub Focuses : List Text → Option Text → Type 0
Focuses tabs none = tabs ≡ []
Focuses tabs (some t) = contains tabs t ≡ true

pub record IsValid (strip : TabStrip) : Type 0 where
  pub distinct : Distinct strip.tabs
  pub focuses : Focuses strip.tabs strip.focused

contains-append :
    (xs ys : List Text) (t : Text)
    → contains (xs ++ ys) t ≡ (if contains xs t then true else contains ys t)
contains-append [] ys t = refl
contains-append (x ∷ xs) ys t = ground (arith, contains-append xs ys t)

Distinct-append_one :
    (tabs : List Text) (t : Text)
    → contains tabs t ≡ false
    → Distinct tabs
    → Distinct (tabs ++ t ∷ [])
Distinct-append_one [] t h d = (refl, tt)
Distinct-append_one (x ∷ xs) t h d = (
  ground (arith, contains-append xs (t ∷ []) x, ==_iff x t, ==_iff t x, d.0),
  Distinct-append_one xs t (ground arith) d.1,
)

open_tab-IsValid : (id : Text) (strip : TabStrip) → IsValid strip → IsValid (open_tab id strip)
unfolding open_tab
open_tab-IsValid id strip v = elim (Bool-cases (contains strip.tabs id)) [
  | inl there ↦ rw there (record { distinct = v.distinct; focuses = there })
  | inr absent ↦ rw absent (record {
    distinct = Distinct-append_one strip.tabs id absent v.distinct;
    focuses = ground (arith, contains-append strip.tabs (id ∷ []) id, ==_iff id id);
  })
]

focus-IsValid : (id : Text) (strip : TabStrip) → IsValid strip → IsValid (focus id strip)
unfolding focus
focus-IsValid id strip v = elim (Bool-cases (contains strip.tabs id)) [
  | inl there ↦ rw there (record { distinct = v.distinct; focuses = there })
  | inr absent ↦ rw absent v
]

-- What `position` finds is the tab, and its removal leaves all others.
remove_at-position :
    (id : Text) (tabs : List Text) (n : ℕ)
    → Distinct tabs
    → position id tabs ≡ some n
    → Distinct (remove_at n tabs)
      × ((t : Text) → contains (remove_at n tabs) t ≡ (if t == id then false else contains tabs t))
remove_at-position id [] n d h = cc
remove_at-position id (x ∷ xs) zero d h = (
  d.1,
  λ t. ground (arith, ==_iff x id, ==_iff t id, ==_iff x t, ap (contains xs) {x = x} {y = t}, d.0),
)
remove_at-position id (x ∷ xs) (suc n) d h =
    let (ih, left) = remove_at-position id xs n d.1 (ground arith) in
    (
      (ground (arith, left x, d.0), ih),
      λ t. ground (arith, left t, ==_iff x t, ==_iff t id, ==_iff x id),
    )

contains_at :
    (n : ℕ) (tabs : List Text) (t : Text) → get_elem? tabs n ≡ some t → contains tabs t ≡ true
contains_at n [] t h = cc
contains_at zero (x ∷ xs) t h = ground (arith, ==_iff x t)
contains_at (suc n) (x ∷ xs) t h = ground (arith, contains_at n xs t h)

-- There is a neighbour as long as tabs are left.
remove_at_front :
    (id : Text) (tabs : List Text) (n : ℕ)
    → position id tabs ≡ some (suc n)
    → (t : Text) × (get_elem? (remove_at (suc n) tabs) n ≡ some t)
remove_at_front id [] n h = cc
remove_at_front id (x ∷ xs) zero h = (x, refl)
remove_at_front id (x ∷ xs) (suc n) h = remove_at_front id xs n (ground arith)

neighbour-Focuses :
    (id : Text) (tabs : List Text) (n : ℕ)
    → position id tabs ≡ some n
    → Focuses (remove_at n tabs) (neighbour n (remove_at n tabs))
neighbour-Focuses id [] n h = cc
neighbour-Focuses id (x ∷ []) zero h = refl
neighbour-Focuses id (x ∷ y ∷ ys) zero h = ground (arith, ==_iff y y)
neighbour-Focuses id (x ∷ xs) (suc n) h =
    let (t, e) = remove_at_front id (x ∷ xs) n h in
    rw e (contains_at n (remove_at (suc n) (x ∷ xs)) t e)

close-absent :
    (id : Text) (strip : TabStrip) → position id strip.tabs ≡ none → close id strip ≡ strip
unfolding close
close-absent id strip h = ground (arith, h)

close-found :
    (id : Text) (strip : TabStrip) (n : ℕ)
    → position id strip.tabs ≡ some n
    → close id strip ≡ record {
      tabs = remove_at n strip.tabs;
      focused =
          if is_focused id strip.focused
          then neighbour n (remove_at n strip.tabs)
          else strip.focused;
    }
unfolding close
close-found id strip n h = ground (arith, h)

Focuses-close :
    (id : Text) (tabs : List Text) (n : ℕ) (focused : Option Text)
    → Distinct tabs
    → position id tabs ≡ some n
    → Focuses tabs focused
    → Focuses
        (remove_at n tabs)
        (if is_focused id focused then neighbour n (remove_at n tabs) else focused)
Focuses-close id tabs n none d h f = cc
Focuses-close id tabs n (some t) d h f = elim (Bool-cases (t == id)) [
  | inl closed ↦ rw closed (neighbour-Focuses id tabs n h)
  | inr other ↦ rw other (ground (arith, (remove_at-position id tabs n d h).1 t))
]

close-IsValid : (id : Text) (strip : TabStrip) → IsValid strip → IsValid (close id strip)
close-IsValid id strip v = elim (Option-cases (position id strip.tabs)) [
  | inl absent ↦ rw (close-absent id strip absent) v
  | inr (n, found) ↦ rw (close-found id strip n found) (record {
    distinct = (remove_at-position id strip.tabs n v.distinct found).0;
    focuses = Focuses-close id strip.tabs n strip.focused v.distinct found v.focuses;
  })
]

-- The calls that change the strip.
pub data TabCall : Type 0 where
  call_open call_focus call_close : Text → TabCall

abbrev pub run : List TabCall → TabStrip → TabStrip
run [] strip = strip
run (call_open id ∷ calls) strip = run calls (open_tab id strip)
run (call_focus id ∷ calls) strip = run calls (focus id strip)
run (call_close id ∷ calls) strip = run calls (close id strip)

run_from-IsValid :
    (calls : List TabCall) (strip : TabStrip) → IsValid strip → IsValid (run calls strip)
run_from-IsValid [] strip v = v
run_from-IsValid (call_open id ∷ calls) strip v =
    run_from-IsValid calls (open_tab id strip) (open_tab-IsValid id strip v)
run_from-IsValid (call_focus id ∷ calls) strip v =
    run_from-IsValid calls (focus id strip) (focus-IsValid id strip v)
run_from-IsValid (call_close id ∷ calls) strip v =
    run_from-IsValid calls (close id strip) (close-IsValid id strip v)

-- After any calls of a new tab strip its tabs are distinct, and the focus is on one of them, or
-- on none if there are no tabs.
pub run-IsValid : (calls : List TabCall) → IsValid (run calls new_strip)
run-IsValid calls = run_from-IsValid calls new_strip (record { distinct = tt; focuses = refl })
