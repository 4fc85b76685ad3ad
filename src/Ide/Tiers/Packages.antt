-- ===== src/Ide/Tiers/Packages.antt =====
-- Which package a path belongs to (poc-ide/src/tier.rs).
use progressive_lsp.Base.{
  ℕ, ◌≤◌, ◌≡◌, ◌⊎◌, inl, inr, refl, sym, ap, ◌∙◌, [], ◌∷◌, true, false, ◌&&◌, Option, none, some,
  arith, Text, All, In, Bool-cases,
}
use progressive_lsp.Base.Map.{Map}
use progressive_lsp.Ide.Tiers.{
  WireTier, size, PackageTierMap, aggregate, is_in, is_longer, longest_in, tier_for_path,
}

abbrev AtMost : Option (Text × WireTier) → ℕ → Type 0
AtMost none n = Unit
AtMost (some (b, t)) n = size b ≤ n

-- No package is in the path, and none has been found before.
abbrev NoneIn : Text → Option (Text × WireTier) → Map Text WireTier → Type 0
NoneIn s best packages = (best ≡ none) × All (λ e. is_in s e.0 ≡ false) packages

-- A package in the path that no other one in it is longer than.
abbrev IsLongest : Text → Option (Text × WireTier) → Map Text WireTier → Text × WireTier → Type 0
IsLongest s best packages (id, t) =
    ((best ≡ some (id, t)) ⊎ (In (id, t) packages × (is_in s id ≡ true)))
    × All (λ e. is_in s e.0 ≡ true → size e.0 ≤ size id) packages
    × AtMost best (size id)

abbrev IsResult :
    Text → Option (Text × WireTier) → Map Text WireTier → Option (Text × WireTier) → Type 0
IsResult s best packages none = NoneIn s best packages
IsResult s best packages (some e) = IsLongest s best packages e

found :
    (s id i : Text) (t u : WireTier) (packages : Map Text WireTier)
    → is_in s id ≡ true
    → (◌≡◌ {A = Option (Text × WireTier)} (some (id, t)) (some (i, u)))
      ⊎ (In (i, u) packages × (is_in s i ≡ true))
    → In (i, u) ((id, t) ∷ packages) × (is_in s i ≡ true)
found s id i t u packages here (inr (m, h)) = (inr m, h)
found s id i t u packages here (inl e) =
    let same : ◌≡◌ {A = Text × WireTier} (id, t) (i, u) = cc e in
    (inl same, sym (ap (λ p. is_in s p.0) same) ∙ here)

-- A package that is taken, and one that is left.
taken :
    (s id : Text) (t : WireTier) (best : Option (Text × WireTier)) (packages : Map Text WireTier)
    (r : Option (Text × WireTier))
    → is_in s id ≡ true
    → is_longer id best ≡ true
    → IsResult s (some (id, t)) packages r
    → IsResult s best ((id, t) ∷ packages) r
taken s id t best packages none here longer (missing, rest) = absurd (cc missing)
taken s id t none packages (some (i, u)) here longer (from, most, least) =
    (inr (found s id i t u packages here from), (λ _. least, most), tt)
taken s id t (some (b, v)) packages (some (i, u)) here longer (from, most, least) =
    (inr (found s id i t u packages here from), (λ _. least, most), ground (arith, longer))

left :
    (s id : Text) (t : WireTier) (best : Option (Text × WireTier)) (packages : Map Text WireTier)
    (r : Option (Text × WireTier))
    → (is_in s id && is_longer id best) ≡ false
    → IsResult s best packages r
    → IsResult s best ((id, t) ∷ packages) r
left s id t best packages none short (missing, rest) =
    (missing, (ground (arith, short, ap (is_longer id) missing), rest))
left s id t none packages (some (i, u)) short (from, most, least) = (
  elim from [ inl e ↦ absurd (cc e) | inr (m, h) ↦ inr (inr m, h) ],
  (λ h. absurd (ground (arith, short, h)), most),
  tt,
)
left s id t (some (b, v)) packages (some (i, u)) short (from, most, least) = (
  elim from [ inl e ↦ inl e | inr (m, h) ↦ inr (inr m, h) ],
  (λ h. ground (arith, short, h, least), most),
  least,
)

longest_in-IsResult :
    (s : Text) (best : Option (Text × WireTier)) (packages : Map Text WireTier)
    → IsResult s best packages (longest_in s best packages)
longest_in-IsResult s none [] = (refl, tt)
longest_in-IsResult s (some (b, t)) [] = (inl refl, tt, omega arith)
longest_in-IsResult s best ((id, t) ∷ packages) =
    elim (Bool-cases (is_in s id && is_longer id best)) [
      | inl take ↦ rw take (
          taken s id t best packages (longest_in s (some (id, t)) packages) (ground (arith, take))
            (ground (arith, take)) (longest_in-IsResult s (some (id, t)) packages))
      | inr skip ↦ rw skip (
          left s id t best packages (longest_in s best packages) skip
            (longest_in-IsResult s best packages))
    ]

-- A tier that a path has: that of a longest package in it, or else the highest of all.
abbrev pub IsTierFor : Text → PackageTierMap → Option WireTier → Type 0
IsTierFor s m r =
    (All (λ e. is_in s e.0 ≡ false) m.packages × (r ≡ aggregate m))
    ⊎ ((id : Text) × (t : WireTier) × (r ≡ some t)
        × In (id, t) m.packages
        × (is_in s id ≡ true)
        × All (λ e. is_in s e.0 ≡ true → size e.0 ≤ size id) m.packages)

result-IsTierFor :
    (s : Text) (m : PackageTierMap) (r : Option (Text × WireTier))
    → longest_in s none m.packages ≡ r
    → IsResult s none m.packages r
    → IsTierFor s m (tier_for_path s m)
unfolding tier_for_path
result-IsTierFor s m none e (none_before, none_in) = inl (none_in, ground (arith, e))
result-IsTierFor s m (some (id, t)) e (inl before, most, least) = absurd (cc before)
result-IsTierFor s m (some (id, t)) e (inr (there, here), most, least) =
    inr (id, t, ground (arith, e), there, here, most)

-- The tier for a path is that of a package whose id is in the path and which no other such
-- package is longer than, or, if no package's id is in the path, that of the workspace.
pub tier_for_path-IsTierFor : (s : Text) (m : PackageTierMap) → IsTierFor s m (tier_for_path s m)
tier_for_path-IsTierFor s m =
    result-IsTierFor s m (longest_in s none m.packages) refl (longest_in-IsResult s none m.packages)
