-- ===== src/Base/Texts.antt =====
-- What the program uses of `str`: tests for parts, and the replacement of backslashes.
use Prim.Native.Nat.{ℕ, ◌-◌, ◌+◌}
use mathlib.Core.Option
use mathlib.Core.Option.{Option, none, some}
use mathlib.Core.Bool.{Bool, true, false, ◌&&◌, ◌||◌}
use mathlib.Core.List.{[], ◌∷◌, ◌++◌, map}
use progressive_lsp.Base.Tests.{if◌then◌else◌, ◌==◌, nat_eq, Text, text_eq, leb}
use progressive_lsp.Base.Lists.{length, drop}

unfoldable pub starts_with : Text → Text → Bool
starts_with s [] = true
starts_with [] (c ∷ prefix) = false
starts_with (d ∷ s) (c ∷ prefix) = let rest = starts_with s prefix in if d == c then rest else false

unfoldable pub ends_with : Text → Text → Bool
ends_with s suffix = leb (length suffix) (length s) && drop (length s - length suffix) s == suffix

unfoldable pub contains_text : Text → Text → Bool
unfolding starts_with
contains_text [] needle = starts_with [] needle
contains_text (c ∷ s) needle = starts_with (c ∷ s) needle || contains_text s needle

-- `replace('\\', "/")`, by the codes of the two characters
abbrev pub forward_slashes : Text → Text
forward_slashes s = map (λ c. if c == 92 then 47 else c) s

-- `rsplit('/').next()`, after what has been read since the last slash
unfoldable pub after_last_slash : Text → Text → Text
after_last_slash current [] = current
after_last_slash current (c ∷ s) = elim (c == 47) [
  | true ↦ after_last_slash [] s
  | false ↦ after_last_slash (current ++ c ∷ []) s
]

-- `trim_start_matches('/')`
abbrev pub trim_slashes : Text → Text
trim_slashes [] = []
trim_slashes (c ∷ s) = let rest = trim_slashes s in if c == 47 then rest else c ∷ s

-- `trim_start_matches(p)` and `trim_end_matches(p)`
abbrev pub trim_start_matches : (ℕ → Bool) → Text → Text
trim_start_matches p [] = []
trim_start_matches p (c ∷ s) = let rest = trim_start_matches p s in if p c then rest else c ∷ s

abbrev pub trim_end_matches : (ℕ → Bool) → Text → Text
trim_end_matches p [] = []
trim_end_matches p (c ∷ s) = elim (trim_end_matches p s) [
  | [] ↦ if p c then [] else c ∷ []
  | d ∷ rest ↦ c ∷ d ∷ rest
]

abbrev pub is_crlf : ℕ → Bool
is_crlf c = c == 13 || c == 10

-- `char::is_whitespace`
unfoldable pub is_whitespace : ℕ → Bool
is_whitespace c =
    (leb 9 c && leb c 13)
    || c == 32
    || c == 133
    || c == 160
    || c == 5760
    || (leb 8192 c && leb c 8202)
    || c == 8232
    || c == 8233
    || c == 8239
    || c == 8287
    || c == 12288

unfoldable pub trim : Text → Text
unfolding is_whitespace
trim s = trim_end_matches is_whitespace (trim_start_matches is_whitespace s)

abbrev pub split_once : ℕ → Text → Option (Text × Text)
split_once at [] = none
split_once at (c ∷ s) =
    let rest = Option.map (λ (p : Text × Text). (c ∷ p.0, p.1)) (split_once at s) in
    if c == at then some ([], s) else rest

abbrev pub to_ascii_lowercase : ℕ → ℕ
to_ascii_lowercase c = if leb 65 c && leb c 90 then c + 32 else c

abbrev pub eq_ignore_ascii_case : Text → Text → Bool
eq_ignore_ascii_case s t = map to_ascii_lowercase s == map to_ascii_lowercase t

abbrev pub strip_prefix : Text → Text → Option Text
strip_prefix s [] = some s
strip_prefix [] (c ∷ prefix) = none
strip_prefix (d ∷ s) (c ∷ prefix) =
    let rest = strip_prefix s prefix in if d == c then rest else none
