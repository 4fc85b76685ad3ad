-- ===== src/Log/Records/Prepared.antt =====
-- What is done to a record before it is kept, and that doing it again changes nothing
-- (progressive-lsp-core/src/log.rs).
use progressive_lsp.Base.{
  ℕ, ◌+◌, ◌-◌, ◌≤◌, ◌<◌, ◌≡◌, ◌⊎◌, inl, inr, refl, ap, ◌∙◌, List, [], ◌∷◌, ◌++◌, Bool, true, false,
  Option, none, some, arith, Text, text_eq, ==_iff, if◌then◌else◌, leb, leb→le, length,
  length-append, contains, Bool-cases,
}
use progressive_lsp.Base.Map
use progressive_lsp.Base.Map.{Map, get-remove}
use progressive_lsp.Base.Utf8.{encode_char, as_bytes}
use progressive_lsp.Control.TraceRing.{LogRecord}
use progressive_lsp.Log.Records.{
  message_max_bytes, forbidden_extra_keys, take_bytes, truncate_message, remove_all, not_empty,
  sanitize_extras, LogScope, or_else, with_scope, basename_of, sanitized, prepared,
}

length-take_bytes : (n : ℕ) (s : Text) → length (as_bytes (take_bytes n s)) ≤ n
unfolding take_bytes as_bytes
length-take_bytes n [] = omega arith
length-take_bytes n (c ∷ s) = ground (
  arith,
  length-take_bytes (n - length (encode_char c)) s,
  length-append (encode_char c) (as_bytes (take_bytes (n - length (encode_char c)) s)),
)

take_bytes_fits : (n : ℕ) (s : Text) → length (as_bytes s) ≤ n → take_bytes n s ≡ s
unfolding take_bytes as_bytes
take_bytes_fits n [] h = refl
take_bytes_fits n (c ∷ s) h = ground (
  arith,
  length-append (encode_char c) (as_bytes s),
  take_bytes_fits (n - length (encode_char c)) s,
)

-- A text, or the part of it behind which the next character has no room.
abbrev pub IsCut : ℕ → Text → Text → Type 0
IsCut n s t =
    (t ≡ s)
    ⊎ ((c : ℕ) × (rest : Text) × (s ≡ t ++ c ∷ rest)
        × (n < length (as_bytes t) + length (encode_char c)))

take_bytes-IsCut : (n : ℕ) (s : Text) → IsCut n s (take_bytes n s)
unfolding take_bytes as_bytes
take_bytes-IsCut n [] = inl refl
take_bytes-IsCut n (c ∷ s) = elim (Bool-cases (leb (length (encode_char c)) n)) [
  | inr long ↦ rw long (inr (c, s, refl, ground arith))
  | inl fits ↦ rw fits (elim (take_bytes-IsCut (n - length (encode_char c)) s) [
    | inl whole ↦ inl (ap (c ∷◌) whole)
    | inr (d, rest, e, lt) ↦ inr (
      d,
      rest,
      ap (c ∷◌) e,
      omega (
        arith,
        lt,
        leb→le (length (encode_char c)) n fits,
        length-append (encode_char c) (as_bytes (take_bytes (n - length (encode_char c)) s)),
      ),
    )
  ])
]

truncate_message_lem : (s : Text) → truncate_message s ≡ take_bytes message_max_bytes s
unfolding truncate_message
truncate_message_lem s = ground (arith, take_bytes_fits message_max_bytes s)

-- A truncated message has at most 64 KiB, and it is the whole message, or the part of it behind
-- which the next character would pass that limit.
pub truncate_message-IsCut :
    (s : Text)
    → (length (as_bytes (truncate_message s)) ≤ message_max_bytes)
      × IsCut message_max_bytes s (truncate_message s)
truncate_message-IsCut s =
    rw (truncate_message_lem s)
      (length-take_bytes message_max_bytes s, take_bytes-IsCut message_max_bytes s)

truncate_message_again : (s : Text) → truncate_message (truncate_message s) ≡ truncate_message s
truncate_message_again s =
    truncate_message_lem (truncate_message s)
    ∙ take_bytes_fits message_max_bytes (truncate_message s) (truncate_message-IsCut s).0

get-remove_all :
    (j : Text) (keys : List Text) (m : Map Text Text)
    → Map.get j (remove_all keys m) ≡ (if contains keys j then none else Map.get j m)
get-remove_all j [] m = refl
get-remove_all j (k ∷ keys) m =
    ground (arith, get-remove_all j keys (Map.remove k m), get-remove k j m, ==_iff k j, ==_iff j k)

remove_missing : (k : Text) (m : Map Text Text) → Map.get k m ≡ none → Map.remove k m ≡ m
unfolding Map.remove Map.get
remove_missing k [] h = refl
remove_missing k ((j, w) ∷ m) h = ground (arith, h, remove_missing k m)

remove_all_missing :
    (keys : List Text) (m : Map Text Text)
    → ((j : Text) → contains keys j ≡ true → Map.get j m ≡ none)
    → remove_all keys m ≡ m
remove_all_missing [] m h = refl
remove_all_missing (k ∷ keys) m h =
    let e = remove_missing k m (h k (ground (arith, ==_iff k k))) in
    rw e (remove_all_missing keys m (λ j c. h j (ground (arith, c))))

remove_all_again :
    (keys : List Text) (m : Map Text Text) → remove_all keys (remove_all keys m) ≡ remove_all keys m
remove_all_again keys m =
    remove_all_missing keys (remove_all keys m) (λ j c. get-remove_all j keys m ∙ rw c refl)

sanitized_removed :
    (m : Map Text Text)
    → remove_all forbidden_extra_keys m ≡ m
    → sanitized (not_empty m) ≡ not_empty m
unfolding sanitize_extras
sanitized_removed [] h = refl
sanitized_removed (e ∷ m) h = ap not_empty h

sanitized_again : (o : Option (Map Text Text)) → sanitized (sanitized o) ≡ sanitized o
unfolding sanitize_extras
sanitized_again none = refl
sanitized_again (some m) =
    sanitized_removed (remove_all forbidden_extra_keys m) (remove_all_again forbidden_extra_keys m)

or_else_again {ℓ} : {A : Type ℓ} (a b : Option A) → or_else (or_else a b) b ≡ or_else a b
or_else_again none none = refl
or_else_again none (some b) = refl
or_else_again (some a) b = refl

-- To prepare a record a second time in the same scope changes nothing.
prepared-prepared :
    (scope : Option LogScope) (r : LogRecord) → prepared scope (prepared scope r) ≡ prepared scope r
unfolding prepared
prepared-prepared none r =
    rw
      (
        sanitized_again r.extras,
        truncate_message_again r.message,
        or_else_again r.content_file (basename_of r.content_path),
      )
      refl
prepared-prepared (some scope) r =
    let path = or_else r.content_path scope.scope_path in
    rw
      (
        sanitized_again r.extras,
        truncate_message_again r.message,
        or_else_again r.component scope.scope_component,
        or_else_again r.content_path scope.scope_path,
        or_else_again r.content_line scope.scope_line,
        or_else_again r.operation scope.scope_operation,
        or_else_again r.content_file (basename_of path),
      )
      refl

-- What a record says under a key.
abbrev pub extra : Text → Option (Map Text Text) → Option Text
extra j none = none
extra j (some extras) = Map.get j extras

extra-not_empty : (j : Text) (m : Map Text Text) → extra j (not_empty m) ≡ Map.get j m
unfolding Map.get
extra-not_empty j [] = refl
extra-not_empty j (e ∷ m) = refl

none_either_way : (b : Bool) → ◌≡◌ {A = Option Text} none (if b then none else none)
none_either_way true = refl
none_either_way false = refl

extra-sanitized :
    (j : Text) (o : Option (Map Text Text))
    → extra j (sanitized o) ≡ (if contains forbidden_extra_keys j then none else extra j o)
unfolding sanitize_extras
extra-sanitized j none = none_either_way (contains forbidden_extra_keys j)
extra-sanitized j (some m) =
    extra-not_empty j (remove_all forbidden_extra_keys m) ∙ get-remove_all j forbidden_extra_keys m

extras-with_scope :
    (scope : Option LogScope) (r : LogRecord) → (with_scope scope r).extras ≡ r.extras
extras-with_scope none r = refl
extras-with_scope (some scope) r = refl

-- Whatever the scope, a record that has been prepared says nothing under a forbidden key, and
-- under each other key what it said before.
pub extra-prepared :
    (scope : Option LogScope) (r : LogRecord) (j : Text)
    → extra j (prepared scope r).extras
      ≡ (if contains forbidden_extra_keys j then none else extra j r.extras)
unfolding prepared
extra-prepared scope r j = rw (extras-with_scope scope r) (extra-sanitized j r.extras)
