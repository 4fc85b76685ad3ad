-- ===== src/Log/Records.antt =====
-- progressive-lsp-core/src/log.rs: levels, what is done to a record before it is kept, and the ring of
-- the records in memory. The scope that a thread is in is an argument.
pub mod Prepared
pub mod Memory
mod Examples
use progressive_lsp.Base.{
  ℕ, ◌+◌, ◌-◌, List, [], ◌∷◌, ◌++◌, Bool, true, false, not, Option, none, some, Text, text_eq,
  nat_eq, codes, if◌then◌else◌, leb, ◌==◌, length, drop,
}
use progressive_lsp.Base.Bytes.{Bytes}
use progressive_lsp.Base.Map
use progressive_lsp.Base.Map.{Map}
use progressive_lsp.Base.Utf8.{encode_char, as_bytes, from_utf8_lossy}
use progressive_lsp.Core.{file_name}
use progressive_lsp.Control.TraceRing.{LogLevel, error, warn, info, debug, trace, LogRecord}

abbrev pub message_max_bytes : ℕ
message_max_bytes = 65536

abbrev pub memory_log_cap : ℕ
memory_log_cap = 4096

abbrev pub forbidden_extra_keys : List Text
forbidden_extra_keys =
    codes "text"
    ∷ codes "content"
    ∷ codes "body"
    ∷ codes "clipboard"
    ∷ codes "password"
    ∷ codes "secret"
    ∷ codes "token"
    ∷ []

abbrev pub parse_known : Text → Option LogLevel
parse_known s =
    if s == codes "error"
    then some error
    else if s == codes "warn"
    then some warn
    else if s == codes "info"
    then some info
    else if s == codes "debug"
    then some debug
    else if s == codes "trace"
    then some trace
    else none

abbrev pub rank : LogLevel → ℕ
rank error = 0
rank warn = 1
rank info = 2
rank debug = 3
rank trace = 4

abbrev pub at_least : LogLevel → LogLevel → Bool
at_least level least = leb (rank level) (rank least)

-- The characters that end within the first `n` bytes: the loop takes `end` back to where the last of
-- them ends, and the message is cut there.
unfoldable pub take_bytes : ℕ → Text → Text
take_bytes n [] = []
take_bytes n (c ∷ s) =
    let size = length (encode_char c) in
    let rest = take_bytes (n - size) s in if leb size n then c ∷ rest else []

unfoldable pub truncate_message : Text → Text
unfolding take_bytes
truncate_message s =
    if leb (length (as_bytes s)) message_max_bytes then s else take_bytes message_max_bytes s

unfoldable pub message_from_bytes : Bytes → Text
unfolding truncate_message
message_from_bytes bytes = truncate_message (from_utf8_lossy bytes)

abbrev pub remove_all : List Text → Map Text Text → Map Text Text
remove_all [] extras = extras
remove_all (k ∷ keys) extras = remove_all keys (Map.remove k extras)

abbrev pub not_empty : Map Text Text → Option (Map Text Text)
not_empty [] = none
not_empty (e ∷ extras) = some (e ∷ extras)

unfoldable pub sanitize_extras : Map Text Text → Option (Map Text Text)
sanitize_extras extras = not_empty (remove_all forbidden_extra_keys extras)

pub record LogScope : Type 0 where
  pub scope_path : Option Text
  pub scope_line : Option ℕ
  pub scope_operation : Option Text
  pub scope_component : Option Text

abbrev pub or_else {ℓ} : {A : Type ℓ} → Option A → Option A → Option A
or_else none other = other
or_else (some a) other = some a

abbrev pub with_scope : Option LogScope → LogRecord → LogRecord
with_scope none r = r
with_scope (some scope) r = record r {
  component = or_else r.component scope.scope_component;
  content_path = or_else r.content_path scope.scope_path;
  content_line = or_else r.content_line scope.scope_line;
  operation = or_else r.operation scope.scope_operation;
}

abbrev pub name_or : Text → Option Text → Text
name_or path none = path
name_or path (some []) = path
name_or path (some (c ∷ name)) = c ∷ name

unfoldable pub content_basename : Text → Text
content_basename path = name_or path (file_name path)

abbrev pub basename_of : Option Text → Option Text
basename_of none = none
basename_of (some path) = some (content_basename path)

abbrev pub sanitized : Option (Map Text Text) → Option (Map Text Text)
sanitized none = none
sanitized (some extras) = sanitize_extras extras

unfoldable pub prepared : Option LogScope → LogRecord → LogRecord
unfolding truncate_message
prepared scope r =
    let scoped = with_scope scope r in
    record scoped {
      content_file = or_else scoped.content_file (basename_of scoped.content_path);
      extras = sanitized scoped.extras;
      message = truncate_message scoped.message;
    }

-- `MemoryLog::emit` and `LevelFilter::emit`
unfoldable pub emit : Option LogScope → LogRecord → List LogRecord → List LogRecord
unfolding prepared
emit scope r q = (if length q == memory_log_cap then drop 1 q else q) ++ prepared scope r ∷ []

unfoldable pub emit_filtered :
    LogLevel → Option LogScope → LogRecord → List LogRecord → List LogRecord
unfolding emit
emit_filtered least scope r q = if at_least r.level least then emit scope r q else q
