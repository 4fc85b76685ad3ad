-- ===== src/Log/Records/Examples.antt =====
-- Records with a secret, and a message that is too long (progressive-lsp-core/src/log.rs).
use progressive_lsp.Base.{◌≤◌, ◌≡◌, [], ◌∷◌, none, some, text_eq, codes, length}
use progressive_lsp.Base.Utf8.{as_bytes}
use progressive_lsp.Control.TraceRing.{LogRecord, info}
use progressive_lsp.Log.Records.{message_max_bytes, truncate_message, LogScope, prepared}
use progressive_lsp.Log.Records.Prepared.{IsCut, extra, truncate_message-IsCut, extra-prepared}

abbrev in_file : LogScope
in_file = record {
  scope_path = some (codes "/w/a.rs");
  scope_line = some 3;
  scope_operation = none;
  scope_component = none;
}

abbrev secret : LogRecord
secret = record {
  ts_unix_ms = 5;
  level = info;
  component = none;
  content_path = none;
  content_file = none;
  content_line = none;
  operation = some (codes "index");
  message = codes "m";
  extras = some ((codes "token", codes "x") ∷ (codes "file", codes "y") ∷ []);
}

extra-prepared_example : extra (codes "token") (prepared none secret).extras ≡ none
extra-prepared_example = extra-prepared none secret (codes "token")

truncate_message-IsCut_example :
    (length (as_bytes (truncate_message (codes "aé"))) ≤ message_max_bytes)
    × IsCut message_max_bytes (codes "aé") (truncate_message (codes "aé"))
truncate_message-IsCut_example = truncate_message-IsCut (codes "aé")
