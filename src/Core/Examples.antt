-- ===== src/Core/Examples.antt =====
-- The tests of language_id_from_path (progressive-lsp-core/src/ids.rs), paths without an extension, and
-- the URI of a path.
use progressive_lsp.Base.{◌≡◌, refl, none, some, codes, true, false}
use progressive_lsp.Base.{◌++◌, Text, All, arith}
use progressive_lsp.Core.FileUri.{path_to_file_uri, path_from_file_uri}
use progressive_lsp.Core.FileUri.RoundTrip.{IsUriChar, path_from-path_to_file_uri}
use progressive_lsp.Core.Paths.{components, same_path}
use progressive_lsp.Core.{language_id_from_path, language_of, extension, file_name, segments}

typescript : language_id_from_path (codes "src/App.ts") ≡ some (codes "typescript")
unfolding language_id_from_path language_of extension file_name segments
typescript = refl

javascript : language_id_from_path (codes "x.min.js") ≡ some (codes "javascript")
unfolding language_id_from_path language_of extension file_name segments
javascript = refl

hidden : language_id_from_path (codes "src.ts/.java") ≡ none
unfolding language_id_from_path language_of extension file_name segments
hidden = refl

path_from-path_to_file_uri_example :
    (path_from_file_uri (path_to_file_uri (codes "/a b")) ≡ codes "/a b")
    × ((rest : Text) × (path_to_file_uri (codes "/a b") ≡ codes "file://" ++ rest)
        × All IsUriChar rest)
path_from-path_to_file_uri_example = path_from-path_to_file_uri (codes "a b") (ground arith)

doubled_slash : same_path (codes "a//b/./c/") (codes "a/b/c") ≡ true
unfolding components segments
doubled_slash = refl

leading_dot : same_path (codes "./a") (codes "a") ≡ false
unfolding components segments
leading_dot = refl

root_kept : same_path (codes "//a") (codes "/a") ≡ true
unfolding components segments
root_kept = refl

root_differs : same_path (codes "/a") (codes "a") ≡ false
unfolding components segments
root_differs = refl
