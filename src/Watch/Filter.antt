-- ===== src/Watch/Filter.antt =====
-- progressive-lsp-watch/src/filter.rs: which events of a batch pass on.
use progressive_lsp.Base.{
  Bool, true, false, ◌||◌, not, List, [], ◌∷◌, Text, text_eq, codes, if◌then◌else◌, ◌==◌, any, keep,
  contains,
}
use progressive_lsp.Base.Texts.{
  starts_with, ends_with, contains_text, forward_slashes, after_last_slash, trim_slashes,
}
use progressive_lsp.Watch.{WatchBatch}

abbrev pub default_ignore_globs : List Text
default_ignore_globs =
    codes "/node_modules/"
    ∷ codes "/.git/objects/"
    ∷ codes "/vendor/"
    ∷ codes "/zig-cache/"
    ∷ codes "/.zig-cache/"
    ∷ []

abbrev pub manifest_names : List Text
manifest_names =
    codes "Cargo.toml"
    ∷ codes "pom.xml"
    ∷ codes "composer.json"
    ∷ codes "tsconfig.json"
    ∷ codes "compile_commands.json"
    ∷ codes "go.mod"
    ∷ codes "go.work"
    ∷ codes "build.zig"
    ∷ codes "build.zig.zon"
    ∷ codes "build.gradle"
    ∷ codes "build.gradle.kts"
    ∷ codes "settings.gradle"
    ∷ codes "settings.gradle.kts"
    ∷ codes ".classpath"
    ∷ codes ".project"
    ∷ []

unfoldable pub is_manifest : Text → Bool
unfolding after_last_slash ends_with
is_manifest path =
    let name = after_last_slash [] path in
    if contains manifest_names name then true else ends_with name (codes ".csproj")

abbrev pub is_ignored : Text → Bool
is_ignored normalized =
    any (λ g. contains_text normalized g || starts_with normalized (trim_slashes g))
      default_ignore_globs

unfoldable pub should_drop : Text → Bool
unfolding is_manifest contains_text starts_with
should_drop path =
    let normalized = forward_slashes path in
    if is_manifest normalized then false else is_ignored normalized

unfoldable pub identity_filter : WatchBatch → WatchBatch
identity_filter batch = batch

unfoldable pub default_ignore_filter : WatchBatch → WatchBatch
unfolding should_drop
default_ignore_filter batch = record batch {
  events = keep (λ e. not (should_drop e.path)) batch.events;
}

unfoldable pub deny_list_filter : List Text → WatchBatch → WatchBatch
deny_list_filter denied batch = record batch {
  events = keep (λ e. not (any (λ d. e.path == d) denied)) batch.events;
}
