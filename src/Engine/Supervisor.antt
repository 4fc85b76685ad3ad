-- ===== src/Engine/Supervisor.antt =====
-- progressive-lsp-engine/src/supervisor.rs: the state of EngineSupervisor and its operations. The
-- adapters are values; what the outside does in a call (the clock, the discovery of the binary, the
-- hook's decision, the spawn) is an argument of it. The log and the paths of the workspace are not
-- modelled; the notes of progress are pairs of a pack and a time.
pub mod Health
pub mod Spawn
pub mod Resolve
pub mod Readiness
pub mod Crashes
pub mod Coverage
pub mod Calls
use progressive_lsp.Base.{
  ℕ, zero, suc, ◌+◌, ◌-◌, ◌^◌, Bool, true, false, ◌&&◌, ◌||◌, not, List, [], ◌∷◌, ◌++◌, map, Option,
  none, some, Text, text_eq, if◌then◌else◌, ◌==◌, min, keep, any, contains, codes, Result, ok, err,
}
use progressive_lsp.Base.Map.{Map, get, remove, contains_key, values}
use progressive_lsp.Base.OrdMap.{insert}
use progressive_lsp.Engine.{
  EngineCapabilities, no_capabilities, merge, EngineError, not_discovered, crashed, aborted, hash,
  backoff,
}
use progressive_lsp.Engine.Backoff.{BackoffPolicy, next_attempt_ms, can_respawn}

pub data ReadyKind : Type 0 where
  initialize : ReadyKind
  indexed_package : Text → ReadyKind

-- What the supervisor asks of an EngineAdapter.
pub record Adapter : Type 0 where
  pub pack_name : Text
  pub language : Text
  pub extra_languages : List Text
  pub ready_signal : ReadyKind

-- adapter.rs, ChildHandle: `alive` is what `is_alive` returns, and `lsp` the state of the session
-- of its LSP proxy, where it has one.
pub record ChildHandle : Type 0 where
  pub id : ℕ
  pub capabilities : EngineCapabilities
  pub alive : Bool
  pub stdout_lsp : Bool
  pub stderr_pipe : Bool
  pub lsp : Option Bool

pub record SupervisedChild : Type 0 where
  pub handle : ChildHandle
  pub language : Text

pub record SupervisorState : Type 0 where
  pub children : Map Text SupervisedChild
  pub ready : List (Text × Text)
  pub ready_languages : List Text
  pub backoff_until : Map Text ℕ
  pub crash_count : Map Text ℕ
  pub file_packages : Map Text Text
  pub capabilities : EngineCapabilities
  pub progress_notes : List (Text × ℕ)
  pub last_error : Map Text EngineError
  pub stderr_attached : List Text
  pub tail_attached : List Text
  pub log_message_attached : List Text

abbrev pub new_state : SupervisorState
new_state = record {
  children = [];
  ready = [];
  ready_languages = [];
  backoff_until = [];
  crash_count = [];
  file_packages = [];
  capabilities = no_capabilities;
  progress_notes = [];
  last_error = [];
  stderr_attached = [];
  tail_attached = [];
  log_message_attached = [];
}

-- The fields of EngineSupervisor that no call changes.
pub record Supervisor : Type 0 where
  pub adapters : List Adapter
  pub policy : BackoffPolicy

-- `BTreeSet<String>` and `BTreeSet<(String, String)>`, of which only membership is read.
abbrev pub set_remove : Text → List Text → List Text
set_remove a = keep (λ x. not (x == a))

abbrev pub pair_is : Text → Text → Text × Text → Bool
pair_is language pkg entry = entry.0 == language && entry.1 == pkg

unfoldable pub find_adapter : List Adapter → Text → Option Adapter
find_adapter [] pack = none
find_adapter (a ∷ adapters) pack =
    if a.pack_name == pack then some a else find_adapter adapters pack

unfoldable pub bind_file : SupervisorState → Text → Text → SupervisorState
bind_file st file pkg = record st { file_packages = insert file pkg st.file_packages }

unfoldable pub package_for_file : SupervisorState → Text → Text
package_for_file st file = elim (get file st.file_packages) [ none ↦ codes "pkg" | some p ↦ p ]

-- The languages of a child, as mark_ready makes them ready.
abbrev pub languages_of : Text → Adapter → List Text
languages_of language adapter = language ∷ adapter.extra_languages

abbrev pub with_package : Text → List Text → List (Text × Text)
with_package pkg languages = map (λ l. (l, pkg)) languages

abbrev pub ready_pairs : ReadyKind → List Text → List (Text × Text)
ready_pairs initialize languages = []
ready_pairs (indexed_package pkg) languages = with_package pkg languages

abbrev pub initialized : ReadyKind → List Text → List Text
initialized initialize languages = languages
initialized (indexed_package pkg) languages = []

unfoldable pub mark_ready : SupervisorState → Adapter → ChildHandle → Text → Text → SupervisorState
mark_ready st adapter handle language pkg =
    let pack = adapter.pack_name in
    let languages = languages_of language adapter in
    record st {
      capabilities = merge st.capabilities handle.capabilities;
      crash_count = insert pack 0 st.crash_count;
      backoff_until = remove pack st.backoff_until;
      last_error = remove pack st.last_error;
      ready_languages = initialized adapter.ready_signal languages ++ st.ready_languages;
      ready =
          with_package pkg languages ++ (ready_pairs adapter.ready_signal languages ++ st.ready);
      stderr_attached =
          if handle.stdout_lsp && handle.stderr_pipe
          then pack ∷ st.stderr_attached
          else st.stderr_attached;
      children = insert pack (record { handle = handle; language = language }) st.children;
    }

-- The loop that merges the capabilities of the children that live.
unfoldable pub merge_alive : EngineCapabilities → List SupervisedChild → EngineCapabilities
merge_alive caps [] = caps
merge_alive caps (child ∷ children) =
    merge_alive (if child.handle.alive then merge caps child.handle.capabilities else caps) children

abbrev pub crashes_of : SupervisorState → Text → ℕ
crashes_of st pack = elim (get pack st.crash_count) [ none ↦ 0 | some n ↦ n ]

-- `saturating_add(1)` on u32
abbrev pub next_count : ℕ → ℕ
next_count n = min (n + 1) (2 ^ 32 - 1)

abbrev pub forget_ready : Option SupervisedChild → List (Text × Text) → List (Text × Text)
forget_ready none ready = ready
forget_ready (some child) ready = keep (λ entry. not (entry.0 == child.language)) ready

abbrev pub forget_language : Option SupervisedChild → List Text → List Text
forget_language none languages = languages
forget_language (some child) languages = set_remove child.language languages

unfoldable pub note_crash_err :
    Supervisor → ℕ → Text → EngineError → SupervisorState → SupervisorState
unfolding merge_alive
note_crash_err sup now pack e st =
    let n = next_count (crashes_of st pack) in
    let until = next_attempt_ms sup.policy now n in
    let children = remove pack st.children in
    record st {
      ready = forget_ready (get pack st.children) st.ready;
      ready_languages = forget_language (get pack st.children) st.ready_languages;
      children = children;
      stderr_attached = set_remove pack st.stderr_attached;
      tail_attached = set_remove pack st.tail_attached;
      log_message_attached = set_remove pack st.log_message_attached;
      crash_count = insert pack n st.crash_count;
      backoff_until = insert pack until st.backoff_until;
      last_error = insert pack e st.last_error;
      progress_notes = st.progress_notes ++ (pack, until) ∷ [];
      capabilities = merge_alive no_capabilities (values children);
    }

unfoldable pub note_crash : Supervisor → ℕ → Text → SupervisorState → SupervisorState
unfolding note_crash_err
note_crash sup now pack st = note_crash_err sup now pack (crashed pack) st
