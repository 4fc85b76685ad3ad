-- ===== src/Lib.antt =====
-- Models of the core of progressive-lsp, a Language Server Protocol process that answers by tiers, and
-- theorems about them. Paths are from the repository's root.
--
-- The parts and how they interact:
-- - A watch backend reports changes of files, and the server publishes changes of buffers. The hub
--   (progressive-lsp-watch/src/hub.rs) passes both to the coalescer (coalescer.rs), which gathers them
--   into batches, numbers the batches by a generation, and records them in the journal (journal.rs)
--   that answers FilesSince. The batches go to subscribers; src/file_hub.rs notes their flags.
-- - Each batch marks paths dirty in the index (progressive-lsp-index/src/dirty.rs, service.rs), which
--   indexes them by priority (priority.rs), and invalidates the types cache
--   (progressive-lsp-types-cache/src), which is the first step of the resolver chain
--   (progressive-lsp-resolve/src/chain.rs).
-- - The engine supervisor (progressive-lsp-engine/src/supervisor.rs, backoff.rs) spawns the engines,
--   notes their crashes and passes queries to them; the cache stores their answers.
-- - The chain goes on to the resolvers of the second and the first tier
--   (progressive-lsp-resolve/src/heuristic.rs, tree_sitter.rs), which read the index.
-- - LSP messages are framed by their length (progressive-lsp-protocol/src/framing.rs), and name files
--   by URIs (progressive-lsp-core/src/file_uri.rs).
-- - Log records go through the mailbox of a writer, which commits them in batches
--   (progressive-lsp-log/src/actor.rs, batch.rs).
-- - The sample editor (poc-ide/src) keeps open buffers, tabs, the tree of a workspace, and
--   prompts for files that change on disk.
-- - Control messages go in length-prefixed frames (progressive-lsp-control/src/codec.rs), and LSP and
--   control share one pipe by the mux (progressive-lsp-protocol/src/mux.rs).
--
-- The files, with the state and operations that they model under the names of the source:
-- - Base: numbers, texts, lists, byte strings, and the maps (Base/Map.antt for hash maps,
--   Base/OrdMap.antt for tree maps with text keys).
-- - Watch.antt: events and batches. Watch/Journal.antt: FilesSinceJournal. Watch/Coalescer.antt:
--   WatchCoalescer. Watch/Hub.antt: the rounds of run_system_loop, run_fake_clock_loop and drain_once.
--   Watch/Filter.antt: the filters of batches (progressive-lsp-watch/src/filter.rs).
-- - Wire/Codec.antt, Wire/Mux.antt and Wire/Framing.antt: control frames, mux frames, LSP messages.
-- - Engine.antt and Engine/Backoff.antt: capabilities, errors and delays. Engine/Supervisor.antt:
--   SupervisorState, with the polls and aborts in Engine/Supervisor/Health.antt, the spawns in
--   Engine/Supervisor/Spawn.antt and the queries in Engine/Supervisor/Resolve.antt.
-- - Resolve.antt: queries and answers. Resolve/Chain.antt: ResolverChain. Resolve/Symbols.antt:
--   indexed symbols, imports and type names. Resolve/Syntax.antt: TreeSitterResolver.
--   Resolve/Heuristic.antt: HeuristicResolver.
-- - Index.antt and Index/Priority.antt: DirtySet, PriorityIndex and the generation of IndexService.
--   Their keys are paths, which the code compares by their parts, and so do the models, with
--   Core/Paths.antt for `Path::components` on Unix.
--   Index/Cache.antt: CacheKey and IndexCache (progressive-lsp-index/src/cache.rs).
-- - TypesCache.antt and TypesCache/Serve.antt: the store, the resolver, the stack.
-- - TypesCache/Worker.antt: the drain of the cache's queue. Core.antt: the language of a path
--   (progressive-lsp-core/src/ids.rs). Core/FileUri.antt: paths and their URIs.
-- - Log/Records.antt: what is done to a LogRecord before it is kept, and MemoryLog
--   (progressive-lsp-core/src/log.rs). Log/Batch.antt: CrashSafeBatch.
--   Log/Writer.antt: Mailbox and the loop of WriterActor.
-- - Ide/Ports.antt: what the editor takes from outside. Ide/Buffer.antt: OpenBuffer and BufferMap.
--   Ide/Edit.antt: EditCommand, with what it is to do in Ide/Edit/Document.antt. Ide/Tabs.antt:
--   TabStrip. Ide/Tree.antt: FileTree, TreeNode and CompactChain. Ide/Tiers.antt:
--   PackageTierMap and TierStrip. Ide/DiskWatch.antt: DiskWatch and ConflictModal.
-- - Control/TraceRing.antt: TraceRing, the rows of the log by trace id
--   (progressive-lsp-control/src/trace_ring.rs).
-- The files below these hold proofs, named for what they prove, and the files Examples concrete runs.
--
-- How state and the outside are modelled: a method on `&mut self` or behind a mutex is a function from
-- state to state. Times that the code reads from its clock, events that a backend or a channel hands
-- out, and what discovery, hooks and spawns answer are arguments; one call of the supervisor reads one
-- time. Results are `Result` or `Option`. u64 and u32 numbers are natural numbers with their saturation
-- written out. The index that the resolvers read, the rope of the `ropey` crate, the clipboard and the
-- files are parameters; of the rope the laws of its documentation are fields of the record Rope.
-- In the editor two paths are the same where their texts are: canonicalize gives a file one text. The
-- code compares the parts of a path, so for paths in another spelling it may find more of them equal. The
-- loops are structural recursions over the list or the tree that they run through, but for some. The
-- reader of LSP messages (Wire/Framing.antt) takes fuel, one more than there are bytes: each header line
-- and each message takes a byte. The words that type_ref_simple takes off (Resolve/Symbols.antt) are
-- counted by the length of the text. The loops of the hub and of the log's writer, which end only at a
-- stop, run over the list of the rounds that come to pass.
--
-- Not modelled: threads, locks and the capacity of the hub's channel; the log lines of the parts;
-- protobuf and JSON encodings; processes and files; parsing by tree-sitter and what the index keeps of
-- it; stack graphs; the user interface of the sample editor and its client of the server; the database
-- of the log; the build tool, the installer and the language crates.
pub mod Base
pub mod Watch
pub mod Wire
pub mod Engine
pub mod Resolve
pub mod Index
pub mod TypesCache
pub mod Control
pub mod Core
pub mod Ide
pub mod Log
