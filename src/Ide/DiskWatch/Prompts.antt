-- ===== src/Ide/DiskWatch/Prompts.antt =====
-- Which paths are prompted for, and how often (poc-ide/src/watch.rs).
use progressive_lsp.Base.{
  ℕ, ◌≡◌, refl, ap, ◌∙◌, List, [], ◌∷◌, ◌++◌, Bool, false, not, ◌&&◌, ◌||◌, some, arith, Text,
  text_eq, nat_eq, if◌then◌else◌, ◌==◌, ==_iff, keep, any, ok,
}
use progressive_lsp.Base.Map
use progressive_lsp.Base.Map.{Map, get-insert}
use progressive_lsp.Ide.Ports.{FsPort, Rope}
use progressive_lsp.Ide.Buffer.{OpenBuffer}
use progressive_lsp.Ide.DiskWatch.{
  keep_memory, ConflictModal, DiskEvent, DiskWatch, is_pending, is_time, ingest_event,
  ingest_events, ingest, find_modal, remove_modal, apply_choice, resolve,
}

-- An event at the path, with another time than the one that was answered last.
abbrev pub is_news : Text → Map Text ℕ → DiskEvent → Bool
is_news path ignored event = event.path == path && not (is_time event.mtime (Map.get path ignored))

is_pending-append :
    (path : Text) (xs ys : List ConflictModal)
    → is_pending path (xs ++ ys) ≡ (is_pending path xs || is_pending path ys)
is_pending-append path [] ys = refl
is_pending-append path (m ∷ xs) ys = ground (arith, is_pending-append path xs ys)

ingest_event-ignored :
    (is_open : Text → Bool) (event : DiskEvent) (w : DiskWatch)
    → (ingest_event is_open event w).ignored_mtime ≡ w.ignored_mtime
unfolding ingest_event
ingest_event-ignored is_open event w = ground arith

ingest_event-is_pending :
    (is_open : Text → Bool) (event : DiskEvent) (w : DiskWatch) (path : Text)
    → is_pending path (ingest_event is_open event w).pending
      ≡ (is_pending path w.pending || (is_open path && is_news path w.ignored_mtime event))
unfolding ingest_event
ingest_event-is_pending is_open event w path = ground (
  arith,
  ==_iff event.path path,
  ap is_open {x = event.path} {y = path},
  ap (λ p. is_pending p w.pending) {x = event.path} {y = path},
  ap (λ p. Map.get p w.ignored_mtime) {x = event.path} {y = path},
  is_pending-append path w.pending (record { path = event.path; mtime = event.mtime } ∷ []),
)

or_regroup : (a b c d : Bool) → ((a || (b && c)) || (b && d)) ≡ (a || (b && (c || d)))
or_regroup a b c d = ground arith

ingest_events-is_pending :
    (is_open : Text → Bool) (events : List DiskEvent) (w : DiskWatch) (path : Text)
    → is_pending path (ingest_events is_open events w).pending
      ≡ (is_pending path w.pending || (is_open path && any (is_news path w.ignored_mtime) events))
unfolding ingest_events ingest_event
ingest_events-is_pending is_open [] w path = ground arith
ingest_events-is_pending is_open (event ∷ events) w path =
    let ih = ingest_events-is_pending is_open events (ingest_event is_open event w) path in
    let after =
      rw (ingest_event-ignored is_open event w, ingest_event-is_pending is_open event w path) at
        ih in
    after
    ∙ or_regroup (is_pending path w.pending) (is_open path) (is_news path w.ignored_mtime event)
        (any (is_news path w.ignored_mtime) events)

is_pending-keep :
    (is_open : Text → Bool) (pending : List ConflictModal) (path : Text)
    → is_pending path (keep (λ m. is_open m.path) pending)
      ≡ (is_open path && is_pending path pending)
is_pending-keep is_open [] path = ground arith
is_pending-keep is_open (m ∷ pending) path = ground (
  arith,
  is_pending-keep is_open pending path,
  ==_iff m.path path,
  ap is_open {x = m.path} {y = path},
)

-- After the events of the disk are taken in, there is a prompt for a path exactly if the path is
-- open, and it was prompted for before or an event is at it with another time than the one that
-- was answered last.
pub ingest-is_pending :
    (is_open : Text → Bool) (events : List DiskEvent) (w : DiskWatch) (path : Text)
    → is_pending path (ingest is_open events w).pending
      ≡ (is_open path && (is_pending path w.pending || any (is_news path w.ignored_mtime) events))
unfolding ingest
ingest-is_pending is_open events w path =
    let kept = record w { pending = keep (λ m. is_open m.path) w.pending } in
    ground (
      arith,
      ingest_events-is_pending is_open events kept path,
      is_pending-keep is_open w.pending path,
    )

-- No path has two prompts.
abbrev pub OncePerPath : List ConflictModal → Type 0
OncePerPath [] = Unit
OncePerPath (m ∷ pending) = (is_pending m.path pending ≡ false) × OncePerPath pending

OncePerPath-append_one :
    (pending : List ConflictModal) (m : ConflictModal)
    → is_pending m.path pending ≡ false
    → OncePerPath pending
    → OncePerPath (pending ++ m ∷ [])
OncePerPath-append_one [] m h o = (refl, tt)
OncePerPath-append_one (n ∷ pending) m h o = (
  ground (
    arith,
    is_pending-append n.path pending (m ∷ []),
    ==_iff m.path n.path,
    ==_iff n.path m.path,
    o.0,
  ),
  OncePerPath-append_one pending m (ground arith) o.1,
)

OncePerPath-keep :
    (is_open : Text → Bool) (pending : List ConflictModal)
    → OncePerPath pending
    → OncePerPath (keep (λ m. is_open m.path) pending)
OncePerPath-keep is_open [] o = tt
OncePerPath-keep is_open (m ∷ pending) o =
    ground
      (arith, OncePerPath-keep is_open pending o.1, is_pending-keep is_open pending m.path, o.0)

ingest_event-OncePerPath :
    (is_open : Text → Bool) (event : DiskEvent) (w : DiskWatch)
    → OncePerPath w.pending
    → OncePerPath (ingest_event is_open event w).pending
unfolding ingest_event
ingest_event-OncePerPath is_open event w o =
    ground
      (arith, OncePerPath-append_one w.pending (record { path = event.path; mtime = event.mtime }))

ingest_events-OncePerPath :
    (is_open : Text → Bool) (events : List DiskEvent) (w : DiskWatch)
    → OncePerPath w.pending
    → OncePerPath (ingest_events is_open events w).pending
unfolding ingest_events
ingest_events-OncePerPath is_open [] w o = o
ingest_events-OncePerPath is_open (event ∷ events) w o =
    ingest_events-OncePerPath is_open events (ingest_event is_open event w)
      (ingest_event-OncePerPath is_open event w o)

ingest-OncePerPath :
    (is_open : Text → Bool) (events : List DiskEvent) (w : DiskWatch)
    → OncePerPath w.pending
    → OncePerPath (ingest is_open events w).pending
unfolding ingest
ingest-OncePerPath is_open events w o =
    ingest_events-OncePerPath is_open events
      (record w { pending = keep (λ m. is_open m.path) w.pending })
      (OncePerPath-keep is_open w.pending o)

is_pending-remove_modal :
    (path p : Text) (pending : List ConflictModal)
    → OncePerPath pending
    → is_pending p (remove_modal path pending) ≡ (if p == path then false else is_pending p pending)
is_pending-remove_modal path p [] o = ground arith
is_pending-remove_modal path p (m ∷ pending) o = ground (
  arith,
  is_pending-remove_modal path p pending o.1,
  ==_iff m.path path,
  ==_iff p path,
  ==_iff m.path p,
  ap (λ q. is_pending q pending) {x = m.path} {y = p},
  o.0,
)

find_modal-path :
    (path : Text) (pending : List ConflictModal) (m : ConflictModal)
    → find_modal path pending ≡ some m
    → m.path ≡ path
find_modal-path path [] m h = cc
find_modal-path path (n ∷ pending) m h =
    ground (arith, find_modal-path path pending m, ==_iff n.path path)

resolve-keep_memory :
    {rope : Rope} (fs : FsPort) (files : fs.Files) (path : Text) (w : DiskWatch)
    (buffers : Map Text (OpenBuffer rope)) (m : ConflictModal)
    → find_modal path w.pending ≡ some m
    → resolve fs files path keep_memory w buffers ≡ (
      record {
        pending = remove_modal path w.pending;
        ignored_mtime = Map.insert m.path m.mtime w.ignored_mtime;
      },
      buffers,
      ok tt,
    )
unfolding resolve apply_choice
resolve-keep_memory fs files path w buffers m h = ground (arith, h)

-- An event of the time that was answered is no news.
any-is_news :
    (path : Text) (m : ConflictModal) (ignored : Map Text ℕ) (events : List DiskEvent)
    → m.path ≡ path
    → any (λ e. e.path == path && not (m.mtime == e.mtime)) events ≡ false
    → any (is_news path (Map.insert m.path m.mtime ignored)) events ≡ false
any-is_news path m ignored [] same h = refl
any-is_news path m ignored (e ∷ events) same h = ground (
  arith,
  any-is_news path m ignored events same,
  get-insert m.path path m.mtime ignored,
  ==_iff m.path path,
)

-- If no path is prompted for twice, keeping the text in memory leaves the buffers alone, and the
-- file is not prompted for again by events at its path that have the time of the prompt.
ingest-resolve_keep_memory :
    {rope : Rope} (fs : FsPort) (files : fs.Files) (path : Text) (w : DiskWatch)
    (buffers : Map Text (OpenBuffer rope)) (m : ConflictModal) (is_open : Text → Bool)
    (events : List DiskEvent)
    → OncePerPath w.pending
    → find_modal path w.pending ≡ some m
    → any (λ e. e.path == path && not (m.mtime == e.mtime)) events ≡ false
    → (let (w', buffers', r) = resolve fs files path keep_memory w buffers in
        (is_pending path (ingest is_open events w').pending ≡ false)
        × (buffers' ≡ buffers)
        × (r ≡ ok tt))
ingest-resolve_keep_memory fs files path w buffers m is_open events once found old =
    rw (resolve-keep_memory fs files path w buffers m found) (
      ground (
        arith,
        ingest-is_pending is_open events
            (record {
              pending = remove_modal path w.pending;
              ignored_mtime = Map.insert m.path m.mtime w.ignored_mtime;
            })
            path,
        is_pending-remove_modal path path w.pending once,
        any-is_news path m w.ignored_mtime events (find_modal-path path w.pending m found) old,
        ==_iff path path,
      ),
      refl,
      refl,
    )
