-- ===== src/Watch/Hub/Deliveries.antt =====
-- What the hub delivers where no round is too large (progressive-lsp-watch/src/hub.rs).
use progressive_lsp.Base.{
  ℕ, ◌+◌, ◌≤◌, ◌≡◌, ◌≢◌, refl, sym, ap, ◌∙◌, List, [], ◌∷◌, ◌++◌, map, some, arith, length,
  length-append, All, subst,
}
use mathlib.Core.List.{append-nil, append_assoc}
use progressive_lsp.Watch.{WatchEvent, WatchBatch, RawWatchEvent, disk_event}
use progressive_lsp.Watch.Coalescer.{
  WatchCoalescer, accept, ingest, ingest_raw, flush_now, flush_pending, force_overflow,
}
use progressive_lsp.Watch.Coalescer.Batches.{ingest_fits}
use progressive_lsp.Watch.Hub.{
  HubCommand, publish, stop, drain_commands, flush_round, Received, command, timeout, disconnected,
  first_command, system_round, SystemRound, deliver, run_system_rounds,
}
use progressive_lsp.Watch.Hub.Rounds.{flush_round-eq-flush_now, run_flushed}

abbrev pub published : List HubCommand → List WatchEvent
published [] = []
published (publish ev ∷ commands) = ev ∷ published commands
published (stop ∷ commands) = published commands

abbrev pub received_events : Received → List WatchEvent
received_events (command (publish ev)) = ev ∷ []
received_events (command stop) = []
received_events timeout = []
received_events disconnected = []

abbrev pub polled_events : List RawWatchEvent → List WatchEvent
polled_events polled = map (λ e. disk_event e.path e.kind) polled

-- The events that a round takes in, in the order in which it does.
abbrev pub round_events : SystemRound → List WatchEvent
round_events r = received_events r.received ++ (published r.commands ++ polled_events r.polled)

-- A round in which no stop and no disconnection is received, and at most `n` events are taken in.
abbrev pub IsCalm : ℕ → SystemRound → Type 0
IsCalm n r =
    (r.received ≢ command stop)
    × (r.received ≢ disconnected)
    × All (λ command. command ≢ stop) r.commands
    × (length (round_events r) ≤ n)

abbrev pub delivered : List WatchBatch → List WatchEvent
delivered [] = []
delivered (b ∷ batches) = b.events ++ delivered batches

abbrev pub taken_in : List SystemRound → List WatchEvent
taken_in [] = []
taken_in (r ∷ rounds) = round_events r ++ taken_in rounds

ingest-overflow_limit :
    (c : WatchCoalescer) (now : ℕ) (events : List WatchEvent)
    → (ingest c now events).overflow_limit ≡ c.overflow_limit
unfolding ingest force_overflow
ingest-overflow_limit c now [] = refl
ingest-overflow_limit c now (ev ∷ events) =
    ground (arith, ingest-overflow_limit (accept c now ev) now events)

drain_commands_fits :
    (c : WatchCoalescer) (now : ℕ) (commands : List HubCommand)
    → All (λ command. command ≢ stop) commands
    → length c.pending + length (published commands) ≤ c.overflow_limit
    → (c' : WatchCoalescer) × (drain_commands c now commands ≡ some c')
      × (c'.pending ≡ c.pending ++ published commands)
      × (c'.overflow_limit ≡ c.overflow_limit)
unfolding drain_commands
drain_commands_fits c now [] n h = (c, refl, sym (append-nil c.pending), refl)
drain_commands_fits c now (stop ∷ commands) n h = absurd (n.0 refl)
drain_commands_fits c now (publish ev ∷ commands) n h =
    let one = ingest_fits c now (ev ∷ []) (omega arith) in
    let limit = ingest-overflow_limit c now (ev ∷ []) in
    let sizes = ap length one.0 ∙ length-append c.pending (ev ∷ []) in
    let (c', drained, pending, kept) =
      drain_commands_fits (ingest c now (ev ∷ [])) now commands n.1 (omega (arith, sizes, limit)) in
    (
      c',
      drained,
      pending
          ∙ ap (λ xs. xs ++ published commands) one.0
          ∙ append_assoc c.pending (ev ∷ []) (published commands),
      kept ∙ limit,
    )

first_command_fits :
    (c : WatchCoalescer) (now : ℕ) (received : Received)
    → received ≢ command stop
    → received ≢ disconnected
    → c.pending ≡ []
    → 1 ≤ c.overflow_limit
    → (c' : WatchCoalescer) × (first_command c now received ≡ some c')
      × (c'.pending ≡ received_events received)
      × (c'.overflow_limit ≡ c.overflow_limit)
first_command_fits c now (command (publish ev)) a b empty h = (
  ingest c now (ev ∷ []),
  refl,
  (ingest_fits c now (ev ∷ []) (rw empty h)).0 ∙ rw empty,
  ingest-overflow_limit c now (ev ∷ []),
)
first_command_fits c now (command stop) a b empty h = absurd (a refl)
first_command_fits c now timeout a b empty h = (c, refl, empty, refl)
first_command_fits c now disconnected a b empty h = absurd (b refl)

system_round_flushes :
    (c c1 c2 : WatchCoalescer) (r : SystemRound)
    → first_command c r.now r.received ≡ some c1
    → drain_commands c1 r.now r.commands ≡ some c2
    → system_round c r.now r.received r.commands r.polled
      ≡ some (flush_round (ingest_raw c2 r.now r.polled) r.now)
unfolding system_round
system_round_flushes c c1 c2 r e1 e2 = ground arith

-- A calm round flushes exactly its events.
calm_round :
    (c : WatchCoalescer) (r : SystemRound)
    → c.pending ≡ []
    → 1 ≤ c.overflow_limit
    → IsCalm c.overflow_limit r
    → (d : WatchCoalescer) × (system_round c r.now r.received r.commands r.polled
        ≡ some (flush_now d r.now))
      × (d.pending ≡ round_events r)
      × (d.overflow_limit ≡ c.overflow_limit)
unfolding ingest_raw
calm_round c r empty pos (no_stop, live, no_stops, fits) =
    let first = received_events r.received in
    let middle = published r.commands in
    let last = polled_events r.polled in
    let total : length (first ++ (middle ++ last)) ≤ c.overflow_limit = fits in
    let sizes = length-append first (middle ++ last) in
    let sizes' = length-append middle last in
    let (c1, e1, p1, l1) = first_command_fits c r.now r.received no_stop live empty pos in
    let n1 = ap length p1 in
    let (c2, e2, p2, l2) =
      drain_commands_fits c1 r.now r.commands no_stops
        (omega (arith, total, n1, l1, sizes, sizes')) in
    let n2 = ap length p2 ∙ length-append c1.pending middle in
    let polled = ingest_fits c2 r.now last (omega (arith, total, n1, n2, l1, l2, sizes, sizes')) in
    (
      ingest c2 r.now last,
      system_round_flushes c c1 c2 r e1 e2
          ∙ ap some (flush_round-eq-flush_now (ingest c2 r.now last) r.now),
      polled.0
          ∙ ap (λ xs. xs ++ last) (p2 ∙ ap (λ xs. xs ++ middle) p1)
          ∙ append_assoc first middle last,
      ingest-overflow_limit c2 r.now last ∙ l2 ∙ l1,
    )

flush_now-events :
    (d : WatchCoalescer) (now : ℕ) (batches : List WatchBatch)
    → (delivered (deliver (flush_now d now).0 batches) ≡ d.pending ++ delivered batches)
      × ((flush_now d now).1.pending ≡ [])
      × ((flush_now d now).1.overflow_limit ≡ d.overflow_limit)
unfolding flush_now flush_pending
flush_now-events d now batches = ground arith

-- From a coalescer with nothing waiting and a limit of at least one, over rounds in which the
-- loop does not end and no more events are taken in than the limit, the subscribers receive
-- exactly the events that were taken in, in order: those of the channel and those of the backend.
pub run_system_rounds-delivers :
    (c : WatchCoalescer) (rounds : List SystemRound)
    → c.pending ≡ []
    → 1 ≤ c.overflow_limit
    → All (IsCalm c.overflow_limit) rounds
    → delivered (run_system_rounds c rounds) ≡ taken_in rounds
unfolding run_system_rounds
run_system_rounds-delivers c [] empty pos calm = refl
run_system_rounds-delivers c (r ∷ rounds) empty pos calm =
    let (d, flushed, pending, limit) = calm_round c r empty pos calm.0 in
    let (events, emptied, kept) =
      flush_now-events d r.now (run_system_rounds (flush_now d r.now).1 rounds) in
    let rest =
      run_system_rounds-delivers (flush_now d r.now).1 rounds emptied (omega (arith, kept, limit))
        (subst (λ n. All (IsCalm n) rounds) (sym (kept ∙ limit)) calm.1) in
    ap delivered (run_flushed c d r rounds flushed) ∙ events ∙ rw (pending, rest)
