-- ===== src/Watch/Hub.antt =====
-- progressive-lsp-watch/src/hub.rs and src/file_hub.rs: the rounds of the hub thread. A round is
-- given what its receives and its poll return, with the time that the clock shows; threads, the
-- channel's capacity and the sleeping itself are not modelled.
pub mod Rounds
pub mod Deliveries
pub mod FakeClock
mod Examples
use progressive_lsp.Base.{
  ℕ, suc, ◌+◌, Bool, true, false, ◌||◌, List, [], ◌∷◌, ◌++◌, Text, Option, none, some, max,
}
use progressive_lsp.Watch.{WatchEvent, RawWatchEvent, WatchBatch, buffer_modify}
use progressive_lsp.Watch.Coalescer.{
  WatchCoalescer, with_limits, ingest, ingest_raw, flush_now, flush_due, default_overflow_limit,
  default_files_since_limit,
}

pub data HubCommand : Type 0 where
  publish : WatchEvent → HubCommand
  stop : HubCommand

-- HubHandle::publish_buffer_modify: the command that goes into the channel.
unfoldable pub publish_buffer_modify : Text → HubCommand
publish_buffer_modify path = publish (buffer_modify path)

-- The `while let Ok(cmd) = rx.try_recv()` loop over what the channel holds: `none` is the early
-- return at a stop.
unfoldable pub drain_commands : WatchCoalescer → ℕ → List HubCommand → Option WatchCoalescer
drain_commands c now [] = some c
drain_commands c now (publish ev ∷ commands) = drain_commands (ingest c now (ev ∷ [])) now commands
drain_commands c now (stop ∷ commands) = none

-- What the subscribers are called with, one after the other, and the coalescer after it.
abbrev pub Dispatch : Type 0
Dispatch = Option WatchBatch × WatchCoalescer

-- FileEventHub::drain_once; `none` where a stop ended it before the poll.
unfoldable pub drain_once :
    WatchCoalescer → ℕ → List HubCommand → List RawWatchEvent → Option Dispatch
unfolding drain_commands
drain_once c now commands polled = elim (drain_commands c now commands) [
  | none ↦ none
  | some drained ↦ some (flush_now (ingest_raw drained now polled) now)
]

-- `flush_due().or_else(|| flush_now())`
abbrev pub or_flush_now : Dispatch → ℕ → Dispatch
or_flush_now (some batch, c) now = (some batch, c)
or_flush_now (none, c) now = flush_now c now

unfoldable pub flush_round : WatchCoalescer → ℕ → Dispatch
flush_round c now = or_flush_now (flush_due c now now) now

-- What `recv_timeout` returns.
pub data Received : Type 0 where
  command : HubCommand → Received
  timeout disconnected : Received

-- One turn of the loop of run_system_loop; `none` where it ends.
abbrev pub first_command : WatchCoalescer → ℕ → Received → Option WatchCoalescer
first_command c now (command (publish ev)) = some (ingest c now (ev ∷ []))
first_command c now (command stop) = none
first_command c now timeout = some c
first_command c now disconnected = none

abbrev pub system_rest : Option WatchCoalescer → ℕ → List RawWatchEvent → Option Dispatch
system_rest none now polled = none
system_rest (some drained) now polled = some (flush_round (ingest_raw drained now polled) now)

unfoldable pub system_round :
    WatchCoalescer → ℕ → Received → List HubCommand → List RawWatchEvent → Option Dispatch
unfolding drain_commands flush_round
system_round c now received commands polled = elim (first_command c now received) [
  | none ↦ none
  | some c' ↦ system_rest (drain_commands c' now commands) now polled
]

pub record SystemRound : Type 0 where
  pub now : ℕ
  pub received : Received
  pub commands : List HubCommand
  pub polled : List RawWatchEvent

abbrev pub deliver : Option WatchBatch → List WatchBatch → List WatchBatch
deliver none batches = batches
deliver (some batch) batches = batch ∷ batches

-- run_system_loop over the rounds that come to pass: the batches that the subscribers receive.
unfoldable pub run_system_rounds : WatchCoalescer → List SystemRound → List WatchBatch
run_system_rounds c [] = []
run_system_rounds c (r ∷ rounds) = elim (system_round c r.now r.received r.commands r.polled) [
  | none ↦ []
  | some (batch, c') ↦ deliver batch (run_system_rounds c' rounds)
]

unfoldable pub run_system_loop : ℕ → List SystemRound → List WatchBatch
unfolding run_system_rounds with_limits
run_system_loop window_ms rounds =
    run_system_rounds
      (with_limits (max window_ms 1) default_overflow_limit default_files_since_limit) rounds

-- run_fake_clock_loop: a stop is noted while the channel is drained. `idle` is what the second
-- `try_recv`, at the end of a turn, takes out of the channel.
pub record FakeRound : Type 0 where
  pub commands : List HubCommand
  pub polled : List RawWatchEvent
  pub idle : Option HubCommand

abbrev pub drain_noting : WatchCoalescer → ℕ → List HubCommand → Bool × WatchCoalescer
drain_noting c now [] = (false, c)
drain_noting c now (publish ev ∷ commands) = drain_noting (ingest c now (ev ∷ [])) now commands
drain_noting c now (stop ∷ commands) = (true, (drain_noting c now commands).1)

-- One turn up to the test of the stop: the commands, the poll, the clock's advance, the flush.
unfoldable pub fake_turn : WatchCoalescer → ℕ → ℕ → FakeRound → Bool × Dispatch
unfolding flush_round
fake_turn c now later r =
    let (stopped, drained) = drain_noting c now r.commands in
    (stopped, flush_round (ingest_raw drained now r.polled) later)

-- `if stop { break; }`
abbrev pub end_turn : Bool → Option WatchBatch → Bool × List WatchBatch → Bool × List WatchBatch
end_turn true batch rest = (true, deliver batch [])
end_turn false batch rest = (rest.0, deliver batch rest.1)

-- Whether the loop has ended, and the deliveries, from a coalescer at a time.
unfoldable pub run_fake_rounds : WatchCoalescer → ℕ → ℕ → List FakeRound → Bool × List WatchBatch
run_fake_rounds c now window_ms [] = (false, [])
run_fake_rounds c now window_ms (r ∷ rounds) =
    let later = now + max window_ms 1 in
    let turn = fake_turn c now later r in
    let rest = run_fake_rounds turn.1.1 later window_ms rounds in end_turn turn.0 turn.1.0 rest

-- src/file_hub.rs: the flag that a delivered batch sets.
unfoldable pub note_batch_flags : Bool → WatchBatch → Bool
note_batch_flags need_rescan batch = need_rescan || (batch.need_rescan || batch.overflow)
