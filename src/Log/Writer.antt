-- ===== src/Log/Writer.antt =====
-- progressive-lsp-log/src/actor.rs: the mailbox and the loop of the writer. The database is the list
-- of the rows that were committed; whether a transaction works is an argument, as are the readings
-- of the clock and the order in which senders and writer take the lock.
pub mod Stored
pub mod Order
pub mod Room
pub mod Bounds
use progressive_lsp.Base.{
  ℕ, ◌+◌, ◌%◌, ◌^◌, List, [], ◌∷◌, ◌++◌, Bool, true, false, ◌&&◌, not, Option, none, some,
  if◌then◌else◌, ltb, leb, length, keep, max, saturating_add, map,
}
use progressive_lsp.Control.TraceRing.{LogRecord}
use progressive_lsp.Log.Batch.{
  CrashSafeBatch, is_empty, push, take_for_commit, on_commit_ok, on_commit_fail, take_meta_row,
  note_channel_drops,
}

abbrev pub channel_cap : ℕ
channel_cap = 4096

-- A flush carries the number of the sender that waits for it.
pub data ActorMsg : Type 0 where
  record_msg : LogRecord → ActorMsg
  flush_msg : ℕ → ActorMsg
  shutdown_msg : ActorMsg

abbrev pub is_record : ActorMsg → Bool
is_record (record_msg r) = true
is_record msg = false

pub record Mailbox : Type 0 where
  pub queue : List ActorMsg
  pub cap : ℕ
  pub dropped : ℕ

abbrev pub new_mailbox : ℕ → Mailbox
new_mailbox cap = record { queue = []; cap = max cap 1; dropped = 0 }

abbrev pub count_records : List ActorMsg → ℕ
count_records [] = 0
count_records (msg ∷ queue) = (if is_record msg then 1 else 0) + count_records queue

-- The first record of the queue goes.
abbrev pub remove_record : List ActorMsg → List ActorMsg
remove_record [] = []
remove_record (msg ∷ queue) =
    let rest = msg ∷ remove_record queue in if is_record msg then queue else rest

-- A mailbox with as many records as it may hold drops the oldest one for a record.
unfoldable pub try_push : ActorMsg → Mailbox → Mailbox
try_push msg mb =
    if is_record msg && leb mb.cap (count_records mb.queue)
    then record mb {
      queue = remove_record mb.queue ++ msg ∷ [];
      dropped = (mb.dropped + 1) % 2 ^ 64;
    }
    else record mb { queue = mb.queue ++ msg ∷ [] }

-- The writer: its mailbox and batch, the rows in the database, the flushes that it has answered,
-- and whether its loop has ended.
pub record Writer : Type 0 where
  pub mailbox : Mailbox
  pub batch : CrashSafeBatch
  pub rows : List LogRecord
  pub acks : List ℕ
  pub stopped : Bool

abbrev pub new_writer : ℕ → CrashSafeBatch → Writer
new_writer cap batch = record {
  mailbox = new_mailbox cap;
  batch = batch;
  rows = [];
  acks = [];
  stopped = false;
}

-- What the outside gives to a turn: the readings of the clock, and whether the rows get in.
pub record Outcome : Type 0 where
  pub record_ms : ℕ
  pub meta_ms : ℕ
  pub push_ms : ℕ
  pub now_ms : ℕ
  pub written : Bool

-- The row of the drops in an empty batch.
abbrev pub push_meta : Outcome → CrashSafeBatch → CrashSafeBatch
push_meta out b =
    let (b', row) = take_meta_row out.meta_ms b in
    elim row [ none ↦ b' | some r ↦ (push r out.push_ms b').0 ]

abbrev pub with_meta : List LogRecord → Option LogRecord → List LogRecord
with_meta rows none = rows
with_meta rows (some r) = rows ++ r ∷ []

-- The part of `commit` that has rows to write.
unfoldable pub write_batch : Outcome → Writer → Writer
write_batch out w =
    let (taken, rows) = take_for_commit w.batch in
    let (b, row) = take_meta_row out.now_ms taken in
    let all_rows = with_meta rows row in
    if out.written
    then record w { batch = on_commit_ok out.now_ms b; rows = w.rows ++ all_rows }
    else record w { batch = on_commit_fail all_rows b }

unfoldable pub commit : Outcome → Writer → Writer
commit out w =
    let noted = note_channel_drops w.mailbox.dropped w.batch in
    let w' = record w { mailbox = record w.mailbox { dropped = 0 }; batch = noted } in
    let filled = push_meta out noted in
    if is_empty noted
    then (if is_empty filled
        then record w' { batch = filled }
        else write_batch out (record w' { batch = filled }))
    else write_batch out w'

-- What a turn does with a message.
unfoldable pub handle : Outcome → ActorMsg → Writer → Writer
handle out (record_msg r) w =
    let (b, full) = push r out.record_ms w.batch in
    let w' = record w { batch = b } in if full then commit out w' else w'
handle out (flush_msg sender) w =
    let w' = commit out w in record w' { acks = w'.acks ++ sender ∷ [] }
handle out shutdown_msg w = let w' = commit out w in record w' { stopped = true }

-- With something to write the loop waits for no longer than the time of a batch.
abbrev pub waits_with_timeout : CrashSafeBatch → Bool
waits_with_timeout b = not (is_empty b) && (ltb 0 b.batch_ms && ltb 1 b.batch_max)

-- A turn of the loop. Nothing happens while it waits, and after its end.
unfoldable pub turn : Outcome → Writer → Writer
turn out w = if w.stopped then w else elim w.mailbox.queue [
  | [] ↦ if waits_with_timeout w.batch then commit out w else w
  | msg ∷ queue ↦ handle out msg (record w { mailbox = record w.mailbox { queue = queue } })
]

-- The senders and the writer, in the order in which they take the lock of the mailbox.
pub data Step : Type 0 where
  send : ActorMsg → Step
  take_turn : Outcome → Step

abbrev pub step : Step → Writer → Writer
step (send msg) w = record w { mailbox = try_push msg w.mailbox }
step (take_turn out) w = turn out w

abbrev pub run : List Step → Writer → Writer
run [] w = w
run (s ∷ steps) w = run steps (step s w)
