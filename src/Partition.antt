-- ===== src/Partition.antt =====
-- crates/kafko/src/partition.rs: the writer task of a partition. `inbox` is what the mailbox holds
-- when the task looks; a reply channel is a number, and `replies` lists what was sent on which. The
-- channels are tokio's.
pub mod Batching
pub mod Writer
pub mod Serving
pub mod Flush
pub mod Reads
pub mod Loop
pub mod Rounds
pub mod Runs
pub mod Handle
pub mod Shutdown
pub mod Served
pub mod Does
pub mod Commands
pub mod AnyDisk
pub mod Ends
use kafko.Base.{
  ℕ, ◌+◌, List, [], ◌∷◌, ◌++◌, Option, none, some, length, ltb, Bool, true, false, ◌&&◌,
  if◌then◌else◌, map,
}
use kafko.Error.{ErrorKind, KafkoError, io, Result, ok, err, panicked, out_of_fuel}
use kafko.Exec.{Exec, ◌>>=◌, ◌>>◌, pure, lift, gets, modify}
use kafko.Disk.{Disk}
use kafko.Compression.{Platform}
use kafko.Record.{Record, wire_size}
use kafko.Log
use kafko.Log.{Log}
use kafko.Log.Retention.{apply_retention}

-- The reply channel is the last argument.
pub data Command : Type 0 where
  append : Record → ℕ → Command
  append_batch : List Record → ℕ → Command
  read_at : ℕ → ℕ → Command
  sync : ℕ → Command
  poison : Command
  fail_next_append : ErrorKind → Command

pub data Reply : Type 0 where
  appended : Result ℕ → Reply
  batch_appended : Result (List ℕ) → Reply
  record_read : Result (Option Record) → Reply
  synced : Result (Unit {0}) → Reply

-- The task's variables: `hwm` is what the watch channel shows.
pub record WriterState : Type 0 where
  pub log : Log
  pub hwm : ℕ
  pub fail_next_kind : Option ErrorKind
  pub replies : List (ℕ × Reply)

abbrev pub State : Type 0
State = WriterState × Disk

-- An operation of the log whose error the task looks at; a panic ends the task.
abbrev pub caught : {A : Type 0} → WriterState → Result A × (Log × Disk) → Result (Result A) × State
caught w (ok a, (l, d)) = (ok (ok a), (record w { log = l }, d))
caught w (err e, (l, d)) = (ok (err e), (record w { log = l }, d))
caught w (panicked, (l, d)) = (panicked, (record w { log = l }, d))
caught w (out_of_fuel, (l, d)) = (out_of_fuel, (record w { log = l }, d))

abbrev pub attempt : {A : Type 0} → Exec (Log × Disk) A → Exec State (Result A)
attempt m (w, d) = caught w (m (w.log, d))

abbrev pub send : ℕ → Reply → Exec State (Unit {0})
send id reply = modify (λ s. (record (s.0) { replies = s.0.replies ++ ((id, reply) ∷ []) }, s.1))

abbrev pub publish : ℕ → Exec State (Unit {0})
publish hwm = modify (λ s. (record (s.0) { hwm = hwm }, s.1))

-- `fail_next_kind.take()`
abbrev pub take_fail : Exec State (Option ErrorKind)
take_fail s = (ok (s.0.fail_next_kind), (record (s.0) { fail_next_kind = none }, s.1))

abbrev pub last : List ℕ → Option ℕ
last [] = none
last (x ∷ []) = some x
last (x ∷ (y ∷ ys)) = last (y ∷ ys)

abbrev pub publish_past : Option ℕ → Exec State (Unit {0})
publish_past none = pure tt
publish_past (some offset) = publish (offset + 1)

-- `offsets.into_iter().zip(replies)`
abbrev pub send_offsets : List ℕ → List ℕ → Exec State (Unit {0})
send_offsets [] ids = pure tt
send_offsets (offset ∷ offsets) [] = pure tt
send_offsets (offset ∷ offsets) (id ∷ ids) = do
  send id (appended (ok offset))
  send_offsets offsets ids

abbrev pub send_error : KafkoError → List ℕ → Exec State (Unit {0})
send_error e [] = pure tt
send_error e (id ∷ ids) = do send id (appended (err e)); send_error e ids

abbrev pub settle_batch : List ℕ → Result (List ℕ) → Exec State (Unit {0})
settle_batch ids (ok offsets) = do publish_past (last offsets); send_offsets offsets ids
settle_batch ids (err e) = send_error e ids
settle_batch ids panicked = lift panicked
settle_batch ids out_of_fuel = lift out_of_fuel

abbrev pub unless_failing :
    Option ErrorKind
    → (ErrorKind → Exec State (Unit {0}))
    → Exec State (Unit {0})
    → Exec State (Unit {0})
unless_failing none fails goes = goes
unless_failing (some kind) fails goes = fails kind

-- `records` and `replies` of the source are the two halves of `batch`.
unfoldable pub flush_append_batch : Platform → List (Record × ℕ) → Exec State (Unit {0})
flush_append_batch p [] = pure tt
flush_append_batch p (b ∷ batch) = do
  fail ← take_fail
  let ids = map (λ (x : Record × ℕ). x.1) (b ∷ batch)
  unless_failing fail (λ kind. send_error (io kind) ids)
      (do
        result ← attempt (Log.append_batch p (map (λ (x : Record × ℕ). x.0) (b ∷ batch)))
        settle_batch ids result)

abbrev pub publish_batch : Result (List ℕ) → Exec State (Unit {0})
publish_batch (ok offsets) = publish_past (last offsets)
publish_batch _ = pure tt

unfoldable pub flush_explicit_batch : Platform → List Record → ℕ → Exec State (Unit {0})
flush_explicit_batch p records id = do
  fail ← take_fail
  unless_failing fail (λ kind. send id (batch_appended (err (io kind))))
      (do
        result ← attempt (Log.append_batch p records)
        publish_batch result
        send id (batch_appended result))

abbrev pub publish_one : Result ℕ → Exec State (Unit {0})
publish_one (ok offset) = publish (offset + 1)
publish_one _ = pure tt

unfoldable pub handle_single_command : Platform → Command → Exec State (Unit {0})
unfolding flush_explicit_batch
handle_single_command p (append r id) = do
  fail ← take_fail
  unless_failing fail (λ kind. send id (appended (err (io kind))))
      (do result ← attempt (Log.append p r); publish_one result; send id (appended result))
handle_single_command p (append_batch records id) = flush_explicit_batch p records id
handle_single_command p (read_at offset id) = do
  result ← attempt (Log.read_record_at p offset)
  send id (record_read result)
handle_single_command p (sync id) = do result ← attempt Log.sync; send id (synced result)
handle_single_command p poison = lift panicked
handle_single_command p (fail_next_append kind) =
    modify (λ s. (record (s.0) { fail_next_kind = some kind }, s.1))

-- What the draining loop took: the batch, the command of another kind that ended it, and the rest
-- of the mailbox.
pub record Drained : Type 0 where
  pub batch : List (Record × ℕ)
  pub other : Option Command
  pub rest : List Command

-- The loop `while records.len() < batch_max_records && batch_bytes < batch_max_bytes`.
unfoldable pub drain : ℕ → ℕ → List (Record × ℕ) → ℕ → List Command → Drained
drain max_records max_bytes batch batch_bytes [] = record { batch = batch; other = none; rest = [] }
drain max_records max_bytes batch batch_bytes (append r id ∷ inbox) =
    let further =
      drain max_records max_bytes (batch ++ ((r, id) ∷ [])) (batch_bytes + wire_size r) inbox in
    if ltb (length batch) max_records && ltb batch_bytes max_bytes
    then further
    else record { batch = batch; other = none; rest = append r id ∷ inbox }
drain max_records max_bytes batch batch_bytes (c ∷ inbox) =
    if ltb (length batch) max_records && ltb batch_bytes max_bytes
    then record { batch = batch; other = some c; rest = inbox }
    else record { batch = batch; other = none; rest = c ∷ inbox }

abbrev pub handle_other : Platform → Option Command → Exec State (Unit {0})
handle_other p none = pure tt
handle_other p (some c) = handle_single_command p c

-- `process_with_batching`, with what is left in the mailbox.
unfoldable pub process_with_batching :
    Platform → ℕ → ℕ → Command → List Command → Exec State (List Command)
process_with_batching p max_records max_bytes (append r id) inbox = do
  let drained = drain max_records max_bytes ((r, id) ∷ []) (wire_size r) inbox
  flush_append_batch p drained.batch
  handle_other p drained.other
  pure drained.rest
process_with_batching p max_records max_bytes first inbox = do
  handle_single_command p first
  pure inbox

-- The arm of the retention tick, whose result is dropped, and the flush after the mailbox is closed.
unfoldable pub tick : ℕ → (ℕ → ℕ) → Exec State (Result ℕ)
tick now mtime = attempt (apply_retention mtime now)

unfoldable pub close : Exec State (Result (Unit {0}))
close = attempt Log.sync
