-- ===== src/Partition/Handle.antt =====
-- crates/kafko/src/partition.rs: the handle on a partition. What a caller gets for a command is the
-- parameter `exchange`: the reply, or none if the mailbox is closed or the reply channel is dropped,
-- which happens when the writer task has ended.
use kafko.Base.{ℕ, zero, suc, Bytes, List, [], ◌∷◌, Option, none, some, length, Bool, true, false}
use kafko.Error.{ErrorKind, KafkoError, closed, partition_panicked, Result, ok, err}
use kafko.Exec.{Exec, ◌>>=◌}
use kafko.Disk.{Disk}
use kafko.Compression.{Platform}
use kafko.Record.{Record}
use kafko.Log.{Log, LogConfig}
use kafko.Log.Open.{open_existing}
use kafko.Topic.Wakeup.{Notify, Wakeup}
use kafko.Partition
use kafko.Partition.{
  Command, read_at, poison, fail_next_append, Reply, appended, batch_appended, record_read, synced,
}
use kafko.Partition.Loop.{Task, Event, receives, closes, partition_writer_loop}

-- The task as it starts on a log.
abbrev pub started : {N : Type 0} → Option (Wakeup N) → Log → Disk → Task N
started wake log d = record {
  inbox = [];
  state = (record { log = log; hwm = log.next_offset; fail_next_kind = none; replies = [] }, d);
  wake = wake;
}

-- `open_with_wake`; `open` is without a wakeup signal. The task has the directory from then on.
unfoldable pub open_with_wake :
    {N : Type 0} → Platform → LogConfig → Option (Wakeup N) → Exec Disk (Task N)
open_with_wake p config wake = do log ← open_existing p config; λ d. (ok (started wake log d), d)

-- The payload of a panic.
pub data Payload : Type 0 where
  static_str string : Bytes → Payload
  other_payload : Payload

-- "panic with non-string payload"
abbrev pub non_string : Bytes
non_string =
    b'p' ∷ b'a' ∷ b'n' ∷ b'i' ∷ b'c' ∷ b' ' ∷ b'w' ∷ b'i' ∷ b't' ∷ b'h' ∷ b' ' ∷ b'n' ∷ b'o' ∷ b'n'
    ∷ b'-' ∷ b's' ∷ b't' ∷ b'r' ∷ b'i' ∷ b'n' ∷ b'g' ∷ b' ' ∷ b'p' ∷ b'a' ∷ b'y' ∷ b'l' ∷ b'o'
    ∷ b'a' ∷ b'd' ∷ []

unfoldable pub panic_payload_to_string : Payload → Bytes
panic_payload_to_string (static_str s) = s
panic_payload_to_string (string s) = s
panic_payload_to_string other_payload = non_string

-- How the writer task ended.
pub data Exit : Type 0 where
  finished cancelled : Exit
  task_panicked : Payload → Exit

-- What the supervisor records: `panic_info`.
unfoldable pub supervise : Exit → Option Bytes
unfolding panic_payload_to_string
supervise finished = none
supervise cancelled = none
supervise (task_panicked payload) = some (panic_payload_to_string payload)

abbrev death_of : Option Bytes → KafkoError
death_of none = closed
death_of (some payload) = partition_panicked payload

-- `writer_death_error`, after the supervisor has seen the task end.
unfoldable pub writer_death_error : Exit → KafkoError
unfolding supervise
writer_death_error exit = death_of (supervise exit)

module _ {W : Type 0} (exchange : Command → W → Option Reply × W) (exit : W → Exit) (id : ℕ) where
  abbrev died : {A : Type 0} → W → Result A × W
  died w = (err (writer_death_error (exit w)), w)

  abbrev appended_or_dead : Option Reply × W → Result ℕ × W
  appended_or_dead (some (appended r), w) = (r, w)
  appended_or_dead (o, w) = died w

  unfoldable pub append : Record → Exec W ℕ
  append r w = appended_or_dead (exchange (Partition.append r id) w)

  abbrev batch_or_dead : Option Reply × W → Result (List ℕ) × W
  batch_or_dead (some (batch_appended r), w) = (r, w)
  batch_or_dead (o, w) = died w

  -- No records are answered at once.
  unfoldable pub append_batch : List Record → Exec W (List ℕ)
  append_batch [] w = (ok [], w)
  append_batch (r ∷ rs) w = batch_or_dead (exchange (Partition.append_batch (r ∷ rs) id) w)

  abbrev record_or_dead : Option Reply × W → Result (Option Record) × W
  record_or_dead (some (record_read r), w) = (r, w)
  record_or_dead (o, w) = died w

  unfoldable pub read_record : ℕ → Exec W (Option Record)
  read_record offset w = record_or_dead (exchange (read_at offset id) w)

  abbrev synced_or_dead : Option Reply × W → Result (Unit {0}) × W
  synced_or_dead (some (synced r), w) = (r, w)
  synced_or_dead (o, w) = died w

  unfoldable pub sync : Exec W (Unit {0})
  sync w = synced_or_dead (exchange (Partition.sync id) w)

-- The commands for tests, which wait for no reply; `post` says whether the mailbox took it.
module _ {W : Type 0} (post : Command → W → Bool × W) where
  abbrev taken : Bool × W → Result (Unit {0}) × W
  taken (true, w) = (ok tt, w)
  taken (false, w) = (err closed, w)

  unfoldable pub poison_for_test : Exec W (Unit {0})
  poison_for_test w = taken (post poison w)

  unfoldable pub fail_next_append_for_test : ErrorKind → Exec W (Unit {0})
  fail_next_append_for_test kind w = taken (post (fail_next_append kind) w)

-- After the mailbox is closed: what is left in it is received, at least one command a round, and then
-- the loop ends.
abbrev pub closing : ℕ → List Event
closing zero = closes ∷ []
closing (suc n) = receives ∷ closing n

-- `supervisor.await.map_err(|_| Closed)`: the supervisor is a task of its own, so it finishes or is
-- stopped by the runtime.
unfoldable pub exit_result : Exit → Result (Unit {0})
exit_result finished = ok tt
exit_result exit = err closed

-- `shutdown` waits for the supervisor, which waits for the task, so it returns when the task has
-- ended, by a panic as well. How the supervisor ends is an argument.
unfoldable pub shutdown_partition :
    {N : Type 0} → Notify N → Platform → Exit → Task N → Result (Unit {0}) × Task N
unfolding exit_result
shutdown_partition y p supervisor t =
    (exit_result supervisor, (partition_writer_loop y p (closing (length t.inbox)) t).1)
