-- ===== src/Examples/Faulty.antt =====
-- Runs of the theorems on log.rs and partition.rs with a disk whose calls fail.
use kafko.Base.{ℕ, refl, false, List, [], ◌∷◌, none}
use kafko.Error.{other_kind}
use kafko.Disk.{Disk, pass, fail, short}
use kafko.Log.{append_batch, read_record_at}
use kafko.Log.Enough.{IsEnough}
use kafko.Log.Steps.{Same, Leads}
use kafko.Log.Counts.{CountedBatch}
use kafko.Log.Faults.{append_batch-Leads, read_record_at-Leads}
use kafko.Log.Create.{fresh_log, fresh_disk}
use kafko.Topic.Wakeup.{Notify}
use kafko.Partition
use kafko.Partition.{Command, read_at, sync, poison, WriterState}
use kafko.Partition.Loop.{Task, Event, arrives, receives, ticks, closes, partition_writer_loop}
use kafko.Partition.Ends.{Ends, partition_writer_loop-Ends}
use kafko.Examples.{plain, hello, world, small_config}

-- The second write is torn, and a later call fails.
abbrev failing_disk : Disk
failing_disk = record fresh_disk {
  faults = pass ∷ (pass ∷ (fail (other_kind 28) 3 ∷ (short 2 ∷ (fail (other_kind 5) 0 ∷ []))));
}

append_batch-Leads_example :
    IsEnough (append_batch plain (hello ∷ (world ∷ [])) (fresh_log small_config, failing_disk)).0
    × Leads
        (fresh_log small_config)
        (CountedBatch plain (fresh_log small_config) (hello ∷ (world ∷ [])))
        (append_batch plain (hello ∷ (world ∷ [])) (fresh_log small_config, failing_disk))
append_batch-Leads_example =
    append_batch-Leads plain (fresh_log small_config) failing_disk (hello ∷ (world ∷ []))

read_record_at-Leads_example :
    IsEnough (read_record_at plain 0 (fresh_log small_config, failing_disk)).0
    × Leads
        (fresh_log small_config)
        (λ r l'. Same (fresh_log small_config) l')
        (read_record_at plain 0 (fresh_log small_config, failing_disk))
read_record_at-Leads_example = read_record_at-Leads plain (fresh_log small_config) failing_disk 0

abbrev Signals : Type 0
Signals = ℕ

abbrev counted_signals : Notify Signals
counted_signals = record {
  new = 0;
  notify_waiters = λ n. n;
  enable = λ id n. n;
  is_enabled = λ id n. false;
  is_woken = λ id n. false;
}

abbrev failing_task : Task Signals
failing_task = record {
  inbox = sync 1 ∷ [];
  state = (
    record { log = fresh_log small_config; hwm = 0; fail_next_kind = none; replies = [] },
    failing_disk,
  );
  wake = none;
}

abbrev failing_events : List Event
failing_events =
    arrives (Partition.append hello 2)
    ∷ (receives
        ∷ (arrives (Partition.append_batch (world ∷ []) 3)
            ∷ (receives
                ∷ (arrives poison
                    ∷ (arrives (read_at 0 4)
                        ∷ (receives ∷ (ticks 5 (λ b. 0) ∷ (receives ∷ (closes ∷ [])))))))))

partition_writer_loop-Ends_example :
    Ends counted_signals plain
      (2 ∷ (3 ∷ (4 ∷ [])))
      failing_task
      (partition_writer_loop counted_signals plain failing_events failing_task)
partition_writer_loop-Ends_example =
    partition_writer_loop-Ends counted_signals plain failing_events failing_task refl
