-- ===== src/Examples/Logs.antt =====
-- Runs of the theorems on sparse_index.rs, segment.rs and log.rs.
use kafko.Base.{be32, be64, ℕ, ◌≡◌, refl, Bytes, List, [], ◌∷◌, arith, some, none}
use kafko.Error.{Result, ok, err, io, other_kind}
use kafko.Disk.{fail, calm, log_contents}
use kafko.Compression.{compress, is_available}
use kafko.Record.Encode.{frame, payload}
use kafko.SparseIndex.{IndexEntry, SparseIndex, track_append, lookup}
use kafko.SparseIndex.Lookup.{lookup-last_at_most, answer, last_at_most}
use kafko.SparseIndex.Track.{IsFile, all_bytes}
use kafko.SparseIndex.Spacing.{IsSpaced, Near, track_append-IsSpaced}
use kafko.Segment
use kafko.Segment.{Segment}
use kafko.Segment.Cursor.{append-append_failed}
use kafko.Log.{Log, State, LogConfig, append, append_batch, read_record_at}
use kafko.Log.Content.{Represents}
use kafko.Log.Create.{fresh_log, fresh_disk, create-Represents}
use kafko.Log.Append.{append-Represents}
use kafko.Log.Scan.{offsets_from}
use kafko.Log.Batch.{append_batch-Represents}
use kafko.Log.Find.{read_record_at-Represents}
use kafko.Examples.{plain, plain-IsLawful, hello, world, small_config}

abbrev two_entries : List IndexEntry
two_entries =
    record { relative_offset = 0; file_position = 0 }
    ∷ (record { relative_offset = 3; file_position = 90 } ∷ [])

abbrev two_entry_index : SparseIndex
two_entry_index = record {
  base_offset = 10;
  entries = two_entries;
  bytes_since_last_entry = 0;
  interval = 64;
}

lookup-last_at_most_example :
    lookup two_entry_index 12 ≡ ok (answer two_entry_index (last_at_most 2 none two_entries))
lookup-last_at_most_example =
    lookup-last_at_most two_entry_index 12 (omega arith, (omega arith, tt))
      (omega arith, (omega arith, tt)) (omega arith)

abbrev two_entry_file : List (ℕ × Bytes)
two_entry_file = (10, all_bytes two_entries) ∷ []

track_append-IsSpaced_example :
    (y : SparseIndex) × (ys : List (ℕ × Bytes)) × (track_append 17 180 80
        (record two_entry_index { bytes_since_last_entry = 90 }, calm [] two_entry_file)
      ≡ (ok tt, (y, calm [] ys)))
    × IsFile y ys
    × (y.base_offset ≡ 10)
    × (y.interval ≡ 64)
    × IsSpaced y 260
    × Near y.interval 180 y.entries
track_append-IsSpaced_example =
    track_append-IsSpaced (record two_entry_index { bytes_since_last_entry = 90 }) [] two_entry_file
      7 180 80 refl (omega arith) (omega arith)
      (record { apart = (omega arith, tt); counted = refl })

-- A segment of three bytes whose handle was left at its start.
abbrev three_bytes : Segment
three_bytes = record { base_offset = 10; position = 1; size = 3; cursor = some 1 }

abbrev three_bytes_file : List (ℕ × Bytes)
three_bytes_file = (10, 1 ∷ 2 ∷ 3 ∷ []) ∷ []

abbrev at_end : Segment
at_end = record { base_offset = 10; position = 3; size = 3; cursor = some 3 }

abbrev torn_write : Result ℕ × Segment.State
torn_write =
    Segment.append (4 ∷ 5 ∷ []) (
      at_end,
      record { logs = three_bytes_file; indexes = []; faults = fail (other_kind 28) 1 ∷ [] },
    )

append-append_failed_example :
    (torn_write.0 ≡ err (io (other_kind 28)))
    × ((Segment.append (6 ∷ []) torn_write.1).0 ≡ ok 3)
    × (log_contents 10 (Segment.append (6 ∷ []) torn_write.1).1.1 ≡ 1 ∷ 2 ∷ 3 ∷ 4 ∷ 6 ∷ [])
append-append_failed_example =
    append-append_failed at_end three_bytes_file [] (1 ∷ 2 ∷ 3 ∷ []) (4 ∷ 5 ∷ []) (6 ∷ [])
      (other_kind 28) 1 (record { file = refl; sized = refl; agrees = refl }) refl

create-Represents_example :
    (kafko.Log.create small_config (calm [] []) ≡ (ok (fresh_log small_config), fresh_disk))
    × Represents plain (fresh_log small_config) fresh_disk 0 []
create-Represents_example = create-Represents plain small_config

append-Represents_example :
    (s : State) × (append plain hello (fresh_log small_config, fresh_disk) ≡ (ok 0, s))
    × Represents plain s.0 s.1 0 (hello ∷ [])
    × (s.0.config ≡ small_config)
unfolding is_available compress
append-Represents_example =
    append-Represents plain (fresh_log small_config) fresh_disk 0 [] hello (104 ∷ 105 ∷ [])
      plain-IsLawful (create-Represents plain small_config).1 (omega arith) refl (omega arith) refl
      (record { stamp = omega arith; room = omega arith })

-- The log after the two records.
two_appends : (s : State) × Represents plain s.0 s.1 0 (hello ∷ (world ∷ []))
unfolding is_available compress
two_appends =
    let (s, e, rep, c) =
      append-Represents plain (fresh_log small_config) fresh_disk 0 [] hello (104 ∷ 105 ∷ [])
        plain-IsLawful (create-Represents plain small_config).1 (omega arith) refl (omega arith)
        refl (record { stamp = omega arith; room = omega arith }) in
    let (s', e', rep', c') =
      append-Represents plain s.0 s.1 0 (hello ∷ []) world (119 ∷ []) plain-IsLawful rep
        (rw c (omega arith)) (rw c refl) (omega arith) (rw c refl)
        (record { stamp = omega arith; room = omega arith }) in
    (s', rep')

read_record_at-Represents_example :
    (s : State) × (read_record_at plain 1 two_appends.0 ≡ (ok (some world), s))
    × Represents plain s.0 s.1 0 (hello ∷ (world ∷ []))
read_record_at-Represents_example =
    read_record_at-Represents plain two_appends.0.0 two_appends.0.1 0 (hello ∷ (world ∷ [])) 1
      two_appends.1

append_batch-Represents_example :
    (s : State) × (append_batch plain (hello ∷ (world ∷ [])) (fresh_log small_config, fresh_disk)
      ≡ (ok (0 ∷ (1 ∷ [])), s))
    × Represents plain s.0 s.1 0 (hello ∷ (world ∷ []))
    × (s.0.config ≡ small_config)
unfolding is_available compress offsets_from frame be32 payload be64
append_batch-Represents_example =
    append_batch-Represents plain (fresh_log small_config) fresh_disk 0 []
      ((hello, 104 ∷ 105 ∷ []) ∷ ((world, 119 ∷ []) ∷ [])) plain-IsLawful
      (create-Represents plain small_config).1 refl
      (
        record {
          within = omega arith;
          coded = refl;
          fits = record { stamp = omega arith; room = omega arith };
        },
        (
          record {
            within = omega arith;
            coded = refl;
            fits = record { stamp = omega arith; room = omega arith };
          },
          tt,
        ),
      )
      (omega arith)
