-- ===== src/Log/Open.antt =====
-- crates/kafko/src/log.rs: `Log::open` and the recovery of the active segment.
use kafko.Base.{
  ℕ, zero, suc, ◌+◌, ◌-◌, Bytes, List, [], ◌∷◌, ◌++◌, length, leb, ltb, ◌==◌, if◌then◌else◌,
  replicate, map,
}
use kafko.Error.{Result, ok, err, panicked, out_of_fuel}
use kafko.Exec.{Exec, ◌>>=◌, ◌>>◌, pure, lift, gets, when, stored}
use kafko.Disk.{Disk, call}
use kafko.Compression.{Platform}
use kafko.Record.{decode}
use kafko.SparseIndex
use kafko.SparseIndex.{SparseIndex}
use kafko.Segment
use kafko.Segment.{Segment}
use kafko.Log.{LogConfig, IndexedSegment, Log, create}
use kafko.Log.Scan.{scan_loop}
use kafko.Log.Retention.{remove_index_if_there}

-- `offsets.sort()`
insert_sorted : ℕ → List ℕ → List ℕ
insert_sorted x [] = x ∷ []
insert_sorted x (y ∷ ys) = if leb x y then x ∷ (y ∷ ys) else y ∷ insert_sorted x ys

unfoldable pub sort : List ℕ → List ℕ
unfolding insert_sorted
sort [] = []
sort (x ∷ xs) = insert_sorted x (sort xs)

-- The base offsets that the names of the `.log` files spell.
unfoldable pub discover_segment_offsets : Exec Disk (List ℕ)
discover_segment_offsets = call (λ d. (ok (sort (map (λ e. e.0) d.logs)), d))

-- The whole buffer of `size` zeros after a read into it.
abbrev pub filled : ℕ → Bytes → Bytes
filled size bytes = bytes ++ replicate (size - length bytes) 0

unfoldable pub scan_for_last_valid_position : Platform → Exec Segment.State ℕ
scan_for_last_valid_position p = do
  size ← gets (λ s. s.0.size)
  if size == 0
      then pure 0
      else do bytes ← Segment.read_at 0 size; lift (scan_loop p size (filled size bytes) 0)

abbrev pub Recovering : Type 0
Recovering = (Segment × SparseIndex) × Disk

abbrev on_log : {A : Type 0} → Exec Segment.State A → Exec Recovering A
on_log m ((s, x), d) = stored (λ t. ((t.0, x), t.1)) (m (s, d))

abbrev on_index : {A : Type 0} → Exec SparseIndex.State A → Exec Recovering A
on_index m ((s, x), d) = stored (λ t. ((s, t.0), t.1)) (m (x, d))

-- The loop of `replay_records_to_index`, with the number of records that it returns.
unfoldable pub replay_loop : Platform → ℕ → Bytes → ℕ → ℕ → ℕ → Exec SparseIndex.State ℕ
replay_loop p fuel [] base_offset file_pos count = pure count
replay_loop p zero (b ∷ bs) base_offset file_pos count = lift out_of_fuel
replay_loop p (suc fuel) (b ∷ bs) base_offset file_pos count = do
  decoded ← lift (decode p (b ∷ bs))
  let consumed = length (b ∷ bs) - length (decoded.1)
  SparseIndex.track_append (base_offset + count) file_pos consumed
  replay_loop p fuel (decoded.1) base_offset (file_pos + consumed) (count + 1)

unfoldable pub replay_records_to_index : Platform → ℕ → Exec Recovering ℕ
replay_records_to_index p base_offset = do
  size ← gets (λ s. s.0.0.size)
  if size == 0 then pure 0 else do
    bytes ← on_log (Segment.read_at 0 size)
    on_index (replay_loop p size (filled size bytes) base_offset 0 0)

-- The scan and the truncation of the torn tail.
unfoldable pub truncate_tail : Platform → Exec Segment.State (Unit {0})
truncate_tail p = do
  last_valid_pos ← scan_for_last_valid_position p
  size ← gets (λ s. s.0.size)
  when (ltb last_valid_pos size) (Segment.truncate last_valid_pos)

abbrev with_state : {S A : Type 0} → S → Result A × (S × Disk) → Result (A × S) × Disk
with_state s0 (ok a, (s, d)) = (ok (a, s), d)
with_state s0 (err e, (s, d)) = (err e, d)
with_state s0 (panicked, (s, d)) = (panicked, d)
with_state s0 (out_of_fuel, (s, d)) = (out_of_fuel, d)

-- Code over a local value, which is dropped on an error.
abbrev pub run_local : {S A : Type 0} → S → Exec (S × Disk) A → Exec Disk (A × S)
run_local s m d = with_state s (m (s, d))

-- The segment, its new index and the number of records.
unfoldable pub recover_active_segment : Platform → ℕ → ℕ → Exec Disk (ℕ × (Segment × SparseIndex))
recover_active_segment p base_offset index_interval = do
  opened ← Segment.open_existing base_offset
  cut ← run_local opened (truncate_tail p)
  remove_index_if_there base_offset
  index ← SparseIndex.create base_offset index_interval
  run_local (cut.1, index) (replay_records_to_index p base_offset)

-- All segments but the last are trusted; the last is recovered.
unfoldable pub open_segments : Platform → ℕ → List ℕ → Exec Disk (ℕ × List IndexedSegment)
open_segments p interval [] = lift panicked
open_segments p interval (base ∷ []) = do
  r ← recover_active_segment p base interval
  pure (base + r.0, record { segment = r.1.0; index = r.1.1 } ∷ [])
open_segments p interval (base ∷ (next ∷ bases)) = do
  s ← Segment.open_existing base
  x ← SparseIndex.open_existing base interval
  r ← open_segments p interval (next ∷ bases)
  pure (r.0, record { segment = s; index = x } ∷ r.1)

abbrev open_at : Platform → LogConfig → List ℕ → Exec Disk Log
open_at p config [] = create config
open_at p config (base ∷ bases) = do
  r ← open_segments p config.index_interval (base ∷ bases)
  pure (record { config = config; segments = r.1; next_offset = r.0 })

-- `Log::open`; its `create_dir_all` finds the directory that the `Disk` stands for.
unfoldable pub open_existing : Platform → LogConfig → Exec Disk Log
open_existing p config = do base_offsets ← discover_segment_offsets; open_at p config base_offsets
