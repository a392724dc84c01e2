-- ===== src/Log.antt =====
-- crates/kafko/src/log.rs: the log of one partition over its segments. `dir` is the directory that
-- the `Disk` stands for. The scratch buffers `encode_buf` and `actual_sizes` are cleared before
-- each use and are locals here.
pub mod Scan
pub mod Retention
pub mod Open
pub mod Content
pub mod Active
pub mod Rotate
pub mod Append
pub mod Read
pub mod Find
pub mod Create
pub mod Tracks
pub mod Batch
pub mod Recover
pub mod Recovered
pub mod Reopen
pub mod Retained
pub mod Expire
pub mod Enough
pub mod Returns
pub mod Rounds
pub mod Faults
pub mod Steps
pub mod Counts
pub mod RetentionCounts
pub mod RetentionRounds
use kafko.Base.{
  ℕ, zero, suc, ◌+◌, ◌-◌, ◌*◌, ◌^◌, Bytes, List, [], ◌∷◌, ◌++◌, Option, none, some, length,
  get_elem?, ltb, leb, ◌==◌, if◌then◌else◌, ◌&&◌, Bool, true, false, map,
}
use kafko.Error.{
  Compression, uncompressed, KafkoError, truncated, io, not_found, Result, ok, err, panicked,
  out_of_fuel,
}
use kafko.Exec.{Exec, ◌>>=◌, ◌>>◌, pure, lift, gets, modify, when, stored}
use kafko.Disk.{Disk, call, remove_log, remove_index}
use kafko.Search.{Found, found, insert_at, binary_search}
use kafko.Compression.{Platform}
use kafko.Record
use kafko.Record.{Record}
use Scan.{encode_all, offsets_from, read_loop, scan_loop}
use kafko.SparseIndex
use kafko.SparseIndex.{SparseIndex}
use kafko.Segment
use kafko.Segment.{Segment}

-- Durations are in milliseconds.
pub record LogConfig : Type 0 where
  pub segment_size_threshold : ℕ
  pub index_interval : ℕ
  pub max_segment_age : Option ℕ
  pub max_partition_bytes : Option ℕ
  pub retention_check_interval : ℕ
  pub batch_max_records : ℕ
  pub batch_max_bytes : ℕ
  pub compression : Compression

-- `LogConfig::default()`
abbrev pub default_config : LogConfig
default_config = record {
  segment_size_threshold = 2 ^ 30;
  index_interval = 4 * 1024;
  max_segment_age = none;
  max_partition_bytes = none;
  retention_check_interval = 60 * 1000;
  batch_max_records = 1024;
  batch_max_bytes = 64 * 1024;
  compression = uncompressed;
}

pub record IndexedSegment : Type 0 where
  pub segment : Segment
  pub index : SparseIndex

pub record Log : Type 0 where
  pub config : LogConfig
  pub segments : List IndexedSegment
  pub next_offset : ℕ

abbrev pub State : Type 0
State = Log × Disk

abbrev pub Pair : Type 0
Pair = IndexedSegment × Disk

-- An operation on the segment or on the index of a pair.
abbrev pub in_segment : {A : Type 0} → Exec Segment.State A → Exec Pair A
in_segment m (s, d) = stored (λ t. (record s { segment = t.0 }, t.1)) (m (s.segment, d))

abbrev pub in_index : {A : Type 0} → Exec SparseIndex.State A → Exec Pair A
in_index m (s, d) = stored (λ t. (record s { index = t.0 }, t.1)) (m (s.index, d))

abbrev at_head :
    {A : Type 0} → List IndexedSegment → Result A × Pair → Result A × (List IndexedSegment × Disk)
at_head rest (r, (s, d)) = (r, (s ∷ rest, d))

abbrev behind :
    {A : Type 0}
    → IndexedSegment
    → Result A × (List IndexedSegment × Disk)
    → Result A × (List IndexedSegment × Disk)
behind s (r, (ss, d)) = (r, (s ∷ ss, d))

-- An operation on `segments.last_mut().expect(…)`.
unfoldable pub at_last : {A : Type 0} → Exec Pair A → Exec (List IndexedSegment × Disk) A
at_last m ([], d) = (panicked, ([], d))
at_last m (s ∷ [], d) = at_head [] (m (s, d))
at_last m (s ∷ (t ∷ ss), d) = behind s (at_last m (t ∷ ss, d))

-- An operation on `segments[i]`.
unfoldable pub at_index : {A : Type 0} → ℕ → Exec Pair A → Exec (List IndexedSegment × Disk) A
at_index i m ([], d) = (panicked, ([], d))
at_index zero m (s ∷ ss, d) = at_head ss (m (s, d))
at_index (suc i) m (s ∷ ss, d) = behind s (at_index i m (ss, d))

abbrev pub on_segments : {A : Type 0} → Exec (List IndexedSegment × Disk) A → Exec State A
on_segments m (l, d) = stored (λ t. (record l { segments = t.0 }, t.1)) (m (l.segments, d))

abbrev pub on_active : {A : Type 0} → Exec Pair A → Exec State A
on_active m = on_segments (at_last m)

abbrev pub on_disk : {A : Type 0} → Exec Disk A → Exec State A
on_disk m (l, d) = stored (λ d'. (l, d')) (m d)

unfoldable pub create : LogConfig → Exec Disk Log
create config = do
  segment ← Segment.create 0
  index ← SparseIndex.create 0 config.index_interval
  pure (record {
    config = config;
    segments = record { segment = segment; index = index } ∷ [];
    next_offset = 0;
  })

unfoldable pub segment_count : Log → ℕ
segment_count l = length l.segments

abbrev pub sum_sizes : List IndexedSegment → ℕ
sum_sizes [] = 0
sum_sizes (s ∷ ss) = s.segment.size + sum_sizes ss

unfoldable pub total_size : Log → ℕ
total_size l = sum_sizes l.segments

-- `segment.sync()`, then `index.sync()`.
abbrev pub sync_pair : Exec Pair (Unit {0})
sync_pair = do in_segment Segment.sync; in_index SparseIndex.sync

unfoldable pub sync : Exec State (Unit {0})
sync = on_active sync_pair

unfoldable pub rotate_active_segment : Exec State (Unit {0})
rotate_active_segment = do
  on_active sync_pair
  base ← gets (λ s. s.0.next_offset)
  interval ← gets (λ s. s.0.config.index_interval)
  new_segment ← on_disk (Segment.create base)
  new_index ← on_disk (SparseIndex.create base interval)
  modify (λ s.
      let l : Log = s.0 in
      (
        record l {
          segments = l.segments ++ (record { segment = new_segment; index = new_index } ∷ []);
        },
        s.1,
      ))

abbrev pub rotate_for : ℕ → Exec State (Unit {0})
rotate_for additional = do
  threshold ← gets (λ s. s.0.config.segment_size_threshold)
  should_rotate ← on_active (gets (λ s. Segment.would_overflow s.0.segment additional threshold))
  when should_rotate rotate_active_segment

unfoldable pub append : Platform → Record → Exec State ℕ
unfolding rotate_active_segment
append p r = do
  compression ← gets (λ s. s.0.config.compression)
  rotate_for (Record.wire_size r)
  encoded ← lift (Record.encode_with p r [] compression)
  file_pos ← on_active (in_segment (Segment.append encoded.0))
  offset ← gets (λ s. s.0.next_offset)
  on_active (in_index (SparseIndex.track_append offset file_pos encoded.1))
  modify (λ s. let l : Log = s.0 in (record l { next_offset = l.next_offset + 1 }, s.1))
  pure offset

abbrev pub sum_wire : List Record → ℕ
sum_wire [] = 0
sum_wire (r ∷ rs) = Record.wire_size r + sum_wire rs

-- `for (i, &size) in self.actual_sizes.iter().enumerate()`
unfoldable pub track_all : List ℕ → List ℕ → ℕ → Exec SparseIndex.State (Unit {0})
track_all offsets [] file_pos = pure tt
track_all [] (size ∷ sizes) file_pos = lift panicked
track_all (offset ∷ offsets) (size ∷ sizes) file_pos = do
  SparseIndex.track_append offset file_pos size
  track_all offsets sizes (file_pos + size)

unfoldable pub append_some : Platform → List Record → Exec State (List ℕ)
append_some p records = do
  rotate_for (sum_wire records)
  compression ← gets (λ s. s.0.config.compression)
  next ← gets (λ s. s.0.next_offset)
  encoded ← lift (encode_all p compression [] records)
  file_pos ← on_active (in_segment (Segment.append encoded.0))
  on_active (in_index (track_all (offsets_from next records) encoded.1 file_pos))
  modify (λ s. (record (s.0) { next_offset = next + length records }, s.1))
  pure (offsets_from next records)

unfoldable pub append_batch : Platform → List Record → Exec State (List ℕ)
unfolding append_some
append_batch p [] = pure []
append_batch p (r ∷ rs) = append_some p (r ∷ rs)

abbrev pub to_index : Found → ℕ
to_index (found i) = i
to_index (insert_at zero) = 0
to_index (insert_at (suc i)) = i

unfoldable pub find_segment_index : List IndexedSegment → ℕ → ℕ
find_segment_index ss offset = to_index (binary_search (λ s. s.segment.base_offset) offset ss)

-- `read_record_at` on the pair that `find_segment_index` chose.
unfoldable pub read_in_segment : Platform → ℕ → Exec Pair (Option Record)
read_in_segment p offset (s, d) =
    (do
      (file_pos, starting_offset) ← lift (SparseIndex.lookup s.index offset)
      let remaining = s.segment.size - file_pos
      if remaining == 0 then pure none else do
        slice ← in_segment (Segment.read_at file_pos remaining)
        lift (read_loop p (length slice) slice starting_offset offset))
      (s, d)

unfoldable pub read_record_at : Platform → ℕ → Exec State (Option Record)
read_record_at p offset = do
  next ← gets (λ s. s.0.next_offset)
  segments ← gets (λ s. s.0.segments)
  if leb next offset
      then pure none
      else on_segments (at_index (find_segment_index segments offset) (read_in_segment p offset))
