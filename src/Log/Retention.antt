-- ===== src/Log/Retention.antt =====
-- crates/kafko/src/log.rs: `apply_retention` and the deletion of the oldest segment. The clock and
-- the modification times of the files are arguments.
use kafko.Base.{
  ℕ, zero, suc, ◌+◌, ◌-◌, ◌%◌, ◌^◌, min, Bool, List, [], ◌∷◌, Option, none, some, ltb,
  if◌then◌else◌, ◌&&◌, true, false,
}
use kafko.Error.{io, not_found, Result, ok, err, panicked, out_of_fuel}
use kafko.Exec.{Exec, ◌>>=◌, ◌>>◌, pure, lift, modify}
use kafko.Disk.{Disk, call, remove_log, remove_index}
use kafko.Log.{IndexedSegment, State, on_disk, segment_count, total_size}

-- `Err(e) if e.kind() == NotFound => {}`
abbrev pub ignore_not_found : Result (Unit {0}) × Disk → Result (Unit {0}) × Disk
ignore_not_found (err (io not_found), d) = (ok tt, d)
ignore_not_found r = r

abbrev pub remove_index_if_there : ℕ → Exec Disk (Unit {0})
remove_index_if_there base d = ignore_not_found (remove_index base d)

-- `segments.remove(0)` comes first, so a failure to unlink leaves the segment out of the log.
unfoldable pub delete_head : List IndexedSegment → Exec State (Unit {0})
delete_head [] = lift panicked
delete_head (oldest ∷ rest) = do
  modify (λ s. (record (s.0) { segments = rest }, s.1))
  on_disk (remove_log oldest.segment.base_offset)
  on_disk (remove_index_if_there oldest.segment.base_offset)

unfoldable pub delete_oldest_segment : Exec State (Unit {0})
unfolding delete_head
delete_oldest_segment (l, d) = delete_head l.segments (l, d)

abbrev pub oldest_base : List IndexedSegment → ℕ
oldest_base [] = 0
oldest_base (s ∷ ss) = s.segment.base_offset

-- `mtime < now_ms.saturating_sub(max_age.as_millis() as i64)`. The conversion keeps the low 64 bits of
-- the age, so an age from `2 ^ 63` on becomes a negative one, and the cutoff is then after the clock,
-- at most the largest `i64`. Else it is written without the subtraction: the cutoff may be negative.
unfoldable pub is_expired : ℕ → ℕ → ℕ → Bool
is_expired modified now max_age =
    let max_age_ms = max_age % 2 ^ 64 in
    if ltb max_age_ms (2 ^ 63)
    then ltb (modified + max_age_ms) now
    else ltb modified (min (now + (2 ^ 64 - max_age_ms)) (2 ^ 63 - 1))

-- `while self.segments.len() > 1`, with the modification times of the files as `mtime`. Times are
-- milliseconds since the epoch.
unfoldable pub age_loop : (ℕ → ℕ) → ℕ → ℕ → ℕ → ℕ → Exec State ℕ
age_loop mtime now max_age zero deleted (l, d) = (out_of_fuel, (l, d))
age_loop mtime now max_age (suc fuel) deleted (l, d) = elim (ltb 1 (segment_count l)) [
  | true ↦
      (do
        modified ← on_disk (call (λ d'. (ok (mtime (oldest_base l.segments)), d')))
        if is_expired modified now max_age
            then (do delete_oldest_segment; age_loop mtime now max_age fuel (deleted + 1))
            else pure deleted)
        (l, d)
  | false ↦ (ok deleted, (l, d))
]

unfoldable pub bytes_loop : ℕ → ℕ → ℕ → Exec State ℕ
bytes_loop max_bytes zero deleted (l, d) = (out_of_fuel, (l, d))
bytes_loop max_bytes (suc fuel) deleted (l, d) =
    elim (ltb 1 (segment_count l) && ltb max_bytes (total_size l)) [
      | true ↦ (do delete_oldest_segment; bytes_loop max_bytes fuel (deleted + 1)) (l, d)
      | false ↦ (ok deleted, (l, d))
    ]

abbrev pub by_age : (ℕ → ℕ) → ℕ → Option ℕ → Exec State ℕ
by_age mtime now none (l, d) = (ok 0, (l, d))
by_age mtime now (some max_age) (l, d) = age_loop mtime now max_age (suc (segment_count l)) 0 (l, d)

abbrev pub by_bytes : Option ℕ → ℕ → Exec State ℕ
by_bytes none deleted (l, d) = (ok deleted, (l, d))
by_bytes (some max_bytes) deleted (l, d) =
    bytes_loop max_bytes (suc (segment_count l)) deleted (l, d)

-- Each round but the last drops a segment, so one more than the number of segments is fuel enough.
unfoldable pub apply_retention : (ℕ → ℕ) → ℕ → Exec State ℕ
apply_retention mtime now (l, d) =
    (do
      deleted ← by_age mtime now l.config.max_segment_age
      by_bytes l.config.max_partition_bytes deleted)
      (l, d)
