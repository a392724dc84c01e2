-- ===== src/Segment.antt =====
-- crates/kafko/src/segment.rs. `position` is the kernel's position of the handle `file`, which
-- `cursor` caches. The path is the base offset.
pub mod Cursor
use kafko.Base.{
  ℕ, ◌+◌, ◌-◌, Bytes, List, [], ◌∷◌, ◌++◌, Option, none, some, length, ltb, ◌==◌, if◌then◌else◌,
  Bool, true, false, not,
}
use kafko.Error.{Result, ok, err, panicked}
use kafko.Exec.{Exec, ◌>>=◌, ◌>>◌, pure, gets, modify, when, stored}
use kafko.Disk.{
  Disk, Fault, call, create_log, find_log, sync_data, log_contents, set_log, first_fault,
  after_call, written, write_result, read_result, write_at, resize,
}

pub record Segment : Type 0 where
  pub base_offset : ℕ
  pub position : ℕ
  pub size : ℕ
  pub cursor : Option ℕ

abbrev pub State : Type 0
State = Segment × Disk

unfoldable pub create : ℕ → Exec Disk Segment
create base_offset = do
  create_log base_offset
  pure (record { base_offset = base_offset; position = 0; size = 0; cursor = some 0 })

-- `metadata`, then an open of the file.
unfoldable pub open_existing : ℕ → Exec Disk Segment
open_existing base_offset = do
  bytes ← find_log base_offset
  _ ← find_log base_offset
  pure (record { base_offset = base_offset; position = 0; size = length bytes; cursor = some 0 })

unfoldable pub would_overflow : Segment → ℕ → ℕ → Bool
would_overflow s additional threshold =
    if s.size == 0 then false else ltb threshold (s.size + additional)

abbrev pub at_position : ℕ → Segment → Result (Unit {0}) × Disk → Result (Unit {0}) × State
at_position pos s (ok u, d) = (ok u, (record s { position = pos }, d))
at_position pos s (r, d) = (r, (s, d))

-- `file.seek(SeekFrom::Start(pos))`
unfoldable pub seek : ℕ → Exec State (Unit {0})
seek pos (s, d) = at_position pos s (call (λ d'. (ok tt, d')) d)

-- `file.write_all(bytes)`: the kernel's position moves by what was written, also in a failure.
unfoldable pub write_all : Bytes → Exec State (Unit {0})
write_all bytes (s, d) =
    let f = first_fault d.faults in
    let done = written f bytes in
    (
      write_result f,
      (
        record s { position = s.position + length done },
        set_log s.base_offset (write_at s.position done (log_contents s.base_offset d))
            (after_call d),
      ),
    )

abbrev pub moved : Segment → Disk → Result Bytes → Result Bytes × State
moved s d (ok bytes) = (ok bytes, (record s { position = s.position + length bytes }, d))
moved s d r = (r, (s, d))

-- `file.read(into)`, with the bytes that were read.
unfoldable pub read : ℕ → Exec State Bytes
read n (s, d) =
    moved s (after_call d)
      (read_result (first_fault d.faults) n s.position (log_contents s.base_offset d))

abbrev pub on_segment : (Segment → Segment) → Exec State (Unit {0})
on_segment f = modify (λ s. (f s.0, s.1))

abbrev pub cursor_at : Option ℕ → ℕ → Bool
cursor_at none pos = false
cursor_at (some c) pos = c == pos

unfoldable pub ensure_cursor : ℕ → Exec State (Unit {0})
unfolding seek
ensure_cursor pos (s, d) =
    when (not (cursor_at s.cursor pos))
      (do seek pos; on_segment (λ x. record x { cursor = some pos })) (s, d)

unfoldable pub append : Bytes → Exec State ℕ
unfolding ensure_cursor write_all
append bytes = do
  file_pos ← gets (λ s. s.0.size)
  ensure_cursor file_pos
  write_all bytes
  on_segment
      (λ x. record x { size = file_pos + length bytes; cursor = some (file_pos + length bytes) })
  pure file_pos

-- The bytes that were read into a buffer of `n` bytes.
unfoldable pub read_at : ℕ → ℕ → Exec State Bytes
unfolding ensure_cursor read
read_at file_pos n = do
  ensure_cursor file_pos
  bytes ← read n
  on_segment (λ x. record x { cursor = some (file_pos + length bytes) })
  pure bytes

-- `file.set_len(n)`
unfoldable pub set_len : ℕ → Exec State (Unit {0})
set_len n (s, d) =
    stored (λ d'. (s, d'))
      (call (λ d'. (ok tt, set_log s.base_offset (resize n (log_contents s.base_offset d')) d')) d)

unfoldable pub sync : Exec State (Unit {0})
sync (s, d) = stored (λ d'. (s, d')) (sync_data d)

unfoldable pub truncate : ℕ → Exec State (Unit {0})
unfolding set_len sync
truncate new_size = do
  set_len new_size
  sync
  on_segment (λ x. record x { size = new_size; cursor = none })
