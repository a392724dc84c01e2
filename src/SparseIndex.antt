-- ===== src/SparseIndex.antt =====
-- crates/kafko/src/sparse_index.rs. The file's name and handle are the base offset: it is opened
-- for appending, so a write always goes to its end.
pub mod Lookup
pub mod Track
pub mod Spacing
use kafko.Base.{
  ℕ, zero, suc, ◌+◌, ◌-◌, ◌^◌, Bytes, List, [], ◌∷◌, ◌++◌, Option, none, some, length, get_elem?,
  ltb, leb, if◌then◌else◌, ◌||◌, Bool, true, false, be32, of_be32,
}
use kafko.Error.{Result, ok, err, panicked}
use kafko.Exec.{Exec, ◌>>=◌, ◌>>◌, pure, lift, modify, when, stored}
use kafko.Disk.{
  Disk, call, create_index, find_index, sync_data, index_contents, set_index, first_fault,
  after_call, written, write_result, Fault,
}
use kafko.Search.{Found, found, insert_at, binary_search}

pub record IndexEntry : Type 0 where
  pub relative_offset : ℕ
  pub file_position : ℕ

pub record SparseIndex : Type 0 where
  pub base_offset : ℕ
  pub entries : List IndexEntry
  pub bytes_since_last_entry : ℕ
  pub interval : ℕ

abbrev pub State : Type 0
State = SparseIndex × Disk

unfoldable pub create : ℕ → ℕ → Exec Disk SparseIndex
create base_offset interval = do
  create_index base_offset
  pure (record {
    base_offset = base_offset;
    entries = [];
    bytes_since_last_entry = 0;
    interval = interval;
  })

-- `chunks_exact(8)`: a shorter rest is dropped.
unfoldable pub parse_entries : Bytes → List IndexEntry
parse_entries (a ∷ b ∷ c ∷ d ∷ e ∷ f ∷ g ∷ h ∷ rest) =
    record { relative_offset = of_be32 a b c d; file_position = of_be32 e f g h }
    ∷ parse_entries rest
parse_entries _ = []

-- The file is read, and then opened for appending.
unfoldable pub open_existing : ℕ → ℕ → Exec Disk SparseIndex
open_existing base_offset interval = do
  bytes ← find_index base_offset
  _ ← find_index base_offset
  pure (record {
    base_offset = base_offset;
    entries = parse_entries bytes;
    bytes_since_last_entry = 0;
    interval = interval;
  })

abbrev pub is_empty : List IndexEntry → Bool
is_empty [] = true
is_empty (e ∷ es) = false

abbrev pub entry_bytes : IndexEntry → Bytes
entry_bytes e = be32 e.relative_offset ++ be32 e.file_position

-- `write_entry`: `write_all` on the index file.
unfoldable pub write_entry : IndexEntry → Exec State (Unit {0})
write_entry e (x, d) =
    let f = first_fault d.faults in
    let c = index_contents x.base_offset d in
    (write_result f, (x, set_index x.base_offset (c ++ written f (entry_bytes e)) (after_call d)))

-- `u32::try_from(n).expect(…)`
abbrev pub expect_u32 : ℕ → Result ℕ
expect_u32 n = if ltb n (2 ^ 32) then ok n else panicked

-- `absolute_offset - base_offset` below zero panics in a debug build, and wraps to a number that
-- the conversion to u32 refuses in a release build.
abbrev pub relative_to : ℕ → ℕ → Result ℕ
relative_to base absolute = if ltb absolute base then panicked else expect_u32 (absolute - base)

unfoldable pub push_entry : IndexEntry → SparseIndex → SparseIndex
push_entry e x = record x { entries = x.entries ++ (e ∷ []); bytes_since_last_entry = 0 }

unfoldable pub add_entry : ℕ → ℕ → Exec State (Unit {0})
add_entry absolute_offset file_position (x, d) =
    (do
      relative_offset ← lift (relative_to x.base_offset absolute_offset)
      position ← lift (expect_u32 file_position)
      let e : IndexEntry = record { relative_offset = relative_offset; file_position = position }
      write_entry e
      modify (λ s. (push_entry e s.0, s.1)))
      (x, d)

abbrev pub need_entry : SparseIndex → Bool
need_entry x = is_empty x.entries || leb x.interval x.bytes_since_last_entry

unfoldable pub track_append : ℕ → ℕ → ℕ → Exec State (Unit {0})
unfolding add_entry
track_append absolute_offset file_position record_size (x, d) =
    (do
      when (need_entry x) (add_entry absolute_offset file_position)
      modify (λ s.
          let y : SparseIndex = s.0 in
          (record y { bytes_since_last_entry = y.bytes_since_last_entry + record_size }, s.1)))
      (x, d)

-- `self.entries[i]`, as a file position and an absolute offset.
abbrev pub entry_at : SparseIndex → Option IndexEntry → Result (ℕ × ℕ)
entry_at x none = panicked
entry_at x (some e) = ok (e.file_position, x.base_offset + e.relative_offset)

-- An offset too far for a u32 is looked up as `u32::MAX`.
abbrev pub clamp_u32 : ℕ → ℕ
clamp_u32 n = if ltb n (2 ^ 32) then n else 2 ^ 32 - 1

abbrev pub closest : SparseIndex → Found → Result (ℕ × ℕ)
closest x (found i) = entry_at x (get_elem? x.entries i)
closest x (insert_at zero) = ok (0, x.base_offset)
closest x (insert_at (suc i)) = entry_at x (get_elem? x.entries i)

unfoldable pub lookup : SparseIndex → ℕ → Result (ℕ × ℕ)
lookup x absolute_offset =
    if ltb absolute_offset x.base_offset
    then ok (0, x.base_offset)
    else closest x (
        binary_search (λ e. e.relative_offset) (clamp_u32 (absolute_offset - x.base_offset))
          x.entries)

unfoldable pub sync : Exec State (Unit {0})
sync (x, d) = stored (λ d'. (x, d')) (sync_data d)
