-- ===== src/SparseIndex/Track.antt =====
-- `track_append` of sparse_index.rs on a disk that does not fail.
use kafko.Base.{
  ℕ, suc, ◌+◌, ◌-◌, ◌^◌, ◌≤◌, ◌<◌, ◌≡◌, ◌≢◌, inl, inr, refl, Bytes, List, [], ◌∷◌, ◌++◌, some,
  if◌then◌else◌, arith, All, Bool-cases, le→ltb, lt→ltb, append_assoc, append-nil, be32, ==_refl,
  ne→==, of_be32-bytes, All-snoc,
}
use kafko.Base.Dict
use kafko.Error.{ok}
use kafko.Disk.{calm}
use kafko.SparseIndex.{
  SparseIndex, IndexEntry, track_append, push_entry, need_entry, entry_bytes, write_entry,
  parse_entries,
}
use kafko.SparseIndex.Lookup.{Rises}

-- The index and its file after a call of `track_append` that has the relative offset `rel`.
abbrev pub new_entry : ℕ → ℕ → IndexEntry
new_entry rel pos = record { relative_offset = rel; file_position = pos }

unfoldable pub tracked : SparseIndex → ℕ → ℕ → ℕ → SparseIndex
unfolding push_entry
tracked x rel pos n =
    let y = if need_entry x then push_entry (new_entry rel pos) x else x in
    record y { bytes_since_last_entry = y.bytes_since_last_entry + n }

abbrev pub all_bytes : List IndexEntry → Bytes
all_bytes [] = []
all_bytes (e ∷ es) = entry_bytes e ++ all_bytes es

unfoldable pub tracked_file : SparseIndex → ℕ → ℕ → List (ℕ × Bytes) → List (ℕ × Bytes)
tracked_file x rel pos xs =
    if need_entry x
    then Dict.insert x.base_offset (all_bytes x.entries ++ entry_bytes (new_entry rel pos)) xs
    else xs

-- The index file holds the entries.
abbrev pub IsFile : SparseIndex → List (ℕ × Bytes) → Type 0
IsFile x xs = Dict.lookup x.base_offset xs ≡ some (all_bytes x.entries)

-- On a disk without failures, with the index file in step and the relative offset and the
-- position within 32 bits, `track_append` adds an entry to the list and the file when one is due,
-- counts the bytes, and does not panic.
pub track_append-calm :
    (x : SparseIndex) (ls xs : List (ℕ × Bytes)) (rel pos n : ℕ)
    → IsFile x xs
    → rel < 2 ^ 32
    → pos < 2 ^ 32
    → track_append (x.base_offset + rel) pos n (x, calm ls xs)
      ≡ (ok tt, (tracked x rel pos n, calm ls (tracked_file x rel pos xs)))
unfolding track_append write_entry tracked tracked_file push_entry
track_append-calm x ls xs rel pos n f hr hp = elim (Bool-cases (need_entry x)) [
  | inl e ↦ rw (
    e,
    le→ltb (x.base_offset + rel) x.base_offset (omega arith),
    let q : x.base_offset + rel - x.base_offset ≡ rel = omega arith in q,
    lt→ltb rel (2 ^ 32) hr,
    lt→ltb pos (2 ^ 32) hp,
    f,
  )
  | inr e ↦ rw e
]

-- The entries of an index file are read back as they were written, if their fields fit 32 bits.
pub parse_entries-all_bytes :
    (es : List IndexEntry)
    → All (λ e. (e.relative_offset < 2 ^ 32) × (e.file_position < 2 ^ 32)) es
    → parse_entries (all_bytes es) ≡ es
unfolding parse_entries be32
parse_entries-all_bytes [] a = refl
parse_entries-all_bytes (e ∷ es) a = rw (
  of_be32-bytes e.relative_offset (a.0).0,
  of_be32-bytes e.file_position (a.0).1,
  parse_entries-all_bytes es a.1,
)

all_bytes-append : (es fs : List IndexEntry) → all_bytes (es ++ fs) ≡ all_bytes es ++ all_bytes fs
all_bytes-append [] fs = refl
all_bytes-append (e ∷ es) fs =
    rw (all_bytes-append es fs, append_assoc (entry_bytes e) (all_bytes es) (all_bytes fs))

-- The index keeps its file in step.
pub tracked-IsFile :
    (x : SparseIndex) (xs : List (ℕ × Bytes)) (rel pos n : ℕ)
    → IsFile x xs
    → IsFile (tracked x rel pos n) (tracked_file x rel pos xs)
unfolding tracked tracked_file push_entry
tracked-IsFile x xs rel pos n f = elim (Bool-cases (need_entry x)) [
  | inl e ↦ rw (
    e,
    Dict.lookup-insert x.base_offset x.base_offset
        (all_bytes x.entries ++ entry_bytes (new_entry rel pos)) xs,
    ==_refl x.base_offset,
    all_bytes-append x.entries (new_entry rel pos ∷ []),
    append-nil (entry_bytes (new_entry rel pos)),
  )
  | inr e ↦ rw e f
]

-- It leaves the other index files alone.
pub tracked_file_other :
    (x : SparseIndex) (xs : List (ℕ × Bytes)) (rel pos k : ℕ)
    → x.base_offset ≢ k
    → Dict.lookup k (tracked_file x rel pos xs) ≡ Dict.lookup k xs
unfolding tracked_file
tracked_file_other x xs rel pos k ne = elim (Bool-cases (need_entry x)) [
  | inl e ↦ rw (
    e,
    Dict.lookup-insert x.base_offset k (all_bytes x.entries ++ entry_bytes (new_entry rel pos)) xs,
    ne→== x.base_offset k ne,
  )
  | inr e ↦ rw e
]

pub tracked_base :
    (x : SparseIndex) (rel pos n : ℕ) → (tracked x rel pos n).base_offset ≡ x.base_offset
unfolding tracked push_entry
tracked_base x rel pos n = ground arith

Rises-append :
    (low : ℕ) (es : List IndexEntry) (e : IndexEntry)
    → Rises low es
    → low ≤ e.relative_offset
    → All (λ f. f.relative_offset < e.relative_offset) es
    → Rises low (es ++ (e ∷ []))
Rises-append low [] e r h a = (h, tt)
Rises-append low (f ∷ es) e r h a = (r.0, Rises-append (suc f.relative_offset) es e r.1 a.0 a.1)

-- The entries go on rising, and what holds of each and of the new one holds of all.
pub tracked_entries :
    (P : IndexEntry → Type 0) (x : SparseIndex) (rel pos n : ℕ)
    → Rises 0 x.entries
    → All (λ f. f.relative_offset < rel) x.entries
    → All P x.entries
    → P (new_entry rel pos)
    → Rises 0 (tracked x rel pos n).entries × All P (tracked x rel pos n).entries
unfolding tracked push_entry
tracked_entries P x rel pos n r below a new = elim (Bool-cases (need_entry x)) [
  | inl e ↦ rw e (
    Rises-append 0 x.entries (new_entry rel pos) r (omega arith) below,
    All-snoc P x.entries _ a new,
  )
  | inr e ↦ rw e (r, a)
]
