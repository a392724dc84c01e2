-- ===== src/Disk.antt =====
-- The files of one partition directory and what the operating system answers: std::fs as
-- segment.rs, sparse_index.rs and log.rs use it. A `.log` file and its `.index` file are named by
-- the 20-digit base offset, so each kind is a dictionary by base offset; a directory holds no
-- other file with those extensions. A name is unlinked only when no handle on it is open.
use kafko.Base.{
  ℕ, ◌+◌, ◌-◌, min, Bytes, List, [], ◌∷◌, ◌++◌, Option, none, some, length, take, drop, replicate,
}
use kafko.Base.Dict.{lookup, insert, remove}
use kafko.Error.{ErrorKind, not_found, already_exists, io, Result, ok, err}
use kafko.Exec.{Exec}

-- The outcome of one system call. `fail k n` is an error; a failing write has put `n` bytes into
-- the file before it. `short n` is a read that stops after `n` bytes at most.
pub data Fault : Type 0 where
  pass : Fault
  fail : ErrorKind → ℕ → Fault
  short : ℕ → Fault

-- The outcomes of the next calls; past the end of the list all succeed.
pub record Disk : Type 0 where
  pub logs : List (ℕ × Bytes)
  pub indexes : List (ℕ × Bytes)
  pub faults : List Fault

abbrev pub first_fault : List Fault → Fault
first_fault [] = pass
first_fault (f ∷ fs) = f

abbrev pub other_faults : List Fault → List Fault
other_faults [] = []
other_faults (f ∷ fs) = fs

abbrev pub after_call : Disk → Disk
after_call d = record d { faults = other_faults d.faults }

abbrev pub all_or_nothing : {A : Type 0} → Fault → Exec Disk A → Exec Disk A
all_or_nothing (fail k n) m d = (err (io k), d)
all_or_nothing pass m d = m d
all_or_nothing (short n) m d = m d

-- One system call that does all of `m` or nothing.
abbrev pub call : {A : Type 0} → Exec Disk A → Exec Disk A
call m d = all_or_nothing (first_fault d.faults) m (after_call d)

abbrev pub or_nil : Option Bytes → Bytes
or_nil none = []
or_nil (some c) = c

abbrev pub log_contents : ℕ → Disk → Bytes
log_contents name d = or_nil (lookup name d.logs)

abbrev pub set_log : ℕ → Bytes → Disk → Disk
set_log name c d = record d { logs = insert name c d.logs }

abbrev pub index_contents : ℕ → Disk → Bytes
index_contents name d = or_nil (lookup name d.indexes)

abbrev pub set_index : ℕ → Bytes → Disk → Disk
set_index name c d = record d { indexes = insert name c d.indexes }

abbrev pub must_be_new : Option Bytes → Result (Unit {0})
must_be_new none = ok tt
must_be_new (some c) = err (io already_exists)

abbrev must_exist : Option Bytes → Result Bytes
must_exist none = err (io not_found)
must_exist (some c) = ok c

abbrev pub created : {A : Type 0} → Result A → (Disk → Disk) → Exec Disk A
created (ok a) f d = (ok a, f d)
created r f d = (r, d)

-- `create_new(true)`
unfoldable pub create_log : ℕ → Exec Disk (Unit {0})
create_log name = call (λ d. created (must_be_new (lookup name d.logs)) (set_log name []) d)

unfoldable pub create_index : ℕ → Exec Disk (Unit {0})
create_index name = call (λ d. created (must_be_new (lookup name d.indexes)) (set_index name []) d)

-- `metadata`, `read` and an `open` of a file that is there: the contents, or `NotFound`.
unfoldable pub find_log : ℕ → Exec Disk Bytes
find_log name = call (λ d. (must_exist (lookup name d.logs), d))

unfoldable pub find_index : ℕ → Exec Disk Bytes
find_index name = call (λ d. (must_exist (lookup name d.indexes), d))

-- `remove_file`
unfoldable pub remove_log : ℕ → Exec Disk (Unit {0})
remove_log name = call λ d.
    created (elim (lookup name d.logs) [ none ↦ err (io not_found) | some c ↦ ok tt ])
      (λ d'. record d' { logs = remove name d'.logs }) d

unfoldable pub remove_index : ℕ → Exec Disk (Unit {0})
remove_index name = call λ d.
    created (elim (lookup name d.indexes) [ none ↦ err (io not_found) | some c ↦ ok tt ])
      (λ d'. record d' { indexes = remove name d'.indexes }) d

-- `sync_data`: the page cache is what the program reads back, so nothing else changes.
unfoldable pub sync_data : Exec Disk (Unit {0})
sync_data = call (λ d. (ok tt, d))

-- A file after `bytes` were written at `pos`; a gap is filled with zeros.
abbrev pub write_at : ℕ → Bytes → Bytes → Bytes
write_at pos bytes c =
    take pos c ++ (replicate (pos - length c) 0 ++ (bytes ++ drop (pos + length bytes) c))

-- A file after `set_len(n)`.
abbrev pub resize : ℕ → Bytes → Bytes
resize n c = take n c ++ replicate (n - length c) 0

-- What `write_all` got into the file, and what it returned.
abbrev pub written : Fault → Bytes → Bytes
written (fail k n) bytes = take n bytes
written pass bytes = bytes
written (short n) bytes = bytes

abbrev pub write_result : Fault → Result (Unit {0})
write_result (fail k n) = err (io k)
write_result pass = ok tt
write_result (short n) = ok tt

-- What one `read` into a buffer of `n` bytes returns at position `pos`.
abbrev pub read_result : Fault → ℕ → ℕ → Bytes → Result Bytes
read_result (fail k m) n pos c = err (io k)
read_result pass n pos c = ok (take n (drop pos c))
read_result (short m) n pos c = ok (take (min m n) (drop pos c))

-- A disk on which every call succeeds.
abbrev pub calm : List (ℕ × Bytes) → List (ℕ × Bytes) → Disk
calm ls xs = record { logs = ls; indexes = xs; faults = [] }
