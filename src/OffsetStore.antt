-- ===== src/OffsetStore.antt =====
-- crates/kafko/src/offset_store.rs: the committed offsets of one consumer group. The directory of
-- offset files is the dictionary `files` by name; the group's file and its temporary file are two
-- names in it.
pub mod Codec
pub mod Commit
pub mod Names
use kafko.Base.{
  ℕ, zero, suc, ◌+◌, ◌-◌, ◌*◌, Bytes, List, [], ◌∷◌, ◌++◌, Option, none, some, length, set, ◌^◌,
  replicate, ltb, leb, ◌==◌, if◌then◌else◌, Bool, true, false, not, ◌&&◌, ◌||◌, le32, le64, le32_at,
}
use kafko.Base.NameDict
use kafko.Base.NameDict.{same_name}
use kafko.Error.{
  Result, ok, err, panicked, invalid_group_name, ErrorKind, KafkoError, io, not_found,
}
use kafko.Exec.{Exec, ◌>>=◌, ◌>>◌, pure, lift, modify}
use kafko.Disk.{Fault, fail, first_fault, other_faults, written, write_result}
use kafko.Compression.{Platform}

-- `is_ascii_alphanumeric() || matches!(b, b'.' | b'_' | b'-')`
abbrev pub is_name_byte : ℕ → Bool
is_name_byte b =
    (leb b'a' b && leb b b'z')
    || ((leb b'A' b && leb b b'Z')
        || ((leb b'0' b && leb b b'9') || ((b == b'.') || ((b == b'_') || (b == b'-')))))

abbrev pub all_name_bytes : Bytes → Bool
all_name_bytes [] = true
all_name_bytes (b ∷ bs) = is_name_byte b && all_name_bytes bs

abbrev pub is_nil : Bytes → Bool
is_nil [] = true
is_nil (b ∷ bs) = false

unfoldable pub validate_group_name : Bytes → Result (Unit {0})
validate_group_name group =
    if is_nil group
      || (same_name group (b'.' ∷ [])
          || (same_name group (b'.' ∷ b'.' ∷ []) || not (all_name_bytes group)))
    then err (invalid_group_name group)
    else ok tt

-- The entries, numbered from `partition` on.
unfoldable pub entries_from : ℕ → List ℕ → Bytes
entries_from partition [] = []
entries_from partition (offset ∷ offsets) =
    le32 partition ++ (le64 offset ++ entries_from (partition + 1) offsets)

unfoldable pub encode : Platform → List ℕ → Bytes
encode p offsets =
    let body = le32 (length offsets) ++ entries_from 0 offsets in le32 (p.crc32 body) ++ body

abbrev entry_high : ℕ → ℕ → Option (ℕ × Bytes) → Option (ℕ × ℕ × Bytes)
entry_high partition lo none = none
entry_high partition lo (some (hi, rest)) = some (partition, hi * 2 ^ 32 + lo, rest)

abbrev entry_low : ℕ → Option (ℕ × Bytes) → Option (ℕ × ℕ × Bytes)
entry_low partition none = none
entry_low partition (some (lo, rest)) = entry_high partition lo (le32_at rest)

-- The 12 bytes from `base` on as a partition and an offset; `none` is a slice out of range.
abbrev pub entry_of : Option (ℕ × Bytes) → Option (ℕ × ℕ × Bytes)
entry_of none = none
entry_of (some (partition, rest)) = entry_low partition (le32_at rest)

-- The rounds of `for i in 0..count`; the slice starts at `4 + i * 12`.
unfoldable pub decode_entries : ℕ → ℕ → Bytes → List ℕ → Result (List ℕ)
decode_entries partition_count zero body result = ok result
decode_entries partition_count (suc left) body result = elim (entry_of (le32_at body)) [
  | none ↦ panicked
  | some (partition, offset, rest) ↦
      decode_entries partition_count left rest
        (if ltb partition partition_count then set result partition offset else result)
]

abbrev pub zeros : ℕ → List ℕ
zeros partition_count = replicate partition_count 0

unfoldable pub decode_body : ℕ → Bytes → Option (ℕ × Bytes) → Result (List ℕ)
decode_body partition_count body none = panicked
decode_body partition_count body (some (count, rest)) =
    if ltb (length body) (4 + count * 12)
    then ok (zeros partition_count)
    else decode_entries partition_count count rest (zeros partition_count)

unfoldable pub decode_framed : Platform → ℕ → Option (ℕ × Bytes) → Result (List ℕ)
decode_framed p partition_count none = panicked
decode_framed p partition_count (some (crc, body)) =
    if p.crc32 body == crc
    then decode_body partition_count body (le32_at body)
    else ok (zeros partition_count)

-- A result that is not `ok` is a slice out of range.
unfoldable pub decode : Platform → Bytes → ℕ → Result (List ℕ)
unfolding decode_framed decode_body
decode p bytes partition_count =
    if ltb (length bytes) 8
    then ok (zeros partition_count)
    else decode_framed p partition_count (le32_at bytes)

-- The directory of offset files and the outcomes of the next system calls.
pub record Files : Type 0 where
  pub files : List (Bytes × Bytes)
  pub faults : List Fault

-- `committed` and the names of the group's file and of its temporary file.
pub record OffsetStore : Type 0 where
  pub file_path : Bytes
  pub temp_path : Bytes
  pub group : Bytes
  pub committed : List ℕ

-- `TEMP_SUFFIX`
abbrev pub temp_suffix : Bytes
temp_suffix = b'.' ∷ b't' ∷ b'm' ∷ b'p' ∷ []

abbrev pub after_call : Files → Files
after_call d = record d { faults = other_faults d.faults }

-- A call that does all of `f` or nothing.
abbrev pub call : (Files → Files) → Exec Files (Unit {0})
call f d = elim (first_fault d.faults) [
  | fail k n ↦ (err (io k), after_call d)
  | _ ↦ (ok tt, f (after_call d))
]

-- `tokio::fs::read(&file_path)` as the offsets to start from.
abbrev loaded : Platform → ℕ → Option Bytes → Result (List ℕ)
loaded p n none = ok (zeros n)
loaded p n (some bytes) = decode p bytes n

abbrev read_committed : Platform → ℕ → Bytes → Exec Files (List ℕ)
read_committed p n name d = elim (first_fault d.faults) [
  | fail not_found k ↦ (ok (zeros n), after_call d)
  | fail kind k ↦ (err (io kind), after_call d)
  | _ ↦ (loaded p n (NameDict.lookup name d.files), after_call d)
]

-- `OffsetStore::open`; the directory is there.
unfoldable pub open_store : Platform → Bytes → ℕ → Exec Files OffsetStore
open_store p group partition_count = do
  lift (validate_group_name group)
  committed ← read_committed p partition_count group
  pure (record {
    file_path = group;
    temp_path = group ++ temp_suffix;
    group = group;
    committed = committed;
  })

-- `write_all` of a whole file, which may stop on the way.
unfoldable pub write_file : Bytes → Bytes → Exec Files (Unit {0})
write_file name bytes d =
    let f = first_fault d.faults in
    (
      write_result f,
      record d {
        files = NameDict.insert name (written f bytes) d.files;
        faults = other_faults d.faults;
      },
    )

abbrev pub renamed : Bytes → Bytes → Option Bytes → List (Bytes × Bytes) → List (Bytes × Bytes)
renamed from to none files = files
renamed from to (some c) files = NameDict.insert to c (NameDict.remove from files)

-- `rename`, which replaces what stood under the new name.
unfoldable pub rename_file : Bytes → Bytes → Exec Files (Unit {0})
rename_file from to =
    call (λ d. record d { files = renamed from to (NameDict.lookup from d.files) d.files })

-- The file system's part of `commit`: create, write and fsync the temporary file, then rename it.
unfoldable pub replace_file : Bytes → Bytes → Bytes → Exec Files (Unit {0})
unfolding write_file rename_file
replace_file temp_path file_path encoded = do
  call (λ d. record d { files = NameDict.insert temp_path [] d.files })
  write_file temp_path encoded
  call (λ d. d)
  rename_file temp_path file_path

abbrev pub State : Type 0
State = OffsetStore × Files

abbrev pub settled : OffsetStore → List ℕ → Result (Unit {0}) × Files → Result (Unit {0}) × State
settled s offsets (ok u, d) = (ok u, (record s { committed = offsets }, d))
settled s offsets (r, d) = (r, (s, d))

unfoldable pub commit : Platform → List ℕ → Exec State (Unit {0})
commit p offsets (s, d) =
    settled s offsets (replace_file s.temp_path s.file_path (encode p offsets) d)
