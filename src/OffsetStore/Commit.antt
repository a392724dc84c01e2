-- ===== src/OffsetStore/Commit.antt =====
-- The atomic write of offset_store.rs, under every outcome of its system calls.
use kafko.Base.{
  ℕ, ◌<◌, ◌≡◌, ◌≢◌, ◌⊎◌, inl, inr, refl, ap, ◌∙◌, Bytes, List, [], ◌++◌, Option, none, some, length,
  if◌then◌else◌, Bool, true, false, take, All, ◌^◌,
}
use kafko.Base.NameDict
use kafko.Base.NameDict.{same_name, same_name_refl, ne→same_name}
use kafko.Error.{ErrorKind, io, Result, ok, err, panicked, out_of_fuel}
use kafko.Disk.{Fault, pass, fail, short, first_fault, other_faults}
use kafko.Compression.{Platform, IsLawful}
use kafko.OffsetStore.Codec.{fitted, decode-encode}
use kafko.OffsetStore.{
  Files, OffsetStore, State, temp_suffix, encode, replace_file, commit, write_file, rename_file,
  call, after_call, renamed, settled, open_store, validate_group_name,
}

-- What a commit leaves under one name, by its result.
abbrev pub Left : Result (Unit {0}) → Option Bytes → Bytes → Option Bytes → Type 0
Left (ok u) now new old = now ≡ some new
Left (err e) now new old = now ≡ old
Left panicked now new old = ⊥
Left out_of_fuel now new old = ⊥

-- What it leaves in `committed`.
abbrev pub Settled : Result (Unit {0}) → List ℕ → List ℕ → List ℕ → Type 0
Settled (ok u) now new old = now ≡ new
Settled (err e) now new old = now ≡ old
Settled panicked now new old = ⊥
Settled out_of_fuel now new old = ⊥

call_cases :
    (f : Files → Files) (d : Files)
    → (call f d ≡ (ok tt, f (after_call d)))
      ⊎ ((k : ErrorKind) × (call f d ≡ (err (io k), after_call d)))
call_cases f d = split (first_fault d.faults) refl
  where
    split :
        (x : Fault)
        → first_fault d.faults ≡ x
        → (call f d ≡ (ok tt, f (after_call d)))
          ⊎ ((k : ErrorKind) × (call f d ≡ (err (io k), after_call d)))
    split pass e = inl (rw (e, call))
    split (fail k n) e = inr (k, rw (e, call))
    split (short n) e = inl (rw (e, call))

abbrev with_file : Bytes → Bytes → Files → Files
with_file name bytes d = record d {
  files = NameDict.insert name bytes d.files;
  faults = other_faults d.faults;
}

write_cases :
    (name bytes : Bytes) (d : Files)
    → (write_file name bytes d ≡ (ok tt, with_file name bytes d))
      ⊎ ((k : ErrorKind) × (c : Bytes) × (write_file name bytes d
            ≡ (err (io k), with_file name c d)))
unfolding write_file
write_cases name bytes d = split (first_fault d.faults) refl
  where
    split :
        (x : Fault)
        → first_fault d.faults ≡ x
        → (write_file name bytes d ≡ (ok tt, with_file name bytes d))
          ⊎ ((k : ErrorKind) × (c : Bytes) × (write_file name bytes d
                ≡ (err (io k), with_file name c d)))
    split pass e = inl (rw e)
    split (fail k n) e = inr (k, take n bytes, rw e)
    split (short n) e = inl (rw e)

lookup-with_file :
    (name other bytes : Bytes) (files : List (Bytes × Bytes))
    → name ≢ other
    → NameDict.lookup other (NameDict.insert name bytes files) ≡ NameDict.lookup other files
lookup-with_file name other bytes files h =
    rw (NameDict.lookup-insert name other bytes files, ne→same_name name other h)

module _ (t g bytes : Bytes) (d : Files) (h : t ≢ g) where
  abbrev created : Files
  created = record (after_call d) { files = NameDict.insert t [] d.files }

  abbrev full : Files
  full = with_file t bytes created

  abbrev rename : Files → Files
  rename c = record c { files = renamed t g (NameDict.lookup t c.files) c.files }

  unchanged : NameDict.lookup g full.files ≡ NameDict.lookup g d.files
  unchanged = lookup-with_file t g bytes created.files h ∙ lookup-with_file t g [] d.files h

  temp_there : NameDict.lookup t full.files ≡ some bytes
  temp_there = rw (NameDict.lookup-insert t t bytes created.files, same_name_refl t)

  -- After any failure the group's file is what it was; after a success it is the new one.
  replace_file_atomic :
      Left
        (replace_file t g bytes d).0
        (NameDict.lookup g (replace_file t g bytes d).1.files)
        bytes
        (NameDict.lookup g d.files)
  unfolding replace_file rename_file
  replace_file_atomic =
      elim (call_cases (λ c. record c { files = NameDict.insert t [] c.files }) d) [
        | inr (k, e) ↦ rw e refl
        | inl e ↦ rw e (elim (write_cases t bytes created) [
          | inr (k, c, e2) ↦ rw e2 (lookup-with_file t g c _ h ∙ lookup-with_file t g [] d.files h)
          | inl e2 ↦ rw e2 (elim (call_cases (λ c. c) full) [
            | inr (k, e3) ↦ rw e3 unchanged
            | inl e3 ↦ rw e3 (elim (call_cases rename (after_call full)) [
              | inr (k, e4) ↦ rw e4 unchanged
              | inl e4 ↦ rw (
                e4,
                temp_there,
                NameDict.lookup-insert g g bytes (NameDict.remove t full.files),
                same_name_refl g,
              )
            ])
          ])
        ])
      ]

-- A commit is all or nothing under every outcome of its system calls, provided that the temporary
-- file has another name: after an error the group's file and `committed` are what they were,
-- after a success both are the new offsets, and it does not panic.
pub commit_atomic :
    (p : Platform) (offsets : List ℕ) (s : OffsetStore) (d : Files)
    → s.temp_path ≢ s.file_path
    → let r : Result (Unit {0}) × State = commit p offsets (s, d) in
      Left r.0
        (NameDict.lookup s.file_path r.1.1.files)
        (encode p offsets)
        (NameDict.lookup s.file_path d.files)
      × Settled r.0 r.1.0.committed offsets s.committed
unfolding commit
commit_atomic p offsets s d h =
    let bytes : Bytes = encode p offsets in
    settle (replace_file s.temp_path s.file_path bytes d)
      (replace_file_atomic s.temp_path s.file_path bytes d h)
  where
    settle :
        (r : Result (Unit {0}) × Files)
        → Left r.0
            (NameDict.lookup s.file_path r.1.files)
            (encode p offsets)
            (NameDict.lookup s.file_path d.files)
        → Left
            (settled s offsets r).0
            (NameDict.lookup s.file_path (settled s offsets r).1.1.files)
            (encode p offsets)
            (NameDict.lookup s.file_path d.files)
          × Settled (settled s offsets r).0 (settled s offsets r).1.0.committed offsets s.committed
    settle (ok u, d') l = (l, refl)
    settle (err e, d') l = (l, refl)
    settle (panicked, d') l = absurd l
    settle (out_of_fuel, d') l = absurd l

-- The directory with the temporary file written.
abbrev replaced : Platform → List ℕ → OffsetStore → List (Bytes × Bytes) → List (Bytes × Bytes)
replaced p offsets s files =
    NameDict.insert s.temp_path (encode p offsets) (NameDict.insert s.temp_path [] files)

commit-calm :
    (p : Platform) (offsets : List ℕ) (s : OffsetStore) (files : List (Bytes × Bytes))
    → commit p offsets (s, record { files = files; faults = [] }) ≡ (
      ok tt,
      (
        record s { committed = offsets },
        record {
          files =
              NameDict.insert s.file_path
                (encode p offsets)
                (NameDict.remove s.temp_path (replaced p offsets s files));
          faults = [];
        },
      ),
    )
unfolding commit replace_file rename_file write_file
commit-calm p offsets s files = rw (
  NameDict.lookup-insert s.temp_path s.temp_path (encode p offsets)
      (NameDict.insert s.temp_path [] files),
  same_name_refl s.temp_path,
)

-- A commit whose calls all succeed, seen from every name of the directory: the group's own file
-- holds the offsets, the file under the temporary file's name is gone, which is the file of any
-- group of that name, and every other file is as it was.
pub lookup-commit :
    (p : Platform) (offsets : List ℕ) (s : OffsetStore) (files : List (Bytes × Bytes)) (k : Bytes)
    → let r : Result (Unit {0}) × State =
        commit p offsets (s, record { files = files; faults = [] }) in
      (r.0 ≡ ok tt)
      × (NameDict.lookup k r.1.1.files ≡ (
          if same_name s.file_path k
          then some (encode p offsets)
          else (if same_name s.temp_path k then none else NameDict.lookup k files)))
lookup-commit p offsets s files k =
    let t : Bytes = s.temp_path in
    let b : Bytes = encode p offsets in
    rw (commit-calm p offsets s files) (
      refl,
      rw
          (
            NameDict.lookup-insert s.file_path k b (NameDict.remove t (replaced p offsets s files)),
            NameDict.lookup-remove t k (replaced p offsets s files),
            NameDict.lookup-insert t k b (NameDict.insert t [] files),
            NameDict.lookup-insert t k [] files,
          )
          (ap (λ o. if same_name s.file_path k then some b else o)
            (hidden (same_name t k) (NameDict.lookup k files))),
    )
  where
    hidden :
        (c : Bool) (o : Option Bytes)
        → (if c then none else (if c then some (encode p offsets) else (if c then some [] else o)))
          ≡ (if c then none else o)
    hidden true o = refl
    hidden false o = refl

-- A consumer group resumes where it committed: after a commit whose calls all succeed, to the
-- file of a valid group name, `open` reads the offsets back, cut or filled with zeros to the
-- number of partitions. The platform is lawful, the offsets are below 2^64 and fewer than 2^32.
pub open_store-commit :
    (p : Platform) (offsets : List ℕ) (s : OffsetStore) (files : List (Bytes × Bytes)) (n : ℕ)
    → IsLawful p
    → All (λ o. o < 2 ^ 64) offsets
    → length offsets < 2 ^ 32
    → validate_group_name s.file_path ≡ ok tt
    → (open_store p s.file_path n
        (commit p offsets (s, record { files = files; faults = [] })).1.1).0
      ≡ ok (record {
        file_path = s.file_path;
        temp_path = s.file_path ++ temp_suffix;
        group = s.file_path;
        committed = fitted n offsets;
      })
unfolding open_store
open_store-commit p offsets s files n l a h v = rw (
  commit-calm p offsets s files,
  v,
  NameDict.lookup-insert s.file_path s.file_path (encode p offsets)
      (NameDict.remove s.temp_path (replaced p offsets s files)),
  same_name_refl s.file_path,
  decode-encode p offsets n l a h,
)
