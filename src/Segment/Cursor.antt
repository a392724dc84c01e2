-- ===== src/Segment/Cursor.antt =====
-- The cached cursor of segment.rs: where it agrees with the kernel's position, every operation
-- reads and writes at the place that it was asked for.
use kafko.Base.{
  ℕ, ◌+◌, ◌-◌, ◌≡◌, ◌≢◌, refl, ap, Bytes, List, [], ◌∷◌, ◌++◌, Option, none, some, length, take,
  drop, true, arith, take_all, drop_all, append-nil, Bool-cases, inl, inr, ==→eq, ==_refl, ne→==,
  length-append, append_assoc,
}
use kafko.Base.Dict.{lookup, insert, lookup-insert}
use kafko.Error.{Result, ok, err, io, ErrorKind}
use kafko.Disk.{fail, calm, write_at, log_contents}
use kafko.Segment.{Segment, State, append, read_at, cursor_at}

-- The cached cursor, if there is one, is the position of the handle.
abbrev pub Agrees : Option ℕ → ℕ → Type 0
Agrees none position = Unit {0}
Agrees (some c) position = c ≡ position

-- The segment's file is there with the contents `c`, and the fields describe it.
pub record Holds (s : Segment) (ls : List (ℕ × Bytes)) (c : Bytes) : Type 0 where
  pub file : lookup s.base_offset ls ≡ some c
  pub sized : s.size ≡ length c
  pub agrees : Agrees s.cursor s.position

write_at_end : (c bytes : Bytes) (n : ℕ) → n ≡ length c → write_at n bytes c ≡ c ++ bytes
write_at_end c bytes n h = rw (
  take_all n c (omega arith),
  let e : n - length c ≡ 0 = omega arith in e,
  drop_all (n + length bytes) c (omega arith),
  append-nil bytes,
)

abbrev pub grown : Segment → ℕ → Segment
grown s n = record s { position = s.size + n; size = s.size + n; cursor = some (s.size + n) }

cursor_at-Agrees : (o : Option ℕ) (n pos : ℕ) → Agrees o pos → cursor_at o n ≡ true → pos ≡ n
cursor_at-Agrees none n pos a e = cc
cursor_at-Agrees (some c) n pos a e = omega (arith, ==→eq c n e)

-- On a disk without failures, `append` to a segment whose fields and cached cursor agree with its
-- file writes at the end of the file, wherever the cursor stands, and returns where it wrote.
pub append-calm :
    (s : Segment) (ls xs : List (ℕ × Bytes)) (c bytes : Bytes)
    → Holds s ls c
    → append bytes (s, calm ls xs)
      ≡ (ok s.size, (grown s (length bytes), calm (insert s.base_offset (c ++ bytes) ls) xs))
unfolding append
append-calm s ls xs c bytes h = elim (Bool-cases (cursor_at s.cursor s.size)) [
  | inl e ↦ rw (
    e,
    h.file,
    cursor_at-Agrees s.cursor s.size s.position h.agrees e,
    write_at_end c bytes s.size h.sized,
  )
  | inr e ↦ rw (e, h.file, write_at_end c bytes s.size h.sized)
]

abbrev pub seeked : Segment → ℕ → Segment
seeked s n = record s { position = n; cursor = some n }

-- On a disk without failures, `read_at` of a segment whose fields and cached cursor agree with
-- its file reads from the place that it is asked for, wherever the cursor stands, up to the end
-- of the file.
pub read_at-calm :
    (s : Segment) (ls xs : List (ℕ × Bytes)) (c : Bytes) (pos n : ℕ)
    → Holds s ls c
    → read_at pos n (s, calm ls xs)
      ≡ (ok (take n (drop pos c)), (seeked s (pos + length (take n (drop pos c))), calm ls xs))
unfolding read_at
read_at-calm s ls xs c pos n h = elim (Bool-cases (cursor_at s.cursor pos)) [
  | inl e ↦ rw (e, h.file, cursor_at-Agrees s.cursor pos s.position h.agrees e)
  | inr e ↦ rw (e, h.file)
]

lookup-insert_self : (k : ℕ) (c : Bytes) (ls : List (ℕ × Bytes)) → lookup k (insert k c ls) ≡ some c
lookup-insert_self k c ls = rw (lookup-insert k k c ls, ==_refl k)

-- The segment after an append, on its grown file.
pub grown-Holds :
    (s : Segment) (ls : List (ℕ × Bytes)) (c bytes : Bytes)
    → Holds s ls c
    → Holds (grown s (length bytes)) (insert s.base_offset (c ++ bytes) ls) (c ++ bytes)
grown-Holds s ls c bytes h = record {
  file = lookup-insert_self s.base_offset (c ++ bytes) ls;
  sized = omega (arith, h.sized, length-append c bytes);
  agrees = refl;
}

pub seeked-Holds :
    (s : Segment) (ls : List (ℕ × Bytes)) (c : Bytes) (n : ℕ)
    → Holds s ls c
    → Holds (seeked s n) ls c
seeked-Holds s ls c n h = record { file = h.file; sized = h.sized; agrees = refl }

-- A segment goes on holding its file when another file is written.
pub Holds-insert :
    (s : Segment) (ls : List (ℕ × Bytes)) (c : Bytes) (k : ℕ) (other : Bytes)
    → k ≢ s.base_offset
    → Holds s ls c
    → Holds s (insert k other ls) c
Holds-insert s ls c k other ne h = record {
  file = rw (lookup-insert k s.base_offset other ls, ne→== k s.base_offset ne) h.file;
  sized = h.sized;
  agrees = h.agrees;
}

cursor_at_self : (o : Option ℕ) (n : ℕ) → o ≡ some n → cursor_at o n ≡ true
cursor_at_self none n e = cc
cursor_at_self (some c) n e = ground arith

-- An append whose cached cursor is the size, wherever the handle really stands.
append_stale :
    (s : Segment) (ls xs : List (ℕ × Bytes)) (c bytes : Bytes)
    → lookup s.base_offset ls ≡ some c
    → s.cursor ≡ some s.size
    → append bytes (s, calm ls xs) ≡ (
      ok s.size,
      (
        record s {
          position = s.position + length bytes;
          size = s.size + length bytes;
          cursor = some (s.size + length bytes);
        },
        calm (insert s.base_offset (write_at s.position bytes c) ls) xs,
      ),
    )
unfolding append
append_stale s ls xs c bytes file e = rw (cursor_at_self s.cursor s.size e, file)

failed_append :
    (s : Segment) (ls xs : List (ℕ × Bytes)) (c torn : Bytes) (k : ErrorKind) (n : ℕ)
    → Holds s ls c
    → s.cursor ≡ some s.size
    → append torn (s, record { logs = ls; indexes = xs; faults = fail k n ∷ [] }) ≡ (
      err (io k),
      (
        record s { position = s.size + length (take n torn) },
        calm (insert s.base_offset (c ++ take n torn) ls) xs,
      ),
    )
unfolding append
failed_append s ls xs c torn k n h e = rw (
  cursor_at_self s.cursor s.size e,
  h.file,
  cursor_at-Agrees s.cursor s.size s.position h.agrees (cursor_at_self s.cursor s.size e),
  write_at_end c (take n torn) s.size h.sized,
)

-- From a segment in order whose cached cursor is at the end, a write that fails after `n` bytes
-- moves the kernel's position and leaves the cached cursor where it was. The next append takes
-- the cursor at its word: it returns the end of the old contents as its position, and its bytes
-- stand behind what the failed write left.
pub append-append_failed :
    (s : Segment) (ls xs : List (ℕ × Bytes)) (c torn bytes : Bytes) (k : ErrorKind) (n : ℕ)
    → Holds s ls c
    → s.cursor ≡ some s.size
    → let first : Result ℕ × State =
        append torn (s, record { logs = ls; indexes = xs; faults = fail k n ∷ [] }) in
      (first.0 ≡ err (io k))
      × ((append bytes first.1).0 ≡ ok (length c))
      × (log_contents s.base_offset (append bytes first.1).1.1 ≡ c ++ (take n torn ++ bytes))
append-append_failed s ls xs c torn bytes k n h e =
    let t : Bytes = take n torn in
    let s1 : Segment = record s { position = s.size + length t } in
    let ls1 : List (ℕ × Bytes) = insert s.base_offset (c ++ t) ls in
    rw
      (
        failed_append s ls xs c torn k n h e,
        append_stale s1 ls1 xs (c ++ t) bytes (lookup-insert_self s.base_offset (c ++ t) ls) e,
        lookup-insert_self s.base_offset (write_at s1.position bytes (c ++ t)) ls1,
        write_at_end (c ++ t) bytes s1.position (omega (arith, h.sized, length-append c t)),
        append_assoc c t bytes,
      )
      (refl, ap ok h.sized, refl)
