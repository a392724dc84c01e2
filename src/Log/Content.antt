-- ===== src/Log/Content.antt =====
-- What a log holds: its records in order, the first at offset `base`. `Represents` ties the state of
-- log.rs and its files to that list.
use kafko.Base.{
  ℕ, ◌+◌, ◌^◌, ◌≤◌, ◌<◌, ◌≡◌, sym, Bytes, List, [], ◌∷◌, ◌++◌, none, length, take, arith, All,
  length-append,
}
use mathlib.Core.Path.{subst}
use kafko.Base.Dict
use kafko.Error.{ok}
use kafko.Disk.{Disk, calm}
use kafko.Compression.{Platform}
use kafko.Record.{Record, decode}
use kafko.SparseIndex.{IndexEntry}
use kafko.SparseIndex.Lookup.{Rises}
use kafko.SparseIndex.Track.{IsFile}
use kafko.Segment.Cursor.{Holds}
use kafko.Log.{IndexedSegment, Log}

-- A record with the bytes that stand for it in a segment.
pub record Stored : Type 0 where
  pub rec : Record
  pub bytes : Bytes

pub record IsStored (p : Platform) (e : Stored) : Type 0 where
  pub decodes : (rest : Bytes) → decode p (e.bytes ++ rest) ≡ ok (e.rec, rest)
  pub room : 25 ≤ length e.bytes

abbrev pub content : List Stored → Bytes
content [] = []
content (e ∷ es) = e.bytes ++ content es

abbrev pub records_of : List Stored → List Record
records_of [] = []
records_of (e ∷ es) = e.rec ∷ records_of es

abbrev pub bytes_before : ℕ → List Stored → ℕ
bytes_before n es = length (content (take n es))

-- An index entry points at a record of the segment.
abbrev pub Marks : List Stored → IndexEntry → Type 0
Marks es e =
    (e.relative_offset < length es)
    × (e.file_position ≡ bytes_before e.relative_offset es)
    × (e.relative_offset < 2 ^ 32)
    × (e.file_position < 2 ^ 32)

-- A segment that starts at `base`, its index and their files hold the records `es`.
pub record IsSegment (p : Platform) (ls xs : List (ℕ × Bytes)) (base : ℕ) (s : IndexedSegment)
    (es : List Stored) : Type 0 where
  pub based : s.segment.base_offset ≡ base
  pub index_based : s.index.base_offset ≡ base
  pub holds : Holds s.segment ls (content es)
  pub file : IsFile s.index xs
  pub rises : Rises 0 s.index.entries
  pub marks : All (Marks es) s.index.entries
  pub stored : All (IsStored p) es

abbrev pub Part : Type 0
Part = IndexedSegment × List Stored

abbrev pub segments_of : List Part → List IndexedSegment
segments_of [] = []
segments_of (z ∷ zs) = z.0 ∷ segments_of zs

abbrev pub stored_of : List Part → List Stored
stored_of [] = []
stored_of (z ∷ zs) = z.1 ++ stored_of zs

-- Full segments from the offset `base` up to `top`, none of them empty.
abbrev pub Sealed : Platform → List (ℕ × Bytes) → List (ℕ × Bytes) → ℕ → List Part → ℕ → Type 0
Sealed p ls xs base [] top = base ≡ top
Sealed p ls xs base (z ∷ zs) top =
    IsSegment p ls xs base z.0 z.1 × (0 < length z.1) × Sealed p ls xs (base + length z.1) zs top

-- No file has a base offset above `top`.
abbrev pub IsFresh : ℕ → List (ℕ × Bytes) → Type 0
IsFresh top m = (k : ℕ) → top < k → Dict.lookup k m ≡ none

pub record IsLog (p : Platform) (ls xs : List (ℕ × Bytes)) (l : Log) (base : ℕ) (zs : List Part)
    (top : ℕ) (z : Part) : Type 0 where
  pub segments : l.segments ≡ segments_of zs ++ (z.0 ∷ [])
  pub sealed : Sealed p ls xs base zs top
  pub active : IsSegment p ls xs top z.0 z.1
  pub next : l.next_offset ≡ top + length z.1
  pub fresh_logs : IsFresh top ls
  pub fresh_indexes : IsFresh top xs

pub record Represents (p : Platform) (l : Log) (d : Disk) (base : ℕ) (rs : List Record)
    : Type 0 where
  pub ls : List (ℕ × Bytes)
  pub xs : List (ℕ × Bytes)
  pub zs : List Part
  pub top : ℕ
  pub z : Part
  pub disk : d ≡ calm ls xs
  pub is_log : IsLog p ls xs l base zs top z
  pub records : records_of (stored_of zs ++ z.1) ≡ rs

-- Two dictionaries agree below `top`.
abbrev pub SameBelow : ℕ → List (ℕ × Bytes) → List (ℕ × Bytes) → Type 0
SameBelow top m m' = (k : ℕ) → k < top → Dict.lookup k m' ≡ Dict.lookup k m

IsSegment-SameBelow :
    (p : Platform) (ls xs ls' xs' : List (ℕ × Bytes)) (base top : ℕ) (s : IndexedSegment)
    (es : List Stored)
    → base < top
    → SameBelow top ls ls'
    → SameBelow top xs xs'
    → IsSegment p ls xs base s es
    → IsSegment p ls' xs' base s es
IsSegment-SameBelow p ls xs ls' xs' base top s es h a b i = record {
  based = i.based;
  index_based = i.index_based;
  holds = record {
    file = rw (a s.segment.base_offset (omega (arith, i.based))) i.holds.file;
    sized = i.holds.sized;
    agrees = i.holds.agrees;
  };
  file = rw (b s.index.base_offset (omega (arith, i.index_based))) i.file;
  rises = i.rises;
  marks = i.marks;
  stored = i.stored;
}

pub Sealed-le :
    (p : Platform) (ls xs : List (ℕ × Bytes)) (base : ℕ) (zs : List Part) (top : ℕ)
    → Sealed p ls xs base zs top
    → top ≡ base + length (stored_of zs)
Sealed-le p ls xs base [] top h = omega arith
Sealed-le p ls xs base (z ∷ zs) top h =
    omega
      (arith, Sealed-le p ls xs (base + length z.1) zs top h.2, length-append z.1 (stored_of zs))

-- Full segments stay as they are while files from `top` on change.
pub Sealed-SameBelow :
    (p : Platform) (ls xs ls' xs' : List (ℕ × Bytes)) (base : ℕ) (zs : List Part) (top : ℕ)
    → SameBelow top ls ls'
    → SameBelow top xs xs'
    → Sealed p ls xs base zs top
    → Sealed p ls' xs' base zs top
Sealed-SameBelow p ls xs ls' xs' base [] top a b h = h
Sealed-SameBelow p ls xs ls' xs' base (z ∷ zs) top a b h = (
  IsSegment-SameBelow p ls xs ls' xs' base top z.0 z.1
      (omega (arith, h.1, Sealed-le p ls xs (base + length z.1) zs top h.2)) a b h.0,
  h.1,
  Sealed-SameBelow p ls xs ls' xs' (base + length z.1) zs top a b h.2,
)

-- One more full segment.
pub Sealed-snoc :
    (p : Platform) (ls xs : List (ℕ × Bytes)) (base : ℕ) (zs : List Part) (top : ℕ) (z : Part)
    → Sealed p ls xs base zs top
    → IsSegment p ls xs top z.0 z.1
    → 0 < length z.1
    → Sealed p ls xs base (zs ++ (z ∷ [])) (top + length z.1)
Sealed-snoc p ls xs base [] top z h i n =
    (subst (λ b. IsSegment p ls xs b z.0 z.1) (sym h) i, n, omega arith)
Sealed-snoc p ls xs base (w ∷ zs) top z h i n =
    (h.0, h.1, Sealed-snoc p ls xs (base + length w.1) zs top z h.2 i n)
