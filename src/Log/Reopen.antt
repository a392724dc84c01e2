-- ===== src/Log/Reopen.antt =====
-- `Log::open` of log.rs on a disk that does not fail, after a crash that left a torn tail.
use kafko.Base.{
  ℕ, ◌+◌, ◌^◌, ◌≤◌, ◌<◌, ◌≡◌, ◌≢◌, inl, inr, refl, sym, ap, ◌∙◌, Bytes, List, [], ◌∷◌, ◌++◌, length,
  arith, All, All-map, map, some, ==_refl, ne→==, ◌==◌, Bool-cases, ==→eq,
}
use kafko.Base.Dict
use kafko.Error.{ok}
use kafko.Disk.{Disk, calm, find_index}
use kafko.Compression.{Platform}
use kafko.Record.{Record}
use kafko.Record.Encode.{frame}
use kafko.Record.RoundTrip.{Fits, decode_truncated}
use kafko.SparseIndex
use kafko.SparseIndex.{SparseIndex, IndexEntry}
use kafko.SparseIndex.Track.{parse_entries-all_bytes, all_bytes}
use kafko.Segment
use kafko.Error.{Compression}
use kafko.Log.{IndexedSegment, Log, LogConfig}
use kafko.Log.Open.{open_existing, open_segments, discover_segment_offsets, sort}
use kafko.Log.Content.{
  Stored, IsStored, content, records_of, Marks, IsSegment, Part, segments_of, stored_of, Sealed,
  Sealed-SameBelow, IsFresh, IsLog, Represents,
}
use kafko.Log.Recover.{IsTail, short}
use kafko.Log.Recovered.{Recovered, recovered, opened, open_segment-calm, opened-Holds}

abbrev pub bases_of : List Part → List ℕ
bases_of [] = []
bases_of (z ∷ zs) = z.0.segment.base_offset ∷ bases_of zs

-- A full segment as it is opened again.
abbrev reopened : ℕ → Part → Part
reopened interval z = (
  record {
    segment = opened z.0.segment.base_offset (length (content z.1));
    index = record {
      base_offset = z.0.segment.base_offset;
      entries = z.0.index.entries;
      bytes_since_last_entry = 0;
      interval = interval;
    };
  },
  z.1,
)

abbrev all_reopened : ℕ → List Part → List Part
all_reopened interval [] = []
all_reopened interval (z ∷ zs) = reopened interval z ∷ all_reopened interval zs

stored_of-all_reopened :
    (interval : ℕ) (zs : List Part) → stored_of (all_reopened interval zs) ≡ stored_of zs
stored_of-all_reopened interval [] = refl
stored_of-all_reopened interval (z ∷ zs) = rw (stored_of-all_reopened interval zs)

reopened-IsSegment :
    (p : Platform) (ls xs : List (ℕ × Bytes)) (base interval : ℕ) (z : Part)
    → IsSegment p ls xs base z.0 z.1
    → IsSegment p ls xs base (reopened interval z).0 z.1
reopened-IsSegment p ls xs base interval z i = record {
  based = i.based;
  index_based = i.based;
  holds = opened-Holds z.0.segment.base_offset ls (content z.1) i.holds.file;
  file = rw (i.based, ← i.index_based) i.file;
  rises = i.rises;
  marks = i.marks;
  stored = i.stored;
}

all_reopened-Sealed :
    (p : Platform) (ls xs : List (ℕ × Bytes)) (base interval : ℕ) (zs : List Part) (top : ℕ)
    → Sealed p ls xs base zs top
    → Sealed p ls xs base (all_reopened interval zs) top
all_reopened-Sealed p ls xs base interval [] top h = h
all_reopened-Sealed p ls xs base interval (z ∷ zs) top h = (
  reopened-IsSegment p ls xs base interval z h.0,
  h.1,
  all_reopened-Sealed p ls xs (base + length z.1) interval zs top h.2,
)

-- An index file is read back.
open_index-calm :
    (base interval : ℕ) (ls xs : List (ℕ × Bytes)) (es : List IndexEntry)
    → Dict.lookup base xs ≡ some (all_bytes es)
    → All (λ e. (e.relative_offset < 2 ^ 32) × (e.file_position < 2 ^ 32)) es
    → SparseIndex.open_existing base interval (calm ls xs) ≡ (
      ok (record {
        base_offset = base;
        entries = es;
        bytes_since_last_entry = 0;
        interval = interval;
      }),
      calm ls xs,
    )
unfolding SparseIndex.open_existing
open_index-calm base interval ls xs es f a =
    let g : find_index base (calm ls xs) ≡ (ok (all_bytes es), calm ls xs) =
      unfold find_index in rw f in
    rw (g, g, parse_entries-all_bytes es a)

open_pair :
    (p : Platform) (ls xs : List (ℕ × Bytes)) (base interval : ℕ) (z : Part)
    → IsSegment p ls xs base z.0 z.1
    → (Segment.open_existing z.0.segment.base_offset (calm ls xs)
        ≡ (ok ((reopened interval z).0.segment), calm ls xs))
      × (SparseIndex.open_existing z.0.segment.base_offset interval (calm ls xs)
          ≡ (ok ((reopened interval z).0.index), calm ls xs))
open_pair p ls xs base interval z i = (
  open_segment-calm z.0.segment.base_offset ls xs (content z.1) i.holds.file,
  open_index-calm z.0.segment.base_offset interval ls xs z.0.index.entries
      (rw (i.based, ← i.index_based) i.file)
      (All-map (Marks z.1) (λ e. (e.relative_offset < 2 ^ 32) × (e.file_position < 2 ^ 32))
        z.0.index.entries (λ e m. (m.2, m.3)) i.marks),
)

open_segments-Sealed :
    (p : Platform) (ls xs : List (ℕ × Bytes)) (base interval : ℕ) (zs : List Part) (top : ℕ)
    (es : List Stored) (r : Recovered p top interval ls xs es)
    → Sealed p ls xs base zs top
    → open_segments p interval (bases_of zs ++ (top ∷ [])) (calm ls xs) ≡ (
      ok (top + length es, segments_of (all_reopened interval zs) ++ (r.pair ∷ [])),
      calm r.logs r.indexes,
    )
unfolding open_segments
open_segments-Sealed p ls xs base interval [] top es r h = rw r.runs
open_segments-Sealed p ls xs base interval (z ∷ []) top es r h =
    let (a, b) = open_pair p ls xs base interval z h.0 in rw (a, b, r.runs)
open_segments-Sealed p ls xs base interval (z ∷ (w ∷ zs)) top es r h =
    let (a, b) = open_pair p ls xs base interval z h.0 in
    rw (a, b, open_segments-Sealed p ls xs (base + length z.1) interval (w ∷ zs) top es r h.2)

-- What a stopped writer leaves in the directory: full segments from `base` on with their indexes, and
-- an active segment at `top` with the records `es` and a tail behind them. The active index may hold
-- anything.
pub record IsCrashed (p : Platform) (ls xs : List (ℕ × Bytes)) (base : ℕ) (zs : List Part) (top : ℕ)
    (es : List Stored) (torn : Bytes) : Type 0 where
  pub files : sort (map (λ (f : ℕ × Bytes). f.0) ls) ≡ bases_of zs ++ (top ∷ [])
  pub sealed : Sealed p ls xs base zs top
  pub active : Dict.lookup top ls ≡ some (content es ++ torn)
  pub stored : All (IsStored p) es
  pub tail : IsTail p torn
  pub room : length (content es) ≤ 2 ^ 32
  pub fresh_logs : IsFresh top ls
  pub fresh_indexes : IsFresh top xs

open_listed :
    (p : Platform) (config : LogConfig) (ls xs : List (ℕ × Bytes)) (zs : List Part) (top n : ℕ)
    (ss : List IndexedSegment) (d : Disk)
    → sort (map (λ (f : ℕ × Bytes). f.0) ls) ≡ bases_of zs ++ (top ∷ [])
    → open_segments p config.index_interval (bases_of zs ++ (top ∷ [])) (calm ls xs)
      ≡ (ok (n, ss), d)
    → open_existing p config (calm ls xs)
      ≡ (ok (record { config = config; segments = ss; next_offset = n }), d)
unfolding open_existing discover_segment_offsets
open_listed p config ls xs [] top n ss d e h = rw (e, h)
open_listed p config ls xs (z ∷ zs) top n ss d e h = rw (e, h)

-- On a disk without failures, `open` recovers a directory that a crash left: the log that it returns
-- holds all the whole records in order, from the same first offset on, whatever the tail of the
-- active segment, if the decoder finds that cut short, of another checksum or of an impossible
-- length. The records of the active segment take at most 4 GiB.
pub open_existing-Represents :
    (p : Platform) (config : LogConfig) (ls xs : List (ℕ × Bytes)) (base : ℕ) (zs : List Part)
    (top : ℕ) (es : List Stored) (torn : Bytes)
    → IsCrashed p ls xs base zs top es torn
    → (l : Log) × (d : Disk) × (open_existing p config (calm ls xs) ≡ (ok l, d))
      × Represents p l d base (records_of (stored_of zs ++ es))
      × (l.config ≡ config)
open_existing-Represents p config ls xs base zs top es torn c =
    let interval : ℕ = config.index_interval in
    let r : Recovered p top interval ls xs es =
      recovered p top interval ls xs es torn c.active c.stored c.tail c.room in
    let segments : List IndexedSegment = segments_of (all_reopened interval zs) ++ (r.pair ∷ []) in
    let l : Log = record { config = config; segments = segments; next_offset = top + length es } in
    (
      l,
      calm r.logs r.indexes,
      open_listed p config ls xs zs top (top + length es) segments (calm r.logs r.indexes) c.files
          (open_segments-Sealed p ls xs base interval zs top es r c.sealed),
      record {
        ls = r.logs;
        xs = r.indexes;
        zs = all_reopened interval zs;
        top = top;
        z = (r.pair, es);
        disk = refl;
        is_log = record {
          segments = refl;
          sealed =
              Sealed-SameBelow p ls xs r.logs r.indexes base (all_reopened interval zs) top
                (λ k lt. r.same_logs k (omega arith)) (λ k lt. r.same_indexes k (omega arith))
                (all_reopened-Sealed p ls xs base interval zs top c.sealed);
          active = r.sound;
          next = refl;
          fresh_logs = λ k lt. r.same_logs k (omega arith) ∙ c.fresh_logs k lt;
          fresh_indexes = λ k lt. r.same_indexes k (omega arith) ∙ c.fresh_indexes k lt;
        };
        records = ap (λ fs. records_of (fs ++ es)) (stored_of-all_reopened interval zs);
      },
      refl,
    )

keys-insert :
    (k : ℕ) (c c' : Bytes) (m : List (ℕ × Bytes))
    → Dict.lookup k m ≡ some c
    → map (λ (f : ℕ × Bytes). f.0) (Dict.insert k c' m) ≡ map (λ (f : ℕ × Bytes). f.0) m
unfolding Dict.insert
keys-insert k c c' [] h = cc
keys-insert k c c' ((j, w) ∷ m) h = elim (Bool-cases (j == k)) [
  | inl e ↦ rw e (ap (λ (i : ℕ). i ∷ map (λ (f : ℕ × Bytes). f.0) m) (sym (==→eq j k e)))
  | inr e ↦ rw e (ap (λ is. j ∷ is) (keys-insert k c c' m (rw e at h)))
]

-- A crash in the middle of an append loses that record and no other: where the running log holds its
-- records in files that are all its own, and only a front part of one more frame has reached the
-- active file, `open` gives a log with the same records. The frame fits its length field and the
-- active segment takes at most 4 GiB.
pub open_existing-torn :
    (p : Platform) (config : LogConfig) (l : Log) (ls xs : List (ℕ × Bytes)) (base : ℕ)
    (zs : List Part) (top : ℕ) (z : Part) (r : Record) (c : Compression) (v front more : Bytes)
    → IsLog p ls xs l base zs top z
    → sort (map (λ (f : ℕ × Bytes). f.0) ls) ≡ bases_of zs ++ (top ∷ [])
    → length (content z.1) ≤ 2 ^ 32
    → Fits r v
    → frame p r c v ≡ front ++ more
    → 0 < length more
    → (l' : Log) × (d : Disk) × (open_existing p config
          (calm (Dict.insert top (content z.1 ++ front) ls) xs)
        ≡ (ok l', d))
      × Represents p l' d base (records_of (stored_of zs ++ z.1))
      × (l'.config ≡ config)
open_existing-torn p config l ls xs base zs top z r c v front more i files room f e h =
    let (k, t, _, _) = decode_truncated p r c v front more f e h in
    let file : Dict.lookup top ls ≡ some (content z.1) =
      rw (← i.active.based) i.active.holds.file in
    let other : (k : ℕ)
        → k ≢ top
        → Dict.lookup k (Dict.insert top (content z.1 ++ front) ls) ≡ Dict.lookup k ls =
      λ k ne.
        Dict.lookup-insert top k (content z.1 ++ front) ls ∙ rw (ne→== top k (λ q. ne (sym q))) in
    open_existing-Represents p config (Dict.insert top (content z.1 ++ front) ls) xs base zs top z.1
      front
      (record {
        files = rw (keys-insert top (content z.1) (content z.1 ++ front) ls file) files;
        sealed =
            Sealed-SameBelow p ls xs _ xs base zs top (λ k lt. other k (omega arith)) (λ k lt. refl)
              i.sealed;
        active = Dict.lookup-insert top top (content z.1 ++ front) ls ∙ rw (==_refl top);
        stored = i.active.stored;
        tail = short k t;
        room = room;
        fresh_logs = λ k lt. other k (omega arith) ∙ i.fresh_logs k lt;
        fresh_indexes = i.fresh_indexes;
      })
