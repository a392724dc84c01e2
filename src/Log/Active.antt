-- ===== src/Log/Active.antt =====
-- The active segment of log.rs on a disk that does not fail: one more record in it.
use kafko.Base.{
  ℕ, zero, suc, ◌^◌, ◌≤◌, ◌<◌, ◌≡◌, refl, sym, ap, ◌∙◌, Bytes, List, [], ◌∷◌, ◌++◌, length, take,
  arith, All-map, All-snoc, length-append, append_assoc, append-nil,
}
use kafko.Base.Dict
use kafko.Error.{Result}
use kafko.Exec.{Exec}
use kafko.Disk.{Disk}
use kafko.Compression.{Platform}
use kafko.SparseIndex.{IndexEntry}
use kafko.SparseIndex.Track.{
  tracked, tracked_file, tracked-IsFile, tracked_entries, tracked_base, new_entry,
}
use kafko.Segment.Cursor.{grown, grown-Holds}
use kafko.Log.{IndexedSegment, Log, Pair, at_last, on_active}
use kafko.Log.Content.{Stored, IsStored, content, bytes_before, Marks, IsSegment}

pub at_last-snoc :
    {A : Type 0} (m : Exec Pair A) (init : List IndexedSegment) (s s' : IndexedSegment)
    (d d' : Disk) (r : Result A)
    → m (s, d) ≡ (r, (s', d'))
    → at_last m (init ++ (s ∷ []), d) ≡ (r, (init ++ (s' ∷ []), d'))
unfolding at_last
at_last-snoc m [] s s' d d' r e = rw e
at_last-snoc m (t ∷ []) s s' d d' r e = rw e
at_last-snoc m (t ∷ (u ∷ init)) s s' d d' r e = rw (at_last-snoc m (u ∷ init) s s' d d' r e)

pub on_active_lem :
    {A : Type 0} (m : Exec Pair A) (l : Log) (init : List IndexedSegment) (s s' : IndexedSegment)
    (d d' : Disk) (r : Result A)
    → l.segments ≡ init ++ (s ∷ [])
    → m (s, d) ≡ (r, (s', d'))
    → on_active m (l, d) ≡ (r, (record l { segments = init ++ (s' ∷ []) }, d'))
on_active_lem m l init s s' d d' r e h = rw (e, at_last-snoc m init s s' d d' r h)

pub content-append : (es fs : List Stored) → content (es ++ fs) ≡ content es ++ content fs
content-append [] fs = refl
content-append (e ∷ es) fs =
    rw (content-append es fs, append_assoc e.bytes (content es) (content fs))

pub content-snoc :
    (es : List Stored) (e : Stored) → content (es ++ (e ∷ [])) ≡ content es ++ e.bytes
content-snoc es e = content-append es (e ∷ []) ∙ ap (λ b. content es ++ b) (append-nil e.bytes)

bytes_before-append :
    (n : ℕ) (es fs : List Stored) → n ≤ length es → bytes_before n (es ++ fs) ≡ bytes_before n es
bytes_before-append zero es fs h = refl
bytes_before-append (suc n) [] fs h = absurd (omega arith)
bytes_before-append (suc n) (e ∷ es) fs h = omega (
  arith,
  length-append e.bytes (content (take n es)),
  length-append e.bytes (content (take n (es ++ fs))),
  bytes_before-append n es fs (omega arith),
)

pub bytes_before_all : (es : List Stored) → bytes_before (length es) es ≡ length (content es)
bytes_before_all [] = refl
bytes_before_all (e ∷ es) = omega (
  arith,
  length-append e.bytes (content (take (length es) es)),
  length-append e.bytes (content es),
  bytes_before_all es,
)

Marks-append : (es fs : List Stored) (e : IndexEntry) → Marks es e → Marks (es ++ fs) e
Marks-append es fs e m = (
  omega (arith, m.0, length-append es fs),
  m.1 ∙ sym (bytes_before-append e.relative_offset es fs (omega (arith, m.0))),
  m.2,
  m.3,
)

-- The pair after one more record.
abbrev pub appended : IndexedSegment → List Stored → Stored → IndexedSegment
appended s es e = record {
  segment = grown s.segment (length e.bytes);
  index = tracked s.index (length es) (length (content es)) (length e.bytes);
}

abbrev pub appended_logs :
    IndexedSegment → List Stored → Stored → List (ℕ × Bytes) → List (ℕ × Bytes)
appended_logs s es e ls = Dict.insert s.segment.base_offset (content es ++ e.bytes) ls

abbrev pub appended_indexes : IndexedSegment → List Stored → List (ℕ × Bytes) → List (ℕ × Bytes)
appended_indexes s es xs = tracked_file s.index (length es) (length (content es)) xs

pub IsSegment-appended :
    (p : Platform) (ls xs : List (ℕ × Bytes)) (base : ℕ) (s : IndexedSegment) (es : List Stored)
    (e : Stored)
    → IsSegment p ls xs base s es
    → IsStored p e
    → length es < 2 ^ 32
    → length (content es) < 2 ^ 32
    → IsSegment p
        (appended_logs s es e ls)
        (appended_indexes s es xs)
        base
        (appended s es e)
        (es ++ (e ∷ []))
IsSegment-appended p ls xs base s es e i h n b =
    let (up, marked) =
      tracked_entries (Marks (es ++ (e ∷ []))) s.index (length es) (length (content es))
        (length e.bytes) i.rises
        (All-map (Marks es) (λ f. f.relative_offset < length es) s.index.entries (λ f m. m.0)
          i.marks)
        (All-map (Marks es) (Marks (es ++ (e ∷ []))) s.index.entries
          (λ f m. Marks-append es (e ∷ []) f m) i.marks)
        new_mark in
    record {
      based = i.based;
      index_based = tracked_base s.index _ _ _ ∙ i.index_based;
      holds = rw (content-snoc es e) (grown-Holds s.segment ls (content es) e.bytes i.holds);
      file = tracked-IsFile s.index xs _ _ _ i.file;
      rises = up;
      marks = marked;
      stored = All-snoc (IsStored p) es e i.stored h;
    }
  where
    new_mark : Marks (es ++ (e ∷ [])) (new_entry (length es) (length (content es)))
    new_mark = (
      omega (arith, length-append es (e ∷ [])),
      sym (bytes_before-append (length es) es (e ∷ []) (omega arith) ∙ bytes_before_all es),
      n,
      b,
    )
