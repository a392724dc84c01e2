-- ===== src/Log/Tracks.antt =====
-- The active segment of log.rs on a disk that does not fail: a run of records written at once and
-- then told to the index one by one, as `append_batch` does.
use kafko.Base.{
  ℕ, ◌+◌, ◌^◌, ◌≤◌, ◌<◌, ◌≡◌, ◌≢◌, refl, sym, ap, ◌∙◌, Bytes, List, [], ◌∷◌, ◌++◌, some, length,
  arith, All, length-append, append_assoc, append-nil,
}
use kafko.Base.Dict
use kafko.Error.{ok}
use kafko.Disk.{calm}
use kafko.Compression.{Platform}
use kafko.SparseIndex.Track.{tracked_base, track_append-calm, tracked_file_other}
use kafko.Segment.Cursor.{grown}
use kafko.Segment.{Segment}
use kafko.Log.{IndexedSegment, track_all}
use kafko.Log.Scan.{offsets_from}
use kafko.Log.Content.{Stored, IsStored, content, records_of, IsSegment}
use kafko.Log.Active.{appended, appended_logs, appended_indexes, IsSegment-appended, content-snoc}
use kafko.Log.Append.{length-le-content}

abbrev pub sizes_of : List Stored → List ℕ
sizes_of [] = []
sizes_of (e ∷ es) = length e.bytes ∷ sizes_of es

-- The pair, and its files, after the records one by one.
abbrev pub appended_all : IndexedSegment → List Stored → List Stored → IndexedSegment
appended_all s es [] = s
appended_all s es (f ∷ fs) = appended_all (appended s es f) (es ++ (f ∷ [])) fs

abbrev pub logs_all :
    IndexedSegment → List Stored → List Stored → List (ℕ × Bytes) → List (ℕ × Bytes)
logs_all s es [] ls = ls
logs_all s es (f ∷ fs) ls = logs_all (appended s es f) (es ++ (f ∷ [])) fs (appended_logs s es f ls)

abbrev pub indexes_all :
    IndexedSegment → List Stored → List Stored → List (ℕ × Bytes) → List (ℕ × Bytes)
indexes_all s es [] xs = xs
indexes_all s es (f ∷ fs) xs =
    indexes_all (appended s es f) (es ++ (f ∷ [])) fs (appended_indexes s es xs)

-- Room for one more record within the 4 GiB that the index can address.
pub room_for :
    (p : Platform) (es : List Stored) (f : Stored) (fs : List Stored)
    → All (IsStored p) es
    → IsStored p f
    → length (content es) + length (content (f ∷ fs)) ≤ 2 ^ 32
    → (length es < 2 ^ 32)
      × (length (content es) < 2 ^ 32)
      × (length (content (es ++ (f ∷ []))) + length (content fs) ≤ 2 ^ 32)
room_for p es f fs a h b =
    let all : length (content es) + (length f.bytes + length (content fs)) ≤ 2 ^ 32 =
      omega (arith, length-append f.bytes (content fs)) in
    let low : length (content es) < 2 ^ 32 = omega (arith, h.room) in
    (
      omega (arith, length-le-content p es a),
      low,
      rw (content-snoc es f) (omega (arith, length-append (content es) f.bytes)),
    )

pub appended_all-IsSegment :
    (p : Platform) (fs : List Stored) (ls xs : List (ℕ × Bytes)) (base : ℕ) (s : IndexedSegment)
    (es : List Stored)
    → IsSegment p ls xs base s es
    → All (IsStored p) fs
    → length (content es) + length (content fs) ≤ 2 ^ 32
    → IsSegment p
        (logs_all s es fs ls)
        (indexes_all s es fs xs)
        base
        (appended_all s es fs)
        (es ++ fs)
appended_all-IsSegment p [] ls xs base s es i a b = rw (append-nil es) i
appended_all-IsSegment p (f ∷ fs) ls xs base s es i a b =
    let (n, l, r) = room_for p es f fs i.stored a.0 b in
    rw (← append_assoc es (f ∷ []) fs) (
      appended_all-IsSegment p fs (appended_logs s es f ls) (appended_indexes s es xs) base
        (appended s es f) (es ++ (f ∷ [])) (IsSegment-appended p ls xs base s es f i a.0 n l) a.1 r)

-- The index is told of the records.
pub track_all-calm :
    (p : Platform) (fs : List Stored) (ls xs l : List (ℕ × Bytes)) (base current pos : ℕ)
    (s : IndexedSegment) (es : List Stored)
    → IsSegment p ls xs base s es
    → All (IsStored p) fs
    → length (content es) + length (content fs) ≤ 2 ^ 32
    → current ≡ s.index.base_offset + length es
    → pos ≡ length (content es)
    → track_all (offsets_from current (records_of fs)) (sizes_of fs) pos (s.index, calm l xs)
      ≡ (ok tt, ((appended_all s es fs).index, calm l (indexes_all s es fs xs)))
unfolding track_all offsets_from
track_all-calm p [] ls xs l base current pos s es i a b c q = refl
track_all-calm p (f ∷ fs) ls xs l base current pos s es i a b c q =
    let (n, low, r) = room_for p es f fs i.stored a.0 b in
    rw
      (
        c,
        q,
        track_append-calm s.index l xs (length es) (length (content es)) (length f.bytes) i.file n
            low,
      )
      (track_all-calm p fs (appended_logs s es f ls) (appended_indexes s es xs) l base _ _
        (appended s es f) (es ++ (f ∷ [])) (IsSegment-appended p ls xs base s es f i a.0 n low) a.1
        r
        (omega (
          arith,
          length-append es (f ∷ []),
          tracked_base s.index (length es) (length (content es)) (length f.bytes),
        ))
        (omega (arith, ap length (content-snoc es f), length-append (content es) f.bytes)))

-- One write of all the bytes leaves the file and the segment as the writes one by one would.
pub logs_all_lem :
    (f : Stored) (fs : List Stored) (s : IndexedSegment) (es : List Stored) (ls : List (ℕ × Bytes))
    → logs_all s es (f ∷ fs) ls
      ≡ Dict.insert s.segment.base_offset (content es ++ content (f ∷ fs)) ls
logs_all_lem f [] s es ls =
    ap (λ c. Dict.insert s.segment.base_offset (content es ++ c) ls) (sym (append-nil f.bytes))
logs_all_lem f (g ∷ fs) s es ls =
    logs_all_lem g fs (appended s es f) (es ++ (f ∷ [])) (appended_logs s es f ls)
    ∙ Dict.insert-insert s.segment.base_offset _ _ ls
    ∙ ap (λ c. Dict.insert s.segment.base_offset c ls)
        (ap (λ c. c ++ content (g ∷ fs)) (content-snoc es f)
          ∙ append_assoc (content es) f.bytes (content (g ∷ fs)))

grown-grown : (s : Segment) (a b n : ℕ) → n ≡ a + b → grown (grown s a) b ≡ grown s n
grown-grown s a b n h =
    let e : s.size + a + b ≡ s.size + n = omega arith in
    ap (λ k. record s { position = k; size = k; cursor = some k }) e

pub appended_all_segment :
    (f : Stored) (fs : List Stored) (s : IndexedSegment) (es : List Stored)
    → (appended_all s es (f ∷ fs)).segment ≡ grown s.segment (length (content (f ∷ fs)))
appended_all_segment f [] s es = ap (λ c. grown s.segment (length c)) (sym (append-nil f.bytes))
appended_all_segment f (g ∷ fs) s es =
    appended_all_segment g fs (appended s es f) (es ++ (f ∷ []))
    ∙ grown-grown s.segment (length f.bytes) (length (content (g ∷ fs))) _
        (length-append f.bytes (content (g ∷ fs)))

-- The other index files stay.
pub indexes_all_other :
    (fs : List Stored) (s : IndexedSegment) (es : List Stored) (xs : List (ℕ × Bytes)) (k : ℕ)
    → s.index.base_offset ≢ k
    → Dict.lookup k (indexes_all s es fs xs) ≡ Dict.lookup k xs
indexes_all_other [] s es xs k ne = refl
indexes_all_other (f ∷ fs) s es xs k ne =
    indexes_all_other fs (appended s es f) (es ++ (f ∷ [])) (appended_indexes s es xs) k
      (λ e. ne (sym (tracked_base s.index _ _ _) ∙ e))
    ∙ tracked_file_other s.index xs _ _ k ne
