-- ===== src/Log/Append.antt =====
-- `append` of log.rs on a disk that does not fail: rotation, the write and the index, together one
-- more record at the next offset.
use kafko.Base.{
  ℕ, suc, ◌+◌, ◌^◌, ◌≤◌, ◌<◌, ◌≡◌, refl, sym, ap, ◌∙◌, Bytes, List, [], ◌∷◌, ◌++◌, length, arith,
  All, length-append, append_assoc, true, ne→==,
}
use kafko.Base.Dict
use kafko.Error.{Compression, ok}
use kafko.Disk.{Disk, calm}
use kafko.Compression.{Platform, IsLawful, is_available, decompress_max_size, compress}
use kafko.Record
use kafko.Record.{Record}
use kafko.Record.Encode.{frame, frame_min}
use kafko.Record.RoundTrip.{Fits, decode-encode_with}
use kafko.SparseIndex
use kafko.SparseIndex.Track.{track_append-calm, tracked_file_other}
use kafko.Segment
use kafko.Segment.Cursor.{append-calm, grown}
use kafko.Log.{IndexedSegment, Log, State, on_active, in_segment, in_index, append}
use kafko.Log.Content.{
  Stored, IsStored, content, Part, segments_of, stored_of, records_of, IsFresh, IsLog, Represents,
  Sealed-SameBelow, SameBelow, Sealed-le,
}
use kafko.Log.Active.{on_active_lem, appended, appended_logs, appended_indexes, IsSegment-appended}
use kafko.Log.Rotate.{rotate_for-calm}

-- A segment of records of 25 bytes at least has no more records than bytes.
pub length-le-content :
    (p : Platform) (es : List Stored) → All (IsStored p) es → length es ≤ length (content es)
length-le-content p [] a = omega arith
length-le-content p (e ∷ es) a =
    omega (arith, length-append e.bytes (content es), length-le-content p es a.1, a.0.room)

module _ (p : Platform) (l : Log) (ls xs : List (ℕ × Bytes)) (base : ℕ) (zs : List Part) (top : ℕ)
    (z : Part) (e : Stored) (i : IsLog p ls xs l base zs top z) (h : IsStored p e)
    (n : length z.1 < 2 ^ 32) (b : length (content z.1) < 2 ^ 32) where
  abbrev s : IndexedSegment
  s = z.0

  abbrev written_pair : IndexedSegment
  written_pair = record s { segment = grown s.segment (length e.bytes) }

  -- The bytes go to the end of the active segment.
  write_active : on_active (in_segment (Segment.append e.bytes)) (l, calm ls xs) ≡ (
    ok s.segment.size,
    (
      record l { segments = segments_of zs ++ (written_pair ∷ []) },
      calm (appended_logs s z.1 e ls) xs,
    ),
  )
  write_active =
      on_active_lem _ l (segments_of zs) s written_pair (calm ls xs) _ _ i.segments
        (rw (append-calm s.segment ls xs (content z.1) e.bytes i.active.holds))

  abbrev after_write : Log
  after_write = record l { segments = segments_of zs ++ (written_pair ∷ []) }

  abbrev after_track : Log
  after_track = record l { segments = segments_of zs ++ (appended s z.1 e ∷ []) }

  -- The index is told of the record.
  track_active :
      on_active
        (in_index (SparseIndex.track_append l.next_offset s.segment.size (length e.bytes)))
        (after_write, calm (appended_logs s z.1 e ls) xs)
      ≡ (ok tt, (after_track, calm (appended_logs s z.1 e ls) (appended_indexes s z.1 xs)))
  track_active =
      on_active_lem _ after_write (segments_of zs) written_pair (appended s z.1 e) _ _ _ refl (
        rw (
          i.next ∙ ap (λ k. k + length z.1) (sym i.active.index_based),
          i.active.holds.sized,
          track_append-calm s.index (appended_logs s z.1 e ls) xs (length z.1)
              (length (content z.1)) (length e.bytes) i.active.file n b,
        ))

  abbrev appended_log : Log
  appended_log = record after_track { next_offset = l.next_offset + 1 }

  insert-SameBelow : SameBelow top ls (appended_logs s z.1 e ls)
  insert-SameBelow k lt = rw (
    Dict.lookup-insert s.segment.base_offset k (content z.1 ++ e.bytes) ls,
    ne→== s.segment.base_offset k (omega (arith, i.active.based)),
  )

  insert-IsFresh : IsFresh top (appended_logs s z.1 e ls)
  insert-IsFresh k lt =
      rw
        (
          Dict.lookup-insert s.segment.base_offset k (content z.1 ++ e.bytes) ls,
          ne→== s.segment.base_offset k (omega (arith, i.active.based)),
        )
        (i.fresh_logs k lt)

  appended-IsLog :
      IsLog p
        (appended_logs s z.1 e ls)
        (appended_indexes s z.1 xs)
        appended_log
        base
        zs
        top
        (appended s z.1 e, z.1 ++ (e ∷ []))
  appended-IsLog = record {
    segments = refl;
    sealed =
        Sealed-SameBelow p ls xs _ _ base zs top insert-SameBelow
          (λ k lt. tracked_file_other s.index xs _ _ k (omega (arith, i.active.index_based)))
          i.sealed;
    active = IsSegment-appended p ls xs top s z.1 e i.active h n b;
    next = omega (arith, i.next, length-append z.1 (e ∷ []));
    fresh_logs = insert-IsFresh;
    fresh_indexes = λ k lt.
        tracked_file_other s.index xs _ _ k (omega (arith, i.active.index_based))
        ∙ i.fresh_indexes k lt;
  }

pub records_of-append :
    (es fs : List Stored) → records_of (es ++ fs) ≡ records_of es ++ records_of fs
records_of-append [] fs = refl
records_of-append (e ∷ es) fs = rw (records_of-append es fs)

pub length-records_of : (es : List Stored) → length (records_of es) ≡ length es
length-records_of [] = refl
length-records_of (e ∷ es) = ap suc (length-records_of es)

-- The offset that comes next.
pub next_offset-Represents :
    (p : Platform) (l : Log) (d : Disk) (base : ℕ) (rs : List Record)
    → Represents p l d base rs
    → l.next_offset ≡ base + length rs
next_offset-Represents p l d base rs v = rw (← v.records) (
    omega (
      arith,
      v.is_log.next,
      Sealed-le p v.ls v.xs base v.zs v.top v.is_log.sealed,
      length-append (stored_of v.zs) (v.z).1,
      length-records_of (stored_of v.zs ++ (v.z).1),
    ))

-- A record of which the codec makes `v`, as it is stored.
abbrev pub stored_as : Platform → Record → Compression → Bytes → Stored
stored_as p r c v = record { rec = r; bytes = frame p r c v }

pub stored_as-IsStored :
    (p : Platform) (r : Record) (c : Compression) (v : Bytes)
    → IsLawful p
    → is_available p c ≡ true
    → length r.value ≤ decompress_max_size
    → compress p c r.value ≡ ok v
    → Fits r v
    → IsStored p (stored_as p r c v)
stored_as-IsStored p r c v w a m q f = record {
  decodes = λ rest. (decode-encode_with p r c v [] rest w a m q f).1;
  room = frame_min p r c v;
}

-- On a disk without failures, `append` puts the record behind the others and returns its offset,
-- whether it rotates or not, and leaves the configuration. The platform is lawful, the codec is
-- in the build and gives `v` for the value, the value is within the decompression cap, the frame
-- fits its length field and the timestamp 64 bits, and the segment threshold is below 4 GiB.
pub append-Represents :
    (p : Platform) (l : Log) (d : Disk) (base : ℕ) (rs : List Record) (r : Record) (v : Bytes)
    → IsLawful p
    → Represents p l d base rs
    → l.config.segment_size_threshold < 2 ^ 32
    → is_available p l.config.compression ≡ true
    → length r.value ≤ decompress_max_size
    → compress p l.config.compression r.value ≡ ok v
    → Fits r v
    → (s : State) × (append p r (l, d) ≡ (ok (base + length rs), s))
      × Represents p s.0 s.1 base (rs ++ (r ∷ []))
      × (s.0.config ≡ l.config)
unfolding append
append-Represents p l d base rs r v w rep t a m q f =
    let (l1, ls, xs, turn, rot) =
      rotate_for-calm p l rep.ls rep.xs base rep.zs rep.top rep.z (Record.wire_size r) rep.is_log in
    let e : Stored = stored_as p r l.config.compression v in
    let st : IsStored p e = stored_as-IsStored p r l.config.compression v w a m q f in
    let i : IsLog p ls xs l1 base rot.zs rot.top rot.z = rot.is_log in
    let b : length (content (rot.z).1) < 2 ^ 32 = ground (arith, rot.room) in
    let n : length (rot.z).1 < 2 ^ 32 =
      omega (arith, b, length-le-content p (rot.z).1 i.active.stored) in
    let encoded = (decode-encode_with p r l.config.compression v [] [] w a m q f).0 in
    let after : State = (
      appended_log p l1 ls xs base rot.zs rot.top rot.z e i st n b,
      calm (appended_logs (rot.z).0 (rot.z).1 e ls) (appended_indexes (rot.z).0 (rot.z).1 xs),
    ) in
    (
      after,
      rw
          (
            rep.disk,
            turn,
            encoded,
            write_active p l1 ls xs base rot.zs rot.top rot.z e i st n b,
            track_active p l1 ls xs base rot.zs rot.top rot.z e i st n b,
          )
          (ap (λ (k : ℕ). (ok k, after)) (rot.next ∙ next_offset-Represents p l d base rs rep)),
      record {
        ls = appended_logs (rot.z).0 (rot.z).1 e ls;
        xs = appended_indexes (rot.z).0 (rot.z).1 xs;
        zs = rot.zs;
        top = rot.top;
        z = (appended (rot.z).0 (rot.z).1 e, (rot.z).1 ++ (e ∷ []));
        disk = refl;
        is_log = appended-IsLog p l1 ls xs base rot.zs rot.top rot.z e i st n b;
        records =
            ap records_of (sym (append_assoc (stored_of rot.zs) (rot.z).1 (e ∷ [])))
            ∙ ap (λ es. records_of (es ++ (e ∷ []))) rot.same
            ∙ records_of-append (stored_of rep.zs ++ (rep.z).1) (e ∷ [])
            ∙ ap (λ us. us ++ (r ∷ [])) rep.records;
      },
      rot.config,
    )
