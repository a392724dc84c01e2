-- ===== src/Log/Batch.antt =====
-- `append_batch` of log.rs on a disk that does not fail: a batch of records behind the others with
-- one write.
use kafko.Base.{
  ℕ, ◌+◌, ◌^◌, ◌≤◌, ◌≡◌, ◌≢◌, refl, sym, ap, ◌∙◌, Bytes, List, [], ◌∷◌, ◌++◌, length, arith, All,
  length-append, append_assoc, append-nil, ne→==, true,
}
use kafko.Base.Dict
use kafko.Error.{Compression, ok}
use kafko.Disk.{Disk, calm}
use kafko.Compression.{Platform, IsLawful, is_available, decompress_max_size, compress}
use kafko.Record.{Record}
use kafko.Record.Encode.{frame}
use kafko.Record.RoundTrip.{Fits, decode-encode_with}
use kafko.Segment
use kafko.Segment.Cursor.{append-calm, grown}
use kafko.Log.{
  IndexedSegment, Log, State, on_active, in_segment, in_index, append_batch, append_some, sum_wire,
  track_all,
}
use kafko.Log.Scan.{encode_all, offsets_from}
use kafko.Log.Content.{
  Stored, IsStored, content, IsSegment, Part, segments_of, stored_of, records_of, IsLog, Represents,
  Sealed-SameBelow,
}
use kafko.Log.Active.{on_active_lem}
use kafko.Log.Rotate.{rotate_for-calm}
use kafko.Log.Append.{
  records_of-append, length-records_of, next_offset-Represents, stored_as, stored_as-IsStored,
}
use kafko.Log.Tracks.{
  sizes_of, appended_all, indexes_all, appended_all-IsSegment, track_all-calm, logs_all_lem,
  appended_all_segment, indexes_all_other,
}

-- A record with what the codec makes of its value, which the frame has room for.
pub record IsEncoded (p : Platform) (c : Compression) (b : Record × Bytes) : Type 0 where
  pub within : length b.0.value ≤ decompress_max_size
  pub coded : compress p c b.0.value ≡ ok b.1
  pub fits : Fits b.0 b.1

abbrev pub stored_batch : Platform → Compression → List (Record × Bytes) → List Stored
stored_batch p c [] = []
stored_batch p c (b ∷ bs) = stored_as p b.0 c b.1 ∷ stored_batch p c bs

abbrev pub batch_records : List (Record × Bytes) → List Record
batch_records [] = []
batch_records (b ∷ bs) = b.0 ∷ batch_records bs

records_of-stored_batch :
    (p : Platform) (c : Compression) (bs : List (Record × Bytes))
    → records_of (stored_batch p c bs) ≡ batch_records bs
records_of-stored_batch p c [] = refl
records_of-stored_batch p c (b ∷ bs) = rw (records_of-stored_batch p c bs)

stored_batch-IsStored :
    (p : Platform) (c : Compression) (bs : List (Record × Bytes))
    → IsLawful p
    → is_available p c ≡ true
    → All (IsEncoded p c) bs
    → All (IsStored p) (stored_batch p c bs)
stored_batch-IsStored p c [] w a e = tt
stored_batch-IsStored p c (b ∷ bs) w a e = (
  stored_as-IsStored p b.0 c b.1 w a e.0.within e.0.coded e.0.fits,
  stored_batch-IsStored p c bs w a e.1,
)

encode_all-stored_batch :
    (p : Platform) (c : Compression) (out : Bytes) (bs : List (Record × Bytes))
    → IsLawful p
    → is_available p c ≡ true
    → All (IsEncoded p c) bs
    → encode_all p c out (batch_records bs)
      ≡ ok (out ++ content (stored_batch p c bs), sizes_of (stored_batch p c bs))
unfolding encode_all
encode_all-stored_batch p c out [] w a e = rw (append-nil out)
encode_all-stored_batch p c out (b ∷ bs) w a e = rw (
  (decode-encode_with p b.0 c b.1 out [] w a e.0.within e.0.coded e.0.fits).0,
  encode_all-stored_batch p c (out ++ frame p b.0 c b.1) bs w a e.1,
  append_assoc out (frame p b.0 c b.1) (content (stored_batch p c bs)),
)

module _ (p : Platform) (l : Log) (ls xs : List (ℕ × Bytes)) (base : ℕ) (zs : List Part) (top : ℕ)
    (z : Part) (f : Stored) (fs : List Stored) (i : IsLog p ls xs l base zs top z)
    (h : All (IsStored p) (f ∷ fs))
    (room : length (content z.1) + length (content (f ∷ fs)) ≤ 2 ^ 32) (us : List Record)
    (same : records_of (f ∷ fs) ≡ us) where
  abbrev batch_logs : List (ℕ × Bytes)
  batch_logs = Dict.insert z.0.segment.base_offset (content z.1 ++ content (f ∷ fs)) ls

  abbrev batch_indexes : List (ℕ × Bytes)
  batch_indexes = indexes_all z.0 z.1 (f ∷ fs) xs

  abbrev written_pair : IndexedSegment
  written_pair = record (z.0) { segment = grown z.0.segment (length (content (f ∷ fs))) }

  abbrev after_write : Log
  after_write = record l { segments = segments_of zs ++ (written_pair ∷ []) }

  -- One write puts all the bytes at the end of the active segment.
  write_batch :
      on_active (in_segment (Segment.append (content (f ∷ fs)))) (l, calm ls xs)
      ≡ (ok z.0.segment.size, (after_write, calm batch_logs xs))
  write_batch =
      on_active_lem _ l (segments_of zs) z.0 written_pair (calm ls xs) _ _ i.segments
        (rw (append-calm z.0.segment ls xs (content z.1) (content (f ∷ fs)) i.active.holds))

  abbrev tracked_pair : IndexedSegment
  tracked_pair = record written_pair { index = (appended_all z.0 z.1 (f ∷ fs)).index }

  abbrev after_track : Log
  after_track = record l { segments = segments_of zs ++ (tracked_pair ∷ []) }

  track_batch :
      on_active
        (in_index (track_all (offsets_from l.next_offset us) (sizes_of (f ∷ fs)) z.0.segment.size))
        (after_write, calm batch_logs xs)
      ≡ (ok tt, (after_track, calm batch_logs batch_indexes))
  track_batch = on_active_lem _ after_write (segments_of zs) written_pair tracked_pair _ _ _ refl (
      rw (
        ← same,
        track_all-calm p (f ∷ fs) ls xs batch_logs top l.next_offset z.0.segment.size z.0 z.1
            i.active h room (i.next ∙ ap (λ k. k + length z.1) (sym i.active.index_based))
            i.active.holds.sized,
      ))

  same_pair : appended_all z.0 z.1 (f ∷ fs) ≡ tracked_pair
  same_pair =
      ap (λ s. record { segment = s; index = (appended_all z.0 z.1 (f ∷ fs)).index })
        (appended_all_segment f fs z.0 z.1)

  batch-IsSegment : IsSegment p batch_logs batch_indexes top tracked_pair (z.1 ++ (f ∷ fs))
  batch-IsSegment =
      rw (← logs_all_lem f fs z.0 z.1 ls, ← same_pair)
        (appended_all-IsSegment p (f ∷ fs) ls xs top z.0 z.1 i.active h room)

  batch_logs_other : (k : ℕ) → k ≢ top → Dict.lookup k batch_logs ≡ Dict.lookup k ls
  batch_logs_other k ne = rw (
    Dict.lookup-insert z.0.segment.base_offset k (content z.1 ++ content (f ∷ fs)) ls,
    ne→== z.0.segment.base_offset k (λ e. ne (sym e ∙ i.active.based)),
  )

  batch_indexes_other : (k : ℕ) → k ≢ top → Dict.lookup k batch_indexes ≡ Dict.lookup k xs
  batch_indexes_other k ne =
      indexes_all_other (f ∷ fs) z.0 z.1 xs k (λ e. ne (sym e ∙ i.active.index_based))

  abbrev batch_log : Log
  batch_log = record after_track { next_offset = l.next_offset + length us }

  batch-IsLog :
      IsLog p batch_logs batch_indexes batch_log base zs top (tracked_pair, z.1 ++ (f ∷ fs))
  batch-IsLog = record {
    segments = refl;
    sealed =
        Sealed-SameBelow p ls xs _ _ base zs top (λ k lt. batch_logs_other k (omega arith))
          (λ k lt. batch_indexes_other k (omega arith)) i.sealed;
    active = batch-IsSegment;
    next =
        omega
          (arith, i.next, length-append z.1 (f ∷ fs), length-records_of (f ∷ fs), ap length same);
    fresh_logs = λ k lt. batch_logs_other k (omega arith) ∙ i.fresh_logs k lt;
    fresh_indexes = λ k lt. batch_indexes_other k (omega arith) ∙ i.fresh_indexes k lt;
  }

-- On a disk without failures, `append_batch` puts the batch behind the other records in order and
-- returns their offsets, whether it rotates or not, and leaves the configuration. The platform is
-- lawful and the codec is in the build, each record's value is within the decompression cap and its
-- frame fits its length field, and the segment threshold and the encoded batch are together at most
-- 4 GiB.
pub append_batch-Represents :
    (p : Platform) (l : Log) (d : Disk) (base : ℕ) (rs : List Record) (bs : List (Record × Bytes))
    → IsLawful p
    → Represents p l d base rs
    → is_available p l.config.compression ≡ true
    → All (IsEncoded p l.config.compression) bs
    → l.config.segment_size_threshold + length (content (stored_batch p l.config.compression bs))
      ≤ 2 ^ 32
    → (s : State) × (append_batch p (batch_records bs) (l, d)
        ≡ (ok (offsets_from (base + length rs) (batch_records bs)), s))
      × Represents p s.0 s.1 base (rs ++ batch_records bs)
      × (s.0.config ≡ l.config)
unfolding append_batch append_some offsets_from
append_batch-Represents p l d base rs [] w rep a e t = ((l, d), refl, rw (append-nil rs) rep, refl)
append_batch-Represents p l d base rs (b ∷ bs) w rep a e t =
    let c : Compression = l.config.compression in
    let recs : List Record = batch_records (b ∷ bs) in
    let f : Stored = stored_as p b.0 c b.1 in
    let fs : List Stored = stored_batch p c bs in
    let (l1, ls, xs, turn, rot) =
      rotate_for-calm p l rep.ls rep.xs base rep.zs rep.top rep.z (sum_wire recs) rep.is_log in
    let i : IsLog p ls xs l1 base rot.zs rot.top rot.z = rot.is_log in
    let h : All (IsStored p) (f ∷ fs) = stored_batch-IsStored p c (b ∷ bs) w a e in
    let room : length (content (rot.z).1) + length (content (f ∷ fs)) ≤ 2 ^ 32 =
      ground (arith, rot.room, t) in
    let same : records_of (f ∷ fs) ≡ recs = records_of-stored_batch p c (b ∷ bs) in
    let encoded : encode_all p l1.config.compression [] recs
        ≡ ok (content (f ∷ fs), sizes_of (f ∷ fs)) =
      rw rot.config (encode_all-stored_batch p c [] (b ∷ bs) w a e) in
    let after : State = (
      batch_log p l1 ls xs base rot.zs rot.top rot.z f fs i h room recs same,
      calm (batch_logs p l1 ls xs base rot.zs rot.top rot.z f fs i h room recs same)
          (batch_indexes p l1 ls xs base rot.zs rot.top rot.z f fs i h room recs same),
    ) in
    (
      after,
      rw
          (
            rep.disk,
            turn,
            encoded,
            write_batch p l1 ls xs base rot.zs rot.top rot.z f fs i h room recs same,
            track_batch p l1 ls xs base rot.zs rot.top rot.z f fs i h room recs same,
          )
          (ap (λ (k : ℕ). (ok (offsets_from k recs), after))
            (rot.next ∙ next_offset-Represents p l d base rs rep)),
      record {
        ls = batch_logs p l1 ls xs base rot.zs rot.top rot.z f fs i h room recs same;
        xs = batch_indexes p l1 ls xs base rot.zs rot.top rot.z f fs i h room recs same;
        zs = rot.zs;
        top = rot.top;
        z = (
          tracked_pair p l1 ls xs base rot.zs rot.top rot.z f fs i h room recs same,
          (rot.z).1 ++ (f ∷ fs),
        );
        disk = refl;
        is_log = batch-IsLog p l1 ls xs base rot.zs rot.top rot.z f fs i h room recs same;
        records =
            ap records_of (sym (append_assoc (stored_of rot.zs) (rot.z).1 (f ∷ fs)))
            ∙ ap (λ es. records_of (es ++ (f ∷ fs))) rot.same
            ∙ records_of-append (stored_of rep.zs ++ (rep.z).1) (f ∷ fs)
            ∙ ap (λ us. us ++ records_of (f ∷ fs)) rep.records
            ∙ ap (λ us. rs ++ us) same;
      },
      rot.config,
    )
