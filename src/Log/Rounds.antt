-- ===== src/Log/Rounds.antt =====
-- No operation of log.rs is short of rounds: the loops of the reader and of retention end within the
-- fuel that the model gives them.
use kafko.Base.{
  ℕ, zero, suc, ◌+◌, ◌-◌, ◌≤◌, Bytes, List, [], ◌∷◌, ◌++◌, Option, none, some, length, get_elem?,
  ◌==◌, ltb, leb, arith, Bool-cases, inl, inr,
}
use kafko.Error.{
  Compression, uncompressed, lz4, zstd, Result, ok, err, panicked, out_of_fuel, truncated,
}
use kafko.Exec.{Exec, ◌>>◌, pure, lift, gets, modify}
use kafko.Disk.{Disk}
use kafko.Compression.{Platform, compress}
use kafko.Record.{Record, encode_with, decode, wire_size}
use kafko.Record.Decode.{Decodes, decode-Decodes}
use kafko.Search.{Found, found, insert_at}
use kafko.Segment
use kafko.SparseIndex
use kafko.Log.{
  Log, State, IndexedSegment, Pair, on_active, on_segments, on_disk, in_segment, in_index, at_last,
  at_index, at_head, behind, sync_pair, track_all, rotate_active_segment, rotate_for, append,
  append_some, append_batch, sum_wire, sync, read_in_segment, read_record_at, find_segment_index,
}
use kafko.Log.Scan.{encode_all, read_loop, offsets_from}
use kafko.Log.Enough.{
  IsEnough, Enough, bind-Enough, pure-Enough, gets-Enough, lift-Enough, when-Enough, either-Enough,
}
use kafko.Log.Returns.{
  segment_create-Enough, index_create-Enough, segment_append-Enough, segment_read-Enough,
  in_segment-Enough, in_index-Enough, sync_pair-Enough, track_append-Enough, track_all-Enough,
}

module _ {A : Type 0} (m : Exec Pair A) (h : Enough m) where
  last-Enough : Enough (at_last m)
  unfolding at_last
  last-Enough = record { enough = λ s. by_list s.0 s.1 }
    where
      by_list : (ss : List IndexedSegment) (d : Disk) → IsEnough (at_last m (ss, d)).0
      by_list [] d = tt
      by_list (s ∷ []) d = h.enough (s, d)
      by_list (s ∷ (t ∷ ss)) d = by_list (t ∷ ss) d

  index-Enough : (i : ℕ) → Enough (at_index i m)
  unfolding at_index
  index-Enough i = record { enough = λ s. by_list i s.0 s.1 }
    where
      by_list : (i : ℕ) (ss : List IndexedSegment) (d : Disk) → IsEnough (at_index i m (ss, d)).0
      by_list i [] d = tt
      by_list zero (s ∷ ss) d = h.enough (s, d)
      by_list (suc i) (s ∷ ss) d = by_list i ss d

  active-Enough : Enough (on_active m)
  active-Enough = record { enough = λ s. last-Enough.enough (s.0.segments, s.1) }

on_segments-Enough :
    {A : Type 0} (m : Exec (List IndexedSegment × Disk) A) → Enough m → Enough (on_segments m)
on_segments-Enough m h = record { enough = λ s. h.enough (s.0.segments, s.1) }

pub on_disk-Enough : {A : Type 0} (m : Exec Disk A) → Enough m → Enough (on_disk m)
on_disk-Enough m h = record { enough = λ s. h.enough s.1 }

put_new-Enough :
    (x : IndexedSegment)
    → Enough {S = State}
        (modify (λ s. let l : Log = s.0 in (record l { segments = l.segments ++ (x ∷ []) }, s.1)))
put_new-Enough x = record { enough = λ s. tt }

rotate_active_segment-Enough : Enough rotate_active_segment
unfolding rotate_active_segment
rotate_active_segment-Enough =
    bind-Enough (on_active sync_pair) _ (active-Enough sync_pair sync_pair-Enough) (λ u.
      bind-Enough (gets (λ s. s.0.next_offset)) _ (gets-Enough _) (λ base.
        bind-Enough (gets (λ s. s.0.config.index_interval)) _ (gets-Enough _) (λ interval.
          bind-Enough (on_disk (Segment.create base)) _
            (on_disk-Enough _ (segment_create-Enough base))
            (λ segment.
              bind-Enough (on_disk (SparseIndex.create base interval)) _
                (on_disk-Enough _ (index_create-Enough base interval))
                (λ index. put_new-Enough (record { segment = segment; index = index }))))))

rotate_for-Enough : (n : ℕ) → Enough (rotate_for n)
rotate_for-Enough n =
    bind-Enough (gets (λ s. s.0.config.segment_size_threshold)) _ (gets-Enough _) (λ threshold.
      bind-Enough (on_active (gets (λ s. Segment.would_overflow s.0.segment n threshold))) _
        (active-Enough _ (gets-Enough _))
        (λ b. when-Enough b rotate_active_segment rotate_active_segment-Enough))

compress-IsEnough : (p : Platform) (c : Compression) (raw : Bytes) → IsEnough (compress p c raw)
unfolding compress kafko.Compression.lz4_compress kafko.Compression.zstd_compress
compress-IsEnough p uncompressed raw = tt
compress-IsEnough p lz4 raw = elim (Bool-cases p.has_lz4) [ inl e ↦ rw e tt | inr e ↦ rw e tt ]
compress-IsEnough p zstd raw = elim (Bool-cases p.has_zstd) [ inl e ↦ rw e tt | inr e ↦ rw e tt ]

result-IsEnough :
    {A B : Type 0} (x : Result A) (f : A → Result B)
    → IsEnough x
    → ((a : A) → IsEnough (f a))
    → IsEnough (kafko.Error.◌>>=◌ x f)
result-IsEnough (ok a) f h k = k a
result-IsEnough (err e) f h k = tt
result-IsEnough panicked f h k = tt
result-IsEnough out_of_fuel f h k = h

encode_with-IsEnough :
    (p : Platform) (r : Record) (out : Bytes) (c : Compression) → IsEnough (encode_with p r out c)
unfolding encode_with
encode_with-IsEnough p r out uncompressed = tt
encode_with-IsEnough p r out lz4 = result-IsEnough _ _ (compress-IsEnough p lz4 r.value) (λ a. tt)
encode_with-IsEnough p r out zstd = result-IsEnough _ _ (compress-IsEnough p zstd r.value) (λ a. tt)

encode_all-IsEnough :
    (p : Platform) (c : Compression) (out : Bytes) (rs : List Record)
    → IsEnough (encode_all p c out rs)
unfolding encode_all
encode_all-IsEnough p c out [] = tt
encode_all-IsEnough p c out (r ∷ rs) =
    result-IsEnough (encode_with p r out c) _ (encode_with-IsEnough p r out c)
      (λ a. result-IsEnough (encode_all p c a.0 rs) _ (encode_all-IsEnough p c a.0 rs) (λ b. tt))

-- A round of the reader takes a byte at least.
read_loop-IsEnough :
    (p : Platform) (fuel : ℕ) (buf : Bytes) (current offset : ℕ)
    → length buf ≤ fuel
    → IsEnough (read_loop p fuel buf current offset)
unfolding read_loop
read_loop-IsEnough p fuel [] current offset h = tt
read_loop-IsEnough p zero (b ∷ bs) current offset h = absurd (omega arith)
read_loop-IsEnough p (suc fuel) (b ∷ bs) current offset h =
    by_result (decode p (b ∷ bs)) (decode-Decodes p (b ∷ bs))
      (λ rest l. read_loop-IsEnough p fuel rest (current + 1) offset (omega (arith, l)))
  where
    by_result :
        (x : Result (Record × Bytes))
        → Decodes (b ∷ bs) x
        → ((rest : Bytes)
            → length rest + 25 ≤ length (b ∷ bs)
            → IsEnough (read_loop p fuel rest (current + 1) offset))
        → IsEnough (
            kafko.Log.Scan.read_next current offset x
              (λ rest. read_loop p fuel rest (current + 1) offset))
    by_result (ok (r, rest)) l k = elim (Bool-cases (current == offset)) [
      | inl e ↦ rw e tt
      | inr e ↦ rw e (k rest l)
    ]
    by_result (err (truncated n)) l k = tt
    by_result (err e) l k = tt
    by_result panicked l k = tt
    by_result out_of_fuel l k = l

entry_at-IsEnough :
    (x : SparseIndex.SparseIndex) (o : Option SparseIndex.IndexEntry)
    → IsEnough (SparseIndex.entry_at x o)
entry_at-IsEnough x none = tt
entry_at-IsEnough x (some e) = tt

closest-IsEnough : (x : SparseIndex.SparseIndex) (f : Found) → IsEnough (SparseIndex.closest x f)
closest-IsEnough x (found i) = entry_at-IsEnough x (get_elem? x.entries i)
closest-IsEnough x (insert_at zero) = tt
closest-IsEnough x (insert_at (suc i)) = entry_at-IsEnough x (get_elem? x.entries i)

lookup-IsEnough :
    (x : SparseIndex.SparseIndex) (offset : ℕ) → IsEnough (SparseIndex.lookup x offset)
unfolding SparseIndex.lookup
lookup-IsEnough x offset = elim (Bool-cases (ltb offset x.base_offset)) [
  | inl e ↦ rw e tt
  | inr e ↦ rw e (closest-IsEnough x _)
]

module _ (p : Platform) where
  read_in_segment-Enough : (offset : ℕ) → Enough (read_in_segment p offset)
  unfolding read_in_segment
  read_in_segment-Enough offset = record {
    enough = λ s.
        (bind-Enough (lift (SparseIndex.lookup s.0.index offset)) _
            (lift-Enough _ (lookup-IsEnough s.0.index offset))
            (λ at. either-Enough (s.0.segment.size - at.0 == 0) (pure none) _ (pure-Enough none) (
              bind-Enough (in_segment (Segment.read_at at.0 (s.0.segment.size - at.0))) _
                (in_segment-Enough _ (segment_read-Enough at.0 (s.0.segment.size - at.0)))
                (λ slice.
                  lift-Enough (read_loop p (length slice) slice at.1 offset)
                    (read_loop-IsEnough p (length slice) slice at.1 offset (omega arith)))))).enough
          s;
  }

  pub read_record_at-Enough : (offset : ℕ) → Enough (read_record_at p offset)
  unfolding read_record_at
  read_record_at-Enough offset =
      bind-Enough (gets (λ s. s.0.next_offset)) _ (gets-Enough _) (λ next.
        bind-Enough (gets (λ s. s.0.segments)) _ (gets-Enough _) (λ segments.
          either-Enough (leb next offset) (pure none) _ (pure-Enough none) (
            on_segments-Enough _ (
              index-Enough (read_in_segment p offset) (read_in_segment-Enough offset)
                (find_segment_index segments offset)))))

  pub append-Enough : (r : Record) → Enough (append p r)
  unfolding append
  append-Enough r =
      bind-Enough (gets (λ s. s.0.config.compression)) _ (gets-Enough _) (λ compression.
        bind-Enough (rotate_for (wire_size r)) _ (rotate_for-Enough _) (λ u.
          bind-Enough (lift (encode_with p r [] compression)) _
            (lift-Enough _ (encode_with-IsEnough p r [] compression))
            (λ encoded.
              bind-Enough (on_active (in_segment (Segment.append encoded.0))) _
                (active-Enough _ (in_segment-Enough _ (segment_append-Enough encoded.0)))
                (λ file_pos. bind-Enough (gets (λ s. s.0.next_offset)) _ (gets-Enough _) (λ offset.
                  bind-Enough
                    (on_active (in_index (SparseIndex.track_append offset file_pos encoded.1))) _
                    (active-Enough _
                      (in_index-Enough _ (track_append-Enough offset file_pos encoded.1)))
                    (λ v. counted offset))))))
    where
      counted :
          (offset : ℕ)
          → Enough {S = State} (do
            modify (λ s. let l : Log = s.0 in (record l { next_offset = l.next_offset + 1 }, s.1))
            pure offset)
      counted offset = record { enough = λ s. tt }

  append_some-Enough : (rs : List Record) → Enough (append_some p rs)
  unfolding append_some
  append_some-Enough rs = bind-Enough (rotate_for (sum_wire rs)) _ (rotate_for-Enough _) (λ u.
      bind-Enough (gets (λ s. s.0.config.compression)) _ (gets-Enough _) (λ compression.
        bind-Enough (gets (λ s. s.0.next_offset)) _ (gets-Enough _) (λ next.
          bind-Enough (lift (encode_all p compression [] rs)) _
            (lift-Enough _ (encode_all-IsEnough p compression [] rs))
            (λ encoded.
              bind-Enough (on_active (in_segment (Segment.append encoded.0))) _
                (active-Enough _ (in_segment-Enough _ (segment_append-Enough encoded.0)))
                (λ file_pos.
                  bind-Enough
                    (on_active (in_index (track_all (offsets_from next rs) encoded.1 file_pos))) _
                    (active-Enough _ (
                      in_index-Enough _
                        (track_all-Enough (offsets_from next rs) encoded.1 file_pos)))
                    (λ v. counted next))))))
    where
      counted :
          (next : ℕ)
          → Enough {S = State} (do
            modify (λ s. (record (s.0) { next_offset = next + length rs }, s.1))
            pure (offsets_from next rs))
      counted next = record { enough = λ s. tt }

  pub append_batch-Enough : (rs : List Record) → Enough (append_batch p rs)
  unfolding append_batch
  append_batch-Enough [] = record { enough = λ s. tt }
  append_batch-Enough (r ∷ rs) = append_some-Enough (r ∷ rs)

pub sync-Enough : Enough sync
unfolding sync
sync-Enough = active-Enough sync_pair sync_pair-Enough
