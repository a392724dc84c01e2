-- ===== src/Log/Counts.antt =====
-- The next offset of log.rs, whatever the disk answers: an operation that fails leaves it, and an
-- append that succeeds moves it past what it answered.
use kafko.Base.{
  ℕ, ◌+◌, ◌≡◌, refl, ap, ◌∙◌, List, [], ◌∷◌, ◌++◌, length, arith, none, leb, Bool, true, false,
}
use kafko.Exec.{Exec, ◌>>◌, gets, modify, pure, when}
use kafko.Compression.{Platform}
use kafko.Record
use kafko.Segment
use kafko.SparseIndex
use kafko.Record.{Record}
use kafko.Log.{
  Log, State, IndexedSegment, at_last, sync_pair, in_segment, in_index, rotate_active_segment,
  rotate_for, append, append_batch, read_in_segment, at_index, find_segment_index, append_some,
  sum_wire, track_all, sync, read_record_at,
}
use kafko.Log.Scan.{offsets_from, encode_all}
use kafko.Topic.Numbers.{numbers_from}
use kafko.Log.Steps.{
  Steps, Keeps, bind-Steps, active-Steps, disk-Steps, lift-Steps, gets-Steps, on_segments-Keeps,
  either-Keeps, pure-Keeps,
}

module _ (l0 : Log) where
  put_segments-Keeps :
      (h : List IndexedSegment → List IndexedSegment)
      → Keeps l0 (modify (λ s. (record (s.0) { segments = h s.0.segments }, s.1)))
  put_segments-Keeps h = record { leads = λ l d same. same }

  rotate_active_segment-Keeps : Keeps l0 rotate_active_segment
  unfolding rotate_active_segment
  rotate_active_segment-Keeps = active-Steps l0 sync_pair _ _ (λ u.
      gets-Steps l0 (λ s. s.0.next_offset) _ _ (λ a. Unit) (λ l d same. tt)
        (λ base r.
          gets-Steps l0 (λ s. s.0.config.index_interval) _ _ (λ a. Unit) (λ l d same. tt)
            (λ interval r'. disk-Steps l0 (Segment.create base) _ _ (λ segment.
              disk-Steps l0 (SparseIndex.create base interval) _ _ (λ index.
                put_segments-Keeps
                  (λ ss. ss ++ (record { segment = segment; index = index } ∷ [])))))))

  when-Keeps : (b : Bool) (m : Exec State (Unit {0})) → Keeps l0 m → Keeps l0 (when b m)
  when-Keeps true m h = h
  when-Keeps false m h = record { leads = λ l d same. same }

  rotate_for-Keeps : (n : ℕ) → Keeps l0 (rotate_for n)
  rotate_for-Keeps n =
      gets-Steps l0 (λ s. s.0.config.segment_size_threshold) _ _ (λ a. Unit) (λ l d same. tt)
        (λ threshold r.
          active-Steps l0 (gets (λ s. Segment.would_overflow s.0.segment n threshold)) _ _
            (λ b. when-Keeps b rotate_active_segment rotate_active_segment-Keeps))

  pub sync-Keeps : Keeps l0 sync
  unfolding sync
  sync-Keeps = on_segments-Keeps l0 (at_last sync_pair)

-- The offsets of a batch are consecutive.
pub offsets_from-numbers :
    (next : ℕ) (rs : List Record) → offsets_from next rs ≡ numbers_from next (length rs)
unfolding offsets_from
offsets_from-numbers next [] = refl
offsets_from-numbers next (r ∷ rs) = ap (λ ns. next ∷ ns) (offsets_from-numbers (next + 1) rs)

module _ (p : Platform) (l0 : Log) where
  -- An append answers the next offset and moves it on by one.
  abbrev pub Counted : ℕ → Log → Type 0
  Counted offset l =
      (offset ≡ l0.next_offset) × (l.next_offset ≡ l0.next_offset + 1) × (l.config ≡ l0.config)

  -- A batch answers one offset for each record, from the next on, and moves it past them.
  abbrev pub CountedBatch : List Record → List ℕ → Log → Type 0
  CountedBatch rs offsets l =
      (offsets ≡ numbers_from l0.next_offset (length rs))
      × (l.next_offset ≡ l0.next_offset + length rs)
      × (l.config ≡ l0.config)

  one_past :
      (offset : ℕ)
      → offset ≡ l0.next_offset
      → Steps l0 Counted (do
        modify (λ s. let l : Log = s.0 in (record l { next_offset = l.next_offset + 1 }, s.1))
        pure offset)
  one_past offset e = record { leads = λ l d same. (e, ap (λ n. n + 1) same.0, same.1) }

  pub append-Counted : (r : Record) → Steps l0 Counted (append p r)
  unfolding append
  append-Counted r =
      gets-Steps l0 (λ s. s.0.config.compression) _ _ (λ a. Unit) (λ l d same. tt)
        (λ compression r'.
          bind-Steps l0 (rotate_for (Record.wire_size r)) _ _ (rotate_for-Keeps l0 _) (λ u.
            lift-Steps l0 (Record.encode_with p r [] compression) _ _ (λ encoded.
              active-Steps l0 (in_segment (Segment.append encoded.0)) _ _ (λ file_pos.
                gets-Steps l0 (λ s. s.0.next_offset) _ _ (λ a. a ≡ l0.next_offset)
                  (λ l d same. same.0)
                  (λ offset e.
                    active-Steps l0 (in_index (SparseIndex.track_append offset file_pos encoded.1))
                      _ _ (λ v. one_past offset e))))))

  batch_past :
      (next : ℕ) (rs : List Record)
      → next ≡ l0.next_offset
      → Steps l0 (CountedBatch rs) (do
        modify (λ s. (record (s.0) { next_offset = next + length rs }, s.1))
        pure (offsets_from next rs))
  batch_past next rs e = record {
    leads = λ l d same. (offsets_from-numbers next rs ∙ rw e, rw e, same.1);
  }

  append_some-CountedBatch : (rs : List Record) → Steps l0 (CountedBatch rs) (append_some p rs)
  unfolding append_some
  append_some-CountedBatch rs =
      bind-Steps l0 (rotate_for (sum_wire rs)) _ _ (rotate_for-Keeps l0 (sum_wire rs)) (λ u.
        gets-Steps l0 (λ s. s.0.config.compression) _ _ (λ a. Unit) (λ l d same. tt)
          (λ compression r'.
            gets-Steps l0 (λ s. s.0.next_offset) _ _ (λ a. a ≡ l0.next_offset) (λ l d same. same.0)
              (λ next e. lift-Steps l0 (encode_all p compression [] rs) _ _ (λ encoded.
                active-Steps l0 (in_segment (Segment.append encoded.0)) _ _ (λ file_pos.
                  active-Steps l0 (in_index (track_all (offsets_from next rs) encoded.1 file_pos)) _
                    _ (λ v. batch_past next rs e))))))

  pub append_batch-CountedBatch :
      (rs : List Record) → Steps l0 (CountedBatch rs) (append_batch p rs)
  unfolding append_batch offsets_from
  append_batch-CountedBatch [] = record {
    leads = λ l d same. (refl, omega (arith, same.0), same.1);
  }
  append_batch-CountedBatch (r ∷ rs) = append_some-CountedBatch (r ∷ rs)

  pub read_record_at-Keeps : (offset : ℕ) → Keeps l0 (read_record_at p offset)
  unfolding read_record_at
  read_record_at-Keeps offset =
      gets-Steps l0 (λ s. s.0.next_offset) _ _ (λ a. Unit) (λ l d same. tt)
        (λ next r.
          gets-Steps l0 (λ s. s.0.segments) _ _ (λ a. Unit) (λ l d same. tt)
            (λ segments r'. either-Keeps l0 (leb next offset) (pure none) _ (pure-Keeps l0 none) (
              on_segments-Keeps l0
                (at_index (find_segment_index segments offset) (read_in_segment p offset)))))
