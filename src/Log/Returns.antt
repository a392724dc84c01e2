-- ===== src/Log/Returns.antt =====
-- The calls of log.rs on its active segment and its index: no loop that could be short of rounds.
use kafko.Base.{
  ℕ, ◌+◌, ◌-◌, ◌^◌, Bytes, List, [], ◌∷◌, some, length, ltb, not, Bool-cases, inl, inr,
}
use kafko.Error.{Result, ok, err, panicked, out_of_fuel}
use kafko.Exec.{Exec, ◌>>◌, pure, lift, gets, when}
use kafko.Disk.{
  Disk, Fault, pass, fail, short, call, create_log, create_index, sync_data, write_result,
  read_result, first_fault, after_call,
}
use kafko.Segment
use kafko.Segment.{Segment, seek, write_all, read, on_segment, ensure_cursor, cursor_at}
use kafko.SparseIndex
use kafko.SparseIndex.{
  SparseIndex, IndexEntry, add_entry, write_entry, track_append, relative_to, expect_u32,
  push_entry, need_entry, entry_at, closest,
}
use kafko.Log.{in_segment, in_index, sync_pair, track_all}
use kafko.Log.Enough.{
  IsEnough, Enough, bind-Enough, gets-Enough, lift-Enough, when-Enough, call-Enough,
  create_log-Enough, create_index-Enough, sync_data-Enough,
}

pub segment_create-Enough : (base : ℕ) → Enough (Segment.create base)
unfolding Segment.create
segment_create-Enough base =
    bind-Enough (create_log base) _ (create_log-Enough base) (λ u. record { enough = λ d. tt })

pub index_create-Enough : (base interval : ℕ) → Enough (SparseIndex.create base interval)
unfolding SparseIndex.create
index_create-Enough base interval =
    bind-Enough (create_index base) _ (create_index-Enough base) (λ u. record { enough = λ d. tt })

seek-Enough : (pos : ℕ) → Enough (seek pos)
unfolding seek
seek-Enough pos = record {
  enough = λ s.
      at_pos s.0 (call (λ d'. (ok tt, d')) s.1)
        ((call-Enough (λ d'. (ok tt, d')) (record { enough = λ d. tt })).enough s.1);
}
  where
    at_pos :
        (s : Segment) (x : Result (Unit {0}) × Disk)
        → IsEnough x.0
        → IsEnough (Segment.at_position pos s x).0
    at_pos s (ok u, d) h = tt
    at_pos s (err e, d) h = tt
    at_pos s (panicked, d) h = tt
    at_pos s (out_of_fuel, d) h = h

ensure_cursor-Enough : (pos : ℕ) → Enough (ensure_cursor pos)
unfolding ensure_cursor
ensure_cursor-Enough pos = record {
  enough = λ s.
      (when-Enough (not (cursor_at s.0.cursor pos))
          (do seek pos; on_segment (λ x. record x { cursor = some pos }))
          (bind-Enough (seek pos) _ (seek-Enough pos) (λ u. record { enough = λ s'. tt }))).enough
        s;
}

write_result-IsEnough : (f : Fault) → IsEnough (write_result f)
write_result-IsEnough pass = tt
write_result-IsEnough (fail k n) = tt
write_result-IsEnough (short n) = tt

write_all-Enough : (bytes : Bytes) → Enough (write_all bytes)
unfolding write_all
write_all-Enough bytes = record { enough = λ s. write_result-IsEnough (first_fault s.1.faults) }

pub segment_append-Enough : (bytes : Bytes) → Enough (Segment.append bytes)
unfolding Segment.append
segment_append-Enough bytes = bind-Enough (gets (λ s. s.0.size)) _ (gets-Enough _) (λ file_pos.
    bind-Enough (ensure_cursor file_pos) _ (ensure_cursor-Enough file_pos)
      (λ u. bind-Enough (write_all bytes) _ (write_all-Enough bytes) (λ v. appended file_pos)))
  where
    appended :
        (file_pos : ℕ)
        → Enough (do
          on_segment (λ x. record x {
            size = file_pos + length bytes;
            cursor = some (file_pos + length bytes);
          })
          pure file_pos)
    appended file_pos = record { enough = λ s. tt }

read-Enough : (n : ℕ) → Enough (read n)
unfolding read
read-Enough n = record { enough = λ s. by_fault s (first_fault s.1.faults) }
  where
    by_fault :
        (s : Segment.State) (f : Fault)
        → IsEnough
            (Segment.moved s.0
              (after_call s.1)
              (read_result f n s.0.position (kafko.Disk.log_contents s.0.base_offset s.1))).0
    by_fault s pass = tt
    by_fault s (fail k m) = tt
    by_fault s (short m) = tt

pub segment_read-Enough : (file_pos n : ℕ) → Enough (Segment.read_at file_pos n)
unfolding Segment.read_at
segment_read-Enough file_pos n =
    bind-Enough (ensure_cursor file_pos) _ (ensure_cursor-Enough file_pos)
      (λ u. bind-Enough (read n) _ (read-Enough n) (λ bytes. done bytes))
  where
    done :
        (bytes : Bytes)
        → Enough
            (do on_segment (λ x. record x { cursor = some (file_pos + length bytes) }); pure bytes)
    done bytes = record { enough = λ s. tt }

pub in_segment-Enough : {A : Type 0} (m : Exec Segment.State A) → Enough m → Enough (in_segment m)
in_segment-Enough m h = record { enough = λ s. h.enough (s.0.segment, s.1) }

pub in_index-Enough : {A : Type 0} (m : Exec SparseIndex.State A) → Enough m → Enough (in_index m)
in_index-Enough m h = record { enough = λ s. h.enough (s.0.index, s.1) }

pub sync_pair-Enough : Enough sync_pair
unfolding Segment.sync SparseIndex.sync
sync_pair-Enough =
    bind-Enough (in_segment Segment.sync) _
      (in_segment-Enough Segment.sync (record { enough = λ s. sync_data-Enough.enough s.1 }))
      (λ u. in_index-Enough SparseIndex.sync (record { enough = λ s. sync_data-Enough.enough s.1 }))

u32-IsEnough : (n : ℕ) → IsEnough (expect_u32 n)
u32-IsEnough n = elim (Bool-cases (ltb n (2 ^ 32))) [ inl e ↦ rw e tt | inr e ↦ rw e tt ]

relative-IsEnough : (base absolute : ℕ) → IsEnough (relative_to base absolute)
relative-IsEnough base absolute = elim (Bool-cases (ltb absolute base)) [
  | inl e ↦ rw e tt
  | inr e ↦ rw e (u32-IsEnough (absolute - base))
]

write_entry-Enough : (e : IndexEntry) → Enough (write_entry e)
unfolding write_entry
write_entry-Enough e = record { enough = λ s. write_result-IsEnough (first_fault s.1.faults) }

add_entry-Enough : (absolute file_pos : ℕ) → Enough (add_entry absolute file_pos)
unfolding add_entry
add_entry-Enough absolute file_pos = record {
  enough = λ s.
      (bind-Enough (lift (relative_to s.0.base_offset absolute)) _
          (lift-Enough _ (relative-IsEnough s.0.base_offset absolute))
          (λ relative.
            bind-Enough (lift (expect_u32 file_pos)) _ (lift-Enough _ (u32-IsEnough file_pos))
              (λ position.
                bind-Enough
                  (write_entry (record { relative_offset = relative; file_position = position })) _
                  (write_entry-Enough _) (λ u. record { enough = λ s'. tt })))).enough
        s;
}

pub track_append-Enough :
    (absolute file_pos size : ℕ) → Enough (track_append absolute file_pos size)
unfolding track_append
track_append-Enough absolute file_pos size = record {
  enough = λ s.
      (bind-Enough (when (need_entry s.0) (add_entry absolute file_pos)) _
          (when-Enough (need_entry s.0) _ (add_entry-Enough absolute file_pos))
          (λ u. record { enough = λ s'. tt })).enough
        s;
}

pub track_all-Enough :
    (offsets sizes : List ℕ) (file_pos : ℕ) → Enough (track_all offsets sizes file_pos)
unfolding track_all
track_all-Enough offsets [] file_pos = record { enough = λ s. tt }
track_all-Enough [] (size ∷ sizes) file_pos = record { enough = λ s. tt }
track_all-Enough (o ∷ offsets) (size ∷ sizes) file_pos =
    bind-Enough (track_append o file_pos size) _ (track_append-Enough o file_pos size)
      (λ u. track_all-Enough offsets sizes (file_pos + size))
