-- ===== src/Partition/Commands.antt =====
-- The commands of partition.rs on a disk that may fail at any call.
use kafko.Base.{ℕ, ◌≡◌, refl, sym, ◌∙◌, List, [], ◌∷◌, Option, none, some, append-nil, arith}
use kafko.Error.{ErrorKind, io, Result, ok, err, panicked, out_of_fuel}
use kafko.Exec.{◌>>=◌, ◌>>◌, continue}
use kafko.Disk.{Disk}
use kafko.Compression.{Platform}
use kafko.Record.{Record}
use kafko.Log
use kafko.Log.{Log}
use kafko.Log.Scan.{offsets_from}
use kafko.Log.Enough.{IsEnough}
use kafko.Log.Rounds.{append-Enough, append_batch-Enough, read_record_at-Enough, sync-Enough}
use kafko.Log.Steps.{Same, Leads}
use kafko.Log.Counts.{
  offsets_from-numbers, Counted, CountedBatch, append-Counted, append_batch-CountedBatch,
  read_record_at-Keeps, sync-Keeps,
}
use kafko.Partition.{
  Command, append, append_batch, read_at, sync, poison, fail_next_append, Reply, appended,
  batch_appended, record_read, synced, WriterState, caught, attempt, send, publish_one,
  publish_batch, unless_failing, flush_explicit_batch, handle_single_command,
}
use kafko.Partition.Rounds.{channels}
use kafko.Partition.Writer.{last-offsets_from}
use kafko.Partition.Serving.{answered, map-append}
use kafko.Partition.Does.{Does}

-- What the attempt of a call on the log leaves.
module _ (p : Platform) (w : WriterState) (d : Disk) (id : ℕ) (m : w.hwm ≡ w.log.next_offset) where
  append_settled :
      (x : Result ℕ × (Log × Disk))
      → Leads w.log (Counted p w.log) x
      → IsEnough x.0
      → Does
          (id ∷ [])
          (w, d)
          (continue (caught w x) (λ result. do publish_one result; send id (appended result)))
  append_settled (ok offset, (l, d')) (e, n, c) k =
      (rw (e, n), (map-append _ w.replies _, rw e (omega (arith, m))))
  append_settled (err e, (l, d')) (n, c) k = (m ∙ sym n, (map-append _ w.replies _, omega arith))
  append_settled (panicked, (l, d')) h k = (id ∷ [], refl, omega arith)
  append_settled (out_of_fuel, (l, d')) h k = k

  batch_settled :
      (rs : List Record) (x : Result (List ℕ) × (Log × Disk))
      → Leads w.log (CountedBatch p w.log rs) x
      → IsEnough x.0
      → Does
          (id ∷ [])
          (w, d)
          (continue
            (caught w x)
            (λ result. do publish_batch result; send id (batch_appended result)))
  unfolding offsets_from
  batch_settled [] (ok offsets, (l, d')) (e, n, c) k =
      rw e (omega (arith, n, m), (map-append _ w.replies _, omega arith))
  batch_settled (r ∷ rs) (ok offsets, (l, d')) (e, n, c) k =
      rw
        (
          e ∙ sym (offsets_from-numbers w.log.next_offset (r ∷ rs)),
          last-offsets_from w.log.next_offset r rs,
        )
        (omega (arith, n), (map-append _ w.replies _, omega (arith, m)))
  batch_settled rs (err e, (l, d')) (n, c) k = (m ∙ sym n, (map-append _ w.replies _, omega arith))
  batch_settled rs (panicked, (l, d')) h k = (id ∷ [], refl, omega arith)
  batch_settled rs (out_of_fuel, (l, d')) h k = k

  kept_settled :
      {A : Type 0} (reply : Result A → Reply) (x : Result A × (Log × Disk))
      → Leads w.log (λ a l. Same w.log l) x
      → IsEnough x.0
      → Does (id ∷ []) (w, d) (continue (caught w x) (λ result. send id (reply result)))
  kept_settled reply (ok a, (l, d')) (n, c) k = (m ∙ sym n, (map-append _ w.replies _, omega arith))
  kept_settled reply (err e, (l, d')) (n, c) k =
      (m ∙ sym n, (map-append _ w.replies _, omega arith))
  kept_settled reply (panicked, (l, d')) h k = (id ∷ [], refl, omega arith)
  kept_settled reply (out_of_fuel, (l, d')) h k = k

module _ (p : Platform) (w : WriterState) (d : Disk) (m : w.hwm ≡ w.log.next_offset) where
  explicit-Does :
      (rs : List Record) (id : ℕ) → Does (id ∷ []) (w, d) (flush_explicit_batch p rs id (w, d))
  unfolding flush_explicit_batch
  explicit-Does rs id = by_failure w.fail_next_kind
    where
      w1 : WriterState
      w1 = record w { fail_next_kind = none }

      by_failure :
          (o : Option ErrorKind)
          → Does
              (id ∷ [])
              (w, d)
              (unless_failing o
                (λ kind. send id (batch_appended (err (io kind))))
                (do
                  result ← attempt (Log.append_batch p rs)
                  publish_batch result
                  send id (batch_appended result))
                (w1, d))
      by_failure none =
          batch_settled p w1 d id m rs (Log.append_batch p rs (w1.log, d))
            ((append_batch-CountedBatch p w.log rs).leads w.log d (refl, refl))
            ((append_batch-Enough p rs).enough (w.log, d))
      by_failure (some kind) = (m, (map-append _ w.replies _, omega arith))

  pub single-Does : (c : Command) → Does (channels c) (w, d) (handle_single_command p c (w, d))
  unfolding handle_single_command
  single-Does (append r id) = by_failure w.fail_next_kind
    where
      w1 : WriterState
      w1 = record w { fail_next_kind = none }

      by_failure :
          (o : Option ErrorKind)
          → Does
              (id ∷ [])
              (w, d)
              (unless_failing o
                (λ kind. send id (appended (err (io kind))))
                (do
                  result ← attempt (Log.append p r)
                  publish_one result
                  send id (appended result))
                (w1, d))
      by_failure none =
          append_settled p w1 d id m (Log.append p r (w1.log, d))
            ((append-Counted p w.log r).leads w.log d (refl, refl))
            ((append-Enough p r).enough (w.log, d))
      by_failure (some kind) = (m, (map-append _ w.replies _, omega arith))
  single-Does (append_batch rs id) = explicit-Does rs id
  single-Does (read_at offset id) =
      kept_settled p w d id m record_read (Log.read_record_at p offset (w.log, d))
        ((read_record_at-Keeps p w.log offset).leads w.log d (refl, refl))
        ((read_record_at-Enough p offset).enough (w.log, d))
  single-Does (sync id) =
      kept_settled p w d id m synced (Log.sync (w.log, d))
        ((sync-Keeps w.log).leads w.log d (refl, refl)) (sync-Enough.enough (w.log, d))
  single-Does poison = ([], refl, omega arith)
  single-Does (fail_next_append kind) = (m, (sym (append-nil (answered (w, d))), omega arith))
