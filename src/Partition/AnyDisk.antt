-- ===== src/Partition/AnyDisk.antt =====
-- The rounds of the writer task of partition.rs on a disk that may fail at any call.
use kafko.Base.{
  ℕ, suc, ◌+◌, ◌≡◌, refl, sym, ap, ◌∙◌, List, [], ◌∷◌, ◌++◌, Option, none, some, length, map,
  append-nil, arith,
}
use mathlib.Core.Path.{subst}
use kafko.Error.{ErrorKind, io, Result, ok, err, panicked, out_of_fuel}
use kafko.Exec.{◌>>=◌, continue}
use kafko.Disk.{Disk}
use kafko.Compression.{Platform}
use kafko.Record.{Record}
use kafko.Log
use kafko.Log.{Log}
use kafko.Log.Scan.{offsets_from}
use kafko.Log.Enough.{IsEnough}
use kafko.Log.Rounds.{append_batch-Enough}
use kafko.Log.Steps.{Leads}
use kafko.Log.Counts.{offsets_from-numbers, CountedBatch, append_batch-CountedBatch}
use kafko.Partition.{
  Command, WriterState, attempt, caught, unless_failing, settle_batch, send_error,
  flush_append_batch, handle_other, handle_single_command,
}
use kafko.Partition.Batching.{as_list}
use kafko.Partition.Rounds.{channels, pending}
use kafko.Partition.Writer.{last-offsets_from}
use kafko.Partition.Serving.{answered, map-append}
use kafko.Partition.Commands.{single-Does}
use kafko.Partition.Does.{
  Does, offers, refusals, send_offsets-offers, send_error-refusals, channels-offers,
  channels-refusals, length-offsets_from,
}

abbrev records_in : List (Record × ℕ) → List Record
records_in = map (λ (x : Record × ℕ). x.0)

abbrev pub channels_in : List (Record × ℕ) → List ℕ
channels_in = map (λ (x : Record × ℕ). x.1)

length-channels_in :
    (batch : List (Record × ℕ)) → length (records_in batch) ≡ length (channels_in batch)
length-channels_in [] = refl
length-channels_in (b ∷ batch) = ap suc (length-channels_in batch)

module _ (p : Platform) (w : WriterState) (d : Disk) (m : w.hwm ≡ w.log.next_offset)
    (b : Record × ℕ) (batch : List (Record × ℕ)) where
  abbrev ids : List ℕ
  ids = channels_in (b ∷ batch)

  flush_settled :
      (x : Result (List ℕ) × (Log × Disk))
      → Leads w.log (CountedBatch p w.log (records_in (b ∷ batch))) x
      → IsEnough x.0
      → Does ids (w, d) (continue (caught w x) (λ result. settle_batch ids result))
  unfolding offsets_from
  flush_settled (ok offsets, (l, d')) (e, n, c) k =
      let next : ℕ = w.log.next_offset in
      let os : List ℕ = offsets_from next (records_in (b ∷ batch)) in
      let w1 : WriterState = record w { log = l; hwm = next + length (records_in batch) + 1 } in
      let long : length os ≡ length ids =
        length-offsets_from next (records_in (b ∷ batch)) ∙ length-channels_in (b ∷ batch) in
      rw
        (
          e ∙ sym (offsets_from-numbers next (records_in (b ∷ batch))),
          last-offsets_from next b.0 (records_in batch),
          send_offsets-offers os ids w1 d',
        )
        (
          omega (arith, n),
          (
            map-append _ w.replies (offers os ids)
                ∙ ap (λ ks. answered (w, d) ++ ks) (channels-offers os ids long),
            omega (arith, m),
          ),
        )
  flush_settled (err e, (l, d')) (n, c) k =
      rw (send_error-refusals e ids (record w { log = l }) d') (
        m ∙ sym n,
        (
          map-append _ w.replies (refusals e ids)
              ∙ ap (λ ks. answered (w, d) ++ ks) (channels-refusals e ids),
          omega arith,
        ),
      )
  flush_settled (panicked, (l, d')) h k = (ids, refl, omega arith)
  flush_settled (out_of_fuel, (l, d')) h k = k

module _ (p : Platform) (w : WriterState) (d : Disk) (m : w.hwm ≡ w.log.next_offset) where
  flush_one-Does :
      (b : Record × ℕ) (batch : List (Record × ℕ))
      → Does (channels_in (b ∷ batch)) (w, d) (flush_append_batch p (b ∷ batch) (w, d))
  unfolding flush_append_batch
  flush_one-Does b batch = by_failure w.fail_next_kind
    where
      w1 : WriterState
      w1 = record w { fail_next_kind = none }

      by_failure :
          (o : Option ErrorKind)
          → Does
              (channels_in (b ∷ batch))
              (w, d)
              (unless_failing o
                (λ kind. send_error (io kind) (channels_in (b ∷ batch)))
                (do
                  result ← attempt (Log.append_batch p (records_in (b ∷ batch)))
                  settle_batch (channels_in (b ∷ batch)) result)
                (w1, d))
      by_failure none =
          flush_settled p w1 d m b batch (Log.append_batch p (records_in (b ∷ batch)) (w.log, d))
            ((append_batch-CountedBatch p w.log (records_in (b ∷ batch))).leads w.log d
              (refl, refl))
            ((append_batch-Enough p (records_in (b ∷ batch))).enough (w.log, d))
      by_failure (some kind) = rw (send_error-refusals (io kind) (channels_in (b ∷ batch)) w1 d) (
        m,
        (
          map-append _ w.replies (refusals (io kind) (channels_in (b ∷ batch)))
              ∙ ap (λ ks. answered (w, d) ++ ks)
                  (channels-refusals (io kind) (channels_in (b ∷ batch))),
          omega arith,
        ),
      )

  pub flush-Does :
      (batch : List (Record × ℕ))
      → Does (channels_in batch) (w, d) (flush_append_batch p batch (w, d))
  unfolding flush_append_batch
  flush-Does [] = (m, (sym (append-nil (answered (w, d))), omega arith))
  flush-Does (b ∷ batch) = flush_one-Does b batch

  pub other-Does :
      (o : Option Command) → Does (pending (as_list o)) (w, d) (handle_other p o (w, d))
  other-Does none = (m, (sym (append-nil (answered (w, d))), omega arith))
  other-Does (some c) =
      subst (λ ks. Does ks (w, d) (handle_single_command p c (w, d)))
        (sym (append-nil (channels c))) (single-Does p w d m c)
