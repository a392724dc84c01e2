-- ===== src/Log/Faults.antt =====
-- The operations of log.rs on files with any contents and a disk whose calls may fail.
use kafko.Base.{ℕ, refl, List}
use kafko.Disk.{Disk}
use kafko.Compression.{Platform}
use kafko.Record.{Record}
use kafko.Log.{Log, append, append_batch, read_record_at}
use kafko.Log.Enough.{IsEnough}
use kafko.Log.Steps.{Same, Leads}
use kafko.Log.Counts.{
  Counted, CountedBatch, append-Counted, append_batch-CountedBatch, read_record_at-Keeps,
}
use kafko.Log.Rounds.{append-Enough, append_batch-Enough, read_record_at-Enough}

module _ (p : Platform) (l : Log) (d : Disk) where
  -- An append, whatever the files hold and the disk answers: if it succeeds, it answers the next
  -- offset of the log and moves it on by one; if it fails or panics, the next offset stays; the
  -- configuration stays, and no loop is short of rounds.
  append-Leads :
      (r : Record) → IsEnough (append p r (l, d)).0 × Leads l (Counted p l) (append p r (l, d))
  append-Leads r =
      ((append-Enough p r).enough (l, d), (append-Counted p l r).leads l d (refl, refl))

  -- A batch, whatever the files hold and the disk answers: if it succeeds, it answers consecutive
  -- offsets, one for each record, from the next offset of the log on, and moves that past them; if it
  -- fails or panics, the next offset stays; the configuration stays, and no loop is short of rounds.
  pub append_batch-Leads :
      (rs : List Record)
      → IsEnough (append_batch p rs (l, d)).0
        × Leads l (CountedBatch p l rs) (append_batch p rs (l, d))
  append_batch-Leads rs = (
    (append_batch-Enough p rs).enough (l, d),
    (append_batch-CountedBatch p l rs).leads l d (refl, refl),
  )

  -- A read returns, or panics, whatever the files hold and the disk answers, within the rounds of its
  -- decoding loop, and leaves the next offset and the configuration.
  pub read_record_at-Leads :
      (offset : ℕ)
      → IsEnough (read_record_at p offset (l, d)).0
        × Leads l (λ r l'. Same l l') (read_record_at p offset (l, d))
  read_record_at-Leads offset = (
    (read_record_at-Enough p offset).enough (l, d),
    (read_record_at-Keeps p l offset).leads l d (refl, refl),
  )
