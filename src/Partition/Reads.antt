-- ===== src/Partition/Reads.antt =====
-- The reads and the sync of partition.rs on a disk that does not fail.
use kafko.Base.{
  ℕ, ◌≡◌, refl, sym, ap, ◌∙◌, List, [], ◌∷◌, ◌++◌, Option, none, arith, leb, ltb, ◌-◌,
  if◌then◌else◌, get_elem?, Bool-cases, inl, inr,
}
use kafko.Error.{Result, ok}
use kafko.Disk.{Disk, calm}
use kafko.Compression.{Platform}
use kafko.Record.{Record}
use kafko.Log
use kafko.Log.{Log, LogConfig, on_active, sync_pair, read_record_at}
use kafko.Log.Find.{read_record_at-Represents}
use kafko.Log.Active.{on_active_lem}
use kafko.Log.Rotate.{sync_pair-calm}
use kafko.Log.Content.{segments_of, Represents}
use kafko.Partition.{read_at, sync, record_read, synced, State, handle_single_command}
use kafko.Partition.Serving.{IsServing, Serves, answers_one}

module _ (p : Platform) (config : LogConfig) where
  read_record_at-config :
      (offset : ℕ) (l : Log) (d : Disk) → (read_record_at p offset (l, d)).1.0.config ≡ l.config
  unfolding read_record_at
  read_record_at-config offset l d = elim (Bool-cases (leb l.next_offset offset)) [
    | inl e ↦ rw (read_record_at, e)
    | inr e ↦ rw (read_record_at, e)
  ]

  pub read_at-Serves :
      (base : ℕ) (rs : List Record) (s : State) (offset id : ℕ)
      → IsServing p config base rs s
      → Serves p config s (id ∷ []) (handle_single_command p (read_at offset id) s)
  unfolding handle_single_command
  read_at-Serves base rs (w, d) offset id i =
      let (s', run, rep) = read_record_at-Represents p w.log d base rs offset i.holds in
      let config' : s'.0.config ≡ config =
        ap (λ (r : Result (Option Record) × (Log × Disk)). r.1.0.config) (sym run)
        ∙ read_record_at-config offset w.log d
        ∙ i.same_config in
      answers_one p config base base rs rs (w, d) (record w { log = s'.0 }, s'.1) id
        (record_read (ok (if ltb offset base then none else get_elem? rs (offset - base)))) tt _
        (rw (handle_single_command, run)) i
        (record { holds = rep; mark = i.mark; same_config = config' }) (omega arith)

  pub sync-Represents :
      (l : Log) (d : Disk) (base : ℕ) (rs : List Record)
      → Represents p l d base rs
      → (s : Log.State) × (Log.sync (l, d) ≡ (ok tt, s))
        × Represents p s.0 s.1 base rs
        × (s.0.config ≡ l.config)
  unfolding Log.sync
  sync-Represents l d base rs rep =
      let run =
        on_active_lem sync_pair l (segments_of rep.zs) rep.z.0 rep.z.0 (calm rep.ls rep.xs)
          (calm rep.ls rep.xs) (ok tt) rep.is_log.segments (sync_pair-calm rep.z.0 rep.ls rep.xs) in
      (
        (record l { segments = segments_of rep.zs ++ (rep.z.0 ∷ []) }, calm rep.ls rep.xs),
        rw (rep.disk, run),
        record {
          ls = rep.ls;
          xs = rep.xs;
          zs = rep.zs;
          top = rep.top;
          z = rep.z;
          disk = refl;
          is_log = record {
            segments = refl;
            sealed = rep.is_log.sealed;
            active = rep.is_log.active;
            next = rep.is_log.next;
            fresh_logs = rep.is_log.fresh_logs;
            fresh_indexes = rep.is_log.fresh_indexes;
          };
          records = rep.records;
        },
        refl,
      )

  pub sync-Serves :
      (base : ℕ) (rs : List Record) (s : State) (id : ℕ)
      → IsServing p config base rs s
      → Serves p config s (id ∷ []) (handle_single_command p (sync id) s)
  unfolding handle_single_command
  sync-Serves base rs (w, d) id i =
      let (s', run, rep, same) = sync-Represents w.log d base rs i.holds in
      answers_one p config base base rs rs (w, d) (record w { log = s'.0 }, s'.1) id
        (synced (ok tt)) tt _ (rw (handle_single_command, run)) i
        (record { holds = rep; mark = i.mark; same_config = same ∙ i.same_config }) (omega arith)
