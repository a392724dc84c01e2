-- ===== src/Partition/Writer.antt =====
-- The writer task of partition.rs over a log on a disk that does not fail: what it replies, what it
-- publishes and what the log holds.
use kafko.Base.{
  ℕ, suc, ◌+◌, ◌^◌, ◌≤◌, ◌≡◌, refl, sym, ap, ◌∙◌, Bytes, List, [], ◌∷◌, ◌++◌, none, some, length,
  arith, append_assoc, append-nil, All, map, true, ltb, get_elem?, if◌then◌else◌, ◌-◌,
}
use kafko.Error.{KafkoError, ErrorKind, io, ok, err}
use kafko.Disk.{Disk}
use kafko.Compression.{Platform, IsLawful, is_available}
use kafko.Record.{Record}
use kafko.Log.Scan.{offsets_from}
use kafko.Log.Content.{content, Represents}
use kafko.Log.Batch.{IsEncoded, stored_batch, batch_records, append_batch-Represents}
use kafko.Log.Find.{read_record_at-Represents}
use kafko.Partition.{
  read_at, Reply, appended, record_read, WriterState, State, flush_append_batch, send_offsets,
  send_error, last, handle_single_command,
}

-- A record, what the codec makes of its value, and the reply channel of its command.
abbrev pub Request : Type 0
Request = (Record × Bytes) × ℕ

abbrev pub requests : List Request → List (Record × ℕ)
requests [] = []
requests (e ∷ es) = (e.0.0, e.1) ∷ requests es

abbrev pub coded : List Request → List (Record × Bytes)
coded [] = []
coded (e ∷ es) = e.0 ∷ coded es

abbrev pub ids : List Request → List ℕ
ids [] = []
ids (e ∷ es) = e.1 ∷ ids es

-- The answers with consecutive offsets, the first of them `next`, and those with an error.
abbrev pub offset_replies : ℕ → List Request → List (ℕ × Reply)
offset_replies next [] = []
offset_replies next (e ∷ es) = (e.1, appended (ok next)) ∷ offset_replies (next + 1) es

abbrev pub error_replies : KafkoError → List (Record × ℕ) → List (ℕ × Reply)
error_replies e [] = []
error_replies e (b ∷ bs) = (b.1, appended (err e)) ∷ error_replies e bs

records_of-requests :
    (es : List Request) → map (λ (x : Record × ℕ). x.0) (requests es) ≡ batch_records (coded es)
records_of-requests [] = refl
records_of-requests (e ∷ es) = rw (records_of-requests es)

ids_of-requests : (es : List Request) → map (λ (x : Record × ℕ). x.1) (requests es) ≡ ids es
ids_of-requests [] = refl
ids_of-requests (e ∷ es) = rw (ids_of-requests es)

pub length-batch_records : (es : List Request) → length (batch_records (coded es)) ≡ length es
length-batch_records [] = refl
length-batch_records (e ∷ es) = ap suc (length-batch_records es)

abbrev with_replies : WriterState → List (ℕ × Reply) → WriterState
with_replies w rs = record w { replies = w.replies ++ rs }

send_offsets_lem :
    (next : ℕ) (es : List Request) (w : WriterState) (d : Disk)
    → send_offsets (offsets_from next (batch_records (coded es))) (ids es) (w, d)
      ≡ (ok tt, (with_replies w (offset_replies next es), d))
unfolding offsets_from
send_offsets_lem next [] w d = rw (append-nil w.replies)
send_offsets_lem next (e ∷ es) w d = rw (
  send_offsets_lem (next + 1) es (with_replies w ((e.1, appended (ok next)) ∷ [])) d,
  append_assoc w.replies ((e.1, appended (ok next)) ∷ []) (offset_replies (next + 1) es),
)

send_error_lem :
    (e : KafkoError) (bs : List (Record × ℕ)) (w : WriterState) (d : Disk)
    → send_error e (map (λ (x : Record × ℕ). x.1) bs) (w, d)
      ≡ (ok tt, (with_replies w (error_replies e bs), d))
send_error_lem e [] w d = rw (append-nil w.replies)
send_error_lem e (b ∷ bs) w d = rw (
  send_error_lem e bs (with_replies w ((b.1, appended (err e)) ∷ [])) d,
  append_assoc w.replies ((b.1, appended (err e)) ∷ []) (error_replies e bs),
)

pub last-offsets_from :
    (next : ℕ) (r : Record) (rs : List Record)
    → last (offsets_from next (r ∷ rs)) ≡ some (next + length rs)
unfolding offsets_from
last-offsets_from next r [] = ap some (omega arith)
last-offsets_from next r (s ∷ rs) =
    last-offsets_from (next + 1) s rs ∙ ap (λ (k : ℕ). some k) (omega arith)

-- A batch that the writer flushes, on a disk without failures and with no injected failure: the log
-- holds its records behind the others, each command is answered once with the offset of its record,
-- in order, the published high-water mark is the next offset of the log, and the configuration
-- stays. The premises on the
-- platform and the sizes are those of `append_batch`.
pub flush_append_batch-Represents :
    (p : Platform) (w : WriterState) (d : Disk) (base : ℕ) (rs : List Record) (es : List Request)
    → IsLawful p
    → Represents p w.log d base rs
    → w.hwm ≡ base + length rs
    → w.fail_next_kind ≡ none
    → is_available p w.log.config.compression ≡ true
    → All (IsEncoded p w.log.config.compression) (coded es)
    → w.log.config.segment_size_threshold
        + length (content (stored_batch p w.log.config.compression (coded es)))
      ≤ 2 ^ 32
    → (s : State) × (flush_append_batch p (requests es) (w, d) ≡ (ok tt, s))
      × Represents p s.0.log s.1 base (rs ++ batch_records (coded es))
      × (s.0.hwm ≡ base + length rs + length es)
      × (s.0.replies ≡ w.replies ++ offset_replies (base + length rs) es)
      × (s.0.fail_next_kind ≡ none)
      × (s.0.log.config ≡ w.log.config)
unfolding flush_append_batch
flush_append_batch-Represents p w d base rs [] l rep hwm calm_fail a enc t =
    ((w, d), refl, rw (append-nil rs) rep, omega arith, sym (append-nil w.replies), calm_fail, refl)
flush_append_batch-Represents p w d base rs (e ∷ es) l rep hwm calm_fail a enc t =
    let (s, run, rep', c) =
      append_batch-Represents p w.log d base rs (coded (e ∷ es)) l rep a enc t in
    let n : ℕ = base + length rs in
    let w1 : WriterState = record w {
      log = s.0;
      fail_next_kind = none;
      hwm = n + length (batch_records (coded es)) + 1;
    } in
    (
      (with_replies w1 (offset_replies n (e ∷ es)), s.1),
      rw (
        calm_fail,
        records_of-requests es,
        ids_of-requests es,
        run,
        last-offsets_from n e.0.0 (batch_records (coded es)),
        send_offsets_lem n (e ∷ es) w1 s.1,
      ),
      rep',
      omega (arith, length-batch_records es),
      refl,
      refl,
      c,
    )

-- An injected failure: every command of the batch is answered with it, and nothing else changes but
-- that the failure is used up.
pub flush_append_batch-failing :
    (p : Platform) (w : WriterState) (d : Disk) (b : Record × ℕ) (bs : List (Record × ℕ))
    (kind : ErrorKind)
    → w.fail_next_kind ≡ some kind
    → flush_append_batch p (b ∷ bs) (w, d) ≡ (
      ok tt,
      (
        record w { fail_next_kind = none; replies = w.replies ++ error_replies (io kind) (b ∷ bs) },
        d,
      ),
    )
unfolding flush_append_batch
flush_append_batch-failing p w d b bs kind h =
    rw (h, send_error_lem (io kind) (b ∷ bs) (record w { fail_next_kind = none }) d)

-- A read command on a disk without failures: it is answered once with the record at the offset, none
-- at or past the next offset and none below `base`; what the log holds, the high-water mark and an
-- injected failure stay.
pub read_at-Represents :
    (p : Platform) (w : WriterState) (d : Disk) (base : ℕ) (rs : List Record) (offset id : ℕ)
    → Represents p w.log d base rs
    → (s : State) × (handle_single_command p (read_at offset id) (w, d) ≡ (ok tt, s))
      × Represents p s.0.log s.1 base rs
      × (s.0.hwm ≡ w.hwm)
      × (s.0.fail_next_kind ≡ w.fail_next_kind)
      × (s.0.replies
          ≡ w.replies
            ++ ((
              id,
              record_read (ok (if ltb offset base then none else get_elem? rs (offset - base))),
            )
                ∷ []))
unfolding handle_single_command
read_at-Represents p w d base rs offset id rep =
    let (s, run, rep') = read_record_at-Represents p w.log d base rs offset rep in
    (
      (
        record w {
          log = s.0;
          replies =
              w.replies
              ++ ((
                id,
                record_read (ok (if ltb offset base then none else get_elem? rs (offset - base))),
              )
                  ∷ []);
        },
        s.1,
      ),
      rw run,
      rep',
      refl,
      refl,
      refl,
    )
