-- ===== src/Partition/Flush.antt =====
-- The batches of partition.rs on a disk that does not fail.
use kafko.Base.{
  ℕ, suc, ◌+◌, ◌*◌, ◌^◌, ◌≤◌, ◌≡◌, refl, sym, ap, ◌∙◌, Bytes, List, [], ◌∷◌, ◌++◌, Option, none,
  some, length, arith, append-nil, length-append, All, All-map, map,
}
use mathlib.Core.Path.{subst}
use native.Mathlib.Nat.{mul-le-mul_right}
use kafko.Error.{Compression, ErrorKind, KafkoError, io, ok, err}
use kafko.Disk.{Disk}
use kafko.Compression.{Platform}
use kafko.Record.{Record}
use kafko.Log.{LogConfig}
use kafko.Log.Content.{content}
use kafko.Log.Scan.{offsets_from}
use kafko.Log.Batch.{IsEncoded, stored_batch, batch_records, append_batch-Represents}
use kafko.Partition.{
  Reply, batch_appended, WriterState, State, flush_append_batch, publish_batch,
  flush_explicit_batch,
}
use kafko.Partition.Writer.{
  Request, requests, coded, ids, length-batch_records, last-offsets_from, offset_replies,
  error_replies, flush_append_batch-Represents, flush_append_batch-failing,
}
use kafko.Partition.Serving.{
  IsRoomy, IsServing, Serves, IsSound, answered, map-append, length-stored_batch, answers_one,
}

answered-offset_replies :
    (n : ℕ) (es : List Request) → map (λ (r : ℕ × Reply). r.0) (offset_replies n es) ≡ ids es
answered-offset_replies n [] = refl
answered-offset_replies n (e ∷ es) = rw (answered-offset_replies (n + 1) es)

answered-error_replies :
    (e : KafkoError) (es : List Request)
    → map (λ (r : ℕ × Reply). r.0) (error_replies e (requests es)) ≡ ids es
answered-error_replies e [] = refl
answered-error_replies e (b ∷ es) = rw (answered-error_replies e es)

length-coded : (es : List Request) → length (coded es) ≡ length es
length-coded [] = refl
length-coded (e ∷ es) = ap suc (length-coded es)

length-batch : (es : List (Record × Bytes)) → length (batch_records es) ≡ length es
length-batch [] = refl
length-batch (e ∷ es) = ap suc (length-batch es)

-- The watch channel shows the offset after the last one.
publish_batch_lem :
    (n : ℕ) (rs : List Record) (w : WriterState) (d : Disk)
    → w.hwm ≡ n
    → publish_batch (ok (offsets_from n rs)) (w, d) ≡ (ok tt, (record w { hwm = n + length rs }, d))
unfolding offsets_from
publish_batch_lem n [] w d e =
    let same : w.hwm ≡ n + length {0} {A = Record} [] = omega (arith, e) in
    ap (λ (h : ℕ). (ok tt, (record w { hwm = h }, d))) same
publish_batch_lem n (r ∷ rs) w d e =
    let next : n + length rs + 1 ≡ n + length (r ∷ rs) = omega arith in
    rw (last-offsets_from n r rs) (ap (λ (h : ℕ). (ok tt, (record w { hwm = h }, d))) next)

module _ (p : Platform) (config : LogConfig) (most : ℕ) (roomy : IsRoomy p config most) where
  pub flush_append_batch-Serves :
      (base : ℕ) (rs : List Record) (s : State) (es : List Request)
      → length es ≤ config.batch_max_records
      → All (IsSound p config most roomy) (coded es)
      → IsServing p config base rs s
      → Serves p config s (ids es) (flush_append_batch p (requests es) s)
  unfolding flush_append_batch
  flush_append_batch-Serves base rs (w, d) [] small sound i = record {
    value = tt;
    state = (w, d);
    base = base;
    rs = rs;
    runs = refl;
    serving = i;
    answers = sym (append-nil (answered (w, d)));
    forward = omega arith;
  }
  flush_append_batch-Serves base rs (w, d) (e ∷ es) small sound i =
      let c : Compression = config.compression in
      let enc : All (IsEncoded p c) (coded (e ∷ es)) =
        All-map (IsSound p config most roomy) (IsEncoded p c) (coded (e ∷ es)) (λ b q. q.encoded)
          sound in
      let sized = length-stored_batch p c most (coded (e ∷ es)) (
        All-map (IsSound p config most roomy)
          (λ b. length (content (stored_batch p c (b ∷ []))) ≤ most) (coded (e ∷ es))
          (λ b q. q.small) sound) in
      let cap : length (coded (e ∷ es)) * most ≤ config.batch_max_records * most =
        mul-le-mul_right most (omega (arith, small, length-coded (e ∷ es))) in
      by_fail w.fail_next_kind refl enc (omega (arith, sized, cap, roomy.room))
    where
      by_fail :
          (o : Option ErrorKind)
          → w.fail_next_kind ≡ o
          → All (IsEncoded p config.compression) (coded (e ∷ es))
          → config.segment_size_threshold
              + length (content (stored_batch p config.compression (coded (e ∷ es))))
            ≤ 2 ^ 32
          → Serves p config (w, d) (ids (e ∷ es)) (flush_append_batch p (requests (e ∷ es)) (w, d))
      by_fail (some kind) f enc sized = record {
        value = tt;
        state = (
          record w {
            fail_next_kind = none;
            replies = w.replies ++ error_replies (io kind) (requests (e ∷ es));
          },
          d,
        );
        base = base;
        rs = rs;
        runs = flush_append_batch-failing p w d (e.0.0, e.1) (requests es) kind f;
        serving = record { holds = i.holds; mark = i.mark; same_config = i.same_config };
        answers =
            map-append _ w.replies _
            ∙ ap (λ js. answered (w, d) ++ js) (answered-error_replies (io kind) (e ∷ es));
        forward = omega arith;
      }
      by_fail none f enc sized =
          let (s', runs, rep, mark, replies, no_fail, same) =
            flush_append_batch-Represents p w d base rs (e ∷ es) roomy.lawful i.holds i.mark f
              (rw i.same_config roomy.available)
              (subst (λ c. All (IsEncoded p c.compression) (coded (e ∷ es))) (sym i.same_config)
                enc)
              (subst
                (λ c.
                  c.segment_size_threshold
                    + length (content (stored_batch p c.compression (coded (e ∷ es))))
                  ≤ 2 ^ 32)
                (sym i.same_config) sized) in
          record {
            value = tt;
            state = s';
            base = base;
            rs = rs ++ batch_records (coded (e ∷ es));
            runs = runs;
            serving = record {
              holds = rep;
              mark = omega (
                arith,
                mark,
                length-append rs (batch_records (coded (e ∷ es))),
                length-batch_records (e ∷ es),
              );
              same_config = same ∙ i.same_config;
            };
            answers =
                ap (map (λ (r : ℕ × Reply). r.0)) replies
                ∙ map-append _ w.replies _
                ∙ ap (λ js. answered (w, d) ++ js)
                    (answered-offset_replies (base + length rs) (e ∷ es));
            forward = omega (arith, mark, i.mark);
          }

  pub flush_explicit_batch-Serves :
      (base : ℕ) (rs : List Record) (s : State) (es : List (Record × Bytes)) (id : ℕ)
      → length es ≤ config.batch_max_records
      → All (IsSound p config most roomy) es
      → IsServing p config base rs s
      → Serves p config s (id ∷ []) (flush_explicit_batch p (batch_records es) id s)
  unfolding flush_explicit_batch
  flush_explicit_batch-Serves base rs (w, d) es id small sound i =
      let c : Compression = config.compression in
      let enc : All (IsEncoded p c) es =
        All-map (IsSound p config most roomy) (IsEncoded p c) es (λ b q. q.encoded) sound in
      let sized = length-stored_batch p c most es (
        All-map (IsSound p config most roomy)
          (λ b. length (content (stored_batch p c (b ∷ []))) ≤ most) es (λ b q. q.small) sound) in
      let cap : length es * most ≤ config.batch_max_records * most = mul-le-mul_right most small in
      by_fail w.fail_next_kind refl enc (omega (arith, sized, cap, roomy.room))
    where
      by_fail :
          (o : Option ErrorKind)
          → w.fail_next_kind ≡ o
          → All (IsEncoded p config.compression) es
          → config.segment_size_threshold + length (content (stored_batch p config.compression es))
            ≤ 2 ^ 32
          → Serves p config (w, d) (id ∷ []) (flush_explicit_batch p (batch_records es) id (w, d))
      by_fail (some kind) f enc sized =
          answers_one p config base base rs rs (w, d) (record w { fail_next_kind = none }, d) id
            (batch_appended (err (io kind))) tt _ (rw (flush_explicit_batch, f)) i
            (record { holds = i.holds; mark = i.mark; same_config = i.same_config }) (omega arith)
      by_fail none f enc sized =
          let (s', run, rep, same) =
            append_batch-Represents p w.log d base rs es roomy.lawful i.holds
              (rw i.same_config roomy.available)
              (subst (λ c. All (IsEncoded p c.compression) es) (sym i.same_config) enc)
              (subst
                (λ c.
                  c.segment_size_threshold + length (content (stored_batch p c.compression es))
                  ≤ 2 ^ 32)
                (sym i.same_config) sized) in
          let n : ℕ = base + length rs in
          let w' : WriterState = record w { fail_next_kind = none; log = s'.0 } in
          answers_one p config base base rs (rs ++ batch_records es) (w, d)
            (record w' { hwm = n + length (batch_records es) }, s'.1) id
            (batch_appended (ok (offsets_from n (batch_records es)))) tt _
            (rw
              (flush_explicit_batch, f, run, publish_batch_lem n (batch_records es) w' s'.1 i.mark))
            i
            (record {
              holds = rep;
              mark = omega (arith, length-append rs (batch_records es));
              same_config = same ∙ i.same_config;
            })
            (omega (arith, length-append rs (batch_records es)))
