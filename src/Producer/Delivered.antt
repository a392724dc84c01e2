-- ===== src/Producer/Delivered.antt =====
-- Where `append_batch_routed` in producer.rs puts the records of a batch, and the positions that it
-- answers.
use kafko.Base.{
  ◌%◌, inr, ℕ, zero, suc, ◌+◌, ◌^◌, ◌<◌, ◌≡◌, refl, sym, ap, ◌∙◌, List, [], ◌∷◌, ◌++◌, some, length,
  get_elem?, replicate, length-replicate, ◌==◌, Bool-cases, ne→==, eq→==, ==→eq, ==→ne,
  get_elem?-append_right, arith, inl, inr,
}
use mathlib.Core.Path.{subst}
use kafko.Error.{Result, ok}
use kafko.Exec.{Exec}
use kafko.Record.{Record}
use kafko.Topic.{Topic, RecordPosition, partition_count}
use kafko.Topic.Routing.{IsTopic}
use kafko.Producer.{Numbered, append_batch_routed, append_buckets}
use kafko.Producer.Buckets.{
  zero_add, index, index_lt, turned, routes, all_turned, filled, bucket_all_lem,
}
use kafko.Producer.Positions.{bumped, targets, sent_to, records_of}
use kafko.Producer.Batch.{Appends, bucket_at, spread}
use kafko.Producer.Covered.{
  length-filled, no_buckets, filled-AllPlaced, filled-SomeListed, bucket_at-filled,
  records_of-assigned, length-routes, length-targets, get_elem?-routes, same_list,
}

-- The position of a record of a batch, and the record there among those sent to its partition.
record Spot (next : ℕ → ℕ) (qs : List ℕ) (rs : List Record) (n i : ℕ) (r : Record) : Type 0 where
  pub number : ℕ
  pub rank : ℕ
  pub position :
      get_elem? (targets next qs) i
      ≡ some (record { partition = number; offset = next number + rank })
  pub there : get_elem? (sent_to number qs rs) rank ≡ some r
  pub inside : number < n

spot :
    (n : ℕ) (next : ℕ → ℕ) (c : ℕ) (rs : List Record) (i : ℕ) (r : Record)
    → 0 < n
    → get_elem? rs i ≡ some r
    → Spot next (routes n c rs) rs n i r
spot n next c [] i r h g = absurd cc
spot n next c (s ∷ rs) zero r h g =
    let q : ℕ = index n c s.key in
    record {
      number = q;
      rank = 0;
      position =
          ap (λ k. some (record { partition = q; offset = k }))
            (let e : next q ≡ next q + 0 = omega arith in e);
      there = rw (eq→== q q refl) g;
      inside = index_lt n c s.key h;
    }
spot n next c (s ∷ rs) (suc i) r h g =
    let q : ℕ = index n c s.key in
    let f = spot n (bumped next q) (turned c s.key) rs i r h g in
    elim (Bool-cases (q == f.number)) [
      | inl y ↦
          let e : bumped next q f.number + f.rank ≡ next f.number + suc f.rank =
            rw (eq→== f.number q (sym (==→eq q f.number y))) (omega arith) in
          record {
            number = f.number;
            rank = suc f.rank;
            position = rw (← e) f.position;
            there = rw y f.there;
            inside = f.inside;
          }
      | inr y ↦
          let e : bumped next q f.number + f.rank ≡ next f.number + f.rank =
            rw (ne→== f.number q (λ w. ==→ne q f.number y (sym w))) in
          record {
            number = f.number;
            rank = f.rank;
            position = rw (← e) f.position;
            there = rw y f.there;
            inside = f.inside;
          }
    ]

-- Where a batch ends up: the records for each partition behind those that it held, in the order of the
-- batch, and for each record of the batch the partition it is routed to and the offset it has there.
pub record Delivered {P D : Type 0} (Good : D → Type 0) (held : D → ℕ → List Record) (t : Topic P)
    (rs : List Record) (d : D) (out : Result (List RecordPosition) × (Topic P × D)) : Type 0 where
  pub positions : List RecordPosition
  pub after : D
  pub good : Good after
  pub gives : out ≡ (ok positions, (record t { round_robin = all_turned t.round_robin rs }, after))
  pub long : length positions ≡ length rs
  pub stored :
      (p : ℕ)
      → p < length t.partitions
      → held after p ≡ held d p ++ sent_to p (routes (length t.partitions) t.round_robin rs) rs
  pub as_sent :
      positions ≡ targets (λ p. length (held d p)) (routes (length t.partitions) t.round_robin rs)
  pub read_back :
      (i : ℕ) (r : Record)
      → get_elem? rs i ≡ some r
      → (pos : RecordPosition) × (get_elem? positions i ≡ some pos)
        × (get_elem? (held after pos.partition) pos.offset ≡ some r)

abbrev no_position : RecordPosition
no_position = record { partition = 0; offset = 0 }

abbrev blank : ℕ → List RecordPosition
blank n = replicate n no_position

module _ {P D : Type 0} (append : P → Record → Exec D ℕ)
    (append_batch : P → List Record → Exec D (List ℕ)) (Good : D → Type 0)
    (Fits : List Record → Type 0) (held : D → ℕ → List Record) where
  two_passes :
      (t : Topic P) (rs : List Record) (d : D)
      → IsTopic t
      → t.round_robin < 2 ^ 64
      → (found : List RecordPosition) (after : D)
      → append_buckets append append_batch 0
          (filled 0
            (no_buckets (length t.partitions))
            0
            (routes (length t.partitions) t.round_robin rs)
            rs)
          (blank (length rs))
          (record t { round_robin = all_turned t.round_robin rs }, d)
        ≡ (ok found, (record t { round_robin = all_turned t.round_robin rs }, after))
      → append_batch_routed append append_batch rs (t, d)
        ≡ (ok found, (record t { round_robin = all_turned t.round_robin rs }, after))
  unfolding append_batch_routed partition_count
  two_passes t rs d h b found after e =
      let count : length t.partitions % 2 ^ 32 ≡ length t.partitions = omega (arith, h.1) in
      rw (
        count,
        bucket_all_lem append append_batch 0 rs (no_buckets (length t.partitions)) t d h b
            (length-replicate (length t.partitions) []),
        e,
      )

  -- A batch goes where its records would go one behind the other: each record to the partition that
  -- its key or the counter chooses, behind what the partition holds and the earlier records of the
  -- batch for it; the answer gives every record of the batch, in order, the position at which it then
  -- stands, and the counter counts the records without a key. The topic has between one and 2^32 - 1
  -- partitions, the counter is a 64-bit number, and each partition, in a state that is `Good`, appends a
  -- batch that `Fits` behind its records, answers the consecutive offsets, leaves the others alone and
  -- the state `Good`; what is sent to a partition fits.
  pub append_batch_routed-Delivered :
      (t : Topic P) (rs : List Record) (d : D)
      → IsTopic t
      → t.round_robin < 2 ^ 64
      → Appends append_batch t.partitions Good Fits held
      → Good d
      → ((p : ℕ)
          → p < length t.partitions
          → Fits (sent_to p (routes (length t.partitions) t.round_robin rs) rs))
      → Delivered Good held t rs d (append_batch_routed append append_batch rs (t, d))
  append_batch_routed-Delivered t rs d h b ap_ v fits =
      let n : ℕ = length t.partitions in
      let qs : List ℕ = routes n t.round_robin rs in
      let next : ℕ → ℕ = λ p. length (held d p) in
      let target : List RecordPosition = targets next qs in
      let bs : List (List Numbered) = filled 0 (no_buckets n) 0 qs rs in
      let t' : Topic P = record t { round_robin = all_turned t.round_robin rs } in
      let size : length target ≡ length rs =
        length-targets next qs ∙ length-routes n t.round_robin rs in
      let listed : (k : ℕ) → k < n → records_of (bucket_at bs k) ≡ sent_to k qs rs = λ k l.
        ap records_of (bucket_at-filled 0 k n qs rs l)
        ∙ records_of-assigned (0 + k) 0 qs rs
        ∙ ap (λ j. sent_to j qs rs) (zero_add k) in
      let s =
        spread append append_batch Good Fits held target next 0 bs (blank (length rs)) t' d ap_ v
          (λ k l.
            subst Fits (sym (listed k (omega (arith, l, length-filled 0 n 0 qs rs))))
              (fits k (omega (arith, l, length-filled 0 n 0 qs rs))))
          (length-filled 0 n 0 qs rs ∙ zero_add n) (λ k l. refl)
          (filled-AllPlaced target next 0 n 0 qs rs (λ j. ap (get_elem? target) (zero_add j)))
          (length-replicate (length rs) no_position ∙ sym size) in
      let same : s.found ≡ target = same_list s.found target s.long (λ i l.
        let (q, g, c) = get_elem?-routes n t.round_robin rs i h.0 (omega (arith, size)) in
        s.right i (
          inr (
            filled-SomeListed 0 q n i qs rs (g ∙ ap some (sym (zero_add q))) (omega (arith, size))
              c))) in
      let kept : (p : ℕ) → p < n → held s.after p ≡ held d p ++ sent_to p qs rs = λ p l.
        subst (λ k. held s.after k ≡ held d k ++ sent_to k qs rs) (zero_add p)
          (s.above p
            ∙ ap (λ (b : List Numbered). held d (0 + p) ++ records_of b)
                (bucket_at-filled 0 p n qs rs l)
            ∙ ap (λ ys. held d (0 + p) ++ ys) (records_of-assigned (0 + p) 0 qs rs)) in
      record {
        positions = s.found;
        after = s.after;
        good = s.good;
        gives = two_passes t rs d h b s.found s.after s.gives;
        long = s.long ∙ size;
        stored = kept;
        as_sent = same;
        read_back = λ i r g.
            let f = spot n next t.round_robin rs i r h.0 g in
            (
              record { partition = f.number; offset = next f.number + f.rank },
              rw same f.position,
              rw
                  (
                    kept f.number f.inside,
                    get_elem?-append_right (held d f.number) (sent_to f.number qs rs) f.rank,
                  )
                  f.there,
            );
      }
