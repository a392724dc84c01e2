-- ===== src/Producer/OneByOne.antt =====
-- The records of a batch sent one behind the other with `send_record` of producer.rs, the reference
-- for `append_batch_routed`.
use kafko.Base.{
  ℕ, ◌+◌, ◌^◌, ◌<◌, ◌≡◌, ◌≢◌, refl, sym, ◌∙◌, List, [], ◌∷◌, ◌++◌, some, length, get_elem?,
  append-nil, append_assoc, length-append, ◌==◌, Bool-cases, All, eq→==, ==→eq, ==→ne, inl, inr,
}
use kafko.Error.{Result, ok}
use kafko.Exec.{Exec, ◌>>=◌, pure}
use kafko.Record.{Record}
use kafko.Topic.{Topic, RecordPosition, partition}
use kafko.Topic.Routing.{IsTopic, in_range}
use kafko.Producer.{State, send_record, append_to, append_batch_routed}
use kafko.Producer.Buckets.{index, index_lt, turned, turned_lt, routes, all_turned, route_lem}
use kafko.Producer.Positions.{bumped, targets, sent_to}
use kafko.Producer.Batch.{Appends}
use kafko.Producer.Delivered.{append_batch_routed-Delivered}

-- A partition that appended one record.
pub record AppendedOne {D : Type 0} (Good : D → Type 0) (held : D → ℕ → List Record) (i : ℕ)
    (r : Record) (d : D) (out : Result ℕ × D) : Type 0 where
  pub after : D
  pub good : Good after
  pub gives : out ≡ (ok (length (held d i)), after)
  pub here : held after i ≡ held d i ++ (r ∷ [])
  pub others : (j : ℕ) → j ≢ i → held after j ≡ held d j

-- In a state that is `Good`, a partition appends a record that `Fits`.
abbrev pub AppendsOne :
    {P D : Type 0}
    → (P → Record → Exec D ℕ)
    → List P
    → (D → Type 0)
    → (List Record → Type 0)
    → (D → ℕ → List Record)
    → Type 0
AppendsOne {P = P} {D = D} append partitions Good Fits held =
    (i : ℕ) (q : P) (r : Record) (d : D)
    → Good d
    → Fits (r ∷ [])
    → get_elem? partitions i ≡ some q
    → AppendedOne Good held i r d (append q r d)

targets-same : (f g : ℕ → ℕ) (qs : List ℕ) → ((j : ℕ) → f j ≡ g j) → targets f qs ≡ targets g qs
targets-same f g [] h = refl
targets-same f g (q ∷ qs) h = rw (h q, targets-same (bumped f q) (bumped g q) qs (λ j. rw (h j)))

-- The result of sending every record.
record Sent {P D : Type 0} (held : D → ℕ → List Record) (t : Topic P) (rs : List Record) (d : D)
    (out : Result (List RecordPosition) × (Topic P × D)) : Type 0 where
  pub after : D
  pub gives : out ≡ (
    ok (targets (λ p. length (held d p)) (routes (length t.partitions) t.round_robin rs)),
    (record t { round_robin = all_turned t.round_robin rs }, after),
  )
  pub stored :
      (p : ℕ)
      → held after p ≡ held d p ++ sent_to p (routes (length t.partitions) t.round_robin rs) rs

module _ {P D : Type 0} (append : P → Record → Exec D ℕ)
    (append_batch : P → List Record → Exec D (List ℕ)) (Good : D → Type 0)
    (Fits : List Record → Type 0) (held : D → ℕ → List Record) where
  -- A loop over `send_record`, which stops at the first record that fails.
  abbrev pub send_each :
      List Record → Exec (State {P = P} {D = D} append append_batch) (List RecordPosition)
  send_each [] = pure []
  send_each (r ∷ rs) = do
    position ← send_record append append_batch r
    positions ← send_each rs
    pure (position ∷ positions)

  one_more :
      (p : ℕ) (r : Record) (d d1 : D)
      → held d1 p ≡ held d p ++ (r ∷ [])
      → ((j : ℕ) → j ≢ p → held d1 j ≡ held d j)
      → (j : ℕ) → length (held d1 j) ≡ bumped (λ k. length (held d k)) p j
  one_more p r d d1 here others j = elim (Bool-cases (j == p)) [
    | inl y ↦
        let same : j ≡ p = ==→eq j p y in
        let l : length (held d1 p) ≡ length (held d p) + 1 =
          rw here (length-append (held d p) (r ∷ [])) in
        rw (same, eq→== p p refl) l
    | inr y ↦ rw (y, others j (==→ne j p y))
  ]

  placed_first :
      (p : ℕ) (r : Record) (d d1 : D) (qs : List ℕ) (rs : List Record)
      → held d1 p ≡ held d p ++ (r ∷ [])
      → ((j : ℕ) → j ≢ p → held d1 j ≡ held d j)
      → (j : ℕ) → held d1 j ++ sent_to j qs rs ≡ held d j ++ sent_to j (p ∷ qs) (r ∷ rs)
  placed_first p r d d1 qs rs here others j = elim (Bool-cases (p == j)) [
    | inl y ↦
        let same : p ≡ j = ==→eq p j y in
        let there : held d1 j ≡ held d j ++ (r ∷ []) = rw (← same) here in
        rw (y, there, append_assoc (held d j) (r ∷ []) (sent_to j qs rs))
    | inr y ↦ rw (y, others j (λ e. ==→ne p j y (sym e)))
  ]

  sent :
      (t : Topic P) (rs : List Record) (d : D)
      → IsTopic t
      → t.round_robin < 2 ^ 64
      → AppendsOne append t.partitions Good Fits held
      → Good d
      → All (λ r. Fits (r ∷ [])) rs
      → Sent held t rs d (send_each rs (t, d))
  unfolding send_record append_to partition
  sent t [] d h b one v fits = record {
    after = d;
    gives = refl;
    stored = λ p. sym (append-nil (held d p));
  }
  sent t (r ∷ rs) d h b one v fits =
      let n : ℕ = length t.partitions in
      let p : ℕ = index n t.round_robin r.key in
      let t1 : Topic P = record t { round_robin = turned t.round_robin r.key } in
      let (q, g) = in_range t.partitions p (index_lt n t.round_robin r.key h.0) in
      let f = one p q r d v fits.0 g in
      let s = sent t1 rs f.after h (turned_lt t.round_robin r.key b) one f.good fits.1 in
      let qs : List ℕ = routes n t1.round_robin rs in
      record {
        after = s.after;
        gives = rw (
          route_lem append append_batch r.key t d h b,
          g,
          f.gives,
          s.gives,
          targets-same (λ j. length (held f.after j)) (bumped (λ k. length (held d k)) p) qs
              (one_more p r d f.after f.here f.others),
        );
        stored = λ j. s.stored j ∙ placed_first p r d f.after qs rs f.here f.others j;
      }

  -- `append_batch_routed` gives what sending the records one behind the other gives: the same
  -- positions in the same order, the same counter, and the same records in every partition. The topic
  -- has between one and 2^32 - 1 partitions, the counter is a 64-bit number, and a partition, in a state
  -- that is `Good`, appends a record, or a batch, that `Fits` behind its records, answers the offsets,
  -- leaves the others alone and the state `Good`; each record fits, and what is sent to a partition.
  pub append_batch_routed-send_each :
      (t : Topic P) (rs : List Record) (d : D)
      → IsTopic t
      → t.round_robin < 2 ^ 64
      → Appends append_batch t.partitions Good Fits held
      → AppendsOne append t.partitions Good Fits held
      → Good d
      → ((p : ℕ)
          → p < length t.partitions
          → Fits (sent_to p (routes (length t.partitions) t.round_robin rs) rs))
      → All (λ r. Fits (r ∷ [])) rs
      → (positions : List RecordPosition) × (t' : Topic P) × (d1 : D) × (d2 : D)
        × (append_batch_routed append append_batch rs (t, d) ≡ (ok positions, (t', d1)))
        × (send_each rs (t, d) ≡ (ok positions, (t', d2)))
        × ((p : ℕ) → p < length t.partitions → held d1 p ≡ held d2 p)
  append_batch_routed-send_each t rs d h b many one v fits each =
      let f =
        append_batch_routed-Delivered append append_batch Good Fits held t rs d h b many v fits in
      let s = sent t rs d h b one v each in
      (
        f.positions,
        record t { round_robin = all_turned t.round_robin rs },
        f.after,
        s.after,
        f.gives,
        rw f.as_sent s.gives,
        λ p l. f.stored p l ∙ sym (s.stored p),
      )
