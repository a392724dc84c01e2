-- ===== src/Producer.antt =====
-- crates/kafko/src/producer.rs: routing of records to the partitions of a topic. A partition is the
-- parameter `P`; `append` and `append_batch` stand for its methods, with what they do to the
-- partitions in `D`. The clock is an argument.
pub mod Keyed
pub mod Buckets
pub mod Positions
pub mod Batch
pub mod Covered
pub mod Delivered
pub mod OneByOne
pub mod Logs
use kafko.Base.{
  ℕ, zero, suc, ◌+◌, ◌%◌, ◌^◌, Bytes, List, [], ◌∷◌, ◌++◌, Option, none, some, length, get_elem?,
  set, replicate, map,
}
use kafko.Error.{Result, ok, err, panicked, invalid_partition_count}
use kafko.Exec.{Exec, ◌>>=◌, pure, lift, stored}
use kafko.Record.{Record, new}
use kafko.Topic.{
  Topic, RecordPosition, partition, partition_count, partition_for_key, next_round_robin,
}

-- A record with its place in the input.
abbrev pub Numbered : Type 0
Numbered = ℕ × Record

abbrev push_to :
    List (List Numbered) → ℕ → Numbered → Option (List Numbered) → Result (List (List Numbered))
push_to buckets p x none = panicked
push_to buckets p x (some bucket) = ok (set buckets p (bucket ++ (x ∷ [])))

-- `buckets[p].push((idx, record))`
abbrev pub push : List (List Numbered) → ℕ → Numbered → Result (List (List Numbered))
push buckets p x = push_to buckets p x (get_elem? buckets p)

-- `positions[input_idx] = …` over `indices.zip(offsets)`
abbrev pub scatter : ℕ → List ℕ → List ℕ → List RecordPosition → List RecordPosition
scatter p [] offsets positions = positions
scatter p (i ∷ indices) [] positions = positions
scatter p (i ∷ indices) (offset ∷ offsets) positions =
    scatter p indices offsets (set positions i (record { partition = p; offset = offset }))

module _ {P D : Type 0} (append : P → Record → Exec D ℕ)
    (append_batch : P → List Record → Exec D (List ℕ)) where
  abbrev pub State : Type 0
  State = Topic P × D

  abbrev on_partition : {A : Type 0} → Exec D A → Exec State A
  on_partition m (t, d) = stored (λ d'. (t, d')) (m d)

  abbrev routed_by : Option Bytes → Topic P → Result ℕ × Topic P
  routed_by (some k) t = (partition_for_key t k, t)
  routed_by none t = next_round_robin t

  unfoldable pub route : Option Bytes → Exec State ℕ
  route key (t, d) = stored (λ t'. (t', d)) (routed_by key t)

  abbrev append_at : ℕ → Record → Option P → Exec State RecordPosition
  append_at p r none = lift (err (invalid_partition_count p))
  append_at p r (some target) = do
    offset ← on_partition (append target r)
    pure (record { partition = p; offset = offset })

  unfoldable pub append_to : ℕ → Record → Exec State RecordPosition
  append_to p r (t, d) = append_at p r (partition t p) (t, d)

  unfoldable pub send_record : Record → Exec State RecordPosition
  unfolding route append_to
  send_record r = do p ← route r.key; append_to p r

  unfoldable pub send : ℕ → Option Bytes → Bytes → Exec State RecordPosition
  unfolding route append_to
  send now key value = do p ← route key; append_to p (new now key value)

  unfoldable pub send_to : ℕ → ℕ → Option Bytes → Bytes → Exec State RecordPosition
  unfolding append_to
  send_to now p key value = append_to p (new now key value)

  -- The records of the input, numbered from `idx` on, into the buckets of their partitions.
  unfoldable pub bucket_all :
      ℕ → List Record → List (List Numbered) → Exec State (List (List Numbered))
  unfolding route
  bucket_all idx [] buckets = pure buckets
  bucket_all idx (r ∷ rs) buckets = do
    p ← route r.key
    pushed ← lift (push buckets p (idx, r))
    bucket_all (idx + 1) rs pushed

  abbrev append_bucket :
      ℕ → List Numbered → Option P → List RecordPosition → Exec State (List RecordPosition)
  append_bucket p bucket none positions = lift panicked
  append_bucket p bucket (some q) positions = do
    offsets ← on_partition (append_batch q (map (λ (x : Numbered). x.1) bucket))
    pure (scatter p (map (λ (x : Numbered). x.0) bucket) offsets positions)

  -- The buckets from partition `p` on; an empty one is passed over.
  unfoldable pub append_buckets :
      ℕ → List (List Numbered) → List RecordPosition → Exec State (List RecordPosition)
  append_buckets p [] positions (t, d) = (ok positions, (t, d))
  append_buckets p ([] ∷ buckets) positions (t, d) = append_buckets (p + 1) buckets positions (t, d)
  append_buckets p ((x ∷ bucket) ∷ buckets) positions (t, d) =
      (do
        after ← append_bucket p (x ∷ bucket) (partition t p) positions
        append_buckets (p + 1) buckets after)
        (t, d)

  unfoldable pub append_batch_routed : List Record → Exec State (List RecordPosition)
  append_batch_routed records (t, d) =
      (do
        buckets ← bucket_all 0 records (replicate (partition_count t) [])
        append_buckets 0 buckets
            (replicate (length records) (record { partition = 0; offset = 0 })))
        (t, d)

  unfoldable pub send_batch_records : List Record → Exec State (List RecordPosition)
  unfolding append_batch_routed
  send_batch_records [] = pure []
  send_batch_records (r ∷ rs) = append_batch_routed (r ∷ rs)

  unfoldable pub send_batch : ℕ → List (Option Bytes × Bytes) → Exec State (List RecordPosition)
  unfolding append_batch_routed
  send_batch now [] = pure []
  send_batch now (item ∷ items) =
      append_batch_routed (map (λ (x : Option Bytes × Bytes). new now x.0 x.1) (item ∷ items))
