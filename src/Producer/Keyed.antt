-- ===== src/Producer/Keyed.antt =====
-- Where producer.rs sends a record with a key.
use kafko.Base.{ℕ, ◌≡◌, refl, Bytes, List, some, length, ◌%◌}
use kafko.Error.{Result, ok, err, panicked, out_of_fuel}
use kafko.Exec.{Exec, continue, stored, pure}
use kafko.Record.{Record}
use kafko.Topic.{Topic, RecordPosition, partition}
use kafko.Topic.Numbers.{fnv1a_64}
use kafko.Topic.Routing.{IsTopic, partition_for_key_lem}
use kafko.Producer.{send_record}

-- The partition's answer with its number.
abbrev pub reported :
    {P D : Type 0} → ℕ → Topic P → Result ℕ × D → Result RecordPosition × (Topic P × D)
reported i t (ok offset, d) = (ok (record { partition = i; offset = offset }), (t, d))
reported i t (err e, d) = (err e, (t, d))
reported i t (panicked, d) = (panicked, (t, d))
reported i t (out_of_fuel, d) = (out_of_fuel, (t, d))

pub record Sent {P D : Type 0} (append : P → Record → Exec D ℕ) (t : Topic P) (r : Record)
    (key : Bytes) (d : D) (out : Result RecordPosition × (Topic P × D)) : Type 0 where
  pub index : ℕ
  pub target : P
  pub residue : index ≡ fnv1a_64 key % length t.partitions
  pub there : partition t index ≡ some target
  pub gives : out ≡ reported index t (append target r d)

answer :
    {P D : Type 0} (i : ℕ) (t : Topic P) (out : Result ℕ × D)
    → continue {S = Topic P × D}
        (stored (λ d'. (t, d')) out)
        (λ offset. pure (record { partition = i; offset = offset }))
      ≡ reported i t out
answer i t (ok offset, d) = refl
answer i t (err e, d) = refl
answer i t (panicked, d) = refl
answer i t (out_of_fuel, d) = refl

-- A record with a key is appended to the partition of the topic that the hash of the key gives
-- modulo the number of partitions, whose number is reported with the offset; the partition's error
-- is passed on, and the round-robin counter stays. The topic has between one and 2^32 - 1
-- partitions.
pub send_record-Sent :
    {P D : Type 0} (append : P → Record → Exec D ℕ)
    (append_batch : P → List Record → Exec D (List ℕ)) (t : Topic P) (timestamp_ms : ℕ)
    (key value : Bytes) (d : D)
    → IsTopic t
    → let r : Record = record { timestamp_ms = timestamp_ms; key = some key; value = value } in
      Sent append t r key d (send_record append append_batch r (t, d))
unfolding send_record
send_record-Sent append append_batch t timestamp_ms key value d h =
    let f = partition_for_key_lem t key h in
    record {
      index = f.index;
      target = f.taken;
      residue = f.residue;
      there = f.there;
      gives =
          rw (f.chosen, f.there)
            (answer f.index t (
              append f.taken (record { timestamp_ms = timestamp_ms; key = some key; value = value })
                d));
    }
