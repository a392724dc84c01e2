-- ===== src/Topic/Routing.antt =====
-- Where topic.rs sends a record: always to a partition that the topic has.
use kafko.Base.{
  ℕ, zero, suc, ◌+◌, ◌%◌, ◌^◌, ◌<◌, ◌≡◌, refl, sym, ap, ◌∙◌, Bytes, List, [], ◌∷◌, some, length,
  get_elem?, arith,
}
use native.Mathlib.Nat.{mod-lt}
use kafko.Error.{Result, ok}
use kafko.Topic.{Topic, partition_count, partition, partition_for_key, next_round_robin}
use kafko.Topic.Numbers.{pick, fnv1a_64}

-- A topic as `create` and `open` make it.
abbrev pub IsTopic : {P : Type 0} → Topic P → Type 0
IsTopic t = (0 < length t.partitions) × (length t.partitions < 2 ^ 32)

pub in_range {ℓ} :
    {A : Type ℓ} (xs : List A) (i : ℕ) → i < length xs → (x : A) × (get_elem? xs i ≡ some x)
in_range [] i h = absurd (omega arith)
in_range (x ∷ xs) zero h = (x, refl)
in_range (x ∷ xs) (suc i) h = in_range xs i (omega arith)

pick_lem : (n m : ℕ) → 0 < m → m < 2 ^ 32 → (pick n m ≡ ok (n % m)) × (n % m < m)
unfolding pick
pick_lem n zero h b = absurd (omega arith)
pick_lem n (suc m) h b =
    let l : n % suc m < suc m = mod-lt n h in
    let low : n % suc m < 2 ^ 32 = omega arith in
    let e : n % suc m % 2 ^ 32 ≡ n % suc m = omega arith in (rw e, l)

-- The number that a choice gives, and the partition that has it.
pub record Chosen {P : Type 0} (t : Topic P) (r : Result ℕ) (n : ℕ) : Type 0 where
  pub index : ℕ
  pub taken : P
  pub chosen : r ≡ ok index
  pub residue : index ≡ n % length t.partitions
  pub there : partition t index ≡ some taken

choose : {P : Type 0} (t : Topic P) (n : ℕ) → IsTopic t → Chosen t (pick n (partition_count t)) n
unfolding partition_count partition
choose t n h =
    let m : length t.partitions % 2 ^ 32 ≡ length t.partitions = omega (arith, h.1) in
    let (e, l) = pick_lem n (length t.partitions) h.0 h.1 in
    let (q, g) = in_range t.partitions (n % length t.partitions) l in
    record {
      index = n % length t.partitions;
      taken = q;
      chosen = rw (m, e);
      residue = refl;
      there = g;
    }

-- A keyed record goes to a partition of the topic, the one that the hash of the key gives modulo the
-- number of partitions. The topic has between one and 2^32 - 1 partitions.
pub partition_for_key_lem :
    {P : Type 0} (t : Topic P) (key : Bytes)
    → IsTopic t
    → Chosen t (partition_for_key t key) (fnv1a_64 key)
unfolding partition_for_key
partition_for_key_lem t key h = choose t (fnv1a_64 key) h

-- The topic after `n` sends without a key.
abbrev pub after_sends : {P : Type 0} → ℕ → Topic P → Topic P
after_sends zero t = t
after_sends (suc n) t = after_sends n (next_round_robin t).1

after_sends_lem :
    {P : Type 0} (n : ℕ) (t : Topic P)
    → t.round_robin < 2 ^ 64
    → after_sends n t ≡ record t { round_robin = (t.round_robin + n) % 2 ^ 64 }
unfolding next_round_robin
after_sends_lem zero t h =
    let e : (t.round_robin + 0) % 2 ^ 64 ≡ t.round_robin = omega arith in
    ap (λ k. record t { round_robin = k }) (sym e)
after_sends_lem (suc n) t h =
    let k : ℕ = (t.round_robin + 1) % 2 ^ 64 in
    let e : (k + n) % 2 ^ 64 ≡ (t.round_robin + suc n) % 2 ^ 64 = omega arith in
    after_sends_lem n (record t { round_robin = k }) (omega arith)
    ∙ ap (λ j. record t { round_robin = j }) e

-- Of consecutive sends without a key, the one after `n` others goes to a partition of the topic, the
-- counter's start plus `n` modulo the number of partitions; the counter wraps at 2^64. The topic
-- has between one and 2^32 - 1 partitions and the counter is a 64-bit number.
pub next_round_robin_lem :
    {P : Type 0} (t : Topic P) (n : ℕ)
    → IsTopic t
    → t.round_robin < 2 ^ 64
    → Chosen t (next_round_robin (after_sends n t)).0 ((t.round_robin + n) % 2 ^ 64)
unfolding next_round_robin partition_count
next_round_robin_lem t n h b =
    rw (after_sends_lem n t b) (choose t ((t.round_robin + n) % 2 ^ 64) h)
