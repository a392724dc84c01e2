-- ===== src/Producer/Buckets.antt =====
-- The first pass of `append_batch_routed` in producer.rs: which partition each record of a batch goes
-- to, and what the buckets hold.
use kafko.Base.{
  ℕ, zero, suc, ◌+◌, ◌%◌, ◌^◌, ◌<◌, ◌≡◌, refl, ◌∙◌, Bytes, List, [], ◌∷◌, ◌++◌, Option, none, some,
  length, get_elem?, set, length-set, append-nil, append_assoc, ◌==◌, if◌then◌else◌, ne→==, eq→==,
  arith,
}
use native.Mathlib.Nat.{mod-lt}
use kafko.Error.{ok}
use kafko.Exec.{Exec}
use kafko.Record.{Record}
use kafko.Topic.{Topic, next_round_robin}
use kafko.Topic.Numbers.{fnv1a_64}
use kafko.Topic.Routing.{IsTopic, partition_for_key_lem, next_round_robin_lem, in_range}
use kafko.Producer.{Numbered, route, bucket_all}

-- The partition of a record, of `n` partitions and with the counter at `counter`, and the counter
-- behind it.
abbrev pub index : ℕ → ℕ → Option Bytes → ℕ
index n counter (some k) = fnv1a_64 k % n
index n counter none = counter % n

abbrev pub turned : ℕ → Option Bytes → ℕ
turned counter (some k) = counter
turned counter none = (counter + 1) % 2 ^ 64

-- The partitions of the records of a batch, in order, and the counter behind the batch.
abbrev pub routes : ℕ → ℕ → List Record → List ℕ
routes n counter [] = []
routes n counter (r ∷ rs) = index n counter r.key ∷ routes n (turned counter r.key) rs

abbrev pub all_turned : ℕ → List Record → ℕ
all_turned counter [] = counter
all_turned counter (r ∷ rs) = all_turned (turned counter r.key) rs

-- The records of a batch that go to partition `p`, with their places, from `idx` on.
abbrev pub assigned : ℕ → ℕ → List ℕ → List Record → List Numbered
assigned p idx [] rs = []
assigned p idx (q ∷ qs) [] = []
assigned p idx (q ∷ qs) (r ∷ rs) =
    let rest = assigned p (idx + 1) qs rs in if q == p then (idx, r) ∷ rest else rest

-- The buckets from partition `p` on, with what a batch adds to them.
abbrev pub filled : ℕ → List (List Numbered) → ℕ → List ℕ → List Record → List (List Numbered)
filled p [] idx qs rs = []
filled p (b ∷ bs) idx qs rs = (b ++ assigned p idx qs rs) ∷ filled (p + 1) bs idx qs rs

filled-nil : (p : ℕ) (bs : List (List Numbered)) (idx : ℕ) → filled p bs idx [] [] ≡ bs
filled-nil p [] idx = refl
filled-nil p (b ∷ bs) idx = rw (append-nil b, filled-nil (p + 1) bs idx)

filled_before :
    (p : ℕ) (bs : List (List Numbered)) (idx q : ℕ) (qs : List ℕ) (r : Record) (rs : List Record)
    → q < p
    → filled p bs idx (q ∷ qs) (r ∷ rs) ≡ filled p bs (idx + 1) qs rs
filled_before p [] idx q qs r rs h = refl
filled_before p (b ∷ bs) idx q qs r rs h =
    rw (ne→== q p (omega arith), filled_before (p + 1) bs idx q qs r rs (omega arith))

-- A record pushed to its bucket is the first that the rest of the batch adds.
filled-set :
    (p j : ℕ) (bs : List (List Numbered)) (b : List Numbered) (idx : ℕ) (qs : List ℕ) (r : Record)
    (rs : List Record)
    → get_elem? bs j ≡ some b
    → filled p (set bs j (b ++ ((idx, r) ∷ []))) (idx + 1) qs rs
      ≡ filled p bs idx ((p + j) ∷ qs) (r ∷ rs)
filled-set p j [] b idx qs r rs h = absurd cc
filled-set p zero (c ∷ bs) b idx qs r rs h =
    let same : c ≡ b = cc in
    rw (
      same,
      eq→== (p + 0) p (omega arith),
      append_assoc b ((idx, r) ∷ []) (assigned p (idx + 1) qs rs),
      filled_before (p + 1) bs idx (p + 0) qs r rs (omega arith),
    )
filled-set p (suc j) (c ∷ bs) b idx qs r rs h =
    let e : p + 1 + j ≡ p + suc j = omega arith in
    rw (ne→== (p + suc j) p (omega arith), filled-set (p + 1) j bs b idx qs r rs h, e)

pub index_lt : (n counter : ℕ) (key : Option Bytes) → 0 < n → index n counter key < n
index_lt n counter (some k) h = mod-lt (fnv1a_64 k) h
index_lt n counter none h = mod-lt counter h

pub turned_lt : (counter : ℕ) (key : Option Bytes) → counter < 2 ^ 64 → turned counter key < 2 ^ 64
turned_lt counter (some k) h = h
turned_lt counter none h = omega arith

pub zero_add : (k : ℕ) → 0 + k ≡ k
zero_add k = omega arith

module _ {P D : Type 0} (append : P → Record → Exec D ℕ)
    (append_batch : P → List Record → Exec D (List ℕ)) where
  pub route_lem :
      (key : Option Bytes) (t : Topic P) (d : D)
      → IsTopic t
      → t.round_robin < 2 ^ 64
      → route append append_batch key (t, d) ≡ (
        ok (index (length t.partitions) t.round_robin key),
        (record t { round_robin = turned t.round_robin key }, d),
      )
  unfolding route next_round_robin
  route_lem (some k) t d h b = let f = partition_for_key_lem t k h in rw (f.chosen, f.residue)
  route_lem none t d h b =
      let f = next_round_robin_lem t 0 h b in
      let e : (t.round_robin + 0) % 2 ^ 64 ≡ t.round_robin = omega (arith, b) in
      rw (f.chosen, f.residue, e)

  -- What the first pass leaves: each record in the bucket of its partition, with its place, in order.
  pub bucket_all_lem :
      (idx : ℕ) (rs : List Record) (buckets : List (List Numbered)) (t : Topic P) (d : D)
      → IsTopic t
      → t.round_robin < 2 ^ 64
      → length buckets ≡ length t.partitions
      → bucket_all append append_batch idx rs buckets (t, d) ≡ (
        ok (filled 0 buckets idx (routes (length t.partitions) t.round_robin rs) rs),
        (record t { round_robin = all_turned t.round_robin rs }, d),
      )
  unfolding bucket_all
  bucket_all_lem idx [] buckets t d h b e = rw (filled-nil 0 buckets idx)
  bucket_all_lem idx (r ∷ rs) buckets t d h b e =
      let c : ℕ = turned t.round_robin r.key in
      let p : ℕ = index (length t.partitions) t.round_robin r.key in
      let (bucket, g) =
        in_range buckets p
          (omega (arith, index_lt (length t.partitions) t.round_robin r.key h.0)) in
      rw (
        route_lem r.key t d h b,
        g,
        bucket_all_lem (idx + 1) rs (set buckets p (bucket ++ ((idx, r) ∷ [])))
            (record t { round_robin = c }) d h (turned_lt t.round_robin r.key b)
            (length-set buckets p (bucket ++ ((idx, r) ∷ [])) ∙ e),
        filled-set 0 p buckets bucket idx (routes (length t.partitions) c rs) r rs g,
        zero_add p,
      )
