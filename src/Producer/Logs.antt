-- ===== src/Producer/Logs.antt =====
-- The logs of log.rs as the partitions of producer.rs and consumer.rs: each partition is known by its
-- number and keeps its log on a disk of its own, without failures.
use kafko.Base.{
  ℕ, zero, suc, ◌+◌, ◌-◌, ◌^◌, ◌≤◌, ◌<◌, ◌≡◌, ◌≢◌, refl, sym, ap, ◌∙◌, List, [], ◌∷◌, ◌++◌, Bytes,
  Option, some, length, drop, drop_all, drop-get_elem?, get_elem?, ◌==◌, if◌then◌else◌, ==_refl,
  ne→==, Bool-cases, ==→eq, inl, inr, All, arith, true, false, ltb,
}
use mathlib.Core.Path.{subst}
use kafko.Error.{Result, ok}
use kafko.Exec.{Exec}
use kafko.Disk.{Disk}
use kafko.Compression.{Platform, IsLawful, is_available}
use kafko.Record.{Record}
use kafko.Log.{Log, LogConfig, append, append_batch, read_record_at}
use kafko.Log.Content.{content, Represents}
use kafko.Log.Append.{append-Represents, next_offset-Represents}
use kafko.Log.Batch.{IsEncoded, batch_records, stored_batch, append_batch-Represents}
use kafko.Log.Scan.{offsets_from}
use kafko.Log.Find.{read_record_at-Represents}
use kafko.Topic.Routing.{in_range}
use kafko.Producer.Batch.{Appends}
use kafko.Producer.OneByOne.{AppendsOne}
use kafko.Consumer.Scan.{Reads}

-- The partitions by their numbers.
abbrev pub Logs : Type 0
Logs = ℕ → Log × Disk

abbrev pub with_log : ℕ → Log × Disk → Logs → Logs
with_log q s d p = if p == q then s else d p

with_log_here : (q : ℕ) (s : Log × Disk) (d : Logs) → with_log q s d q ≡ s
with_log_here q s d = rw (==_refl q)

with_log_other : (q j : ℕ) (s : Log × Disk) (d : Logs) → j ≢ q → with_log q s d j ≡ d j
with_log_other q j s d h = rw (ne→== j q h)

abbrev put_back : {A : Type 0} → ℕ → Logs → Result A × (Log × Disk) → Result A × Logs
put_back q d (r, s) = (r, with_log q s d)

not_below : (n : ℕ) → ltb n 0 ≡ false
not_below n = ground arith

module _ (p : Platform) where
  abbrev pub append_to_log : ℕ → Record → Exec Logs ℕ
  append_to_log q r d = put_back q d (append p r (d q))

  abbrev pub append_batch_to_log : ℕ → List Record → Exec Logs (List ℕ)
  append_batch_to_log q rs d = put_back q d (append_batch p rs (d q))

  abbrev pub read_log : ℕ → ℕ → Exec Logs (Option Record)
  read_log q offset d = put_back q d (read_record_at p offset (d q))

  abbrev kept : Result (Option Record) → List Record → List Record
  kept (ok (some r)) rs = r ∷ rs
  kept other rs = rs

  -- What `n` reads of a log, from the offset `from` on, give.
  abbrev readable : Log × Disk → ℕ → ℕ → List Record
  readable s from zero = []
  readable s from (suc n) = kept (read_record_at p from s).0 (readable s (from + 1) n)

  -- What a partition holds: what can be read of its log.
  abbrev pub held : Logs → ℕ → List Record
  held d q = readable (d q) 0 (d q).0.next_offset

  readable-Represents :
      (s : Log × Disk) (rs : List Record) (n from : ℕ)
      → Represents p s.0 s.1 0 rs
      → from + n ≡ length rs
      → readable s from n ≡ drop from rs
  readable-Represents s rs zero from rep e = sym (drop_all from rs (omega (arith, e)))
  readable-Represents s rs (suc n) from rep e =
      let (s', q, rep') = read_record_at-Represents p s.0 s.1 0 rs from rep in
      let (r, g) = in_range rs from (omega (arith, e)) in
      let at : from - 0 ≡ from = omega arith in
      rw
        (
          q,
          not_below from,
          at,
          g,
          readable-Represents s rs n (from + 1) rep (omega (arith, e)),
          drop-get_elem? rs from r g,
        )
        refl

  held-Represents :
      (s : Log × Disk) (rs : List Record)
      → Represents p s.0 s.1 0 rs
      → readable s 0 s.0.next_offset ≡ rs
  held-Represents s rs rep =
      readable-Represents s rs s.0.next_offset 0 rep
        (omega (arith, next_offset-Represents p s.0 s.1 0 rs rep))

  module _ (config : LogConfig) where
    -- A log that holds records from the offset 0 on.
    abbrev pub IsHolding : Log × Disk → Type 0
    IsHolding s = (rs : List Record) × Represents p s.0 s.1 0 rs × (s.0.config ≡ config)

    abbrev pub AllHolding : Logs → Type 0
    AllHolding d = (q : ℕ) → IsHolding (d q)

    -- Records that a log of the configuration can store as one batch.
    abbrev pub IsStorable : List Record → Type 0
    IsStorable rs =
        (bs : List (Record × Bytes)) × (batch_records bs ≡ rs)
        × All (IsEncoded p config.compression) bs
        × (config.segment_size_threshold + length (content (stored_batch p config.compression bs))
            ≤ 2 ^ 32)

    with_log-AllHolding :
        (q : ℕ) (s : Log × Disk) (d : Logs)
        → IsHolding s
        → AllHolding d
        → AllHolding (with_log q s d)
    with_log-AllHolding q s d h v j = elim (Bool-cases (j == q)) [
      | inl y ↦ rw y h
      | inr y ↦ rw y (v j)
    ]

    with_log-held_other :
        (q j : ℕ) (s : Log × Disk) (d : Logs) → j ≢ q → held (with_log q s d) j ≡ held d j
    with_log-held_other q j s d h =
        ap (λ (u : Log × Disk). readable u 0 u.0.next_offset) (with_log_other q j s d h)

    with_log-held_here :
        (q : ℕ) (s : Log × Disk) (d : Logs) (rs : List Record)
        → Represents p s.0 s.1 0 rs
        → held (with_log q s d) q ≡ rs
    with_log-held_here q s d rs rep =
        ap (λ (u : Log × Disk). readable u 0 u.0.next_offset) (with_log_here q s d)
        ∙ held-Represents s rs rep

    module _ (w : IsLawful p) (a : is_available p config.compression ≡ true) where
      batch_into :
          (s : Log × Disk) (rs us : List Record)
          → Represents p s.0 s.1 0 rs
          → s.0.config ≡ config
          → IsStorable us
          → (s' : Log × Disk) × (append_batch p us s ≡ (ok (offsets_from (length rs) us), s'))
            × Represents p s'.0 s'.1 0 (rs ++ us)
            × (s'.0.config ≡ config)
      batch_into s rs us rep c (bs, e, all, room) =
          let (s', q, rep', c') =
            append_batch-Represents p s.0 s.1 0 rs bs w rep
              (subst (λ k. is_available p k.compression ≡ true) (sym c) a)
              (subst (λ k. All (IsEncoded p k.compression) bs) (sym c) all)
              (subst
                (λ k.
                  k.segment_size_threshold + length (content (stored_batch p k.compression bs))
                  ≤ 2 ^ 32)
                (sym c) room) in
          (
            s',
            subst (λ xs. append_batch p xs s ≡ (ok (offsets_from (length rs) xs), s')) e
                (q ∙ ap (λ (k : ℕ). (ok (offsets_from k (batch_records bs)), s')) (omega arith)),
            subst (λ xs. Represents p s'.0 s'.1 0 (rs ++ xs)) e rep',
            c' ∙ c,
          )

      -- The logs append batches as the partitions of the producer are to.
      pub append_batch_to_log-Appends :
          (partitions : List ℕ)
          → ((i q : ℕ) → get_elem? partitions i ≡ some q → i ≡ q)
          → Appends append_batch_to_log partitions AllHolding IsStorable held
      append_batch_to_log-Appends partitions own i q us d v f g =
          let same = own i q g in
          let (rs, rep, c) = v i in
          let (s', e, rep', c') = batch_into (d i) rs us rep c f in
          let holds : held d i ≡ rs = held-Represents (d i) rs rep in
          record {
            after = with_log i s' d;
            good = with_log-AllHolding i s' d (rs ++ us, rep', c') v;
            gives = rw (← same, holds, e);
            here = with_log-held_here i s' d (rs ++ us) rep' ∙ ap (λ xs. xs ++ us) (sym holds);
            others = λ j h. with_log-held_other i j s' d h;
          }

      one_into :
          (s : Log × Disk) (rs : List Record) (r : Record)
          → Represents p s.0 s.1 0 rs
          → s.0.config ≡ config
          → config.segment_size_threshold < 2 ^ 32
          → IsStorable (r ∷ [])
          → (s' : Log × Disk) × (append p r s ≡ (ok (length rs), s'))
            × Represents p s'.0 s'.1 0 (rs ++ (r ∷ []))
            × (s'.0.config ≡ config)
      one_into s rs r rep c t ([], e, all, room) = absurd cc
      one_into s rs r rep c t (b ∷ (b' ∷ bs), e, all, room) = absurd cc
      one_into s rs r rep c t (b ∷ [], e, all, room) =
          let same : b.0 ≡ r = cc in
          let (s', q, rep', c') =
            append-Represents p s.0 s.1 0 rs b.0 b.1 w rep (rw c t) (rw c a) all.0.within
              (rw c (all.0.coded)) all.0.fits in
          (
            s',
            subst (λ x. append p x s ≡ (ok (length rs), s')) same
                (q ∙ ap (λ (k : ℕ). (ok k, s')) (omega arith)),
            subst (λ x. Represents p s'.0 s'.1 0 (rs ++ (x ∷ []))) same rep',
            c' ∙ c,
          )

      pub append_to_log-AppendsOne :
          (partitions : List ℕ)
          → config.segment_size_threshold < 2 ^ 32
          → ((i q : ℕ) → get_elem? partitions i ≡ some q → i ≡ q)
          → AppendsOne append_to_log partitions AllHolding IsStorable held
      append_to_log-AppendsOne partitions t own i q r d v f g =
          let same = own i q g in
          let (rs, rep, c) = v i in
          let (s', e, rep', c') = one_into (d i) rs r rep c t f in
          let holds : held d i ≡ rs = held-Represents (d i) rs rep in
          record {
            after = with_log i s' d;
            good = with_log-AllHolding i s' d (rs ++ (r ∷ []), rep', c') v;
            gives = rw (← same, holds, e);
            here =
                with_log-held_here i s' d (rs ++ (r ∷ [])) rep'
                ∙ ap (λ xs. xs ++ (r ∷ [])) (sym holds);
            others = λ j h. with_log-held_other i j s' d h;
          }

  -- The logs hold the records `contents`.
  abbrev pub Holds : (ℕ → List Record) → Logs → Type 0
  Holds contents d = (q : ℕ) → Represents p (d q).0 (d q).1 0 (contents q)

  with_log-Holds :
      (contents : ℕ → List Record) (q : ℕ) (s : Log × Disk) (d : Logs)
      → Represents p s.0 s.1 0 (contents q)
      → Holds contents d
      → Holds contents (with_log q s d)
  with_log-Holds contents q s d h v j = elim (Bool-cases (j == q)) [
    | inl y ↦
        let same : q ≡ j = sym (==→eq j q y) in
        let h' : Represents p s.0 s.1 0 (contents j) =
          subst (λ k. Represents p s.0 s.1 0 (contents k)) same h in
        rw y h'
    | inr y ↦ rw y (v j)
  ]

  -- They answer the reads of the consumer as its partitions are to.
  pub read_log-Reads : (contents : ℕ → List Record) → Reads read_log contents (Holds contents)
  read_log-Reads contents q cursor d v =
      let (s', e, rep) = read_record_at-Represents p (d q).0 (d q).1 0 (contents q) cursor (v q) in
      let at : cursor - 0 ≡ cursor = omega arith in
      (with_log q s' d, with_log-Holds contents q s' d rep v, rw (e, not_below cursor, at))
