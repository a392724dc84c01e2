-- ===== src/Producer/Batch.antt =====
-- The second pass of `append_batch_routed` in producer.rs, over partitions that hold lists of records,
-- and where a batch ends up.
use kafko.Base.{
  ℕ, zero, suc, ◌+◌, ◌≤◌, ◌<◌, ◌≡◌, ◌≢◌, ◌⊎◌, inl, inr, refl, sym, ap, ◌∙◌, List, [], ◌∷◌, ◌++◌,
  some, length, get_elem?, append-nil, arith,
}
use kafko.Error.{Result, ok}
use kafko.Exec.{Exec}
use kafko.Record.{Record}
use kafko.Log.Scan.{offsets_from}
use kafko.Topic.Routing.{in_range}
use kafko.Topic.{Topic, RecordPosition, partition}
use kafko.Producer.{Numbered, scatter, append_buckets}
use kafko.Producer.Positions.{
  Placed, AllPlaced, SomeListed, records_of, places_of, scatter_lem, length-scatter,
}

-- A partition that appended records behind the others, answering their offsets, and left the other
-- partitions alone. `held` lists what each partition holds, and `Good` is what stays true of them.
pub record Appended {D : Type 0} (Good : D → Type 0) (held : D → ℕ → List Record) (i : ℕ)
    (rs : List Record) (d : D) (out : Result (List ℕ) × D) : Type 0 where
  pub after : D
  pub good : Good after
  pub gives : out ≡ (ok (offsets_from (length (held d i)) rs), after)
  pub here : held after i ≡ held d i ++ rs
  pub others : (j : ℕ) → j ≢ i → held after j ≡ held d j

-- In a state that is `Good`, a partition appends a batch that `Fits`.
abbrev pub Appends :
    {P D : Type 0}
    → (P → List Record → Exec D (List ℕ))
    → List P
    → (D → Type 0)
    → (List Record → Type 0)
    → (D → ℕ → List Record)
    → Type 0
Appends {P = P} {D = D} append_batch partitions Good Fits held =
    (i : ℕ) (q : P) (rs : List Record) (d : D)
    → Good d
    → Fits rs
    → get_elem? partitions i ≡ some q
    → Appended Good held i rs d (append_batch q rs d)

abbrev pub bucket_at : List (List Numbered) → ℕ → List Numbered
bucket_at [] k = []
bucket_at (b ∷ bs) zero = b
bucket_at (b ∷ bs) (suc k) = bucket_at bs k

-- What is true when the buckets `bs`, from partition `p` on, have been appended.
pub record Spread {D S : Type 0} (Good : D → Type 0) (held : D → ℕ → List Record)
    (target : List RecordPosition) (p : ℕ) (bs : List (List Numbered))
    (positions : List RecordPosition) (d : D) (state : D → S)
    (out : Result (List RecordPosition) × S) : Type 0 where
  pub found : List RecordPosition
  pub after : D
  pub good : Good after
  pub gives : out ≡ (ok found, state after)
  pub long : length found ≡ length target
  pub right :
      (i : ℕ)
      → (get_elem? positions i ≡ get_elem? target i) ⊎ SomeListed i bs
      → get_elem? found i ≡ get_elem? target i
  pub below : (j : ℕ) → j < p → held after j ≡ held d j
  pub above : (k : ℕ) → held after (p + k) ≡ held d (p + k) ++ records_of (bucket_at bs k)

module _ {P D : Type 0} (append : P → Record → Exec D ℕ)
    (append_batch : P → List Record → Exec D (List ℕ)) (Good : D → Type 0)
    (Fits : List Record → Type 0) (held : D → ℕ → List Record) (target : List RecordPosition)
    (next : ℕ → ℕ) where
  abbrev pub Goal : ℕ → List (List Numbered) → List RecordPosition → Topic P → D → Type 0
  Goal p bs positions t d =
      Spread Good held target p bs positions d (λ d'. (t, d'))
        (append_buckets append append_batch p bs positions (t, d))

  skipped :
      (p : ℕ) (bs : List (List Numbered)) (positions : List RecordPosition) (t : Topic P) (d : D)
      → Goal (p + 1) bs positions t d
      → Goal p ([] ∷ bs) positions t d
  unfolding append_buckets
  skipped p bs positions t d s = record {
    found = s.found;
    after = s.after;
    good = s.good;
    gives = s.gives;
    long = s.long;
    right =
        λ i a. s.right i (elim a [ inl e ↦ inl e | inr (inl l) ↦ absurd l | inr (inr l) ↦ inr l ]);
    below = λ j h. s.below j (omega arith);
    above = above;
  }
    where
      above : (k : ℕ) → held s.after (p + k) ≡ held d (p + k) ++ records_of (bucket_at ([] ∷ bs) k)
      above zero = s.below (p + 0) (omega arith) ∙ sym (append-nil (held d (p + 0)))
      above (suc k) = let e : p + suc k ≡ p + 1 + k = omega arith in rw e (s.above k)

  appended :
      (p : ℕ) (x : Numbered) (b : List Numbered) (bs : List (List Numbered))
      (positions : List RecordPosition) (t : Topic P) (d : D) (q : P)
      (f : Appended Good held p (records_of (x ∷ b)) d (append_batch q (records_of (x ∷ b)) d))
      → get_elem? t.partitions p ≡ some q
      → length positions ≡ length target
      → Placed target p (length (held d p)) (x ∷ b)
      → Goal
          (p + 1)
          bs
          (scatter p
            (places_of (x ∷ b))
            (offsets_from (length (held d p)) (records_of (x ∷ b)))
            positions)
          t
          f.after
      → Goal p ((x ∷ b) ∷ bs) positions t d
  unfolding append_buckets partition
  appended p x b bs positions t d q f g e pl s = record {
    found = s.found;
    after = s.after;
    good = s.good;
    gives = rw (g, f.gives) s.gives;
    long = s.long;
    right = λ i a. s.right i (elim a [
      | inl y ↦ inl (scatter_lem target p (length (held d p)) (x ∷ b) positions i e pl (inl y))
      | inr (inl l) ↦
          inl (scatter_lem target p (length (held d p)) (x ∷ b) positions i e pl (inr l))
      | inr (inr l) ↦ inr l
    ]);
    below = λ j h. s.below j (omega arith) ∙ f.others j (λ same. absurd (omega arith));
    above = above;
  }
    where
      above :
          (k : ℕ) → held s.after (p + k) ≡ held d (p + k) ++ records_of (bucket_at ((x ∷ b) ∷ bs) k)
      above zero = let z : p + 0 ≡ p = omega arith in rw z (s.below p (omega arith) ∙ f.here)
      above (suc k) =
          let w : p + suc k ≡ p + 1 + k = omega arith in
          rw w (
            s.above k
            ∙ ap (λ h. h ++ records_of (bucket_at bs k))
                (f.others (p + 1 + k) (λ same. absurd (omega arith))))

  pub spread :
      (p : ℕ) (bs : List (List Numbered)) (positions : List RecordPosition) (t : Topic P) (d : D)
      → Appends append_batch t.partitions Good Fits held
      → Good d
      → ((k : ℕ) → k < length bs → Fits (records_of (bucket_at bs k)))
      → p + length bs ≡ length t.partitions
      → ((k : ℕ) → p ≤ k → length (held d k) ≡ next k)
      → AllPlaced target next p bs
      → length positions ≡ length target
      → Goal p bs positions t d
  unfolding append_buckets
  spread p [] positions t d ap v fits n h pl e = record {
    found = positions;
    after = d;
    good = v;
    gives = refl;
    long = e;
    right = λ i a. elim a [ inl y ↦ y | inr l ↦ absurd l ];
    below = λ j b. refl;
    above = λ k. sym (append-nil (held d (p + k)));
  }
  spread p ([] ∷ bs) positions t d ap v fits n h pl e = skipped p bs positions t d (
      spread (p + 1) bs positions t d ap v (λ k b. fits (suc k) (omega arith)) (omega (arith, n))
        (λ k b. h k (omega arith)) pl.1 e)
  spread p ((x ∷ b) ∷ bs) positions t d ap v fits n h pl e =
      let (q, g) = in_range t.partitions p (omega (arith, n)) in
      let f = ap p q (records_of (x ∷ b)) d v (fits 0 (omega arith)) g in
      let start : length (held d p) ≡ next p = h p (omega arith) in
      appended p x b bs positions t d q f g e (rw start pl.0) (
        spread (p + 1) bs
          (scatter p (places_of (x ∷ b)) (offsets_from (length (held d p)) (records_of (x ∷ b)))
            positions)
          t f.after ap f.good (λ k b'. fits (suc k) (omega arith)) (omega (arith, n))
          (λ k b'. rw (f.others k (λ same. absurd (omega arith))) (h k (omega arith))) pl.1
          (length-scatter p (places_of (x ∷ b))
              (offsets_from (length (held d p)) (records_of (x ∷ b))) positions
            ∙ e))
