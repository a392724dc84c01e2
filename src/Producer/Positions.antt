-- ===== src/Producer/Positions.antt =====
-- The positions that `append_batch_routed` in producer.rs gives the records of a batch.
use kafko.Base.{
  get_elem?→lt, ℕ, suc, ◌+◌, ◌≡◌, ◌⊎◌, inl, inr, refl, sym, ap, ◌∙◌, List, [], ◌∷◌, some, length,
  get_elem?, set, map, length-set, ◌==◌, if◌then◌else◌, Bool-cases, ne→==, eq→==, ==→eq,
  get_elem?-set_self, get_elem?-set_ne, arith, ==→ne,
}
use kafko.Record.{Record}
use kafko.Log.Scan.{offsets_from}
use kafko.Topic.{RecordPosition}
use kafko.Producer.{Numbered, scatter}
use kafko.Producer.Buckets.{assigned}

-- The positions of records that go to the partitions `qs`, one behind the other, when `next` gives the
-- next offset of each partition.
abbrev pub bumped : (ℕ → ℕ) → ℕ → ℕ → ℕ
bumped next q j = if j == q then next j + 1 else next j

abbrev pub targets : (ℕ → ℕ) → List ℕ → List RecordPosition
targets next [] = []
targets next (q ∷ qs) = record { partition = q; offset = next q } ∷ targets (bumped next q) qs

-- The records of a batch that go to partition `p`, in order.
abbrev pub sent_to : ℕ → List ℕ → List Record → List Record
sent_to p [] rs = []
sent_to p (q ∷ qs) [] = []
sent_to p (q ∷ qs) (r ∷ rs) = let rest = sent_to p qs rs in if q == p then r ∷ rest else rest

-- The places of a bucket of partition `p` have the positions from `offset` on.
abbrev pub Placed : List RecordPosition → ℕ → ℕ → List Numbered → Type 0
Placed target p offset [] = Unit {0}
Placed target p offset (x ∷ bucket) =
    (get_elem? target x.0 ≡ some (record { partition = p; offset = offset }))
    × Placed target p (offset + 1) bucket

abbrev pub AllPlaced : List RecordPosition → (ℕ → ℕ) → ℕ → List (List Numbered) → Type 0
AllPlaced target next p [] = Unit {0}
AllPlaced target next p (b ∷ bs) = Placed target p (next p) b × AllPlaced target next (p + 1) bs

-- A place that a bucket, or one of some buckets, has.
abbrev pub Listed : ℕ → List Numbered → Type 0
Listed i [] = ⊥
Listed i (x ∷ bucket) = (x.0 ≡ i) ⊎ Listed i bucket

abbrev pub SomeListed : ℕ → List (List Numbered) → Type 0
SomeListed i [] = ⊥
SomeListed i (b ∷ bs) = Listed i b ⊎ SomeListed i bs

pub assigned-Placed :
    (target : List RecordPosition) (next : ℕ → ℕ) (p idx offset : ℕ) (qs : List ℕ)
    (rs : List Record)
    → offset ≡ next p
    → ((j : ℕ) → get_elem? target (idx + j) ≡ get_elem? (targets next qs) j)
    → Placed target p offset (assigned p idx qs rs)
assigned-Placed target next p idx offset [] rs e h = tt
assigned-Placed target next p idx offset (q ∷ qs) [] e h = tt
assigned-Placed target next p idx offset (q ∷ qs) (r ∷ rs) e h = elim (Bool-cases (q == p)) [
  | inl y ↦
      let same : q ≡ p = ==→eq q p y in
      let here : get_elem? target idx ≡ some (record { partition = p; offset = offset }) =
        rw (e, ← same, ← plus_zero idx) (h 0) in
      rw y (
        here,
        assigned-Placed target (bumped next q) p (idx + 1) (offset + 1) qs rs
            (rw (eq→== p q (sym same), e)) (later),
      )
  | inr y ↦ rw y (
      assigned-Placed target (bumped next q) p (idx + 1) offset qs rs
        (rw (ne→== p q (λ same. ==→ne q p y (sym same)), e)) (later))
]
  where
    plus_zero : (k : ℕ) → k + 0 ≡ k
    plus_zero k = omega arith

    later : (j : ℕ) → get_elem? target (idx + 1 + j) ≡ get_elem? (targets (bumped next q) qs) j
    later j =
        ap (get_elem? target) (let w : idx + 1 + j ≡ idx + suc j = omega arith in w) ∙ h (suc j)

abbrev pub records_of : List Numbered → List Record
records_of = map (λ (x : Numbered). x.1)

abbrev pub places_of : List Numbered → List ℕ
places_of = map (λ (x : Numbered). x.0)

pub length-scatter :
    (p : ℕ) (is os : List ℕ) (positions : List RecordPosition)
    → length (scatter p is os positions) ≡ length positions
length-scatter p [] os positions = refl
length-scatter p (i ∷ is) [] positions = refl
length-scatter p (i ∷ is) (o ∷ os) positions =
    length-scatter p is os (set positions i (record { partition = p; offset = o }))
    ∙ length-set positions i (record { partition = p; offset = o })

-- Every place of a bucket, and every place that was right before, has its position afterwards.
pub scatter_lem :
    (target : List RecordPosition) (p offset : ℕ) (bucket : List Numbered)
    (positions : List RecordPosition) (i : ℕ)
    → length positions ≡ length target
    → Placed target p offset bucket
    → (get_elem? positions i ≡ get_elem? target i) ⊎ Listed i bucket
    → get_elem? (scatter p (places_of bucket) (offsets_from offset (records_of bucket)) positions) i
      ≡ get_elem? target i
unfolding offsets_from
scatter_lem target p offset [] positions i e h (inl a) = a
scatter_lem target p offset [] positions i e h (inr l) = absurd l
scatter_lem target p offset (x ∷ bucket) positions i e h a =
    scatter_lem target p (offset + 1) bucket (set positions x.0 v) i
      (length-set positions x.0 v ∙ e) h.1
      (elim (Bool-cases (x.0 == i)) [
        | inl y ↦
            let same : x.0 ≡ i = ==→eq x.0 i y in
            inl (
              rw (← same) (
                get_elem?-set_self positions x.0 v (omega (arith, e, get_elem?→lt target x.0 v h.0))
                ∙ sym h.0))
        | inr y ↦ elim a [
          | inl b ↦ inl (get_elem?-set_ne positions x.0 i v (==→ne x.0 i y) ∙ b)
          | inr (inl same) ↦ absurd (==→ne x.0 i y same)
          | inr (inr l) ↦ inr l
        ]
      ])
  where
    v : RecordPosition
    v = record { partition = p; offset = offset }
