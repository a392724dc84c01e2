-- ===== src/Topic/Layout.antt =====
-- Which partition directories topic.rs accepts, and the topics that `create` and `open` make.
use kafko.Base.{
  ℕ, zero, suc, ◌+◌, ◌%◌, ◌^◌, ◌≤◌, ◌<◌, ◌≡◌, ◌≢◌, ◌⊎◌, inl, inr, refl, sym, ap, ◌∙◌, Bytes, List,
  [], ◌∷◌, ◌++◌, length, arith, Bool-cases, ◌==◌, ==→eq, false,
}
use kafko.Error.{
  ok, err, invalid_topic_layout, invalid_partition_count, no_partition_dirs, not_contiguous,
}
use kafko.Exec.{Exec}
use kafko.Log.{LogConfig}
use kafko.Log.Open.{sort}
use kafko.Topic.{Topic, open_all, create_topic}
use kafko.Topic.Numbers.{numbers_from, check_contiguous, layout}

-- The first number that is not where it should be: `before` comes before it, in order.
pub record IsGap (k : ℕ) (indices : List ℕ) (expected actual : ℕ) : Type 0 where
  pub before : ℕ
  pub rest : List ℕ
  pub split : indices ≡ numbers_from k before ++ (actual ∷ rest)
  pub place : expected ≡ k + before
  pub differs : expected ≢ actual

check_cases :
    (topic : Bytes) (k : ℕ) (indices : List ℕ)
    → k + length indices ≤ 2 ^ 32
    → ((indices ≡ numbers_from k (length indices)) × (check_contiguous topic k indices ≡ ok tt))
      ⊎ ((expected : ℕ) × (actual : ℕ) × IsGap k indices expected actual
          × (check_contiguous topic k indices
              ≡ err (invalid_topic_layout topic (not_contiguous expected actual))))
unfolding check_contiguous
check_cases topic k [] h = inl (refl, refl)
check_cases topic k (i ∷ indices) h =
    let low : k % 2 ^ 32 ≡ k = omega arith in
    elim (Bool-cases (k == i)) [
      | inl e ↦
          let q : k ≡ i = ==→eq k i e in
          elim (check_cases topic (k + 1) indices (omega arith)) [
            | inl (s, c) ↦ inl (ap (λ j. j ∷ indices) (sym q) ∙ ap (λ js. k ∷ js) s, rw (low, e) c)
            | inr (x, a, g, c) ↦ inr (
              x,
              a,
              record {
                before = suc g.before;
                rest = g.rest;
                split = ap (λ j. j ∷ indices) (sym q) ∙ ap (λ js. k ∷ js) g.split;
                place = omega (arith, g.place);
                differs = g.differs;
              },
              rw (low, e) c,
            )
          ]
      | inr e ↦ inr (
        k,
        i,
        record {
          before = 0;
          rest = indices;
          split = refl;
          place = omega arith;
          differs = different e;
        },
        rw (low, e),
      )
    ]
  where
    different : (k == i) ≡ false → k ≢ i
    different e = ground arith

-- What `open` makes of the partition directories' numbers, sorted: none is refused, numbers that
-- run from 0 without a gap are taken, and any others are refused with the first that is out of
-- place. There are at most 2^32 of them.
pub layout_cases :
    (topic : Bytes) (indices : List ℕ)
    → length (sort indices) ≤ 2 ^ 32
    → ((sort indices ≡ [])
        × (layout topic indices ≡ err (invalid_topic_layout topic no_partition_dirs)))
      ⊎ (((0 < length (sort indices))
            × (sort indices ≡ numbers_from 0 (length (sort indices)))
            × (layout topic indices ≡ ok (sort indices)))
          ⊎ ((expected : ℕ) × (actual : ℕ) × IsGap 0 (sort indices) expected actual
              × (layout topic indices
                  ≡ err (invalid_topic_layout topic (not_contiguous expected actual)))))
unfolding layout
layout_cases topic indices h = split (sort indices) refl
  where
    split :
        (is : List ℕ)
        → sort indices ≡ is
        → ((sort indices ≡ [])
            × (layout topic indices ≡ err (invalid_topic_layout topic no_partition_dirs)))
          ⊎ (((0 < length (sort indices))
                × (sort indices ≡ numbers_from 0 (length (sort indices)))
                × (layout topic indices ≡ ok (sort indices)))
              ⊎ ((expected : ℕ) × (actual : ℕ) × IsGap 0 (sort indices) expected actual
                  × (layout topic indices
                      ≡ err (invalid_topic_layout topic (not_contiguous expected actual)))))
    split [] e = inl (e, rw e)
    split (i ∷ is) e = elim (check_cases topic 0 (i ∷ is) (omega (arith, h, ap length e))) [
      | inl (s, c) ↦ inr (inl (omega (arith, ap length e), rw e s, rw (e, c)))
      | inr (x, a, g, c) ↦ inr (inr (x, a, rw e g, rw (e, c)))
    ]

length-numbers_from : (k n : ℕ) → length (numbers_from k n) ≡ n
length-numbers_from k zero = refl
length-numbers_from k (suc n) = ap suc (length-numbers_from (k + 1) n)

module _ {P D : Type 0} (open_partition : ℕ → LogConfig → Exec D P) (config : LogConfig) where
  -- Every partition can be opened, whatever the directories hold by then.
  abbrev pub Opens : Type 0
  Opens = (i : ℕ) (d : D) → (q : P) × (d' : D) × (open_partition i config d ≡ (ok q, d'))

  open_all-Opens :
      (indices : List ℕ) (d : D)
      → Opens
      → (qs : List P) × (d' : D) × (open_all open_partition indices config d ≡ (ok qs, d'))
        × (length qs ≡ length indices)
  unfolding open_all
  open_all-Opens [] d o = ([], d, refl, refl)
  open_all-Opens (i ∷ indices) d o =
      let (q, d1, e) = o i d in
      let (qs, d2, e', l) = open_all-Opens indices d1 o in (q ∷ qs, d2, rw (e, e'), ap suc l)

  -- `create` refuses zero partitions without touching the directory, and otherwise, where every
  -- partition can be opened, makes a topic of as many partitions as asked for, whose next keyless
  -- record goes to partition 0.
  pub create_topic-Opens :
      (name : Bytes) (n : ℕ) (d : D)
      → Opens
      → ((n ≡ 0)
          × (create_topic open_partition name n config d ≡ (err (invalid_partition_count 0), d)))
        ⊎ ((0 < n)
            × ((t : Topic P) × (d' : D) × (create_topic open_partition name n config d ≡ (ok t, d'))
                × (length t.partitions ≡ n)
                × (t.round_robin ≡ 0)
                × (t.config ≡ config)))
  unfolding create_topic
  create_topic-Opens name zero d o = inl (refl, refl)
  create_topic-Opens name (suc n) d o =
      let (qs, d', e, l) = open_all-Opens (numbers_from 0 (suc n)) d o in
      inr (
        omega arith,
        (
          record { name = name; partitions = qs; config = config; round_robin = 0 },
          d',
          rw (let z : (suc n == 0) ≡ false = ground arith in z, e),
          l ∙ length-numbers_from 0 (suc n),
          refl,
          refl,
        ),
      )
