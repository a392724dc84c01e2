-- ===== src/Consumer/Scan.antt =====
-- One pass of consumer.rs over the partitions.
use kafko.Base.{
  ℕ, zero, suc, ◌+◌, ◌%◌, ◌≤◌, ◌<◌, ◌≡◌, ◌⊎◌, inl, inr, refl, ◌∙◌, List, Option, none, some, length,
  get_elem?, set, arith, Option-cases,
}
use native.Mathlib.Nat.{mod-lt}
use kafko.Error.{Result, ok}
use kafko.Exec.{Exec}
use kafko.Record.{Record}
use kafko.Topic.Routing.{in_range}
use kafko.Consumer.{Consumer, Item, scan, try_take_next}

-- In a state that is `Good`, the partitions hold the lists of records `contents`: a read answers the
-- record at the cursor and may change the state, which stays `Good`.
abbrev pub Reads :
    {D : Type 0} → (ℕ → ℕ → Exec D (Option Record)) → (ℕ → List Record) → (D → Type 0) → Type 0
Reads {D = D} read contents Good =
    (p cursor : ℕ) (d : D)
    → Good d
    → (d' : D) × Good d' × (read p cursor d ≡ (ok (get_elem? (contents p) cursor), d'))

-- The record that a pass takes: the one at the cursor of its partition, whose cursor moves past it.
pub record Taken {D : Type 0} (contents : ℕ → List Record) (Good : D → Type 0) (c : Consumer)
    (n i : ℕ) (out : Result (Option Item) × (Consumer × D)) : Type 0 where
  pub round : ℕ
  pub cursor : ℕ
  pub rec : Record
  pub from : i ≤ round
  pub at : get_elem? c.cursors ((c.scan_start + round) % n) ≡ some cursor
  pub there : get_elem? (contents ((c.scan_start + round) % n)) cursor ≡ some rec
  pub first :
      (k cur : ℕ)
      → i ≤ k
      → k < round
      → get_elem? c.cursors ((c.scan_start + k) % n) ≡ some cur
      → get_elem? (contents ((c.scan_start + k) % n)) cur ≡ none
  pub after : D
  pub good : Good after
  pub gives : out ≡ (
    ok (some (record { partition = (c.scan_start + round) % n; offset = cursor }, rec)),
    (
      record c {
        cursors = set c.cursors ((c.scan_start + round) % n) (cursor + 1);
        scan_start = ((c.scan_start + round) % n + 1) % n;
      },
      after,
    ),
  )

-- No partition has a record at its cursor, in the rounds from `i` to `i + left`.
pub record CaughtUp {D : Type 0} (contents : ℕ → List Record) (Good : D → Type 0) (c : Consumer)
    (n i left : ℕ) (out : Result (Option Item) × (Consumer × D)) : Type 0 where
  pub empty :
      (k cur : ℕ)
      → i ≤ k
      → k < i + left
      → get_elem? c.cursors ((c.scan_start + k) % n) ≡ some cur
      → get_elem? (contents ((c.scan_start + k) % n)) cur ≡ none
  pub after : D
  pub good : Good after
  pub gives : out ≡ (ok none, (c, after))

module _ {D : Type 0} (read : ℕ → ℕ → Exec D (Option Record)) (contents : ℕ → List Record)
    (Good : D → Type 0) (c : Consumer) (reads : Reads read contents Good)
    (some_partition : 0 < length c.cursors) where
  abbrev n : ℕ
  n = length c.cursors

  abbrev Outcome : ℕ → ℕ → D → Type 0
  Outcome i left d =
      Taken contents Good c n i (scan read c n i left d)
      ⊎ CaughtUp contents Good c n i left (scan read c n i left d)

  empty_at :
      (i cursor : ℕ)
      → get_elem? c.cursors ((c.scan_start + i) % n) ≡ some cursor
      → get_elem? (contents ((c.scan_start + i) % n)) cursor ≡ none
      → (k cur : ℕ) → k ≡ i
      → get_elem? c.cursors ((c.scan_start + k) % n) ≡ some cur
      → get_elem? (contents ((c.scan_start + k) % n)) cur ≡ none
  empty_at i cursor g e k cur q h =
      let h' : get_elem? c.cursors ((c.scan_start + i) % n) ≡ some cur = rw (← q) h in
      let same : cursor ≡ cur = cc in rw (q, ← same) e

  abbrev at_round : ℕ → ℕ
  at_round i = (c.scan_start + i) % n

  step_none :
      (left i cursor : ℕ) (d d' : D)
      → read (at_round i) cursor d ≡ (ok (get_elem? (contents (at_round i)) cursor), d')
      → get_elem? c.cursors (at_round i) ≡ some cursor
      → get_elem? (contents (at_round i)) cursor ≡ none
      → scan read c n i (suc left) d ≡ scan read c n (i + 1) left d'
  unfolding scan
  step_none left i cursor d d' q g e = rw (g, q, e)

  step_some :
      (left i cursor : ℕ) (r : Record) (d d' : D)
      → read (at_round i) cursor d ≡ (ok (get_elem? (contents (at_round i)) cursor), d')
      → get_elem? c.cursors (at_round i) ≡ some cursor
      → get_elem? (contents (at_round i)) cursor ≡ some r
      → scan read c n i (suc left) d ≡ (
        ok (some (record { partition = at_round i; offset = cursor }, r)),
        (
          record c {
            cursors = set c.cursors (at_round i) (cursor + 1);
            scan_start = (at_round i + 1) % n;
          },
          d',
        ),
      )
  unfolding scan
  step_some left i cursor r d d' q g e = rw (g, q, e)

  earlier :
      (i cursor m : ℕ)
      → get_elem? c.cursors (at_round i) ≡ some cursor
      → get_elem? (contents (at_round i)) cursor ≡ none
      → ((k cur : ℕ)
          → i + 1 ≤ k
          → k < m
          → get_elem? c.cursors (at_round k) ≡ some cur
          → get_elem? (contents (at_round k)) cur ≡ none)
      → (k cur : ℕ) → i ≤ k
      → k < m
      → get_elem? c.cursors (at_round k) ≡ some cur
      → get_elem? (contents (at_round k)) cur ≡ none
  earlier i cursor m g e f k cur a b h = elim (split i k a) [
    | inl q ↦ empty_at i cursor g e k cur q h
    | inr l ↦ f k cur l b h
  ]
    where
      split : (i k : ℕ) → i ≤ k → (k ≡ i) ⊎ (i + 1 ≤ k)
      split i k a = ground arith

  scan_cases : (left i : ℕ) (d : D) → Good d → Outcome i left d
  unfolding scan
  scan_cases zero i d v =
      inr
        (record { empty = λ k cur a b h. absurd (omega arith); after = d; good = v; gives = refl })
  scan_cases (suc left) i d v =
      let (cursor, g) = in_range c.cursors (at_round i) (mod-lt _ some_partition) in
      let (d', v', q) = reads (at_round i) cursor d v in
      elim (Option-cases (get_elem? (contents (at_round i)) cursor)) [
        | inl e ↦ elim (scan_cases left (i + 1) d' v') [
          | inl t ↦ inl (record {
            round = t.round;
            cursor = t.cursor;
            rec = t.rec;
            from = omega (arith, t.from);
            at = t.at;
            there = t.there;
            first = earlier i cursor t.round g e t.first;
            after = t.after;
            good = t.good;
            gives = step_none left i cursor d d' q g e ∙ t.gives;
          })
          | inr t ↦ inr (record {
            empty =
                earlier i cursor (i + suc left) g e
                  (λ k cur a b h. t.empty k cur a (omega arith) h);
            after = t.after;
            good = t.good;
            gives = step_none left i cursor d d' q g e ∙ t.gives;
          })
        ]
        | inr (r, e) ↦ inl (record {
          round = i;
          cursor = cursor;
          rec = r;
          from = omega arith;
          at = g;
          there = e;
          first = λ k cur a b h. absurd (omega arith);
          after = d';
          good = v';
          gives = step_some left i cursor r d d' q g e;
        })
      ]

  -- A pass over partitions that hold the records `contents`, of which a read answers the one at the
  -- cursor and leaves what they hold, with one partition at least: either it takes the record at the cursor of the first partition, from
  -- `scan_start` on, that has one, moves that cursor past it and starts the next pass behind that
  -- partition; or no partition of the pass has a record at its cursor, and the consumer stays as it
  -- is. The partitions hold the same records afterwards.
  pub try_take_next_lem :
      (d : D)
      → Good d
      → Taken contents Good c n 0 (try_take_next read (c, d))
        ⊎ CaughtUp contents Good c n 0 n (try_take_next read (c, d))
  unfolding try_take_next
  try_take_next_lem d v = scan_cases n 0 d v
