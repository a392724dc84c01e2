-- ===== src/Consumer/Delivery.antt =====
-- Turn after turn of `try_take_next` in consumer.rs: what the consumer delivers of partitions that hold
-- lists of records and get no new ones.
use kafko.Base.{
  ℕ, zero, suc, ◌+◌, ◌-◌, ◌%◌, ◌≤◌, ◌<◌, ◌≡◌, ◌⊎◌, inl, inr, refl, sym, ◌∙◌, List, [], ◌∷◌, Option,
  none, some, length, get_elem?, set, drop, length-set, drop_all, get_elem?-set_self,
  get_elem?-set_ne, get_elem?→lt, get_elem?→le, drop-get_elem?, ◌==◌, if◌then◌else◌, Bool-cases,
  ==→eq, ==→ne, arith,
}
use native.Mathlib.Nat.{mod-lt, mod-eq_of_lt, add-mod_right}
use mathlib.Core.Path.{subst}
use kafko.Error.{Result, ok}
use kafko.Exec.{Exec, ◌>>=◌, pure}
use kafko.Record.{Record}
use kafko.Consumer.{Consumer, Item, State, try_take_next}
use kafko.Consumer.Scan.{Reads, CaughtUp, try_take_next_lem}

-- The items that came from partition `p`.
abbrev pub from_partition : ℕ → List Item → List Item
from_partition p [] = []
from_partition p (x ∷ xs) =
    let rest = from_partition p xs in if x.0.partition == p then x ∷ rest else rest

-- The records `rs` of partition `p`, from `offset` on.
abbrev pub numbered : ℕ → ℕ → List Record → List Item
numbered p offset [] = []
numbered p offset (r ∷ rs) =
    (record { partition = p; offset = offset }, r) ∷ numbered p (offset + 1) rs

-- How many records are at or past the cursors, of the partitions from `p` on.
abbrev pub ahead : (ℕ → List Record) → ℕ → List ℕ → ℕ
ahead contents p [] = 0
ahead contents p (cur ∷ cs) = (length (contents p) - cur) + ahead contents (p + 1) cs

ahead-set :
    (contents : ℕ → List Record) (p j : ℕ) (cs : List ℕ) (cur : ℕ)
    → get_elem? cs j ≡ some cur
    → cur < length (contents (p + j))
    → ahead contents p (set cs j (cur + 1)) + 1 ≡ ahead contents p cs
ahead-set contents p j [] cur g h = absurd cc
ahead-set contents p zero (c ∷ cs) cur g h =
    let same : c ≡ cur = cc in
    let e : p + 0 ≡ p = omega arith in
    let l : cur < length (contents p) = rw (← e) h in rw same (omega arith)
ahead-set contents p (suc j) (c ∷ cs) cur g h =
    let e : p + suc j ≡ p + 1 + j = omega arith in
    omega (arith, ahead-set contents (p + 1) j cs cur g (rw (← e) h))

nothing_ahead :
    (contents : ℕ → List Record) (p : ℕ) (cs : List ℕ)
    → ((j cur : ℕ) → get_elem? cs j ≡ some cur → length (contents (p + j)) ≤ cur)
    → ahead contents p cs ≡ 0
nothing_ahead contents p [] h = refl
nothing_ahead contents p (c ∷ cs) h =
    let e : p + 0 ≡ p = omega arith in
    let l : length (contents p) ≤ c = rw (← e) (h 0 c refl) in
    let rest : ahead contents (p + 1) cs ≡ 0 =
      nothing_ahead contents (p + 1) cs
        (λ j cur g. let f : p + 1 + j ≡ p + suc j = omega arith in rw f (h (suc j) cur g)) in
    omega (arith, rest)

-- Every partition has its turn in a pass of `n` rounds.
round_of : (n s p : ℕ) → s < n → p < n → (k : ℕ) × (k < n) × ((s + k) % n ≡ p)
round_of n s p hs hp = elim (order s p) [
  | inl l ↦ let e : s + (p - s) ≡ p = omega arith in (p - s, omega arith, rw e (mod-eq_of_lt hp))
  | inr l ↦
      let e : s + (p + n - s) ≡ p + n = omega arith in
      (p + n - s, omega arith, rw e (add-mod_right p n ∙ mod-eq_of_lt hp))
]
  where
    order : (s p : ℕ) → (s ≤ p) ⊎ (p < s)
    order s p = ground arith

-- What turns in a row deliver, with the consumer behind them.
pub record Delivers {D : Type 0} (contents : ℕ → List Record) (Good : D → Type 0) (c : Consumer)
    (out : Result (List Item) × (Consumer × D)) : Type 0 where
  pub items : List Item
  pub behind : Consumer
  pub after : D
  pub good : Good after
  pub gives : out ≡ (ok items, (behind, after))
  pub count : length items ≡ ahead contents 0 c.cursors
  pub in_order :
      (p cursor : ℕ)
      → get_elem? c.cursors p ≡ some cursor
      → from_partition p items ≡ numbered p cursor (drop cursor (contents p))
  pub none_left : ahead contents 0 behind.cursors ≡ 0

module _ {D : Type 0} (read : ℕ → ℕ → Exec D (Option Record)) (contents : ℕ → List Record) where
  -- The items of at most `turns` turns, up to the first that finds none.
  abbrev go_on :
      (Item → Exec (State read) (List Item)) → Option Item → Exec (State read) (List Item)
  go_on next none = pure []
  go_on next (some item) = next item

  abbrev pub take_turns : ℕ → Exec (State read) (List Item)
  take_turns zero = pure []
  take_turns (suc turns) = do
    item ← try_take_next read
    go_on (λ i. do items ← take_turns turns; pure (i ∷ items)) item

  module _ (Good : D → Type 0) (reads : Reads read contents Good) where
    stopped :
        (c : Consumer) (d : D) (turns : ℕ)
        → c.scan_start < length c.cursors
        → CaughtUp contents Good c
            (length c.cursors)
            0
            (length c.cursors)
            (try_take_next read (c, d))
        → Delivers contents Good c (take_turns (suc turns) (c, d))
    stopped c d turns h t =
        let past : (p cur : ℕ) → get_elem? c.cursors p ≡ some cur → length (contents p) ≤ cur =
          λ p cur g.
            let (k, l, e) =
              round_of (length c.cursors) c.scan_start p h (get_elem?→lt c.cursors p cur g) in
            get_elem?→le (contents p) cur (
              subst (λ q. get_elem? (contents q) cur ≡ none) e
                (t.empty k cur (omega arith) (omega (arith, l)) (rw e g))) in
        let none_left : ahead contents 0 c.cursors ≡ 0 =
          nothing_ahead contents 0 c.cursors
            (λ j cur g. let z : 0 + j ≡ j = omega arith in rw z (past j cur g)) in
        record {
          items = [];
          behind = c;
          after = t.after;
          good = t.good;
          gives = rw t.gives;
          count = sym none_left;
          in_order = λ p cur g. rw (drop_all cur (contents p) (past p cur g));
          none_left = none_left;
        }

    abbrev moved : (c : Consumer) (p cursor : ℕ) → Consumer
    moved c p cursor = record c {
      cursors = set c.cursors p (cursor + 1);
      scan_start = (p + 1) % length c.cursors;
    }

    -- A turn that takes the record at the cursor of partition `p`.
    took_one :
        (c : Consumer) (d d' : D) (turns p cursor : ℕ) (r : Record)
        → get_elem? c.cursors p ≡ some cursor
        → get_elem? (contents p) cursor ≡ some r
        → try_take_next read (c, d)
          ≡ (ok (some (record { partition = p; offset = cursor }, r)), (moved c p cursor, d'))
        → Delivers contents Good (moved c p cursor) (take_turns turns (moved c p cursor, d'))
        → Delivers contents Good c (take_turns (suc turns) (c, d))
    took_one c d d' turns p cursor r g e run s = record {
      items = (record { partition = p; offset = cursor }, r) ∷ s.items;
      behind = s.behind;
      after = s.after;
      good = s.good;
      gives = rw (run, s.gives);
      count =
          let z : 0 + p ≡ p = omega arith in
          omega (
            arith,
            s.count,
            ahead-set contents 0 p c.cursors cursor g (rw z (get_elem?→lt (contents p) cursor r e)),
          );
      in_order = in_order;
      none_left = s.none_left;
    }
      where
        in_order :
            (q cur : ℕ)
            → get_elem? c.cursors q ≡ some cur
            → from_partition q ((record { partition = p; offset = cursor }, r) ∷ s.items)
              ≡ numbered q cur (drop cur (contents q))
        in_order q cur h = elim (Bool-cases (p == q)) [
          | inl y ↦
              let same : p ≡ q = ==→eq p q y in
              let h' : get_elem? c.cursors p ≡ some cur = rw same h in
              let at : cursor ≡ cur = cc in
              let next : get_elem? (set c.cursors p (cursor + 1)) p ≡ some (cursor + 1) =
                get_elem?-set_self c.cursors p (cursor + 1) (get_elem?→lt c.cursors p cursor g) in
              let next_q =
                subst (λ k. get_elem? (set c.cursors p (cursor + 1)) k ≡ some (cursor + 1)) same
                  next in
              let there = subst (λ k. get_elem? (contents k) cursor ≡ some r) same e in
              rw (
                y,
                ← at,
                drop-get_elem? (contents q) cursor r there,
                s.in_order q (cursor + 1) next_q,
                same,
              )
          | inr y ↦
              rw y
                (s.in_order q cur (get_elem?-set_ne c.cursors p q (cursor + 1) (==→ne p q y) ∙ h))
        ]

    -- Turns in a row over partitions that hold the records `contents`, of which a read answers the one
    -- at the cursor and leaves what they hold, deliver each
    -- partition's records from the cursor on, in order and each once, and nothing else, after which
    -- nothing is left to deliver. There are more turns than records ahead of the cursors, and the
    -- pass starts at one of the partitions.
    pub take_turns-Delivers :
        (turns : ℕ) (c : Consumer) (d : D)
        → Good d
        → c.scan_start < length c.cursors
        → ahead contents 0 c.cursors < turns
        → Delivers contents Good c (take_turns turns (c, d))
    take_turns-Delivers zero c d v h b = absurd (omega arith)
    take_turns-Delivers (suc turns) c d v h b =
        elim (try_take_next_lem read contents Good c reads (omega (arith, h)) d v) [
          | inl t ↦
              let n : ℕ = length c.cursors in
              let p : ℕ = (c.scan_start + t.round) % n in
              let fewer = ahead-set contents 0 p c.cursors t.cursor t.at (
                let z : 0 + p ≡ p = omega arith in
                rw z (get_elem?→lt (contents p) t.cursor t.rec t.there)) in
              let size : length (set c.cursors p (t.cursor + 1)) ≡ n =
                length-set c.cursors p (t.cursor + 1) in
              took_one c d t.after turns p t.cursor t.rec t.at t.there t.gives (
                take_turns-Delivers turns (moved c p t.cursor) t.after t.good
                  (rw size (mod-lt (p + 1) (omega (arith, h)))) (omega (arith, fewer)))
          | inr t ↦ stopped c d turns h t
        ]
