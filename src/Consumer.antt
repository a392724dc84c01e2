-- ===== src/Consumer.antt =====
-- crates/kafko/src/consumer.rs: the merged reader of a topic's partitions. The topic is the
-- parameter `read`, for `Partition::read_record_at` on the partition of that number, with what it
-- does to the partitions in `D`. Waiting for the wakeup signal is
-- in Consumer/Park.
pub mod Scan
pub mod Delivery
pub mod Park
use kafko.Base.{
  ℕ, zero, suc, ◌+◌, ◌%◌, ◌^◌, min, Bytes, List, [], ◌∷◌, Option, none, some, length, get_elem?,
  set, replicate,
}
use kafko.Error.{Result, ok, err, panicked, out_of_fuel}
use kafko.Exec.{Exec, pure}
use kafko.Compression.{Platform}
use kafko.Record.{Record}
use kafko.OffsetStore
use kafko.OffsetStore.{OffsetStore, Files}
use kafko.Topic.{RecordPosition}

pub record Consumer : Type 0 where
  pub cursors : List ℕ
  pub scan_start : ℕ
  pub store : Option OffsetStore

-- `from_topic_at` on a topic of `n` partitions
unfoldable pub from_topic_at : ℕ → ℕ → Consumer
from_topic_at n start_offset = record {
  cursors = replicate n start_offset;
  scan_start = 0;
  store = none;
}

abbrev or_zero : Option ℕ → ℕ
or_zero none = 0
or_zero (some offset) = offset

-- The cursors from partition `p` on, whose high-water marks are given.
unfoldable pub resumed : List ℕ → ℕ → List ℕ → List ℕ
resumed committed p [] = []
resumed committed p (hwm ∷ hwms) =
    min (or_zero (get_elem? committed p)) hwm ∷ resumed committed (p + 1) hwms

unfoldable pub from_topic_with_group : List ℕ → OffsetStore → Consumer
unfolding resumed
from_topic_with_group hwms store = record {
  cursors = resumed store.committed 0 hwms;
  scan_start = 0;
  store = some store;
}

unfoldable pub position : Consumer → ℕ → ℕ
position c partition = or_zero (get_elem? c.cursors partition)

abbrev kept_store :
    Consumer → Result (Unit {0}) × (OffsetStore × Files) → Result (Unit {0}) × (Consumer × Files)
kept_store c (r, (s, d)) = (r, (record c { store = some s }, d))

abbrev commit_to :
    Platform → Consumer → Option OffsetStore → Files → Result (Unit {0}) × (Consumer × Files)
commit_to p c none d = (ok tt, (c, d))
commit_to p c (some s) d = kept_store c (OffsetStore.commit p c.cursors (s, d))

unfoldable pub commit_positions : Platform → Exec (Consumer × Files) (Unit {0})
commit_positions p (c, d) = commit_to p c c.store d

unfoldable pub seek_all : Consumer → ℕ → Consumer
seek_all c offset = record c { cursors = replicate (length c.cursors) offset }

unfoldable pub seek_to : Consumer → ℕ → ℕ → Consumer
seek_to c partition offset = record c { cursors = set c.cursors partition offset }

abbrev pub Item : Type 0
Item = RecordPosition × Record

module _ {D : Type 0} (read : ℕ → ℕ → Exec D (Option Record)) where
  abbrev pub State : Type 0
  State = Consumer × D

  -- What the pass does with the answer of partition `p`.
  abbrev pub took :
      Consumer
      → ℕ
      → ℕ
      → ℕ
      → Result (Option Record) × D
      → (D → Result (Option Item) × State)
      → Result (Option Item) × State
  took c n p cursor (ok (some r), d) next = (
    ok (some (record { partition = p; offset = cursor }, r)),
    (record c { cursors = set c.cursors p (cursor + 1); scan_start = (p + 1) % n }, d),
  )
  took c n p cursor (ok none, d) next = next d
  took c n p cursor (err e, d) next = (err e, (c, d))
  took c n p cursor (panicked, d) next = (panicked, (c, d))
  took c n p cursor (out_of_fuel, d) next = (out_of_fuel, (c, d))

  abbrev pub at_cursor :
      Consumer
      → ℕ
      → ℕ
      → Option ℕ
      → D
      → (D → Result (Option Item) × State)
      → Result (Option Item) × State
  at_cursor c n p none d next = (panicked, (c, d))
  at_cursor c n p (some cursor) d next = took c n p cursor (read p cursor d) next

  -- The rounds from `i` on, of which `left` are left.
  unfoldable pub scan : Consumer → ℕ → ℕ → ℕ → D → Result (Option Item) × State
  scan c n i zero d = (ok none, (c, d))
  scan c n i (suc left) d =
      let p = (c.scan_start + i) % n in
      at_cursor c n p (get_elem? c.cursors p) d (λ d'. scan c n (i + 1) left d')

  unfoldable pub try_take_next : Exec State (Option Item)
  unfolding scan
  try_take_next (c, d) = scan c (length c.cursors) 0 (length c.cursors) d
