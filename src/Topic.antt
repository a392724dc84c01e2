-- ===== src/Topic.antt =====
-- crates/kafko/src/topic.rs and position.rs: the partitions of a topic and the routing of records.
-- A partition is a parameter `P`; `open_partition` stands for `Partition::open_with_wake` on the
-- subdirectory of that number, with what it does to the directories in `D`. The shared `Wakeup` is
-- in Topic/Wakeup.
pub mod Numbers
pub mod Routing
pub mod Layout
pub mod Wakeup
use kafko.Base.{
  ℕ, ◌+◌, ◌%◌, ◌^◌, Bytes, List, [], ◌∷◌, Option, length, get_elem?, ◌==◌, Bool, if◌then◌else◌,
}
use kafko.Error.{invalid_partition_count, Result, err}
use kafko.Exec.{Exec, ◌>>=◌, pure, lift}
use kafko.Log.{LogConfig}
use Numbers.{partition_index, pick, numbers_from, discover_partition_indices, layout}

pub record RecordPosition : Type 0 where
  pub partition : ℕ
  pub offset : ℕ

pub record Topic (P : Type 0) : Type 0 where
  pub name : Bytes
  pub partitions : List P
  pub config : LogConfig
  pub round_robin : ℕ

module _ {P : Type 0} where
  -- `self.partitions.len() as u32`
  unfoldable pub partition_count : Topic P → ℕ
  partition_count t = length t.partitions % 2 ^ 32

  unfoldable pub partition : Topic P → ℕ → Option P
  partition t index = get_elem? t.partitions index

  unfoldable pub partition_for_key : Topic P → Bytes → Result ℕ
  unfolding partition_index partition_count
  partition_for_key t key = partition_index key (partition_count t)

  -- `fetch_add(1)` on a 64-bit counter wraps.
  unfoldable pub next_round_robin : Topic P → Result ℕ × Topic P
  next_round_robin t = (
    pick t.round_robin (partition_count t),
    record t { round_robin = (t.round_robin + 1) % 2 ^ 64 },
  )

  abbrev pub from_parts : Bytes → List P → LogConfig → Topic P
  from_parts name partitions config = record {
    name = name;
    partitions = partitions;
    config = config;
    round_robin = 0;
  }

  module _ {D : Type 0} (unshared : P → D → Bool) (shutdown_partition : P → Exec D (Unit {0})) where
    shutdown_each : List P → D → D
    shutdown_each [] d = d
    shutdown_each (q ∷ qs) d =
        shutdown_each qs (if unshared q d then (shutdown_partition q d).1 else d)

    -- `Topic::shutdown`: a partition that is still shared is left running, and what its shutdown
    -- answers is dropped.
    unfoldable pub shutdown_topic : Topic P → D → D
    unfolding shutdown_each
    shutdown_topic t d = shutdown_each t.partitions d

  module _ {D : Type 0} (open_partition : ℕ → LogConfig → Exec D P) where
    -- The loop over the partition numbers, which stops at the first that fails.
    unfoldable pub open_all : List ℕ → LogConfig → Exec D (List P)
    open_all [] config = pure []
    open_all (i ∷ indices) config = do
      q ← open_partition i config
      qs ← open_all indices config
      pure (q ∷ qs)

    -- `Topic::create`
    unfoldable pub create_topic : Bytes → ℕ → LogConfig → Exec D (Topic P)
    create_topic name partition_count config =
        if partition_count == 0 then lift (err (invalid_partition_count 0)) else (do
          partitions ← open_all (numbers_from 0 partition_count) config
          pure (from_parts name partitions config))

    -- `Topic::open` on a directory with the entries `listing`.
    unfoldable pub open_topic : Bytes → List (Bytes × Bool) → LogConfig → Exec D (Topic P)
    open_topic name listing config = do
      indices ← lift (layout name (discover_partition_indices listing))
      partitions ← open_all indices config
      pure (from_parts name partitions config)
