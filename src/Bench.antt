-- ===== src/Bench.antt =====
-- crates/kafko-bench/src/main.rs: the settings of the benchmark and its scenarios, over the broker and
-- the producer. The variables of the environment and the clock of the records are parameters; the
-- measured time and the printed text are left out, and a scenario returns what it reports.
pub mod Tasks
pub mod Stored
pub mod Total
pub mod Dispatch
use kafko.Base.{
  ℕ, zero, suc, ◌+◌, ◌-◌, ◌*◌, ◌/◌, ◌%◌, ◌^◌, Bytes, List, [], ◌∷◌, ◌++◌, Option, none, some,
  replicate, Bool, true, false, ltb, leb, if◌then◌else◌,
}
use kafko.Base.NameDict.{same_name}
use kafko.Error.{Compression, uncompressed, lz4, zstd, Result, ok, err, panicked, out_of_fuel}
use kafko.Exec.{Exec, ◌>>=◌, ◌>>◌, pure, lift}
use kafko.Log.{LogConfig, default_config}
use kafko.Record.{Record}
use kafko.Topic.{Topic, RecordPosition}
use kafko.Topic.Numbers.{parse_below, parse_u32}
use kafko.Producer
use kafko.Broker.{
  System, Kafko, State, create_topic_with_config_and_partitions, producer_for, drop_handle,
}

-- `std::env::var(…).ok()` of KAFKO_VALUE_SIZE, KAFKO_TOTAL_RECORDS and KAFKO_PARTITIONS.
abbrev or_default : ℕ → Option ℕ → ℕ
or_default d none = d
or_default d (some n) = n

abbrev parsed : (Bytes → Option ℕ) → Option Bytes → Option ℕ
parsed parse none = none
parsed parse (some s) = parse s

abbrev at_least_one : Option ℕ → Option ℕ
at_least_one none = none
at_least_one (some n) = if leb 1 n then some n else none

unfoldable pub value_size : Option Bytes → ℕ
value_size v = or_default 256 (parsed (parse_below (2 ^ 64)) v)

unfoldable pub total_records_target : Option Bytes → ℕ
total_records_target v = or_default 100000 (parsed (parse_below (2 ^ 64)) v)

unfoldable pub partitions : Option Bytes → ℕ
partitions v = or_default 1 (at_least_one (parsed parse_u32 v))

-- The three statics, once they are read.
pub record Settings : Type 0 where
  pub value_size : ℕ
  pub total_records : ℕ
  pub partitions : ℕ

abbrev pub sequential_topic : Bytes
sequential_topic =
    b's' ∷ b'c' ∷ b'e' ∷ b'n' ∷ b'a' ∷ b'r' ∷ b'i' ∷ b'o' ∷ b'_' ∷ b's' ∷ b'e' ∷ b'q' ∷ b'u' ∷ b'e'
    ∷ b'n' ∷ b't' ∷ b'i' ∷ b'a' ∷ b'l' ∷ []

abbrev pub concurrent_topic : Bytes
concurrent_topic =
    b's' ∷ b'c' ∷ b'e' ∷ b'n' ∷ b'a' ∷ b'r' ∷ b'i' ∷ b'o' ∷ b'_' ∷ b'c' ∷ b'o' ∷ b'n' ∷ b'c' ∷ b'u'
    ∷ b'r' ∷ b'r' ∷ b'e' ∷ b'n' ∷ b't' ∷ []

abbrev pub batch_topic : Bytes
batch_topic =
    b's' ∷ b'c' ∷ b'e' ∷ b'n' ∷ b'a' ∷ b'r' ∷ b'i' ∷ b'o' ∷ b'_' ∷ b'b' ∷ b'a' ∷ b't' ∷ b'c' ∷ b'h'
    ∷ []

abbrev pub lz4_sequential_topic : Bytes
lz4_sequential_topic =
    b's' ∷ b'c' ∷ b'e' ∷ b'n' ∷ b'a' ∷ b'r' ∷ b'i' ∷ b'o' ∷ b'_' ∷ b'l' ∷ b'z' ∷ b'4' ∷ b'_' ∷ b's'
    ∷ b'e' ∷ b'q' ∷ b'u' ∷ b'e' ∷ b'n' ∷ b't' ∷ b'i' ∷ b'a' ∷ b'l' ∷ []

abbrev pub zstd_sequential_topic : Bytes
zstd_sequential_topic =
    b's' ∷ b'c' ∷ b'e' ∷ b'n' ∷ b'a' ∷ b'r' ∷ b'i' ∷ b'o' ∷ b'_' ∷ b'z' ∷ b's' ∷ b't' ∷ b'd' ∷ b'_'
    ∷ b's' ∷ b'e' ∷ b'q' ∷ b'u' ∷ b'e' ∷ b'n' ∷ b't' ∷ b'i' ∷ b'a' ∷ b'l' ∷ []

abbrev pub sequential : Bytes
sequential = b's' ∷ b'e' ∷ b'q' ∷ b'u' ∷ b'e' ∷ b'n' ∷ b't' ∷ b'i' ∷ b'a' ∷ b'l' ∷ []

abbrev pub concurrent : Bytes
concurrent = b'c' ∷ b'o' ∷ b'n' ∷ b'c' ∷ b'u' ∷ b'r' ∷ b'r' ∷ b'e' ∷ b'n' ∷ b't' ∷ []

abbrev pub batch : Bytes
batch = b'b' ∷ b'a' ∷ b't' ∷ b'c' ∷ b'h' ∷ []

abbrev pub lz4_sequential : Bytes
lz4_sequential =
    b'l' ∷ b'z' ∷ b'4' ∷ b'_' ∷ b's' ∷ b'e' ∷ b'q' ∷ b'u' ∷ b'e' ∷ b'n' ∷ b't' ∷ b'i' ∷ b'a' ∷ b'l'
    ∷ []

abbrev pub zstd_sequential : Bytes
zstd_sequential =
    b'z' ∷ b's' ∷ b't' ∷ b'd' ∷ b'_' ∷ b's' ∷ b'e' ∷ b'q' ∷ b'u' ∷ b'e' ∷ b'n' ∷ b't' ∷ b'i' ∷ b'a'
    ∷ b'l' ∷ []

abbrev pub concurrent_tasks : ℕ
concurrent_tasks = 16

abbrev pub batch_size : ℕ
batch_size = 1024

unfoldable pub default_cfg : LogConfig
default_cfg = record default_config { compression = uncompressed }

unfoldable pub lz4_cfg : LogConfig
lz4_cfg = record default_config { compression = lz4 }

unfoldable pub zstd_cfg : LogConfig
zstd_cfg = record default_config { compression = zstd }

-- What `report` is told of a scenario that ended well.
pub record Report : Type 0 where
  pub total_records : ℕ
  pub tasks : Option ℕ

abbrev pub zeros : ℕ → Bytes
zeros n = replicate n 0

-- The topic of a producer, and the world of its partitions.
abbrev pub Sending : Type 0 → Type 0 → Type 0
Sending P D = Topic P × D

module _ {P D : Type 0} (sys : System P D) (s : Settings) where
  -- The producer is dropped when the scenario ends; its clones in the tasks are not counted.
  abbrev pub finished :
      {A : Type 0} → Bytes → Kafko P → Result A × Sending P D → Result A × State {P = P} {D = D} sys
  finished name k (r, (t, d)) = (r, (drop_handle sys name k, d))

  -- A topic is made, and a producer for it works.
  abbrev pub with_producer :
      {A : Type 0} → Bytes → LogConfig → Exec (Sending P D) A → Exec (State {P = P} {D = D} sys) A
  with_producer name config body = do
    create_topic_with_config_and_partitions sys name config s.partitions
    t ← producer_for sys name
    λ st. finished name st.0 (body (t, st.1))

module _ {P D : Type 0} (append : P → Record → Exec D ℕ)
    (append_batch : P → List Record → Exec D (List ℕ)) (clock : ℕ → ℕ) where
  -- `for _ in 0..n`, from the `i`th send on.
  unfoldable pub send_loop : ℕ → ℕ → Bytes → Exec (Sending P D) (Unit {0})
  send_loop i zero payload = pure tt
  send_loop i (suc n) payload = do
    _ ← Producer.send append append_batch (clock i) none payload
    send_loop (i + 1) n payload

  abbrev pub items : Bytes → List (Option Bytes × Bytes)
  items payload = replicate batch_size (none, payload)

  unfoldable pub batch_loop : ℕ → ℕ → Bytes → Exec (Sending P D) (Unit {0})
  batch_loop i zero payload = pure tt
  batch_loop i (suc batches) payload = do
    _ ← Producer.send_batch append append_batch (clock i) (items payload)
    batch_loop (i + 1) batches payload

  -- `div_ceil`
  abbrev pub batches_for : ℕ → ℕ
  batches_for total = (total + (batch_size - 1)) / batch_size

  module _ (sys : System P D) (s : Settings) where
    abbrev pub sequential_body : Exec (Sending P D) Report
    sequential_body = do
      send_loop 0 s.total_records (zeros s.value_size)
      pure (record { total_records = s.total_records; tasks = none })

    unfoldable pub run_sequential : Exec (State {P = P} {D = D} sys) Report
    run_sequential = with_producer sys s sequential_topic default_cfg sequential_body

    unfoldable pub run_lz4_sequential : Exec (State {P = P} {D = D} sys) Report
    run_lz4_sequential = with_producer sys s lz4_sequential_topic lz4_cfg sequential_body

    unfoldable pub run_zstd_sequential : Exec (State {P = P} {D = D} sys) Report
    run_zstd_sequential = with_producer sys s zstd_sequential_topic zstd_cfg sequential_body

    -- The product wraps in a release build, where the target is within 1023 of 2^64.
    unfoldable pub run_batch : Exec (State {P = P} {D = D} sys) Report
    run_batch = with_producer sys s batch_topic default_cfg (do
      batch_loop 0 (batches_for s.total_records) (zeros s.value_size)
      pure (record {
        total_records = (batches_for s.total_records * batch_size) % 2 ^ 64;
        tasks = none;
      }))
