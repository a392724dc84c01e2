-- ===== src/Broker.antt =====
-- crates/kafko/src/broker.rs: the registry of topics in one data directory. What stands outside is
-- the parameter `System`: the calls of the file system and of the advisory lock, and the partitions
-- `P`, with what they do to the world `D`. Each method is written as the sections that it runs under
-- the registry's lock, with the calls between them.
pub mod Calls
pub mod Held
pub mod Handles
pub mod Names
use kafko.Base.{
  ℕ, ◌+◌, ◌-◌, ◌==◌, Bytes, List, [], ◌∷◌, Option, none, some, Bool, true, false, if◌then◌else◌,
  map, ltb,
}
use kafko.Base.NameDict
use kafko.Base.NameDict.{leb_name}
use kafko.Error.{
  Result, ok, err, panicked, out_of_fuel, invalid_partition_count, topic_already_exists,
  topic_not_found, topic_in_use, already_open,
}
use kafko.Exec.{Exec, ◌>>=◌, ◌>>◌, pure, lift, gets, modify}
use kafko.Log.{LogConfig, default_config}
use kafko.Topic
use kafko.Topic.{Topic, partition_count, open_topic, shutdown_topic}
use kafko.OffsetStore.{OffsetStore}
use kafko.Consumer.{Consumer, from_topic_at, from_topic_with_group}

-- `LOCK_FILENAME`
abbrev pub lock_filename : Bytes
lock_filename = b'L' ∷ b'O' ∷ b'C' ∷ b'K' ∷ []

-- An entry of a directory: its name, and what `file_type().is_dir()` answers.
abbrev pub Entry : Type 0
Entry = Bytes × Result Bool

-- The calls that leave broker.rs. `read_dir` gives what `next_entry` answers, one by one.
pub record System (P D : Type 0) : Type 0 where
  pub create_dir_all : Bytes → Exec D (Unit {0})
  pub open_lock_file : Bytes → Bytes → Exec D (Unit {0})
  pub try_lock_exclusive : Exec D Bool
  pub unlock : D → D
  pub read_dir : Bytes → Exec D (List (Result Entry))
  pub into_string : Bytes → Option Bytes
  pub read_topic_dir : Bytes → Exec D (List (Bytes × Bool))
  pub open_partition : Bytes → ℕ → LogConfig → Exec D P
  pub unshared : P → D → Bool
  pub shutdown_partition : P → Exec D (Unit {0})
  pub remove_dir_all : Bytes → Exec D (Unit {0})
  pub high_water_mark : P → D → ℕ
  pub open_offsets : Bytes → Bytes → ℕ → Exec D OffsetStore

-- `Arc<Topic>` in the registry: the topic, and how many clones are held outside.
pub record Shared (P : Type 0) : Type 0 where
  pub topic : Topic P
  pub handles : ℕ

-- The directory lock is held as long as the value is.
pub record Kafko (P : Type 0) : Type 0 where
  pub dir : Bytes
  pub topics : List (Bytes × Shared P)
  pub default_log_config : LogConfig

module _ {P D : Type 0} (sys : System P D) where
  abbrev pub State : Type 0
  State = Kafko P × D

  abbrev outside : {A : Type 0} → Exec D A → Exec State A
  outside m (k, d) = let r = m d in (r.0, (k, r.1))

  -- An answer of `try_lock_exclusive`.
  abbrev locked : Bytes → Bool → Result (Unit {0})
  locked dir true = ok tt
  locked dir false = err (already_open dir)

  unfoldable pub acquire_dir_lock : Bytes → Exec D (Unit {0})
  acquire_dir_lock dir = do
    sys.open_lock_file dir lock_filename
    held ← sys.try_lock_exclusive
    lift (locked dir held)

  abbrev fresh_shared : Topic P → Shared P
  fresh_shared t = record { topic = t; handles = 0 }

  -- A subdirectory of the data directory, unless its name is not a string.
  abbrev open_named :
      LogConfig → Option Bytes → List (Bytes × Shared P) → Exec D (List (Bytes × Shared P))
  open_named config none topics = pure topics
  open_named config (some name) topics = do
    listing ← sys.read_topic_dir name
    t ← open_topic (sys.open_partition name) name listing config
    pure (NameDict.insert name (fresh_shared t) topics)

  -- `while let Some(entry) = entries.next_entry().await?`
  unfoldable pub open_entries :
      LogConfig → List (Result Entry) → List (Bytes × Shared P) → Exec D (List (Bytes × Shared P))
  open_entries config [] topics = pure topics
  open_entries config (next ∷ entries) topics = do
    entry ← lift next
    is_dir ← lift entry.1
    topics' ← (if is_dir then open_named config (sys.into_string entry.0) topics else pure topics)
    open_entries config entries topics'

  -- An error after the lock was taken drops the lock file.
  abbrev or_unlock : {A : Type 0} → Result A × D → Result A × D
  or_unlock (ok a, d) = (ok a, d)
  or_unlock (r, d) = (r, sys.unlock d)

  unfoldable pub open_with_config : Bytes → LogConfig → Exec D (Kafko P)
  open_with_config dir config = do
    sys.create_dir_all dir
    acquire_dir_lock dir
    λ d. or_unlock (
        (do
          entries ← sys.read_dir dir
          topics ← open_entries config entries []
          pure (record { dir = dir; topics = topics; default_log_config = config }))
          d)

  unfoldable pub open_kafko : Bytes → Exec D (Kafko P)
  open_kafko dir = open_with_config dir default_config

  -- `topics.contains_key(name)`
  abbrev pub is_some : Option (Shared P) → Bool
  is_some none = false
  is_some (some x) = true

  unfoldable pub has_topic : Bytes → Kafko P → Bool
  has_topic name k = is_some (NameDict.lookup name k.topics)

  -- The section under the read lock, before the topic is made.
  unfoldable pub check_absent : Bytes → Exec State (Unit {0})
  unfolding has_topic
  check_absent name (k, d) =
      ((if has_topic name k then err (topic_already_exists name) else ok tt), (k, d))

  -- The section under the write lock, after the topic was made.
  unfoldable pub register : Bytes → Topic P → Exec State (Unit {0})
  unfolding has_topic
  register name t (k, d) =
      if has_topic name k
      then (err (topic_already_exists name), (k, d))
      else (ok tt, (record k { topics = NameDict.insert name (fresh_shared t) k.topics }, d))

  unfoldable pub create_topic_inner : Bytes → LogConfig → ℕ → Exec State (Unit {0})
  unfolding check_absent register
  create_topic_inner name config partitions =
      if partitions == 0 then lift (err (invalid_partition_count 0)) else (do
        check_absent name
        t ← outside (Topic.create_topic (sys.open_partition name) name partitions config)
        register name t)

  -- The four public forms.
  unfoldable pub create_topic : Bytes → Exec State (Unit {0})
  create_topic name (k, d) = create_topic_inner name k.default_log_config 1 (k, d)

  unfoldable pub create_topic_with_config : Bytes → LogConfig → Exec State (Unit {0})
  create_topic_with_config name config = create_topic_inner name config 1

  unfoldable pub create_topic_with_partitions : Bytes → ℕ → Exec State (Unit {0})
  create_topic_with_partitions name partitions (k, d) =
      create_topic_inner name k.default_log_config partitions (k, d)

  unfoldable pub create_topic_with_config_and_partitions :
      Bytes → LogConfig → ℕ → Exec State (Unit {0})
  create_topic_with_config_and_partitions name config partitions =
      create_topic_inner name config partitions

  -- The first section of `delete_topic`, which takes the topic out.
  unfoldable pub take_out : Bytes → Exec State (Shared P)
  take_out name (k, d) = elim (NameDict.lookup name k.topics) [
    | none ↦ (err (topic_not_found name), (k, d))
    | some x ↦ (ok x, (record k { topics = NameDict.remove name k.topics }, d))
  ]

  -- `Arc::try_unwrap` gives the topic if nobody else holds it; otherwise it goes back.
  unfoldable pub dispose : Bytes → Shared P → Exec State (Unit {0})
  dispose name x (k, d) =
      if x.handles == 0
      then outside (sys.remove_dir_all name)
          (k, shutdown_topic sys.unshared sys.shutdown_partition x.topic d)
      else (err (topic_in_use name), (record k { topics = NameDict.insert name x k.topics }, d))

  unfoldable pub delete_topic : Bytes → Exec State (Unit {0})
  unfolding take_out dispose
  delete_topic name = do x ← take_out name; dispose name x

  unfoldable pub list_topics : Kafko P → List Bytes
  list_topics k = NameDict.sort_names (map (λ (x : Bytes × Shared P). x.0) k.topics)

  abbrev cloned : Bytes → Option (Shared P) → State → Option (Topic P) × State
  cloned name none s = (none, s)
  cloned name (some x) (k, d) = (
    some x.topic,
    (record k { topics = NameDict.insert name (record x { handles = x.handles + 1 }) k.topics }, d),
  )

  -- `topic`: a clone of the handle.
  unfoldable pub get_topic : Bytes → State → Option (Topic P) × State
  get_topic name (k, d) = cloned name (NameDict.lookup name k.topics) (k, d)

  abbrev released : Bytes → Option (Shared P) → Kafko P → Kafko P
  released name none k = k
  released name (some x) k = record k {
    topics = NameDict.insert name (record x { handles = x.handles - 1 }) k.topics;
  }

  -- A handle is dropped.
  unfoldable pub drop_handle : Bytes → Kafko P → Kafko P
  drop_handle name k = released name (NameDict.lookup name k.topics) k

  abbrev count_of : Option (Shared P) → Option ℕ
  count_of none = none
  count_of (some x) = some (partition_count x.topic)

  unfoldable pub topic_partition_count : Bytes → Kafko P → Option ℕ
  topic_partition_count name k = count_of (NameDict.lookup name k.topics)

  abbrev or_not_found : Bytes → Option (Topic P) × State → Result (Topic P) × State
  or_not_found name (none, s) = (err (topic_not_found name), s)
  or_not_found name (some t, s) = (ok t, s)

  -- A producer is the handle.
  unfoldable pub producer_for : Bytes → Exec State (Topic P)
  unfolding get_topic
  producer_for name s = or_not_found name (get_topic name s)

  unfoldable pub consumer_for : Bytes → Exec State (Topic P × Consumer)
  unfolding get_topic
  consumer_for name s =
      (do
        t ← (λ s'. or_not_found name (get_topic name s'))
        pure (t, from_topic_at (partition_count t) 0))
        s

  -- What the group's consumer starts from; an error drops the handle that was cloned.
  abbrev grouped :
      Bytes → Topic P → Result OffsetStore × State → Result (Topic P × Consumer) × State
  grouped name t (ok store, (k, d)) = (
    ok (t, from_topic_with_group (map (λ q. sys.high_water_mark q d) t.partitions) store),
    (k, d),
  )
  grouped name t (err e, (k, d)) = (err e, (drop_handle name k, d))
  grouped name t (panicked, s) = (panicked, s)
  grouped name t (out_of_fuel, s) = (out_of_fuel, s)

  unfoldable pub consumer_for_group : Bytes → Bytes → Exec State (Topic P × Consumer)
  unfolding get_topic
  consumer_for_group name group = (λ s. or_not_found name (get_topic name s)) >>= λ t s.
      grouped name t (outside (sys.open_offsets name group (partition_count t)) s)

  -- `shutdown_topics`, in the order of the dictionary.
  unfoldable pub shutdown_topics : List (Bytes × Shared P) → D → D
  shutdown_topics [] d = d
  shutdown_topics ((name, x) ∷ topics) d =
      shutdown_topics topics
        (if x.handles == 0 then shutdown_topic sys.unshared sys.shutdown_partition x.topic d else d)

  -- `shutdown`, and then the lock is dropped.
  unfoldable pub shutdown : Kafko P → D → D
  shutdown k d = sys.unlock (shutdown_topics k.topics d)
