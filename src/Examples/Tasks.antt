-- ===== src/Examples/Tasks.antt =====
-- Runs of the theorems on the registry of broker.rs, the waiting of consumer.rs and the writer task of
-- partition.rs.
use kafko.Base.{
  ℕ, ◌+◌, ◌-◌, ◌≡◌, refl, Bytes, List, [], ◌∷◌, Option, some, none, arith, Bool, true, false, ◌||◌,
  ◌==◌, ==_refl,
}
use kafko.Error.{ok}
use kafko.Exec.{Exec}
use kafko.Record.{Record}
use kafko.Log.Create.{fresh_log, fresh_disk}
use kafko.Topic.{Topic}
use kafko.Topic.Wakeup.{
  Notify, IsNotify, Wakeup, signal, mark_parked, IsShared-refl, enable_notified,
}
use kafko.Consumer.{Consumer, scan, try_take_next}
use kafko.Consumer.Park.{turn, waits, turn-WaitsRightly}
use kafko.Partition.Served.{World, read_through, signals_sent, read_through-IsShared}
use kafko.Partition
use kafko.Partition.{append, read_at, record_read, process_with_batching, handle_single_command}
use kafko.Partition.Handle.{read_record, shutdown_partition}
use kafko.Log.{read_record_at}
use kafko.Partition.Loop.{step, Task, Event, arrives, receives, ticks, closes}
use kafko.Broker.{System, State, list_topics, has_topic}
use kafko.Broker.Names.{Ascending, has_name, list_topics-Ascending}
use kafko.Broker.Held.{Held}
use kafko.Broker.Handles.{delete, producer, release, Call, run, run-Held}
use kafko.Examples.{plain, hello, small_config}

-- A world that counts the calls; a partition is its number.
abbrev counting : System ℕ ℕ
counting = record {
  create_dir_all = λ dir d. (ok tt, d + 1);
  open_lock_file = λ dir name d. (ok tt, d + 1);
  try_lock_exclusive = λ d. (ok true, d + 1);
  unlock = λ d. d + 1;
  read_dir = λ dir d. (ok [], d + 1);
  into_string = λ name. some name;
  read_topic_dir = λ name d. (ok [], d + 1);
  open_partition = λ name i config d. (ok i, d + 1);
  unshared = λ q d. true;
  shutdown_partition = λ q d. (ok tt, d + 1);
  remove_dir_all = λ name d. (ok tt, d + 1);
  high_water_mark = λ q d. 0;
  open_offsets = λ name group n d.
      (ok (record { file_path = group; temp_path = group; group = group; committed = [] }), d + 1);
}

abbrev name_t : Bytes
name_t = 116 ∷ []

abbrev topic_t : Topic ℕ
topic_t = record {
  name = name_t;
  partitions = 0 ∷ (1 ∷ []);
  config = small_config;
  round_robin = 0;
}

abbrev held_twice : State {P = ℕ} {D = ℕ} counting
held_twice = (
  record {
    dir = [];
    topics = (name_t, record { topic = topic_t; handles = 2 }) ∷ [];
    default_log_config = small_config;
  },
  0,
)

abbrev calls : List Call
calls = delete name_t ∷ (release name_t ∷ (producer name_t ∷ (delete name_t ∷ [])))

run-Held_example : Held name_t topic_t (2 - 1) (run counting calls held_twice).0.topics
run-Held_example = run-Held counting calls name_t topic_t 2 held_twice (omega arith) (record {
  shared = record { topic = topic_t; handles = 2 };
  found = refl;
  same = refl;
  enough = omega arith;
})

list_topics-Ascending_example :
    Ascending (list_topics counting held_twice.0)
    × ((name : Bytes)
        → has_name name (list_topics counting held_twice.0) ≡ has_topic counting name held_twice.0)
list_topics-Ascending_example = list_topics-Ascending counting held_twice.0

-- Who is enabled, and who is woken.
abbrev Waiters : Type 0
Waiters = (ℕ → Bool) × (ℕ → Bool)

abbrev waiters : Notify Waiters
waiters = record {
  new = (λ i. false, λ i. false);
  notify_waiters = λ n. (n.0, λ i. n.0 i || n.1 i);
  enable = λ id n. (λ i. (i == id) || n.0 i, n.1);
  is_enabled = λ id n. n.0 id;
  is_woken = λ id n. n.1 id;
}

or_true : (b : Bool) → (b || true) ≡ true
or_true true = refl
or_true false = refl

waiters-IsNotify : IsNotify waiters
waiters-IsNotify = record {
  enabled = λ id n. rw (==_refl id);
  stays_enabled = λ id n e. e;
  stays_woken = λ id n e. rw e (or_true (n.0 id));
  enabled_by_others = λ id other n e. rw e (or_true (id == other));
  woken_by_others = λ id other n h e. e;
  wakes = λ id n e. rw e;
}

-- A topic of one partition without records, which is asked through its writer task.
abbrev one_cursor : Consumer
one_cursor = record { cursors = 0 ∷ []; scan_start = 0; store = none }

abbrev idle_state : Partition.State
idle_state = (
  record { log = fresh_log small_config; hwm = 0; fail_next_kind = none; replies = [] },
  fresh_disk,
)

abbrev nobody : Wakeup Waiters
nobody = record { notify = (λ i. false, λ i. false); parked = 0 }

-- The consumer reads through the task, which signals late.
abbrev no_records : ℕ → ℕ → Exec (World × Wakeup Waiters) (Option Record)
no_records = read_through waiters plain 5

-- The signal for the first read comes before it returns, that for the second later.
abbrev at_start : World
at_start = (idle_state, ((false, true ∷ (false ∷ [])), 0))

abbrev asked_once : World
asked_once = (
  (record (idle_state.0) { replies = (5, record_read (ok none)) ∷ [] }, fresh_disk),
  ((false, false ∷ []), 1),
)

found_nothing :
    try_take_next no_records (one_cursor, (at_start, nobody))
    ≡ (ok none, (one_cursor, (asked_once, nobody)))
unfolding try_take_next scan step process_with_batching handle_single_command read_record
    read_record_at signal
found_nothing = refl

it_waits : (turn waiters no_records (λ world. world) 7 (one_cursor, (at_start, nobody))).0 ≡ waits
unfolding turn try_take_next scan step process_with_batching handle_single_command read_record
    read_record_at signal mark_parked enable_notified
it_waits = refl

turn-WaitsRightly_example :
    ((try_take_next no_records
        (one_cursor, (asked_once, enable_notified waiters 7 (mark_parked waiters nobody)))).0
      ≡ ok none)
    × ((turn waiters no_records (λ world. world) 7 (one_cursor, (at_start, nobody))).1.1.0.1.1 ≡ 1)
turn-WaitsRightly_example =
    turn-WaitsRightly waiters no_records (λ world. world) waiters-IsNotify signals_sent 7
      (λ part offset world. read_through-IsShared waiters plain 5 7 part offset world)
      (λ world. IsShared-refl waiters signals_sent 7 world) one_cursor one_cursor asked_once nobody
      (at_start, nobody) found_nothing (omega arith) it_waits

abbrev idle_task : Task Waiters
idle_task = record {
  inbox = [];
  state = (
    record { log = fresh_log small_config; hwm = 0; fail_next_kind = none; replies = [] },
    fresh_disk,
  );
  wake = some nobody;
}

abbrev events : List Event
events =
    arrives (append hello 1)
    ∷ (arrives (read_at 0 2) ∷ (receives ∷ (ticks 5 (λ base. 0) ∷ (closes ∷ []))))

-- Two commands wait.
abbrev busy_task : Task Waiters
busy_task = record idle_task { inbox = append hello 1 ∷ (read_at 0 2 ∷ []) }
