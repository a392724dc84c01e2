-- ===== src/Partition/Served.antt =====
-- A read of a consumer through the writer task of partition.rs: the partition that consumer.rs asks
-- for. The task sends its reply, and signals afterwards, when the consumer may have gone on.
use kafko.Base.{ℕ, ◌+◌, refl, List, [], ◌∷◌, Option, none, some, Bool, true, false, arith}
use kafko.Error.{Result, ok}
use kafko.Exec.{Exec}
use kafko.Compression.{Platform}
use kafko.Record.{Record}
use kafko.Topic.Wakeup.{Notify, Wakeup, signal, signals, IsShared, IsShared-trans}
use kafko.Partition.{Command, Reply, State}
use kafko.Partition.Loop.{Task, receives, step}
use kafko.Partition.Handle.{finished, read_record}

abbrev last_reply : List (ℕ × Reply) → Option Reply
last_reply [] = none
last_reply (r ∷ []) = some r.1
last_reply (r ∷ (q ∷ rs)) = last_reply (q ∷ rs)

-- The state of the task, whether it has still to signal, for each read to come whether its signal is
-- sent before it returns, and how often the task has signalled.
abbrev pub World : Type 0
World = State × ((Bool × List Bool) × ℕ)

abbrev pub signals_sent : World → ℕ
signals_sent e = e.1.1

module _ {N : Type 0} (y : Notify N) (p : Platform) (id : ℕ) where
  abbrev exchanged : Result (Unit {0}) × Task N → Option Reply × State
  exchanged (ok u, t) = (last_reply t.state.0.replies, t.state)
  exchanged (r, t) = (none, t.state)

  -- A command is sent to a task that waits, which serves it; its signal is still to come.
  abbrev exchange : Command → State → Option Reply × State
  exchange c s = exchanged (step y p receives (record { inbox = c ∷ []; state = s; wake = none }))

  -- The task signals if it has still to.
  abbrev pub settle : World × Wakeup N → World × Wakeup N
  settle ((s, ((true, early), n)), w) = ((s, ((false, early), n + 1)), signal y w)
  settle ((s, ((false, early), n)), w) = ((s, ((false, early), n)), w)

  abbrev served :
      World × Wakeup N
      → Result (Option Record) × State
      → Result (Option Record) × (World × Wakeup N)
  served ((s, ((owed, true ∷ early), n)), w) (r, s') =
      (r, ((s', ((false, early), n + 1)), signal y w))
  served ((s, ((owed, false ∷ early), n)), w) (r, s') = (r, ((s', ((true, early), n)), w))
  served ((s, ((owed, []), n)), w) (r, s') = (r, ((s', ((true, []), n)), w))

  -- `read_record_at` on a topic of one partition: the task comes to a command after its signal for the
  -- one before.
  abbrev pub read_through : ℕ → ℕ → Exec (World × Wakeup N) (Option Record)
  read_through part offset world =
      let settled = settle world in
      served settled (read_record exchange (λ w. finished) id offset settled.0.0)

  pub settle-IsShared :
      (waiter : ℕ) (world : World × Wakeup N) → IsShared y signals_sent waiter world (settle world)
  settle-IsShared waiter ((s, ((true, early), n)), w) h =
      (signals ∷ [], (tt, tt), refl, omega arith)
  settle-IsShared waiter ((s, ((false, early), n)), w) h = ([], tt, refl, omega arith)

  served-IsShared :
      (waiter : ℕ) (world : World × Wakeup N) (x : Result (Option Record) × State)
      → IsShared y signals_sent waiter world (served world x).1
  served-IsShared waiter ((s, ((owed, true ∷ early), n)), w) x h =
      (signals ∷ [], (tt, tt), refl, omega arith)
  served-IsShared waiter ((s, ((owed, false ∷ early), n)), w) x h = ([], tt, refl, omega arith)
  served-IsShared waiter ((s, ((owed, []), n)), w) x h = ([], tt, refl, omega arith)

  -- What the task does during a read is an act of another task.
  pub read_through-IsShared :
      (waiter part offset : ℕ) (world : World × Wakeup N)
      → IsShared y signals_sent waiter world (read_through part offset world).1
  read_through-IsShared waiter part offset world =
      IsShared-trans y signals_sent waiter world (settle world) (read_through part offset world).1
        (settle-IsShared waiter world)
        (served-IsShared waiter (settle world)
          (read_record exchange (λ w. finished) id offset (settle world).0.0))
