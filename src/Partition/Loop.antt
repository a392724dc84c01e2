-- ===== src/Partition/Loop.antt =====
-- crates/kafko/src/partition.rs: the loop of the writer task, as a list of events. An event is a
-- command that arrives, a round of the loop for a command or for the retention tick, or the end after
-- the mailbox is closed.
use kafko.Base.{ℕ, List, [], ◌∷◌, ◌++◌, Option, none, some, ◌==◌, true, false}
use kafko.Error.{Result, ok, err, panicked, out_of_fuel}
use kafko.Compression.{Platform}
use kafko.Topic.Wakeup.{Notify, Wakeup, signal}
use kafko.Partition.{Command, State, process_with_batching, tick, close}

pub record Task (N : Type 0) : Type 0 where
  pub inbox : List Command
  pub state : State
  pub wake : Option (Wakeup N)

pub data Event : Type 0 where
  arrives : Command → Event
  receives : Event
  ticks : ℕ → (ℕ → ℕ) → Event
  closes : Event

module _ {N : Type 0} (y : Notify N) (p : Platform) where
  abbrev pub pulse : Option (Wakeup N) → Option (Wakeup N)
  pulse none = none
  pulse (some w) = some (signal y w)

  -- After a round: what is left in the mailbox, and the signal.
  abbrev pub served : Task N → Result (List Command) × State → Result (Unit {0}) × Task N
  served t (ok rest, s) = (ok tt, record t { inbox = rest; state = s; wake = pulse t.wake })
  served t (err e, s) = (err e, record t { inbox = []; state = s })
  served t (panicked, s) = (panicked, record t { inbox = []; state = s })
  served t (out_of_fuel, s) = (out_of_fuel, record t { inbox = []; state = s })

  -- A round that answers no command.
  abbrev pub passed :
      {A : Type 0} → (Task N → Task N) → Task N → Result A × State → Result (Unit {0}) × Task N
  passed f t (ok a, s) = (ok tt, f (record t { state = s }))
  passed f t (err e, s) = (err e, record t { state = s })
  passed f t (panicked, s) = (panicked, record t { state = s })
  passed f t (out_of_fuel, s) = (out_of_fuel, record t { state = s })

  -- `inbox.recv()`: without a command the task waits.
  abbrev pub received : List Command → Task N → Result (Unit {0}) × Task N
  received [] t = (ok tt, t)
  received (c ∷ rest) t =
      let config = t.state.0.log.config in
      served t
        (process_with_batching p config.batch_max_records config.batch_max_bytes c rest t.state)

  -- A command arrives when its sender has found room in the mailbox.
  unfoldable pub step : Event → Task N → Result (Unit {0}) × Task N
  step (arrives c) t = (ok tt, record t { inbox = t.inbox ++ (c ∷ []) })
  step receives t = received t.inbox t
  step (ticks now mtime) t = passed (λ u. u) t (tick now mtime t.state)
  step closes t = passed (λ u. record u { wake = pulse u.wake }) t (close t.state)

  abbrev pub continued :
      Result (Unit {0}) × Task N
      → (Task N → Result (Unit {0}) × Task N)
      → Result (Unit {0}) × Task N
  continued (ok u, t) f = f t
  continued (r, t) f = (r, t)

  unfoldable pub run_events : List Event → Task N → Result (Unit {0}) × Task N
  run_events [] t = (ok tt, t)
  run_events (e ∷ events) t = continued (step e t) (run_events events)

  -- `tokio::time::interval` panics on a period of zero, before the first command is received.
  unfoldable pub partition_writer_loop : List Event → Task N → Result (Unit {0}) × Task N
  partition_writer_loop events t = elim (t.state.0.log.config.retention_check_interval == 0) [
    | true ↦ (panicked, t)
    | false ↦ run_events events t
  ]
