-- ===== src/Partition/Runs.antt =====
-- The loop of the writer task of partition.rs over any sequence of events, on a disk that does not
-- fail.
use kafko.Base.{ℕ, ◌+◌, ◌-◌, ◌≤◌, ◌≡◌, List, [], ◌∷◌, ◌++◌, length, All}
use kafko.Error.{Result, ok}
use kafko.Compression.{Platform}
use kafko.Record.{Record}
use kafko.Log.{Log, LogConfig}
use kafko.Topic.Wakeup.{Notify}
use kafko.Partition.Serving.{IsRoomy, IsServing, answered}
use kafko.Partition.Rounds.{channels, pending, IsSoundCommand}
use kafko.Partition.Loop.{Task, Event, arrives, receives}

abbrev pub event_channels : Event → List ℕ
event_channels (arrives c) = channels c
event_channels e = []

abbrev pub arrived : List Event → List ℕ
arrived [] = []
arrived (e ∷ events) = event_channels e ++ arrived events

-- How many commands wait at most after an event, and after all.
abbrev pub left_after : Event → ℕ → ℕ
left_after (arrives c) n = n + 1
left_after receives n = n - 1
left_after e n = n

abbrev pub backlog : List Event → ℕ → ℕ
backlog [] n = n
backlog (e ∷ events) n = backlog events (left_after e n)

module _ {N : Type 0} (y : Notify N) (p : Platform) (config : LogConfig) (most : ℕ)
    (roomy : IsRoomy p config most) where
  -- What arrives can be served.
  abbrev pub IsSoundEvent : Event → Type 0
  IsSoundEvent (arrives c) = IsSoundCommand p config most roomy c
  IsSoundEvent e = Unit

  -- The loop goes on from `t`: it has not ended, it serves, and each command that was in the mailbox
  -- or has arrived is answered, in the order of arrival, or still in the mailbox, which holds at most
  -- `n`.
  pub record Works (t : Task N) (ids : List ℕ) (n : ℕ) (out : Result (Unit {0}) × Task N)
      : Type 0 where
    pub task : Task N
    pub base : ℕ
    pub rs : List Record
    pub runs : out ≡ (ok tt, task)
    pub serving : IsServing p config base rs task.state
    pub sound : All (IsSoundCommand p config most roomy) task.inbox
    pub balance :
        answered task.state ++ pending task.inbox ≡ (answered t.state ++ pending t.inbox) ++ ids
    pub size : length task.inbox ≤ n
    pub forward : t.state.0.hwm ≤ task.state.0.hwm
