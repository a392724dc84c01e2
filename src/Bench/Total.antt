-- ===== src/Bench/Total.antt =====
-- What the concurrent scenario of crates/kafko-bench/src/main.rs reports, and what it has appended.
use kafko.Base.{
  ℕ, zero, suc, ◌+◌, ◌*◌, ◌^◌, ◌≤◌, ◌<◌, ◌≡◌, Bytes, List, [], ◌∷◌, none, All, some, length,
  get_elem?, replicate, arith,
}
use mathlib.Core.Path.{subst}
use kafko.Error.{ok}
use kafko.Exec.{Exec}
use kafko.Record.{Record, new}
use kafko.Topic.{Topic}
use kafko.Topic.Routing.{IsTopic}
use kafko.Producer.OneByOne.{AppendsOne}
use kafko.Bench.{Report, concurrent_tasks}
use kafko.Bench.Tasks.{working, run_turns, per_task, jobs_for, joined}
use kafko.Bench.Stored.{stored, AllSound, HasTurns, turns_of, steps, turns-Kept, join_all-ended}

replicate-AllSound : (n m left : ℕ) → AllSound n (replicate m (working left))
replicate-AllSound n zero left = tt
replicate-AllSound n (suc m) left = (tt, replicate-AllSound n m left)

replicate-HasTurns :
    (turns : List (ℕ × ℕ)) (m left : ℕ)
    → ((i : ℕ) → i < m → left + left + 1 ≤ turns_of i turns)
    → HasTurns turns (replicate m (working left))
replicate-HasTurns turns m left h i j g =
    let (same, l) = of_replicate m i g in subst (λ z. steps z ≤ turns_of i turns) same (h i l)
  where
    of_replicate :
        (k i : ℕ) → get_elem? (replicate k (working left)) i ≡ some j → (working left ≡ j) × (i < k)
    of_replicate zero i e = absurd cc
    of_replicate (suc k) zero e = (cc, omega arith)
    of_replicate (suc k) (suc i) e = let (a, b) = of_replicate k i e in (a, omega (arith, b))

module _ {P D : Type 0} (append : P → Record → Exec D ℕ)
    (append_batch : P → List Record → Exec D (List ℕ)) (Good : D → Type 0)
    (Fits : List Record → Type 0) (held : D → ℕ → List Record) where
  -- The tasks of the concurrent scenario, in whatever order they take their turns, choosing a partition
  -- and appending to it at different times: none fails, and the partitions of the topic hold as many
  -- records more as the report says. Each task has turns enough for its sends; the topic has between
  -- one and 2^32 - 1 partitions, the counter is a 64-bit number, and a partition, in a state that is
  -- `Good`, appends a record that `Fits` behind its records, leaves the others alone and the state
  -- `Good`; the records of the payload fit, at the times of the turns.
  pub joined-run_turns :
      (payload : Bytes) (total : ℕ) (turns : List (ℕ × ℕ)) (t : Topic P) (d : D)
      → IsTopic t
      → t.round_robin < 2 ^ 64
      → AppendsOne append t.partitions Good Fits held
      → Good d
      → All (λ (turn : ℕ × ℕ). Fits (new turn.1 none payload ∷ [])) turns
      → ((i : ℕ) → i < concurrent_tasks → per_task total + per_task total + 1 ≤ turns_of i turns)
      → (report : Report) × (t' : Topic P) × (d' : D) × (joined total
            (run_turns append append_batch payload turns (jobs_for total, (t, d)))
          ≡ (ok report, (t', d')))
        × (stored (held d') (length t.partitions)
            ≡ stored (held d) (length t.partitions) + report.total_records)
  joined-run_turns payload total turns t d h b one v fits m =
      let n : ℕ = length t.partitions in
      let k =
        turns-Kept append append_batch Good Fits held payload turns (jobs_for total) t d h b one v
          fits (replicate-AllSound n concurrent_tasks (per_task total))
          (replicate-HasTurns turns concurrent_tasks (per_task total) m) in
      let (e, z) = join_all-ended n k.state k.good.0 k.good.1 in
      (
        record { total_records = per_task total * concurrent_tasks; tasks = some concurrent_tasks },
        record t { round_robin = k.counter },
        k.after,
        rw (k.gives, e),
        omega (arith, k.balance, z),
      )
