-- ===== src/Bench/Tasks.antt =====
-- The concurrent scenario of crates/kafko-bench/src/main.rs: its tasks as jobs, and the order in which
-- they run as a list of turns.
use kafko.Base.{
  ℕ, zero, suc, ◌*◌, ◌/◌, Bytes, List, [], ◌∷◌, Option, none, some, get_elem?, set, replicate,
}
use kafko.Error.{Result, ok, err, panicked, out_of_fuel}
use kafko.Exec.{Exec, continue, pure}
use kafko.Record.{Record, new}
use kafko.Topic.{RecordPosition}
use kafko.Producer.{route, append_to}
use kafko.Broker.{System, State}
use kafko.Bench.{
  Settings, Report, Sending, concurrent_tasks, concurrent_topic, default_cfg, with_producer, zeros,
}

-- A task with `left` sends to begin, one that has chosen the partition of its next record, and one
-- that has ended. Other tasks run between the choice and the append.
pub data Job : Type 0 where
  working : ℕ → Job
  routed : ℕ → ℕ → Job
  done : Result (Unit {0}) → Job

module _ {P D : Type 0} (append : P → Record → Exec D ℕ)
    (append_batch : P → List Record → Exec D (List ℕ)) where
  abbrev pub chosen : ℕ → Result ℕ × Sending P D → Job × (Sending P D)
  chosen left (ok p, s) = (routed p left, s)
  chosen left (err e, s) = (done (err e), s)
  chosen left (panicked, s) = (done panicked, s)
  chosen left (out_of_fuel, s) = (done out_of_fuel, s)

  abbrev pub sent : ℕ → Result RecordPosition × (Sending P D) → Job × (Sending P D)
  sent left (ok position, s) = (working left, s)
  sent left (err e, s) = (done (err e), s)
  sent left (panicked, s) = (done panicked, s)
  sent left (out_of_fuel, s) = (done out_of_fuel, s)

  -- One turn of the loop `for _ in 0..per_task`, half a send at a time.
  unfoldable pub job_step : ℕ → Bytes → Job → Sending P D → Job × (Sending P D)
  job_step now payload (working zero) s = (done (ok tt), s)
  job_step now payload (working (suc left)) s = chosen left (route append append_batch none s)
  job_step now payload (routed p left) s =
      sent left (append_to append append_batch p (new now none payload) s)
  job_step now payload (done r) s = (done r, s)

  abbrev pub put_job : List Job → ℕ → Job × (Sending P D) → List Job × (Sending P D)
  put_job jobs i (j, s) = (set jobs i j, s)

  abbrev pub job_turn :
      Bytes → ℕ × ℕ → List Job → Option Job → Sending P D → List Job × (Sending P D)
  job_turn payload turn jobs none s = (jobs, s)
  job_turn payload turn jobs (some j) s = put_job jobs turn.0 (job_step turn.1 payload j s)

  -- A turn is the number of a task and the time of its record.
  unfoldable pub run_turns :
      Bytes → List (ℕ × ℕ) → List Job × (Sending P D) → List Job × (Sending P D)
  run_turns payload [] s = s
  run_turns payload (turn ∷ turns) (jobs, s) =
      run_turns payload turns (job_turn payload turn jobs (get_elem? jobs turn.0) s)

-- `for h in handles { h.await??; }`. The panic of a task is passed on as one; where a task has not
-- ended, there were too few turns.
unfoldable pub join_all : List Job → Result (Unit {0})
join_all [] = ok tt
join_all (done (ok u) ∷ jobs) = join_all jobs
join_all (done (err e) ∷ jobs) = err e
join_all (done panicked ∷ jobs) = panicked
join_all (done out_of_fuel ∷ jobs) = out_of_fuel
join_all (working left ∷ jobs) = out_of_fuel
join_all (routed p left ∷ jobs) = out_of_fuel

abbrev pub per_task : ℕ → ℕ
per_task total = total / concurrent_tasks

abbrev pub jobs_for : ℕ → List Job
jobs_for total = replicate concurrent_tasks (working (per_task total))

abbrev pub joined : {P D : Type 0} → ℕ → List Job × Sending P D → Result Report × Sending P D
joined {P = P} {D = D} total (jobs, st) =
    continue {S = Sending P D} (join_all jobs, st)
      (λ u. pure (record {
        total_records = per_task total * concurrent_tasks;
        tasks = some concurrent_tasks;
      }))

module _ {P D : Type 0} (append : P → Record → Exec D ℕ)
    (append_batch : P → List Record → Exec D (List ℕ)) (sys : System P D) (s : Settings) where
  -- The tasks take turns as `turns` says.
  unfoldable pub run_concurrent : List (ℕ × ℕ) → Exec (State {P = P} {D = D} sys) Report
  run_concurrent turns = with_producer sys s concurrent_topic default_cfg (λ st.
      joined s.total_records
        (run_turns append append_batch (zeros s.value_size) turns (jobs_for s.total_records, st)))
