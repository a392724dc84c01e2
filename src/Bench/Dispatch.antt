-- ===== src/Bench/Dispatch.antt =====
-- The choice of the scenario in `main` of crates/kafko-bench/src/main.rs.
use kafko.Base.{ℕ, Bytes, List, Bool, true, false, if◌then◌else◌}
use kafko.Base.NameDict.{same_name}
use kafko.Exec.{Exec}
use kafko.Compression.{Platform}
use kafko.Record.{Record}
use kafko.Broker.{System, State}
use kafko.Bench.{
  Settings, Report, sequential, concurrent, batch, lz4_sequential, zstd_sequential, run_sequential,
  run_batch, run_lz4_sequential, run_zstd_sequential,
}
use kafko.Bench.Tasks.{run_concurrent}

-- A scenario that runs, one that the build has no codec for, or a name that is none.
pub data Choice (A : Type 0) : Type 0 where
  runs : A → Choice A
  requires_feature unknown : Bytes → Choice A

abbrev with_feature : {A : Type 0} → Bool → Bytes → A → Choice A
with_feature true scenario run = runs run
with_feature false scenario run = requires_feature scenario

module _ {P D : Type 0} (append : P → Record → Exec D ℕ)
    (append_batch : P → List Record → Exec D (List ℕ)) (clock : ℕ → ℕ) (sys : System P D)
    (s : Settings) (p : Platform) where
  -- The features compression-lz4 and compression-zstd of the build are those of the platform.
  unfoldable pub run_scenario :
      List (ℕ × ℕ) → Bytes → Choice (Exec (State {P = P} {D = D} sys) Report)
  run_scenario turns scenario =
      if same_name scenario sequential
      then runs (run_sequential append append_batch clock sys s)
      else if same_name scenario concurrent
      then runs (run_concurrent append append_batch sys s turns)
      else if same_name scenario batch
      then runs (run_batch append append_batch clock sys s)
      else if same_name scenario lz4_sequential
      then with_feature p.has_lz4 lz4_sequential
          (run_lz4_sequential append append_batch clock sys s)
      else if same_name scenario zstd_sequential
      then with_feature p.has_zstd zstd_sequential
          (run_zstd_sequential append append_batch clock sys s)
      else unknown scenario
