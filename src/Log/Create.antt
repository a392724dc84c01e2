-- ===== src/Log/Create.antt =====
-- `create` of log.rs in an empty directory: a log without records.
use kafko.Base.{◌≡◌, refl, [], ◌∷◌, arith}
use kafko.Base.Dict
use kafko.Error.{ok}
use kafko.Disk.{Disk, calm, create_log, create_index}
use kafko.Compression.{Platform}
use kafko.Segment
use kafko.SparseIndex
use kafko.Log.{Log, LogConfig, create}
use kafko.Log.Content.{Represents}
use kafko.Log.Rotate.{fresh_pair, fresh_pair-IsSegment, IsFresh-insert}

abbrev pub fresh_log : LogConfig → Log
fresh_log config = record {
  config = config;
  segments = fresh_pair 0 config.index_interval ∷ [];
  next_offset = 0;
}

abbrev pub fresh_disk : Disk
fresh_disk = calm (Dict.insert 0 [] []) (Dict.insert 0 [] [])

-- `create` in an empty directory leaves one empty pair of files and a log that holds no record and
-- starts at offset 0.
pub create-Represents :
    (p : Platform) (config : LogConfig)
    → (create config (calm [] []) ≡ (ok (fresh_log config), fresh_disk))
      × Represents p (fresh_log config) fresh_disk 0 []
unfolding create Segment.create SparseIndex.create create_log create_index
create-Represents p config = (
  refl,
  record {
    ls = Dict.insert 0 [] [];
    xs = Dict.insert 0 [] [];
    zs = [];
    top = 0;
    z = (fresh_pair 0 config.index_interval, []);
    disk = refl;
    is_log = record {
      segments = refl;
      sealed = refl;
      active = fresh_pair-IsSegment p [] [] 0 config.index_interval;
      next = refl;
      fresh_logs = IsFresh-insert 0 0 [] [] (omega arith) (λ k h. refl);
      fresh_indexes = IsFresh-insert 0 0 [] [] (omega arith) (λ k h. refl);
    };
    records = refl;
  },
)
