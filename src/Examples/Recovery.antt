-- ===== src/Examples/Recovery.antt =====
-- Runs of the theorems on the recovery and the retention of log.rs.
use kafko.Base.{
  be32, be64, ℕ, ◌+◌, ◌≡◌, ◌<◌, refl, sym, Bytes, List, [], ◌∷◌, ◌++◌, arith, length, take, drop,
  take-append-drop, some, none, All,
}
use kafko.Base.Dict
use kafko.Error.{uncompressed, ok}
use kafko.Disk.{Disk, calm}
use kafko.Compression.{compress, is_available}
use kafko.Record.Encode.{frame, payload}
use kafko.Log.{Log, LogConfig, State, IndexedSegment}
use kafko.Log.Retained.{IsUnlinked, drop_count}
use kafko.Log.Append.{stored_as, stored_as-IsStored}
use kafko.Log.Content.{Represents, Stored}
use kafko.Log.Create.{fresh_log}
use kafko.Log.Rotate.{fresh_pair, fresh_pair-IsSegment, IsFresh-insert}
use kafko.Log.Open.{open_existing, sort}
use kafko.Log.Recover.{short}
use kafko.Log.Reopen.{IsCrashed, open_existing-Represents, open_existing-torn}
use kafko.Log.Retention.{apply_retention, oldest_base}
use kafko.Log.Expire.{apply_retention-Represents}
use kafko.Record.{decode}
use kafko.Examples.{plain, plain-IsLawful, hello, small_config}

abbrev hello_value : Bytes
hello_value = 104 ∷ 105 ∷ []

abbrev stored_hello : Stored
stored_hello = stored_as plain hello uncompressed hello_value

-- One whole record and three bytes of another.
abbrev crashed_logs : List (ℕ × Bytes)
crashed_logs = (0, stored_hello.bytes ++ (0 ∷ 0 ∷ 0 ∷ [])) ∷ []

only_zero : (c : Bytes) (k : ℕ) → 0 < k → Dict.lookup k ((0, c) ∷ []) ≡ none
only_zero c k h = ground arith

crashed : IsCrashed plain crashed_logs [] 0 [] 0 (stored_hello ∷ []) (0 ∷ 0 ∷ 0 ∷ [])
unfolding sort frame payload be32 be64 decode is_available compress
crashed = record {
  files = refl;
  sealed = refl;
  active = refl;
  stored = (
    stored_as-IsStored plain hello uncompressed hello_value plain-IsLawful refl (omega arith) refl
        (record { stamp = omega arith; room = omega arith }),
    tt,
  );
  tail = short _ refl;
  room = omega arith;
  fresh_logs = only_zero (stored_hello.bytes ++ (0 ∷ 0 ∷ 0 ∷ []));
  fresh_indexes = λ k h. refl;
}

open_existing-Represents_example :
    (l : Log) × (d : Disk) × (open_existing plain small_config (calm crashed_logs []) ≡ (ok l, d))
    × Represents plain l d 0 (hello ∷ [])
    × (l.config ≡ small_config)
open_existing-Represents_example =
    open_existing-Represents plain small_config crashed_logs [] 0 [] 0 (stored_hello ∷ [])
      (0 ∷ 0 ∷ 0 ∷ []) crashed

abbrev hello_frame : Bytes
hello_frame = frame plain hello uncompressed hello_value

open_existing-torn_example :
    (l : Log) × (d : Disk) × (open_existing plain small_config (
        calm
          (Dict.insert 0 ([] ++ take 10 hello_frame) (Dict.insert 0 [] []))
          (Dict.insert 0 [] []))
      ≡ (ok l, d))
    × Represents plain l d 0 []
    × (l.config ≡ small_config)
unfolding sort frame payload be32 be64 Dict.insert
open_existing-torn_example =
    open_existing-torn plain small_config (fresh_log small_config) (Dict.insert 0 [] [])
      (Dict.insert 0 [] []) 0 [] 0 (fresh_pair 0 small_config.index_interval, []) hello uncompressed
      hello_value (take 10 hello_frame) (drop 10 hello_frame)
      (record {
        segments = refl;
        sealed = refl;
        active = fresh_pair-IsSegment plain [] [] 0 small_config.index_interval;
        next = refl;
        fresh_logs = IsFresh-insert 0 0 [] [] (omega arith) (λ k h. refl);
        fresh_indexes = IsFresh-insert 0 0 [] [] (omega arith) (λ k h. refl);
      })
      refl (omega arith) (record { stamp = omega arith; room = omega arith })
      (sym (take-append-drop 10 hello_frame)) (omega arith)

-- A log with one record in a full segment, above the size that is kept, and nothing in the active one.
abbrev short_config : LogConfig
short_config = record small_config { max_segment_age = some 5; max_partition_bytes = some 10 }

abbrev full : IndexedSegment
full = record {
  segment = record { base_offset = 0; position = 0; size = length hello_frame; cursor = none };
  index = record { base_offset = 0; entries = []; bytes_since_last_entry = 0; interval = 4096 };
}

abbrev two_logs : List (ℕ × Bytes)
two_logs = (0, hello_frame) ∷ ((1, []) ∷ [])

abbrev two_indexes : List (ℕ × Bytes)
two_indexes = (0, []) ∷ ((1, []) ∷ [])

abbrev two_segments : Log
two_segments = record {
  config = short_config;
  segments = full ∷ (fresh_pair 1 4096 ∷ []);
  next_offset = 1;
}

only_two : (a b : Bytes) (k : ℕ) → 1 < k → Dict.lookup k ((0, a) ∷ ((1, b) ∷ [])) ≡ none
only_two a b k h = ground arith

two_segments-Represents : Represents plain two_segments (calm two_logs two_indexes) 0 (hello ∷ [])
unfolding Dict.insert is_available compress frame payload be32 be64
two_segments-Represents = record {
  ls = two_logs;
  xs = two_indexes;
  zs = (full, stored_hello ∷ []) ∷ [];
  top = 1;
  z = (fresh_pair 1 4096, []);
  disk = refl;
  is_log = record {
    segments = refl;
    sealed = (
      record {
        based = refl;
        index_based = refl;
        holds = record { file = refl; sized = refl; agrees = tt };
        file = refl;
        rises = tt;
        marks = tt;
        stored = crashed.stored;
      },
      omega arith,
      refl,
    );
    active = fresh_pair-IsSegment plain ((0, hello_frame) ∷ []) ((0, []) ∷ []) 1 4096;
    next = refl;
    fresh_logs = only_two hello_frame [];
    fresh_indexes = only_two [] [];
  };
  records = refl;
}

apply_retention-Represents_example :
    (s : State) × (k : ℕ) × (apply_retention (λ base. 0) 3 (two_segments, calm two_logs two_indexes)
      ≡ (ok (0 + 1), s))
    × (s.0.segments ≡ drop (0 + 1) two_segments.segments)
    × (0 + 1 < length two_segments.segments)
    × All (IsUnlinked s.1) (full ∷ [])
    × (oldest_base s.0.segments ≡ 0 + k)
    × Represents plain s.0 s.1 (0 + k) (drop k (hello ∷ []))
    × (s.0.config ≡ short_config)
    × (s.0.next_offset ≡ 1)
unfolding drop_count frame payload be32 be64
apply_retention-Represents_example =
    apply_retention-Represents plain (λ base. 0) 3 two_segments (calm two_logs two_indexes) 0
      (hello ∷ []) 0 1 two_segments-Represents refl refl
