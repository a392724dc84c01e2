-- ===== src/Examples.antt =====
-- A concrete platform and small data on which the theorems are run.
pub mod Codecs
pub mod Files
pub mod Logs
pub mod Topics
pub mod Recovery
pub mod Tasks
pub mod Sends
pub mod Faulty
use kafko.Base.{
  ℕ, ◌+◌, ◌≤◌, ◌≡◌, refl, Bytes, List, [], ◌∷◌, Option, none, some, length, drop, Bool, true, false,
  ltb, if◌then◌else◌, le→ltb, length-le32, le32, ◌++◌, ◌%◌, ◌^◌, arith, drop-append,
}
use kafko.Compression.{Platform, IsLawful}
use kafko.Record.{Record}
use kafko.Error.{uncompressed}
use kafko.Log.{LogConfig, default_config}

abbrev pub sum_bytes : Bytes → ℕ
sum_bytes [] = 0
sum_bytes (b ∷ bs) = b + sum_bytes bs

abbrev pub bounded : Bytes → Bool → Option Bytes
bounded bs true = none
bounded bs false = some bs

-- The sum of the bytes as the checksum, and codecs that copy; lz4 is in the build, zstd is not.
abbrev pub plain : Platform
plain = record {
  crc32 = λ bs. sum_bytes bs % 2 ^ 32;
  has_lz4 = true;
  has_zstd = false;
  lz4_compress = λ bs. bs;
  lz4_decompress = λ bs. some (drop 4 bs);
  zstd_compress = λ bs. bs;
  zstd_decompress = λ bs bound. bounded bs (ltb bound (length bs));
}

pub plain-IsLawful : IsLawful plain
unfolding le32
plain-IsLawful = record {
  crc32_fits = λ bs. omega arith;
  lz4_round = λ raw h. refl;
  zstd_round = λ raw bound h. rw (le→ltb bound (length raw) h);
}

-- Two records, one with a key.
abbrev pub hello : Record
hello = record { timestamp_ms = 1000; key = some (7 ∷ 8 ∷ []); value = 104 ∷ 105 ∷ [] }

abbrev pub world : Record
world = record { timestamp_ms = 1001; key = none; value = 119 ∷ [] }

-- A segment takes 40 bytes, so that the second record starts another one.
abbrev pub small_config : LogConfig
small_config = record default_config { segment_size_threshold = 40 }
