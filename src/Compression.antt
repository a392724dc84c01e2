-- ===== src/Compression.antt =====
-- crates/kafko/src/compression.rs. The codecs lz4_flex and zstd, the checksum of crc32fast and the
-- Cargo features of the build are the fields of a `Platform`.
pub mod RoundTrip
use kafko.Base.{
  ℕ, ◌+◌, ◌*◌, ◌^◌, ◌≤◌, ◌<◌, ◌≡◌, Bytes, Bool, true, false, List, [], ◌∷◌, ◌++◌, Option, none,
  some, length, take, ltb, ◌==◌, if◌then◌else◌, le32, le32_at,
}
use mathlib.Core.Option
use kafko.Error.{
  Compression, uncompressed, lz4, zstd, KafkoError, decompression_failed, unknown_compression,
  compression_unavailable, Result, ok, err, panicked, or_err,
}

-- The code that the crate calls and does not contain. `lz4_compress` is the block that
-- `compress_into_with_table` writes, `lz4_decompress` is `decompress_size_prepended`, and
-- `zstd_decompress` takes the bound on its output.
pub record Platform : Type 0 where
  pub crc32 : Bytes → ℕ
  pub has_lz4 : Bool
  pub has_zstd : Bool
  pub lz4_compress : Bytes → Bytes
  pub lz4_decompress : Bytes → Option Bytes
  pub zstd_compress : Bytes → Bytes
  pub zstd_decompress : Bytes → ℕ → Option Bytes

-- What the documentation of those crates promises.
pub record IsLawful (p : Platform) : Type 0 where
  pub crc32_fits : (bs : Bytes) → p.crc32 bs < 2 ^ 32
  pub lz4_round :
      (raw : Bytes)
      → length raw < 2 ^ 32
      → p.lz4_decompress (le32 (length raw) ++ p.lz4_compress raw) ≡ some raw
  pub zstd_round :
      (raw : Bytes) (bound : ℕ)
      → length raw ≤ bound
      → p.zstd_decompress (p.zstd_compress raw) bound ≡ some raw

-- `DECOMPRESS_MAX_SIZE`
abbrev pub decompress_max_size : ℕ
decompress_max_size = 16 * 1024 * 1024

unfoldable pub flag : Compression → ℕ
flag uncompressed = 0
flag lz4 = 1
flag zstd = 2

unfoldable pub from_flag : ℕ → Result Compression
from_flag f =
    if f == 0
    then ok uncompressed
    else (if f == 1 then ok lz4 else (if f == 2 then ok zstd else err (unknown_compression f)))

unfoldable pub is_available : Platform → Compression → Bool
is_available p uncompressed = true
is_available p lz4 = p.has_lz4
is_available p zstd = p.has_zstd

-- The size prefix is `raw.len() as u32`, so it wraps.
unfoldable pub lz4_compress : Platform → Bytes → Result Bytes
lz4_compress p raw =
    if p.has_lz4
    then ok (le32 (length raw) ++ p.lz4_compress raw)
    else err (compression_unavailable lz4)

unfoldable pub zstd_compress : Platform → Bytes → Result Bytes
zstd_compress p raw =
    if p.has_zstd then ok (p.zstd_compress raw) else err (compression_unavailable zstd)

-- `out` is cleared first, so the result is the whole buffer.
unfoldable pub compress : Platform → Compression → Bytes → Result Bytes
unfolding lz4_compress zstd_compress
compress p uncompressed raw = ok raw
compress p lz4 raw = lz4_compress p raw
compress p zstd raw = zstd_compress p raw

-- The size that the prefix of an LZ4 value claims, where there are four bytes.
abbrev claimed_size : Bytes → Option ℕ
claimed_size compressed = Option.map (λ r. r.0) (le32_at compressed)

abbrev check_claim : Platform → Bytes → Option ℕ → Result Bytes
check_claim p compressed none = err decompression_failed
check_claim p compressed (some claimed) =
    if ltb decompress_max_size claimed
    then err decompression_failed
    else or_err decompression_failed (p.lz4_decompress compressed)

unfoldable pub lz4_decompress : Platform → Bytes → Result Bytes
lz4_decompress p compressed =
    if p.has_lz4
    then check_claim p compressed (claimed_size compressed)
    else err (compression_unavailable lz4)

unfoldable pub zstd_decompress : Platform → Bytes → Result Bytes
zstd_decompress p compressed =
    if p.has_zstd
    then or_err decompression_failed (p.zstd_decompress compressed decompress_max_size)
    else err (compression_unavailable zstd)

unfoldable pub decompress : Platform → Compression → Bytes → Result Bytes
unfolding lz4_decompress zstd_decompress
decompress p uncompressed compressed = ok compressed
decompress p lz4 compressed = lz4_decompress p compressed
decompress p zstd compressed = zstd_decompress p compressed
