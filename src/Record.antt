-- ===== src/Record.antt =====
-- crates/kafko/src/record.rs: a record, its wire form and the decoder. A buffer is the list of its
-- bytes; `timestamp_ms` is the 64-bit pattern of the `i64`.
pub mod Encode
pub mod Decode
pub mod RoundTrip
use kafko.Base.{
  ℕ, ◌+◌, ◌-◌, ◌*◌, ◌^◌, Bytes, List, [], ◌∷◌, ◌++◌, Option, none, some, length, take, drop, ltb,
  ◌==◌, if◌then◌else◌, be32, be64, of_be32,
}
use kafko.Error.{
  Compression, uncompressed, lz4, zstd, truncated, crc_mismatch, invalid_length, Result, ok, err,
  panicked, ◌>>=◌,
}
use kafko.Compression.{Platform, flag, from_flag, compress, decompress}

pub record Record : Type 0 where
  pub timestamp_ms : ℕ
  pub key : Option Bytes
  pub value : Bytes

-- `KEY_NULL_SENTINEL` and `MIN_TOTAL_LEN`
abbrev pub key_null_sentinel : ℕ
key_null_sentinel = 2 ^ 32 - 1

abbrev pub min_total_len : ℕ
min_total_len = 4 + 1 + 8 + 4 + 4

-- `Record::new`
unfoldable pub new : ℕ → Option Bytes → Bytes → Record
new timestamp_ms key value = record { timestamp_ms = timestamp_ms; key = key; value = value }

abbrev pub key_part : Option Bytes → ℕ
key_part none = 4
key_part (some k) = 4 + length k

unfoldable pub wire_size : Record → ℕ
wire_size r = 4 + 4 + 1 + 8 + key_part r.key + 4 + length r.value

-- The key's length and bytes, or the sentinel.
abbrev pub put_key : Option Bytes → Bytes
put_key none = be32 key_null_sentinel
put_key (some k) = be32 (length k) ++ k

abbrev pub unwrap_or : Option Bytes → Bytes → Bytes
unwrap_or none d = d
unwrap_or (some v) d = v

-- `out[at..at + len(with)].copy_from_slice(with)`
abbrev patch : ℕ → Bytes → Bytes → Bytes
patch at with out = take at out ++ (with ++ drop (at + length with) out)

-- The buffer after the call and the byte count that it returns. The length and the lengths of the
-- key and the value are written `as u32`.
unfoldable pub encode_inner : Platform → Record → Bytes → Compression → Option Bytes → Bytes × ℕ
encode_inner p r out c val_bytes_override =
    let val_bytes = unwrap_or val_bytes_override r.value in
    let val_part = 4 + length val_bytes in
    let payload_len = 1 + 8 + key_part r.key + val_part in
    let total_len = 4 + payload_len in
    let out1 = out ++ be32 total_len in
    let out2 = out1 ++ be32 0 in
    let payload =
      flag c ∷ (be64 r.timestamp_ms ++ (put_key r.key ++ (be32 (length val_bytes) ++ val_bytes))) in
    let out3 = out2 ++ payload in
    let crc = p.crc32 (drop (length out2) out3) in
    let out4 = patch (length out1) (be32 crc) out3 in (out4, length out4 - length out)

-- `encode`
unfoldable pub encode : Platform → Record → Bytes → Bytes × ℕ
unfolding encode_inner
encode p r out = encode_inner p r out uncompressed none

unfoldable pub encode_with : Platform → Record → Bytes → Compression → Result (Bytes × ℕ)
encode_with p r out uncompressed = ok (encode_inner p r out uncompressed none)
encode_with p r out lz4 = do
  scratch ← compress p lz4 r.value
  ok (encode_inner p r out lz4 (some scratch))
encode_with p r out zstd = do
  scratch ← compress p zstd r.value
  ok (encode_inner p r out zstd (some scratch))

-- `Buf::get_u8`, `get_u32` and `get_i64` on a slice: they panic on one that is too short.
abbrev pub get_u8 : Bytes → Result (ℕ × Bytes)
get_u8 (a ∷ rest) = ok (a, rest)
get_u8 [] = panicked

abbrev pub get_u32 : Bytes → Result (ℕ × Bytes)
get_u32 (a ∷ b ∷ c ∷ d ∷ rest) = ok (of_be32 a b c d, rest)
get_u32 _ = panicked

unfoldable pub get_i64 : Bytes → Result (ℕ × Bytes)
get_i64 buf = do (hi, buf1) ← get_u32 buf; (lo, buf2) ← get_u32 buf1; ok (hi * 2 ^ 32 + lo, buf2)

-- The key, and the value with its decompression. Only what is left of the whole buffer bounds them.
unfoldable pub decode_key : ℕ → ℕ → Bytes → Result (Option Bytes × Bytes)
decode_key total_len key_len_raw buf =
    if key_len_raw == key_null_sentinel
    then ok (none, buf)
    else (if ltb (length buf) key_len_raw
        then err (invalid_length total_len)
        else ok (some (take key_len_raw buf), drop key_len_raw buf))

unfoldable pub decode_value : Platform → ℕ → Compression → Bytes → Result (Bytes × Bytes)
decode_value p total_len c buf = if ltb (length buf) 4 then err (invalid_length total_len) else do
  (val_len, buf1) ← get_u32 buf
  if ltb (length buf1) val_len
      then err (invalid_length total_len)
      else do value ← decompress p c (take val_len buf1); ok (value, drop val_len buf1)

-- From the flags byte on.
unfoldable pub decode_payload : Platform → ℕ → Bytes → Result (Record × Bytes)
decode_payload p total_len buf = do
  (f, buf1) ← get_u8 buf
  c ← from_flag f
  (timestamp_ms, buf2) ← get_i64 buf1
  (key_len_raw, buf3) ← get_u32 buf2
  (key, buf4) ← decode_key total_len key_len_raw buf3
  (value, buf5) ← decode_value p total_len c buf4
  ok (new timestamp_ms key value, buf5)

-- From the checksum on.
unfoldable pub decode_body : Platform → ℕ → Bytes → Result (Record × Bytes)
decode_body p total_len buf = do
  (expected_crc, buf1) ← get_u32 buf
  let actual_crc = p.crc32 (take (total_len - 4) buf1)
  if actual_crc == expected_crc
      then decode_payload p total_len buf1
      else err (crc_mismatch expected_crc actual_crc)

-- The record and what is left of the buffer behind it. (After an error the callers do not look at
-- how far the slice was advanced.)
unfoldable pub decode : Platform → Bytes → Result (Record × Bytes)
decode p buf = if ltb (length buf) 4 then err (truncated (4 - length buf)) else do
  (total_len, buf1) ← get_u32 buf
  if ltb total_len min_total_len
      then err (invalid_length total_len)
      else (if ltb (length buf1) total_len
          then err (truncated (total_len - length buf1))
          else decode_body p total_len buf1)
