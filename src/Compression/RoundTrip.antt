-- ===== src/Compression/RoundTrip.antt =====
-- What compression.rs keeps: the flag byte, a value through a codec, and the cap on its size.
use kafko.Base.{
  ℕ, zero, suc, ◌^◌, ◌≤◌, ◌<◌, ◌≡◌, refl, Bytes, true, false, ◌++◌, length, le32, arith, Bool-cases,
  inl, inr, ◌⊎◌, Option, some, none, ltb, le→ltb, le32_at-le32,
}
use kafko.Error.{
  Compression, uncompressed, lz4, zstd, unknown_compression, compression_unavailable, ok, err,
  or_err, KafkoError, Finishes,
}
use kafko.Compression.{
  Platform, IsLawful, decompress_max_size, flag, from_flag, is_available, compress, decompress,
  check_claim, claimed_size,
}

-- Each flag byte from 0 to 2 is read as the codec that writes it, and every other one is refused
-- with its value.
from_flag_iff :
    (f : ℕ)
    → ((c : Compression) × (from_flag f ≡ ok c) × (flag c ≡ f))
      ⊎ ((from_flag f ≡ err (unknown_compression f)) × (2 < f))
unfolding from_flag flag
from_flag_iff zero = inl (uncompressed, refl, refl)
from_flag_iff (suc zero) = inl (lz4, refl, refl)
from_flag_iff (suc (suc zero)) = inl (zstd, refl, refl)
from_flag_iff (suc (suc (suc n))) = inr (ground arith, omega arith)

pub from_flag-flag : (c : Compression) → from_flag (flag c) ≡ ok c
unfolding from_flag flag
from_flag-flag uncompressed = refl
from_flag-flag lz4 = refl
from_flag-flag zstd = refl

pub flag-lt : (c : Compression) → flag c < 3
unfolding flag
flag-lt uncompressed = omega arith
flag-lt lz4 = omega arith
flag-lt zstd = omega arith

lz4_claim :
    (raw block : Bytes)
    → length raw < 2 ^ 32
    → claimed_size (le32 (length raw) ++ block) ≡ some (length raw)
lz4_claim raw block h = rw (le32_at-le32 (length raw) block h)

-- Under a lawful platform with the codec in the build, `compress` succeeds on a value within the
-- cap and `decompress` gives the value back.
pub decompress-compress :
    (p : Platform) (c : Compression) (raw : Bytes)
    → IsLawful p
    → is_available p c ≡ true
    → length raw ≤ decompress_max_size
    → (out : Bytes) × (compress p c raw ≡ ok out) × (decompress p c out ≡ ok raw)
unfolding compress decompress is_available
decompress-compress p uncompressed raw l a h = (raw, refl, refl)
decompress-compress p lz4 raw l a h = (
  le32 (length raw) ++ p.lz4_compress raw,
  rw a,
  rw (a, lz4_claim raw (p.lz4_compress raw) (omega arith), l.lz4_round raw (omega arith))
      (rw (le→ltb decompress_max_size (length raw) h)),
)
decompress-compress p zstd raw l a h =
    (p.zstd_compress raw, rw a, rw (a, l.zstd_round raw decompress_max_size h))

-- A codec that the build lacks is refused by name in both directions, whatever the bytes.
compress_unavailable :
    (p : Platform) (c : Compression) (bs : Bytes)
    → is_available p c ≡ false
    → (compress p c bs ≡ err (compression_unavailable c))
      × (decompress p c bs ≡ err (compression_unavailable c))
unfolding compress decompress is_available
compress_unavailable p uncompressed bs a = cc
compress_unavailable p lz4 bs a = (rw a, rw a)
compress_unavailable p zstd bs a = (rw a, rw a)

-- Neither direction panics, whatever the bytes.
or_err-Finishes {ℓ} : {A : Type ℓ} (e : KafkoError) (o : Option A) → Finishes (or_err e o)
or_err-Finishes e none = tt
or_err-Finishes e (some a) = tt

pub decompress-Finishes :
    (p : Platform) (c : Compression) (bs : Bytes) → Finishes (decompress p c bs)
unfolding decompress
decompress-Finishes p uncompressed bs = tt
decompress-Finishes p lz4 bs = elim (Bool-cases p.has_lz4) [
  | inl e ↦ rw e (claim (claimed_size bs))
  | inr e ↦ rw e tt
]
  where
    claim : (o : Option ℕ) → Finishes (check_claim p bs o)
    claim none = tt
    claim (some n) = elim (Bool-cases (ltb decompress_max_size n)) [
      | inl e ↦ rw e tt
      | inr e ↦ rw e (or_err-Finishes _ (p.lz4_decompress bs))
    ]
decompress-Finishes p zstd bs = elim (Bool-cases p.has_zstd) [
  | inl e ↦ rw e (or_err-Finishes _ (p.zstd_decompress bs decompress_max_size))
  | inr e ↦ rw e tt
]

pub from_flag-Finishes : (f : ℕ) → Finishes (from_flag f)
from_flag-Finishes f = elim (from_flag_iff f) [ inl (c, e, _) ↦ rw e tt | inr (e, _) ↦ rw e tt ]
