-- ===== src/Base/Words.antt =====
-- Byte strings as lists of numbers; fixed-width integers written to them and read back.
use Prim.Native.Nat.{ℕ, ◌+◌, ◌*◌, ◌/◌, ◌%◌, ◌^◌, ◌<◌}
use mathlib.Core.Path.{◌≡◌, refl, ap}
use mathlib.Core.Option.{Option, none, some}
use mathlib.Core.List.{List, [], ◌∷◌, ◌++◌}
use native.Mathlib.Omega.{arith}
use kafko.Base.Lists.{length}

abbrev pub Bytes : Type 0
Bytes = List ℕ

-- `u32::to_be_bytes` after a conversion `as u32`, so only the low 32 bits count.
unfoldable pub be32 : ℕ → Bytes
be32 n = (n / 2 ^ 24 % 256) ∷ (n / 2 ^ 16 % 256) ∷ (n / 2 ^ 8 % 256) ∷ (n % 256) ∷ []

-- `u64::to_be_bytes`, and `i64::to_be_bytes` of the two's complement pattern.
unfoldable pub be64 : ℕ → Bytes
unfolding be32
be64 n = be32 (n / 2 ^ 32) ++ be32 n

unfoldable pub le32 : ℕ → Bytes
le32 n = (n % 256) ∷ (n / 2 ^ 8 % 256) ∷ (n / 2 ^ 16 % 256) ∷ (n / 2 ^ 24 % 256) ∷ []

unfoldable pub le64 : ℕ → Bytes
unfolding le32
le64 n = le32 n ++ le32 (n / 2 ^ 32)

abbrev pub of_be32 : ℕ → ℕ → ℕ → ℕ → ℕ
of_be32 a b c d = a * 2 ^ 24 + b * 2 ^ 16 + c * 2 ^ 8 + d

pub of_be32-bytes :
    (n : ℕ)
    → n < 2 ^ 32
    → of_be32 (n / 2 ^ 24 % 256) (n / 2 ^ 16 % 256) (n / 2 ^ 8 % 256) (n % 256) ≡ n
of_be32-bytes n h = omega arith

pub of_be32-low :
    (n : ℕ) → of_be32 (n / 2 ^ 24 % 256) (n / 2 ^ 16 % 256) (n / 2 ^ 8 % 256) (n % 256) ≡ n % 2 ^ 32
of_be32-low n = omega arith

-- The number that four little-endian bytes at the front of `bs` stand for.
abbrev pub le32_at : Bytes → Option (ℕ × Bytes)
le32_at (a ∷ b ∷ c ∷ d ∷ rest) = some (of_be32 d c b a, rest)
le32_at _ = none

pub le32_at-le32 : (n : ℕ) (rest : Bytes) → n < 2 ^ 32 → le32_at (le32 n ++ rest) ≡ some (n, rest)
unfolding le32
le32_at-le32 n rest h = ap (λ (k : ℕ). some (k, rest)) (of_be32-bytes n h)

pub length-be32 : (n : ℕ) → length (be32 n) ≡ 4
unfolding be32
length-be32 n = refl

pub length-be64 : (n : ℕ) → length (be64 n) ≡ 8
unfolding be64
length-be64 n = refl

pub length-le32 : (n : ℕ) → length (le32 n) ≡ 4
unfolding le32
length-le32 n = refl

pub length-le64 : (n : ℕ) → length (le64 n) ≡ 8
unfolding le64
length-le64 n = refl
