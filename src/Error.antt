-- ===== src/Error.antt =====
-- crates/kafko/src/error.rs: the error type, and `Result` with the panics of the source as a value.
use kafko.Base.{ℕ, Bytes, Option, none, some, ◌≡◌, refl}

-- The kinds of `std::io::ErrorKind` that the source tells apart.
pub data ErrorKind : Type 0 where
  not_found already_exists unexpected_eof : ErrorKind
  other_kind : ℕ → ErrorKind

-- The per-topic codec (compression.rs); an error names it.
pub data Compression : Type 0 where
  uncompressed lz4 zstd : Compression

-- The `detail` text of an `InvalidTopicLayout`.
pub data LayoutDetail : Type 0 where
  no_partition_dirs : LayoutDetail
  not_contiguous : ℕ → ℕ → LayoutDetail

pub data KafkoError : Type 0 where
  io : ErrorKind → KafkoError
  truncated : ℕ → KafkoError
  crc_mismatch : ℕ → ℕ → KafkoError
  invalid_length : ℕ → KafkoError
  closed : KafkoError
  topic_already_exists : Bytes → KafkoError
  topic_not_found : Bytes → KafkoError
  topic_in_use : Bytes → KafkoError
  unknown_compression : ℕ → KafkoError
  decompression_failed : KafkoError
  compression_unavailable : Compression → KafkoError
  already_open : Bytes → KafkoError
  partition_panicked : Bytes → KafkoError
  invalid_partition_count : ℕ → KafkoError
  invalid_group_name : Bytes → KafkoError
  invalid_topic_layout : Bytes → LayoutDetail → KafkoError

-- `panicked` is a panic: an `expect`, a slice or a buffer read out of bounds. `out_of_fuel` is no
-- result of the source: a loop of the model had too few rounds.
pub data Result {ℓ} (A : Type ℓ) : Type ℓ where
  panicked out_of_fuel : Result A
  err : KafkoError → Result A
  ok : A → Result A

infixl 5 ◌>>=◌ ◌>>◌
abbrev pub ◌>>=◌ {ℓ κ} : {A : Type ℓ} {B : Type κ} → Result A → (A → Result B) → Result B
◌>>=◌ panicked rest = panicked
◌>>=◌ out_of_fuel rest = out_of_fuel
◌>>=◌ (err e) rest = err e
◌>>=◌ (ok a) rest = rest a

abbrev pub ◌>>◌ {ℓ κ} : {A : Type ℓ} {B : Type κ} → Result A → Result B → Result B
◌>>◌ first rest = first >>= λ _. rest

-- `map_err(|_| e)` on what a foreign decoder returns.
abbrev pub or_err {ℓ} : {A : Type ℓ} → KafkoError → Option A → Result A
or_err e none = err e
or_err e (some a) = ok a

pub >>=_assoc {ℓ κ μ} :
    {A : Type ℓ} {B : Type κ} {C : Type μ} (m : Result A) (f : A → Result B) (g : B → Result C)
    → (m >>= f >>= g) ≡ (m >>= λ a. f a >>= g)
>>=_assoc (ok a) f g = refl
>>=_assoc (err e) f g = refl
>>=_assoc panicked f g = refl
>>=_assoc out_of_fuel f g = refl

-- The call returns: no panic, and fuel enough.
abbrev pub Finishes {ℓ} : {A : Type ℓ} → Result A → Type 0
Finishes (ok a) = Unit
Finishes (err e) = Unit
Finishes panicked = ⊥
Finishes out_of_fuel = ⊥
