-- ===== src/Topic/Numbers.antt =====
-- The parts of topic.rs that touch no partition: the hash of a key, the choice of a partition, and
-- the check of the subdirectories' numbers.
use kafko.Base.{
  ℕ, zero, suc, ◌+◌, ◌-◌, ◌*◌, ◌%◌, ◌^◌, Bytes, List, [], ◌∷◌, Option, none, some, leb, ltb, ◌==◌,
  ◌&&◌, Bool, true, if◌then◌else◌,
}
use Prim.Native.Nat.{bit_xor}
use kafko.Error.{
  invalid_topic_layout, no_partition_dirs, not_contiguous, Result, ok, err, panicked, ◌>>=◌, ◌>>◌,
}
use kafko.Log.Open.{sort}

abbrev offset_basis : ℕ
offset_basis = 14695981039346656037

abbrev prime : ℕ
prime = 1099511628211

unfoldable pub fnv1a_from : ℕ → Bytes → ℕ
fnv1a_from hash [] = hash
fnv1a_from hash (b ∷ bs) = fnv1a_from (bit_xor hash b * prime % 2 ^ 64) bs

unfoldable pub fnv1a_64 : Bytes → ℕ
fnv1a_64 bytes = fnv1a_from offset_basis bytes

-- A remainder by zero panics.
abbrev pub rem : ℕ → ℕ → Result ℕ
rem n zero = panicked
rem n (suc m) = ok (n % suc m)

-- `(n % partition_count as u64) as u32`
unfoldable pub pick : ℕ → ℕ → Result ℕ
pick n partition_count = do m ← rem n partition_count; ok (m % 2 ^ 32)

unfoldable pub partition_index : Bytes → ℕ → Result ℕ
unfolding pick fnv1a_64
partition_index key partition_count = pick (fnv1a_64 key) partition_count

-- `n` numbers from `k` on.
abbrev pub numbers_from : ℕ → ℕ → List ℕ
numbers_from k zero = []
numbers_from k (suc n) = k ∷ numbers_from (k + 1) n

digits : ℕ → Bytes → Option ℕ
digits value [] = some value
digits value (b ∷ bs) =
    let rest = digits (value * 10 + (b - b'0')) bs in
    if leb b'0' b && leb b b'9' then rest else none

below : ℕ → Option ℕ → Option ℕ
below bound none = none
below bound (some n) = if ltb n bound then some n else none

-- `str::parse` of an unsigned number below `bound`: digits, also behind a plus sign, and at least one.
unfoldable pub parse_below : ℕ → Bytes → Option ℕ
unfolding digits below
parse_below bound [] = none
parse_below bound (b ∷ []) = below bound (digits 0 (b ∷ []))
parse_below bound (b ∷ (c ∷ bs)) =
    below bound (digits 0 (if b == b'+' then c ∷ bs else b ∷ (c ∷ bs)))

unfoldable pub parse_u32 : Bytes → Option ℕ
unfolding parse_below
parse_u32 s = parse_below (2 ^ 32) s

abbrev keep : Bool → Option ℕ → List ℕ → List ℕ
keep true (some index) indices = index ∷ indices
keep _ _ indices = indices

-- The directory's entries, each with whether it is a directory, in the order of `read_dir`.
unfoldable pub discover_partition_indices : List (Bytes × Bool) → List ℕ
discover_partition_indices [] = []
discover_partition_indices ((name, is_dir) ∷ entries) =
    keep is_dir (parse_u32 name) (discover_partition_indices entries)

-- The loop over `indices.iter().enumerate()`, from `expected` on.
unfoldable pub check_contiguous : Bytes → ℕ → List ℕ → Result (Unit {0})
check_contiguous topic expected [] = ok tt
check_contiguous topic expected (actual ∷ indices) =
    if expected % 2 ^ 32 == actual
    then check_contiguous topic (expected + 1) indices
    else err (invalid_topic_layout topic (not_contiguous expected actual))

abbrev check_layout : Bytes → List ℕ → Result (List ℕ)
check_layout topic [] = err (invalid_topic_layout topic no_partition_dirs)
check_layout topic (i ∷ indices) = do check_contiguous topic 0 (i ∷ indices); ok (i ∷ indices)

-- The checks of `Topic::open`, with the sorted numbers.
unfoldable pub layout : Bytes → List ℕ → Result (List ℕ)
layout topic indices = check_layout topic (sort indices)
