-- ===== src/Search.antt =====
-- `slice::binary_search_by_key` of the standard library, on a slice sorted by the key: the index
-- of an element with the key, or the index at which it would be inserted. (Where the keys are
-- distinct, that determines the answer.)
use kafko.Base.{ℕ, suc, ◌<◌, ◌≡◌, List, [], ◌∷◌, arith, ◌⊎◌}
use Prim.Native.Nat.{compare, Ordering}

pub data Found : Type 0 where
  found : ℕ → Found
  insert_at : ℕ → Found

abbrev pub shift : Found → Found
shift (found i) = found (suc i)
shift (insert_at i) = insert_at (suc i)

module _ {A : Type 0} (key : A → ℕ) (target : ℕ) where
  unfoldable pub binary_search : List A → Found
  binary_search [] = insert_at 0
  binary_search (x ∷ xs) = elim (compare (key x) target) [
    | Ordering.lt ↦ shift (binary_search xs)
    | Ordering.eq ↦ found 0
    | Ordering.gt ↦ insert_at 0
  ]

pub compare_cases :
    (a b : ℕ)
    → ((compare a b ≡ Ordering.lt) × (a < b))
      ⊎ (((compare a b ≡ Ordering.eq) × (a ≡ b)) ⊎ ((compare a b ≡ Ordering.gt) × (b < a)))
compare_cases a b = ground arith
