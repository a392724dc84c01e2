-- ===== src/Producer/Covered.antt =====
-- The buckets of a batch in producer.rs: their places cover the batch, and a bucket has the records of
-- its partition.
use kafko.Base.{
  ℕ, zero, suc, ◌+◌, ◌<◌, ◌≡◌, refl, ap, ◌∙◌, List, [], ◌∷◌, some, length, get_elem?, replicate,
  ◌==◌, Bool-cases, eq→==, arith, inl, inr,
}
use mathlib.Core.Path.{subst}
use kafko.Record.{Record}
use kafko.Topic.{RecordPosition}
use kafko.Producer.{Numbered}
use kafko.Producer.Buckets.{index, index_lt, turned, routes, assigned, filled}
use kafko.Producer.Positions.{
  bumped, targets, sent_to, AllPlaced, Listed, SomeListed, records_of, assigned-Placed,
}
use kafko.Producer.Batch.{bucket_at}

abbrev pub no_buckets : ℕ → List (List Numbered)
no_buckets n = replicate n []

pub filled-AllPlaced :
    (target : List RecordPosition) (next : ℕ → ℕ) (p m idx : ℕ) (qs : List ℕ) (rs : List Record)
    → ((j : ℕ) → get_elem? target (idx + j) ≡ get_elem? (targets next qs) j)
    → AllPlaced target next p (filled p (no_buckets m) idx qs rs)
filled-AllPlaced target next p zero idx qs rs h = tt
filled-AllPlaced target next p (suc m) idx qs rs h = (
  assigned-Placed target next p idx (next p) qs rs refl h,
  filled-AllPlaced target next (p + 1) m idx qs rs h,
)

assigned-Listed :
    (p idx j : ℕ) (qs : List ℕ) (rs : List Record)
    → get_elem? qs j ≡ some p
    → j < length rs
    → Listed (idx + j) (assigned p idx qs rs)
assigned-Listed p idx j [] rs h l = absurd cc
assigned-Listed p idx j (q ∷ qs) [] h l = absurd (omega arith)
assigned-Listed p idx zero (q ∷ qs) (r ∷ rs) h l =
    let same : q ≡ p = cc in rw (eq→== q p same) (inl (let e : idx ≡ idx + 0 = omega arith in e))
assigned-Listed p idx (suc j) (q ∷ qs) (r ∷ rs) h l =
    let e : idx + 1 + j ≡ idx + suc j = omega arith in
    let rest : Listed (idx + suc j) (assigned p (idx + 1) qs rs) =
      rw (← e) (assigned-Listed p (idx + 1) j qs rs h (omega arith)) in
    elim (Bool-cases (q == p)) [ inl y ↦ rw y (inr rest) | inr y ↦ rw y rest ]

pub filled-SomeListed :
    (p k m j : ℕ) (qs : List ℕ) (rs : List Record)
    → get_elem? qs j ≡ some (p + k)
    → j < length rs
    → k < m
    → SomeListed j (filled p (no_buckets m) 0 qs rs)
filled-SomeListed p k zero j qs rs h l b = absurd (omega arith)
filled-SomeListed p zero (suc m) j qs rs h l b =
    let e : p + 0 ≡ p = omega arith in
    let z : 0 + j ≡ j = omega arith in
    inl
      (subst (λ i. Listed i (assigned p 0 qs rs)) z (assigned-Listed p 0 j qs rs (h ∙ ap some e) l))
filled-SomeListed p (suc k) (suc m) j qs rs h l b =
    let e : p + suc k ≡ p + 1 + k = omega arith in
    inr (filled-SomeListed (p + 1) k m j qs rs (rw (← e) h) l (omega arith))

pub bucket_at-filled :
    (p k m : ℕ) (qs : List ℕ) (rs : List Record)
    → k < m
    → bucket_at (filled p (no_buckets m) 0 qs rs) k ≡ assigned (p + k) 0 qs rs
bucket_at-filled p k zero qs rs b = absurd (omega arith)
bucket_at-filled p zero (suc m) qs rs b =
    ap (λ i. assigned i 0 qs rs) (let e : p ≡ p + 0 = omega arith in e)
bucket_at-filled p (suc k) (suc m) qs rs b =
    bucket_at-filled (p + 1) k m qs rs (omega arith)
    ∙ ap (λ i. assigned i 0 qs rs) (let e : p + 1 + k ≡ p + suc k = omega arith in e)

pub records_of-assigned :
    (p idx : ℕ) (qs : List ℕ) (rs : List Record)
    → records_of (assigned p idx qs rs) ≡ sent_to p qs rs
records_of-assigned p idx [] rs = refl
records_of-assigned p idx (q ∷ qs) [] = refl
records_of-assigned p idx (q ∷ qs) (r ∷ rs) = elim (Bool-cases (q == p)) [
  | inl y ↦ rw (y, records_of-assigned p (idx + 1) qs rs)
  | inr y ↦ rw (y, records_of-assigned p (idx + 1) qs rs)
]

pub length-routes : (n c : ℕ) (rs : List Record) → length (routes n c rs) ≡ length rs
length-routes n c [] = refl
length-routes n c (r ∷ rs) = ap suc (length-routes n (turned c r.key) rs)

pub length-targets : (next : ℕ → ℕ) (qs : List ℕ) → length (targets next qs) ≡ length qs
length-targets next [] = refl
length-targets next (q ∷ qs) = ap suc (length-targets (bumped next q) qs)

pub get_elem?-routes :
    (n c : ℕ) (rs : List Record) (i : ℕ)
    → 0 < n
    → i < length rs
    → (q : ℕ) × (get_elem? (routes n c rs) i ≡ some q) × (q < n)
get_elem?-routes n c [] i h l = absurd (omega arith)
get_elem?-routes n c (r ∷ rs) zero h l = (index n c r.key, refl, index_lt n c r.key h)
get_elem?-routes n c (r ∷ rs) (suc i) h l = get_elem?-routes n (turned c r.key) rs i h (omega arith)

pub same_list {ℓ} :
    {A : Type ℓ} (xs ys : List A)
    → length xs ≡ length ys
    → ((i : ℕ) → i < length ys → get_elem? xs i ≡ get_elem? ys i)
    → xs ≡ ys
same_list [] [] e h = refl
same_list [] (y ∷ ys) e h = absurd (omega (arith, e))
same_list (x ∷ xs) [] e h = absurd (omega (arith, e))
same_list (x ∷ xs) (y ∷ ys) e h =
    let first : some x ≡ some y = h 0 (omega arith) in
    let same : x ≡ y = cc in
    rw (same, same_list xs ys (omega (arith, e)) (λ i l. h (suc i) (omega arith)))

pub length-filled :
    (p m idx : ℕ) (qs : List ℕ) (rs : List Record)
    → p + length (filled p (no_buckets m) idx qs rs) ≡ p + m
length-filled p zero idx qs rs = refl
length-filled p (suc m) idx qs rs = omega (arith, length-filled (p + 1) m idx qs rs)
