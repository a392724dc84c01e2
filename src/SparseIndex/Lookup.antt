-- ===== src/SparseIndex/Lookup.antt =====
-- `lookup` of sparse_index.rs against the entries: the closest one at or before the offset.
use kafko.Base.{
  ℕ, zero, suc, ◌+◌, ◌-◌, ◌^◌, ◌≤◌, ◌<◌, ◌≡◌, inl, inr, refl, sym, List, [], ◌∷◌, Option, none,
  some, length, get_elem?, ltb, if◌then◌else◌, arith, All, Bool-cases, le→ltb, lt→ltb, ltb→le,
}
use kafko.Error.{ok}
use kafko.Search.{Found, found, insert_at, binary_search, compare_cases}
use kafko.SparseIndex.{SparseIndex, IndexEntry, lookup, closest, clamp_u32}

-- The relative offsets rise strictly, from above `low` on.
abbrev pub Rises : ℕ → List IndexEntry → Type 0
Rises low [] = Unit {0}
Rises low (e ∷ es) = (low ≤ e.relative_offset) × Rises (suc e.relative_offset) es

-- Of the entries, the last one whose offset is at most `target`.
unfoldable pub last_at_most : ℕ → Option IndexEntry → List IndexEntry → Option IndexEntry
last_at_most target best [] = best
last_at_most target best (e ∷ es) =
    last_at_most target (if ltb target e.relative_offset then best else some e) es

abbrev key : IndexEntry → ℕ
key e = e.relative_offset

abbrev chosen : Option IndexEntry → List IndexEntry → Found → Option IndexEntry
chosen best es (found i) = get_elem? es i
chosen best es (insert_at zero) = best
chosen best es (insert_at (suc i)) = get_elem? es i

-- Above the target nothing is taken.
last_at_most-Rises :
    (target low : ℕ) (best : Option IndexEntry) (es : List IndexEntry)
    → target < low
    → Rises low es
    → last_at_most target best es ≡ best
unfolding last_at_most
last_at_most-Rises target low best [] h r = refl
last_at_most-Rises target low best (e ∷ es) h r =
    ground (arith, last_at_most-Rises target (suc e.relative_offset) best es)

chosen-shift :
    (best : Option IndexEntry) (e : IndexEntry) (es : List IndexEntry) (f : Found)
    → chosen best (e ∷ es) (elim f [ found i ↦ found (suc i) | insert_at i ↦ insert_at (suc i) ])
      ≡ chosen (some e) es f
chosen-shift best e es (found i) = refl
chosen-shift best e es (insert_at zero) = refl
chosen-shift best e es (insert_at (suc i)) = refl

chosen-last_at_most :
    (target low : ℕ) (best : Option IndexEntry) (es : List IndexEntry)
    → Rises low es
    → chosen best es (binary_search key target es) ≡ last_at_most target best es
unfolding binary_search last_at_most
chosen-last_at_most target low best [] r = refl
chosen-last_at_most target low best (e ∷ es) r = elim (compare_cases (key e) target) [
  | inl (c, l) ↦
      rw
        (
          c,
          binary_search,
          le→ltb target (key e) (omega arith),
          chosen-shift best e es (binary_search key target es),
        )
        (chosen-last_at_most target (suc (key e)) (some e) es r.1)
  | inr (inl (c, q)) ↦
      rw (c, binary_search, le→ltb target (key e) (omega arith))
        (sym (last_at_most-Rises target (suc (key e)) (some e) es (omega arith) r.1))
  | inr (inr (c, g)) ↦
      rw (c, binary_search, lt→ltb target (key e) g)
        (sym (last_at_most-Rises target (suc (key e)) best es (omega arith) r.1))
]

-- An index that the search returns can be used.
abbrev IsInRange : List IndexEntry → Found → Type 0
IsInRange es (found i) = i < length es
IsInRange es (insert_at i) = i ≤ length es

shift-IsInRange :
    (e : IndexEntry) (es : List IndexEntry) (f : Found)
    → IsInRange es f
    → IsInRange (e ∷ es) (elim f [ found i ↦ found (suc i) | insert_at i ↦ insert_at (suc i) ])
shift-IsInRange e es (found i) h = omega arith
shift-IsInRange e es (insert_at i) h = omega arith

binary_search-IsInRange :
    (target : ℕ) (es : List IndexEntry) → IsInRange es (binary_search key target es)
unfolding binary_search
binary_search-IsInRange target [] = omega arith
binary_search-IsInRange target (e ∷ es) = elim (compare_cases (key e) target) [
  | inl (c, _) ↦ rw (c, binary_search) (shift-IsInRange e es _ (binary_search-IsInRange target es))
  | inr (inl (c, _)) ↦ rw (c, binary_search) (omega arith)
  | inr (inr (c, _)) ↦ rw (c, binary_search) (omega arith)
]

-- What `lookup` makes of the entry: the position 0 of the segment's first record where there is none.
abbrev pub answer : SparseIndex → Option IndexEntry → ℕ × ℕ
answer x none = (0, x.base_offset)
answer x (some e) = (e.file_position, x.base_offset + e.relative_offset)

in_range :
    (es : List IndexEntry) (i : ℕ) → i < length es → (e : IndexEntry) × (get_elem? es i ≡ some e)
in_range [] i h = absurd (omega arith)
in_range (e ∷ es) zero h = (e, refl)
in_range (e ∷ es) (suc i) h = in_range es i (omega arith)

closest-answer :
    (x : SparseIndex) (f : Found)
    → IsInRange x.entries f
    → closest x f ≡ ok (answer x (chosen none x.entries f))
closest-answer x (found i) h = let (e, q) = in_range x.entries i h in rw q
closest-answer x (insert_at zero) h = refl
closest-answer x (insert_at (suc i)) h = let (e, q) = in_range x.entries i h in rw q

-- Offsets above every u32 find what `u32::MAX` finds.
last_at_most-clamp_u32 :
    (n : ℕ) (best : Option IndexEntry) (es : List IndexEntry)
    → All (λ e. e.relative_offset < 2 ^ 32) es
    → last_at_most (clamp_u32 n) best es ≡ last_at_most n best es
unfolding last_at_most
last_at_most-clamp_u32 n best [] a = refl
last_at_most-clamp_u32 n best (e ∷ es) a =
    rw (same_test n e.relative_offset a.0)
      (last_at_most-clamp_u32 n (if ltb n e.relative_offset then best else some e) es a.1)
  where
    same_test : (n r : ℕ) → r < 2 ^ 32 → ltb (clamp_u32 n) r ≡ ltb n r
    same_test n r h = ground arith

-- On entries that rise strictly and fit 32 bits, for an offset that is not before the index,
-- `lookup` answers with the last entry at or before the offset, and with the start of the segment
-- where there is none; it does not panic.
pub lookup-last_at_most :
    (x : SparseIndex) (absolute_offset : ℕ)
    → Rises 0 x.entries
    → All (λ e. e.relative_offset < 2 ^ 32) x.entries
    → x.base_offset ≤ absolute_offset
    → lookup x absolute_offset
      ≡ ok (answer x (last_at_most (absolute_offset - x.base_offset) none x.entries))
unfolding lookup
lookup-last_at_most x absolute_offset r a h =
    let n : ℕ = absolute_offset - x.base_offset in
    rw (
      le→ltb absolute_offset x.base_offset h,
      closest-answer x _ (binary_search-IsInRange (clamp_u32 n) x.entries),
      chosen-last_at_most (clamp_u32 n) 0 none x.entries r,
      last_at_most-clamp_u32 n none x.entries a,
    )

-- What holds of every entry holds of the one that is found, and its offset is at most the target.
abbrev pub IsAt : (IndexEntry → Type 0) → ℕ → Option IndexEntry → Type 0
IsAt P target none = Unit {0}
IsAt P target (some e) = P e × (e.relative_offset ≤ target)

pub last_at_most-All :
    (P : IndexEntry → Type 0) (target : ℕ) (best : Option IndexEntry) (es : List IndexEntry)
    → IsAt P target best
    → All P es
    → IsAt P target (last_at_most target best es)
unfolding last_at_most
last_at_most-All P target best [] b a = b
last_at_most-All P target best (e ∷ es) b a = elim (Bool-cases (ltb target e.relative_offset)) [
  | inl h ↦ rw h (last_at_most-All P target best es b a.1)
  | inr h ↦ rw h (last_at_most-All P target (some e) es (a.0, ltb→le _ _ h) a.1)
]
