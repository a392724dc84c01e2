-- ===== src/SparseIndex/Spacing.antt =====
-- How far apart the entries of sparse_index.rs lie in the segment's file.
use kafko.Base.{
  ℕ, ◌+◌, ◌^◌, ◌≤◌, ◌<◌, ◌≡◌, ◌⊎◌, inl, inr, refl, Bytes, List, [], ◌∷◌, ◌++◌, arith, Bool-cases,
  true, false, leb, leb→le, sym,
}
use mathlib.Core.Path.{subst}
use kafko.Error.{ok}
use kafko.Disk.{calm}
use kafko.SparseIndex.{SparseIndex, IndexEntry, track_append, push_entry, need_entry}
use kafko.SparseIndex.Track.{
  IsFile, new_entry, tracked, tracked_file, track_append-calm, tracked-IsFile, tracked_base,
}

-- Each entry lies at least `interval` bytes behind the one before it.
abbrev pub Apart : ℕ → List IndexEntry → Type 0
Apart interval [] = Unit
Apart interval (e ∷ []) = Unit
Apart interval (e ∷ (f ∷ es)) =
    (e.file_position + interval ≤ f.file_position) × Apart interval (f ∷ es)

-- The last entry, if there is one, lies `since` bytes before `end`.
abbrev pub Behind : ℕ → ℕ → List IndexEntry → Type 0
Behind since end [] = Unit
Behind since end (e ∷ []) = e.file_position + since ≡ end
Behind since end (e ∷ (f ∷ es)) = Behind since end (f ∷ es)

-- There is a last entry, and it is for the record at `pos` or for one less than `interval` bytes
-- before it.
abbrev pub Near : ℕ → ℕ → List IndexEntry → Type 0
Near interval pos [] = ⊥
Near interval pos (e ∷ []) =
    (e.file_position ≡ pos) ⊎ ((e.file_position ≤ pos) × (pos < e.file_position + interval))
Near interval pos (e ∷ (f ∷ es)) = Near interval pos (f ∷ es)

-- The index of a segment that has been written up to `end`.
pub record IsSpaced (x : SparseIndex) (end : ℕ) : Type 0 where
  pub apart : Apart x.interval x.entries
  pub counted : Behind x.bytes_since_last_entry end x.entries

Apart-snoc :
    (interval since pos rel : ℕ) (es : List IndexEntry)
    → Apart interval es
    → Behind since pos es
    → interval ≤ since
    → Apart interval (es ++ (new_entry rel pos ∷ []))
Apart-snoc interval since pos rel [] a b h = tt
Apart-snoc interval since pos rel (e ∷ []) a b h = (omega arith, tt)
Apart-snoc interval since pos rel (e ∷ (f ∷ es)) a b h =
    (a.0, Apart-snoc interval since pos rel (f ∷ es) a.1 b h)

Behind-snoc :
    (since pos rel : ℕ) (es : List IndexEntry)
    → Behind since (pos + since) (es ++ (new_entry rel pos ∷ []))
Behind-snoc since pos rel [] = refl
Behind-snoc since pos rel (e ∷ []) = refl
Behind-snoc since pos rel (e ∷ (f ∷ es)) = Behind-snoc since pos rel (f ∷ es)

Near-snoc :
    (interval pos rel : ℕ) (es : List IndexEntry)
    → Near interval pos (es ++ (new_entry rel pos ∷ []))
Near-snoc interval pos rel [] = inl refl
Near-snoc interval pos rel (e ∷ []) = inl refl
Near-snoc interval pos rel (e ∷ (f ∷ es)) = Near-snoc interval pos rel (f ∷ es)

Behind-more :
    (since pos n : ℕ) (es : List IndexEntry) → Behind since pos es → Behind (since + n) (pos + n) es
Behind-more since pos n [] b = tt
Behind-more since pos n (e ∷ []) b = omega arith
Behind-more since pos n (e ∷ (f ∷ es)) b = Behind-more since pos n (f ∷ es) b

Near-Behind :
    (interval since pos : ℕ) (e : IndexEntry) (es : List IndexEntry)
    → Behind since pos (e ∷ es)
    → since < interval
    → Near interval pos (e ∷ es)
Near-Behind interval since pos e [] b h = inr (omega arith, omega arith)
Near-Behind interval since pos e (f ∷ es) b h = Near-Behind interval since pos f es b h

-- What `track_append` makes of an index for a record of `n` bytes at `pos`.
abbrev After : SparseIndex → ℕ → ℕ → SparseIndex → Type 0
After x pos n y = IsSpaced y (pos + n) × Near y.interval pos y.entries

zero_plus : (n : ℕ) → n ≡ 0 + n
zero_plus n = omega arith

added-After :
    (x : SparseIndex) (pos rel n : ℕ)
    → IsSpaced x pos
    → Apart x.interval (x.entries ++ (new_entry rel pos ∷ []))
    → need_entry x ≡ true
    → After x pos n (tracked x rel pos n)
unfolding tracked push_entry
added-After x pos rel n s a e = rw e (
  record {
    apart = a;
    counted =
        subst (λ k. Behind k (pos + n) (x.entries ++ (new_entry rel pos ∷ []))) (zero_plus n)
          (Behind-snoc n pos rel x.entries);
  },
  Near-snoc x.interval pos rel x.entries,
)

less : (a b : ℕ) → leb a b ≡ false → b < a
less a b e = ground (arith, e)

tracked_interval : (x : SparseIndex) (rel pos n : ℕ) → (tracked x rel pos n).interval ≡ x.interval
unfolding tracked push_entry
tracked_interval x rel pos n = elim (Bool-cases (need_entry x)) [ inl e ↦ rw e | inr e ↦ rw e ]

tracked-After :
    (x : SparseIndex) (es : List IndexEntry) (pos rel n : ℕ)
    → x.entries ≡ es
    → IsSpaced x pos
    → After x pos n (tracked x rel pos n)
unfolding tracked
tracked-After x [] pos rel n q s = added-After x pos rel n s (rw q tt) (rw q refl)
tracked-After x (e ∷ es) pos rel n q s =
    elim (Bool-cases (leb x.interval x.bytes_since_last_entry)) [
      | inl due ↦
          added-After x pos rel n s
            (Apart-snoc x.interval x.bytes_since_last_entry pos rel x.entries s.apart s.counted
              (leb→le _ _ due))
            (rw (q, due) refl)
      | inr early ↦
          let behind : Behind x.bytes_since_last_entry pos (e ∷ es) =
            subst (Behind x.bytes_since_last_entry pos) q s.counted in
          let not_due : need_entry x ≡ false = rw (q, early) refl in
          rw not_due (
            record {
              apart = s.apart;
              counted = Behind-more x.bytes_since_last_entry pos n x.entries s.counted;
            },
            subst (Near x.interval pos) (sym q)
                (Near-Behind x.interval x.bytes_since_last_entry pos e es behind (less _ _ early)),
          )
    ]

-- On a disk without failures, with the index file in step and the relative offset and the position
-- within 32 bits, `track_append` for a record of `n` bytes at the end of the segment does not panic,
-- keeps the file in step and the entries at least the interval apart, and leaves the record with an
-- entry of its own, or less than the interval behind the last one. The last entry lies as far behind the end
-- as the index has counted, and the others are apart, at the start as well.
pub track_append-IsSpaced :
    (x : SparseIndex) (ls xs : List (ℕ × Bytes)) (rel pos n : ℕ)
    → IsFile x xs
    → rel < 2 ^ 32
    → pos < 2 ^ 32
    → IsSpaced x pos
    → (y : SparseIndex) × (ys : List (ℕ × Bytes)) × (track_append
          (x.base_offset + rel)
          pos
          n
          (x, calm ls xs)
        ≡ (ok tt, (y, calm ls ys)))
      × IsFile y ys
      × (y.base_offset ≡ x.base_offset)
      × (y.interval ≡ x.interval)
      × IsSpaced y (pos + n)
      × Near y.interval pos y.entries
track_append-IsSpaced x ls xs rel pos n f hr hp s =
    let (spaced, near) = tracked-After x x.entries pos rel n refl s in
    (
      tracked x rel pos n,
      tracked_file x rel pos xs,
      track_append-calm x ls xs rel pos n f hr hp,
      tracked-IsFile x xs rel pos n f,
      tracked_base x rel pos n,
      tracked_interval x rel pos n,
      spaced,
      near,
    )
