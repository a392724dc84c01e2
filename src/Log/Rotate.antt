-- ===== src/Log/Rotate.antt =====
-- The rotation of log.rs on a disk that does not fail.
use kafko.Base.{
  ℕ, ◌+◌, ◌≤◌, ◌<◌, ◌≡◌, ◌⊎◌, inl, inr, refl, sym, ap, ◌∙◌, Bytes, List, [], ◌∷◌, ◌++◌, none, some,
  length, arith, All, append_assoc, append-nil, Bool-cases, Bool, true, false, ==_refl, ne→==,
}
use kafko.Base.Dict
use kafko.Error.{ok}
use kafko.Exec.{gets}
use kafko.Disk.{calm, create_log, create_index, sync_data}
use kafko.Compression.{Platform}
use kafko.SparseIndex
use kafko.SparseIndex.{SparseIndex}
use kafko.Segment
use kafko.Segment.{Segment}
use kafko.Log.{IndexedSegment, Log, on_active, sync_pair, rotate_active_segment, rotate_for}
use kafko.Log.Content.{
  Stored, IsStored, content, IsSegment, Part, segments_of, stored_of, IsFresh, IsLog,
  Sealed-SameBelow, Sealed-snoc, SameBelow,
}
use kafko.Log.Active.{on_active_lem}

abbrev pub fresh_pair : ℕ → ℕ → IndexedSegment
fresh_pair base interval = record {
  segment = record { base_offset = base; position = 0; size = 0; cursor = some 0 };
  index = record {
    base_offset = base;
    entries = [];
    bytes_since_last_entry = 0;
    interval = interval;
  };
}

pub sync_pair-calm :
    (s : IndexedSegment) (ls xs : List (ℕ × Bytes))
    → sync_pair (s, calm ls xs) ≡ (ok tt, (s, calm ls xs))
unfolding Segment.sync SparseIndex.sync sync_data
sync_pair-calm s ls xs = refl

rotate_active_segment-calm :
    (l : Log) (init : List IndexedSegment) (s : IndexedSegment) (ls xs : List (ℕ × Bytes))
    → l.segments ≡ init ++ (s ∷ [])
    → Dict.lookup l.next_offset ls ≡ none
    → Dict.lookup l.next_offset xs ≡ none
    → rotate_active_segment (l, calm ls xs) ≡ (
      ok tt,
      (
        record l {
          segments = (init ++ (s ∷ [])) ++ (fresh_pair l.next_offset l.config.index_interval ∷ []);
        },
        calm (Dict.insert l.next_offset [] ls) (Dict.insert l.next_offset [] xs),
      ),
    )
unfolding rotate_active_segment Segment.create SparseIndex.create create_log create_index
rotate_active_segment-calm l init s ls xs e hl hx = rw (
  on_active_lem sync_pair l init s s (calm ls xs) (calm ls xs) (ok tt) e (sync_pair-calm s ls xs),
  hl,
  hx,
)

pub IsFresh-insert :
    (top k : ℕ) (c : Bytes) (m : List (ℕ × Bytes))
    → k ≤ top
    → IsFresh top m
    → IsFresh top (Dict.insert k c m)
IsFresh-insert top k c m h f j l = rw (Dict.lookup-insert k j c m, ne→== k j (omega arith)) (f j l)

insert-SameBelow :
    (top k : ℕ) (c : Bytes) (m : List (ℕ × Bytes)) → top ≤ k → SameBelow top m (Dict.insert k c m)
insert-SameBelow top k c m h j l = rw (Dict.lookup-insert k j c m, ne→== k j (omega arith))

IsFresh-weaken : (top top' : ℕ) (m : List (ℕ × Bytes)) → top ≤ top' → IsFresh top m → IsFresh top' m
IsFresh-weaken top top' m h f k l = f k (omega arith)

pub fresh_pair-IsSegment :
    (p : Platform) (ls xs : List (ℕ × Bytes)) (base interval : ℕ)
    → IsSegment p
        (Dict.insert base [] ls)
        (Dict.insert base [] xs)
        base
        (fresh_pair base interval)
        []
fresh_pair-IsSegment p ls xs base interval = record {
  based = refl;
  index_based = refl;
  holds = record {
    file = rw (Dict.lookup-insert base base [] ls, ==_refl base);
    sized = refl;
    agrees = refl;
  };
  file = rw (Dict.lookup-insert base base [] xs, ==_refl base);
  rises = tt;
  marks = tt;
  stored = tt;
}

stored_of-snoc : (zs : List Part) (z : Part) → stored_of (zs ++ (z ∷ [])) ≡ stored_of zs ++ z.1
stored_of-snoc [] z = append-nil z.1
stored_of-snoc (w ∷ zs) z = rw (stored_of-snoc zs z, append_assoc w.1 (stored_of zs) z.1)

segments_of-snoc :
    (zs : List Part) (z : Part) → segments_of (zs ++ (z ∷ [])) ≡ segments_of zs ++ (z.0 ∷ [])
segments_of-snoc [] z = refl
segments_of-snoc (w ∷ zs) z = rw (segments_of-snoc zs z)

empty_content :
    (p : Platform) (es : List Stored)
    → All (IsStored p) es
    → 0 < length (content es)
    → 0 < length es
empty_content p [] a h = absurd (omega arith)
empty_content p (e ∷ es) a h = omega arith

-- What `rotate_for` leaves: the same records, and room in the active segment for `additional` bytes
-- unless it is empty.
pub record Rotated (p : Platform) (l : Log) (base : ℕ) (es : List Stored) (additional : ℕ)
    (l' : Log) (ls xs : List (ℕ × Bytes)) : Type 0 where
  pub zs : List Part
  pub top : ℕ
  pub z : Part
  pub is_log : IsLog p ls xs l' base zs top z
  pub same : stored_of zs ++ z.1 ≡ es
  pub config : l'.config ≡ l.config
  pub next : l'.next_offset ≡ l.next_offset
  pub room :
      (length (content z.1) ≡ 0)
      ⊎ (length (content z.1) + additional ≤ l.config.segment_size_threshold)

would_overflow-false :
    (s : Segment) (n threshold : ℕ)
    → Segment.would_overflow s n threshold ≡ false
    → (s.size ≡ 0) ⊎ (s.size + n ≤ threshold)
unfolding Segment.would_overflow
would_overflow-false s n threshold e = ground arith

would_overflow-true :
    (s : Segment) (n threshold : ℕ) → Segment.would_overflow s n threshold ≡ true → 0 < s.size
unfolding Segment.would_overflow
would_overflow-true s n threshold e = ground arith

module _ (p : Platform) (l : Log) (ls xs : List (ℕ × Bytes)) (base : ℕ) (zs : List Part) (top : ℕ)
    (z : Part) (additional : ℕ) (i : IsLog p ls xs l base zs top z) where
  abbrev overflows : Bool
  overflows = Segment.would_overflow z.0.segment additional l.config.segment_size_threshold

  asked :
      on_active
        (gets (λ s. Segment.would_overflow s.0.segment additional l.config.segment_size_threshold))
        (l, calm ls xs)
      ≡ (ok overflows, (l, calm ls xs))
  asked =
      on_active_lem _ l (segments_of zs) z.0 z.0 (calm ls xs) (calm ls xs) _ i.segments refl
      ∙ ap (λ ss. (ok overflows, (record l { segments = ss }, calm ls xs))) (sym i.segments)

  abbrev rotated : Log
  rotated = record l {
    segments =
        (segments_of zs ++ (z.0 ∷ [])) ++ (fresh_pair l.next_offset l.config.index_interval ∷ []);
  }

  abbrev rotated_logs : List (ℕ × Bytes)
  rotated_logs = Dict.insert l.next_offset [] ls

  abbrev rotated_indexes : List (ℕ × Bytes)
  rotated_indexes = Dict.insert l.next_offset [] xs

  rotated-IsLog :
      0 < length z.1
      → IsLog p rotated_logs rotated_indexes rotated base
          (zs ++ (z ∷ []))
          (top + length z.1)
          (fresh_pair l.next_offset l.config.index_interval, [])
  rotated-IsLog h = record {
    segments =
        ap (λ ss. ss ++ (fresh_pair l.next_offset l.config.index_interval ∷ []))
          (sym (segments_of-snoc zs z));
    sealed =
        Sealed-SameBelow p ls xs rotated_logs rotated_indexes base (zs ++ (z ∷ []))
          (top + length z.1) (insert-SameBelow _ l.next_offset [] ls (omega (arith, i.next)))
          (insert-SameBelow _ l.next_offset [] xs (omega (arith, i.next)))
          (Sealed-snoc p ls xs base zs top z i.sealed i.active h);
    active = rw (← i.next) (fresh_pair-IsSegment p ls xs l.next_offset l.config.index_interval);
    next = omega (arith, i.next);
    fresh_logs =
        IsFresh-insert _ l.next_offset [] ls (omega (arith, i.next))
          (IsFresh-weaken top _ ls (omega arith) i.fresh_logs);
    fresh_indexes =
        IsFresh-insert _ l.next_offset [] xs (omega (arith, i.next))
          (IsFresh-weaken top _ xs (omega arith) i.fresh_indexes);
  }

  -- The active segment is sealed when the bytes would take it past the threshold.
  pub rotate_for-calm :
      (l' : Log) × (ls' : List (ℕ × Bytes)) × (xs' : List (ℕ × Bytes)) × (rotate_for additional
          (l, calm ls xs)
        ≡ (ok tt, (l', calm ls' xs')))
      × Rotated p l base (stored_of zs ++ z.1) additional l' ls' xs'
  rotate_for-calm = elim (Bool-cases overflows) [
    | inl e ↦
        let sized : 0 < z.0.segment.size = would_overflow-true z.0.segment _ _ e in
        let full : 0 < length z.1 =
          empty_content p z.1 i.active.stored (omega (arith, i.active.holds.sized)) in
        (
          rotated,
          rotated_logs,
          rotated_indexes,
          rw (asked, e)
              (rotate_active_segment-calm l (segments_of zs) z.0 ls xs i.segments
                (i.fresh_logs l.next_offset (omega (arith, i.next)))
                (i.fresh_indexes l.next_offset (omega (arith, i.next)))),
          record {
            zs = zs ++ (z ∷ []);
            top = top + length z.1;
            z = (fresh_pair l.next_offset l.config.index_interval, []);
            is_log = rotated-IsLog full;
            same = append-nil _ ∙ stored_of-snoc zs z;
            config = refl;
            next = refl;
            room = inl refl;
          },
        )
    | inr e ↦ (
      l,
      ls,
      xs,
      rw (asked, e),
      record {
        zs = zs;
        top = top;
        z = z;
        is_log = i;
        same = refl;
        config = refl;
        next = refl;
        room = ground (
          arith,
          i.active.holds.sized,
          would_overflow-false z.0.segment additional l.config.segment_size_threshold,
        );
      },
    )
  ]
