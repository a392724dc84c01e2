-- ===== src/Log/Find.antt =====
-- `find_segment_index` of log.rs picks the segment that holds the offset, so that a read of the log
-- is a read of the list of its records.
use kafko.Base.{
  ℕ, suc, ◌+◌, ◌-◌, ◌≤◌, ◌<◌, ◌≡◌, inl, inr, refl, sym, ap, ◌∙◌, Bytes, List, [], ◌∷◌, ◌++◌, none,
  length, arith, append_assoc, true, ltb, leb, if◌then◌else◌, Bool-cases, get_elem?, le→ltb, leb→le,
  ltb→lt, ltb→le, get_elem?-append_left, get_elem?-append_right, get_elem?-past,
}
use kafko.Error.{ok}
use kafko.Disk.{Disk, calm}
use kafko.Search.{Found, found, insert_at, shift, binary_search, compare_cases}
use kafko.Compression.{Platform}
use kafko.Record.{Record}
use kafko.Log.{
  IndexedSegment, Log, State, at_index, find_segment_index, to_index, read_in_segment,
  read_record_at,
}
use kafko.Log.Content.{
  Stored, records_of, IsSegment, Part, segments_of, stored_of, Sealed, Represents,
}
use kafko.Log.Append.{records_of-append, length-records_of, next_offset-Represents}
use kafko.Log.Read.{record_at, read_segment}

abbrev base_of : IndexedSegment → ℕ
base_of s = s.segment.base_offset

abbrev list_of : List Part → Part → List IndexedSegment
list_of zs z = segments_of zs ++ (z.0 ∷ [])

-- An offset before the first segment, and one not before it.
search_before :
    (s : IndexedSegment) (ss : List IndexedSegment) (offset : ℕ)
    → offset < base_of s
    → binary_search base_of offset (s ∷ ss) ≡ insert_at 0
unfolding binary_search
search_before s ss offset h = elim (compare_cases (base_of s) offset) [
  | inl (c, l) ↦ absurd (omega arith)
  | inr (inl (c, q)) ↦ absurd (omega arith)
  | inr (inr (c, g)) ↦ rw (c, binary_search)
]

search_at :
    (s : IndexedSegment) (ss : List IndexedSegment) (offset : ℕ)
    → base_of s ≡ offset
    → binary_search base_of offset (s ∷ ss) ≡ found 0
unfolding binary_search
search_at s ss offset h = elim (compare_cases (base_of s) offset) [
  | inl (c, l) ↦ absurd (omega arith)
  | inr (inl (c, q)) ↦ rw (c, binary_search)
  | inr (inr (c, g)) ↦ absurd (omega arith)
]

search_after :
    (s : IndexedSegment) (ss : List IndexedSegment) (offset : ℕ)
    → base_of s < offset
    → binary_search base_of offset (s ∷ ss) ≡ shift (binary_search base_of offset ss)
unfolding binary_search
search_after s ss offset h = elim (compare_cases (base_of s) offset) [
  | inl (c, l) ↦ rw (c, binary_search)
  | inr (inl (c, q)) ↦ absurd (omega arith)
  | inr (inr (c, g)) ↦ absurd (omega arith)
]

index_after :
    (s t : IndexedSegment) (ss : List IndexedSegment) (offset : ℕ)
    → base_of s < offset
    → base_of t ≤ offset
    → find_segment_index (s ∷ (t ∷ ss)) offset ≡ suc (find_segment_index (t ∷ ss) offset)
unfolding find_segment_index
index_after s t ss offset h k =
    rw (search_after s (t ∷ ss) offset h) (elim (compare_cases (base_of t) offset) [
      | inl (c, l) ↦ rw (search_after t ss offset l) (shifted (binary_search base_of offset ss))
      | inr (inl (c, q)) ↦ rw (search_at t ss offset q)
      | inr (inr (c, g)) ↦ absurd (omega arith)
    ])
  where
    shifted : (f : Found) → to_index (shift (shift f)) ≡ suc (to_index (shift f))
    shifted (found i) = refl
    shifted (insert_at i) = refl

index_first :
    (s t : IndexedSegment) (ss : List IndexedSegment) (offset : ℕ)
    → offset < base_of t
    → find_segment_index (s ∷ (t ∷ ss)) offset ≡ 0
unfolding find_segment_index
index_first s t ss offset h = elim (compare_cases (base_of s) offset) [
  | inl (c, l) ↦ rw (search_after s (t ∷ ss) offset l, search_before t ss offset h)
  | inr (inl (c, q)) ↦ rw (search_at s (t ∷ ss) offset q)
  | inr (inr (c, g)) ↦ rw (search_before s (t ∷ ss) offset g)
]

index_only : (s : IndexedSegment) (offset : ℕ) → find_segment_index (s ∷ []) offset ≡ 0
unfolding find_segment_index binary_search
index_only s offset = elim (compare_cases (base_of s) offset) [
  | inl (c, l) ↦ rw (c, binary_search)
  | inr (inl (c, q)) ↦ rw (c, binary_search)
  | inr (inr (c, g)) ↦ rw (c, binary_search)
]

-- The outcome of a read over the segments: the record, and the same records held afterwards.
record ReadsChain (p : Platform) (ls xs : List (ℕ × Bytes)) (base top : ℕ) (zs : List Part)
    (z : Part) (offset : ℕ) : Type 0 where
  zs' : List Part
  z' : Part
  runs :
      at_index
        (find_segment_index (list_of zs z) offset)
        (read_in_segment p offset)
        (list_of zs z, calm ls xs)
      ≡ (
        ok (record_at (records_of (stored_of zs ++ z.1)) base offset),
        (list_of zs' z', calm ls xs),
      )
  sealed : Sealed p ls xs base zs' top
  active : IsSegment p ls xs top z'.0 z'.1
  same : stored_of zs' ≡ stored_of zs
  same_z : z'.1 ≡ z.1

record_at-left :
    (es fs : List Stored) (base offset : ℕ)
    → offset < base + length es
    → record_at (records_of es) base offset ≡ record_at (records_of (es ++ fs)) base offset
record_at-left es fs base offset h = elim (Bool-cases (ltb offset base)) [
  | inl b ↦ rw b
  | inr b ↦ rw (
    b,
    records_of-append es fs,
    get_elem?-append_left (records_of es) (records_of fs) (offset - base)
        (omega (arith, length-records_of es, ltb→le offset base b)),
  )
]

record_at-right :
    (es fs : List Stored) (base offset : ℕ)
    → base + length es ≤ offset
    → record_at (records_of fs) (base + length es) offset
      ≡ record_at (records_of (es ++ fs)) base offset
record_at-right es fs base offset h = rw (
  le→ltb offset (base + length es) h,
  le→ltb offset base (omega arith),
  records_of-append es fs,
  let q : offset - base ≡ length (records_of es) + (offset - (base + length es)) =
        omega (arith, length-records_of es) in
      q,
  get_elem?-append_right (records_of es) (records_of fs) (offset - (base + length es)),
)

-- Reading the first of several segments.
read_first :
    (p : Platform) (ls xs : List (ℕ × Bytes)) (base top : ℕ) (w : Part) (ws : List Part) (z : Part)
    (offset : ℕ)
    → Sealed p ls xs base (w ∷ ws) top
    → IsSegment p ls xs top z.0 z.1
    → offset < base + length w.1
    → find_segment_index (list_of (w ∷ ws) z) offset ≡ 0
    → ReadsChain p ls xs base top (w ∷ ws) z offset
unfolding at_index
read_first p ls xs base top w ws z offset h i l e =
    let r = read_segment p ls xs base w.0 w.1 offset h.0 in
    record {
      zs' = (r.after, w.1) ∷ ws;
      z' = z;
      runs =
          rw (e, r.runs)
            (ap (λ o. (ok o, (r.after ∷ list_of ws z, calm ls xs)))
              (record_at-left w.1 (stored_of ws ++ z.1) base offset l
                ∙ ap (λ es. record_at (records_of es) base offset)
                    (sym (append_assoc w.1 (stored_of ws) z.1))));
      sealed = (r.sound, h.1, h.2);
      active = i;
      same = refl;
      same_z = refl;
    }

read_rest :
    (p : Platform) (ls xs : List (ℕ × Bytes)) (base top : ℕ) (w : Part) (ws : List Part) (z : Part)
    (offset : ℕ)
    → Sealed p ls xs base (w ∷ ws) top
    → base + length w.1 ≤ offset
    → find_segment_index (list_of (w ∷ ws) z) offset
      ≡ suc (find_segment_index (list_of ws z) offset)
    → ReadsChain p ls xs (base + length w.1) top ws z offset
    → ReadsChain p ls xs base top (w ∷ ws) z offset
unfolding at_index
read_rest p ls xs base top w ws z offset h l e r = record {
  zs' = w ∷ r.zs';
  z' = r.z';
  runs =
      rw (e, r.runs)
        (ap (λ o. (ok o, (w.0 ∷ list_of r.zs' r.z', calm ls xs)))
          (record_at-right w.1 (stored_of ws ++ z.1) base offset l
            ∙ ap (λ es. record_at (records_of es) base offset)
                (sym (append_assoc w.1 (stored_of ws) z.1))));
  sealed = (h.0, h.1, r.sealed);
  active = r.active;
  same = ap (λ es. w.1 ++ es) r.same;
  same_z = r.same_z;
}

read_chain :
    (p : Platform) (ls xs : List (ℕ × Bytes)) (base top : ℕ) (zs : List Part) (z : Part)
    (offset : ℕ)
    → Sealed p ls xs base zs top
    → IsSegment p ls xs top z.0 z.1
    → ReadsChain p ls xs base top zs z offset
unfolding at_index
read_chain p ls xs base top [] z offset h i =
    let r = read_segment p ls xs top z.0 z.1 offset i in
    record {
      zs' = [];
      z' = (r.after, z.1);
      runs =
          rw (index_only z.0 offset, r.runs)
            (ap (λ (b : ℕ). (ok (record_at (records_of z.1) b offset), (r.after ∷ [], calm ls xs)))
              (sym h));
      sealed = h;
      active = r.sound;
      same = refl;
      same_z = refl;
    }
read_chain p ls xs base top (w ∷ []) z offset h i =
    elim (Bool-cases (ltb offset (base + length w.1))) [
      | inl l ↦
          read_first p ls xs base top w [] z offset h i (ltb→lt _ _ l)
            (index_first w.0 z.0 [] offset (omega (arith, ltb→lt _ _ l, i.based, h.2)))
      | inr l ↦
          read_rest p ls xs base top w [] z offset h (ltb→le _ _ l)
            (index_after w.0 z.0 [] offset (omega (arith, ltb→le _ _ l, (h.0).based, h.1))
              (omega (arith, ltb→le _ _ l, i.based, h.2)))
            (read_chain p ls xs (base + length w.1) top [] z offset h.2 i)
    ]
read_chain p ls xs base top (w ∷ (v ∷ ws)) z offset h i =
    elim (Bool-cases (ltb offset (base + length w.1))) [
      | inl l ↦
          read_first p ls xs base top w (v ∷ ws) z offset h i (ltb→lt _ _ l) (
            index_first w.0 v.0 (list_of ws z) offset
              (omega (arith, ltb→lt _ _ l, ((h.2).0).based)))
      | inr l ↦
          read_rest p ls xs base top w (v ∷ ws) z offset h (ltb→le _ _ l)
            (index_after w.0 v.0 (list_of ws z) offset
              (omega (arith, ltb→le _ _ l, (h.0).based, h.1))
              (omega (arith, ltb→le _ _ l, ((h.2).0).based)))
            (read_chain p ls xs (base + length w.1) top (v ∷ ws) z offset h.2 i)
    ]

-- On a disk without failures, over a log that holds the records `rs` from the offset `base` on,
-- `read_record_at` gives the record at the offset: none at or past the next offset, and none
-- below `base`. The log holds the same records afterwards.
pub read_record_at-Represents :
    (p : Platform) (l : Log) (d : Disk) (base : ℕ) (rs : List Record) (offset : ℕ)
    → Represents p l d base rs
    → (s : State) × (read_record_at p offset (l, d)
        ≡ (ok (if ltb offset base then none else get_elem? rs (offset - base)), s))
      × Represents p s.0 s.1 base rs
unfolding read_record_at
read_record_at-Represents p l d base rs offset rep = elim (Bool-cases (leb l.next_offset offset)) [
  | inl e ↦ ((l, d), rw e (ap (λ o. (ok o, (l, d))) (sym (past e))), rep)
  | inr e ↦
      let r =
        read_chain p rep.ls rep.xs base rep.top rep.zs rep.z offset rep.is_log.sealed
          rep.is_log.active in
      let l' : Log = record l { segments = list_of r.zs' r.z' } in
      (
        (l', calm rep.ls rep.xs),
        rw (rep.disk, e, rep.is_log.segments, r.runs)
            (ap (λ us. (ok (record_at us base offset), (l', calm rep.ls rep.xs))) rep.records),
        record {
          ls = rep.ls;
          xs = rep.xs;
          zs = r.zs';
          top = rep.top;
          z = r.z';
          disk = refl;
          is_log = record {
            segments = refl;
            sealed = r.sealed;
            active = r.active;
            next = rep.is_log.next ∙ ap (λ es. rep.top + length es) (sym r.same_z);
            fresh_logs = rep.is_log.fresh_logs;
            fresh_indexes = rep.is_log.fresh_indexes;
          };
          records = ap records_of ((λ j. r.same j ++ r.same_z j)) ∙ rep.records;
        },
      )
]
  where
    past : leb l.next_offset offset ≡ true → record_at rs base offset ≡ none
    past e =
        let n : base + length rs ≤ offset =
          omega (arith, leb→le _ _ e, next_offset-Represents p l d base rs rep) in
        rw (le→ltb offset base (omega arith)) (get_elem?-past rs (offset - base) (omega arith))
