-- ===== src/Log/Read.antt =====
-- `read_record_at` of log.rs on a disk that does not fail: the record at the offset.
use kafko.Base.{
  ℕ, zero, suc, ◌+◌, ◌-◌, ◌^◌, ◌≤◌, ◌<◌, ◌≡◌, ◌≢◌, inl, inr, refl, sym, ap, ◌∙◌, Bytes, List, [],
  ◌∷◌, ◌++◌, Option, none, some, length, arith, All, All-map, length-append, true, false,
  if◌then◌else◌, ltb, ◌==◌, Bool-cases, get_elem?, take, drop, le→ltb, lt→ltb, ltb→lt, ltb→le,
  get_elem?-drop, drop-append, take-append-drop, take_all, ==→eq,
}
use kafko.Error.{ok}
use kafko.Disk.{calm}
use kafko.Compression.{Platform}
use kafko.Record.{Record, decode}
use kafko.SparseIndex
use kafko.SparseIndex.{IndexEntry}
use kafko.SparseIndex.Lookup.{lookup-last_at_most, last_at_most, last_at_most-All, IsAt, answer}
use kafko.Segment.Cursor.{read_at-calm, seeked, seeked-Holds}
use kafko.Log.{IndexedSegment, read_in_segment}
use kafko.Log.Scan.{read_loop, read_next}
use kafko.Log.Content.{Stored, IsStored, content, records_of, bytes_before, Marks, IsSegment}
use kafko.Log.Active.{content-append}

read_loop_step :
    (p : Platform) (fuel : ℕ) (bs : Bytes) (current offset : ℕ)
    → 0 < length bs
    → read_loop p (suc fuel) bs current offset
      ≡ read_next current offset (decode p bs) (λ rest. read_loop p fuel rest (current + 1) offset)
unfolding read_loop
read_loop_step p fuel [] current offset h = absurd (omega arith)
read_loop_step p fuel (b ∷ bs) current offset h = refl

read_loop_end :
    (p : Platform) (fuel current offset : ℕ) → read_loop p fuel [] current offset ≡ ok none
unfolding read_loop
read_loop_end p fuel current offset = refl

-- What the loop gives on a run of stored records, from the offset `current` on.
abbrev pub record_at : List Record → ℕ → ℕ → Option Record
record_at rs current offset = if ltb offset current then none else get_elem? rs (offset - current)

record_at-nil : (current offset : ℕ) → record_at [] current offset ≡ none
record_at-nil current offset = ground arith

record_at-cons :
    (r : Record) (rs : List Record) (current offset : ℕ)
    → current ≢ offset
    → record_at (r ∷ rs) current offset ≡ record_at rs (current + 1) offset
record_at-cons r rs current offset ne = elim (Bool-cases (ltb offset current)) [
  | inl e ↦ rw (e, lt→ltb offset (current + 1) (omega (arith, ltb→lt _ _ e)))
  | inr e ↦ rw (
    e,
    le→ltb offset (current + 1) (omega (arith, ltb→le _ _ e)),
    let q : offset - current ≡ suc (offset - (current + 1)) = omega (arith, ltb→le _ _ e) in q,
  )
]

read_loop-content :
    (p : Platform) (es : List Stored) (fuel current offset : ℕ)
    → All (IsStored p) es
    → length (content es) ≤ fuel
    → read_loop p fuel (content es) current offset ≡ ok (record_at (records_of es) current offset)
read_loop-content p [] fuel current offset a h =
    read_loop_end p fuel current offset ∙ ap ok (sym (record_at-nil current offset))
read_loop-content p (e ∷ es) zero current offset a h =
    absurd (omega (arith, length-append e.bytes (content es), a.0.room))
read_loop-content p (e ∷ es) (suc fuel) current offset a h =
    rw
      (
        read_loop_step p fuel (e.bytes ++ content es) current offset
            (omega (arith, length-append e.bytes (content es), a.0.room)),
        a.0.decodes (content es),
      )
      (elim (Bool-cases (current == offset)) [
        | inl q ↦ rw (
          q,
          le→ltb offset current (omega (arith, ==→eq current offset q)),
          let z : offset - current ≡ 0 = omega (arith, ==→eq current offset q) in z,
        )
        | inr q ↦ rw q (
            read_loop-content p es fuel (current + 1) offset a.1
              (omega (arith, length-append e.bytes (content es), a.0.room))
            ∙ ap ok (sym (record_at-cons e.rec (records_of es) current offset (different q))))
      ])
  where
    different : (current == offset) ≡ false → current ≢ offset
    different q = ground arith

-- Where the index sends the reader: to the start of the record with the number `k`.
record IsStart (es : List Stored) (base offset : ℕ) (a : ℕ × ℕ) : Type 0 where
  k : ℕ
  le : base + k ≤ offset
  within : k ≤ length es
  pos : a.0 ≡ bytes_before k es
  start : a.1 ≡ base + k

answer-IsStart :
    (es : List Stored) (x : SparseIndex.SparseIndex) (base offset : ℕ) (o : Option IndexEntry)
    → x.base_offset ≡ base
    → base ≤ offset
    → IsAt (Marks es) (offset - base) o
    → IsStart es base offset (answer x o)
answer-IsStart es x base offset none e h a = record {
  k = 0;
  le = omega arith;
  within = omega arith;
  pos = refl;
  start = omega arith;
}
answer-IsStart es x base offset (some f) e h a = record {
  k = f.relative_offset;
  le = omega (arith, a.1);
  within = omega (arith, (a.0).0);
  pos = (a.0).1;
  start = omega arith;
}

content-split : (k : ℕ) (es : List Stored) → content (take k es) ++ content (drop k es) ≡ content es
content-split k es =
    sym (content-append (take k es) (drop k es)) ∙ ap content (take-append-drop k es)

records_of-drop : (k : ℕ) (es : List Stored) → records_of (drop k es) ≡ drop k (records_of es)
records_of-drop zero es = refl
records_of-drop (suc k) [] = refl
records_of-drop (suc k) (e ∷ es) = records_of-drop k es

All-drop : {A : Type 0} (P : A → Type 0) (k : ℕ) (xs : List A) → All P xs → All P (drop k xs)
All-drop P zero xs a = a
All-drop P (suc k) [] a = a
All-drop P (suc k) (x ∷ xs) a = All-drop P k xs a.1

nothing_left :
    (p : Platform) (es : List Stored) (current offset : ℕ)
    → All (IsStored p) es
    → length (content es) ≡ 0
    → record_at (records_of es) current offset ≡ none
nothing_left p [] current offset a h = record_at-nil current offset
nothing_left p (e ∷ es) current offset a h =
    absurd (omega (arith, length-append e.bytes (content es), a.0.room))

-- The outcome of a read in one segment, which moves at most its cursor.
pub record ReadsAs (p : Platform) (ls xs : List (ℕ × Bytes)) (base : ℕ) (s : IndexedSegment)
    (es : List Stored) (offset : ℕ) (o : Option Record) : Type 0 where
  pub after : IndexedSegment
  pub runs : read_in_segment p offset (s, calm ls xs) ≡ (ok o, (after, calm ls xs))
  pub sound : IsSegment p ls xs base after es

moved-IsSegment :
    (p : Platform) (ls xs : List (ℕ × Bytes)) (base n : ℕ) (s : IndexedSegment) (es : List Stored)
    → IsSegment p ls xs base s es
    → IsSegment p ls xs base (record s { segment = seeked s.segment n }) es
moved-IsSegment p ls xs base n s es i = record {
  based = i.based;
  index_based = i.index_based;
  holds = seeked-Holds s.segment ls (content es) n i.holds;
  file = i.file;
  rises = i.rises;
  marks = i.marks;
  stored = i.stored;
}

module _ (p : Platform) (ls xs : List (ℕ × Bytes)) (base : ℕ) (s : IndexedSegment)
    (es : List Stored) (offset : ℕ) (i : IsSegment p ls xs base s es) where
  -- From a record's start on, whichever it is, the loop comes to the offset.
  read_from :
      (k start : ℕ)
      → start ≡ base + k
      → k ≤ length es
      → SparseIndex.lookup s.index offset ≡ ok (bytes_before k es, start)
      → ReadsAs p ls xs base s es offset (record_at (records_of (drop k es)) start offset)
  unfolding read_in_segment
  read_from k start q w e =
      let tail : Bytes = content (drop k es) in
      let cut : content (take k es) ++ tail ≡ content es = content-split k es in
      let room : s.segment.size - bytes_before k es ≡ length tail = omega (
        arith,
        i.holds.sized,
        ap (λ (b : Bytes). length b) cut,
        length-append (content (take k es)) tail,
      ) in
      let got : take (length tail) (drop (bytes_before k es) (content es)) ≡ tail = rw (
        ← cut,
        drop-append (content (take k es)) tail,
        take_all (length tail) tail (omega arith),
      ) in
      elim (Bool-cases (length tail == 0)) [
        | inl z ↦ record {
          after = s;
          runs =
              rw (e, room, z)
                (ap (λ o. (ok o, (s, calm ls xs)))
                  (sym (
                    nothing_left p (drop k es) start offset (All-drop (IsStored p) k es i.stored)
                      (==→eq _ _ z))));
          sound = i;
        }
        | inr z ↦ record {
          after = record s { segment = seeked s.segment (bytes_before k es + length tail) };
          runs = rw (
            e,
            room,
            z,
            read_at-calm s.segment ls xs (content es) (bytes_before k es) (length tail) i.holds,
            got,
            read_loop-content p (drop k es) (length tail) start offset
                (All-drop (IsStored p) k es i.stored) (omega arith),
          );
          sound = moved-IsSegment p ls xs base _ s es i;
        }
      ]

  record_at-drop :
      (k start : ℕ)
      → start ≡ base + k
      → start ≤ offset
      → record_at (records_of (drop k es)) start offset ≡ record_at (records_of es) base offset
  record_at-drop k start q h = rw (
    le→ltb offset start h,
    le→ltb offset base (omega arith),
    records_of-drop k es,
    get_elem?-drop k (offset - start) (records_of es),
    let z : k + (offset - start) ≡ offset - base = omega arith in z,
  )

  abbrev entry : Option IndexEntry
  entry = last_at_most (offset - base) none s.index.entries

  index-IsStart : base ≤ offset → IsStart es base offset (answer s.index entry)
  index-IsStart h =
      answer-IsStart es s.index base offset entry i.index_based h
        (last_at_most-All (Marks es) (offset - base) none s.index.entries tt i.marks)

  index_lookup : base ≤ offset → SparseIndex.lookup s.index offset ≡ ok (answer s.index entry)
  index_lookup h =
      lookup-last_at_most s.index offset i.rises
        (All-map (Marks es) (λ f. f.relative_offset < 2 ^ 32) s.index.entries (λ f m. m.2) i.marks)
        (omega (arith, i.index_based))
      ∙ ap (λ (b : ℕ). ok (answer s.index (last_at_most (offset - b) none s.index.entries)))
          i.index_based

  -- A segment answers with the record at the offset, and with none before its start.
  pub read_segment : ReadsAs p ls xs base s es offset (record_at (records_of es) base offset)
  read_segment = elim (Bool-cases (ltb offset base)) [
    | inl b ↦ read_from 0 base (omega arith) (omega arith) (before b)
    | inr b ↦
        let h : base ≤ offset = ltb→le offset base b in
        let st : IsStart es base offset (answer s.index entry) = index-IsStart h in
        rw (← record_at-drop st.k (base + st.k) refl st.le) (
          read_from st.k (base + st.k) refl st.within
            (index_lookup h ∙ (λ j. ok (st.pos j, st.start j))))
  ]
    where
      before : ltb offset base ≡ true → SparseIndex.lookup s.index offset ≡ ok (0, base)
      before b = unfold SparseIndex.lookup in rw (i.index_based, b)
