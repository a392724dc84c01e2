-- ===== src/Log/Expire.antt =====
-- `apply_retention` of log.rs on a disk that does not fail: both loops, one after the other.
use kafko.Base.{
  ℕ, zero, suc, take, All, All-map, ◌+◌, ◌<◌, ◌≡◌, refl, sym, ap, ◌∙◌, Bytes, List, [], ◌∷◌, ◌++◌,
  length, arith, length-append, Option, none, some, Bool, true, false, ltb, ◌&&◌, drop, length-drop,
  drop-add, drop-append, append_assoc, if◌then◌else◌,
}
use mathlib.Core.Path.{subst}
use kafko.Error.{ok}
use kafko.Exec.{◌>>◌}
use kafko.Disk.{Disk, calm}
use kafko.Compression.{Platform}
use kafko.Record.{Record}
use kafko.Log.{IndexedSegment, Log, State, segment_count, total_size}
use kafko.Log.Retention.{
  delete_oldest_segment, age_loop, bytes_loop, by_age, by_bytes, apply_retention, oldest_base,
}
use kafko.Log.Content.{Stored, records_of, Part, stored_of, IsLog, Represents}
use kafko.Log.Append.{records_of-append, length-records_of}
use kafko.Log.Retained.{
  IsUnlinked, is_expired-is_old, drop_count, is_old, is_large, IsLoop, Dropped, loop-Dropped,
  list_of, with_segments, length-list_of, stays,
}

-- One round of the age loop, after both tests.
age_round :
    (mtime : ℕ → ℕ) (now max_age fuel deleted : ℕ) (l : Log) (ls xs : List (ℕ × Bytes)) (b c : Bool)
    → ltb 1 (segment_count l) ≡ b
    → is_old mtime now max_age l.segments ≡ c
    → age_loop mtime now max_age (suc fuel) deleted (l, calm ls xs) ≡ (
        if b && c
        then (delete_oldest_segment >> age_loop mtime now max_age fuel (deleted + 1))
            (l, calm ls xs)
        else (ok deleted, (l, calm ls xs)))
unfolding age_loop
age_round mtime now max_age fuel deleted l ls xs true true e f =
    rw (age_loop, e, is_expired-is_old mtime now max_age l.segments, f)
age_round mtime now max_age fuel deleted l ls xs true false e f =
    rw (age_loop, e, is_expired-is_old mtime now max_age l.segments, f)
age_round mtime now max_age fuel deleted l ls xs false c e f = rw (age_loop, e)

age_loop-IsLoop :
    (mtime : ℕ → ℕ) (now max_age : ℕ)
    → IsLoop (is_old mtime now max_age) (age_loop mtime now max_age)
unfolding segment_count
age_loop-IsLoop mtime now max_age = record {
  goes_on = λ fuel deleted l ls xs e.
      age_round mtime now max_age fuel deleted l ls xs _ _ refl refl ∙ rw e;
  stops = λ fuel deleted l ls xs e.
      age_round mtime now max_age fuel deleted l ls xs _ _ refl refl ∙ rw e;
}

bytes_round :
    (max_bytes fuel deleted : ℕ) (l : Log) (ls xs : List (ℕ × Bytes)) (b : Bool)
    → (ltb 1 (segment_count l) && ltb max_bytes (total_size l)) ≡ b
    → bytes_loop max_bytes (suc fuel) deleted (l, calm ls xs) ≡ (
        if b
        then (delete_oldest_segment >> bytes_loop max_bytes fuel (deleted + 1)) (l, calm ls xs)
        else (ok deleted, (l, calm ls xs)))
unfolding bytes_loop
bytes_round max_bytes fuel deleted l ls xs true e = rw (bytes_loop, e)
bytes_round max_bytes fuel deleted l ls xs false e = rw (bytes_loop, e)

bytes_loop-IsLoop : (max_bytes : ℕ) → IsLoop (is_large max_bytes) (bytes_loop max_bytes)
unfolding segment_count total_size
bytes_loop-IsLoop max_bytes = record {
  goes_on = λ fuel deleted l ls xs e. bytes_round max_bytes fuel deleted l ls xs true e;
  stops = λ fuel deleted l ls xs e. bytes_round max_bytes fuel deleted l ls xs false e;
}

-- How many segments are too old, and how many of those left are too many bytes.
abbrev pub expired : (ℕ → ℕ) → ℕ → Option ℕ → List IndexedSegment → ℕ
expired mtime now none ss = 0
expired mtime now (some max_age) ss = drop_count (is_old mtime now max_age) ss

abbrev pub oversized : Option ℕ → List IndexedSegment → ℕ
oversized none ss = 0
oversized (some max_bytes) ss = drop_count (is_large max_bytes) ss

-- Both loops, as one deletion.
module _ (p : Platform) (mtime : ℕ → ℕ) (now : ℕ) (l : Log) (ls xs : List (ℕ × Bytes)) (base : ℕ)
    (zs : List Part) (top : ℕ) (z : Part)
    (i : IsLog p ls xs (with_segments l (list_of zs z)) base zs top z) where
  by_age-Dropped :
      (age : Option ℕ)
      → Dropped p l ls xs base zs top z 0
          (expired mtime now age (list_of zs z))
          (by_age mtime now age (with_segments l (list_of zs z), calm ls xs))
  unfolding segment_count
  by_age-Dropped none = stays p l ls xs base zs top z 0 0 _ refl refl i
  by_age-Dropped (some max_age) =
      loop-Dropped p _ _ (age_loop-IsLoop mtime now max_age) top z zs _ 0 l ls xs base
        (omega (arith, length-list_of zs z)) i

  by_bytes-Dropped :
      (bytes : Option ℕ) (deleted : ℕ)
      → Dropped p l ls xs base zs top z deleted
          (oversized bytes (list_of zs z))
          (by_bytes bytes deleted (with_segments l (list_of zs z), calm ls xs))
  unfolding segment_count
  by_bytes-Dropped none deleted = stays p l ls xs base zs top z deleted 0 _ refl refl i
  by_bytes-Dropped (some max_bytes) deleted =
      loop-Dropped p _ _ (bytes_loop-IsLoop max_bytes) top z zs _ deleted l ls xs base
        (omega (arith, length-list_of zs z)) i

-- The oldest segment starts where the log does.
oldest_base-IsLog :
    (p : Platform) (ls xs : List (ℕ × Bytes)) (l : Log) (base : ℕ) (zs : List Part) (top : ℕ)
    (z : Part)
    → IsLog p ls xs l base zs top z
    → oldest_base (list_of zs z) ≡ base
oldest_base-IsLog p ls xs l base [] top z i = i.active.based ∙ sym i.sealed
oldest_base-IsLog p ls xs l base (w ∷ zs) top z i = (i.sealed.0).based

zero_plus : (b : ℕ) → b ≡ 0 + b
zero_plus b = omega arith

suc_plus : (a b : ℕ) → suc (a + b) ≡ suc a + b
suc_plus a b = omega arith

All-taken :
    {A : Type 0} (P : A → Type 0) (a b : ℕ) (xs : List A)
    → All P (take a xs)
    → All P (take b (drop a xs))
    → All P (take (a + b) xs)
All-taken P zero b xs h k = subst (λ n. All P (take n xs)) (zero_plus b) k
All-taken P (suc a) b [] h k = subst (λ n. All P (take n [])) (suc_plus a b) tt
All-taken P (suc a) b (x ∷ xs) h k =
    subst (λ n. All P (take n (x ∷ xs))) (suc_plus a b) (h.0, All-taken P a b xs h.1 k)

-- The records that are left, without those of the segments that went.
records_of-left :
    (zs left : List Part) (z : Part) (gone gone' : List Stored) (mid : List Stored)
    → stored_of zs ≡ gone ++ mid
    → mid ≡ gone' ++ stored_of left
    → records_of (stored_of left ++ z.1)
      ≡ drop (length gone + length gone') (records_of (stored_of zs ++ z.1))
records_of-left zs left z gone gone' mid e f =
    let n : length (records_of (gone ++ gone')) ≡ length gone + length gone' =
      rw (length-records_of (gone ++ gone'), length-append gone gone') refl in
    let all : stored_of zs ++ z.1 ≡ (gone ++ gone') ++ (stored_of left ++ z.1) =
      rw
        (
          e,
          f,
          append_assoc gone (gone' ++ stored_of left) z.1,
          append_assoc gone' (stored_of left) z.1,
          append_assoc gone gone' (stored_of left ++ z.1),
        )
        refl in
    rw
      (
        ← n,
        all,
        records_of-append (gone ++ gone') (stored_of left ++ z.1),
        drop-append (records_of (gone ++ gone')) (records_of (stored_of left ++ z.1)),
      )
      refl

-- Retention on a disk without failures always ends, whatever the clock and the file times are. It
-- deletes from the front the segments that are too old, and then those that make the total too
-- large, never the active one, unlinks their log and index files, and answers how many went: the log
-- then holds the records that were
-- not in these, at the offsets that they had, its first offset is that of its
-- oldest segment, and its next offset is as before.
pub apply_retention-Represents :
    (p : Platform) (mtime : ℕ → ℕ) (now : ℕ) (l : Log) (d : Disk) (base : ℕ) (rs : List Record)
    (a b : ℕ)
    → Represents p l d base rs
    → a ≡ expired mtime now l.config.max_segment_age l.segments
    → b ≡ oversized l.config.max_partition_bytes (drop a l.segments)
    → (s : State) × (k : ℕ) × (apply_retention mtime now (l, d) ≡ (ok (a + b), s))
      × (s.0.segments ≡ drop (a + b) l.segments)
      × (a + b < length l.segments)
      × All (IsUnlinked s.1) (take (a + b) l.segments)
      × (oldest_base s.0.segments ≡ base + k)
      × Represents p s.0 s.1 (base + k) (drop k rs)
      × (s.0.config ≡ l.config)
      × (s.0.next_offset ≡ l.next_offset)
unfolding apply_retention
apply_retention-Represents p mtime now l d base rs a b rep ea eb =
    let i = rep.is_log in
    let ss : List IndexedSegment = list_of rep.zs rep.z in
    let ready : IsLog p rep.ls rep.xs (with_segments l ss) base rep.zs rep.top rep.z = record {
      segments = refl;
      sealed = i.sealed;
      active = i.active;
      next = i.next;
      fresh_logs = i.fresh_logs;
      fresh_indexes = i.fresh_indexes;
    } in
    let o =
      by_age-Dropped p mtime now l rep.ls rep.xs base rep.zs rep.top rep.z ready
        l.config.max_segment_age in
    let o' =
      by_bytes-Dropped p mtime now l o.logs o.indexes (base + length o.gone) o.left rep.top rep.z
        o.is_log l.config.max_partition_bytes a in
    let a' : a ≡ expired mtime now l.config.max_segment_age ss = rw (← i.segments) ea in
    let b' : b ≡ oversized l.config.max_partition_bytes (list_of o.left rep.z) =
      rw (o.rest, ← a', ← i.segments) eb in
    let s : State = (with_segments l (list_of o'.left rep.z), calm o'.logs o'.indexes) in
    let first : by_age mtime now l.config.max_segment_age (with_segments l ss, calm rep.ls rep.xs)
        ≡ (ok a, (with_segments l (list_of o.left rep.z), calm o.logs o.indexes)) =
      o.runs
      ∙ ap (λ k. (ok k, (with_segments l (list_of o.left rep.z), calm o.logs o.indexes)))
          (omega (arith, a')) in
    let second : by_bytes l.config.max_partition_bytes a
          (with_segments l (list_of o.left rep.z), calm o.logs o.indexes)
        ≡ (ok (a + b), s) =
      o'.runs ∙ ap (λ k. (ok (a + k), s)) (sym b') in
    let kept : list_of o'.left rep.z ≡ drop (a + b) ss =
      rw (o'.rest, ← b', o.rest, ← a', drop-add a b ss) refl in
    let base' : base + length o.gone + length o'.gone ≡ base + (length o.gone + length o'.gone) =
      omega arith in
    let records : records_of (stored_of o'.left ++ rep.z.1)
        ≡ drop (length o.gone + length o'.gone) rs =
      records_of-left rep.zs o'.left rep.z o.gone o'.gone (stored_of o.left) o.split o'.split
      ∙ ap (drop (length o.gone + length o'.gone)) rep.records in
    (
      s,
      length o.gone + length o'.gone,
      ap (λ t. apply_retention mtime now (with_segments l t, d)) i.segments
          ∙ rw (rep.disk, first, second) refl,
      kept ∙ ap (drop (a + b)) (sym i.segments),
      (omega (
        arith,
        ap length i.segments,
        ap length kept,
        length-drop (a + b) ss,
        length-list_of o'.left rep.z,
      )),
      subst (λ ys. All (IsUnlinked s.1) (take (a + b) ys)) (sym i.segments)
          (All-taken (IsUnlinked s.1) a b ss
            (subst (λ n. All (IsUnlinked s.1) (take n ss)) (sym a')
              (All-map _ (IsUnlinked s.1) _ (λ x h. (o'.fewer_logs _ h.0, o'.fewer_indexes _ h.1))
                o.unlinked))
            (subst (λ ys. All (IsUnlinked s.1) (take b ys)) (o.rest ∙ ap (λ n. drop n ss) (sym a'))
              (subst (λ n. All (IsUnlinked s.1) (take n (list_of o.left rep.z))) (sym b')
                o'.unlinked))),
      oldest_base-IsLog p o'.logs o'.indexes s.0 _ o'.left rep.top rep.z o'.is_log ∙ base',
      record {
        ls = o'.logs;
        xs = o'.indexes;
        zs = o'.left;
        top = rep.top;
        z = rep.z;
        disk = refl;
        is_log =
            subst (λ t. IsLog p o'.logs o'.indexes s.0 t o'.left rep.top rep.z) base' o'.is_log;
        records = records;
      },
      refl,
      refl,
    )
