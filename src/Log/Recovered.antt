-- ===== src/Log/Recovered.antt =====
-- `recover_active_segment` of log.rs on a disk that does not fail.
use kafko.Base.{
  ℕ, ◌+◌, ◌-◌, ◌^◌, ◌≤◌, ◌≡◌, ◌≢◌, inl, inr, refl, sym, ap, ◌∙◌, Bytes, List, [], ◌∷◌, ◌++◌, length,
  arith, All, length-append, append-nil, take, drop, take_all, take-append, Bool-cases, ltb, ltb→le,
  ◌==◌, ==→eq, ==_refl, ne→==, none, some, Option-cases,
}
use kafko.Base.Dict
use kafko.Error.{ok}
use kafko.Disk.{calm, find_log, resize, sync_data, remove_index, create_index}
use kafko.Compression.{Platform}
use kafko.SparseIndex
use kafko.Segment
use kafko.Segment.{Segment}
use kafko.Segment.Cursor.{Holds, read_at-calm, seeked, seeked-Holds}
use kafko.Log.{IndexedSegment}
use kafko.Log.Retention.{remove_index_if_there}
use kafko.Log.Open.{
  scan_for_last_valid_position, truncate_tail, replay_records_to_index, recover_active_segment,
  filled,
}
use kafko.Log.Content.{Stored, IsStored, content, IsSegment}
use kafko.Log.Rotate.{fresh_pair, fresh_pair-IsSegment}
use kafko.Log.Tracks.{
  logs_all, appended_all, indexes_all, indexes_all_other, appended_all-IsSegment,
}
use kafko.Log.Recover.{IsTail, scan_loop-content, replay_loop-calm}

-- Two dictionaries agree everywhere but at `top`.
abbrev pub SameElsewhere : ℕ → List (ℕ × Bytes) → List (ℕ × Bytes) → Type 0
SameElsewhere top m m' = (k : ℕ) → k ≢ top → Dict.lookup k m' ≡ Dict.lookup k m

-- The file that a segment was opened on, read from its start.
abbrev pub opened : ℕ → ℕ → Segment
opened base size = record { base_offset = base; position = 0; size = size; cursor = some 0 }

pub open_segment-calm :
    (base : ℕ) (ls xs : List (ℕ × Bytes)) (c : Bytes)
    → Dict.lookup base ls ≡ some c
    → Segment.open_existing base (calm ls xs) ≡ (ok (opened base (length c)), calm ls xs)
unfolding Segment.open_existing
open_segment-calm base ls xs c h =
    let f : find_log base (calm ls xs) ≡ (ok c, calm ls xs) = unfold find_log in rw h in rw (f, f)

pub opened-Holds :
    (base : ℕ) (ls : List (ℕ × Bytes)) (c : Bytes)
    → Dict.lookup base ls ≡ some c
    → Holds (opened base (length c)) ls c
opened-Holds base ls c h = record { file = h; sized = refl; agrees = refl }

filled_all : (c : Bytes) (n : ℕ) → n ≡ length c → filled n (take n (drop 0 c)) ≡ c
filled_all c n h =
    rw (take_all n c (omega arith), let e : n - length c ≡ 0 = omega arith in e, append-nil c)

empty_of : (c : Bytes) → length c ≡ 0 → c ≡ []
empty_of [] h = refl
empty_of (b ∷ bs) h = absurd (omega arith)

left_empty :
    (es : List Stored) (torn : Bytes) → length (content es ++ torn) ≡ 0 → length (content es) ≡ 0
left_empty es torn h = omega (arith, length-append (content es) torn)

-- A read of the whole file leaves the segment on it.
pub record Scanned (p : Platform) (s : Segment) (ls xs : List (ℕ × Bytes)) (es : List Stored)
    (torn : Bytes) : Type 0 where
  pub after : Segment
  pub runs :
      scan_for_last_valid_position p (s, calm ls xs)
      ≡ (ok (length (content es)), (after, calm ls xs))
  pub holds : Holds after ls (content es ++ torn)
  pub based : after.base_offset ≡ s.base_offset

scanned :
    (p : Platform) (s : Segment) (ls xs : List (ℕ × Bytes)) (es : List Stored) (torn : Bytes)
    → Holds s ls (content es ++ torn)
    → All (IsStored p) es
    → IsTail p torn
    → Scanned p s ls xs es torn
unfolding scan_for_last_valid_position
scanned p s ls xs es torn h a t = elim (Bool-cases (s.size == 0)) [
  | inl e ↦ record {
    after = s;
    runs = rw e (
        ap (λ (k : ℕ). (ok k, (s, calm ls xs)))
          (sym (left_empty es torn (sym h.sized ∙ ==→eq s.size 0 e))));
    holds = h;
    based = refl;
  }
  | inr e ↦
      let c : Bytes = content es ++ torn in
      record {
        after = seeked s (0 + length (take s.size (drop 0 c)));
        runs =
            rw
              (
                e,
                read_at-calm s ls xs c 0 s.size h,
                filled_all c s.size h.sized,
                scan_loop-content p es torn s.size 0 a t (omega (arith, h.sized)),
              )
              (ap (λ (k : ℕ). (ok k, (seeked s (0 + length (take s.size (drop 0 c))), calm ls xs)))
                (omega arith));
        holds = seeked-Holds s ls c _ h;
        based = refl;
      }
]

-- The tail is cut off.
pub record Cut (p : Platform) (s : Segment) (ls xs : List (ℕ × Bytes)) (es : List Stored)
    : Type 0 where
  pub after : Segment
  pub logs : List (ℕ × Bytes)
  pub runs : truncate_tail p (s, calm ls xs) ≡ (ok tt, (after, calm logs xs))
  pub holds : Holds after logs (content es)
  pub based : after.base_offset ≡ s.base_offset
  pub same : SameElsewhere s.base_offset ls logs

pub cut :
    (p : Platform) (s : Segment) (ls xs : List (ℕ × Bytes)) (es : List Stored) (torn : Bytes)
    → Holds s ls (content es ++ torn)
    → All (IsStored p) es
    → IsTail p torn
    → Cut p s ls xs es
unfolding truncate_tail Segment.truncate Segment.set_len Segment.sync sync_data
cut p s ls xs es torn h a t =
    let r : Scanned p s ls xs es torn = scanned p s ls xs es torn h a t in
    let whole : length (content es ++ torn) ≡ length (content es) + length torn =
      length-append (content es) torn in
    elim (Bool-cases (ltb (length (content es)) r.after.size)) [
      | inl e ↦
          let n : ℕ = length (content es) in
          let c' : Bytes = resize n (content es ++ torn) in
          let same : c' ≡ content es = rw (
            take-append (content es) torn,
            let z : n - length (content es ++ torn) ≡ 0 = omega (arith, whole) in z,
            append-nil (content es),
          ) in
          record {
            after = record (r.after) { size = n; cursor = none };
            logs = Dict.insert r.after.base_offset c' ls;
            runs = rw (r.runs, e, r.holds.file);
            holds = record {
              file =
                  Dict.lookup-insert r.after.base_offset r.after.base_offset c' ls
                  ∙ rw (==_refl r.after.base_offset) (ap some same);
              sized = refl;
              agrees = tt;
            };
            based = r.based;
            same = λ k ne.
                Dict.lookup-insert r.after.base_offset k c' ls
                ∙ rw (ne→== r.after.base_offset k (λ q. ne (sym q ∙ r.based)));
          }
      | inr e ↦
          let gone : torn ≡ [] =
            empty_of torn
              (omega (arith, whole, r.holds.sized, ltb→le (length (content es)) r.after.size e)) in
          record {
            after = r.after;
            logs = ls;
            runs = rw (r.runs, e);
            holds = rw (gone, append-nil (content es)) at (r.holds);
            based = r.based;
            same = λ k ne. refl;
          }
    ]

-- The index file is replaced by an empty one.
renewed :
    (base interval : ℕ) (ls xs : List (ℕ × Bytes))
    → (xs' : List (ℕ × Bytes)) × (remove_index_if_there base (calm ls xs) ≡ (ok tt, calm ls xs'))
      × (SparseIndex.create base interval (calm ls xs')
          ≡ (ok ((fresh_pair base interval).index), calm ls (Dict.insert base [] xs')))
      × SameElsewhere base xs (Dict.insert base [] xs')
unfolding remove_index SparseIndex.create create_index
renewed base interval ls xs = elim (Option-cases (Dict.lookup base xs)) [
  | inl e ↦ (
    xs,
    rw e,
    rw e,
    λ k ne. Dict.lookup-insert base k [] xs ∙ rw (ne→== base k (λ q. ne (sym q))),
  )
  | inr (c, e) ↦
      let gone : Dict.lookup base (Dict.remove base xs) ≡ none =
        Dict.lookup-remove base base xs ∙ rw (==_refl base) in
      (
        Dict.remove base xs,
        rw e,
        rw gone,
        λ k ne.
            Dict.lookup-insert base k [] (Dict.remove base xs)
            ∙ rw (Dict.lookup-remove base k xs, ne→== base k (λ q. ne (sym q))),
      )
]

no_bytes :
    (p : Platform) (es : List Stored) → All (IsStored p) es → length (content es) ≡ 0 → es ≡ []
no_bytes p [] a h = refl
no_bytes p (e ∷ es) a h = absurd (omega (arith, length-append e.bytes (content es), a.0.room))

-- The pair after the recovery: `after` on the records of the segment, and an index made afresh.
pub record Recovered (p : Platform) (top interval : ℕ) (ls xs : List (ℕ × Bytes)) (es : List Stored)
    : Type 0 where
  pub pair : IndexedSegment
  pub logs : List (ℕ × Bytes)
  pub indexes : List (ℕ × Bytes)
  pub runs :
      recover_active_segment p top interval (calm ls xs)
      ≡ (ok (length es, (pair.segment, pair.index)), calm logs indexes)
  pub sound : IsSegment p logs indexes top pair es
  pub same_logs : SameElsewhere top ls logs
  pub same_indexes : SameElsewhere top xs indexes

module _ (p : Platform) (top interval : ℕ) (ls xs : List (ℕ × Bytes)) (es : List Stored)
    (a : All (IsStored p) es) (b : length (content es) ≤ 2 ^ 32) where
  abbrev start : IndexedSegment
  start = fresh_pair top interval

  abbrev indexed : IndexedSegment
  indexed = appended_all start [] es

  abbrev indexed_files : List (ℕ × Bytes)
  indexed_files = indexes_all start [] es (Dict.insert top [] xs)

  replayed :
      (s : Segment)
      → Holds s ls (content es)
      → (s' : Segment) × (replay_records_to_index p top
            ((s, start.index), calm ls (Dict.insert top [] xs))
          ≡ (ok (length es), ((s', indexed.index), calm ls indexed_files)))
        × Holds s' ls (content es)
        × (s'.base_offset ≡ s.base_offset)
  unfolding replay_records_to_index
  replayed s h = elim (Bool-cases (s.size == 0)) [
    | inl e ↦
        let none_there : es ≡ [] = no_bytes p es a (omega (arith, h.sized, ==→eq s.size 0 e)) in
        (s, rw (e, none_there), h, refl)
    | inr e ↦ (
      seeked s (0 + length (take s.size (drop 0 (content es)))),
      rw
          (
            e,
            read_at-calm s ls (Dict.insert top [] xs) (content es) 0 s.size h,
            filled_all (content es) s.size h.sized,
            replay_loop-calm p es (Dict.insert top [] ls) (Dict.insert top [] xs) ls s.size top 0 0
                start [] (fresh_pair-IsSegment p ls xs top interval) a (omega arith) refl refl
                (omega (arith, h.sized)),
          )
          (ap
            (λ (k : ℕ). (
              ok k,
              (
                (seeked s (0 + length (take s.size (drop 0 (content es)))), indexed.index),
                calm ls indexed_files,
              ),
            ))
            (omega arith)),
      seeked-Holds s ls (content es) _ h,
      refl,
    )
  ]

pub recovered :
    (p : Platform) (top interval : ℕ) (ls xs : List (ℕ × Bytes)) (es : List Stored) (torn : Bytes)
    → Dict.lookup top ls ≡ some (content es ++ torn)
    → All (IsStored p) es
    → IsTail p torn
    → length (content es) ≤ 2 ^ 32
    → Recovered p top interval ls xs es
unfolding recover_active_segment
recovered p top interval ls xs es torn f a t b =
    let c : Cut p (opened top (length (content es ++ torn))) ls xs es =
      cut p (opened top (length (content es ++ torn))) ls xs es torn
        (opened-Holds top ls (content es ++ torn) f) a t in
    let (xs', removed, made, same) = renewed top interval c.logs xs in
    let (s, runs, holds, based) = replayed p top interval c.logs xs' es a b c.after c.holds in
    let i : IsSegment p (logs_all (fresh_pair top interval) [] es (Dict.insert top [] c.logs))
        (indexes_all (fresh_pair top interval) [] es (Dict.insert top [] xs')) top
        (appended_all (fresh_pair top interval) [] es) ([] ++ es) =
      appended_all-IsSegment p es _ _ top (fresh_pair top interval) []
        (fresh_pair-IsSegment p c.logs xs' top interval) a (omega arith) in
    record {
      pair = record { segment = s; index = (appended_all (fresh_pair top interval) [] es).index };
      logs = c.logs;
      indexes = indexes_all (fresh_pair top interval) [] es (Dict.insert top [] xs');
      runs = rw (open_segment-calm top ls xs (content es ++ torn) f, c.runs, removed, made, runs);
      sound = record {
        based = based ∙ c.based;
        index_based = i.index_based;
        holds = holds;
        file = i.file;
        rises = i.rises;
        marks = i.marks;
        stored = a;
      };
      same_logs = c.same;
      same_indexes = λ k ne.
          indexes_all_other es (fresh_pair top interval) [] (Dict.insert top [] xs') k
            (λ q. ne (sym q))
          ∙ same k ne;
    }
