-- ===== src/Log/Retained.antt =====
-- `apply_retention` of log.rs on a disk that does not fail, against a count of the segments that are
-- to go.
use kafko.Base.{
  ℕ, zero, suc, ◌+◌, ◌≤◌, ◌<◌, ◌-◌, ◌%◌, ◌^◌, ◌≡◌, ◌≢◌, inl, inr, refl, sym, ap, ◌∙◌, Bytes, List,
  [], ◌∷◌, ◌++◌, length, arith, length-append, some, ne→==, Bool-cases, Bool, true, false, ltb,
  lt→ltb, ◌&&◌, if◌then◌else◌, drop, take, All, none, ==_refl, append_assoc,
}
use kafko.Base.Dict
use mathlib.Core.Path.{subst}
use kafko.Error.{Result, ok}
use kafko.Exec.{Exec, ◌>>◌}
use kafko.Disk.{Disk, calm, remove_log, remove_index}
use kafko.Compression.{Platform}
use kafko.Log.{IndexedSegment, Log, State, sum_sizes}
use kafko.SparseIndex.Track.{all_bytes}
use kafko.Log.Retention.{is_expired, delete_oldest_segment, oldest_base}
use kafko.Log.Content.{
  Stored, content, IsSegment, Part, segments_of, stored_of, Sealed, Sealed-le, IsLog,
}

-- How many segments go, if the oldest goes while it is not the last and `goes` says so.
unfoldable pub drop_count : (List IndexedSegment → Bool) → List IndexedSegment → ℕ
drop_count goes [] = 0
drop_count goes (s ∷ ss) =
    if ltb 0 (length ss) && goes (s ∷ ss) then suc (drop_count goes ss) else 0

-- The oldest segment was modified more than `max_age` ago; an age that is negative as an `i64` makes
-- old what was modified before its magnitude from now.
abbrev pub is_old : (ℕ → ℕ) → ℕ → ℕ → List IndexedSegment → Bool
is_old mtime now max_age ss =
    let modified = mtime (oldest_base ss) in
    let age = max_age % 2 ^ 64 in
    if ltb age (2 ^ 63)
    then ltb (modified + age) now
    else ltb (modified + age) (now + 2 ^ 64) && ltb modified (2 ^ 63 - 1)

pub is_expired-is_old :
    (mtime : ℕ → ℕ) (now max_age : ℕ) (ss : List IndexedSegment)
    → is_expired (mtime (oldest_base ss)) now max_age ≡ is_old mtime now max_age ss
unfolding is_expired
is_expired-is_old mtime now max_age ss = ground arith

abbrev pub is_large : ℕ → List IndexedSegment → Bool
is_large max_bytes ss = ltb max_bytes (sum_sizes ss)

IsSegment-same :
    (p : Platform) (ls xs ls' xs' : List (ℕ × Bytes)) (base : ℕ) (s : IndexedSegment)
    (es : List Stored)
    → Dict.lookup base ls' ≡ Dict.lookup base ls
    → Dict.lookup base xs' ≡ Dict.lookup base xs
    → IsSegment p ls xs base s es
    → IsSegment p ls' xs' base s es
IsSegment-same p ls xs ls' xs' base s es a b i = record {
  based = i.based;
  index_based = i.index_based;
  holds = record {
    file = rw (i.based, a, ← i.based) i.holds.file;
    sized = i.holds.sized;
    agrees = i.holds.agrees;
  };
  file = rw (i.index_based, b, ← i.index_based) i.file;
  rises = i.rises;
  marks = i.marks;
  stored = i.stored;
}

-- Two dictionaries agree from `low` on.
abbrev SameFrom : ℕ → List (ℕ × Bytes) → List (ℕ × Bytes) → Type 0
SameFrom low m m' = (k : ℕ) → low ≤ k → Dict.lookup k m' ≡ Dict.lookup k m

Sealed-SameFrom :
    (p : Platform) (ls xs ls' xs' : List (ℕ × Bytes)) (low base : ℕ) (zs : List Part) (top : ℕ)
    → low ≤ base
    → SameFrom low ls ls'
    → SameFrom low xs xs'
    → Sealed p ls xs base zs top
    → Sealed p ls' xs' base zs top
Sealed-SameFrom p ls xs ls' xs' low base [] top h a b s = s
Sealed-SameFrom p ls xs ls' xs' low base (z ∷ zs) top h a b s = (
  IsSegment-same p ls xs ls' xs' base z.0 z.1 (a base h) (b base h) s.0,
  s.1,
  Sealed-SameFrom p ls xs ls' xs' low (base + length z.1) zs top (omega arith) a b s.2,
)

delete_oldest_segment-calm :
    (l : Log) (s : IndexedSegment) (ss : List IndexedSegment) (ls xs : List (ℕ × Bytes))
    (c i : Bytes) (base : ℕ)
    → l.segments ≡ s ∷ ss
    → s.segment.base_offset ≡ base
    → Dict.lookup base ls ≡ some c
    → Dict.lookup base xs ≡ some i
    → delete_oldest_segment (l, calm ls xs)
      ≡ (ok tt, (record l { segments = ss }, calm (Dict.remove base ls) (Dict.remove base xs)))
unfolding delete_oldest_segment remove_log remove_index
delete_oldest_segment-calm l s ss ls xs c i base e d f g =
    let f' : Dict.lookup s.segment.base_offset ls ≡ some c = rw d f in
    let g' : Dict.lookup s.segment.base_offset xs ≡ some i = rw d g in rw (e, f', g', d)

remove_other :
    (b k : ℕ) (m : List (ℕ × Bytes)) → k ≢ b → Dict.lookup k (Dict.remove b m) ≡ Dict.lookup k m
remove_other b k m ne = rw (Dict.lookup-remove b k m, ne→== b k (λ q. ne (sym q)))

-- The log after its oldest segment is gone.
deleted-IsLog :
    (p : Platform) (ls xs : List (ℕ × Bytes)) (l : Log) (base : ℕ) (w : Part) (zs : List Part)
    (top : ℕ) (z : Part)
    → IsLog p ls xs l base (w ∷ zs) top z
    → IsLog p
        (Dict.remove base ls)
        (Dict.remove base xs)
        (record l { segments = segments_of zs ++ (z.0 ∷ []) })
        (base + length w.1)
        zs
        top
        z
deleted-IsLog p ls xs l base w zs top z i =
    let low : base + length w.1 ≤ top =
      omega (arith, Sealed-le p ls xs (base + length w.1) zs top i.sealed.2) in
    let above : (k : ℕ) → base + 1 ≤ k → k ≢ base = λ k h. omega arith in
    record {
      segments = refl;
      sealed =
          Sealed-SameFrom p ls xs _ _ (base + 1) (base + length w.1) zs top
            (omega (arith, i.sealed.1)) (λ k h. remove_other base k ls (above k h))
            (λ k h. remove_other base k xs (above k h)) i.sealed.2;
      active =
          IsSegment-same p ls xs _ _ top z.0 z.1
            (remove_other base top ls (above top (omega (arith, i.sealed.1))))
            (remove_other base top xs (above top (omega (arith, i.sealed.1)))) i.active;
      next = i.next;
      fresh_logs =
          λ k h. remove_other base k ls (above k (omega (arith, i.sealed.1))) ∙ i.fresh_logs k h;
      fresh_indexes =
          λ k h. remove_other base k xs (above k (omega (arith, i.sealed.1))) ∙ i.fresh_indexes k h;
    }

abbrev pub list_of : List Part → Part → List IndexedSegment
list_of zs z = segments_of zs ++ (z.0 ∷ [])

abbrev pub with_segments : Log → List IndexedSegment → Log
with_segments l ss = record l { segments = ss }

pub length-list_of : (zs : List Part) (z : Part) → length (list_of zs z) ≡ suc (length zs)
length-list_of [] z = refl
length-list_of (w ∷ zs) z = ap suc (length-list_of zs z)

-- The directory has neither a log file nor an index file of the segment.
abbrev pub IsUnlinked : Disk → IndexedSegment → Type 0
IsUnlinked d s =
    (Dict.lookup s.segment.base_offset d.logs ≡ none)
    × (Dict.lookup s.segment.base_offset d.indexes ≡ none)

-- A dictionary has no name that another has not.
abbrev pub NoMore : List (ℕ × Bytes) → List (ℕ × Bytes) → Type 0
NoMore m m' = (k : ℕ) → Dict.lookup k m ≡ none → Dict.lookup k m' ≡ none

remove-NoMore : (b : ℕ) (m : List (ℕ × Bytes)) → NoMore m (Dict.remove b m)
remove-NoMore b m k e = rw (Dict.lookup-remove b k m) (ground (arith, e))

removed : (b : ℕ) (m : List (ℕ × Bytes)) → Dict.lookup b (Dict.remove b m) ≡ none
removed b m = rw (Dict.lookup-remove b b m, ==_refl b) refl

-- What a loop that deletes `n` segments leaves.
pub record Dropped (p : Platform) (l : Log) (ls xs : List (ℕ × Bytes)) (base : ℕ) (zs : List Part)
    (top : ℕ) (z : Part) (deleted n : ℕ) (out : Result ℕ × State) : Type 0 where
  pub logs : List (ℕ × Bytes)
  pub indexes : List (ℕ × Bytes)
  pub gone : List Stored
  pub left : List Part
  pub runs : out ≡ (ok (deleted + n), (with_segments l (list_of left z), calm logs indexes))
  pub rest : list_of left z ≡ drop n (list_of zs z)
  pub unlinked : All (IsUnlinked (calm logs indexes)) (take n (list_of zs z))
  pub fewer_logs : NoMore ls logs
  pub fewer_indexes : NoMore xs indexes
  pub split : stored_of zs ≡ gone ++ stored_of left
  pub is_log :
      IsLog p logs indexes (with_segments l (list_of left z)) (base + length gone) left top z

pub stays :
    (p : Platform) (l : Log) (ls xs : List (ℕ × Bytes)) (base : ℕ) (zs : List Part) (top : ℕ)
    (z : Part) (deleted n : ℕ) (out : Result ℕ × State)
    → n ≡ 0
    → out ≡ (ok deleted, (with_segments l (list_of zs z), calm ls xs))
    → IsLog p ls xs (with_segments l (list_of zs z)) base zs top z
    → Dropped p l ls xs base zs top z deleted n out
stays p l ls xs base zs top z deleted n out e r i =
    let same : base ≡ base + length {0} {A = Stored} [] = omega arith in
    record {
      logs = ls;
      indexes = xs;
      gone = [];
      left = zs;
      runs = r ∙ ap (λ (k : ℕ). (ok k, (with_segments l (list_of zs z), calm ls xs))) (omega arith);
      rest = rw e;
      unlinked = subst (λ k. All (IsUnlinked (calm ls xs)) (take k (list_of zs z))) (sym e) tt;
      fewer_logs = λ k h. h;
      fewer_indexes = λ k h. h;
      split = refl;
      is_log = subst (λ b. IsLog p ls xs (with_segments l (list_of zs z)) b zs top z) same i;
    }

-- A loop of retention: while there is more than one segment and the test says so, it deletes.
pub record IsLoop (goes : List IndexedSegment → Bool) (loop : ℕ → ℕ → Exec State ℕ) : Type 0 where
  pub goes_on :
      (fuel deleted : ℕ) (l : Log) (ls xs : List (ℕ × Bytes))
      → (ltb 1 (length l.segments) && goes l.segments) ≡ true
      → loop (suc fuel) deleted (l, calm ls xs)
        ≡ (delete_oldest_segment >> loop fuel (deleted + 1)) (l, calm ls xs)
  pub stops :
      (fuel deleted : ℕ) (l : Log) (ls xs : List (ℕ × Bytes))
      → (ltb 1 (length l.segments) && goes l.segments) ≡ false
      → loop (suc fuel) deleted (l, calm ls xs) ≡ (ok deleted, (l, calm ls xs))

module _ (p : Platform) (goes : List IndexedSegment → Bool) (loop : ℕ → ℕ → Exec State ℕ)
    (o : IsLoop goes loop) (top : ℕ) (z : Part) where
  pub loop-Dropped :
      (zs : List Part) (fuel deleted : ℕ) (l : Log) (ls xs : List (ℕ × Bytes)) (base : ℕ)
      → length zs < fuel
      → IsLog p ls xs (with_segments l (list_of zs z)) base zs top z
      → Dropped p l ls xs base zs top z deleted
          (drop_count goes (list_of zs z))
          (loop fuel deleted (with_segments l (list_of zs z), calm ls xs))
  unfolding drop_count
  loop-Dropped zs zero deleted l ls xs base h i = absurd (omega arith)
  loop-Dropped [] (suc fuel) deleted l ls xs base h i =
      stays p l ls xs base [] top z deleted _ _ refl
        (o.stops fuel deleted (with_segments l (list_of [] z)) ls xs refl) i
  loop-Dropped (w ∷ zs) (suc fuel) deleted l ls xs base h i =
      let ss : List IndexedSegment = list_of (w ∷ zs) z in
      let many : ltb 1 (length ss) ≡ true =
        lt→ltb 1 (length ss) (omega (arith, length-list_of zs z)) in
      let more : ltb 0 (length (list_of zs z)) ≡ true =
        lt→ltb 0 (length (list_of zs z)) (omega (arith, length-list_of zs z)) in
      elim (Bool-cases (goes ss)) [
        | inl e ↦
            let same : w.0.segment.base_offset ≡ base = (i.sealed.0).based in
            let f : Dict.lookup base ls ≡ some (content w.1) =
              rw (← same) (i.sealed.0).holds.file in
            let g : Dict.lookup base xs ≡ some (all_bytes w.0.index.entries) =
              rw (← (i.sealed.0).index_based) (i.sealed.0).file in
            let r =
              loop-Dropped zs fuel (deleted + 1) l (Dict.remove base ls) (Dict.remove base xs)
                (base + length w.1) (omega arith)
                (deleted-IsLog p ls xs (with_segments l ss) base w zs top z i) in
            let del : delete_oldest_segment (with_segments l ss, calm ls xs) ≡ (
              ok tt,
              (with_segments l (list_of zs z), calm (Dict.remove base ls) (Dict.remove base xs)),
            ) =
              delete_oldest_segment-calm (with_segments l ss) w.0 (list_of zs z) ls xs (content w.1)
                (all_bytes w.0.index.entries) base refl same f g in
            let n : ℕ = drop_count goes (list_of zs z) in
            let counted : drop_count goes (list_of (w ∷ zs) z) ≡ suc n = rw (more, e) refl in
            let plus : (deleted + 1) + n ≡ deleted + suc n = omega arith in
            let grown : base + length w.1 + length r.gone ≡ base + length (w.1 ++ r.gone) =
              omega (arith, length-append w.1 r.gone) in
            record {
              logs = r.logs;
              indexes = r.indexes;
              gone = w.1 ++ r.gone;
              left = r.left;
              runs = rw (
                o.goes_on fuel deleted (with_segments l ss) ls xs (rw (many, e)),
                more,
                e,
                del,
                r.runs,
                plus,
              );
              rest = rw (more, e, r.rest);
              unlinked =
                  subst
                    (λ k. All (IsUnlinked (calm r.logs r.indexes)) (take k (list_of (w ∷ zs) z)))
                    (sym counted)
                    (
                      (
                        rw same (r.fewer_logs base (removed base ls)),
                        rw same (r.fewer_indexes base (removed base xs)),
                      ),
                      r.unlinked,
                    );
              fewer_logs = λ k h. r.fewer_logs k (remove-NoMore base ls k h);
              fewer_indexes = λ k h. r.fewer_indexes k (remove-NoMore base xs k h);
              split = rw (r.split, append_assoc w.1 r.gone (stored_of r.left));
              is_log =
                  subst
                    (λ b.
                      IsLog p r.logs r.indexes (with_segments l (list_of r.left z)) b r.left top z)
                    grown r.is_log;
            }
        | inr e ↦
            stays p l ls xs base (w ∷ zs) top z deleted _ _ (rw (more, e))
              (o.stops fuel deleted (with_segments l ss) ls xs (rw (many, e))) i
      ]
