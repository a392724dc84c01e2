-- ===== src/Log/RetentionRounds.antt =====
-- The loops of retention in log.rs end within the fuel that the model gives them, whatever the disk
-- answers.
use kafko.Base.{
  ℕ, zero, suc, ◌+◌, ◌<◌, ◌≡◌, refl, sym, ap, List, [], ◌∷◌, Option, none, some, Bool, true, ltb,
  ◌&&◌, if◌then◌else◌, Bool-cases, inl, inr, length, arith, ltb→lt,
}
use mathlib.Core.Path.{subst}
use kafko.Error.{Result, ok, err, panicked, out_of_fuel, io, not_found}
use kafko.Exec.{Exec, ◌>>◌, continue, pure, stored}
use kafko.Disk.{Disk, call, remove_log, remove_index}
use kafko.Log.{Log, State, IndexedSegment, on_disk, segment_count, total_size}
use kafko.Log.Retention.{
  is_expired, delete_head, delete_oldest_segment, remove_index_if_there, age_loop, bytes_loop,
  by_age, by_bytes, apply_retention, oldest_base, ignore_not_found,
}
use kafko.Log.Enough.{
  IsEnough, Enough, bind-Enough, call-Enough, remove_log-Enough, remove_index-Enough,
}
use kafko.Log.RetentionCounts.{age_round, age_end, bytes_round, bytes_end}

-- The call returned, and the segments `ss` are left.
abbrev Left : List IndexedSegment → Result (Unit {0}) × State → Type 0
Left ss x = IsEnough x.0 × (x.1.0.segments ≡ ss)

module _ {A B : Type 0} (l : Log) where
  disk_then :
      (y : Result A × Disk) (f : A → Exec State B)
      → IsEnough y.0
      → ((a : A) (d : Disk) → IsEnough (f a (l, d)).0)
      → IsEnough (continue (stored {S = State} (λ d. (l, d)) y) f).0
  disk_then (ok a, d) f h k = k a d
  disk_then (err e, d) f h k = tt
  disk_then (panicked, d) f h k = tt
  disk_then (out_of_fuel, d) f h k = h

disk_then-Left :
    (l : Log) (ss : List IndexedSegment) (y : Result (Unit {0}) × Disk) (f : Exec State (Unit {0}))
    → l.segments ≡ ss
    → IsEnough y.0
    → ((d : Disk) → Left ss (f (l, d)))
    → Left ss (continue (stored {S = State} (λ d. (l, d)) y) (λ u. f))
disk_then-Left l ss (ok a, d) f e h k = k d
disk_then-Left l ss (err x, d) f e h k = (tt, e)
disk_then-Left l ss (panicked, d) f e h k = (tt, e)
disk_then-Left l ss (out_of_fuel, d) f e h k = (h, e)

ignored-IsEnough : (x : Result (Unit {0}) × Disk) → IsEnough x.0 → IsEnough (ignore_not_found x).0
ignored-IsEnough (ok u, d) h = tt
ignored-IsEnough (err (io not_found), d) h = tt
ignored-IsEnough (err e, d) h = tt
ignored-IsEnough (panicked, d) h = tt
ignored-IsEnough (out_of_fuel, d) h = h

delete_head-Left :
    (oldest : IndexedSegment) (rest : List IndexedSegment) (l : Log) (d : Disk)
    → Left rest (delete_head (oldest ∷ rest) (l, d))
unfolding delete_head
delete_head-Left oldest rest l d =
    let base : ℕ = oldest.segment.base_offset in
    disk_then-Left (record l { segments = rest }) rest (remove_log base d)
      (on_disk (remove_index_if_there base)) refl ((remove_log-Enough base).enough d)
      (λ d'. (ignored-IsEnough (remove_index base d') ((remove_index-Enough base).enough d'), refl))

deletion_then :
    (ss : List IndexedSegment) (x : Result (Unit {0}) × State) (f : Exec State ℕ)
    → Left ss x
    → ((l : Log) (d : Disk) → l.segments ≡ ss → IsEnough (f (l, d)).0)
    → IsEnough (continue x (λ u. f)).0
deletion_then ss (ok u, (l, d)) f h k = k l d h.1
deletion_then ss (err e, s) f h k = tt
deletion_then ss (panicked, s) f h k = tt
deletion_then ss (out_of_fuel, s) f h k = h.0

-- A deletion, and then a loop that has rounds enough for one segment less.
deleted_first :
    (l : Log) (d : Disk) (f : Exec State ℕ) (fuel : ℕ)
    → ltb 1 (segment_count l) ≡ true
    → length l.segments < suc fuel
    → ((l' : Log) (d' : Disk) → length l'.segments < fuel → IsEnough (f (l', d')).0)
    → IsEnough ((do delete_oldest_segment; f) (l, d)).0
unfolding delete_oldest_segment segment_count
deleted_first l d f fuel more h k = by_list l.segments refl
  where
    by_list :
        (ss : List IndexedSegment)
        → l.segments ≡ ss
        → IsEnough (continue (delete_head ss (l, d)) (λ u. f)).0
    by_list [] e = absurd (omega (arith, ltb→lt 1 (length l.segments) more, ap length e))
    by_list (oldest ∷ rest) e =
        deletion_then rest (delete_head (oldest ∷ rest) (l, d)) f (delete_head-Left oldest rest l d)
          (λ l' d' e'. k l' d' (omega (arith, ap length e, ap length e')))

age_loop-IsEnough :
    (mtime : ℕ → ℕ) (now max_age fuel deleted : ℕ) (l : Log) (d : Disk)
    → length l.segments < fuel
    → IsEnough (age_loop mtime now max_age fuel deleted (l, d)).0
age_loop-IsEnough mtime now max_age zero deleted l d h = absurd (omega arith)
age_loop-IsEnough mtime now max_age (suc fuel) deleted l d h =
    elim (Bool-cases (ltb 1 (segment_count l))) [
      | inl more ↦
          subst (λ x. IsEnough x.0) (sym (age_round l mtime now max_age fuel deleted l d more))
            (disk_then l (call (λ d'. (ok (mtime (oldest_base l.segments)), d')) d)
              (λ modified.
                if is_expired modified now max_age
                then (do delete_oldest_segment; age_loop mtime now max_age fuel (deleted + 1))
                else pure deleted)
              ((call-Enough (λ d'. (ok (mtime (oldest_base l.segments)), d'))
                  (record { enough = λ d'. tt })).enough
                d)
              (λ modified d'. elim (Bool-cases (is_expired modified now max_age)) [
                | inl old ↦ rw old (
                    deleted_first l d' (age_loop mtime now max_age fuel (deleted + 1)) fuel more h
                      (λ l' d'' h'.
                        age_loop-IsEnough mtime now max_age fuel (deleted + 1) l' d'' h'))
                | inr young ↦ rw young tt
              ]))
      | inr e ↦ subst (λ x. IsEnough x.0) (sym (age_end l mtime now max_age fuel deleted l d e)) tt
    ]

bytes_loop-IsEnough :
    (max_bytes fuel deleted : ℕ) (l : Log) (d : Disk)
    → length l.segments < fuel
    → IsEnough (bytes_loop max_bytes fuel deleted (l, d)).0
bytes_loop-IsEnough max_bytes zero deleted l d h = absurd (omega arith)
bytes_loop-IsEnough max_bytes (suc fuel) deleted l d h =
    elim (Bool-cases (ltb 1 (segment_count l) && ltb max_bytes (total_size l))) [
      | inl more ↦
          subst (λ x. IsEnough x.0) (sym (bytes_round l max_bytes fuel deleted l d more))
            (deleted_first l d (bytes_loop max_bytes fuel (deleted + 1)) fuel
              (left (ltb 1 (segment_count l)) (ltb max_bytes (total_size l)) more) h
              (λ l' d' h'. bytes_loop-IsEnough max_bytes fuel (deleted + 1) l' d' h'))
      | inr e ↦ subst (λ x. IsEnough x.0) (sym (bytes_end l max_bytes fuel deleted l d e)) tt
    ]
  where
    left : (a b : Bool) → (a && b) ≡ true → a ≡ true
    left a b e = ground arith

by_age-Enough : (mtime : ℕ → ℕ) (now : ℕ) (max_age : Option ℕ) → Enough (by_age mtime now max_age)
unfolding segment_count
by_age-Enough mtime now none = record { enough = λ s. tt }
by_age-Enough mtime now (some max_age) = record {
  enough =
      λ s. age_loop-IsEnough mtime now max_age (suc (segment_count s.0)) 0 s.0 s.1 (omega arith);
}

by_bytes-Enough : (max_bytes : Option ℕ) (deleted : ℕ) → Enough (by_bytes max_bytes deleted)
unfolding segment_count
by_bytes-Enough none deleted = record { enough = λ s. tt }
by_bytes-Enough (some max_bytes) deleted = record {
  enough =
      λ s. bytes_loop-IsEnough max_bytes (suc (segment_count s.0)) deleted s.0 s.1 (omega arith);
}

pub apply_retention-Enough : (mtime : ℕ → ℕ) (now : ℕ) → Enough (apply_retention mtime now)
unfolding apply_retention
apply_retention-Enough mtime now = record {
  enough = λ s.
      (bind-Enough (by_age mtime now s.0.config.max_segment_age) _
          (by_age-Enough mtime now s.0.config.max_segment_age)
          (λ deleted. by_bytes-Enough s.0.config.max_partition_bytes deleted)).enough
        s;
}
