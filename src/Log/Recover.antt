-- ===== src/Log/Recover.antt =====
-- The two loops of the recovery in log.rs on a segment that ends in a torn tail: where the scan stops,
-- and what the replay tells the index.
use kafko.Base.{
  ℕ, zero, suc, ◌+◌, ◌-◌, ◌^◌, ◌≤◌, ◌<◌, ◌≡◌, refl, ap, ◌∙◌, Bytes, List, [], ◌∷◌, ◌++◌, length,
  arith, All, length-append, append_assoc,
}
use kafko.Error.{err, ok, truncated, crc_mismatch, invalid_length}
use kafko.Disk.{Disk, calm}
use kafko.Compression.{Platform}
use kafko.Record.{Record, decode}
use kafko.SparseIndex.{SparseIndex, track_append}
use kafko.SparseIndex.Track.{track_append-calm}
use kafko.Log.{IndexedSegment}
use kafko.Log.Scan.{scan_loop, scan_next}
use kafko.Log.Open.{replay_loop}
use kafko.Log.Content.{Stored, IsStored, content, IsSegment}
use kafko.Log.Active.{appended, appended_logs, appended_indexes, IsSegment-appended, content-snoc}
use kafko.Log.Tracks.{appended_all, indexes_all, room_for}

-- What may follow the last record after a crash: nothing, or bytes that the decoder finds cut short,
-- of another checksum, or of an impossible length.
pub data IsTail (p : Platform) (bs : Bytes) : Type 0 where
  clean : bs ≡ [] → IsTail p bs
  short : (n : ℕ) → decode p bs ≡ err (truncated n) → IsTail p bs
  corrupt : (a b : ℕ) → decode p bs ≡ err (crc_mismatch a b) → IsTail p bs
  impossible : (n : ℕ) → decode p bs ≡ err (invalid_length n) → IsTail p bs

scan_loop_step :
    (p : Platform) (fuel : ℕ) (bs : Bytes) (pos : ℕ)
    → 0 < length bs
    → scan_loop p (suc fuel) bs pos ≡ scan_next (length bs) pos (decode p bs) (scan_loop p fuel)
unfolding scan_loop
scan_loop_step p fuel [] pos h = absurd (omega arith)
scan_loop_step p fuel (b ∷ bs) pos h = refl

scan_loop_end : (p : Platform) (fuel pos : ℕ) → scan_loop p fuel [] pos ≡ ok pos
unfolding scan_loop
scan_loop_end p fuel pos = refl

-- The scan stops at the tail.
scan_loop-IsTail :
    (p : Platform) (torn : Bytes) (fuel pos : ℕ)
    → IsTail p torn
    → length torn ≤ fuel
    → scan_loop p fuel torn pos ≡ ok pos
scan_loop-IsTail p torn fuel pos (clean e) h = rw e (scan_loop_end p fuel pos)
scan_loop-IsTail p [] fuel pos t h = scan_loop_end p fuel pos
scan_loop-IsTail p (b ∷ bs) zero pos t h = absurd (omega arith)
scan_loop-IsTail p (b ∷ bs) (suc fuel) pos (short n e) h =
    rw (scan_loop_step p fuel (b ∷ bs) pos (omega arith), e)
scan_loop-IsTail p (b ∷ bs) (suc fuel) pos (corrupt x y e) h =
    rw (scan_loop_step p fuel (b ∷ bs) pos (omega arith), e)
scan_loop-IsTail p (b ∷ bs) (suc fuel) pos (impossible n e) h =
    rw (scan_loop_step p fuel (b ∷ bs) pos (omega arith), e)

pub scan_loop-content :
    (p : Platform) (es : List Stored) (torn : Bytes) (fuel pos : ℕ)
    → All (IsStored p) es
    → IsTail p torn
    → length (content es ++ torn) ≤ fuel
    → scan_loop p fuel (content es ++ torn) pos ≡ ok (pos + length (content es))
scan_loop-content p [] torn fuel pos a t h =
    scan_loop-IsTail p torn fuel pos t h ∙ ap ok (omega arith)
scan_loop-content p (e ∷ es) torn zero pos a t h = absurd (
    omega (
      arith,
      length-append (e.bytes ++ content es) torn,
      length-append e.bytes (content es),
      a.0.room,
    ))
scan_loop-content p (e ∷ es) torn (suc fuel) pos a t h =
    let whole : length (e.bytes ++ (content es ++ torn))
        ≡ length e.bytes + length (content es ++ torn) =
      length-append e.bytes (content es ++ torn) in
    let same : (e.bytes ++ content es) ++ torn ≡ e.bytes ++ (content es ++ torn) =
      append_assoc e.bytes (content es) torn in
    rw
      (
        same,
        scan_loop_step p fuel (e.bytes ++ (content es ++ torn)) pos
            (omega (arith, whole, a.0.room)),
        a.0.decodes (content es ++ torn),
      )
      (scan_loop-content p es torn fuel _ a.1 t (omega (arith, whole, ap length same, a.0.room))
        ∙ ap ok (omega (arith, whole, length-append e.bytes (content es))))

replay_loop_step :
    (p : Platform) (fuel : ℕ) (bs rest : Bytes) (r : Record) (base pos count : ℕ)
    (x x' : SparseIndex) (d d' : Disk)
    → 0 < length bs
    → decode p bs ≡ ok (r, rest)
    → track_append (base + count) pos (length bs - length rest) (x, d) ≡ (ok tt, (x', d'))
    → replay_loop p (suc fuel) bs base pos count (x, d)
      ≡ replay_loop p fuel rest base (pos + (length bs - length rest)) (count + 1) (x', d')
unfolding replay_loop
replay_loop_step p fuel [] rest r base pos count x x' d d' h e t = absurd (omega arith)
replay_loop_step p fuel (b ∷ bs) rest r base pos count x x' d d' h e t = rw (e, t)

replay_loop_end :
    (p : Platform) (fuel base pos count : ℕ) (s : SparseIndex × Disk)
    → replay_loop p fuel [] base pos count s ≡ (ok count, s)
unfolding replay_loop
replay_loop_end p fuel base pos count s = refl

-- The replay counts the records and tells the index of each.
pub replay_loop-calm :
    (p : Platform) (fs : List Stored) (ls xs l : List (ℕ × Bytes)) (fuel base pos count : ℕ)
    (s : IndexedSegment) (es : List Stored)
    → IsSegment p ls xs base s es
    → All (IsStored p) fs
    → length (content es) + length (content fs) ≤ 2 ^ 32
    → count ≡ length es
    → pos ≡ length (content es)
    → length (content fs) ≤ fuel
    → replay_loop p fuel (content fs) base pos count (s.index, calm l xs) ≡ (
      ok (length es + length fs),
      ((appended_all s es fs).index, calm l (indexes_all s es fs xs)),
    )
replay_loop-calm p [] ls xs l fuel base pos count s es i a b c q h =
    replay_loop_end p fuel base pos count (s.index, calm l xs)
    ∙ ap (λ (k : ℕ). (ok k, (s.index, calm l xs))) (omega arith)
replay_loop-calm p (f ∷ fs) ls xs l zero base pos count s es i a b c q h =
    absurd (omega (arith, length-append f.bytes (content fs), a.0.room))
replay_loop-calm p (f ∷ fs) ls xs l (suc fuel) base pos count s es i a b c q h =
    let (n, low, r) = room_for p es f fs i.stored a.0 b in
    let whole : length (f.bytes ++ content fs) ≡ length f.bytes + length (content fs) =
      length-append f.bytes (content fs) in
    let size : length (f.bytes ++ content fs) - length (content fs) ≡ length f.bytes =
      omega arith in
    let more : length (es ++ (f ∷ [])) ≡ length es + 1 = length-append es (f ∷ []) in
    replay_loop_step p fuel (f.bytes ++ content fs) (content fs) f.rec base pos count s.index
      (appended s es f).index (calm l xs) (calm l (appended_indexes s es xs))
      (omega (arith, whole, a.0.room)) (a.0.decodes (content fs))
      (rw (size, c, q, ← i.index_based)
        (track_append-calm s.index l xs (length es) (length (content es)) (length f.bytes) i.file n
          low))
    ∙ replay_loop-calm p fs (appended_logs s es f ls) (appended_indexes s es xs) l fuel base _
        (count + 1) (appended s es f) (es ++ (f ∷ []))
        (IsSegment-appended p ls xs base s es f i a.0 n low) a.1 r (omega arith)
        (omega (arith, ap length (content-snoc es f), length-append (content es) f.bytes))
        (omega (arith, a.0.room))
    ∙ ap
        (λ (k : ℕ).
          (ok k, ((appended_all s es (f ∷ fs)).index, calm l (indexes_all s es (f ∷ fs) xs))))
        (omega arith)
