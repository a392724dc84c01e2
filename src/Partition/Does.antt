-- ===== src/Partition/Does.antt =====
-- What the writer task of partition.rs does in any event, the disk failing or not: whom it answers, and
-- how the high-water mark moves.
use kafko.Base.{
  ℕ, suc, ◌+◌, ◌≤◌, ◌≡◌, refl, sym, ap, ◌∙◌, List, [], ◌∷◌, ◌++◌, length, map, append_assoc,
  append-nil, arith,
}
use kafko.Error.{KafkoError, Result, ok, err, panicked, out_of_fuel}
use kafko.Exec.{Exec, continue}
use kafko.Disk.{Disk}
use kafko.Log.{Log}
use kafko.Partition.{Reply, WriterState, State, send_offsets, send_error, appended}
use kafko.Partition.Serving.{answered}

-- The published high-water mark is the next offset of the log.
abbrev pub IsMarked : State → Type 0
IsMarked s = s.0.hwm ≡ s.0.log.next_offset

-- The commands `ids` are answered, in order, and the mark has not gone back.
abbrev pub Answers : List ℕ → State → State → Type 0
Answers ids s s' = (answered s' ≡ answered s ++ ids) × (s.0.hwm ≤ s'.0.hwm)

-- The first of the commands `ids` are answered, in order, and `rest` are not.
abbrev pub Cut : List ℕ → State → State → Type 0
Cut ids s s' = (rest : List ℕ) × (answered s' ++ rest ≡ answered s ++ ids) × (s.0.hwm ≤ s'.0.hwm)

-- The task goes on and has answered the commands `ids`, or it has ended by a panic after answering the
-- first of them.
abbrev pub Does : {A : Type 0} → List ℕ → State → Result A × State → Type 0
Does ids s (ok a, s') = IsMarked s' × Answers ids s s'
Does ids s (err e, s') = ⊥
Does ids s (panicked, s') = Cut ids s s'
Does ids s (out_of_fuel, s') = ⊥

module _ {A B : Type 0} (s : State) (is js : List ℕ) (f : A → Exec State B) where
  pub continue-Does :
      (x : Result A × State)
      → Does is s x
      → ((a : A) (s' : State) → IsMarked s' → Does js s' (f a s'))
      → Does (is ++ js) s (continue x f)
  continue-Does (ok a, s') (m, (e, le)) h = both (f a s') (h a s' m)
    where
      both : (y : Result B × State) → Does js s' y → Does (is ++ js) s y
      both (ok b, t) (n, (e', le')) = (
        n,
        (e' ∙ ap (λ ks. ks ++ js) e ∙ append_assoc (answered s) is js, omega (arith, le, le')),
      )
      both (err k, t) n = n
      both (panicked, t) (rest, e', le') = (
        rest,
        e' ∙ ap (λ ks. ks ++ js) e ∙ append_assoc (answered s) is js,
        omega (arith, le, le'),
      )
      both (out_of_fuel, t) n = n
  continue-Does (err e, s') x h = absurd x
  continue-Does (panicked, s') (rest, e, le) h = (
    rest ++ js,
    sym (append_assoc (answered s') rest js)
        ∙ ap (λ ks. ks ++ js) e
        ∙ append_assoc (answered s) is js,
    le,
  )
  continue-Does (out_of_fuel, s') x h = absurd x

-- Every offset with the channel that gets it.
abbrev pub offers : List ℕ → List ℕ → List (ℕ × Reply)
offers [] ids = []
offers (o ∷ os) [] = []
offers (o ∷ os) (id ∷ ids) = (id, appended (ok o)) ∷ offers os ids

abbrev pub refusals : KafkoError → List ℕ → List (ℕ × Reply)
refusals e [] = []
refusals e (id ∷ ids) = (id, appended (err e)) ∷ refusals e ids

abbrev pub with_replies : WriterState → List (ℕ × Reply) → WriterState
with_replies w rs = record w { replies = w.replies ++ rs }

pub send_offsets-offers :
    (os ids : List ℕ) (w : WriterState) (d : Disk)
    → send_offsets os ids (w, d) ≡ (ok tt, (with_replies w (offers os ids), d))
send_offsets-offers [] ids w d = rw (append-nil w.replies)
send_offsets-offers (o ∷ os) [] w d = rw (append-nil w.replies)
send_offsets-offers (o ∷ os) (id ∷ ids) w d = rw (
  send_offsets-offers os ids (with_replies w ((id, appended (ok o)) ∷ [])) d,
  append_assoc w.replies ((id, appended (ok o)) ∷ []) (offers os ids),
)

pub send_error-refusals :
    (e : KafkoError) (ids : List ℕ) (w : WriterState) (d : Disk)
    → send_error e ids (w, d) ≡ (ok tt, (with_replies w (refusals e ids), d))
send_error-refusals e [] w d = rw (append-nil w.replies)
send_error-refusals e (id ∷ ids) w d = rw (
  send_error-refusals e ids (with_replies w ((id, appended (err e)) ∷ [])) d,
  append_assoc w.replies ((id, appended (err e)) ∷ []) (refusals e ids),
)

pub channels-offers :
    (os ids : List ℕ) → length os ≡ length ids → map (λ (r : ℕ × Reply). r.0) (offers os ids) ≡ ids
channels-offers [] [] h = refl
channels-offers [] (id ∷ ids) h = absurd (omega (arith, h))
channels-offers (o ∷ os) [] h = absurd (omega (arith, h))
channels-offers (o ∷ os) (id ∷ ids) h =
    ap (λ ks. id ∷ ks) (channels-offers os ids (omega (arith, h)))

pub channels-refusals :
    (e : KafkoError) (ids : List ℕ) → map (λ (r : ℕ × Reply). r.0) (refusals e ids) ≡ ids
channels-refusals e [] = refl
channels-refusals e (id ∷ ids) = ap (λ ks. id ∷ ks) (channels-refusals e ids)

pub length-offsets_from :
    (next : ℕ) (rs : List kafko.Record.Record)
    → length (kafko.Log.Scan.offsets_from next rs) ≡ length rs
unfolding kafko.Log.Scan.offsets_from
length-offsets_from next [] = refl
length-offsets_from next (r ∷ rs) = ap suc (length-offsets_from (next + 1) rs)
