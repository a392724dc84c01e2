-- ===== src/Log/Steps.antt =====
-- Reasoning about programs on the log of log.rs whose disk may fail: what a step leaves of the next
-- offset and of the configuration.
use kafko.Base.{if◌then◌else◌, ◌≡◌, List, Bool, true, false}
use kafko.Error.{Result, ok, err, panicked, out_of_fuel}
use kafko.Exec.{Exec, ◌>>=◌, continue, gets, pure, lift, stored}
use kafko.Disk.{Disk}
use kafko.Log.{Log, Pair, State, IndexedSegment, on_segments, on_disk, on_active, at_last}

-- The log counts on from where it was, with its configuration.
abbrev pub Same : Log → Log → Type 0
Same l l' = (l'.next_offset ≡ l.next_offset) × (l'.config ≡ l.config)

-- A result satisfies `P`; a failure leaves the next offset and the configuration.
abbrev pub Leads : {A : Type 0} → Log → (A → Log → Type 0) → Result A × State → Type 0
Leads l P (ok a, (l', d)) = P a l'
Leads l P (err e, (l', d)) = Same l l'
Leads l P (panicked, (l', d)) = Same l l'
Leads l P (out_of_fuel, (l', d)) = Same l l'

-- A program from the log `l0`: it starts with the next offset and the configuration of that.
pub record Steps {A : Type 0} (l0 : Log) (P : A → Log → Type 0) (m : Exec State A) : Type 0 where
  pub leads : (l : Log) (d : Disk) → Same l0 l → Leads l0 P (m (l, d))

abbrev pub Keeps : {A : Type 0} → Log → Exec State A → Type 0
Keeps l0 = Steps l0 (λ a l. Same l0 l)

module _ {A B : Type 0} (l0 : Log) (m : Exec State A) (f : A → Exec State B)
    (Q : B → Log → Type 0) where
  continue-Leads :
      (x : Result A × State)
      → Leads l0 (λ a l. Same l0 l) x
      → ((a : A) → Steps l0 Q (f a))
      → Leads l0 Q (continue x f)
  continue-Leads (ok a, (l', d)) h k = (k a).leads l' d h
  continue-Leads (err e, (l', d)) h k = h
  continue-Leads (panicked, (l', d)) h k = h
  continue-Leads (out_of_fuel, (l', d)) h k = h

  pub bind-Steps : Keeps l0 m → ((a : A) → Steps l0 Q (f a)) → Steps l0 Q (m >>= f)
  bind-Steps h k = record { leads = λ l d same. continue-Leads (m (l, d)) (h.leads l d same) k }

module _ {A : Type 0} (l0 : Log) where
  pub on_segments-Keeps : (m : Exec (List IndexedSegment × Disk) A) → Keeps l0 (on_segments m)
  on_segments-Keeps m = record { leads = λ l d same. by_result l same (m (l.segments, d)) }
    where
      by_result :
          (l : Log)
          → Same l0 l
          → (x : Result A × (List IndexedSegment × Disk))
          → Leads l0 (λ a l'. Same l0 l') (stored (λ t. (record l { segments = t.0 }, t.1)) x)
      by_result l same (ok a, t) = same
      by_result l same (err e, t) = same
      by_result l same (panicked, t) = same
      by_result l same (out_of_fuel, t) = same

  pub on_disk-Keeps : (m : Exec Disk A) → Keeps l0 (on_disk m)
  on_disk-Keeps m = record { leads = λ l d same. by_result l same (m d) }
    where
      by_result :
          (l : Log)
          → Same l0 l
          → (x : Result A × Disk) → Leads l0 (λ a l'. Same l0 l') (stored (λ d'. (l, d')) x)
      by_result l same (ok a, t) = same
      by_result l same (err e, t) = same
      by_result l same (panicked, t) = same
      by_result l same (out_of_fuel, t) = same

  pub lift-Keeps : (r : Result A) → Keeps l0 (lift r)
  lift-Keeps (ok a) = record { leads = λ l d same. same }
  lift-Keeps (err e) = record { leads = λ l d same. same }
  lift-Keeps panicked = record { leads = λ l d same. same }
  lift-Keeps out_of_fuel = record { leads = λ l d same. same }

module _ {A B : Type 0} (l0 : Log) where
  pub active-Steps :
      (m : Exec Pair A) (f : A → Exec State B) (Q : B → Log → Type 0)
      → ((a : A) → Steps l0 Q (f a))
      → Steps l0 Q (on_active m >>= f)
  active-Steps m f Q = bind-Steps l0 (on_active m) f Q (on_segments-Keeps l0 (at_last m))

  pub disk-Steps :
      (m : Exec Disk A) (f : A → Exec State B) (Q : B → Log → Type 0)
      → ((a : A) → Steps l0 Q (f a))
      → Steps l0 Q (on_disk m >>= f)
  disk-Steps m f Q = bind-Steps l0 (on_disk m) f Q (on_disk-Keeps l0 m)

  pub lift-Steps :
      (r : Result A) (f : A → Exec State B) (Q : B → Log → Type 0)
      → ((a : A) → Steps l0 Q (f a))
      → Steps l0 Q (lift r >>= f)
  lift-Steps r f Q = bind-Steps l0 (lift r) f Q (lift-Keeps l0 r)

-- What the program reads of a log that counts as `l0` does.
pub gets-Steps :
    {A B : Type 0} (l0 : Log) (g : State → A) (f : A → Exec State B) (Q : B → Log → Type 0)
    (R : A → Type 0)
    → ((l : Log) (d : Disk) → Same l0 l → R (g (l, d)))
    → ((a : A) → R a → Steps l0 Q (f a))
    → Steps l0 Q (gets g >>= f)
gets-Steps l0 g f Q R r h = record {
  leads = λ l d same. (h (g (l, d)) (r l d same)).leads l d same;
}

module _ {A : Type 0} (l0 : Log) where
  pub pure-Keeps : (a : A) → Keeps l0 (pure a)
  pure-Keeps a = record { leads = λ l d same. same }

  pub either-Keeps :
      (b : Bool) (m k : Exec State A) → Keeps l0 m → Keeps l0 k → Keeps l0 (if b then m else k)
  either-Keeps true m k h h' = h
  either-Keeps false m k h h' = h'
