-- ===== src/Log/Enough.antt =====
-- The calls of segment.rs and sparse_index.rs have no loop that could be short of rounds.
use kafko.Base.{ℕ, Bytes, Option, none, some, Bool, true, false, if◌then◌else◌}
use kafko.Base.Dict.{lookup}
use kafko.Error.{
  Compression, uncompressed, lz4, zstd, Result, ok, err, panicked, out_of_fuel, Finishes,
}
use kafko.Exec.{Exec, ◌>>=◌, continue, pure, lift, gets, modify, when}
use kafko.Disk.{
  Disk, Fault, pass, fail, short, call, all_or_nothing, created, must_be_new, create_log,
  create_index, sync_data, remove_log, remove_index, write_result, read_result, first_fault,
}

-- The model had rounds enough.
abbrev pub IsEnough {ℓ} : {A : Type ℓ} → Result A → Type 0
IsEnough out_of_fuel = ⊥
IsEnough r = Unit

pub record Enough {S A : Type 0} (m : Exec S A) : Type 0 where
  pub enough : (s : S) → IsEnough (m s).0

module _ {S A B : Type 0} where
  continue-IsEnough :
      (x : Result A × S) (f : A → Exec S B)
      → IsEnough x.0
      → ((a : A) → Enough (f a))
      → IsEnough (continue x f).0
  continue-IsEnough (ok a, s) f h k = (k a).enough s
  continue-IsEnough (err e, s) f h k = tt
  continue-IsEnough (panicked, s) f h k = tt
  continue-IsEnough (out_of_fuel, s) f h k = h

  pub bind-Enough :
      (m : Exec S A) (f : A → Exec S B) → Enough m → ((a : A) → Enough (f a)) → Enough (m >>= f)
  bind-Enough m f h k = record { enough = λ s. continue-IsEnough (m s) f (h.enough s) k }

module _ {S A : Type 0} where
  pub pure-Enough : (a : A) → Enough {S = S} (pure a)
  pure-Enough a = record { enough = λ s. tt }

  pub gets-Enough : (f : S → A) → Enough (gets f)
  gets-Enough f = record { enough = λ s. tt }

  pub lift-Enough : (r : Result A) → IsEnough r → Enough {S = S} (lift r)
  lift-Enough r h = record { enough = λ s. h }

pub modify-Enough : {S : Type 0} (f : S → S) → Enough (modify f)
modify-Enough f = record { enough = λ s. tt }

pub when-Enough : {S : Type 0} (b : Bool) (m : Exec S (Unit {0})) → Enough m → Enough (when b m)
when-Enough true m h = h
when-Enough false m h = record { enough = λ s. tt }

pub either-Enough :
    {S A : Type 0} (b : Bool) (m k : Exec S A) → Enough m → Enough k → Enough (if b then m else k)
either-Enough true m k h h' = h
either-Enough false m k h h' = h'

pub call-Enough : {A : Type 0} (m : Exec Disk A) → Enough m → Enough (call m)
call-Enough m h = record { enough = λ d. by_fault (first_fault d.faults) (kafko.Disk.after_call d) }
  where
    by_fault : (f : Fault) (d : Disk) → IsEnough (all_or_nothing f m d).0
    by_fault pass d = h.enough d
    by_fault (fail k n) d = tt
    by_fault (short n) d = h.enough d

created-IsEnough :
    {A : Type 0} (r : Result A) (f : Disk → Disk) (d : Disk)
    → IsEnough r
    → IsEnough (created r f d).0
created-IsEnough (ok a) f d h = tt
created-IsEnough (err e) f d h = tt
created-IsEnough panicked f d h = tt
created-IsEnough out_of_fuel f d h = h

new-IsEnough : (o : Option Bytes) → IsEnough (must_be_new o)
new-IsEnough none = tt
new-IsEnough (some c) = tt

pub create_log-Enough : (name : ℕ) → Enough (create_log name)
unfolding create_log
create_log-Enough name =
    call-Enough _
      (record { enough = λ d. created-IsEnough _ _ d (new-IsEnough (lookup name d.logs)) })

pub create_index-Enough : (name : ℕ) → Enough (create_index name)
unfolding create_index
create_index-Enough name =
    call-Enough _
      (record { enough = λ d. created-IsEnough _ _ d (new-IsEnough (lookup name d.indexes)) })

pub sync_data-Enough : Enough sync_data
unfolding sync_data
sync_data-Enough = call-Enough (λ d. (ok tt, d)) (record { enough = λ d. tt })

there-IsEnough :
    (o : Option Bytes)
    → IsEnough {A = Unit {0}}
        (elim o [ none ↦ err (kafko.Error.io kafko.Error.not_found) | some c ↦ ok tt ])
there-IsEnough none = tt
there-IsEnough (some c) = tt

pub remove_log-Enough : (name : ℕ) → Enough (remove_log name)
unfolding remove_log
remove_log-Enough name =
    call-Enough _
      (record { enough = λ d. created-IsEnough _ _ d (there-IsEnough (lookup name d.logs)) })

pub remove_index-Enough : (name : ℕ) → Enough (remove_index name)
unfolding remove_index
remove_index-Enough name =
    call-Enough _
      (record { enough = λ d. created-IsEnough _ _ d (there-IsEnough (lookup name d.indexes)) })
