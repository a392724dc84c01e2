-- ===== src/Base/NameDict.antt =====
-- Dictionaries keyed by byte strings, as association lists.
use mathlib.Core.Path.{◌≡◌, refl}
use mathlib.Core.Bool.{Bool, true, false, ◌&&◌, ◌||◌}
use mathlib.Core.Logic.{◌≢◌}
use mathlib.Core.Option.{Option, none, some}
use mathlib.Core.List.{List, [], ◌∷◌}
use native.Mathlib.Omega.{arith}
use kafko.Base.Tests.{◌==◌, ltb, if◌then◌else◌, ==_refl}
use kafko.Base.Words.{Bytes}

abbrev pub same_name : Bytes → Bytes → Bool
same_name [] [] = true
same_name [] (b ∷ bs) = false
same_name (a ∷ more) [] = false
same_name (a ∷ more) (b ∷ bs) = (a == b) && same_name more bs

pub same_name_refl : (k : Bytes) → same_name k k ≡ true
same_name_refl [] = refl
same_name_refl (b ∷ bs) = rw (==_refl b, same_name_refl bs)

pub same_name→eq : (k j : Bytes) → same_name k j ≡ true → k ≡ j
same_name→eq [] [] h = refl
same_name→eq [] (b ∷ bs) h = cc
same_name→eq (a ∷ more) [] h = cc
same_name→eq (a ∷ more) (b ∷ bs) h = ground (arith, same_name→eq more bs)

pub ne→same_name : (k j : Bytes) → k ≢ j → same_name k j ≡ false
ne→same_name k j h = decided (same_name k j) (same_name→eq k j)
  where
    decided : (b : Bool) → (b ≡ true → k ≡ j) → b ≡ false
    decided true f = absurd (h (f refl))
    decided false f = refl

-- The order of strings, byte by byte.
abbrev pub leb_name : Bytes → Bytes → Bool
leb_name [] bs = true
leb_name (a ∷ more) [] = false
leb_name (a ∷ more) (b ∷ bs) = ltb a b || ((a == b) && leb_name more bs)

abbrev pub insert_name : Bytes → List Bytes → List Bytes
insert_name k [] = k ∷ []
insert_name k (j ∷ js) = if leb_name k j then k ∷ (j ∷ js) else j ∷ insert_name k js

abbrev pub sort_names : List Bytes → List Bytes
sort_names [] = []
sort_names (k ∷ ks) = insert_name k (sort_names ks)

module _ {ℓ} {V : Type ℓ} where
  abbrev pub lookup : Bytes → List (Bytes × V) → Option V
  lookup k [] = none
  lookup k ((j, v) ∷ m) = if same_name j k then some v else lookup k m

  unfoldable pub insert : Bytes → V → List (Bytes × V) → List (Bytes × V)
  insert k v [] = (k, v) ∷ []
  insert k v ((j, w) ∷ m) = if same_name j k then (k, v) ∷ m else (j, w) ∷ insert k v m

  unfoldable pub remove : Bytes → List (Bytes × V) → List (Bytes × V)
  remove k [] = []
  remove k ((j, w) ∷ m) = if same_name j k then remove k m else (j, w) ∷ remove k m

  pub lookup-insert :
      (k j : Bytes) (v : V) (m : List (Bytes × V))
      → lookup j (insert k v m) ≡ (if same_name k j then some v else lookup j m)
  unfolding insert
  lookup-insert k j v [] = refl
  lookup-insert k j v ((i, w) ∷ m) = ground (
    arith,
    lookup-insert k j v m,
    same_name→eq i k,
    same_name→eq i j,
    same_name→eq k j,
    same_name_refl i,
  )

  pub lookup-remove :
      (k j : Bytes) (m : List (Bytes × V))
      → lookup j (remove k m) ≡ (if same_name k j then none else lookup j m)
  unfolding remove
  lookup-remove k j [] = ground arith
  lookup-remove k j ((i, w) ∷ m) = ground (
    arith,
    lookup-remove k j m,
    same_name→eq i k,
    same_name→eq i j,
    same_name→eq k j,
    same_name_refl i,
  )
