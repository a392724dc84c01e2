-- ===== src/Examples/Files.antt =====
-- Runs of the theorems on offset_store.rs.
use kafko.Base.{ℕ, ◌≡◌, ◌≢◌, ◌↔◌, ◌⊎◌, refl, Bytes, List, [], ◌∷◌, length, arith, some, none, All}
use kafko.Base.NameDict
use kafko.Error.{Result, ok, err, other_kind, invalid_group_name}
use kafko.Disk.{fail, pass}
use kafko.OffsetStore.{
  Files, OffsetStore, State, decode, encode, commit, open_store, validate_group_name,
}
use kafko.OffsetStore.Codec.{decode-encode, decode_total}
use kafko.OffsetStore.Commit.{commit_atomic, lookup-commit, open_store-commit, Left, Settled}
use kafko.OffsetStore.Names.{validate_group_name_iff, IsNameByte}
use kafko.Examples.{plain, plain-IsLawful}

decode-encode_example : decode plain (encode plain (7 ∷ 0 ∷ 42 ∷ [])) 4 ≡ ok (7 ∷ 0 ∷ 42 ∷ 0 ∷ [])
decode-encode_example =
    decode-encode plain (7 ∷ 0 ∷ 42 ∷ []) 4 plain-IsLawful
      (omega arith, (omega arith, (omega arith, tt))) (omega arith)

decode_total_example : (os : List ℕ) × (decode plain (1 ∷ 2 ∷ 3 ∷ []) 2 ≡ ok os) × (length os ≡ 2)
decode_total_example = decode_total plain (1 ∷ 2 ∷ 3 ∷ []) 2

-- The group `g`, and the group whose name is that of its temporary file.
abbrev group_g : Bytes
group_g = 103 ∷ []

abbrev group_g_tmp : Bytes
group_g_tmp = 103 ∷ 46 ∷ 116 ∷ 109 ∷ 112 ∷ []

abbrev store_g : OffsetStore
store_g = record {
  file_path = group_g;
  temp_path = group_g_tmp;
  group = group_g;
  committed = 1 ∷ [];
}

abbrev full_disk : Files
full_disk = record { files = (group_g, 9 ∷ []) ∷ []; faults = pass ∷ (fail (other_kind 28) 3 ∷ []) }

commit_atomic_example :
    let r : Result (Unit {0}) × State = commit plain (5 ∷ []) (store_g, full_disk) in
    Left r.0 (NameDict.lookup group_g r.1.1.files) (encode plain (5 ∷ [])) (some (9 ∷ []))
    × Settled r.0 r.1.0.committed (5 ∷ []) (1 ∷ [])
commit_atomic_example = commit_atomic plain (5 ∷ []) store_g full_disk (λ e. cc)

lookup-commit_example :
    let r : Result (Unit {0}) × State =
      commit plain (5 ∷ []) (store_g, record { files = (group_g_tmp, 9 ∷ []) ∷ []; faults = [] }) in
    (r.0 ≡ ok tt) × (NameDict.lookup group_g_tmp r.1.1.files ≡ none)
lookup-commit_example =
    lookup-commit plain (5 ∷ []) store_g ((group_g_tmp, 9 ∷ []) ∷ []) group_g_tmp

open_store-commit_example :
    (open_store plain group_g 2
      (commit plain (5 ∷ []) (store_g, record { files = []; faults = [] })).1.1).0
    ≡ ok (record {
      file_path = group_g;
      temp_path = group_g_tmp;
      group = group_g;
      committed = 5 ∷ 0 ∷ [];
    })
unfolding validate_group_name
open_store-commit_example =
    open_store-commit plain (5 ∷ []) store_g [] 2 plain-IsLawful (omega arith, tt) (omega arith)
      refl

validate_group_name_iff_example :
    ((validate_group_name group_g ≡ ok tt)
      ↔ ((group_g ≢ []) × (group_g ≢ 46 ∷ []) × (group_g ≢ 46 ∷ 46 ∷ []) × All IsNameByte group_g))
    × ((validate_group_name group_g ≡ ok tt)
        ⊎ (validate_group_name group_g ≡ err (invalid_group_name group_g)))
validate_group_name_iff_example = validate_group_name_iff group_g
