-- ===== src/OffsetStore/Names.antt =====
-- Which group names offset_store.rs accepts.
use kafko.Base.{
  ℕ, ◌≤◌, ◌≡◌, ◌≢◌, ◌⊎◌, ◌↔◌, inl, inr, refl, Bytes, [], ◌∷◌, Bool, true, false, not, ◌&&◌, ◌||◌,
  arith, All, if◌then◌else◌,
}
use kafko.Base.NameDict.{same_name, same_name_refl, ne→same_name}
use kafko.Error.{Result, ok, err, invalid_group_name}
use kafko.OffsetStore.{validate_group_name, is_name_byte, all_name_bytes, is_nil}

-- An ASCII letter or digit, a dot, an underscore or a dash.
abbrev pub IsNameByte : ℕ → Type 0
IsNameByte b =
    ((97 ≤ b) × (b ≤ 122))
    ⊎ (((65 ≤ b) × (b ≤ 90)) ⊎ (((48 ≤ b) × (b ≤ 57)) ⊎ ((b ≡ 46) ⊎ ((b ≡ 95) ⊎ (b ≡ 45)))))

is_name_byte_iff : (b : ℕ) → (is_name_byte b ≡ true) ↔ IsNameByte b
is_name_byte_iff b = ground arith

and_left : (a b : Bool) → (a && b) ≡ true → a ≡ true
and_left a b h = ground arith

and_right : (a b : Bool) → (a && b) ≡ true → b ≡ true
and_right a b h = ground arith

all_name_bytes_iff : (bs : Bytes) → (all_name_bytes bs ≡ true) ↔ All IsNameByte bs
all_name_bytes_iff [] = (λ h. tt, λ h. refl)
all_name_bytes_iff (b ∷ bs) = (
  λ h. ((is_name_byte_iff b).0 (and_left _ _ h), (all_name_bytes_iff bs).0 (and_right _ _ h)),
  λ h. rw ((is_name_byte_iff b).1 h.0, (all_name_bytes_iff bs).1 h.1),
)

abbrev verdict : Bytes → Bool → Bool → Bool → Bool → Result (Unit {0})
verdict g a b c e = if a || (b || (c || not e)) then err (invalid_group_name g) else ok tt

accepted :
    (g : Bytes) (a b c e : Bool)
    → verdict g a b c e ≡ ok tt
    → (a ≡ false) × (b ≡ false) × (c ≡ false) × (e ≡ true)
accepted g a b c e h = ground arith

two_verdicts :
    (g : Bytes) (a b c e : Bool)
    → (verdict g a b c e ≡ ok tt) ⊎ (verdict g a b c e ≡ err (invalid_group_name g))
two_verdicts g true b c e = inr refl
two_verdicts g false true c e = inr refl
two_verdicts g false false true e = inr refl
two_verdicts g false false false true = inl refl
two_verdicts g false false false false = inr refl

is_nil_iff : (g : Bytes) → (is_nil g ≡ false) ↔ (g ≢ [])
is_nil_iff [] = (λ h e. cc, λ h. absurd (h refl))
is_nil_iff (b ∷ bs) = (λ h e. cc, λ h. refl)

-- A group name is accepted exactly when it is not empty, not one of the two dot names, and made of
-- the allowed bytes; any other is refused by name.
pub validate_group_name_iff :
    (g : Bytes)
    → ((validate_group_name g ≡ ok tt)
        ↔ ((g ≢ []) × (g ≢ 46 ∷ []) × (g ≢ 46 ∷ 46 ∷ []) × All IsNameByte g))
      × ((validate_group_name g ≡ ok tt) ⊎ (validate_group_name g ≡ err (invalid_group_name g)))
unfolding validate_group_name
validate_group_name_iff g = (
  (
    λ h.
        let (a, b, c, e) =
          accepted g (is_nil g) (same_name g (46 ∷ [])) (same_name g (46 ∷ 46 ∷ []))
            (all_name_bytes g) h in
        (
          (is_nil_iff g).0 a,
          distinct g (46 ∷ []) b,
          distinct g (46 ∷ 46 ∷ []) c,
          (all_name_bytes_iff g).0 e,
        ),
    λ h. rw (
      (is_nil_iff g).1 h.0,
      ne→same_name g (46 ∷ []) h.1,
      ne→same_name g (46 ∷ 46 ∷ []) h.2,
      (all_name_bytes_iff g).1 h.3,
    ),
  ),
  two_verdicts g (is_nil g) (same_name g (46 ∷ [])) (same_name g (46 ∷ 46 ∷ [])) (all_name_bytes g),
)
  where
    distinct : (k j : Bytes) → same_name k j ≡ false → k ≢ j
    distinct k j h e = let t : same_name k j ≡ true = rw (← e) (same_name_refl k) in cc
