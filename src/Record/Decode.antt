-- ===== src/Record/Decode.antt =====
-- What the decoder of record.rs does on any buffer.
use kafko.Base.{
  ℕ, ◌+◌, ◌-◌, ◌*◌, ◌^◌, ◌≤◌, ◌<◌, ◌≡◌, refl, ap, Bytes, [], ◌∷◌, ◌++◌, length, take, be32, be64,
  arith, ltb, length-drop, Bool, true, false, if◌then◌else◌, of_be32, of_be32-bytes, of_be32-low,
  ◌%◌, ltb→le, ◌==◌,
}
use kafko.Error.{Compression, Result, Finishes, ok, err, panicked, out_of_fuel, ◌>>=◌}
use kafko.Compression.{Platform, from_flag, decompress}
use kafko.Compression.RoundTrip.{from_flag-Finishes, decompress-Finishes}
use kafko.Record.{
  get_u32, get_i64, decode_key, decode_value, decode_payload, decode_body, decode, min_total_len,
  key_null_sentinel,
}

pub get_u32-be32 : (n : ℕ) (rest : Bytes) → n < 2 ^ 32 → get_u32 (be32 n ++ rest) ≡ ok (n, rest)
unfolding be32
get_u32-be32 n rest h = ap (λ (k : ℕ). ok (k, rest)) (of_be32-bytes n h)

pub get_u32-be32_low : (n : ℕ) (rest : Bytes) → get_u32 (be32 n ++ rest) ≡ ok (n % 2 ^ 32, rest)
unfolding be32
get_u32-be32_low n rest = ap (λ (k : ℕ). ok (k, rest)) (of_be32-low n)

pub get_i64-be64 : (n : ℕ) (rest : Bytes) → n < 2 ^ 64 → get_i64 (be64 n ++ rest) ≡ ok (n, rest)
unfolding be64 be32 get_i64
get_i64-be64 n rest h = ap (λ (k : ℕ). ok (k, rest)) (omega arith)

-- A read of four bytes that are there.
pub get_u32_step :
    (buf : Bytes)
    → 4 ≤ length buf
    → (n : ℕ) × (rest : Bytes) × (get_u32 buf ≡ ok (n, rest)) × (length rest + 4 ≡ length buf)
get_u32_step (a ∷ b ∷ c ∷ d ∷ rest) h = (of_be32 a b c d, rest, refl, omega arith)
get_u32_step [] h = absurd (omega arith)
get_u32_step (a ∷ []) h = absurd (omega arith)
get_u32_step (a ∷ b ∷ []) h = absurd (omega arith)
get_u32_step (a ∷ b ∷ c ∷ []) h = absurd (omega arith)

get_i64_step :
    (buf : Bytes)
    → 8 ≤ length buf
    → (n : ℕ) × (rest : Bytes) × (get_i64 buf ≡ ok (n, rest)) × (length rest + 8 ≡ length buf)
unfolding get_i64
get_i64_step buf h =
    let (hi, rest, e, l) = get_u32_step buf (omega arith) in
    let (lo, rest', e', l') = get_u32_step rest (omega arith) in
    (hi * 2 ^ 32 + lo, rest', rw (e, e'), omega arith)

-- An outcome of a part of the decoder: an error, or a value with at most `n` bytes left.
abbrev Outcome {ℓ} : {A : Type ℓ} → ℕ → Result (A × Bytes) → Type 0
Outcome n (ok (a, rest)) = length rest ≤ n
Outcome n (err e) = Unit
Outcome n panicked = ⊥
Outcome n out_of_fuel = ⊥

Outcome->>= {ℓ κ} :
    {A : Type ℓ} {B : Type κ} (n k : ℕ) (m : Result (A × Bytes))
    (f : A × Bytes → Result (B × Bytes))
    → Outcome n m
    → ((a : A) (rest : Bytes) → length rest ≤ n → Outcome k (f (a, rest)))
    → Outcome k (m >>= f)
Outcome->>= n k (ok (a, rest)) f h g = g a rest h
Outcome->>= n k (err e) f h g = tt
Outcome->>= n k panicked f h g = h
Outcome->>= n k out_of_fuel f h g = h

Outcome-if {ℓ} :
    {A : Type ℓ} (n : ℕ) (b : Bool) (x y : Result (A × Bytes))
    → (b ≡ true → Outcome n x)
    → (b ≡ false → Outcome n y)
    → Outcome n (if b then x else y)
Outcome-if n true x y h g = h refl
Outcome-if n false x y h g = g refl

Outcome-Finishes {ℓ κ} :
    {A : Type ℓ} {B : Type κ} (k : ℕ) (m : Result A) (f : A → Result (B × Bytes))
    → Finishes m
    → ((a : A) → Outcome k (f a))
    → Outcome k (m >>= f)
Outcome-Finishes k (ok a) f h g = g a
Outcome-Finishes k (err e) f h g = tt
Outcome-Finishes k panicked f h g = h
Outcome-Finishes k out_of_fuel f h g = h

decode_value-Outcome :
    (p : Platform) (n : ℕ) (c : Compression) (buf : Bytes)
    → Outcome (length buf - 4) (decode_value p n c buf)
unfolding decode_value
decode_value-Outcome p n c buf =
    Outcome-if _ (ltb (length buf) 4) _ _ (λ _. tt)
      λ e.
        let (m, rest, e', l) = get_u32_step buf (ltb→le _ 4 e) in
        rw e' (
          Outcome-if _ (ltb (length rest) m) _ _ (λ _. tt)
            λ _.
              Outcome-Finishes _ (decompress p c (take m rest)) _ (decompress-Finishes p c _)
                (λ v. omega (arith, length-drop m rest)))

decode_key-Outcome : (n m : ℕ) (buf : Bytes) → Outcome (length buf) (decode_key n m buf)
unfolding decode_key
decode_key-Outcome n m buf =
    Outcome-if _ (m == key_null_sentinel) _ _ (λ _. omega arith)
      λ _. Outcome-if _ (ltb (length buf) m) _ _ (λ _. tt) (λ _. omega (arith, length-drop m buf))

decode_payload-Outcome :
    (p : Platform) (n : ℕ) (buf : Bytes)
    → 17 ≤ length buf
    → Outcome (length buf - 17) (decode_payload p n buf)
unfolding decode_payload
decode_payload-Outcome p n [] h = absurd (omega arith)
decode_payload-Outcome p n (f ∷ buf1) h =
    Outcome-Finishes _ (from_flag f) _ (from_flag-Finishes f) λ c.
      let (ts, buf2, e2, l2) = get_i64_step buf1 (omega arith) in
      let (m, buf3, e3, l3) = get_u32_step buf2 (omega arith) in
      rw (e2, e3)
        (Outcome->>= (length buf3) _ (decode_key n m buf3) _ (decode_key-Outcome n m buf3)
          λ k buf4 l4.
            Outcome->>= (length buf4 - 4) _ (decode_value p n c buf4) _
              (decode_value-Outcome p n c buf4) (λ v buf5 l5. omega arith))

-- The decoder's result on `buf`: an error, or a record and what follows its at least 25 bytes.
abbrev pub Decodes {ℓ} : {A : Type ℓ} → Bytes → Result (A × Bytes) → Type 0
Decodes buf (ok (a, rest)) = length rest + 25 ≤ length buf
Decodes buf (err e) = Unit
Decodes buf panicked = ⊥
Decodes buf out_of_fuel = ⊥

Decodes-if {ℓ} :
    {A : Type ℓ} (buf : Bytes) (b : Bool) (x y : Result (A × Bytes))
    → (b ≡ true → Decodes buf x)
    → (b ≡ false → Decodes buf y)
    → Decodes buf (if b then x else y)
Decodes-if buf true x y h g = h refl
Decodes-if buf false x y h g = g refl

Outcome-Decodes {ℓ} :
    {A : Type ℓ} (n : ℕ) (buf : Bytes) (m : Result (A × Bytes))
    → Outcome n m
    → n + 25 ≤ length buf
    → Decodes buf m
Outcome-Decodes n buf (ok (a, rest)) h l = omega arith
Outcome-Decodes n buf (err e) h l = tt
Outcome-Decodes n buf panicked h l = h
Outcome-Decodes n buf out_of_fuel h l = h

-- The decoder returns on every buffer and never panics; a success takes at least 25 bytes.
pub decode-Decodes : (p : Platform) (buf : Bytes) → Decodes buf (decode p buf)
unfolding decode decode_body
decode-Decodes p buf =
    Decodes-if buf (ltb (length buf) 4) _ _ (λ _. tt)
      λ e.
        let (t, buf1, e1, l1) = get_u32_step buf (ltb→le _ 4 e) in
        rw e1 (
          Decodes-if buf (ltb t min_total_len) _ _ (λ _. tt)
            λ h1.
              Decodes-if buf (ltb (length buf1) t) _ _ (λ _. tt)
                λ h2.
                  let t_le : min_total_len ≤ t = ltb→le t min_total_len h1 in
                  let b_le : t ≤ length buf1 = ltb→le (length buf1) t h2 in
                  let (x, buf2, e2, l2) = get_u32_step buf1 (omega arith) in
                  rw e2 (
                    Decodes-if buf (p.crc32 (take (t - 4) buf2) == x) _ _
                      (λ _.
                        Outcome-Decodes _ buf (decode_payload p t buf2)
                          (decode_payload-Outcome p t buf2 (omega arith)) (omega arith))
                      (λ _. tt)))
