-- ===== src/OffsetStore/Codec.antt =====
-- The offset file of offset_store.rs, written and read back.
use kafko.Base.{
  ℕ, zero, suc, ◌+◌, ◌*◌, ◌%◌, ◌^◌, ◌≤◌, ◌<◌, ◌≡◌, inl, inr, refl, sym, ap, ◌∙◌, Bytes, List, [],
  ◌∷◌, ◌++◌, some, length, set, replicate, ltb, ◌==◌, if◌then◌else◌, Bool, true, false, arith, All,
  le32, le64, le32_at, le32_at-le32, of_be32, length-append, append_assoc, length-le32, length-le64,
  Bool-cases, le→ltb, lt→ltb, ltb→le, ==_refl, length-set, length-replicate, append-nil,
}
use mathlib.Core.Path.{ap₂}
use kafko.Error.{ok}
use kafko.Compression.{Platform, IsLawful}
use kafko.OffsetStore.{entries_from, encode, entry_of, decode_entries, zeros, decode_body, decode}

le32_at-le32_low : (n : ℕ) (rest : Bytes) → le32_at (le32 n ++ rest) ≡ some (n % 2 ^ 32, rest)
unfolding le32
le32_at-le32_low n rest = ap (λ (k : ℕ). some (k, rest)) (omega arith)

-- One entry.
entry_of-entry :
    (partition offset : ℕ) (rest : Bytes)
    → partition < 2 ^ 32
    → offset < 2 ^ 64
    → entry_of (le32_at (le32 partition ++ (le64 offset ++ rest))) ≡ some (partition, offset, rest)
unfolding le64 le32
entry_of-entry partition offset rest hp ho =
    ap₂ (λ (k o : ℕ). some (k, o, rest)) (omega arith) (omega arith)

-- The first entries of `result` replaced by `offsets`, from `partition` on.
abbrev placed : ℕ → List ℕ → List ℕ → List ℕ
placed partition [] result = result
placed partition (offset ∷ offsets) result =
    placed (partition + 1) offsets
      (if ltb partition (length result) then set result partition offset else result)

decode_entries-entries_from :
    (offsets : List ℕ) (partition n : ℕ) (rest : Bytes) (result : List ℕ)
    → All (λ o. o < 2 ^ 64) offsets
    → partition + length offsets ≤ 2 ^ 32
    → n ≡ length result
    → decode_entries n (length offsets) (entries_from partition offsets ++ rest) result
      ≡ ok (placed partition offsets result)
unfolding decode_entries entries_from
decode_entries-entries_from [] partition n rest result a h q = refl
decode_entries-entries_from (o ∷ os) partition n rest result a h q =
    rw
      (
        append_assoc (le32 partition) (le64 o ++ entries_from (partition + 1) os) rest,
        append_assoc (le64 o) (entries_from (partition + 1) os) rest,
        entry_of-entry partition o (entries_from (partition + 1) os ++ rest) (omega arith) a.0,
        decode_entries,
        q,
      )
      (decode_entries-entries_from os (partition + 1) n rest
        (if ltb partition (length result) then set result partition o else result) a.1 (omega arith)
        (q ∙ kept (ltb partition (length result))))
  where
    kept : (b : Bool) → length result ≡ length (if b then set result partition o else result)
    kept true = sym (length-set result partition o)
    kept false = refl

-- `n` offsets: those given, as far as there are any, and zeros.
abbrev pub fitted : ℕ → List ℕ → List ℕ
fitted zero offsets = []
fitted (suc n) [] = 0 ∷ fitted n []
fitted (suc n) (o ∷ os) = o ∷ fitted n os

fitted-nil : (n : ℕ) → fitted n [] ≡ replicate n 0
fitted-nil zero = refl
fitted-nil (suc n) = rw (fitted-nil n)

pub fitted_self : (offsets : List ℕ) → fitted (length offsets) offsets ≡ offsets
fitted_self [] = refl
fitted_self (o ∷ os) = rw (fitted_self os)

set-append :
    (pre : List ℕ) (x y : ℕ) (post : List ℕ)
    → set (pre ++ (x ∷ post)) (length pre) y ≡ (pre ++ (y ∷ [])) ++ post
set-append [] x y post = refl
set-append (z ∷ pre) x y post = rw (set-append pre x y post)

placed-past :
    (partition : ℕ) (offsets result : List ℕ)
    → length result ≤ partition
    → placed partition offsets result ≡ result
placed-past partition [] result h = refl
placed-past partition (o ∷ os) result h =
    rw (le→ltb partition (length result) h) (placed-past (partition + 1) os result (omega arith))

placed-fitted :
    (offsets : List ℕ) (n : ℕ) (pre : List ℕ)
    → placed (length pre) offsets (pre ++ replicate n 0) ≡ pre ++ fitted n offsets
placed-fitted [] n pre = rw (fitted-nil n)
placed-fitted (o ∷ os) zero pre =
    placed-past (length pre) (o ∷ os) (pre ++ []) (omega (arith, length-append {0} {A = ℕ} pre []))
placed-fitted (o ∷ os) (suc n) pre =
    rw
      (
        lt→ltb (length pre) (length (pre ++ (0 ∷ replicate n 0)))
            (omega (arith, length-append pre (0 ∷ replicate n 0))),
        set-append pre 0 o (replicate n 0),
        let e : length pre + 1 ≡ length (pre ++ (o ∷ [])) =
              omega (arith, length-append pre (o ∷ [])) in
            e,
      )
      (placed-fitted os n (pre ++ (o ∷ [])) ∙ append_assoc pre (o ∷ []) (fitted n os))

length-entries_from :
    (partition : ℕ) (offsets : List ℕ)
    → length (entries_from partition offsets) ≡ length offsets * 12
unfolding entries_from
length-entries_from partition [] = omega arith
length-entries_from partition (o ∷ os) = omega (
  arith,
  length-append (le32 partition) (le64 o ++ entries_from (partition + 1) os),
  length-append (le64 o) (entries_from (partition + 1) os),
  length-le32 partition,
  length-le64 o,
  length-entries_from (partition + 1) os,
)

-- What a commit encodes decodes, for any number of partitions, to the offsets in order, cut or
-- filled with zeros to that number. The platform is lawful, the offsets are below 2^64 and fewer
-- than 2^32.
pub decode-encode :
    (p : Platform) (offsets : List ℕ) (n : ℕ)
    → IsLawful p
    → All (λ o. o < 2 ^ 64) offsets
    → length offsets < 2 ^ 32
    → decode p (encode p offsets) n ≡ ok (fitted n offsets)
unfolding decode encode
decode-encode p offsets n l a h =
    let entries : Bytes = entries_from 0 offsets in
    let body : Bytes = le32 (length offsets) ++ entries in
    let size : length body ≡ 4 + length offsets * 12 = omega (
      arith,
      length-append (le32 (length offsets)) entries,
      length-le32 (length offsets),
      length-entries_from 0 offsets,
    ) in
    rw
      (
        le→ltb (length (le32 (p.crc32 body) ++ body)) 8
            (omega (arith, length-append (le32 (p.crc32 body)) body, length-le32 (p.crc32 body))),
        le32_at-le32 (p.crc32 body) body (l.crc32_fits body),
        ==_refl (p.crc32 body),
        le32_at-le32 (length offsets) entries h,
        le→ltb (length body) (4 + length offsets * 12) (omega arith),
      )
      (ap (λ es. decode_entries n (length offsets) es (zeros n)) (sym (append-nil entries))
        ∙ decode_entries-entries_from offsets 0 n [] (zeros n) a (omega arith)
            (sym (length-replicate n 0))
        ∙ ap ok (placed-fitted offsets n []))

le32_at_step :
    (bs : Bytes)
    → 4 ≤ length bs
    → (n : ℕ) × (rest : Bytes) × (le32_at bs ≡ some (n, rest)) × (length rest + 4 ≡ length bs)
le32_at_step (a ∷ b ∷ c ∷ d ∷ rest) h = (of_be32 d c b a, rest, refl, omega arith)
le32_at_step [] h = absurd (omega arith)
le32_at_step (a ∷ []) h = absurd (omega arith)
le32_at_step (a ∷ b ∷ []) h = absurd (omega arith)
le32_at_step (a ∷ b ∷ c ∷ []) h = absurd (omega arith)

entry_step :
    (body : Bytes)
    → 12 ≤ length body
    → (partition : ℕ) × (offset : ℕ) × (rest : Bytes) × (entry_of (le32_at body)
        ≡ some (partition, offset, rest))
      × (length rest + 12 ≡ length body)
entry_step body h =
    let (n, rest, e, l) = le32_at_step body (omega arith) in
    let (lo, rest2, e2, l2) = le32_at_step rest (omega arith) in
    let (hi, rest3, e3, l3) = le32_at_step rest2 (omega arith) in
    (n, hi * 2 ^ 32 + lo, rest3, rw (e, e2, e3), omega arith)

-- Any file at all decodes, to as many offsets as there are partitions.
decode_entries_total :
    (n left : ℕ) (body : Bytes) (result : List ℕ)
    → left * 12 ≤ length body
    → length result ≡ n
    → (os : List ℕ) × (decode_entries n left body result ≡ ok os) × (length os ≡ n)
unfolding decode_entries
decode_entries_total n zero body result h q = (result, refl, q)
decode_entries_total n (suc left) body result h q =
    let (partition, offset, rest, e, l) = entry_step body (omega arith) in
    let next : List ℕ = if ltb partition n then set result partition offset else result in
    let (os, r, s) =
      decode_entries_total n left rest next (omega arith)
        (kept (ltb partition n) partition offset ∙ q) in
    (os, rw (e, decode_entries) r, s)
  where
    kept : (b : Bool) (i v : ℕ) → length (if b then set result i v else result) ≡ length result
    kept true i v = length-set result i v
    kept false i v = refl

decode_body_total :
    (n : ℕ) (body : Bytes)
    → 4 ≤ length body
    → (os : List ℕ) × (decode_body n body (le32_at body) ≡ ok os) × (length os ≡ n)
unfolding decode_body
decode_body_total n body h =
    let (count, rest, e, l) = le32_at_step body h in
    elim (Bool-cases (ltb (length body) (4 + count * 12))) [
      | inl b ↦ (zeros n, rw (e, b), length-replicate n 0)
      | inr b ↦
          let (os, r, s) =
            decode_entries_total n count rest (zeros n) (omega (arith, ltb→le _ _ b))
              (length-replicate n 0) in
          (os, rw (e, b) r, s)
    ]

-- Decoding a committed-offset file never panics: any bytes give one offset for each partition.
pub decode_total :
    (p : Platform) (bytes : Bytes) (n : ℕ)
    → (os : List ℕ) × (decode p bytes n ≡ ok os) × (length os ≡ n)
unfolding decode
decode_total p bytes n = elim (Bool-cases (ltb (length bytes) 8)) [
  | inl b ↦ (zeros n, rw b, length-replicate n 0)
  | inr b ↦
      let (crc, body, e, l) = le32_at_step bytes (omega (arith, ltb→le _ _ b)) in
      elim (Bool-cases (p.crc32 body == crc)) [
        | inl c ↦
            let (os, r, s) = decode_body_total n body (omega (arith, ltb→le _ _ b)) in
            (os, rw (b, e, c) r, s)
        | inr c ↦ (zeros n, rw (b, e, c), length-replicate n 0)
      ]
]
