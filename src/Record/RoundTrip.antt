-- ===== src/Record/RoundTrip.antt =====
-- A record comes back from the frame that the encoder of record.rs wrote for it.
use kafko.Base.{
  ℕ, ◌+◌, ◌-◌, ◌^◌, ◌≤◌, ◌<◌, ◌≡◌, refl, Bytes, [], ◌∷◌, ◌++◌, Option, none, some, length, be32,
  be64, arith, length-append, ltb, length-be32, true, lt→ltb, le→ltb, take-append, drop-append,
  append_assoc, ==_refl, ne→==, Bool-cases, inl, inr, ltb→lt, ltb→le,
}
use kafko.Error.{Compression, ok, err, ◌>>=◌, >>=_assoc, truncated}
use kafko.Compression.{Platform, IsLawful, compress, decompress, is_available, decompress_max_size}
use kafko.Compression.RoundTrip.{from_flag-flag, decompress-compress}
use kafko.Record.{
  Record, get_u32, decode_key, decode_value, decode_payload, decode_body, decode, min_total_len,
  put_key, key_part, new, key_null_sentinel, encode_with,
}
use kafko.Record.Encode.{
  payload, frame, total_len, length-payload, length-frame, frame_min, encode_with-frame,
}
use kafko.Record.Decode.{get_u32-be32, get_i64-be64, get_u32_step}

-- The timestamp is a 64-bit pattern and the frame's length fits its four bytes.
pub record Fits (r : Record) (val : Bytes) : Type 0 where
  pub stamp : r.timestamp_ms < 2 ^ 64
  pub room : total_len r val < 2 ^ 32

decode_key-put_key :
    (n : ℕ) (k : Option Bytes) (rest : Bytes)
    → key_part k + 17 < 2 ^ 32
    → (m : ℕ) × (buf : Bytes) × (get_u32 (put_key k ++ rest) ≡ ok (m, buf))
      × (decode_key n m buf ≡ ok (k, rest))
unfolding decode_key
decode_key-put_key n none rest h =
    (key_null_sentinel, rest, get_u32-be32 key_null_sentinel rest (omega arith), refl)
decode_key-put_key n (some k) rest h = (
  length k,
  k ++ rest,
  rw (append_assoc (be32 (length k)) k rest) (get_u32-be32 (length k) (k ++ rest) (omega arith)),
  rw (
    ne→== (length k) key_null_sentinel (omega arith),
    le→ltb (length (k ++ rest)) (length k) (omega (arith, length-append k rest)),
    take-append k rest,
    drop-append k rest,
  ),
)

decode_value-be32 :
    (p : Platform) (n : ℕ) (c : Compression) (val rest : Bytes)
    → length val < 2 ^ 32
    → decode_value p n c (be32 (length val) ++ (val ++ rest))
      ≡ (decompress p c val >>= λ v. ok (v, rest))
unfolding decode_value
decode_value-be32 p n c val rest h = rw (
  le→ltb (length (be32 (length val) ++ (val ++ rest))) 4
      (omega (arith, length-append (be32 (length val)) (val ++ rest), length-be32 (length val))),
  get_u32-be32 (length val) (val ++ rest) h,
  le→ltb (length (val ++ rest)) (length val) (omega (arith, length-append val rest)),
  take-append val rest,
  drop-append val rest,
)

decode_payload-payload :
    (p : Platform) (n : ℕ) (r : Record) (c : Compression) (val rest : Bytes)
    → Fits r val
    → decode_payload p n (payload r c val ++ rest)
      ≡ (decompress p c val >>= λ v. ok (new r.timestamp_ms r.key v, rest))
unfolding decode_payload payload
decode_payload-payload p n r c val rest f =
    rw
      (
        from_flag-flag c,
        append_assoc (be64 r.timestamp_ms) (put_key r.key ++ (be32 (length val) ++ val)) rest,
        get_i64-be64 r.timestamp_ms ((put_key r.key ++ (be32 (length val) ++ val)) ++ rest) f.stamp,
        append_assoc (put_key r.key) (be32 (length val) ++ val) rest,
        append_assoc (be32 (length val)) val rest,
      )
      (let (m, buf, e, d) =
          decode_key-put_key n r.key (be32 (length val) ++ (val ++ rest)) (omega (arith, f.room)) in
        rw (e, d, decode_value-be32 p n c val rest (omega (arith, f.room)))
          (>>=_assoc (decompress p c val) _ _))

decode_body-frame :
    (p : Platform) (r : Record) (c : Compression) (val rest : Bytes)
    → IsLawful p
    → Fits r val
    → decode_body p
        (total_len r val)
        (be32 (p.crc32 (payload r c val)) ++ (payload r c val ++ rest))
      ≡ (decompress p c val >>= λ v. ok (new r.timestamp_ms r.key v, rest))
unfolding decode_body
decode_body-frame p r c val rest l f =
    rw
      (
        get_u32-be32 (p.crc32 (payload r c val)) (payload r c val ++ rest) (l.crc32_fits _),
        let e : total_len r val - 4 ≡ length (payload r c val) =
              omega (arith, length-payload r c val) in
            e,
        take-append (payload r c val) rest,
        ==_refl (p.crc32 (payload r c val)),
      )
      (decode_payload-payload p _ r c val rest f)

-- Decoding a frame gives the record with the decompressed value, and leaves what follows it.
pub decode-frame :
    (p : Platform) (r : Record) (c : Compression) (val rest : Bytes)
    → IsLawful p
    → Fits r val
    → decode p (frame p r c val ++ rest)
      ≡ (decompress p c val >>= λ v. ok (new r.timestamp_ms r.key v, rest))
unfolding decode frame
decode-frame p r c val rest l f =
    rw
      (
        le→ltb (length (frame p r c val ++ rest)) 4
            (omega (arith, length-append (frame p r c val) rest, frame_min p r c val)),
        append_assoc (be32 (total_len r val)) (be32 (p.crc32 (payload r c val)) ++ payload r c val)
            rest,
        get_u32-be32 (total_len r val)
            ((be32 (p.crc32 (payload r c val)) ++ payload r c val) ++ rest) f.room,
        le→ltb (total_len r val) min_total_len
            (omega (arith, length-frame p r c val, frame_min p r c val)),
        append_assoc (be32 (p.crc32 (payload r c val))) (payload r c val) rest,
        le→ltb (length (be32 (p.crc32 (payload r c val)) ++ (payload r c val ++ rest)))
            (total_len r val)
            (omega (
              arith,
              length-append (be32 (p.crc32 (payload r c val))) (payload r c val ++ rest),
              length-append (payload r c val) rest,
              length-be32 (p.crc32 (payload r c val)),
              length-payload r c val,
            )),
      )
      (decode_body-frame p r c val rest l f)

get_u32-append :
    (front more : Bytes) {n : ℕ} {rest : Bytes}
    → get_u32 front ≡ ok (n, rest)
    → get_u32 (front ++ more) ≡ ok (n, rest ++ more)
get_u32-append (a ∷ b ∷ c ∷ d ∷ front) more e = ground arith
get_u32-append [] more e = cc
get_u32-append (a ∷ []) more e = cc
get_u32-append (a ∷ b ∷ []) more e = cc
get_u32-append (a ∷ b ∷ c ∷ []) more e = cc

-- A torn frame: cut short anywhere, a frame that fits its length field decodes to `truncated`,
-- which asks for at least one byte and for no more than are missing.
pub decode_truncated :
    (p : Platform) (r : Record) (c : Compression) (val front more : Bytes)
    → Fits r val
    → frame p r c val ≡ front ++ more
    → 0 < length more
    → (k : ℕ) × (decode p front ≡ err (truncated k)) × (0 < k) × (k ≤ length more)
unfolding decode
decode_truncated p r c val front more f e h = elim (Bool-cases (ltb (length front) 4)) [
  | inl s ↦ (
    4 - length front,
    rw s,
    omega (arith, ltb→lt _ _ s),
    omega (arith, ltb→lt _ _ s, whole, frame_min p r c val),
  )
  | inr s ↦
      let (n, rest, e1, l1) = get_u32_step front (ltb→le _ 4 s) in
      let same : n ≡ total_len r val = ground (arith, get_u32-append front more e1, first) in
      (
        n - length rest,
        rw (
          s,
          e1,
          le→ltb n min_total_len
              (omega (arith, whole, length-frame p r c val, frame_min p r c val)),
          lt→ltb (length rest) n (omega (arith, whole, length-frame p r c val)),
        ),
        omega (arith, whole, length-frame p r c val),
        omega (arith, whole, length-frame p r c val),
      )
]
  where
    whole : length (frame p r c val) ≡ length front + length more
    whole = rw e (length-append front more)

    first :
        get_u32 (front ++ more)
        ≡ ok (total_len r val, be32 (p.crc32 (payload r c val)) ++ payload r c val)
    first = rw (← e) (unfold frame in get_u32-be32 (total_len r val) _ f.room)

-- `encode_with` appends one frame and `decode` gives the record back from it, leaving what
-- follows. The platform is lawful, the codec is in the build and gives `v` for the value, the
-- value is within the decompression cap, and the frame fits its length field and the timestamp 64
-- bits.
pub decode-encode_with :
    (p : Platform) (r : Record) (c : Compression) (v out rest : Bytes)
    → IsLawful p
    → is_available p c ≡ true
    → length r.value ≤ decompress_max_size
    → compress p c r.value ≡ ok v
    → Fits r v
    → (encode_with p r out c ≡ ok (out ++ frame p r c v, length (frame p r c v)))
      × (decode p (frame p r c v ++ rest) ≡ ok (r, rest))
unfolding new
decode-encode_with p r c v out rest l a h e f =
    let (w, e', d) = decompress-compress p c r.value l a h in
    let same : w ≡ v = cc in
    let d' : decompress p c v ≡ ok r.value = rw (← same) d in
    (rw (encode_with-frame p r out c, e), rw (decode-frame p r c v rest l f, d'))
