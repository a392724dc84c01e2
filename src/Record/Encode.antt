-- ===== src/Record/Encode.antt =====
-- What the encoder of record.rs writes: a frame, appended to the buffer.
use kafko.Base.{
  ℕ, ◌+◌, ◌-◌, ◌≤◌, ◌≡◌, ap, ◌∙◌, Bytes, ◌∷◌, ◌++◌, Option, none, some, length, drop, be32, be64,
  arith, length-be32, length-be64, length-append, take-append, drop-append, append_assoc, drop-add,
}
use mathlib.Core.Path.{fun_ext}
use kafko.Error.{Compression, uncompressed, lz4, zstd, ok, ◌>>=◌}
use kafko.Compression.{Platform, flag, compress}
use kafko.Record.{
  Record, key_part, wire_size, put_key, unwrap_or, encode_inner, encode, encode_with, patch,
}

-- The payload of a record whose value was stored as `val`, and the whole frame.
unfoldable pub payload : Record → Compression → Bytes → Bytes
payload r c val = flag c ∷ (be64 r.timestamp_ms ++ (put_key r.key ++ (be32 (length val) ++ val)))

abbrev pub total_len : Record → Bytes → ℕ
total_len r val = 4 + (1 + 8 + key_part r.key + (4 + length val))

unfoldable pub frame : Platform → Record → Compression → Bytes → Bytes
frame p r c val = be32 (total_len r val) ++ (be32 (p.crc32 (payload r c val)) ++ payload r c val)

length-put_key : (k : Option Bytes) → length (put_key k) ≡ key_part k
length-put_key none = length-be32 _
length-put_key (some k) = rw (length-append, length-be32)

pub length-payload :
    (r : Record) (c : Compression) (val : Bytes) → length (payload r c val) + 4 ≡ total_len r val
unfolding payload
length-payload r c val =
    rw (length-append, length-append, length-append, length-be64, length-be32, length-put_key)
      (omega arith)

pub length-frame :
    (p : Platform) (r : Record) (c : Compression) (val : Bytes)
    → length (frame p r c val) ≡ 4 + total_len r val
unfolding frame
length-frame p r c val =
    rw (length-append, length-append, length-be32, length-be32)
      (omega (arith, length-payload r c val))

key_part_min : (k : Option Bytes) → 4 ≤ key_part k
key_part_min none = omega arith
key_part_min (some k) = omega arith

pub frame_min :
    (p : Platform) (r : Record) (c : Compression) (val : Bytes) → 25 ≤ length (frame p r c val)
frame_min p r c val = omega (arith, length-frame p r c val, key_part_min r.key)

-- Patching the checksum in gives the frame, behind what the buffer held.
patch_frame :
    (out head old new body : Bytes)
    → length old ≡ 4
    → length new ≡ 4
    → patch (length (out ++ head)) new (((out ++ head) ++ old) ++ body)
      ≡ out ++ (head ++ (new ++ body))
patch_frame out head old new body ho hn = rw (
  append_assoc (out ++ head) old body,
  take-append (out ++ head) (old ++ body),
  hn,
  ← ho,
  ← drop-add (length (out ++ head)) (length old) ((out ++ head) ++ (old ++ body)),
  drop-append (out ++ head) (old ++ body),
  drop-append old body,
  append_assoc out head (new ++ body),
)

patch_crc :
    (p : Platform) (out head body : Bytes)
    → length head ≡ 4
    → patch
        (length (out ++ head))
        (be32
          (p.crc32 (drop (length ((out ++ head) ++ be32 0)) (((out ++ head) ++ be32 0) ++ body))))
        (((out ++ head) ++ be32 0) ++ body)
      ≡ out ++ (head ++ (be32 (p.crc32 body) ++ body))
patch_crc p out head body h =
    rw (drop-append ((out ++ head) ++ be32 0) body)
      (patch_frame out head (be32 0) (be32 (p.crc32 body)) body (length-be32 0) (length-be32 _))

pub encode_inner-frame :
    (p : Platform) (r : Record) (out : Bytes) (c : Compression) (o : Option Bytes)
    → encode_inner p r out c o
      ≡ (out ++ frame p r c (unwrap_or o r.value), length (frame p r c (unwrap_or o r.value)))
unfolding encode_inner payload frame
encode_inner-frame p r out c o =
    let val : Bytes = unwrap_or o r.value in
    ap (λ (b : Bytes). (b, length b - length out))
      (patch_crc p out (be32 (total_len r val)) (payload r c val) (length-be32 _))
    ∙ ap (λ (n : ℕ). (out ++ frame p r c val, n))
        (omega (arith, length-append out (frame p r c val)))

-- `encode` appends the uncompressed frame to the buffer and returns the number that `wire_size`
-- announces.
pub encode-wire_size :
    (p : Platform) (r : Record) (out : Bytes)
    → (encode p r out ≡ (out ++ frame p r uncompressed r.value, wire_size r))
unfolding encode wire_size
encode-wire_size p r out =
    encode_inner-frame p r out uncompressed none
    ∙ ap (λ (n : ℕ). (out ++ frame p r uncompressed r.value, n))
        (omega (arith, length-frame p r uncompressed r.value))

-- `encode_with` appends the frame around what the codec made of the value, or fails as the codec
-- does.
pub encode_with-frame :
    (p : Platform) (r : Record) (out : Bytes) (c : Compression)
    → encode_with p r out c
      ≡ (compress p c r.value >>= λ v. ok (out ++ frame p r c v, length (frame p r c v)))
unfolding encode_with
encode_with-frame p r out uncompressed =
    unfold compress in ap ok (encode_inner-frame p r out uncompressed none)
encode_with-frame p r out lz4 =
    ap (λ k. compress p lz4 r.value >>= k)
      (fun_ext (λ v. ap ok (encode_inner-frame p r out lz4 (some v))))
encode_with-frame p r out zstd =
    ap (λ k. compress p zstd r.value >>= k)
      (fun_ext (λ v. ap ok (encode_inner-frame p r out zstd (some v))))
