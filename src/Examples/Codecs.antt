-- ===== src/Examples/Codecs.antt =====
-- Runs of the theorems on compression.rs and record.rs.
use kafko.Base.{
  ℕ, ◌≤◌, ◌<◌, ◌≡◌, refl, Bytes, [], ◌∷◌, ◌++◌, length, arith, le32, be32, be64, take, drop,
}
use kafko.Error.{ok, err, lz4, uncompressed, truncated}
use kafko.Compression.{compress, decompress, is_available}
use kafko.Compression.RoundTrip.{decompress-compress}
use kafko.Record.{encode, wire_size, encode_with, decode}
use kafko.Record.Encode.{frame, payload, encode-wire_size}
use kafko.Record.Decode.{Decodes, decode-Decodes}
use kafko.Record.RoundTrip.{Fits, decode-encode_with, decode_truncated}
use kafko.Examples.{plain, plain-IsLawful, hello, world}

decompress-compress_example :
    (out : Bytes) × (compress plain lz4 (5 ∷ 6 ∷ []) ≡ ok out)
    × (decompress plain lz4 out ≡ ok (5 ∷ 6 ∷ []))
unfolding is_available
decompress-compress_example =
    decompress-compress plain lz4 (5 ∷ 6 ∷ []) plain-IsLawful refl (omega arith)

abbrev hello_value : Bytes
hello_value = 2 ∷ 0 ∷ 0 ∷ 0 ∷ 104 ∷ 105 ∷ []

hello-Fits : Fits hello hello_value
hello-Fits = record { stamp = omega arith; room = omega arith }

decode-encode_with_example :
    (encode_with plain hello [] lz4
      ≡ ok (frame plain hello lz4 hello_value, length (frame plain hello lz4 hello_value)))
    × (decode plain (frame plain hello lz4 hello_value ++ (1 ∷ 2 ∷ [])) ≡ ok (hello, 1 ∷ 2 ∷ []))
unfolding is_available compress le32
decode-encode_with_example =
    decode-encode_with plain hello lz4 hello_value [] (1 ∷ 2 ∷ []) plain-IsLawful refl (omega arith)
      refl hello-Fits

abbrev hello_frame : Bytes
hello_frame = frame plain hello uncompressed (104 ∷ 105 ∷ [])

decode_truncated_example :
    (k : ℕ) × (decode plain (take 20 hello_frame) ≡ err (truncated k))
    × (0 < k)
    × (k ≤ length (drop 20 hello_frame))
unfolding frame be32 payload be64
decode_truncated_example =
    decode_truncated plain hello uncompressed (104 ∷ 105 ∷ []) (take 20 hello_frame)
      (drop 20 hello_frame) (record { stamp = omega arith; room = omega arith }) refl (omega arith)

decode-Decodes_example : Decodes hello_frame (decode plain hello_frame)
decode-Decodes_example = decode-Decodes plain hello_frame

encode-wire_size_example :
    encode plain world (1 ∷ []) ≡ (1 ∷ frame plain world uncompressed (119 ∷ []), wire_size world)
encode-wire_size_example = encode-wire_size plain world (1 ∷ [])
