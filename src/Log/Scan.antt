-- ===== src/Log/Scan.antt =====
-- The loops of log.rs that decode or encode a run of records, without the state around them. Each
-- round of a decoding loop takes a byte at least, so the length of the slice is fuel enough.
use kafko.Base.{
  ℕ, zero, suc, ◌+◌, ◌-◌, Bytes, List, [], ◌∷◌, Option, none, some, length, ◌==◌, if◌then◌else◌,
}
use kafko.Error.{
  Compression, truncated, crc_mismatch, invalid_length, Result, ok, err, panicked, out_of_fuel,
  ◌>>=◌,
}
use kafko.Compression.{Platform}
use kafko.Record.{Record, encode_with, decode}

-- `append_batch`: the records encoded one behind the other, and their sizes.
unfoldable pub encode_all : Platform → Compression → Bytes → List Record → Result (Bytes × List ℕ)
encode_all p c out [] = ok (out, [])
encode_all p c out (r ∷ rs) = do
  (out1, n) ← encode_with p r out c
  (out2, ns) ← encode_all p c out1 rs
  ok (out2, n ∷ ns)

-- `offsets.push(current_offset); current_offset += 1` for each record.
unfoldable pub offsets_from : ℕ → List Record → List ℕ
offsets_from current [] = []
offsets_from current (r ∷ rs) = current ∷ offsets_from (current + 1) rs

abbrev pub found_at :
    ℕ → ℕ → Record × Bytes → (Bytes → Result (Option Record)) → Result (Option Record)
found_at current offset (r, rest) continue =
    if current == offset then ok (some r) else continue rest

-- What the loop of `read_record_at` does with one result of the decoder.
abbrev pub read_next :
    ℕ → ℕ → Result (Record × Bytes) → (Bytes → Result (Option Record)) → Result (Option Record)
read_next current offset (ok a) continue = found_at current offset a continue
read_next current offset (err (truncated n)) continue = ok none
read_next current offset (err e) continue = err e
read_next current offset panicked continue = panicked
read_next current offset out_of_fuel continue = out_of_fuel

-- `read_record_at`: decode forward from `slice`, whose first record has the offset `current`.
unfoldable pub read_loop : Platform → ℕ → Bytes → ℕ → ℕ → Result (Option Record)
read_loop p fuel [] current offset = ok none
read_loop p zero (b ∷ bs) current offset = out_of_fuel
read_loop p (suc fuel) (b ∷ bs) current offset =
    read_next current offset (decode p (b ∷ bs))
      (λ rest. read_loop p fuel rest (current + 1) offset)

-- What the loop of `scan_for_last_valid_position` does with one result of the decoder.
abbrev pub scan_next : ℕ → ℕ → Result (Record × Bytes) → (Bytes → ℕ → Result ℕ) → Result ℕ
scan_next n last_valid_pos (ok (r, rest)) continue =
    continue rest (last_valid_pos + (n - length rest))
scan_next n last_valid_pos (err (truncated k)) continue = ok last_valid_pos
scan_next n last_valid_pos (err (crc_mismatch a b)) continue = ok last_valid_pos
scan_next n last_valid_pos (err (invalid_length k)) continue = ok last_valid_pos
scan_next n last_valid_pos (err e) continue = err e
scan_next n last_valid_pos panicked continue = panicked
scan_next n last_valid_pos out_of_fuel continue = out_of_fuel

unfoldable pub scan_loop : Platform → ℕ → Bytes → ℕ → Result ℕ
scan_loop p fuel [] last_valid_pos = ok last_valid_pos
scan_loop p zero (b ∷ bs) last_valid_pos = out_of_fuel
scan_loop p (suc fuel) (b ∷ bs) last_valid_pos =
    scan_next (length (b ∷ bs)) last_valid_pos (decode p (b ∷ bs)) (scan_loop p fuel)
