-- ===== src/Crc16/Tests.antt =====
-- src/general/lib/crc/crc16.c at concrete blocks.
use edge_pdl.Prelude.{ℕ, bit_xor, some, none, foldl}
use edge_pdl.Prelude.{List, [], ◌∷◌, ◌++◌, ◌≡◌, ◌≢◌, refl, arith}
use edge_pdl.Crc16.{advance, block_loop, join, split, lut_h, lut_l, calc_byte, calc_block, get_seed}
use edge_pdl.Crc16.Poly.{swap, shifts, calc_byte-shifts}
use edge_pdl.Crc16.Detect.{calc_block-calc_byte, calc_block_residue, calc_block_detects}

-- "123456789"
abbrev digits : List ℕ
digits = 0x31 ∷ 0x32 ∷ 0x33 ∷ 0x34 ∷ 0x35 ∷ 0x36 ∷ 0x37 ∷ 0x38 ∷ 0x39 ∷ []

-- The check value of CRC-16/MODBUS is 0x4b37; the code holds it with its bytes exchanged.
check_value : calc_block digits 9 ≡ some 0x374b
unfolding calc_block block_loop advance join split lut_h lut_l
check_value = refl

reads_past_the_end : calc_block digits 10 ≡ none
unfolding calc_block block_loop advance join split lut_h lut_l
reads_past_the_end = refl

calc_byte-shifts_example : calc_byte 0x1234 0x56 ≡ swap (shifts 8 (bit_xor (swap 0x1234) 0x56))
calc_byte-shifts_example = calc_byte-shifts 0x1234 0x56 (omega arith) (omega arith)

calc_block-calc_byte_example : calc_block digits 9 ≡ some (foldl calc_byte get_seed digits)
calc_block-calc_byte_example = calc_block-calc_byte digits (omega arith)

calc_block_residue_example : calc_block (digits ++ 0x37 ∷ 0x4b ∷ []) 11 ≡ some 0
calc_block_residue_example = calc_block_residue digits (omega arith) check_value

calc_block_detects_example : calc_block (1 ∷ 2 ∷ 3 ∷ []) 3 ≢ calc_block (1 ∷ 7 ∷ 3 ∷ []) 3
calc_block_detects_example =
    calc_block_detects (1 ∷ []) (3 ∷ []) 2 7 (omega arith) (omega arith) (omega arith) (omega arith)
      (omega arith)
