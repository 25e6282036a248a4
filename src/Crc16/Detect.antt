-- ===== src/Crc16/Detect.antt =====
-- The checksum of a block of bytes (crc16CalcBlock and crc16CalcByte of crc16.c).
use edge_pdl.Prelude.{ℕ, suc, ◌+◌, ◌*◌, ◌/◌, ◌%◌, ◌^◌, ◌<◌, bit_xor, some}
use edge_pdl.Prelude.{foldl, List, [], ◌∷◌, ◌++◌, length, length-append, AllBytes, true}
use edge_pdl.Prelude.{
  ◌==◌, if◌then◌else◌, get_or, ◌≡◌, refl, sym, ap, ◌∙◌, ◌≡⟨◌⟩◌, ◌∎, ◌≢◌, ap₂, arith,
}
use edge_pdl.Bits.{
  bit_xor_self, bit_xor-zero, bit_xor_cancel_left, bit_xor_cancel_right, bit_xor-lt, passes_to,
  passes_to_lem,
}
use edge_pdl.Crc16.{CrcBytes, advance, join, split, calc_byte, block_loop, calc_block, seed_def}
use edge_pdl.Crc16.{get_seed, lut_l, lut_h}
use edge_pdl.Crc16.Poly.{IsBytes, advance-IsBytes, split-IsBytes, split-join, join-eq, join-split}

-- Equal table entries have equal indices: the position of each entry is found again.
position : ℕ → List ℕ → ℕ
position y [] = 0
position y (x ∷ xs) = let later = suc (position y xs) in if x == y then 0 else later

positions_found : passes_to (λ i. position (get_or lut_l i 0) lut_l == i) 256 ≡ true
unfolding passes_to position lut_l
positions_found = refl

lut_l-injective : (i j : ℕ) → i < 256 → j < 256 → get_or lut_l i 0 ≡ get_or lut_l j 0 → i ≡ j
lut_l-injective i j p q e = ground (
  arith,
  passes_to_lem _ 256 i p positions_found,
  passes_to_lem _ 256 j q positions_found,
  ap (λ t. position t lut_l) e,
)

-- A step loses neither the byte nor the state before it.
module _ (c d : CrcBytes) (a b : ℕ) (vc : IsBytes c) (vd : IsBytes d) (p : a < 256)
    (q : b < 256) where
  same_index : advance c a ≡ advance d b → bit_xor c.high a ≡ bit_xor d.high b
  unfolding advance
  same_index e =
      lut_l-injective (bit_xor c.high a) (bit_xor d.high b) (bit_xor-lt 8 c.high a vc.0 p)
        (bit_xor-lt 8 d.high b vd.0 q) (ap CrcBytes.low e)

  same_low : advance c a ≡ advance d b → c.low ≡ d.low
  unfolding advance
  same_low e =
      bit_xor_cancel_right c.low d.low (get_or lut_h (bit_xor c.high a) 0)
        (ap CrcBytes.high e ∙ ap (λ i. bit_xor d.low (get_or lut_h i 0)) (sym (same_index e)))

advance-injective :
    (c d : CrcBytes) (byte : ℕ)
    → IsBytes c
    → IsBytes d
    → byte < 256
    → advance c byte ≡ advance d byte
    → c ≡ d
advance-injective c d byte vc vd p e = ground (
  arith,
  same_low c d byte byte vc vd p p e,
  bit_xor_cancel_right c.high d.high byte (same_index c d byte byte vc vd p p e),
)

advance-injective_byte :
    (c : CrcBytes) (a b : ℕ) → IsBytes c → a < 256 → b < 256 → advance c a ≡ advance c b → a ≡ b
advance-injective_byte c a b v p q e = bit_xor_cancel_left c.high a b (same_index c c a b v v p q e)

-- The loop over as many bytes as there are.
steps : CrcBytes → List ℕ → CrcBytes
steps c [] = c
steps c (b ∷ bs) = steps (advance c b) bs

block_loop-steps : (c : CrcBytes) (bs : List ℕ) → block_loop c bs (length bs) ≡ some (steps c bs)
unfolding block_loop steps
block_loop-steps c [] = refl
block_loop-steps c (b ∷ bs) = block_loop-steps (advance c b) bs

steps-append : (c : CrcBytes) (xs ys : List ℕ) → steps c (xs ++ ys) ≡ steps (steps c xs) ys
unfolding steps
steps-append c [] ys = refl
steps-append c (x ∷ xs) ys = steps-append (advance c x) xs ys

steps-IsBytes : (c : CrcBytes) (bs : List ℕ) → IsBytes c → AllBytes bs → IsBytes (steps c bs)
unfolding steps
steps-IsBytes c [] v h = v
steps-IsBytes c (b ∷ bs) v h = steps-IsBytes (advance c b) bs (advance-IsBytes c b v h.0) h.1

steps-injective :
    (c d : CrcBytes) (bs : List ℕ)
    → IsBytes c
    → IsBytes d
    → AllBytes bs
    → steps c bs ≡ steps d bs
    → c ≡ d
unfolding steps
steps-injective c d [] vc vd h e = e
steps-injective c d (b ∷ bs) vc vd h e = advance-injective c d b vc vd h.0 (
    steps-injective (advance c b) (advance d b) bs (advance-IsBytes c b vc h.0)
      (advance-IsBytes d b vd h.0) h.1 e)

steps-calc_byte :
    (crc : ℕ) (bs : List ℕ)
    → crc < 2 ^ 16
    → AllBytes bs
    → join (steps (split crc) bs) ≡ foldl calc_byte crc bs
unfolding steps calc_byte
steps-calc_byte crc [] p h = join-split crc p
steps-calc_byte crc (b ∷ bs) p h =
    let next = advance (split crc) b in
    let v : IsBytes next = advance-IsBytes (split crc) b (split-IsBytes crc) h.0 in
    ap (λ c. join (steps c bs)) (sym (split-join next v))
    ∙ steps-calc_byte (join next) bs (omega (arith, join-eq next v, v)) h.1

calc_block-steps :
    (bs : List ℕ) → calc_block bs (length bs) ≡ some (join (steps (split seed_def) bs))
unfolding calc_block
calc_block-steps bs = rw (block_loop-steps (split seed_def) bs, calc_block)

-- crc16CalcBlock over a block of bytes succeeds, and is crc16CalcByte over the bytes in turn, from
-- the seed that crc16GetSeed returns.
pub calc_block-calc_byte :
    (bs : List ℕ) → AllBytes bs → calc_block bs (length bs) ≡ some (foldl calc_byte get_seed bs)
unfolding get_seed
calc_block-calc_byte bs h =
    calc_block-steps bs ∙ ap some (steps-calc_byte seed_def bs (omega arith) h)

pub calc_byte-word : (bs : List ℕ) → AllBytes bs → foldl calc_byte get_seed bs < 2 ^ 16
unfolding get_seed
calc_byte-word bs h =
    let last = steps (split seed_def) bs in
    let v : IsBytes last = steps-IsBytes (split seed_def) bs (split-IsBytes seed_def) h in
    omega (arith, join-eq last v, v, steps-calc_byte seed_def bs (omega arith) h)

advance_self : (h l : ℕ) → advance (record { high = h; low = l }) h ≡ record { high = l; low = 0 }
unfolding advance lut_h lut_l
advance_self h l = rw (bit_xor_self h) (ground (arith, bit_xor-zero l))

steps_self : (c : CrcBytes) → steps c (c.high ∷ c.low ∷ []) ≡ record { high = 0; low = 0 }
unfolding steps
steps_self c = rw (advance_self c.high c.low) (advance_self c.low 0)

-- A block that is followed by its CRC, high byte first, has the CRC 0.
pub calc_block_residue :
    (bs : List ℕ) {crc : ℕ}
    → AllBytes bs
    → calc_block bs (length bs) ≡ some crc
    → calc_block (bs ++ (crc / 256) ∷ (crc % 256) ∷ []) (length bs + 2) ≡ some 0
calc_block_residue bs {crc} h e =
    calc_block (bs ++ tail) (length bs + 2)
    ≡⟨ ap (calc_block (bs ++ tail)) (sym (length-append bs tail)) ⟩
      calc_block (bs ++ tail) (length (bs ++ tail))
    ≡⟨ calc_block-steps (bs ++ tail) ⟩ some (join (steps seed (bs ++ tail)))
    ≡⟨ ap (λ c. some (join c)) ends ⟩ some (join (record { high = 0; low = 0 }))
    ≡⟨ ap some (join-eq (record { high = 0; low = 0 }) (omega arith)) ⟩ some 0 ∎
  where
    tail : List ℕ
    tail = (crc / 256) ∷ (crc % 256) ∷ []

    seed : CrcBytes
    seed = split seed_def

    last : CrcBytes
    last = steps seed bs

    last-IsBytes : IsBytes last
    last-IsBytes = steps-IsBytes seed bs (split-IsBytes seed_def) h

    crc-eq : crc ≡ last.high * 256 + last.low
    crc-eq = ground (arith, calc_block-steps bs, join-eq last last-IsBytes, e)

    tail-eq : tail ≡ last.high ∷ last.low ∷ []
    tail-eq =
        ap₂ (λ (x y : ℕ). x ∷ y ∷ []) (omega (arith, crc-eq, last-IsBytes))
          (omega (arith, crc-eq, last-IsBytes))

    ends : steps seed (bs ++ tail) ≡ record { high = 0; low = 0 }
    ends = steps-append seed bs tail ∙ ap (steps last) tail-eq ∙ steps_self last

-- Two blocks of bytes that differ in one byte have different CRCs, wherever the byte stands.
pub calc_block_detects :
    (before after : List ℕ) (a b : ℕ)
    → AllBytes before
    → AllBytes after
    → a < 256
    → b < 256
    → a ≢ b
    → let n = length before + suc (length after) in
      calc_block (before ++ a ∷ after) n ≢ calc_block (before ++ b ∷ after) n
unfolding steps
calc_block_detects before after a b hb ha p q ne e =
    ne (advance-injective_byte c a b vc p q same_step)
  where
    c : CrcBytes
    c = steps (split seed_def) before

    vc : IsBytes c
    vc = steps-IsBytes (split seed_def) before (split-IsBytes seed_def) hb

    after_byte : ℕ → CrcBytes
    after_byte x = steps (advance c x) after

    block :
        (x : ℕ)
        → calc_block (before ++ x ∷ after) (length before + suc (length after))
          ≡ some (join (after_byte x))
    block x =
        ap (calc_block (before ++ x ∷ after)) (sym (length-append before (x ∷ after)))
        ∙ calc_block-steps (before ++ x ∷ after)
        ∙ ap (λ d. some (join d)) (steps-append (split seed_def) before (x ∷ after))

    after_byte-IsBytes : (x : ℕ) → x < 256 → IsBytes (after_byte x)
    after_byte-IsBytes x r = steps-IsBytes (advance c x) after (advance-IsBytes c x vc r) ha

    same_crc : join (after_byte a) ≡ join (after_byte b)
    same_crc = cc (block a, e, block b)

    same_last : after_byte a ≡ after_byte b
    same_last =
        sym (split-join (after_byte a) (after_byte-IsBytes a p))
        ∙ ap split same_crc
        ∙ split-join (after_byte b) (after_byte-IsBytes b q)

    same_step : advance c a ≡ advance c b
    same_step =
        steps-injective (advance c a) (advance c b) after (advance-IsBytes c a vc p)
          (advance-IsBytes c b vc q) ha same_last

block_loop_prefix :
    (c : CrcBytes) (bs rest : List ℕ)
    → block_loop c (bs ++ rest) (length bs) ≡ block_loop c bs (length bs)
unfolding block_loop
block_loop_prefix c [] rest = refl
block_loop_prefix c (b ∷ bs) rest = block_loop_prefix (advance c b) bs rest

-- What stands behind the block is not read.
pub calc_block_prefix :
    (bs rest : List ℕ) → calc_block (bs ++ rest) (length bs) ≡ calc_block bs (length bs)
unfolding calc_block
calc_block_prefix bs rest = rw (block_loop_prefix (split seed_def) bs rest, calc_block) refl
