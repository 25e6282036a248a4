-- ===== src/Crc16/Poly.antt =====
-- The tables of crc16.c beside the shift register of the reflected polynomial 0xa001.
use edge_pdl.Prelude.{ℕ, zero, suc, ◌+◌, ◌*◌, ◌/◌, ◌%◌, ◌^◌, ◌<◌, bit_xor}
use edge_pdl.Prelude.{true, ◌&&◌, ◌==◌, leb, get_or, ◌≡◌, refl, sym, ap, ap₂, ◌∙◌, arith}
use edge_pdl.Prelude.{◌≡⟨◌⟩◌, ◌∎}
use edge_pdl.Bits.{bit_xor_assoc, bit_xor-half, bit_xor-parity, bit_xor-lt, bit_xor_fields}
use edge_pdl.Bits.{
  bit_xor_comm, bit_xor_disjoint, bit_or_fields, double-pow, passes_to, passes_to_lem,
}
use edge_pdl.Crc16.{CrcBytes, advance, join, split, calc_byte, lut_h, lut_l}

-- One shift of the register: the low digit goes out, and feeds the polynomial back.
pub shift : ℕ → ℕ
shift reg = bit_xor (reg / 2) (reg % 2 * 0xa001)

pub shifts : ℕ → ℕ → ℕ
shifts zero reg = reg
shifts (suc k) reg = shifts k (shift reg)

-- The two bytes of a 16-bit word, exchanged.
abbrev pub swap : ℕ → ℕ
swap x = x % 256 * 256 + x / 256

-- A bit above the low one just moves down.
shift-bit_xor : (a y : ℕ) → shift (bit_xor (2 * a) y) ≡ bit_xor a (shift y)
unfolding shift
shift-bit_xor a y =
    shift (bit_xor (2 * a) y)
    ≡⟨ ap₂ (λ half odd. bit_xor half (odd * 0xa001)) half odd ⟩
      bit_xor (bit_xor a (y / 2)) (y % 2 * 0xa001)
    ≡⟨ bit_xor_assoc a (y / 2) (y % 2 * 0xa001) ⟩ bit_xor a (shift y) ∎
  where
    half : bit_xor (2 * a) y / 2 ≡ bit_xor a (y / 2)
    half = bit_xor-half (2 * a) y ∙ ap (λ t. bit_xor t (y / 2)) (omega arith)

    odd : bit_xor (2 * a) y % 2 ≡ y % 2
    odd = omega (arith, bit_xor-parity (2 * a) y)

shifts-bit_xor : (k a y : ℕ) → shifts k (bit_xor (a * 2 ^ k) y) ≡ bit_xor a (shifts k y)
unfolding shifts
shifts-bit_xor zero a y = ap (λ t. bit_xor t y) (omega arith)
shifts-bit_xor (suc k) a y =
    shifts (suc k) (bit_xor (a * 2 ^ suc k) y)
    ≡⟨ ap (λ t. shifts k (shift (bit_xor t y))) (double-pow k a) ⟩
      shifts k (shift (bit_xor (2 * (a * 2 ^ k)) y))
    ≡⟨ ap (shifts k) (shift-bit_xor (a * 2 ^ k) y) ⟩ shifts k (bit_xor (a * 2 ^ k) (shift y))
    ≡⟨ shifts-bit_xor k a (shift y) ⟩ bit_xor a (shifts (suc k) y) ∎

-- Every entry of the two tables.
table_is_shifts :
    passes_to
      (λ i.
        (shifts 8 i == get_or lut_l i 0 * 256 + get_or lut_h i 0)
        && (leb (get_or lut_h i 0) 255 && leb (get_or lut_l i 0) 255))
      256
    ≡ true
unfolding passes_to shifts shift lut_h lut_l
table_is_shifts = refl

module _ (i : ℕ) (byte : i < 256) where
  table_entry :
      (shifts 8 i ≡ get_or lut_l i 0 * 256 + get_or lut_h i 0)
      × (get_or lut_h i 0 < 256)
      × (get_or lut_l i 0 < 256)
  table_entry = ground (arith, passes_to_lem _ 256 i byte table_is_shifts)

  pub lut_l-shifts : get_or lut_l i 0 ≡ shifts 8 i / 256
  lut_l-shifts = omega (arith, table_entry)

  pub lut_h-shifts : get_or lut_h i 0 ≡ shifts 8 i % 256
  lut_h-shifts = omega (arith, table_entry)

-- Both bytes are bytes.
abbrev pub IsBytes : CrcBytes → Type 0
IsBytes c = (c.high < 256) × (c.low < 256)

pub split-IsBytes : (crc : ℕ) → IsBytes (split crc)
unfolding split
split-IsBytes crc = omega arith

pub advance-IsBytes : (c : CrcBytes) (byte : ℕ) → IsBytes c → byte < 256 → IsBytes (advance c byte)
unfolding advance
advance-IsBytes c byte v p =
    let (_, h, l) = table_entry (bit_xor c.high byte) (bit_xor-lt 8 c.high byte v.0 p) in
    (bit_xor-lt 8 c.low (get_or lut_h (bit_xor c.high byte) 0) v.1 h, l)

pub join-eq : (c : CrcBytes) → IsBytes c → join c ≡ c.high * 256 + c.low
unfolding join
join-eq c v = omega (arith, bit_or_fields 8 c.high c.low v.1)

pub split-join : (c : CrcBytes) → IsBytes c → split (join c) ≡ c
unfolding split
split-join c v = ground (arith, join-eq c v)

pub join-split : (crc : ℕ) → crc < 2 ^ 16 → join (split crc) ≡ crc
unfolding split
join-split crc p = omega (arith, join-eq (split crc) (split-IsBytes crc))

-- The digits that an index does not reach are left to be added at the end.
shifts-word :
    (l h byte : ℕ)
    → h < 256
    → byte < 256
    → shifts 8 (bit_xor (l * 256 + h) byte) ≡ bit_xor l (shifts 8 (bit_xor h byte))
shifts-word l h byte p q =
    shifts 8 (bit_xor (l * 256 + h) byte)
    ≡⟨ ap (shifts 8)
        (bit_xor_fields 8 l h byte p q ∙ sym (bit_xor_disjoint 8 l _ (bit_xor-lt 8 h byte p q))) ⟩
      shifts 8 (bit_xor (l * 256) (bit_xor h byte))
    ≡⟨ shifts-bit_xor 8 l (bit_xor h byte) ⟩ bit_xor l (shifts 8 (bit_xor h byte)) ∎

-- `^` with a byte changes the low byte alone.
bit_xor-byte : (l s : ℕ) → l < 256 → bit_xor l s ≡ s / 256 * 256 + bit_xor l (s % 256)
bit_xor-byte l s p =
    bit_xor l s
    ≡⟨ bit_xor_comm l s ∙ ap (λ t. bit_xor t l) (omega arith) ⟩ bit_xor (s / 256 * 256 + s % 256) l
    ≡⟨ bit_xor_fields 8 (s / 256) (s % 256) l (omega arith) p ⟩ s / 256 * 256 + bit_xor (s % 256) l
    ≡⟨ ap (λ t. s / 256 * 256 + t) (bit_xor_comm (s % 256) l) ⟩
      s / 256 * 256 + bit_xor l (s % 256) ∎

-- One byte of data is eight shifts of the register, which the code holds with its bytes exchanged.
pub calc_byte-shifts :
    (crc byte : ℕ)
    → crc < 2 ^ 16
    → byte < 256
    → calc_byte crc byte ≡ swap (shifts 8 (bit_xor (swap crc) byte))
unfolding calc_byte split advance
calc_byte-shifts crc byte p q = omega (
  arith,
  join-eq (advance (split crc) byte) (advance-IsBytes (split crc) byte (split-IsBytes crc) q),
  ap (λ h. shifts 8 (bit_xor (low * 256 + h) byte)) high,
  shifts-word low (crc / 256 % 256) byte (omega arith) q,
  bit_xor-byte low (shifts 8 index) (omega arith),
  lut_l-shifts index index-lt,
  ap (bit_xor low) (lut_h-shifts index index-lt),
  bit_xor-lt 8 low (shifts 8 index % 256) (omega arith) (omega arith),
)
  where
    low : ℕ
    low = crc % 256

    high : crc / 256 ≡ crc / 256 % 256
    high = omega arith

    index : ℕ
    index = bit_xor (crc / 256 % 256) byte

    index-lt : index < 256
    index-lt = bit_xor-lt 8 (crc / 256 % 256) byte (omega arith) q
