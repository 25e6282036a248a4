-- ===== src/Bits.antt =====
-- Binary digits of C's unsigned words: `&`, `|` and `^` are read digit by digit, and two numbers
-- with the same digits are equal. `>> k` is `/ 2 ^ k`, a mask of low digits is `% 2 ^ k`.
mod Step
use Prim.Native.Nat.{max}
use native.Mathlib.Nat.{pow-suc, add-zero}
use edge_pdl.Prelude.{ℕ, zero, suc, ◌+◌, ◌-◌, ◌*◌, ◌/◌, ◌%◌, ◌^◌, ◌≤◌, ◌<◌, min, bit_and, bit_or}
use edge_pdl.Prelude.{
  bit_xor, ◌≡◌, ap, ap₂, refl, sym, ◌∙◌, arith, dec_lt, ℕ_discrete, Bool, true, ◌&&◌,
}
use Step.{bit_and_step, bit_or_step, bit_xor_step}

-- The digit at place k.
abbrev pub bit : ℕ → ℕ → ℕ
bit zero a = a % 2
bit (suc k) a = bit k (a / 2)

pub bit-lt : (k a : ℕ) → bit k a < 2
bit-lt zero a = omega arith
bit-lt (suc k) a = bit-lt k (a / 2)

pub bit-zero : (k : ℕ) → bit k 0 ≡ 0
bit-zero zero = refl
bit-zero (suc k) = bit-zero k

pub bit-bit_and : (k a b : ℕ) → bit k (bit_and a b) ≡ min (bit k a) (bit k b)
bit-bit_and zero a b = omega (arith, bit_and_step a b)
bit-bit_and (suc k) a b =
    ap (bit k) (omega (arith, bit_and_step a b)) ∙ bit-bit_and k (a / 2) (b / 2)

pub bit-bit_or : (k a b : ℕ) → bit k (bit_or a b) ≡ max (bit k a) (bit k b)
bit-bit_or zero a b = omega (arith, bit_or_step a b)
bit-bit_or (suc k) a b = ap (bit k) (omega (arith, bit_or_step a b)) ∙ bit-bit_or k (a / 2) (b / 2)

pub bit-bit_xor : (k a b : ℕ) → bit k (bit_xor a b) ≡ (bit k a + bit k b) % 2
bit-bit_xor zero a b = omega (arith, bit_xor_step a b)
bit-bit_xor (suc k) a b =
    ap (bit k) (omega (arith, bit_xor_step a b)) ∙ bit-bit_xor k (a / 2) (b / 2)

-- Numbers with the same digits are equal.
pub eq_of_bits : (a b : ℕ) → ((k : ℕ) → bit k a ≡ bit k b) → a ≡ b
eq_of_bits a b h = within (a + b) a b h (omega arith)
  where
    within : (n a b : ℕ) → ((k : ℕ) → bit k a ≡ bit k b) → a + b ≤ n → a ≡ b
    within zero a b h p = omega arith
    within (suc n) a b h p = elim (dec_lt 0 (a + b)) [
      | yes some_digit ↦ omega (arith, h 0, within n (a / 2) (b / 2) (λ k. h (suc k)) (omega arith))
      | no none_left ↦ omega arith
    ]

pub bit_xor_assoc : (a b c : ℕ) → bit_xor (bit_xor a b) c ≡ bit_xor a (bit_xor b c)
bit_xor_assoc a b c = eq_of_bits _ _ (λ k. omega (
  arith,
  bit-bit_xor k (bit_xor a b) c,
  bit-bit_xor k a b,
  bit-bit_xor k a (bit_xor b c),
  bit-bit_xor k b c,
))

pub bit_xor_comm : (a b : ℕ) → bit_xor a b ≡ bit_xor b a
bit_xor_comm a b = eq_of_bits _ _ (λ k. omega (arith, bit-bit_xor k a b, bit-bit_xor k b a))

pub bit_xor_self : (a : ℕ) → bit_xor a a ≡ 0
bit_xor_self a = eq_of_bits _ _ (λ k. omega (arith, bit-bit_xor k a a, bit-zero k))

pub bit_xor-zero : (a : ℕ) → bit_xor a 0 ≡ a
bit_xor-zero a = eq_of_bits _ _ (λ k. omega (arith, bit-bit_xor k a 0, bit-zero k, bit-lt k a))

-- Exclusive or with one number is its own inverse.
pub bit_xor_cancel : (a b : ℕ) → bit_xor (bit_xor a b) b ≡ a
bit_xor_cancel a b = simp (bit_xor_assoc, bit_xor_self, bit_xor-zero)

pub bit_xor_cancel_right : (a b c : ℕ) → bit_xor a c ≡ bit_xor b c → a ≡ b
bit_xor_cancel_right a b c e =
    sym (bit_xor_cancel a c) ∙ ap (λ t. bit_xor t c) e ∙ bit_xor_cancel b c

pub bit_xor_cancel_left : (c a b : ℕ) → bit_xor c a ≡ bit_xor c b → a ≡ b
bit_xor_cancel_left c a b e = bit_xor_cancel_right a b c (bit_xor_comm a c ∙ e ∙ bit_xor_comm c b)

pub bit_xor-half : (a b : ℕ) → bit_xor a b / 2 ≡ bit_xor (a / 2) (b / 2)
bit_xor-half a b = omega (arith, bit_xor_step a b)

pub bit_xor-parity : (a b : ℕ) → bit_xor a b % 2 ≡ (a % 2 + b % 2) % 2
bit_xor-parity a b = omega (arith, bit_xor_step a b)

pub bit_xor-lt : (w a b : ℕ) → a < 2 ^ w → b < 2 ^ w → bit_xor a b < 2 ^ w
bit_xor-lt zero a b p q =
    let a_zero : a ≡ 0 = omega arith in
    let b_zero : b ≡ 0 = omega arith in rw (a_zero, b_zero) (omega arith)
bit_xor-lt (suc w) a b p q = omega (
  arith,
  pow-suc 2 w,
  bit_xor_step a b,
  bit_xor-lt w (a / 2) (b / 2) (omega (arith, pow-suc 2 w)) (omega (arith, pow-suc 2 w)),
)

bit_or-zero : (a : ℕ) → bit_or a 0 ≡ a
bit_or-zero a = eq_of_bits _ _ (λ k. omega (arith, bit-bit_or k a 0, bit-zero k))

pub bit_or-lt : (w a b : ℕ) → a < 2 ^ w → b < 2 ^ w → bit_or a b < 2 ^ w
bit_or-lt zero a b p q =
    let a_zero : a ≡ 0 = omega arith in
    let b_zero : b ≡ 0 = omega arith in rw (a_zero, b_zero) (omega arith)
bit_or-lt (suc w) a b p q = omega (
  arith,
  pow-suc 2 w,
  bit_or_step a b,
  bit_or-lt w (a / 2) (b / 2) (omega (arith, pow-suc 2 w)) (omega (arith, pow-suc 2 w)),
)

bit_and-zero : (a : ℕ) → bit_and a 0 ≡ 0
bit_and-zero a = eq_of_bits _ _ (λ k. omega (arith, bit-bit_and k a 0, bit-zero k))

zero-bit_and : (b : ℕ) → bit_and 0 b ≡ 0
zero-bit_and b = eq_of_bits _ _ (λ k. omega (arith, bit-bit_and k 0 b, bit-zero k))

pub bit_and-lt : (w a b : ℕ) → a < 2 ^ w → bit_and a b < 2 ^ w
bit_and-lt zero a b p =
    let a_zero : a ≡ 0 = omega arith in rw a_zero (omega (arith, zero-bit_and b))
bit_and-lt (suc w) a b p = omega (
  arith,
  pow-suc 2 w,
  bit_and_step a b,
  bit_and-lt w (a / 2) (b / 2) (omega (arith, pow-suc 2 w)),
)

-- A product by a power of two is even, and half of it is the product by the power below.
pub double-pow : (w h : ℕ) → h * 2 ^ suc w ≡ 2 * (h * 2 ^ w)
double-pow w h = omega (arith, ap (λ (t : ℕ). h * t) (pow-suc 2 w))

-- `(h << w) | l` is a sum where `l` fits in the low `w` digits.
pub bit_or_fields : (w h l : ℕ) → l < 2 ^ w → bit_or (h * 2 ^ w) l ≡ h * 2 ^ w + l
bit_or_fields zero h l p =
    let l_zero : l ≡ 0 = omega arith in rw (l_zero, bit_or-zero) (omega arith)
bit_or_fields (suc w) h l p =
    rw (double-pow w h, bit_or_step)
      (omega (
        arith,
        ap (λ t. bit_or t (l / 2)) (halves (h * 2 ^ w)),
        bit_or_fields w h (l / 2) (omega (arith, pow-suc 2 w)),
      ))
  where
    halves : (t : ℕ) → 2 * t / 2 ≡ t
    halves t = omega arith

-- `~m` on 32 bits: the digits of a word that are not in `m`.
pub bit-complement : (k w m : ℕ) → k < w → m < 2 ^ w → bit k (2 ^ w - 1 - m) + bit k m ≡ 1
bit-complement zero zero m p q = absurd (omega arith)
bit-complement zero (suc w) m p q = omega (arith, pow-suc 2 w)
bit-complement (suc k) zero m p q = absurd (omega arith)
bit-complement (suc k) (suc w) m p q =
    let half : (2 ^ suc w - 1 - m) / 2 ≡ 2 ^ w - 1 - m / 2 = omega (arith, pow-suc 2 w) in
    omega (
      arith,
      ap (bit k) half,
      bit-complement k w (m / 2) (omega arith) (omega (arith, pow-suc 2 w)),
    )

-- `^` of words that agree in no place above `w` but those of `h`.
pub bit_xor_fields :
    (w h l d : ℕ) → l < 2 ^ w → d < 2 ^ w → bit_xor (h * 2 ^ w + l) d ≡ h * 2 ^ w + bit_xor l d
bit_xor_fields zero h l d p q =
    let l_zero : l ≡ 0 = omega arith in
    let d_zero : d ≡ 0 = omega arith in
    omega (
      arith,
      ap₂ bit_xor (ap (λ t. h * 1 + t) l_zero) d_zero,
      ap₂ bit_xor l_zero d_zero,
      bit_xor-zero (h * 1 + 0),
    )
bit_xor_fields (suc w) h l d p q = omega (
  arith,
  double-pow w h,
  bit_xor_step (h * 2 ^ suc w + l) d,
  bit_xor_step l d,
  ap (λ t. bit_xor t (d / 2)) upper,
  bit_xor_fields w h (l / 2) (d / 2) (omega (arith, pow-suc 2 w)) (omega (arith, pow-suc 2 w)),
)
  where
    upper : (h * 2 ^ suc w + l) / 2 ≡ h * 2 ^ w + l / 2
    upper = omega (arith, double-pow w h)

-- `^` of a word that has only high digits with one that has only low digits is a sum.
pub bit_xor_disjoint : (w h d : ℕ) → d < 2 ^ w → bit_xor (h * 2 ^ w) d ≡ h * 2 ^ w + d
bit_xor_disjoint w h d p = omega (
  arith,
  ap (λ t. bit_xor t d) (add-zero (h * 2 ^ w)),
  bit_xor_fields w h 0 d (omega arith) p,
  bit_xor_comm 0 d,
  bit_xor-zero d,
)

-- A test of every number below a bound, by evaluation; and what a passed test says of each number.
unfoldable pub passes_to : (ℕ → Bool) → ℕ → Bool
passes_to test zero = true
passes_to test (suc bound) = passes_to test bound && test bound

pub passes_to_lem :
    (test : ℕ → Bool) (bound i : ℕ) → i < bound → passes_to test bound ≡ true → test i ≡ true
unfolding passes_to
passes_to_lem test zero i below passed = elim below [ ]
passes_to_lem test (suc bound) i below passed = elim (ℕ_discrete i bound) [
  | yes top ↦ rw top (ground arith)
  | no lower ↦ passes_to_lem test bound i (omega arith) (ground arith)
]

-- `& 0x1f` and `& 0x07` keep the low digits.
pub bit_and_five : (a : ℕ) → bit_and a 0x1f ≡ a % 32
bit_and_five a = omega (
  arith,
  bit_and_step a 31,
  bit_and_step (a / 2) 15,
  bit_and_step (a / 2 / 2) 7,
  bit_and_step (a / 2 / 2 / 2) 3,
  bit_and_step (a / 2 / 2 / 2 / 2) 1,
  bit_and-zero (a / 2 / 2 / 2 / 2 / 2),
)

-- Both numbers even.
bit_and-double : (a b : ℕ) → bit_and (2 * a) (2 * b) ≡ 2 * bit_and a b
bit_and-double a b = omega (arith, bit_and_step (2 * a) (2 * b), ap₂ bit_and (half a) (half b))
  where
    half : (t : ℕ) → 2 * t / 2 ≡ t
    half t = omega arith

pub bit_and_three : (a : ℕ) → bit_and a 7 ≡ a % 8
bit_and_three a = omega (
  arith,
  bit_and_step a 7,
  bit_and_step (a / 2) 3,
  bit_and_step (a / 2 / 2) 1,
  bit_and-zero (a / 2 / 2 / 2),
)

-- `(a << 5) & 0xe0` is the low three digits of `a`, moved.
pub bit_and_top_three : (a : ℕ) → bit_and (a * 32) 0xe0 ≡ a % 8 * 32
bit_and_top_three a = omega (
  arith,
  ap (λ t. bit_and t 0xe0) (as_doubles a),
  bit_and-double (2 * (2 * (2 * (2 * a)))) 112,
  bit_and-double (2 * (2 * (2 * a))) 56,
  bit_and-double (2 * (2 * a)) 28,
  bit_and-double (2 * a) 14,
  bit_and-double a 7,
  bit_and_three a,
)
  where
    as_doubles : (t : ℕ) → t * 32 ≡ 2 * (2 * (2 * (2 * (2 * t))))
    as_doubles t = omega arith

-- `& 0xe0` keeps the high three digits of a byte.
pub bit_and_high : (a : ℕ) → bit_and a 0xe0 ≡ a / 32 % 8 * 32
bit_and_high a = omega (
  arith,
  bit_and_step a 224,
  bit_and_step (a / 2) 112,
  bit_and_step (a / 2 / 2) 56,
  bit_and_step (a / 2 / 2 / 2) 28,
  bit_and_step (a / 2 / 2 / 2 / 2) 14,
  ap (λ t. bit_and t 7) by_halves,
  bit_and_three (a / 32),
)
  where
    by_halves : a / 2 / 2 / 2 / 2 / 2 ≡ a / 32
    by_halves = omega arith

pub bit_and_comm : (a b : ℕ) → bit_and a b ≡ bit_and b a
bit_and_comm a b = eq_of_bits _ _ (λ k. omega (arith, bit-bit_and k a b, bit-bit_and k b a))
