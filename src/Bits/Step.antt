-- ===== src/Bits/Step.antt =====
-- The law of the lowest digit of `&`, `|` and `^`, from the recursion that the native operations
-- stand for.
use Prim.Native.Nat.{digits, bit_and-bitwise, bit_or-bitwise, bit_xor-bitwise, max, differ}
use edge_pdl.Prelude.{ℕ, zero, suc, ◌+◌, ◌*◌, ◌/◌, ◌%◌, ◌≤◌, ◌<◌, min, bit_and, bit_or, bit_xor}
use edge_pdl.Prelude.{◌≡◌, refl, sym, ap, ◌∙◌, ℕ_discrete, arith}

-- `z b` is the result when the first number has run out, `f` the operation on two digits.
module _ (z : ℕ → ℕ) (f : ℕ → ℕ → ℕ) (runs_out : (b : ℕ) → z b ≡ z (b / 2) * 2 + f 0 (b % 2)) where
  -- A round more than there are digits changes nothing.
  spare_round : (n a b : ℕ) → a ≤ n → digits z f (suc n) a b ≡ digits z f n a b
  spare_round zero zero b p = refl
  spare_round (suc n) zero b p = refl
  spare_round zero (suc a) b p = elim p [ ]
  spare_round (suc n) (suc a) b p = omega (arith, spare_round n (suc a / 2) (b / 2) (omega arith))

  spare_rounds : (n m a b : ℕ) → a ≤ m → m ≤ n → digits z f n a b ≡ digits z f m a b
  spare_rounds zero m a b p q =
      let none_over : 0 ≡ m = omega arith in ap (λ k. digits z f k a b) none_over
  spare_rounds (suc n) m a b p q = elim (ℕ_discrete m (suc n)) [
    | yes same ↦ ap (λ k. digits z f k a b) (sym same)
    | no less ↦ spare_round n a b (omega arith) ∙ spare_rounds n m a b p (omega arith)
  ]

  pub bitwise_step :
      (a b : ℕ) → digits z f a a b ≡ digits z f (a / 2) (a / 2) (b / 2) * 2 + f (a % 2) (b % 2)
  bitwise_step zero b = runs_out b
  bitwise_step (suc a) b =
      omega (arith, spare_rounds a (suc a / 2) (suc a / 2) (b / 2) (omega arith) (omega arith))

pub bit_and_step : (a b : ℕ) → bit_and a b ≡ bit_and (a / 2) (b / 2) * 2 + min (a % 2) (b % 2)
bit_and_step a b = omega (
  arith,
  bit_and-bitwise a b,
  bit_and-bitwise (a / 2) (b / 2),
  bitwise_step (λ _. 0) min (λ b. omega arith) a b,
)

pub bit_or_step : (a b : ℕ) → bit_or a b ≡ bit_or (a / 2) (b / 2) * 2 + max (a % 2) (b % 2)
bit_or_step a b = omega (
  arith,
  bit_or-bitwise a b,
  bit_or-bitwise (a / 2) (b / 2),
  bitwise_step (λ b. b) max (λ b. omega arith) a b,
)

-- Two digits that differ sum to an odd number.
differ_of_digits : (x y : ℕ) → x < 2 → y < 2 → differ x y ≡ (x + y) % 2
differ_of_digits zero y p q = omega arith
differ_of_digits (suc zero) zero p q = refl
differ_of_digits (suc zero) (suc zero) p q = refl
differ_of_digits (suc zero) (suc (suc y)) p q = absurd (omega arith)
differ_of_digits (suc (suc x)) y p q = absurd (omega arith)

pub bit_xor_step : (a b : ℕ) → bit_xor a b ≡ bit_xor (a / 2) (b / 2) * 2 + (a % 2 + b % 2) % 2
bit_xor_step a b = omega (
  arith,
  bit_xor-bitwise a b,
  bit_xor-bitwise (a / 2) (b / 2),
  bitwise_step (λ b. b) differ (λ b. omega arith) a b,
  differ_of_digits (a % 2) (b % 2) (omega arith) (omega arith),
)
