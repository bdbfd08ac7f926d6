-- ===== src/Floats.antt =====
-- Python's `float`, which no file of the repository implements: a fee rate or a percentage, as far
-- as the code computes with it. The code only ever rounds a product with an integer up.
use si_lnt.Prelude.{ℕ, ◌+◌, ◌*◌, ◌/◌, ◌≤◌, ◌≡◌, Bool, true, false, arith, ltb, ◌==◌}

-- A finite double that is not negative, `math.ceil(n * rate)` for an integer n, the truth value
-- of the double, and `rate < 1.0`. The laws are those of IEEE 754 rounding to nearest: a product
-- does not fall when the integer grows, by a factor
-- below one it grows by one at most, and by another it is not below the integer.
pub record Floats : Type 1 where
  pub Rate : Type 0
  pub ceil_mul : ℕ → Rate → ℕ
  pub is_zero : Rate → Bool
  pub lt_one : Rate → Bool
  pub ceil_mul_mono : (r : Rate) (m n : ℕ) → m ≤ n → ceil_mul m r ≤ ceil_mul n r
  pub ceil_mul_zero : (r : Rate) (n : ℕ) → is_zero r ≡ true → ceil_mul n r ≡ 0
  pub ceil_mul_step : (r : Rate) (n : ℕ) → lt_one r ≡ true → ceil_mul (n + 1) r ≤ ceil_mul n r + 1
  pub ceil_mul_ge : (r : Rate) (n : ℕ) → lt_one r ≡ false → n ≤ ceil_mul n r

-- Rates in thousandths, for concrete runs.
unfoldable pub milli_mul : ℕ → ℕ → ℕ
milli_mul n r = (n * r + 999) / 1000

pub milli_mul_mono : (r m n : ℕ) → m ≤ n → milli_mul m r ≤ milli_mul n r
unfolding milli_mul
milli_mul_mono r m n h = grind arith

pub milli_mul_zero : (r n : ℕ) → (r == 0) ≡ true → milli_mul n r ≡ 0
unfolding milli_mul
milli_mul_zero r n h = grind arith

pub milli_mul_step : (r n : ℕ) → ltb r 1000 ≡ true → milli_mul (n + 1) r ≤ milli_mul n r + 1
unfolding milli_mul
milli_mul_step r n h = grind arith

pub milli_mul_ge : (r n : ℕ) → ltb r 1000 ≡ false → n ≤ milli_mul n r
unfolding milli_mul
milli_mul_ge r n h = grind arith

abbrev pub milli : Floats
milli = record {
  Rate = ℕ;
  ceil_mul = milli_mul;
  is_zero = λ r. r == 0;
  lt_one = λ r. ltb r 1000;
  ceil_mul_mono = milli_mul_mono;
  ceil_mul_zero = milli_mul_zero;
  ceil_mul_step = milli_mul_step;
  ceil_mul_ge = milli_mul_ge;
}
