-- ===== src/Word/Bit.antt =====
-- The binary digits of a number, and what and, or, exclusive or and complement do to each of them.
use Prim.Native.Nat.{digits, differ, bit_and-bitwise, bit_or-bitwise, bit_xor-bitwise}
use nano1g_unicorn_c.Base.{
  ℕ, zero, suc, ◌+◌, ◌-◌, ◌*◌, ◌/◌, ◌%◌, ◌≤◌, ◌<◌, min, max, bit_and, bit_or, bit_xor, ◌≡◌, refl,
  ◌∙◌, sym, ap, arith,
}

-- Digit k of x, 0 or 1.
unfoldable pub bit : ℕ → ℕ → ℕ
bit x zero = x % 2
bit x (suc k) = bit (x / 2) k

-- 2 ^ w - 1.
unfoldable pub ones : ℕ → ℕ
ones zero = 0
ones (suc w) = 2 * ones w + 1

-- The native operations recurse on fuel; any that covers the first number gives the same result.
module _ (rest : ℕ → ℕ) (op : ℕ → ℕ → ℕ) where
  digits-none : (fuel y : ℕ) → digits rest op fuel zero y ≡ rest y
  digits-none zero y = refl
  digits-none (suc fuel) y = refl

  digits-enough :
      (x y fuel spare : ℕ)
      → x ≤ fuel
      → x ≤ spare
      → digits rest op fuel x y ≡ digits rest op spare x y
  digits-enough zero y fuel spare h k = digits-none fuel y ∙ sym (digits-none spare y)
  digits-enough (suc x) y zero spare h k = absurd (omega arith)
  digits-enough (suc x) y (suc fuel) zero h k = absurd (omega arith)
  digits-enough (suc x) y (suc fuel) (suc spare) h k =
      let high = digits-enough (suc x / 2) (y / 2) fuel spare (omega arith) (omega arith) in
      ap (λ t. t * 2 + op (suc x % 2) (y % 2)) high

abbrev zero_digit : ℕ → ℕ
zero_digit b = zero

abbrev same_digit : ℕ → ℕ
same_digit b = b

differ_parity : (x y : ℕ) → x < 2 → y < 2 → differ x y ≡ (x + y) % 2
differ_parity zero zero h k = refl
differ_parity zero (suc zero) h k = refl
differ_parity zero (suc (suc y)) h k = absurd (omega arith)
differ_parity (suc zero) zero h k = refl
differ_parity (suc zero) (suc zero) h k = refl
differ_parity (suc zero) (suc (suc y)) h k = absurd (omega arith)
differ_parity (suc (suc x)) y h k = absurd (omega arith)

pub bit_and_step : (x y : ℕ) → bit_and x y ≡ min (x % 2) (y % 2) + 2 * bit_and (x / 2) (y / 2)
bit_and_step zero b = omega (arith, bit_and-bitwise 0 b, bit_and-bitwise 0 (b / 2))
bit_and_step (suc a) b = omega (
  arith,
  bit_and-bitwise (suc a) b,
  bit_and-bitwise (suc a / 2) (b / 2),
  digits-enough zero_digit min (suc a / 2) (b / 2) a (suc a / 2) (omega arith) (omega arith),
)

pub bit_or_step : (x y : ℕ) → bit_or x y ≡ max (x % 2) (y % 2) + 2 * bit_or (x / 2) (y / 2)
bit_or_step zero b = omega (arith, bit_or-bitwise 0 b, bit_or-bitwise 0 (b / 2))
bit_or_step (suc a) b = omega (
  arith,
  bit_or-bitwise (suc a) b,
  bit_or-bitwise (suc a / 2) (b / 2),
  digits-enough same_digit max (suc a / 2) (b / 2) a (suc a / 2) (omega arith) (omega arith),
)

pub bit_xor_step : (a b : ℕ) → bit_xor a b ≡ bit_xor (a / 2) (b / 2) * 2 + (a + b) % 2
bit_xor_step zero b = omega (arith, bit_xor-bitwise 0 b, bit_xor-bitwise 0 (b / 2))
bit_xor_step (suc a) b = omega (
  arith,
  bit_xor-bitwise (suc a) b,
  bit_xor-bitwise (suc a / 2) (b / 2),
  differ_parity (suc a % 2) (b % 2) (omega arith) (omega arith),
  digits-enough same_digit differ (suc a / 2) (b / 2) a (suc a / 2) (omega arith) (omega arith),
)

pub bit-le-one : (x k : ℕ) → bit x k ≤ 1
unfolding bit
bit-le-one x zero = omega arith
bit-le-one x (suc k) = bit-le-one (x / 2) k

pub bit-and : (a b k : ℕ) → bit (bit_and a b) k ≡ min (bit a k) (bit b k)
unfolding bit
bit-and a b zero = omega (arith, bit_and_step a b)
bit-and a b (suc k) =
    ap (λ t. bit t k) (omega (arith, bit_and_step a b)) ∙ bit-and (a / 2) (b / 2) k

pub bit-or : (a b k : ℕ) → bit (bit_or a b) k ≡ max (bit a k) (bit b k)
unfolding bit
bit-or a b zero = omega (arith, bit_or_step a b)
bit-or a b (suc k) = ap (λ t. bit t k) (omega (arith, bit_or_step a b)) ∙ bit-or (a / 2) (b / 2) k

pub bit-xor : (a b k : ℕ) → bit (bit_xor a b) k ≡ (bit a k + bit b k) % 2
unfolding bit
bit-xor a b zero = omega (arith, bit_xor_step a b)
bit-xor a b (suc k) =
    ap (λ t. bit t k) (omega (arith, bit_xor_step a b)) ∙ bit-xor (a / 2) (b / 2) k

-- The complement within w digits.
pub bit-complement : (w x k : ℕ) → x ≤ ones w → k < w → bit (ones w - x) k ≡ 1 - bit x k
unfolding bit ones
bit-complement zero x k h lt = absurd (omega arith)
bit-complement (suc w) x zero h lt = omega arith
bit-complement (suc w) x (suc k) h lt =
    ap (λ t. bit t k) (omega arith) ∙ bit-complement w (x / 2) k (omega arith) (omega arith)

-- A number of w digits has none above them.
pub bit_above : (w x k : ℕ) → x ≤ ones w → w ≤ k → bit x k ≡ 0
unfolding bit ones
bit_above zero x zero h le = omega arith
bit_above zero x (suc k) h le = bit_above zero (x / 2) k (omega arith) (omega arith)
bit_above (suc w) x zero h le = absurd (omega arith)
bit_above (suc w) x (suc k) h le = bit_above w (x / 2) k (omega arith) (omega arith)

pub bit-zero : (k : ℕ) → bit 0 k ≡ 0
bit-zero k = bit_above 0 0 k (omega arith) (omega arith)

-- Digits determine the number.
eq_of_bits_fuel : (n a b : ℕ) → a ≤ n → b ≤ n → ((k : ℕ) → bit a k ≡ bit b k) → a ≡ b
unfolding bit
eq_of_bits_fuel zero a b p q h = omega arith
eq_of_bits_fuel (suc n) a b p q h =
    omega
      (arith, h 0, eq_of_bits_fuel n (a / 2) (b / 2) (omega arith) (omega arith) (λ k. h (suc k)))

pub eq_of_bits : (a b : ℕ) → ((k : ℕ) → bit a k ≡ bit b k) → a ≡ b
eq_of_bits a b h = eq_of_bits_fuel (a + b) a b (omega arith) (omega arith) h

pub bit_or-le-ones : (w a b : ℕ) → a ≤ ones w → b ≤ ones w → bit_or a b ≤ ones w
unfolding ones
bit_or-le-ones zero a b p q = omega (arith, or_of_zero (omega arith) (omega arith))
  where
    or_of_zero : a ≡ 0 → b ≡ 0 → bit_or a b ≡ 0
    or_of_zero e f = rw (e, f)
bit_or-le-ones (suc w) a b p q =
    omega (arith, bit_or_step a b, bit_or-le-ones w (a / 2) (b / 2) (omega arith) (omega arith))

pub bit_and-le-ones : (w a b : ℕ) → a ≤ ones w → bit_and a b ≤ ones w
unfolding ones
bit_and-le-ones zero a b p = omega (arith, bit_and-bitwise 0 b, and_left (omega arith))
  where
    and_left : a ≡ 0 → bit_and a b ≡ bit_and 0 b
    and_left e = rw e
bit_and-le-ones (suc w) a b p =
    omega (arith, bit_and_step a b, bit_and-le-ones w (a / 2) (b / 2) (omega arith))
