-- ===== src/Word/Shift.antt =====
-- Digits under shifts and remainders, and single-digit masks.
use native.Mathlib.Nat.{
  mod-eq-sub-mul-div, mul-div-le, pow-suc, pow-succ', div-div-eq-div-mul, one-le-pow, div-one,
  zero-add, suc-add, mul-div_cancel,
}
use nano1g_unicorn_c.Base.{
  ℕ, zero, suc, ◌+◌, ◌*◌, ◌/◌, ◌%◌, ◌^◌, ◌<◌, bit_and, ◌≡◌, refl, sym, ◌∙◌, ap, ap₂, arith,
}
use nano1g_unicorn_c.Word.Bit.{bit, bit-zero, bit-and, bit_and_step, ones, eq_of_bits}

pub suc-ones : (w : ℕ) → suc (ones w) ≡ 2 ^ w
unfolding ones
suc-ones zero = refl
suc-ones (suc w) = omega (arith, suc-ones w, pow-suc 2 w)

div-two-pow : (x n : ℕ) → x / 2 ^ suc n ≡ x / 2 / 2 ^ n
div-two-pow x n = ap (λ (t : ℕ). x / t) (pow-succ' 2 n) ∙ sym (div-div-eq-div-mul x 2 (2 ^ n))

-- A shift right by n drops n digits.
pub bit-shr : (x n k : ℕ) → bit (x / 2 ^ n) k ≡ bit x (n + k)
unfolding bit
bit-shr x zero k = ap₂ bit (div-one x) (sym (zero-add k))
bit-shr x (suc n) k =
    ap (λ t. bit t k) (div-two-pow x n) ∙ bit-shr (x / 2) n k ∙ ap (bit x) (sym (suc-add n k))

-- A shift left by n puts n zeros below.
pub bit-shl_low : (x n k : ℕ) → k < n → bit (x * 2 ^ n) k ≡ 0
unfolding bit
bit-shl_low x zero k h = absurd (omega arith)
bit-shl_low x (suc n) zero h = omega (arith, ap (λ (t : ℕ). x * t) (pow-suc 2 n))
bit-shl_low x (suc n) (suc k) h =
    ap (λ t. bit t k) (omega (arith, ap (λ (t : ℕ). x * t) (pow-suc 2 n)))
    ∙ bit-shl_low x n k (omega arith)

pub bit-shl : (x n k : ℕ) → bit (x * 2 ^ n) (n + k) ≡ bit x k
bit-shl x n k =
    sym (bit-shr (x * 2 ^ n) n k)
    ∙ ap (λ t. bit t k) (mul-div_cancel x {n = 2 ^ n} (one-le-pow n 2 (omega arith)))

split-mod : (x w : ℕ) → x % 2 ^ suc w ≡ 2 * (x / 2 % 2 ^ w) + x % 2
split-mod x w =
    let halves = ap (λ (t : ℕ). 2 ^ w * t) (div-div-eq-div-mul x 2 (2 ^ w)) in
    rw (pow-succ' 2 w) (
      omega (
        arith,
        halves,
        mod-eq-sub-mul-div x (2 * 2 ^ w),
        mod-eq-sub-mul-div (x / 2) (2 ^ w),
        mul-div-le (x / 2) (2 ^ w),
      ))

mod-two-pow : (x w : ℕ) → x % 2 ^ suc w % 2 ≡ x % 2
mod-two-pow x w = omega (arith, split-mod x w)

half-mod : (x w : ℕ) → x % 2 ^ suc w / 2 ≡ x / 2 % 2 ^ w
half-mod x w = omega (arith, split-mod x w)

-- A remainder by 2 ^ w keeps w digits.
pub bit-mod : (x w k : ℕ) → k < w → bit (x % 2 ^ w) k ≡ bit x k
unfolding bit
bit-mod x zero k h = absurd (omega arith)
bit-mod x (suc w) zero h = mod-two-pow x w
bit-mod x (suc w) (suc k) h = ap (λ t. bit t k) (half-mod x w) ∙ bit-mod (x / 2) w k (omega arith)

half-pow : (k : ℕ) → 2 ^ suc k / 2 ≡ 2 ^ k
half-pow k = omega (arith, pow-suc 2 k)

bit_and-zero : (a : ℕ) → bit_and a 0 ≡ 0
bit_and-zero a = eq_of_bits (bit_and a 0) 0 (λ k. omega (arith, bit-and a 0 k, bit-zero k))

-- A mask of one digit.
pub bit_and-pow : (x k : ℕ) → bit_and x (2 ^ k) ≡ bit x k * 2 ^ k
unfolding bit
bit_and-pow x zero = omega (arith, bit_and_step x 1, bit_and-zero (x / 2))
bit_and-pow x (suc k) = ground (
  arith,
  bit_and_step x (2 ^ suc k),
  pow-suc 2 k,
  ap (λ (t : ℕ). bit (x / 2) k * t) (pow-suc 2 k),
  ap (bit_and (x / 2)) (half-pow k),
  bit_and-pow (x / 2) k,
)
