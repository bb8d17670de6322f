-- ===== src/Prelude/Bits/Single.antt =====
-- `&` and `|` with a single bit.
use Prim.Native.Nat.{
  ℕ, zero, suc, ◌+◌, ◌*◌, ◌/◌, ◌%◌, ◌≤◌, max, bit_and, bit_or, digits, bit_or-bitwise,
}
use mathlib.Core.Path.{◌≡◌, refl, ap}
use native.Mathlib.Omega.{arith}
use libmobile_bgb.Prelude.Bits.{bit_and-split, bit_and-none}

-- What the native `|` stands for, with any fuel that covers the first argument.
abbrev joined_bits : ℕ → ℕ → ℕ → ℕ
joined_bits = digits (λ b. b) max

joined_bits_enough : (f g a b : ℕ) → a ≤ f → a ≤ g → joined_bits f a b ≡ joined_bits g a b
joined_bits_enough zero g (suc a) b p q = absurd (omega arith)
joined_bits_enough f zero (suc a) b p q = absurd (omega arith)
joined_bits_enough zero zero zero b p q = refl
joined_bits_enough zero (suc g) zero b p q = refl
joined_bits_enough (suc f) zero zero b p q = refl
joined_bits_enough (suc f) (suc g) zero b p q = refl
joined_bits_enough (suc f) (suc g) (suc a) b p q =
    omega (arith, joined_bits_enough f g (suc a / 2) (b / 2) (omega arith) (omega arith))

bit_or-split : (a b : ℕ) → bit_or a b ≡ max (a % 2) (b % 2) + 2 * bit_or (a / 2) (b / 2)
bit_or-split zero b = omega (arith, bit_or-bitwise 0 b, bit_or-bitwise 0 (b / 2))
bit_or-split (suc a) b =
    let half = suc a / 2 in
    let rest = joined_bits_enough a half half (b / 2) (omega arith) (omega arith) in
    omega (arith, bit_or-bitwise (suc a) b, bit_or-bitwise half (b / 2), rest)

bit_or-none : (f a : ℕ) → a ≤ f → bit_or a 0 ≡ a
bit_or-none f zero h = bit_or-bitwise 0 0
bit_or-none zero (suc a) h = absurd (omega arith)
bit_or-none (suc f) (suc a) h =
    omega (arith, bit_or-split (suc a) 0, bit_or-none f (suc a / 2) (omega arith))

-- The bit number `k`, and what stands from it on.
abbrev pub power : ℕ → ℕ
power zero = 1
power (suc k) = 2 * power k

abbrev pub from_bit : ℕ → ℕ → ℕ
from_bit zero a = a
from_bit (suc k) a = from_bit k (a / 2)

double_half : (m : ℕ) → (2 * m) / 2 ≡ m
double_half m = omega arith

pub bit_and-power : (k a : ℕ) → bit_and a (power k) ≡ from_bit k a % 2 * power k
bit_and-power zero a = omega (arith, bit_and-split a 1, bit_and-none (a / 2) (a / 2) (omega arith))
bit_and-power (suc k) a = grind (
  arith,
  bit_and-split a (2 * power k),
  ap (bit_and (a / 2)) (double_half (power k)),
  bit_and-power k (a / 2),
)

pub bit_or-power : (k a : ℕ) → from_bit k a % 2 ≡ 0 → bit_or a (power k) ≡ a + power k
bit_or-power zero a h = omega (arith, bit_or-split a 1, bit_or-none (a / 2) (a / 2) (omega arith))
bit_or-power (suc k) a h = omega (
  arith,
  bit_or-split a (2 * power k),
  ap (bit_or (a / 2)) (double_half (power k)),
  bit_or-power k (a / 2) h,
)
