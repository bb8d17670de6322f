-- ===== src/Prelude/Bits.antt =====
-- Masks as arithmetic: `&` with a run of low ones, and byte-wide `|`.
pub mod Single
use Prim.Native.Nat.{
  ℕ, zero, suc, ◌+◌, ◌*◌, ◌/◌, ◌%◌, ◌^◌, ◌≤◌, ◌<◌, min, bit_and, bit_or, digits, bit_and-bitwise,
}
use mathlib.Core.Path.{◌≡◌, refl, ap, ◌∙◌}
use mathlib.Core.Bool.{Bool, true, ◌&&◌}
use native.Mathlib.Nat.{pow-suc, one-le-pow, add-mul-mod_self_left, mod-eq_of_lt}
use native.Mathlib.Omega.{arith}
use libmobile_bgb.Prelude.Tests.{◌==◌, ==_iff}

-- A test of every value below a bound, by evaluation.
every_below : (ℕ → Bool) → ℕ → Bool
every_below p zero = true
every_below p (suc n) = every_below p n && p n

every_below_at : (p : ℕ → Bool) (n x : ℕ) → every_below p n ≡ true → x < n → p x ≡ true
unfolding every_below
every_below_at p zero x h lt = absurd (omega arith)
every_below_at p (suc n) x h lt = ground (arith, every_below_at p n x)

-- `(hi << 4) | lo` of two hexadecimal digits.
nibbles_table :
    every_below (λ hi. every_below (λ lo. bit_or (hi * 16 % 256) lo == hi * 16 + lo) 16) 16 ≡ true
unfolding every_below
nibbles_table = refl

pub bit_or_nibbles : (hi lo : ℕ) → hi < 16 → lo < 16 → bit_or (hi * 16 % 256) lo ≡ hi * 16 + lo
bit_or_nibbles hi lo p q = (==_iff _ _).0 (
    every_below_at (λ l. bit_or (hi * 16 % 256) l == hi * 16 + l) 16 lo
      (every_below_at _ 16 hi nibbles_table p) q)

-- What the native `&` stands for: a recursion on the binary digits of its first argument.
abbrev shared_bits : ℕ → ℕ → ℕ → ℕ
shared_bits = digits (λ _. 0) min

-- Any fuel that covers the first argument gives the same result.
shared_bits_enough : (f g a b : ℕ) → a ≤ f → a ≤ g → shared_bits f a b ≡ shared_bits g a b
shared_bits_enough zero g (suc a) b p q = absurd (omega arith)
shared_bits_enough f zero (suc a) b p q = absurd (omega arith)
shared_bits_enough zero zero zero b p q = refl
shared_bits_enough zero (suc g) zero b p q = refl
shared_bits_enough (suc f) zero zero b p q = refl
shared_bits_enough (suc f) (suc g) zero b p q = refl
shared_bits_enough (suc f) (suc g) (suc a) b p q =
    let half = shared_bits_enough f g (suc a / 2) (b / 2) (omega arith) (omega arith) in
    omega (arith, half)

-- The lowest binary digit of `a & b`, and the rest.
bit_and-split : (a b : ℕ) → bit_and a b ≡ min (a % 2) (b % 2) + 2 * bit_and (a / 2) (b / 2)
bit_and-split zero b = omega (arith, bit_and-bitwise 0 b, bit_and-bitwise 0 (b / 2))
bit_and-split (suc a) b =
    let half = suc a / 2 in
    let rest = shared_bits_enough a half half (b / 2) (omega arith) (omega arith) in
    omega (arith, bit_and-bitwise (suc a) b, bit_and-bitwise half (b / 2), rest)

bit_and-none : (f a : ℕ) → a ≤ f → bit_and a 0 ≡ 0
bit_and-none f zero h = bit_and-bitwise 0 0
bit_and-none zero (suc a) h = absurd (omega arith)
bit_and-none (suc f) (suc a) h =
    omega (arith, bit_and-split (suc a) 0, bit_and-none f (suc a / 2) (omega arith))

bit_and-odd : (a m : ℕ) → bit_and a (1 + 2 * m) ≡ a % 2 + 2 * bit_and (a / 2) m
bit_and-odd a m =
    let half : (1 + 2 * m) / 2 ≡ m = omega arith in
    omega (arith, bit_and-split a (1 + 2 * m), ap (bit_and (a / 2)) half)

abbrev mask : ℕ → ℕ
mask zero = 0
mask (suc k) = 1 + 2 * mask k

mod_double : (p a : ℕ) → 0 < p → a % (p * 2) ≡ a % 2 + 2 * (a / 2 % p)
mod_double p a h =
    let low : ℕ = a % 2 + 2 * (a / 2 % p) in
    let split : a ≡ low + p * 2 * (a / 2 / p) = omega arith in
    let small : low < p * 2 = omega arith in
    ap (λ (t : ℕ). t % (p * 2)) split
    ∙ add-mul-mod_self_left low (p * 2) (a / 2 / p)
    ∙ mod-eq_of_lt small

-- A mask of k ones keeps a number modulo 2 ^ k.
pub bit_and-mask : (k a : ℕ) → bit_and a (mask k) ≡ a % 2 ^ k
bit_and-mask zero a = omega (arith, bit_and-none a a (omega arith))
bit_and-mask (suc k) a = omega (
  arith,
  bit_and-odd a (mask k),
  bit_and-mask k (a / 2),
  ap (λ (t : ℕ). a % t) (pow-suc 2 k),
  mod_double (2 ^ k) a (one-le-pow k 2 (omega arith)),
)

-- The mask of the 31-bit clock arithmetic, and that of a port.
pub bit_and_31 : (a : ℕ) → bit_and a 0x7FFFFFFF ≡ a % 2 ^ 31
bit_and_31 a = bit_and-mask 31 a

pub bit_and_16 : (a : ℕ) → bit_and a 0xFFFF ≡ a % 2 ^ 16
bit_and_16 a = bit_and-mask 16 a
