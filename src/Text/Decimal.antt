-- ===== src/Text/Decimal.antt =====
-- The length of a decimal number, and what strtol() reads of it.
use mathlib.Core.List.{append_assoc, append-nil}
use native.Mathlib.Nat.{pow-suc}
use libmobile_bgb.Prelude.{
  ℕ, zero, suc, ◌+◌, ◌*◌, ◌/◌, ◌%◌, ◌^◌, ◌≤◌, ◌<◌, ◌≡◌, refl, List, [], ◌∷◌, ◌++◌, arith, pos,
  length, length-append, Bool-cases, ltb, inl, inr,
}
use libmobile_bgb.Text.{decimal, decimal_from}
use libmobile_bgb.Text.Strtol.{
  strtol, signed, skip_spaces, in_base, magnitude, digits, digit, positive,
}

-- A number below 10 ^ k, for k not 0, has at most k digits.
length-decimal_from : (k rounds n : ℕ) → n < 10 ^ suc k → length (decimal_from rounds n) ≤ suc k
unfolding decimal_from
length-decimal_from k zero n h = omega arith
length-decimal_from zero (suc rounds) n h = ground arith
length-decimal_from (suc k) (suc rounds) n h =
    let fits : n / 10 < 10 ^ suc k = omega (arith, pow-suc 10 (suc k)) in
    ground (
      arith,
      length-decimal_from k rounds (n / 10) fits,
      length-append {0} {A = ℕ} (decimal_from rounds (n / 10)) ((b'0' + n % 10) ∷ []),
    )

pub length-decimal : (k n : ℕ) → n < 10 ^ suc k → length (decimal n) ≤ suc k
unfolding decimal
length-decimal k n h = length-decimal_from k (suc n) n h

-- Reading one more digit.
digits_next :
    (acc d : ℕ) (rest : List ℕ)
    → d < 10
    → digits 10 acc ((b'0' + d) ∷ rest) ≡ digits 10 (acc * 10 + d) rest
unfolding digits digit
digits_next acc d rest h = ground arith

digits-decimal_from :
    (rounds n : ℕ) (rest : List ℕ)
    → n < rounds
    → digits 10 0 (decimal_from rounds n ++ rest) ≡ digits 10 n rest
unfolding decimal_from
digits-decimal_from zero n rest h = absurd (omega arith)
digits-decimal_from (suc rounds) n rest h =
    let front = decimal_from rounds (n / 10) in
    let last = (b'0' + n % 10) ∷ [] in
    let whole : n / 10 * 10 + n % 10 ≡ n = omega arith in
    ground (
      arith,
      digits_next 0 n rest,
      append_assoc front last rest,
      digits-decimal_from rounds (n / 10) ((b'0' + n % 10) ∷ rest),
      digits_next (n / 10) (n % 10) rest (omega arith),
      whole,
    )

-- A number starts with a digit.
decimal_from-cons :
    (rounds n : ℕ)
    → n ≤ rounds
    → (d : ℕ) × (tail : List ℕ) × (d < 10) × (decimal_from (suc rounds) n ≡ (b'0' + d) ∷ tail)
unfolding decimal_from
decimal_from-cons zero n h = (n, [], omega arith, ground arith)
decimal_from-cons (suc rounds) n h = elim (Bool-cases (ltb n 10)) [
  | inl small ↦ (n, [], ground arith, rw small refl)
  | inr large ↦
      let (d, tail, fits, e) = decimal_from-cons rounds (n / 10) (ground arith) in
      (d, tail ++ ((b'0' + n % 10) ∷ []), fits, rw (large, e) refl)
]

-- A text that starts with a digit has no spaces to skip, and no sign.
strtol_digit :
    (d n : ℕ) (tail rest : List ℕ)
    → d < 10
    → digits 10 0 ((b'0' + d) ∷ tail) ≡ (n, rest)
    → n < 2 ^ 63
    → strtol 10 ((b'0' + d) ∷ tail) ≡ (pos n, rest)
unfolding strtol signed skip_spaces in_base magnitude digit positive
strtol_digit d n tail rest h e fits = ground arith

-- A number that fits `long` is read back from its decimal text, to the end.
pub strtol-decimal : (n : ℕ) → n < 2 ^ 63 → strtol 10 (decimal n) ≡ (pos n, [])
unfolding decimal digits
strtol-decimal n fits =
    let (d, tail, small, e) = decimal_from-cons n n (omega arith) in
    let all = digits-decimal_from (suc n) n [] (omega arith) in
    rw e (strtol_digit d n tail [] small (rw (e, append-nil) at all) fits)
