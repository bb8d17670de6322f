-- ===== src/Main/Hex.antt =====
-- source/main.c: `main_parse_hex`. The text is a list of bytes; past its end there is the null.
use mathlib.Core.List.{append_assoc}
use libmobile_bgb.Prelude.{
  ℕ, zero, suc, ◌+◌, ◌-◌, ◌*◌, ◌/◌, ◌%◌, ◌<◌, ◌≤◌, ◌≡◌, ◌⊎◌, ◌↔◌, refl, ap, ◌∙◌, Bool, true, false,
  ◌&&◌, Option, none, some, List, [], ◌∷◌, ◌++◌, arith, bit_or, bit_or_nibbles, leb, ◌==◌, length,
  length-append, length-set, set, if◌then◌else◌, inl, inr, Option-cases,
}

-- The value of a hexadecimal digit, by the three ranges of characters.
unfoldable pub hex_digit : ℕ → Option ℕ
hex_digit c =
    if leb b'0' c && leb c b'9'
    then some (c - 48)
    else if leb b'A' c && leb c b'F'
    then some (c - 55)
    else if leb b'a' c && leb c b'f'
    then some (c - 87)
    else none

abbrev next_char : List ℕ → ℕ
next_char [] = 0
next_char (c ∷ _) = c

abbrev after_char : List ℕ → List ℕ
after_char [] = []
after_char (_ ∷ rest) = rest

-- The loop, with the rounds that are left, the index `i`, the byte `x` so far, the rest of the
-- text and the buffer.
unfoldable pub hex_loop : ℕ → ℕ → ℕ → List ℕ → List ℕ → Bool × List ℕ
hex_loop zero i x str buf = (true, buf)
hex_loop (suc rounds) i x str buf = elim (hex_digit (next_char str)) [
  | none ↦ (false, buf)
  | some c ↦
      let y = bit_or (x * 16 % 256) c in
      hex_loop rounds (i + 1) (if i % 2 == 1 then 0 else y) (after_char str)
        (if i % 2 == 1 then set buf (i / 2) y else buf)
]

unfoldable pub main_parse_hex : List ℕ → List ℕ → ℕ → Bool × List ℕ
main_parse_hex buf str size = hex_loop (size * 2) 0 0 str buf

-- A character is a hexadecimal digit of a value, in lower or upper case.
abbrev pub IsDigit : ℕ → ℕ → Type 0
IsDigit c v = ((v < 10) × (c ≡ 48 + v)) ⊎ ((10 ≤ v) × (v < 16) × ((c ≡ 55 + v) ⊎ (c ≡ 87 + v)))

-- A text spells bytes, by two hexadecimal digits for each.
abbrev pub Spells : List ℕ → List ℕ → Type 0
Spells [] [] = Unit {0}
Spells [] (b ∷ bs) = ⊥
Spells (h ∷ []) bs = ⊥
Spells (h ∷ l ∷ text) [] = ⊥
Spells (h ∷ l ∷ text) (b ∷ bs) = IsDigit h (b / 16) × IsDigit l (b % 16) × Spells text bs

hex_digit-IsDigit : (c v : ℕ) → IsDigit c v → hex_digit c ≡ some v
unfolding hex_digit
hex_digit-IsDigit c v (inl d) = ground arith
hex_digit-IsDigit c v (inr (low, high, inl e)) = ground arith
hex_digit-IsDigit c v (inr (low, high, inr e)) = ground arith

hex_digit-some : (c v : ℕ) → hex_digit c ≡ some v → IsDigit c v
unfolding hex_digit
hex_digit-some c v e = ground arith

set-append :
    (done : List ℕ) (old : ℕ) (rest : List ℕ) (i v : ℕ)
    → i ≡ length done
    → set (done ++ (old ∷ rest)) i v ≡ done ++ (v ∷ rest)
set-append [] old rest zero v e = refl
set-append [] old rest (suc i) v e = absurd (omega arith)
set-append (d ∷ done) old rest zero v e = absurd (omega arith)
set-append (d ∷ done) old rest (suc i) v e = ap (◌∷◌ d) (set-append done old rest i v (omega arith))

-- A round on the first digit of a byte, and on the second.
module _ (rounds i x c : ℕ) (str buf : List ℕ) (digit : hex_digit (next_char str) ≡ some c) where
  hex_loop_first :
      i % 2 ≡ 0
      → hex_loop (suc rounds) i x str buf
        ≡ hex_loop rounds (i + 1) (bit_or (x * 16 % 256) c) (after_char str) buf
  unfolding hex_loop
  hex_loop_first e = rw (digit, hex_loop) (rw e refl)

  hex_loop_second :
      i % 2 ≡ 1
      → hex_loop (suc rounds) i x str buf
        ≡ hex_loop rounds (i + 1) 0 (after_char str) (set buf (i / 2) (bit_or (x * 16 % 256) c))
  unfolding hex_loop
  hex_loop_second e = rw (digit, hex_loop) (rw e refl)

-- Two rounds read one byte.
hex_loop_byte :
    (rounds b h l i : ℕ) (str done : List ℕ) (old : ℕ) (rest : List ℕ)
    → IsDigit h (b / 16)
    → IsDigit l (b % 16)
    → i ≡ 2 * length done
    → hex_loop (suc (suc rounds)) i 0 (h ∷ l ∷ str) (done ++ (old ∷ rest))
      ≡ hex_loop rounds (i + 1 + 1) 0 str (done ++ (b ∷ rest))
hex_loop_byte rounds b h l i str done old rest hd ld e =
    let small : b / 16 < 16 = ground arith in
    let first : bit_or (0 * 16 % 256) (b / 16) ≡ b / 16 =
      omega (arith, bit_or_nibbles 0 (b / 16) (omega arith) (omega arith)) in
    let second : bit_or (b / 16 * 16 % 256) (b % 16) ≡ b =
      omega (arith, bit_or_nibbles (b / 16) (b % 16) (omega arith) (omega arith)) in
    rw
      (
        hex_loop_first (suc rounds) i 0 (b / 16) _ _ (hex_digit-IsDigit h (b / 16) hd)
            (omega arith),
        first,
        hex_loop_second rounds (i + 1) (b / 16) (b % 16) _ _ (hex_digit-IsDigit l (b % 16) ld)
            (omega arith),
        second,
        set-append done old rest ((i + 1) / 2) b (omega arith),
      )
      refl

hex_loop-Spells :
    (text bs : List ℕ) (i : ℕ) (done olds : List ℕ)
    → Spells text bs
    → i ≡ 2 * length done
    → length olds ≡ length bs
    → hex_loop (length bs * 2) i 0 text (done ++ olds) ≡ (true, done ++ bs)
unfolding hex_loop
hex_loop-Spells [] [] i done [] h e n = refl
hex_loop-Spells [] [] i done (o ∷ olds) h e n = absurd (omega arith)
hex_loop-Spells [] (b ∷ bs) i done olds h e n = absurd h
hex_loop-Spells (c ∷ []) bs i done olds h e n = absurd h
hex_loop-Spells (c ∷ d ∷ text) [] i done olds h e n = absurd h
hex_loop-Spells (c ∷ d ∷ text) (b ∷ bs) i done [] h e n = absurd (omega arith)
hex_loop-Spells (c ∷ d ∷ text) (b ∷ bs) i done (o ∷ olds) (high, low, h) e n =
    let twice : length (b ∷ bs) * 2 ≡ suc (suc (length bs * 2)) = omega arith in
    let more : length (done ++ (b ∷ [])) ≡ length done + 1 = length-append done (b ∷ []) in
    let later =
      hex_loop-Spells text bs (i + 1 + 1) (done ++ (b ∷ [])) olds h (omega arith) (omega arith) in
    let later' : hex_loop (length bs * 2) (i + 1 + 1) 0 text (done ++ (b ∷ olds))
        ≡ (true, done ++ (b ∷ bs)) =
      simp append_assoc at later in
    rw twice (hex_loop_byte (length bs * 2) b c d i text done o olds high low e ∙ later')

-- A text that spells any bytes is accepted, and fills a buffer of their number with them.
pub parse_hex-Spells :
    (buf text bs : List ℕ)
    → Spells text bs
    → length buf ≡ length bs
    → main_parse_hex buf text (length bs) ≡ (true, bs)
unfolding main_parse_hex
parse_hex-Spells buf text bs h n = hex_loop-Spells text bs 0 [] buf h (omega arith) n

-- The first characters of a text are hexadecimal digits, each of some value.
abbrev pub AreHex : ℕ → List ℕ → Type 0
AreHex zero str = Unit
AreHex (suc n) [] = ⊥
AreHex (suc n) (c ∷ cs) = ((v : ℕ) × IsDigit c v) × AreHex n cs

hex_loop_accepts :
    (rounds i x : ℕ) (str buf : List ℕ) → AreHex rounds str → (hex_loop rounds i x str buf).0 ≡ true
unfolding hex_loop
hex_loop_accepts zero i x str buf h = refl
hex_loop_accepts (suc rounds) i x [] buf h = absurd h
hex_loop_accepts (suc rounds) i x (c ∷ str) buf ((v, d), h) =
    let y = bit_or (x * 16 % 256) v in
    rw (hex_digit-IsDigit c v d, hex_loop)
      (hex_loop_accepts rounds (i + 1) (if i % 2 == 1 then 0 else y) str
        (if i % 2 == 1 then set buf (i / 2) y else buf) h)

hex_loop_rejects :
    (rounds i x : ℕ) (str buf : List ℕ) → (hex_loop rounds i x str buf).0 ≡ true → AreHex rounds str
unfolding hex_loop
hex_loop_rejects zero i x str buf h = tt
hex_loop_rejects (suc rounds) i x [] buf h =
    let ends : hex_digit 0 ≡ none = unfold hex_digit in refl in absurd (ground arith)
hex_loop_rejects (suc rounds) i x (c ∷ str) buf h = elim (Option-cases (hex_digit c)) [
  | inl e ↦ absurd (ground arith)
  | inr (v, e) ↦
      let y = bit_or (x * 16 % 256) v in
      (
        (v, hex_digit-some c v e),
        hex_loop_rejects rounds (i + 1) (if i % 2 == 1 then 0 else y) str
            (if i % 2 == 1 then set buf (i / 2) y else buf) (rw (e, hex_loop) at h),
      )
]

-- A text is accepted exactly if it starts with the `size * 2` hexadecimal digits of a token: the
-- characters 0 to 9, A to F and a to f.
pub parse_hex-AreHex :
    (buf str : List ℕ) (size : ℕ) → ((main_parse_hex buf str size).0 ≡ true) ↔ AreHex (size * 2) str
unfolding main_parse_hex
parse_hex-AreHex buf str size =
    (hex_loop_rejects (size * 2) 0 0 str buf, hex_loop_accepts (size * 2) 0 0 str buf)

length-hex_loop :
    (rounds i x : ℕ) (str buf : List ℕ) → length (hex_loop rounds i x str buf).1 ≡ length buf
unfolding hex_loop
length-hex_loop zero i x str buf = refl
length-hex_loop (suc rounds) i x str buf = elim (Option-cases (hex_digit (next_char str))) [
  | inl e ↦ rw (hex_loop, e) refl
  | inr (c, e) ↦
      let y = bit_or (x * 16 % 256) c in
      let written =
        length-hex_loop rounds (i + 1) (if i % 2 == 1 then 0 else y) (after_char str)
          (if i % 2 == 1 then set buf (i / 2) y else buf) in
      rw (hex_loop, e) (written ∙ ground (arith, length-set buf (i / 2) y))
]

-- The buffer keeps its length.
pub length-main_parse_hex :
    (buf str : List ℕ) (size : ℕ) → length (main_parse_hex buf str size).1 ≡ length buf
unfolding main_parse_hex
length-main_parse_hex buf str size = length-hex_loop (size * 2) 0 0 str buf
