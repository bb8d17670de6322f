-- ===== src/Text/Strtol.antt =====
-- strtol() of the C library, as source/main.c uses it, where `long` has 64 bits.
use libmobile_bgb.Prelude.{
  ℕ, ◌+◌, ◌-◌, ◌*◌, ◌%◌, ◌^◌, Bool, ◌&&◌, ◌||◌, Option, none, some, List, [], ◌∷◌, ℤ, pos, negsuc,
  ltb, leb, ◌==◌, if◌then◌else◌,
}

-- isspace() in the C locale.
abbrev is_space : ℕ → Bool
is_space c = c == 32 || (leb 9 c && leb c 13)

unfoldable pub skip_spaces : List ℕ → List ℕ
skip_spaces [] = []
skip_spaces (c ∷ cs) = let rest = skip_spaces cs in if is_space c then rest else c ∷ cs

-- The value of a digit below the base.
unfoldable pub digit : ℕ → ℕ → Option ℕ
digit base c =
    let v =
      if leb b'0' c && leb c b'9'
      then c - 48
      else if leb b'A' c && leb c b'Z'
      then c - 55
      else if leb b'a' c && leb c b'z'
      then c - 87
      else 36 in
    if ltb v base then some v else none

-- The digits that follow, and the rest.
unfoldable pub digits : ℕ → ℕ → List ℕ → ℕ × List ℕ
digits base acc [] = (acc, [])
digits base acc (c ∷ cs) = elim (digit base c) [
  | none ↦ (acc, c ∷ cs)
  | some v ↦ digits base (acc * base + v) cs
]

-- A number without a sign; `none` where there is no digit.
unfoldable pub magnitude : ℕ → List ℕ → Option (ℕ × List ℕ)
magnitude base [] = none
magnitude base (c ∷ cs) = elim (digit base c) [
  | none ↦ none
  | some v ↦ some (digits base 0 (c ∷ cs))
]

-- Base 0 is 16 after 0x, 8 after 0 and 10 otherwise. Without a digit after 0x only the 0 counts.
unfoldable pub any_base : List ℕ → Option (ℕ × List ℕ)
any_base [] = none
any_base (c ∷ []) = magnitude 10 (c ∷ [])
any_base (c ∷ x ∷ cs) =
    if c == b'0' && (x == b'x' || x == b'X')
    then elim (magnitude 16 cs) [ none ↦ some (0, x ∷ cs) | some r ↦ some r ]
    else magnitude (if c == b'0' then 8 else 10) (c ∷ x ∷ cs)

unfoldable pub in_base : ℕ → List ℕ → Option (ℕ × List ℕ)
in_base base cs = if base == 0 then any_base cs else magnitude base cs

-- The value, limited to the range of `long`.
unfoldable pub positive : ℕ → ℤ
positive n = if ltb n (2 ^ 63) then pos n else pos (2 ^ 63 - 1)

unfoldable pub negative : ℕ → ℤ
negative n =
    if n == 0 then pos 0 else if leb n (2 ^ 63) then negsuc (n - 1) else negsuc (2 ^ 63 - 1)

-- After the spaces: the value and the rest, which is `none` where there is no number.
unfoldable pub signed : ℕ → List ℕ → Option (ℤ × List ℕ)
signed base [] = none
signed base (c ∷ cs) =
    let minus = in_base base cs in
    let bare = in_base base (c ∷ cs) in
    if c == b'-'
    then elim minus [ none ↦ none | some (n, rest) ↦ some (negative n, rest) ]
    else if c == b'+'
    then elim minus [ none ↦ none | some (n, rest) ↦ some (positive n, rest) ]
    else elim bare [ none ↦ none | some (n, rest) ↦ some (positive n, rest) ]

-- The value, and the string from `endptr` on.
unfoldable pub strtol : ℕ → List ℕ → ℤ × List ℕ
strtol base str = elim (signed base (skip_spaces str)) [ none ↦ (pos 0, str) | some r ↦ r ]

-- The conversion of `long` to `unsigned`.
unfoldable pub to_unsigned : ℤ → ℕ
to_unsigned (pos n) = n % 2 ^ 32
to_unsigned (negsuc n) = 2 ^ 32 - 1 - n % 2 ^ 32
