-- ===== src/Text.antt =====
-- What the C library's printf family writes, as far as source/socket.c and source/main.c use it. A
-- text is its characters, without the null.
pub mod Strtol
pub mod Decimal
use Prim.Native.Char.{code}
use Prim.Native.String.{String}
use libmobile_bgb.Prelude.{ℕ, zero, suc, ◌+◌, ◌/◌, ◌%◌, List, [], ◌∷◌, ◌++◌, ltb, if◌then◌else◌}

-- The characters of a literal.
abbrev pub codes : String → List ℕ
codes String.[] = []
codes (String.◌∷◌ c s) = code c ∷ codes s

-- `%u`: the last digit after those before it. Each round divides by ten, so that `n + 1` rounds
-- are enough.
unfoldable pub decimal_from : ℕ → ℕ → List ℕ
decimal_from zero n = []
decimal_from (suc rounds) n =
    let front = decimal_from rounds (n / 10) in
    if ltb n 10 then (b'0' + n) ∷ [] else front ++ ((b'0' + n % 10) ∷ [])

unfoldable pub decimal : ℕ → List ℕ
unfolding decimal_from
decimal n = decimal_from (suc n) n
