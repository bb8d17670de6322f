-- ===== src/Main/Number.antt =====
-- source/main.c: `impl_update_number`, which keeps the phone numbers for the window's title. An
-- array of `max + 1` characters holds each; the title itself is not modelled.
use libmobile_bgb.Prelude.{
  ℕ, zero, suc, ◌+◌, ◌≡◌, ◌≢◌, refl, ap, ◌∙◌, Option, none, some, List, [], ◌∷◌, arith, ◌==◌,
  length, set, take, take-nil, length-set, if◌then◌else◌,
}
use libmobile_bgb.Main.User.{MobileUser}

-- `enum mobile_number`, and any other value.
pub data MobileNumber : Type 0 where
  user peer other_number : MobileNumber

-- strncpy() of at most `n` characters: what is left of the `n` is filled with nulls.
unfoldable pub strncpy : ℕ → List ℕ → List ℕ → List ℕ
strncpy n src [] = []
strncpy zero src (d ∷ dest) = d ∷ dest
strncpy (suc n) [] (d ∷ dest) = 0 ∷ strncpy n [] dest
strncpy (suc n) (c ∷ src) (d ∷ dest) = c ∷ strncpy n src dest

-- The array after the call.
unfoldable pub store_number : ℕ → Option (List ℕ) → List ℕ → List ℕ
store_number max none dest = set dest 0 0
store_number max (some number) dest = set (strncpy max number dest) max 0

-- Any other type of number fails an assertion.
unfoldable pub impl_update_number :
    {A : Type 0} → ℕ → MobileNumber → Option (List ℕ) → MobileUser A → Option (MobileUser A)
impl_update_number max user number u =
    some (record u { number_user = store_number max number u.number_user })
impl_update_number max peer number u =
    some (record u { number_peer = store_number max number u.number_peer })
impl_update_number max other_number number u = none

-- The string that an array holds.
unfoldable pub c_string : List ℕ → List ℕ
c_string [] = []
c_string (c ∷ cs) = let rest = c_string cs in if c == 0 then [] else c ∷ rest

-- A string: characters that are not null.
abbrev pub IsText : List ℕ → Type 0
IsText [] = Unit {0}
IsText (c ∷ cs) = (c ≢ 0) × IsText cs

-- The characters of a number, if there is one.
abbrev pub text_of : Option (List ℕ) → List ℕ
text_of none = []
text_of (some number) = number

abbrev pub IsNumber : Option (List ℕ) → Type 0
IsNumber number = IsText (text_of number)

length-strncpy : (n : ℕ) (src dest : List ℕ) → length (strncpy n src dest) ≡ length dest
unfolding strncpy
length-strncpy n src [] = refl
length-strncpy zero src (d ∷ dest) = refl
length-strncpy (suc n) [] (d ∷ dest) = ap suc (length-strncpy n [] dest)
length-strncpy (suc n) (c ∷ src) (d ∷ dest) = ap suc (length-strncpy n src dest)

c_string-strncpy :
    (n : ℕ) (src dest : List ℕ)
    → IsText src
    → length dest ≡ n + 1
    → c_string (set (strncpy n src dest) n 0) ≡ take n src
unfolding strncpy c_string
c_string-strncpy n src [] h e = absurd (omega arith)
c_string-strncpy zero src (d ∷ dest) h e = refl
c_string-strncpy (suc n) [] (d ∷ dest) h e = refl
c_string-strncpy (suc n) (c ∷ src) (d ∷ dest) h e =
    ground (arith, h.0, c_string-strncpy n src dest h.1 (omega arith))

-- In an array of `max + 1` characters, `impl_update_number` leaves the number (a text without
-- nulls), cut to `max` characters and ended by a null, or the empty text where there is no number;
-- the array keeps its length.
pub store_number_lem :
    (max : ℕ) (number : Option (List ℕ)) (dest : List ℕ)
    → IsNumber number
    → length dest ≡ max + 1
    → (c_string (store_number max number dest) ≡ take max (text_of number))
      × (length (store_number max number dest) ≡ max + 1)
unfolding store_number c_string
store_number_lem max none [] h e = absurd (omega arith)
store_number_lem max none (d ∷ dest) h e = (rw take-nil, e)
store_number_lem max (some number) dest h e = (
  c_string-strncpy max number dest h e,
  length-set (strncpy max number dest) max 0 ∙ length-strncpy max number dest ∙ e,
)
