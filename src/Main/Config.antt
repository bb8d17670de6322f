-- ===== src/Main/Config.antt =====
-- source/main.c: the configuration file. A file is its contents. The calls that read and write
-- it may fail after any number of bytes; the padding does not fail.
use mathlib.Core.List.{append_assoc, append-nil}
use libmobile_bgb.Prelude.{
  ℕ, zero, suc, ◌+◌, ◌-◌, ◌≤◌, ◌<◌, ◌≡◌, refl, ◌∙◌, ◌⊎◌, inl, inr, Bool, List, [], ◌∷◌, ◌++◌, arith,
  ◌==◌, length, take, drop, replicate, get_elem?,
}

-- fseek() and fread(): the bytes that were read, and whether they are all that were asked for. `got`
-- is the number after which the C library fails to read, if the file does not end before.
unfoldable pub impl_config_read : List ℕ → ℕ → ℕ → ℕ → Bool × List ℕ
impl_config_read file offset size got =
    let read = take got (take size (drop offset file)) in (length read == size, read)

-- fseek() and fwrite(): a gap behind the end of the file is filled with zeros.
unfoldable pub write_at : List ℕ → ℕ → List ℕ → List ℕ
write_at file zero [] = file
write_at file (suc offset) [] = file
write_at [] zero (b ∷ bs) = b ∷ bs
write_at (x ∷ file) zero (b ∷ bs) = b ∷ write_at file zero bs
write_at [] (suc offset) (b ∷ bs) = 0 ∷ write_at [] offset (b ∷ bs)
write_at (x ∷ file) (suc offset) (b ∷ bs) = x ∷ write_at file offset (b ∷ bs)

-- `taken` is the number of bytes after which the C library fails to write.
unfoldable pub impl_config_write : List ℕ → List ℕ → ℕ → ℕ → Bool × List ℕ
impl_config_write file src offset taken =
    let written = take taken src in (length written == length src, write_at file offset written)

-- The loop that makes the file at least `size` bytes long: one fputc() at the end a round.
put_zeros : ℕ → List ℕ → List ℕ
put_zeros zero file = file
put_zeros (suc n) file = put_zeros n (file ++ (0 ∷ []))

unfoldable pub pad_config : ℕ → List ℕ → List ℕ
unfolding put_zeros
pad_config size file = put_zeros (size - length file) file

put_zeros_lem : (n : ℕ) (file : List ℕ) → put_zeros n file ≡ file ++ replicate n 0
unfolding put_zeros
put_zeros_lem zero file = rw append-nil
put_zeros_lem (suc n) file =
    put_zeros_lem n (file ++ (0 ∷ [])) ∙ append_assoc file (0 ∷ []) (replicate n 0)

-- The padding keeps what is in the file, and adds the zeros that are missing and no more.
pub pad_config_lem :
    (size : ℕ) (file : List ℕ) → pad_config size file ≡ file ++ replicate (size - length file) 0
unfolding pad_config
pad_config_lem size file = put_zeros_lem (size - length file) file

-- A write leaves every byte of the file that is outside of its range as it was.
pub get_elem?-write_at :
    (file src : List ℕ) (offset i : ℕ)
    → i < length file
    → (i < offset) ⊎ (offset + length src ≤ i)
    → get_elem? (write_at file offset src) i ≡ get_elem? file i
unfolding write_at
get_elem?-write_at file [] zero i inside out = refl
get_elem?-write_at file [] (suc offset) i inside out = refl
get_elem?-write_at [] (b ∷ bs) zero i inside out = absurd (omega arith)
get_elem?-write_at [] (b ∷ bs) (suc offset) i inside out = absurd (omega arith)
get_elem?-write_at (x ∷ file) (b ∷ bs) zero zero inside out = absurd (omega arith)
get_elem?-write_at (x ∷ file) (b ∷ bs) zero (suc i) inside out =
    get_elem?-write_at file bs zero i (omega arith) (inr (omega arith))
get_elem?-write_at (x ∷ file) (b ∷ bs) (suc offset) zero inside out = refl
get_elem?-write_at (x ∷ file) (b ∷ bs) (suc offset) (suc i) inside (inl before) =
    get_elem?-write_at file (b ∷ bs) offset i (omega arith) (inl (omega arith))
get_elem?-write_at (x ∷ file) (b ∷ bs) (suc offset) (suc i) inside (inr behind) =
    get_elem?-write_at file (b ∷ bs) offset i (omega arith) (inr (omega arith))
