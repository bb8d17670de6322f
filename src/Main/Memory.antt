-- ===== src/Main/Memory.antt =====
-- source/main.c: the configuration file against a memory of bytes.
use libmobile_bgb.Prelude.{
  ℕ, zero, suc, ◌+◌, ◌-◌, ◌≤◌, ◌<◌, ◌≡◌, ◌≢◌, refl, ap, ◌∙◌, inl, inr, Bool, some, List, [], ◌∷◌,
  ◌++◌, arith, ◌==◌, length, take, drop, replicate, Bool-cases, leb, get_elem?, if◌then◌else◌,
}
use libmobile_bgb.Main.Config.{
  impl_config_read, write_at, impl_config_write, pad_config, pad_config_lem, get_elem?-write_at,
}

-- What the adapter does with its configuration, with the number of bytes after which the C library
-- fails, and what it is told: whether it worked, and the bytes that were read.
pub data Access : Type 0 where
  reads : ℕ → ℕ → ℕ → Access
  writes : List ℕ → ℕ → ℕ → Access

abbrev Answer : Type 0
Answer = Bool × List ℕ

unfoldable pub access_file : Access → List ℕ → Answer × List ℕ
access_file (reads offset size got) file = (impl_config_read file offset size got, file)
access_file (writes src offset taken) file =
    let (ok, file') = impl_config_write file src offset taken in ((ok, []), file')

unfoldable pub file_answers : List Access → List ℕ → List Answer
file_answers [] file = []
file_answers (a ∷ rest) file =
    let (answer, file') = access_file a file in answer ∷ file_answers rest file'

-- A memory: its bytes by their addresses.
abbrev Memory : Type 0
Memory = ℕ → ℕ

abbrev store : Memory → ℕ → ℕ → Memory
store m at b i = if i == at then b else m i

abbrev store_all : Memory → ℕ → List ℕ → Memory
store_all m at [] = m
store_all m at (b ∷ bs) = store_all (store m at b) (suc at) bs

abbrev load_all : Memory → ℕ → ℕ → List ℕ
load_all m at zero = []
load_all m at (suc size) = m at ∷ load_all m (suc at) size

abbrev pub memory_answers : List Access → Memory → List Answer
memory_answers [] m = []
memory_answers (reads offset size got ∷ rest) m =
    (leb size got, take got (load_all m offset size)) ∷ memory_answers rest m
memory_answers (writes src offset taken ∷ rest) m =
    (leb (length src) taken, []) ∷ memory_answers rest (store_all m offset (take taken src))

-- The bytes of a file, and zeros behind them.
abbrev pub bytes_of : List ℕ → Memory
bytes_of [] i = 0
bytes_of (b ∷ bs) zero = b
bytes_of (b ∷ bs) (suc i) = bytes_of bs i

-- Accesses within a size.
abbrev pub AreInside : ℕ → List Access → Type 0
AreInside size [] = Unit {0}
AreInside size (reads offset n got ∷ rest) = (offset + n ≤ size) × AreInside size rest
AreInside size (writes src offset taken ∷ rest) = (offset + length src ≤ size) × AreInside size rest

-- The file has the memory's bytes, up to a size.
abbrev Holds : ℕ → List ℕ → Memory → Type 0
Holds size file m = (i : ℕ) → i < size → get_elem? file i ≡ some (m i)

drop_cons :
    (file : List ℕ) (k b : ℕ) → get_elem? file k ≡ some b → drop k file ≡ b ∷ drop (suc k) file
drop_cons [] k b e = absurd (ground arith)
drop_cons (x ∷ file) zero b e = ground arith
drop_cons (x ∷ file) (suc k) b e = drop_cons file k b e

load_all-Holds :
    (n at size : ℕ) (file : List ℕ) (m : Memory)
    → Holds n file m
    → at + size ≤ n
    → take size (drop at file) ≡ load_all m at size
load_all-Holds n at zero file m h inside = ground arith
load_all-Holds n at (suc size) file m h inside =
    rw
      (
        drop_cons file at (m at) (h at (omega arith)),
        load_all-Holds n (suc at) size file m h (omega arith),
      )
      refl

length-load_all : (m : Memory) (at size : ℕ) → length (load_all m at size) ≡ size
length-load_all m at zero = refl
length-load_all m at (suc size) = ap suc (length-load_all m (suc at) size)

-- Writing the first byte, and then the others.
write_at-cons :
    (file : List ℕ) (at b : ℕ) (bs : List ℕ)
    → at < length file
    → write_at file at (b ∷ bs) ≡ write_at (write_at file at (b ∷ [])) (suc at) bs
unfolding write_at
write_at-cons [] at b bs h = absurd (omega arith)
write_at-cons (x ∷ file) zero b [] h = refl
write_at-cons (x ∷ file) zero b (c ∷ bs) h = refl
write_at-cons (x ∷ file) (suc at) b [] h = ap (◌∷◌ x) (write_at-cons file at b [] (omega arith))
write_at-cons (x ∷ file) (suc at) b (c ∷ bs) h =
    ap (◌∷◌ x) (write_at-cons file at b (c ∷ bs) (omega arith))

get_elem?-inside : (file : List ℕ) (i b : ℕ) → get_elem? file i ≡ some b → i < length file
get_elem?-inside [] i b e = absurd (ground arith)
get_elem?-inside (x ∷ file) zero b e = omega arith
get_elem?-inside (x ∷ file) (suc i) b e = omega (arith, get_elem?-inside file i b e)

get_elem?-written : (file : List ℕ) (at b : ℕ) → get_elem? (write_at file at (b ∷ [])) at ≡ some b
unfolding write_at
get_elem?-written [] zero b = refl
get_elem?-written (x ∷ file) zero b = refl
get_elem?-written [] (suc at) b = get_elem?-written [] at b
get_elem?-written (x ∷ file) (suc at) b = get_elem?-written file at b

store-Holds :
    (n at b : ℕ) (file : List ℕ) (m : Memory)
    → Holds n file m
    → at < n
    → Holds n (write_at file at (b ∷ [])) (store m at b)
store-Holds n at b file m h inside i j = elim (Bool-cases (i == at)) [
  | inl same ↦ let here : i ≡ at = ground arith in rw (same, here) (get_elem?-written file at b)
  | inr other ↦
      let apart : i ≢ at = ground arith in
      rw other (
        get_elem?-write_at file (b ∷ []) at i (get_elem?-inside file i (m i) (h i j)) (omega arith)
        ∙ h i j)
]

store_all-Holds :
    (n at : ℕ) (src file : List ℕ) (m : Memory)
    → Holds n file m
    → at + length src ≤ n
    → Holds n (write_at file at src) (store_all m at src)
unfolding write_at
store_all-Holds n zero [] file m h inside = h
store_all-Holds n (suc at) [] file m h inside = h
store_all-Holds n at (b ∷ src) file m h inside =
    let first = store-Holds n at b file m h (omega arith) in
    let there = get_elem?-inside file at (m at) (h at (omega arith)) in
    rw (write_at-cons file at b src there) (
      store_all-Holds n (suc at) src (write_at file at (b ∷ [])) (store m at b) first (omega arith))

take-le : (k : ℕ) (xs : List ℕ) → length (take k xs) ≤ length xs
take-le zero xs = omega arith
take-le (suc k) [] = omega arith
take-le (suc k) (x ∷ xs) = omega (arith, take-le k xs)

-- What was cut off a list is nothing exactly if it is not longer than that.
length-take-eq : (k : ℕ) (xs : List ℕ) → (length (take k xs) == length xs) ≡ leb (length xs) k
length-take-eq zero [] = refl
length-take-eq zero (x ∷ xs) = ground arith
length-take-eq (suc k) [] = ground arith
length-take-eq (suc k) (x ∷ xs) = ground (arith, length-take-eq k xs)

answers_agree :
    (n : ℕ) (accesses : List Access) (file : List ℕ) (m : Memory)
    → Holds n file m
    → AreInside n accesses
    → file_answers accesses file ≡ memory_answers accesses m
unfolding file_answers access_file impl_config_read impl_config_write
answers_agree n [] file m h inside = refl
answers_agree n (reads offset size got ∷ rest) file m h (fits, inside) =
    let read = load_all-Holds n offset size file m h fits in
    let whole : (length (take got (load_all m offset size)) == size) ≡ leb size got =
      ground (arith, length-load_all m offset size, length-take-eq got (load_all m offset size)) in
    rw (read, whole, answers_agree n rest file m h inside) refl
answers_agree n (writes src offset taken ∷ rest) file m h (fits, inside) =
    let there : offset + length (take taken src) ≤ n = omega (arith, take-le taken src) in
    rw
      (
        length-take-eq taken src,
        answers_agree n rest (write_at file offset (take taken src))
            (store_all m offset (take taken src))
            (store_all-Holds n offset (take taken src) file m h there) inside,
      )
      refl

padded-Holds :
    (k : ℕ) (file : List ℕ) → Holds (length file + k) (file ++ replicate k 0) (bytes_of file)
padded-Holds zero [] i h = absurd (omega arith)
padded-Holds (suc k) [] zero h = refl
padded-Holds (suc k) [] (suc i) h = padded-Holds k [] i (omega arith)
padded-Holds k (b ∷ file) zero h = refl
padded-Holds k (b ∷ file) (suc i) h = padded-Holds k file i (omega arith)

-- Any accesses within the configuration's size, to a file that was padded to that size, each of which
-- the C library may cut off after any number of bytes, are answered like those to a memory which
-- starts with the bytes of the file and zeros behind them: an access is said to have worked exactly
-- if it was not cut off, a read gives for each address up to there the byte that was written there
-- last, and a write changes the addresses up to there.
pub accesses-refine :
    (config_size : ℕ) (accesses : List Access) (file : List ℕ)
    → AreInside config_size accesses
    → file_answers accesses (pad_config config_size file) ≡ memory_answers accesses (bytes_of file)
accesses-refine config_size accesses file inside =
    let padded = pad_config_lem config_size file in
    let missing = config_size - length file in
    answers_agree config_size accesses (pad_config config_size file) (bytes_of file)
      (λ i h. rw padded (padded-Holds missing file i (omega arith))) inside
