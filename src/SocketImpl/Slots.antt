-- ===== src/SocketImpl/Slots.antt =====
-- The table of connections as a set of descriptors.
use libmobile_bgb.Prelude.{
  ℕ, zero, suc, ◌≡◌, refl, ap, Bool, true, false, not, ◌&&◌, ◌||◌, Option, none, some, List, [],
  ◌∷◌, arith, get_elem?, set, replicate, ◌==◌,
}

-- A descriptor stands in the table.
unfoldable pub holds : List (Option ℕ) → ℕ → Bool
holds [] d = false
holds (none ∷ rest) d = holds rest d
holds (some fd ∷ rest) d = d == fd || holds rest d

-- No descriptor stands in two slots.
abbrev pub AreDistinct : List (Option ℕ) → Type 0
AreDistinct [] = Unit
AreDistinct (none ∷ rest) = AreDistinct rest
AreDistinct (some fd ∷ rest) = (holds rest fd ≡ false) × AreDistinct rest

pub holds-replicate : (n d : ℕ) → holds (replicate n none) d ≡ false
unfolding holds
holds-replicate zero d = refl
holds-replicate (suc n) d = holds-replicate n d

pub replicate-AreDistinct : (n : ℕ) → AreDistinct (replicate n none)
replicate-AreDistinct zero = tt
replicate-AreDistinct (suc n) = replicate-AreDistinct n

pub holds_of_slot :
    (xs : List (Option ℕ)) (i fd : ℕ) → get_elem? xs i ≡ some (some fd) → holds xs fd ≡ true
unfolding holds
holds_of_slot [] i fd e = ground arith
holds_of_slot (none ∷ xs) zero fd e = ground arith
holds_of_slot (some x ∷ xs) zero fd e = ground arith
holds_of_slot (none ∷ xs) (suc i) fd e = holds_of_slot xs i fd e
holds_of_slot (some x ∷ xs) (suc i) fd e = ground (arith, holds_of_slot xs i fd e)

-- An empty slot is filled.
pub holds-set_empty :
    (xs : List (Option ℕ)) (i fd d : ℕ)
    → get_elem? xs i ≡ some none
    → holds (set xs i (some fd)) d ≡ (d == fd || holds xs d)
unfolding holds
holds-set_empty [] i fd d e = ground arith
holds-set_empty (none ∷ xs) zero fd d e = refl
holds-set_empty (some x ∷ xs) zero fd d e = ground arith
holds-set_empty (none ∷ xs) (suc i) fd d e = holds-set_empty xs i fd d e
holds-set_empty (some x ∷ xs) (suc i) fd d e = ground (arith, holds-set_empty xs i fd d e)

pub set_empty-AreDistinct :
    (xs : List (Option ℕ)) (i fd : ℕ)
    → get_elem? xs i ≡ some none
    → holds xs fd ≡ false
    → AreDistinct xs
    → AreDistinct (set xs i (some fd))
unfolding holds
set_empty-AreDistinct [] i fd e new h = ground arith
set_empty-AreDistinct (none ∷ xs) zero fd e new h = (new, h)
set_empty-AreDistinct (some x ∷ xs) zero fd e new h = ground arith
set_empty-AreDistinct (none ∷ xs) (suc i) fd e new h = set_empty-AreDistinct xs i fd e new h
set_empty-AreDistinct (some x ∷ xs) (suc i) fd e new h =
    ground (arith, holds-set_empty xs i fd x e, set_empty-AreDistinct xs i fd e (ground arith) h.1)

-- A slot is emptied.
pub holds-set-none :
    (xs : List (Option ℕ)) (i fd d : ℕ)
    → get_elem? xs i ≡ some (some fd)
    → AreDistinct xs
    → holds (set xs i none) d ≡ (not (d == fd) && holds xs d)
unfolding holds
holds-set-none [] i fd d e h = ground arith
holds-set-none (none ∷ xs) zero fd d e h = ground arith
holds-set-none (some x ∷ xs) zero fd d e h = ground (arith)
holds-set-none (none ∷ xs) (suc i) fd d e h = holds-set-none xs i fd d e h
holds-set-none (some x ∷ xs) (suc i) fd d e h =
    ground (arith, holds-set-none xs i fd d e h.1, holds_of_slot xs i fd e)

holds-set-none_absent :
    (xs : List (Option ℕ)) (i d : ℕ) → holds xs d ≡ false → holds (set xs i none) d ≡ false
unfolding holds
holds-set-none_absent [] i d h = refl
holds-set-none_absent (none ∷ xs) zero d h = h
holds-set-none_absent (some x ∷ xs) zero d h = ground arith
holds-set-none_absent (none ∷ xs) (suc i) d h = holds-set-none_absent xs i d h
holds-set-none_absent (some x ∷ xs) (suc i) d h = ground (arith, holds-set-none_absent xs i d)

pub set-none-AreDistinct :
    (xs : List (Option ℕ)) (i : ℕ) → AreDistinct xs → AreDistinct (set xs i none)
unfolding holds
set-none-AreDistinct [] i h = tt
set-none-AreDistinct (none ∷ xs) zero h = h
set-none-AreDistinct (some x ∷ xs) zero h = h.1
set-none-AreDistinct (none ∷ xs) (suc i) h = set-none-AreDistinct xs i h
set-none-AreDistinct (some x ∷ xs) (suc i) h =
    (holds-set-none_absent xs i x h.0, set-none-AreDistinct xs i h.1)

-- A slot is filled anew: emptied, then filled.
get_elem?-set-none :
    (xs : List (Option ℕ)) (i fd : ℕ)
    → get_elem? xs i ≡ some (some fd)
    → get_elem? (set xs i none) i ≡ some none
get_elem?-set-none [] i fd e = ground arith
get_elem?-set-none (x ∷ xs) zero fd e = refl
get_elem?-set-none (x ∷ xs) (suc i) fd e = get_elem?-set-none xs i fd e

set-set : (xs : List (Option ℕ)) (i : ℕ) (a b : Option ℕ) → set (set xs i a) i b ≡ set xs i b
set-set [] i a b = refl
set-set (x ∷ xs) zero a b = refl
set-set (x ∷ xs) (suc i) a b = ap (◌∷◌ x) (set-set xs i a b)

module _ (xs : List (Option ℕ)) (i old new : ℕ) (filled : get_elem? xs i ≡ some (some old))
    (distinct : AreDistinct xs) where
  pub holds-set_filled :
      (d : ℕ) → holds (set xs i (some new)) d ≡ (d == new || (not (d == old) && holds xs d))
  holds-set_filled d = rw (← set-set xs i none (some new)) (
      ground (
        arith,
        holds-set_empty (set xs i none) i new d (get_elem?-set-none xs i old filled),
        holds-set-none xs i old d filled distinct,
      ))

  pub set_filled-AreDistinct : holds xs new ≡ false → AreDistinct (set xs i (some new))
  set_filled-AreDistinct absent = rw (← set-set xs i none (some new)) (
      set_empty-AreDistinct (set xs i none) i new (get_elem?-set-none xs i old filled)
        (holds-set-none_absent xs i new absent) (set-none-AreDistinct xs i distinct))
