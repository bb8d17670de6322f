-- ===== src/Main/Clock.antt =====
-- source/main.c: timers that survive the wrap of the clock, and the detection of a reset.
use libmobile_bgb.Prelude.{
  ◌+◌, ◌-◌, ◌*◌, ◌/◌, ◌%◌, ◌^◌, ◌≤◌, ◌<◌, ◌≡◌, false, none, some, List, [], ◌∷◌, ℕ, zero, suc,
  arith, bit_and_31, leb, get_elem?, length, get_elem?-set_self, inl, inr, Option-cases,
}
use libmobile_bgb.Main.User.{
  MobileUser, clock_diff, clock_ticks, impl_time_latch, impl_time_check_ms,
}

pub clock_diff_lem : (a b : ℕ) → clock_diff a b ≡ (a + 2 ^ 32 - b) % 2 ^ 32 % 2 ^ 31
unfolding clock_diff
clock_diff_lem a b = bit_and_31 _

get_elem?-none : (xs : List ℕ) (i : ℕ) → get_elem? xs i ≡ none → length xs ≤ i
get_elem?-none [] i e = omega arith
get_elem?-none (x ∷ xs) zero e = absurd (ground arith)
get_elem?-none (x ∷ xs) (suc i) e = omega (arith, get_elem?-none xs i e)

-- The clock moves on by `delta` ticks of 1 / 2 ^ 21 s, wrapping at 2 ^ 32.
abbrev pub advance : {A : Type 0} → ℕ → MobileUser A → MobileUser A
advance delta u = record u { bgb_clock = (u.bgb_clock + delta) % 2 ^ 32 }

module _ {A : Type 0} (u : MobileUser A) (timer ms : ℕ) where
  -- A timer that was latched when the 32-bit clock was anywhere, and is checked `delta` ticks
  -- later, with less than 2 ^ 31 ticks and 2048000 ms, across a wrap of the clock too, has fired
  -- exactly if `delta` is at least the number of ticks of `ms`.
  pub time_check-advance-latch :
      (delta : ℕ) (v : MobileUser A)
      → u.bgb_clock < 2 ^ 32
      → timer < length u.bgb_clock_latch
      → delta < 2 ^ 31
      → ms < 2048000
      → impl_time_latch timer u ≡ some v
      → impl_time_check_ms timer ms (advance delta v) ≡ some (leb (ms * 2 ^ 21 / 1000) delta)
  unfolding impl_time_latch impl_time_check_ms clock_ticks
  time_check-advance-latch delta v fits there short defined e = ground (
    arith,
    get_elem?-set_self u.bgb_clock_latch timer u.bgb_clock there,
    clock_diff_lem ((u.bgb_clock + delta) % 2 ^ 32) u.bgb_clock,
  )

  -- A timer that exists, of 1024000 ms or more, but of less than the 2048000 ms from which on the cast
  -- is not defined, is reported not to have fired, whatever the clock says and whenever it was latched.
  pub time_check-never :
      timer < length u.bgb_clock_latch
      → 1024000 ≤ ms
      → ms < 2048000
      → impl_time_check_ms timer ms u ≡ some false
  unfolding impl_time_check_ms clock_ticks
  time_check-never there long defined = elim (Option-cases (get_elem? u.bgb_clock_latch timer)) [
    | inl missing ↦ absurd (omega (arith, get_elem?-none u.bgb_clock_latch timer missing))
    | inr (latch, found) ↦ ground (arith, clock_diff_lem u.bgb_clock latch)
  ]
