-- ===== src/Main/User.antt =====
-- source/main.c: `struct mobile_user`, and the callbacks that keep the adapter's clock.
use libmobile_bgb.Prelude.{
  ℕ, ◌+◌, ◌-◌, ◌*◌, ◌/◌, ◌%◌, ◌^◌, Bool, true, Option, none, some, List, bit_and, ltb, leb,
  get_elem?, set, if◌then◌else◌,
}
use libmobile_bgb.SocketImpl.Types.{SocketImpl}

-- `struct mobile_user` over the state `A` of libmobile's adapter. `config` is the contents of the
-- configuration file, and a number is the whole array that holds it.
pub record MobileUser (A : Type 0) : Type 0 where
  pub adapter : A
  pub socket : SocketImpl
  pub action : ℕ
  pub config : List ℕ
  pub reset : Bool
  pub bgb_clock : ℕ
  pub bgb_clock_init : Bool
  pub bgb_clock_latch : List ℕ
  pub number_user : List ℕ
  pub number_peer : List ℕ

-- `(a - b) & 0x7FFFFFFF` on `uint32_t`.
unfoldable pub clock_diff : ℕ → ℕ → ℕ
clock_diff a b = bit_and ((a + 2 ^ 32 - b) % 2 ^ 32) 0x7FFFFFFF

-- `(uint32_t)((double)ms * (1 << 21) / 1000)`. The product is exact, and for the quotients below
-- 2 ^ 32 the rounding of the division is finer than 1 / 1000, so that the cast gives the floor.
-- From 2048000 on the cast is not defined: `none`.
unfoldable pub clock_ticks : ℕ → Option ℕ
clock_ticks ms = if ltb ms 2048000 then some (ms * 2 ^ 21 / 1000) else none

module _ {A : Type 0} where
  -- A timer that the array does not have is a fault: `none`.
  unfoldable pub impl_time_latch : ℕ → MobileUser A → Option (MobileUser A)
  impl_time_latch timer u = elim (get_elem? u.bgb_clock_latch timer) [
    | none ↦ none
    | some _ ↦ some (record u { bgb_clock_latch = set u.bgb_clock_latch timer u.bgb_clock })
  ]

  unfoldable pub impl_time_check_ms : ℕ → ℕ → MobileUser A → Option Bool
  impl_time_check_ms timer ms u = elim (get_elem? u.bgb_clock_latch timer) [
    | none ↦ none
    | some latch ↦ elim (clock_ticks ms) [
      | none ↦ none
      | some ticks ↦ some (leb ticks (clock_diff u.bgb_clock latch))
    ]
  ]

  unfoldable pub bgb_loop_timestamp : ℕ → MobileUser A → MobileUser A
  bgb_loop_timestamp t u = record u {
    reset = if ltb 0x1000 (clock_diff t u.bgb_clock) then true else u.reset;
    bgb_clock = t;
  }

  unfoldable pub bgb_loop_timestamp_init : ℕ → MobileUser A → MobileUser A
  bgb_loop_timestamp_init t u = record u { bgb_clock = t; bgb_clock_init = true }
