-- ===== src/Main/Reset.antt =====
-- source/main.c over source/bgblink.c: when the adapter is reset because the emulator's clock jumped.
use libmobile_bgb.Prelude.{
  ℕ, ◌+◌, ◌-◌, ◌%◌, ◌^◌, ◌≤◌, ◌<◌, ◌≡◌, ◌≢◌, refl, true, some, List, [], ◌∷◌, arith, ◌⊎◌, inl, inr,
}
use libmobile_bgb.Bgb.Link.{Bgb, report_timestamp}
use libmobile_bgb.Bgb.Clock.{IsBehind, report_timestamp_stale, report_timestamp_fresh}
use libmobile_bgb.Bgb.Reports.{report_all, AreTimestamps}
use libmobile_bgb.Main.User.{MobileUser, bgb_loop_timestamp}
use libmobile_bgb.Main.Clock.{clock_diff_lem}

-- The clock `t` lies at most 0x1000 ticks after `last`, on a clock of 31 bits.
abbrev pub IsAhead : ℕ → ℕ → Type 0
IsAhead last t = (d : ℕ) × (d ≤ 0x1000) × ((last + d) % 2 ^ 31 ≡ t % 2 ^ 31)

-- Each timestamp repeats the last one that counts, lies shortly before it, or lies shortly after
-- it and counts from then on.
abbrev pub IsSmooth : ℕ → List ℕ → Type 0
IsSmooth last [] = Unit {0}
IsSmooth last (t ∷ ts) =
    (((t ≡ last) ⊎ IsBehind last t) × IsSmooth last ts)
    ⊎ ((t ≢ last) × (¬ IsBehind last t) × IsAhead last t × IsSmooth t ts)

module _ {A : Type 0} where
  -- A jump out of that range resets the adapter, and one within it does not.
  timestamp_ahead :
      (t : ℕ) (u : MobileUser A)
      → t < 2 ^ 32
      → u.bgb_clock < 2 ^ 32
      → IsAhead u.bgb_clock t
      → bgb_loop_timestamp t u ≡ record u { bgb_clock = t }
  unfolding bgb_loop_timestamp
  timestamp_ahead t u fits old (d, small, e) = ground (arith, clock_diff_lem t u.bgb_clock)

  pub timestamp_jump :
      (t : ℕ) (u : MobileUser A)
      → t < 2 ^ 32
      → u.bgb_clock < 2 ^ 32
      → ¬ IsAhead u.bgb_clock t
      → bgb_loop_timestamp t u ≡ record u { reset = true; bgb_clock = t }
  unfolding bgb_loop_timestamp
  timestamp_jump t u fits old far =
      let d = (t + 2 ^ 32 - u.bgb_clock) % 2 ^ 31 in
      ground
        (arith, clock_diff_lem t u.bgb_clock, λ (small : d ≤ 0x1000). far (d, small, omega arith))

  -- Where the link reports to `bgb_loop_timestamp` and both agree on the last timestamp: a history
  -- of 32-bit timestamps, each of which repeats the last one that counts, lies shortly before it
  -- (up to 0x100 ticks) or shortly after it (up to 0x1000), does not ask for a reset.
  pub report_all_smooth :
      (s : Bgb (MobileUser A)) (ts : List ℕ) (u : MobileUser A)
      → s.callback_timestamp ≡ some bgb_loop_timestamp
      → s.timestamp_init ≡ true
      → s.timestamp_last ≡ u.bgb_clock
      → u.bgb_clock < 2 ^ 32
      → AreTimestamps ts
      → IsSmooth u.bgb_clock ts
      → (report_all s ts u).1.reset ≡ u.reset
  unfolding report_all
  report_all_smooth s [] u installed old same l h smooth = refl
  report_all_smooth s (t ∷ ts) u installed old same l (c, h) (inl (stale, smooth)) = ground (
    arith,
    report_timestamp_stale s bgb_loop_timestamp installed t u c old (rw same l) (rw same stale),
    report_all_smooth s ts u installed old same l h smooth,
  )
  report_all_smooth s (t ∷ ts) u installed old same l (c, h) (inr (ne, front, ahead, smooth)) =
      ground (
        arith,
        report_timestamp_fresh s bgb_loop_timestamp installed t u c old (rw same l) (rw same ne)
            (rw same front),
        timestamp_ahead t u c l ahead,
        report_all_smooth (record s { timestamp_last = t }) ts (record u { bgb_clock = t })
            installed old refl c h smooth,
      )

  -- Where the link reports to `bgb_loop_timestamp` and both agree on the last timestamp: a 32-bit
  -- timestamp that lies neither shortly before nor shortly after it asks for a reset, and becomes
  -- the last one for both.
  report_timestamp_jump :
      (s : Bgb (MobileUser A)) (t : ℕ) (u : MobileUser A)
      → s.callback_timestamp ≡ some bgb_loop_timestamp
      → s.timestamp_init ≡ true
      → s.timestamp_last ≡ u.bgb_clock
      → t < 2 ^ 32
      → u.bgb_clock < 2 ^ 32
      → ¬ IsBehind u.bgb_clock t
      → ¬ IsAhead u.bgb_clock t
      → report_timestamp s t u
        ≡ (record s { timestamp_last = t }, record u { reset = true; bgb_clock = t })
  report_timestamp_jump s t u installed old same c l front far =
      rw
        (
          report_timestamp_fresh s bgb_loop_timestamp installed t u c old (rw same l)
              (λ e. far (0, omega arith, omega arith)) (rw same front),
          timestamp_jump t u c l far,
        )
        refl
