-- ===== src/Bgb/Clock.antt =====
-- source/bgblink.c: which timestamps of the emulator `bgb_loop` reports.
use libmobile_bgb.Prelude.{
  ℕ, ◌+◌, ◌-◌, ◌%◌, ◌^◌, ◌≤◌, ◌<◌, ◌≡◌, ◌≢◌, ◌⊎◌, refl, true, false, some, arith, bit_and_31,
}
use libmobile_bgb.Os.{Os}
use libmobile_bgb.Bgb.Packet.{
  Packet, Command, command, joypad, sync1, sync2, sync3, status, wantdisconnect, unknown,
}
use libmobile_bgb.Bgb.Link.{Bgb, clock_lag, handle_packet, report_timestamp, finish_loop}

-- The clock `cur` lies at most 0x100 ticks before `last`, on a clock of 31 bits.
abbrev pub IsBehind : ℕ → ℕ → Type 0
IsBehind last cur = (d : ℕ) × (1 ≤ d) × (d ≤ 0x100) × ((cur + d) % 2 ^ 31 ≡ last % 2 ^ 31)

clock_lag_lem : (last cur : ℕ) → clock_lag last cur ≡ (last + 2 ^ 32 - cur) % 2 ^ 32 % 2 ^ 31
unfolding clock_lag
clock_lag_lem last cur = bit_and_31 _

IsBehind-clock_lag :
    (last cur : ℕ)
    → last < 2 ^ 32
    → cur < 2 ^ 32
    → 1 ≤ clock_lag last cur
    → clock_lag last cur ≤ 0x100
    → IsBehind last cur
IsBehind-clock_lag last cur l c low high =
    (clock_lag last cur, low, high, omega (arith, clock_lag_lem last cur))

clock_lag-IsBehind :
    (last cur : ℕ)
    → last < 2 ^ 32
    → cur < 2 ^ 32
    → IsBehind last cur
    → (1 ≤ clock_lag last cur) × (clock_lag last cur ≤ 0x100)
clock_lag-IsBehind last cur l c (d, low, high, e) = omega (arith, clock_lag_lem last cur)

clock_lag_self : (t : ℕ) → t < 2 ^ 32 → clock_lag t t ≡ 0
clock_lag_self t h = omega (arith, clock_lag_lem t t)

module _ {W : Type 0} (s : Bgb W) (callback : ℕ → W → W)
    (installed : s.callback_timestamp ≡ some callback) (cur : ℕ) (w : W) (fits : cur < 2 ^ 32) where
  -- The first timestamp is reported once and remembered, whatever it is.
  pub report_timestamp_first :
      s.timestamp_init ≡ false
      → report_timestamp s cur w
        ≡ (record s { timestamp_last = cur; timestamp_init = true }, callback cur w)
  unfolding report_timestamp
  report_timestamp_first new = ground (arith, clock_lag_self cur fits)

  -- A timestamp that repeats the last one, or lies at most 0x100 ticks before it, changes nothing.
  pub report_timestamp_stale :
      s.timestamp_init ≡ true
      → s.timestamp_last < 2 ^ 32
      → (cur ≡ s.timestamp_last) ⊎ IsBehind s.timestamp_last cur
      → report_timestamp s cur w ≡ (s, w)
  unfolding report_timestamp
  report_timestamp_stale old bound stale =
      ground (arith, clock_lag_self cur fits, clock_lag-IsBehind s.timestamp_last cur bound fits)

  -- Any other timestamp is reported once and remembered.
  pub report_timestamp_fresh :
      s.timestamp_init ≡ true
      → s.timestamp_last < 2 ^ 32
      → cur ≢ s.timestamp_last
      → ¬ IsBehind s.timestamp_last cur
      → report_timestamp s cur w ≡ (record s { timestamp_last = cur }, callback cur w)
  unfolding report_timestamp
  report_timestamp_fresh old bound ne ahead =
      ground (arith, IsBehind-clock_lag s.timestamp_last cur bound fits)

-- The packets whose timestamp `bgb_loop` does not read.
abbrev pub IsUntimed : Command → Type 0
IsUntimed joypad = Unit
IsUntimed sync2 = Unit
IsUntimed status = Unit
IsUntimed wantdisconnect = Unit
IsUntimed _ = ⊥

module _ {W : Type 0} (os : Os W) (s : Bgb W) (p : Packet) (callback : ℕ → W → W) (w : W) where
  handle_untimed :
      (c : Command)
      → command p.cmd ≡ c
      → IsUntimed c
      → handle_packet os s p w ≡ (some s.timestamp_last, s, w)
  unfolding handle_packet
  handle_untimed joypad e untimed = ground arith
  handle_untimed sync1 e untimed = absurd untimed
  handle_untimed sync2 e untimed = ground arith
  handle_untimed sync3 e untimed = absurd untimed
  handle_untimed status e untimed = ground arith
  handle_untimed wantdisconnect e untimed = ground arith
  handle_untimed unknown e untimed = absurd untimed

  -- Where the timestamp callback is installed, no timestamp was reported, and the last one in the
  -- state fits 32 bits: a JOYPAD, SYNC2, STATUS or WANTDISCONNECT packet has that last one of the
  -- state reported, whatever timestamp the packet carries, and the clock counts as initialised.
  pub untimed_first :
      s.callback_timestamp ≡ some callback
      → s.timestamp_init ≡ false
      → s.timestamp_last < 2 ^ 32
      → IsUntimed (command p.cmd)
      → finish_loop (handle_packet os s p w)
        ≡ (true, record s { timestamp_init = true }, callback s.timestamp_last w)
  unfolding finish_loop
  untimed_first installed new fits untimed = ground (
    arith,
    handle_untimed (command p.cmd) refl untimed,
    report_timestamp_first s callback installed s.timestamp_last w fits new,
  )
