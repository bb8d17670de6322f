-- ===== src/Socket/Blocking.antt =====
-- source/socket.c: the file status flags that `socket_setblocking` writes.
use libmobile_bgb.Prelude.{
  ℕ, ◌*◌, ◌/◌, ◌%◌, ◌≡◌, refl, Bool, true, false, ℤ, pos, negsuc, arith, bit_and, is_minus_one,
  from_bit, bit_and-power, bit_or-power, if◌then◌else◌,
}
use libmobile_bgb.Os.{Os}
use libmobile_bgb.Socket.{blocking_flags, clear_bits, o_nonblock, socket_setblocking}

-- The flags `new` are the flags `old`, with O_NONBLOCK (bit 11) as `flag` wants it.
abbrev pub SetsBlocking : Bool → ℕ → ℕ → Type 0
SetsBlocking flag old new =
    (new / 2048 % 2 ≡ (if flag then 0 else 1))
    × (new % 2048 ≡ old % 2048)
    × (new / 4096 ≡ old / 4096)

nonblock_bit : (flags : ℕ) → bit_and flags 2048 ≡ flags / 2048 % 2 * 2048
nonblock_bit flags = omega (arith, bit_and-power 11 flags)

blocking_flags-SetsBlocking :
    (flags : ℕ) (flag : Bool) → SetsBlocking flag flags (blocking_flags flags flag)
unfolding blocking_flags
blocking_flags-SetsBlocking flags true = omega (arith, nonblock_bit flags)
blocking_flags-SetsBlocking flags false =
    let cleared = clear_bits flags o_nonblock in
    let clear : from_bit 11 cleared % 2 ≡ 0 = omega (arith, nonblock_bit flags) in
    omega (arith, nonblock_bit flags, bit_or-power 11 cleared clear)

module _ {W : Type 0} (os : Os W) where
  -- Where F_GETFL gives the flags that F_SETFL has set: if `socket_setblocking` returns 0, the
  -- socket has the flags that it had before, but for O_NONBLOCK, which is set exactly if `flag` is
  -- false.
  pub setblocking-SetsBlocking :
      (sock : ℕ) (flag : Bool) (w : W)
      → ((bits : ℕ) (v : W)
          → is_minus_one (os.set_flags sock bits v).0 ≡ false
          → (os.get_flags sock (os.set_flags sock bits v).1).0 ≡ pos bits)
      → (socket_setblocking os sock flag w).0 ≡ pos 0
      → (old : ℕ) × (new : ℕ) × ((os.get_flags sock w).0 ≡ pos old)
        × ((os.get_flags sock (socket_setblocking os sock flag w).1).0 ≡ pos new)
        × SetsBlocking flag old new
  unfolding socket_setblocking
  setblocking-SetsBlocking sock flag w law h = go (os.get_flags sock w).0 refl
    where
      go :
          (r : ℤ)
          → (os.get_flags sock w).0 ≡ r
          → (old : ℕ) × (new : ℕ) × ((os.get_flags sock w).0 ≡ pos old)
            × ((os.get_flags sock (socket_setblocking os sock flag w).1).0 ≡ pos new)
            × SetsBlocking flag old new
      go (negsuc n) e = absurd (ground arith)
      go (pos flags) e =
          let w1 = (os.get_flags sock w).1 in
          let bits = blocking_flags flags flag in
          let kept = law bits w1 in
          (flags, bits, e, ground arith, blocking_flags-SetsBlocking flags flag)
