-- ===== src/Socket.antt =====
-- source/socket.c as a Unix system compiles it (SOCKET_USE_POLL). What goes to stderr is left out, but
-- for the text of `socket_perror` (`Perror`).
pub mod Connect
pub mod Blocking
pub mod Straddr
pub mod Perror
mod Tests
use libmobile_bgb.Prelude.{
  Option, none, some, is_pos, ℕ, ◌-◌, Bool, true, false, List, [], ◌∷◌, map, ℤ, pos, negsuc,
  bit_and, bit_or, is_minus_one, is_nonpos, if◌then◌else◌,
}
use libmobile_bgb.Os.{
  Family, SockAddr, stream, Os, Errno, success, readable_or_urgent, writable, readable,
}

-- O_NONBLOCK, and `flags & ~bits`.
abbrev pub o_nonblock : ℕ
o_nonblock = 2048

abbrev pub clear_bits : ℕ → ℕ → ℕ
clear_bits flags bits = flags - bit_and flags bits

-- The flags that are written back: blocking or not, and the other bits kept.
pub blocking_flags : ℕ → Bool → ℕ
blocking_flags flags flag =
    let cleared = clear_bits flags o_nonblock in if flag then cleared else bit_or cleared o_nonblock

is_success : Errno → Bool
is_success success = true
is_success _ = false

module _ {W : Type 0} (os : Os W) where
  unfoldable pub socket_hasdata : ℕ → W → ℤ × W
  socket_hasdata sock w = os.poll ((sock, readable_or_urgent) ∷ []) 0 w

  unfoldable pub socket_isconnected : ℕ → W → ℤ × W
  unfolding is_success
  socket_isconnected sock w =
      let (rc, w1) = os.poll ((sock, writable) ∷ []) 0 w in
      if is_nonpos rc
      then (rc, w1)
      else let (err, w2) = os.get_error sock w1 in
        let w3 = os.set_errno err w2 in if is_success err then (pos 1, w3) else (negsuc 0, w3)

  unfoldable pub socket_wait : List ℕ → ℕ → W → ℤ × W
  socket_wait sockets delay w = os.poll (map (λ fd. (fd, readable)) sockets) delay w

  unfoldable pub socket_setblocking : ℕ → Bool → W → ℤ × W
  socket_setblocking sock flag w =
      let (flags, w1) = os.get_flags sock w in
      elim flags [
        | negsuc _ ↦ (negsuc 0, w1)
        | pos bits ↦
            let (rc, w2) = os.set_flags sock (blocking_flags bits flag) w1 in
            if is_minus_one rc then (negsuc 0, w2) else (pos 0, w2)
      ]

  -- The loop over the addresses, with the last error of a connect() that failed.
  unfoldable pub connect_first : List (Family × SockAddr) → Errno → W → Option ℕ × Errno × W
  connect_first [] error w = (none, error, w)
  connect_first ((family, addr) ∷ rest) error w =
      let (created, w1) = os.socket family stream (os.set_errno success w) in
      elim created [
        | none ↦ connect_first rest error w1
        | some sock ↦
            let (rc, w2) = os.connect sock (some addr) w1 in
            let failed = connect_first rest (os.errno w2) (os.close sock w2) in
            if is_pos rc 0 then (some sock, error, w2) else failed
      ]

  -- `addresses` is what getaddrinfo() gives, if it succeeds.
  unfoldable pub socket_connect : Option (List (Family × SockAddr)) → W → Option ℕ × W
  socket_connect none w = (none, w)
  socket_connect (some addresses) w =
      let (found, error, w1) = connect_first addresses success w in (found, os.set_errno error w1)
