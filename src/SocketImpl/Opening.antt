-- ===== src/SocketImpl/Opening.antt =====
-- source/socket_impl.c: what `socket_impl_open` does to the descriptors that are open.
use libmobile_bgb.Prelude.{
  ℕ, ◌≡◌, refl, ap, Bool, true, false, not, ◌&&◌, ◌||◌, some, arith, set, ◌==◌, if◌then◌else◌, inl,
  inr, Option-cases, Bool-cases,
}
use libmobile_bgb.Os.{Os, Family, SockType, stream, dgram, reuse_addr}
use libmobile_bgb.Os.Descriptors.{Descriptors}
use libmobile_bgb.Socket.{socket_setblocking}
use libmobile_bgb.SocketImpl.Types.{SocketImpl, bind_addr}
use libmobile_bgb.SocketImpl.Defs.{set_no_delay, prepare, open_socket}

module _ {W : Type 0} (os : Os W) (D : Descriptors os) where
  open D use {is_open}

  pub setblocking_keeps :
      (sock : ℕ) (flag : Bool) (w : W) (d : ℕ)
      → is_open (socket_setblocking os sock flag w).1 d ≡ is_open w d
  unfolding socket_setblocking
  setblocking_keeps sock flag w d = grind (arith, D.get_flags_keeps, D.set_flags_keeps)

  no_delay_keeps :
      (t : SockType) (sock : ℕ) (w : W) (d : ℕ)
      → is_open (set_no_delay os t sock w).1 d ≡ is_open w d
  unfolding set_no_delay
  no_delay_keeps stream sock w d = D.setsockopt_keeps _ _ _ w d
  no_delay_keeps dgram sock w d = refl

  -- A socket that cannot be prepared is closed, and nothing else is.
  prepare_effect :
      (t : SockType) (f : Family) (port sock : ℕ) (w : W) (d : ℕ)
      → is_open (prepare os t f port sock w).1 d
        ≡ (if (prepare os t f port sock w).0 then is_open w d else not (d == sock) && is_open w d)
  unfolding prepare
  prepare_effect t f port sock w d =
      let w1 = (socket_setblocking os sock false w).1 in
      let w2 = (os.setsockopt sock reuse_addr 1 w1).1 in
      let w3 = (set_no_delay os t sock w2).1 in
      let w4 = (os.bind sock (bind_addr f port) w3).1 in
      ground (
        arith,
        setblocking_keeps sock false w d,
        D.setsockopt_keeps sock reuse_addr 1 w1 d,
        no_delay_keeps t sock w2 d,
        D.bind_keeps sock (bind_addr f port) w3 d,
        D.close_closes sock w1 d,
        D.close_closes sock w2 d,
        D.close_closes sock w3 d,
        D.close_closes sock w4 d,
      )

  -- Opening a connection opens at most one descriptor, which was not open. If it succeeds, the
  -- descriptor is open and stands in the slot; if not, the table and the open descriptors are as
  -- they were.
  pub data Opened (s : SocketImpl) (conn : ℕ) (w : W) (r : Bool × SocketImpl × W) : Type 0 where
    failed : r.0 ≡ false → r.1 ≡ s → ((d : ℕ) → is_open r.2 d ≡ is_open w d) → Opened s conn w r
    opened :
        (fd : ℕ)
        → r.0 ≡ true
        → is_open w fd ≡ false
        → r.1 ≡ record { sockets = set s.sockets conn (some fd) }
        → ((d : ℕ) → is_open r.2 d ≡ (d == fd || is_open w d))
        → Opened s conn w r

  pub open_socket-Opened :
      (s : SocketImpl) (conn : ℕ) (t : SockType) (f : Family) (port : ℕ) (w : W)
      → Opened s conn w (open_socket os s conn t f port w)
  unfolding open_socket
  open_socket-Opened s conn t f port w = elim (Option-cases (os.socket f t w).0) [
    | inl e ↦ failed (ground arith) (ground arith) (λ d. ground (arith, D.socket_opens f t w d))
    | inr (fd, e) ↦
        let w1 = (os.socket f t w).1 in
        elim (Bool-cases (prepare os t f port fd w1).0) [
          | inl ok ↦
              opened fd (ground arith) (D.socket_fresh f t w fd e) (ground arith)
                λ d. ground (arith, D.socket_opens f t w d, prepare_effect t f port fd w1 d)
          | inr bad ↦ failed (ground arith) (ground arith) λ d. ground (
            arith,
            D.socket_opens f t w d,
            D.socket_fresh f t w fd e,
            prepare_effect t f port fd w1 d,
            ap (is_open w) {x = d} {y = fd},
          )
        ]
  ]
