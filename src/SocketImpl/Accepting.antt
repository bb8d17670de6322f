-- ===== src/SocketImpl/Accepting.antt =====
-- source/socket_impl.c: `socket_impl_accept`, and what it does to the descriptors that are open.
use libmobile_bgb.Prelude.{
  ℕ, ◌≡◌, Bool, true, false, not, ◌&&◌, ◌||◌, some, arith, get_elem?, set, ◌==◌, inl, inr,
  Option-cases, Bool-cases, is_minus_one, is_nonpos,
}
use libmobile_bgb.Os.{Os}
use libmobile_bgb.Os.Descriptors.{Descriptors}
use libmobile_bgb.Socket.{socket_hasdata, socket_setblocking}
use libmobile_bgb.SocketImpl.Types.{SocketImpl, assert_open}
use libmobile_bgb.SocketImpl.Defs.{accept_socket, socket_impl_accept}
use libmobile_bgb.SocketImpl.Slots.{holds, holds_of_slot, holds-set_filled, set_filled-AreDistinct}
use libmobile_bgb.SocketImpl.Opening.{setblocking_keeps}
use libmobile_bgb.SocketImpl.Accounts.{Accounts, assert_open_slot, same-Accounts, absent_of_fresh}

module _ {W : Type 0} (os : Os W) (D : Descriptors os) where
  open D use {is_open}

  hasdata_keeps : (sock : ℕ) (w : W) (d : ℕ) → is_open (socket_hasdata os sock w).1 d ≡ is_open w d
  unfolding socket_hasdata
  hasdata_keeps sock w d = D.poll_keeps _ _ w d

  -- What an accepted connection does: it replaces the listening socket in its slot, which is
  -- closed; or it is lost; or there is none.
  pub data Accepted (s : SocketImpl) (conn sock : ℕ) (w : W) (r : Bool × SocketImpl × W)
      : Type 0 where
    refused :
        r.0 ≡ false → r.1 ≡ s → ((d : ℕ) → is_open r.2 d ≡ is_open w d) → Accepted s conn sock w r
    lost :
        (fd : ℕ)
        → r.0 ≡ false
        → r.1 ≡ s
        → is_open w fd ≡ false
        → is_minus_one
            (socket_setblocking os fd false (os.accept sock (socket_hasdata os sock w).1).1).0
          ≡ true
        → ((d : ℕ) → is_open r.2 d ≡ (d == fd || is_open w d))
        → Accepted s conn sock w r
    replaced :
        (fd : ℕ)
        → r.0 ≡ true
        → r.1 ≡ record { sockets = set s.sockets conn (some fd) }
        → is_open w fd ≡ false
        → ((d : ℕ) → is_open r.2 d ≡ (not (d == sock) && (d == fd || is_open w d)))
        → Accepted s conn sock w r

  accept_socket-Accepted :
      (s : SocketImpl) (conn sock : ℕ) (w : W)
      → Accepted s conn sock w (accept_socket os s conn sock w)
  unfolding accept_socket
  accept_socket-Accepted s conn sock w =
      let w1 = (socket_hasdata os sock w).1 in
      let w2 = (os.accept sock w1).1 in
      elim (Bool-cases (is_nonpos (socket_hasdata os sock w).0)) [
        | inl quiet ↦
            refused (ground arith) (ground arith) λ d. ground (arith, hasdata_keeps sock w d)
        | inr ready ↦ elim (Option-cases (os.accept sock w1).0) [
          | inl e ↦
              refused (ground arith) (ground arith)
                λ d. ground (arith, hasdata_keeps sock w d, D.accept_opens sock w1 d)
          | inr (fd, e) ↦
              let w3 = (socket_setblocking os fd false w2).1 in
              let new : is_open w fd ≡ false =
                ground (arith, hasdata_keeps sock w fd, D.accept_fresh sock w1 fd e) in
              elim (Bool-cases (is_minus_one (socket_setblocking os fd false w2).0)) [
                | inl bad ↦ lost fd (ground arith) (ground arith) new bad λ d. ground (
                  arith,
                  hasdata_keeps sock w d,
                  D.accept_opens sock w1 d,
                  setblocking_keeps os D fd false w2 d,
                )
                | inr good ↦ replaced fd (ground arith) (ground arith) new λ d. ground (
                  arith,
                  hasdata_keeps sock w d,
                  D.accept_opens sock w1 d,
                  setblocking_keeps os D fd false w2 d,
                  D.close_closes sock w3 d,
                )
              ]
        ]
      ]

  module _ (base : ℕ → Bool) where
    replaced-Accounts :
        (s : SocketImpl) (conn sock fd : ℕ) (w w' : W)
        → get_elem? s.sockets conn ≡ some (some sock)
        → is_open w fd ≡ false
        → ((d : ℕ) → is_open w' d ≡ (not (d == sock) && (d == fd || is_open w d)))
        → Accounts os D base s w
        → Accounts os D base (record { sockets = set s.sockets conn (some fd) }) w'
    replaced-Accounts s conn sock fd w w' slot new h a =
        let absent = absent_of_fresh os D base s w fd a new in
        let held = holds_of_slot s.sockets conn sock slot in
        let table = holds-set_filled s.sockets conn sock fd slot a.distinct in
        record {
          owned = λ d.
              ground
                (arith, h d, a.owned d, a.owned sock, a.foreign sock held, absent, held, table d);
          foreign = λ d e. ground (arith, a.foreign d, absent, table d);
          distinct = set_filled-AreDistinct s.sockets conn sock fd slot a.distinct absent.0;
        }

    -- `socket_impl_accept` keeps the accounts where making a socket non-blocking does not fail.
    pub accept-Accounts :
        (s : SocketImpl) (conn : ℕ) (w : W) (r : Bool × SocketImpl × W)
        → ((fd : ℕ) (v : W) → is_minus_one (socket_setblocking os fd false v).0 ≡ false)
        → socket_impl_accept os s conn w ≡ some r
        → Accounts os D base s w
        → Accounts os D base r.1 r.2
    unfolding socket_impl_accept
    accept-Accounts s conn w r never e a = elim (Option-cases (assert_open s conn)) [
      | inl bad ↦ absurd (ground arith)
      | inr (sock, found) ↦
          let result : accept_socket os s conn sock w ≡ r = ground arith in
          go sock (assert_open_slot s conn sock found)
            (rw result at (accept_socket-Accepted s conn sock w))
    ]
      where
        go :
            (sock : ℕ)
            → get_elem? s.sockets conn ≡ some (some sock)
            → Accepted s conn sock w r
            → Accounts os D base r.1 r.2
        go sock slot (refused f e' h) = rw e' (same-Accounts os D base s w r.2 h a)
        go sock slot (lost fd f e' new bad h) =
            absurd (ground (arith, never fd (os.accept sock (socket_hasdata os sock w).1).1))
        go sock slot (replaced fd o e' new h) =
            rw e' (replaced-Accounts s conn sock fd w r.2 slot new h a)

    -- Where the accounts are right, a connection is waiting and is accepted, and it cannot be made
    -- non-blocking, `socket_impl_accept` returns false, and the new descriptor stays open although
    -- no slot holds it.
    pub accept-leaks :
        (s : SocketImpl) (conn sock fd : ℕ) (w : W)
        → Accounts os D base s w
        → assert_open s conn ≡ some sock
        → is_nonpos (socket_hasdata os sock w).0 ≡ false
        → (os.accept sock (socket_hasdata os sock w).1).0 ≡ some fd
        → is_minus_one
            (socket_setblocking os fd false (os.accept sock (socket_hasdata os sock w).1).1).0
          ≡ true
        → (r : Bool × SocketImpl × W) × (socket_impl_accept os s conn w ≡ some r)
          × (r.0 ≡ false)
          × (is_open r.2 fd ≡ true)
          × (holds r.1.sockets fd ≡ false)
          × (base fd ≡ false)
    unfolding socket_impl_accept accept_socket
    accept-leaks s conn sock fd w a found ready e bad =
        let w1 = (socket_hasdata os sock w).1 in
        let w2 = (os.accept sock w1).1 in
        let new : is_open w fd ≡ false =
          ground (arith, hasdata_keeps sock w fd, D.accept_fresh sock w1 fd e) in
        let absent = absent_of_fresh os D base s w fd a new in
        (
          accept_socket os s conn sock w,
          ground arith,
          ground arith,
          ground (arith, D.accept_opens sock w1 fd, setblocking_keeps os D fd false w2 fd),
          ground (arith, absent),
          absent.1,
        )
