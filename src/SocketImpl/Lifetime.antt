-- ===== src/SocketImpl/Lifetime.antt =====
-- source/socket_impl.c and the callbacks of source/main.c over it: a history of calls, from the
-- initial table to `socket_impl_stop`.
use libmobile_bgb.Prelude.{
  ℕ, ◌≡◌, refl, Bool, true, false, Option, none, some, List, [], ◌∷◌, arith, inl, inr, Option-cases,
  is_minus_one,
}
use libmobile_bgb.Os.{Os, SockAddr, in4, in6, unknown, inet, inet6, readable_or_urgent}
use libmobile_bgb.Os.Descriptors.{Descriptors}
use libmobile_bgb.Socket.{socket_hasdata, socket_setblocking}
use libmobile_bgb.SocketImpl.Types.{
  MobileAddr, SocketImpl, socket_impl_init, assert_open, convert_sockaddr,
}
use libmobile_bgb.SocketImpl.Defs.{
  socket_impl_open, straddr_world, connect_socket, socket_impl_connect, socket_impl_listen,
  socket_impl_accept, socket_impl_send, deliver_recv, finish_recv, check_recv, recv_socket,
  socket_impl_recv, socket_impl_stop,
}
use libmobile_bgb.SocketImpl.Accounts.{
  Accounts, init-Accounts, same-Accounts, open-Accounts, close-Accounts, stop-closes,
}
use libmobile_bgb.SocketImpl.Accepting.{accept-Accounts}
use libmobile_bgb.SocketImpl.Callbacks.{
  Call, sock_open, sock_close, sock_connect, sock_listen, sock_accept, sock_send, sock_recv,
  perform, perform_all,
}

module _ {W : Type 0} (os : Os W) (D : Descriptors os) where
  open D use {is_open}

  straddr_keeps :
      (a : Option SockAddr) (w : W) (d : ℕ) → is_open (straddr_world os a w) d ≡ is_open w d
  unfolding straddr_world
  straddr_keeps none w d = refl
  straddr_keeps (some (in4 port host)) w d = D.inet_ntop_keeps inet host w d
  straddr_keeps (some (in6 port host)) w d = D.inet_ntop_keeps inet6 host w d
  straddr_keeps (some unknown) w d = refl

  connect_keeps :
      (sock : ℕ) (addr : Option MobileAddr) (w : W) (d : ℕ)
      → is_open (connect_socket os sock addr w).1 d ≡ is_open w d
  unfolding connect_socket
  connect_keeps sock addr w d =
      let w1 = (os.connect sock (convert_sockaddr addr) w).1 in
      ground (
        arith,
        D.connect_keeps sock (convert_sockaddr addr) w d,
        straddr_keeps (convert_sockaddr addr) w1 d,
        D.set_errno_keeps (os.errno w1) (straddr_world os (convert_sockaddr addr) w1) d,
      )

  deliver_world :
      (has_data : Bool) (addr : Option MobileAddr) (bytes : List ℕ) (from : Option SockAddr) (w : W)
      → (deliver_recv os has_data addr bytes from w).world ≡ w
  unfolding deliver_recv
  deliver_world true addr bytes from w = refl
  deliver_world false addr bytes from w = refl

  finish_keeps :
      (sock : ℕ) (has_data : Bool) (addr : Option MobileAddr) (bytes : List ℕ)
      (from : Option SockAddr) (w : W) (d : ℕ)
      → is_open (finish_recv os sock has_data addr bytes from w).world d ≡ is_open w d
  unfolding finish_recv
  finish_keeps sock has_data addr (b ∷ bytes) from w d =
      rw (deliver_world has_data addr (b ∷ bytes) from w)
  finish_keeps sock has_data addr [] from w d =
      let w1 = (os.get_type sock w).1 in
      ground (arith, D.get_type_keeps sock w d, deliver_world has_data addr [] from w1)

  check_keeps :
      (sock : ℕ) (has_data : Bool) (addr : Option MobileAddr)
      (r : Option (List ℕ × Option SockAddr)) (w : W) (d : ℕ)
      → is_open (check_recv os sock has_data addr r w).world d ≡ is_open w d
  unfolding check_recv
  check_keeps sock has_data addr none w d = ground arith
  check_keeps sock has_data addr (some (bytes, from)) w d =
      finish_keeps sock has_data addr bytes from w d

  recv_keeps :
      (sock : ℕ) (has_data : Bool) (size : ℕ) (addr : Option MobileAddr) (w : W) (d : ℕ)
      → is_open (recv_socket os sock has_data size addr w).world d ≡ is_open w d
  unfolding recv_socket socket_hasdata
  recv_keeps sock has_data size addr w d =
      let w1 = (socket_hasdata os sock w).1 in
      let own = os.recvfrom sock size false w1 in
      let peek = os.recvfrom sock 1 true w1 in
      ground (
        arith,
        D.poll_keeps ((sock, readable_or_urgent) ∷ []) 0 w d,
        D.recvfrom_keeps sock size false w1 d,
        D.recvfrom_keeps sock 1 true w1 d,
        check_keeps sock has_data addr own.0 own.1 d,
        check_keeps sock has_data addr peek.0 peek.1 d,
      )

  -- The calls that leave the table alone open and close nothing.
  data WorldOnly (s : SocketImpl) (w : W) (r : SocketImpl × W) : Type 0 where
    world_only : r.0 ≡ s → ((d : ℕ) → is_open r.1 d ≡ is_open w d) → WorldOnly s w r

  module _ (s : SocketImpl) (w : W) (r : SocketImpl × W) (conn : ℕ) where
    connect-WorldOnly :
        (addr : Option MobileAddr)
        → perform os (sock_connect conn addr) s w ≡ some r
        → WorldOnly s w r
    unfolding perform socket_impl_connect
    connect-WorldOnly addr e = elim (Option-cases (assert_open s conn)) [
      | inl bad ↦ absurd (ground arith)
      | inr (sock, found) ↦
          world_only (ground arith) (λ d. ground (arith, connect_keeps sock addr w d))
    ]

    listen-WorldOnly : perform os (sock_listen conn) s w ≡ some r → WorldOnly s w r
    unfolding perform socket_impl_listen
    listen-WorldOnly e = elim (Option-cases (assert_open s conn)) [
      | inl bad ↦ absurd (ground arith)
      | inr (sock, found) ↦
          world_only (ground arith) (λ d. ground (arith, D.listen_keeps sock 1 w d))
    ]

    send-WorldOnly :
        (bytes : List ℕ) (addr : Option MobileAddr)
        → perform os (sock_send conn bytes addr) s w ≡ some r
        → WorldOnly s w r
    unfolding perform socket_impl_send
    send-WorldOnly bytes addr e = elim (Option-cases (assert_open s conn)) [
      | inl bad ↦ absurd (ground arith)
      | inr (sock, found) ↦
          world_only (ground arith)
            λ d. ground (arith, D.sendto_keeps sock bytes (convert_sockaddr addr) w d)
    ]

    recv-WorldOnly :
        (has_data : Bool) (size : ℕ) (addr : Option MobileAddr)
        → perform os (sock_recv conn has_data size addr) s w ≡ some r
        → WorldOnly s w r
    unfolding perform socket_impl_recv
    recv-WorldOnly has_data size addr e = elim (Option-cases (assert_open s conn)) [
      | inl bad ↦ absurd (ground arith)
      | inr (sock, found) ↦
          world_only (ground arith) (λ d. ground (arith, recv_keeps sock has_data size addr w d))
    ]

  module _ (base : ℕ → Bool)
      (never : (fd : ℕ) (v : W) → is_minus_one (socket_setblocking os fd false v).0 ≡ false) where
    kept :
        (s : SocketImpl) (w : W) (r : SocketImpl × W)
        → WorldOnly s w r
        → Accounts os D base s w
        → Accounts os D base r.0 r.1
    kept s w r (world_only e h) a = rw e (same-Accounts os D base s w r.1 h a)

    -- Where making a descriptor non-blocking never fails: a call whose assertions hold keeps the
    -- accounts, whatever it returns.
    pub perform-Accounts :
        (c : Call) (s : SocketImpl) (w : W) (r : SocketImpl × W)
        → perform os c s w ≡ some r
        → Accounts os D base s w
        → Accounts os D base r.0 r.1
    unfolding perform
    perform-Accounts (sock_open conn type addrtype port) s w r e a =
        elim (Option-cases (socket_impl_open os s conn type addrtype port w)) [
          | inl bad ↦ absurd (ground arith)
          | inr (q, found) ↦
              let result : (q.1, q.2) ≡ r = ground arith in
              rw (← result) (open-Accounts os D base s conn type addrtype port w q found a)
        ]
    perform-Accounts (sock_close conn) s w r e a = close-Accounts os D base s conn w r e a
    perform-Accounts (sock_connect conn addr) s w r e a =
        kept s w r (connect-WorldOnly s w r conn addr e) a
    perform-Accounts (sock_listen conn) s w r e a = kept s w r (listen-WorldOnly s w r conn e) a
    perform-Accounts (sock_accept conn) s w r e a =
        elim (Option-cases (socket_impl_accept os s conn w)) [
          | inl bad ↦ absurd (ground arith)
          | inr (q, found) ↦
              let result : (q.1, q.2) ≡ r = ground arith in
              rw (← result) (accept-Accounts os D base s conn w q never found a)
        ]
    perform-Accounts (sock_send conn bytes addr) s w r e a =
        kept s w r (send-WorldOnly s w r conn bytes addr e) a
    perform-Accounts (sock_recv conn has_data size addr) s w r e a =
        kept s w r (recv-WorldOnly s w r conn has_data size addr e) a

    pub perform_all-Accounts :
        (cs : List Call) (s : SocketImpl) (w : W) (r : SocketImpl × W)
        → perform_all os cs s w ≡ some r
        → Accounts os D base s w
        → Accounts os D base r.0 r.1
    unfolding perform_all
    perform_all-Accounts [] s w r e a = let e' : (s, w) ≡ r = ground arith in rw (← e') a
    perform_all-Accounts (c ∷ cs) s w r e a = elim (Option-cases (perform os c s w)) [
      | inl bad ↦ absurd (ground arith)
      | inr (q, found) ↦
          perform_all-Accounts cs q.0 q.1 r (ground arith) (perform-Accounts c s w q found a)
    ]

    -- Where making a descriptor non-blocking never fails: from `socket_impl_init` on, after any
    -- calls whose assertions hold, in whatever order and however they fail, and `socket_impl_stop`,
    -- the descriptors that are open are those that were open before.
    pub lifetime-closes :
        (n : ℕ) (cs : List Call) (w : W) (r : SocketImpl × W) (d : ℕ)
        → ((d : ℕ) → is_open w d ≡ base d)
        → perform_all os cs (socket_impl_init n) w ≡ some r
        → is_open (socket_impl_stop os r.0 r.1) d ≡ base d
    lifetime-closes n cs w r d h e =
        stop-closes os D base r.0 r.1 d
          (perform_all-Accounts cs (socket_impl_init n) w r e (init-Accounts os D base n w h))
