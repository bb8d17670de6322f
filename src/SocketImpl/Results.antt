-- ===== src/SocketImpl/Results.antt =====
-- source/socket_impl.c: which calls pass the assertions, what a receive returns and stores, and
-- the two conversions of addresses.
use mathlib.Core.Option
use libmobile_bgb.Prelude.{
  ◌↔◌, ℕ, ◌<◌, ◌^◌, ◌≡◌, ◌≢◌, refl, Bool, true, false, Option, none, some, List, [], ◌∷◌, arith,
  length, get_elem?, Option-cases, ◌⊎◌, inl, inr, pos, negsuc,
}
use libmobile_bgb.Os.{Os, SockAddr}
use libmobile_bgb.Socket.{socket_hasdata}
use libmobile_bgb.SocketImpl.Types.{
  other_type, other_addrtype, MobileAddr, addr4, addr6, addr_other, SocketImpl, Received,
  convert_sockaddr, store_sockaddr, swap16, sock_type, sock_addrtype, assert_open, assert_closed,
}
use libmobile_bgb.SocketImpl.Defs.{
  socket_impl_open, socket_impl_close, socket_impl_connect, socket_impl_listen, socket_impl_accept,
  socket_impl_send, socket_impl_recv, deliver_recv, finish_recv, check_recv, recv_socket,
}
use libmobile_bgb.SocketImpl.Accounts.{assert_open_slot}
use libmobile_bgb.SocketImpl.Callbacks.{
  Call, sock_open, sock_close, sock_connect, sock_listen, sock_accept, sock_send, sock_recv,
  perform,
}

-- The slot that a call works on.
unfoldable pub slot_of : Call → ℕ
slot_of (sock_open conn type addrtype port) = conn
slot_of (sock_close conn) = conn
slot_of (sock_connect conn addr) = conn
slot_of (sock_listen conn) = conn
slot_of (sock_accept conn) = conn
slot_of (sock_send conn bytes addr) = conn
slot_of (sock_recv conn has_data size addr) = conn

-- A call as the assertions want it: it opens an empty slot, as a known kind of socket, or it works
-- on a slot that is open.
abbrev pub IsAllowed : Call → SocketImpl → Type 0
IsAllowed (sock_open conn type addrtype port) s =
    (get_elem? s.sockets conn ≡ some none) × (type ≢ other_type) × (addrtype ≢ other_addrtype)
IsAllowed c s = (fd : ℕ) × (get_elem? s.sockets (slot_of c) ≡ some (some fd))

module _ {W : Type 0} (os : Os W) where
  perform-total : (c : Call) (s : SocketImpl) (w : W) → IsAllowed c s → perform os c s w ≢ none
  unfolding perform socket_impl_open assert_closed sock_type sock_addrtype assert_open slot_of
      socket_impl_close socket_impl_connect socket_impl_listen socket_impl_accept socket_impl_send
      socket_impl_recv
  perform-total (sock_open conn type addrtype port) s w h = ground arith
  perform-total _ s w h = ground arith

  assert_open-IsAllowed :
      (s : SocketImpl) (conn : ℕ)
      → assert_open s conn ≢ none
      → (fd : ℕ) × (get_elem? s.sockets conn ≡ some (some fd))
  assert_open-IsAllowed s conn h = elim (Option-cases (assert_open s conn)) [
    | inl e ↦ absurd (h e)
    | inr (fd, e) ↦ (fd, assert_open_slot s conn fd e)
  ]

  perform_inverts : (c : Call) (s : SocketImpl) (w : W) → perform os c s w ≢ none → IsAllowed c s
  unfolding perform socket_impl_open assert_closed sock_type sock_addrtype slot_of socket_impl_close
      socket_impl_connect socket_impl_listen socket_impl_accept socket_impl_send socket_impl_recv
  perform_inverts (sock_open conn type addrtype port) s w h =
      (ground arith, ground arith, ground arith)
  perform_inverts c s w h = assert_open-IsAllowed s (slot_of c) (ground arith)

  -- A call passes its assertions exactly if it opens a slot of the table that is closed, of a known
  -- type and address family, or works on a slot that is open.
  pub perform-IsAllowed :
      (c : Call) (s : SocketImpl) (w : W) → (perform os c s w ≢ none) ↔ IsAllowed c s
  perform-IsAllowed c s w = (perform_inverts c s w, perform-total c s w)

-- An address whose port fits 16 bits.
abbrev pub IsAddr : MobileAddr → Type 0
IsAddr (addr4 port host) = port < 2 ^ 16
IsAddr (addr6 port host) = port < 2 ^ 16
IsAddr addr_other = ⊥

-- An address of a known family, with a port of 16 bits, that is passed to the system and comes back
-- as a sender's is stored as the same address.
pub store-convert_sockaddr :
    (dest a : MobileAddr)
    → IsAddr a
    → Option.map (store_sockaddr dest) (convert_sockaddr (some a)) ≡ some a
unfolding store_sockaddr convert_sockaddr swap16
store-convert_sockaddr dest (addr4 port host) h = ground arith
store-convert_sockaddr dest (addr6 port host) h = ground arith
store-convert_sockaddr dest addr_other h = absurd h

-- What a receive can report: as many bytes as it stored, or that the remote has disconnected (-2)
-- or an error (-1), with nothing stored.
abbrev pub IsReport : {W : Type 0} → Received W → Type 0
IsReport r =
    (r.result ≡ pos (length r.stored))
    ⊎ (((r.result ≡ negsuc 1) ⊎ (r.result ≡ negsuc 0)) × (r.stored ≡ []))

-- A check for data: it stores nothing, and reports 0, -1 or -2.
abbrev pub IsCheck : {W : Type 0} → Option MobileAddr → Received W → Type 0
IsCheck addr r =
    ((r.result ≡ pos 0) ⊎ ((r.result ≡ negsuc 1) ⊎ (r.result ≡ negsuc 0)))
    × (r.stored ≡ [])
    × (r.addr ≡ addr)

-- What a receive reports, with a buffer or without.
abbrev pub IsReceipt : {W : Type 0} → Bool → Option MobileAddr → Received W → Type 0
IsReceipt true addr r = IsReport r
IsReceipt false addr r = IsReport r × IsCheck addr r

module _ {W : Type 0} (os : Os W) where
  finish-IsReport :
      (sock : ℕ) (has_data : Bool) (addr : Option MobileAddr) (bs : List ℕ) (from : Option SockAddr)
      (w : W)
      → IsReport (finish_recv os sock has_data addr bs from w)
  unfolding finish_recv deliver_recv
  finish-IsReport sock true addr (b ∷ bs) from w = inl refl
  finish-IsReport sock false addr (b ∷ bs) from w = inl refl
  finish-IsReport sock true addr [] from w = ground arith
  finish-IsReport sock false addr [] from w = ground arith

  check-IsReport :
      (sock : ℕ) (has_data : Bool) (addr : Option MobileAddr)
      (r : Option (List ℕ × Option SockAddr)) (w : W)
      → IsReport (check_recv os sock has_data addr r w)
  unfolding check_recv
  check-IsReport sock has_data addr none w = ground arith
  check-IsReport sock has_data addr (some (bs, from)) w =
      finish-IsReport sock has_data addr bs from w

  finish-IsCheck :
      (sock : ℕ) (addr : Option MobileAddr) (bs : List ℕ) (from : Option SockAddr) (w : W)
      → IsCheck addr (finish_recv os sock false addr bs from w)
  unfolding finish_recv deliver_recv
  finish-IsCheck sock addr (b ∷ bs) from w = ground arith
  finish-IsCheck sock addr [] from w = ground arith

  check_recv-IsCheck :
      (sock : ℕ) (addr : Option MobileAddr) (r : Option (List ℕ × Option SockAddr)) (w : W)
      → IsCheck addr (check_recv os sock false addr r w)
  unfolding check_recv
  check_recv-IsCheck sock addr none w = ground arith
  check_recv-IsCheck sock addr (some (bs, from)) w = finish-IsCheck sock addr bs from w

  -- A receive on an open slot is `recv_socket` on its descriptor.
  recv_inverts :
      (s : SocketImpl) (conn : ℕ) (has_data : Bool) (size : ℕ) (addr : Option MobileAddr) (w : W)
      (r : Received W)
      → socket_impl_recv os s conn has_data size addr w ≡ some r
      → (sock : ℕ) × (recv_socket os sock has_data size addr w ≡ r)
  unfolding socket_impl_recv
  recv_inverts s conn has_data size addr w r e = elim (Option-cases (assert_open s conn)) [
    | inl bad ↦ absurd (ground arith)
    | inr (sock, found) ↦ (sock, ground arith)
  ]

  recv_socket-IsReport :
      (sock : ℕ) (has_data : Bool) (size : ℕ) (addr : Option MobileAddr) (w : W)
      → IsReport (recv_socket os sock has_data size addr w)
  unfolding recv_socket socket_hasdata
  recv_socket-IsReport sock true size addr w =
      let got = os.recvfrom sock size false (socket_hasdata os sock w).1 in
      ground (arith, check-IsReport sock true addr got.0 got.1)
  recv_socket-IsReport sock false size addr w =
      let got = os.recvfrom sock 1 true (socket_hasdata os sock w).1 in
      ground (arith, check-IsReport sock false addr got.0 got.1)

  recv_socket-IsCheck :
      (sock size : ℕ) (addr : Option MobileAddr) (w : W)
      → IsCheck addr (recv_socket os sock false size addr w)
  unfolding recv_socket socket_hasdata
  recv_socket-IsCheck sock size addr w =
      let got = os.recvfrom sock 1 true (socket_hasdata os sock w).1 in
      ground (arith, check_recv-IsCheck sock addr got.0 got.1)

  -- A receive that passes its assertion reports as many bytes as it stored, or -1 or -2 with
  -- nothing stored. Without a buffer it stores no bytes, leaves the address as it was, and reports
  -- 0, -1 or -2.
  pub recv-IsReport :
      (s : SocketImpl) (conn : ℕ) (has_data : Bool) (size : ℕ) (addr : Option MobileAddr) (w : W)
      (r : Received W)
      → socket_impl_recv os s conn has_data size addr w ≡ some r
      → IsReceipt has_data addr r
  recv-IsReport s conn true size addr w r e =
      let (sock, result) = recv_inverts s conn true size addr w r e in
      rw (← result) (recv_socket-IsReport sock true size addr w)
  recv-IsReport s conn false size addr w r e =
      let (sock, result) = recv_inverts s conn false size addr w r e in
      (
        rw (← result) (recv_socket-IsReport sock false size addr w),
        rw (← result) (recv_socket-IsCheck sock size addr w),
      )
