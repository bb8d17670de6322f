-- ===== src/SocketImpl/Defs.antt =====
-- source/socket_impl.c, operation by operation. The message of
-- `connect_socket` is `connect_message` of SocketImpl/Messages; the others, on stderr too, are left out.
use libmobile_bgb.Prelude.{
  ℕ, Bool, true, false, Option, none, some, List, [], ◌∷◌, ℤ, pos, negsuc, is_minus_one, is_nonpos,
  set, length, if◌then◌else◌,
}
use libmobile_bgb.Os.{
  Os, in4, in6, unknown, inet, inet6, Family, SockType, stream, dgram, SockAddr, reuse_addr,
  no_delay,
}
use libmobile_bgb.Socket.{socket_hasdata, socket_setblocking}
use libmobile_bgb.SocketImpl.Types.{
  MobileSockType, MobileAddrType, MobileAddr, SocketImpl, Received, convert_sockaddr,
  store_sockaddr, sock_type, sock_addrtype, bind_addr, assert_open, assert_closed, ◌>>=◌, ◌>>◌,
  is_pending, is_connected, is_would_block,
}

module _ {W : Type 0} (os : Os W) where
  unfoldable pub stop_all : List (Option ℕ) → W → W
  stop_all [] w = w
  stop_all (none ∷ rest) w = stop_all rest w
  stop_all (some fd ∷ rest) w = stop_all rest (os.close fd w)

  unfoldable pub socket_impl_stop : SocketImpl → W → W
  unfolding stop_all
  socket_impl_stop s w = stop_all s.sockets w

  unfoldable pub set_no_delay : SockType → ℕ → W → ℤ × W
  set_no_delay stream sock w = os.setsockopt sock no_delay 1 w
  set_no_delay dgram sock w = (pos 0, w)

  -- What `socket_impl_open` does with a new socket; it is closed where this fails.
  unfoldable pub prepare : SockType → Family → ℕ → ℕ → W → Bool × W
  unfolding set_no_delay
  prepare type family bindport sock w =
      let (blocking, w1) = socket_setblocking os sock false w in
      if is_minus_one blocking
      then (false, os.close sock w1)
      else let (reuse, w2) = os.setsockopt sock reuse_addr 1 w1 in
        if is_minus_one reuse
        then (false, os.close sock w2)
        else let (delay, w3) = set_no_delay type sock w2 in
          if is_minus_one delay
          then (false, os.close sock w3)
          else let (rc, w4) = os.bind sock (bind_addr family bindport) w3 in
            if is_minus_one rc then (false, os.close sock w4) else (true, w4)

  -- After the assertions.
  unfoldable pub open_socket : SocketImpl → ℕ → SockType → Family → ℕ → W → Bool × SocketImpl × W
  open_socket s conn type family bindport w =
      let (created, w1) = os.socket family type w in
      elim created [
        | none ↦ (false, s, w1)
        | some sock ↦
            let (ok, w2) = prepare type family bindport sock w1 in
            if ok
            then (true, record { sockets = set s.sockets conn (some sock) }, w2)
            else (false, s, w2)
      ]

  unfoldable pub socket_impl_open :
      SocketImpl → ℕ → MobileSockType → MobileAddrType → ℕ → W → Option (Bool × SocketImpl × W)
  socket_impl_open s conn type addrtype bindport w = do
    assert_closed s conn
    t ← sock_type type
    a ← sock_addrtype addrtype
    some (open_socket s conn t a bindport w)

  unfoldable pub socket_impl_close : SocketImpl → ℕ → W → Option (SocketImpl × W)
  socket_impl_close s conn w = do
    sock ← assert_open s conn
    some (record { sockets = set s.sockets conn none }, os.close sock w)

  -- What `socket_straddr` leaves: it calls inet_ntop() for an address of a known family.
  unfoldable pub straddr_world : Option SockAddr → W → W
  straddr_world none w = w
  straddr_world (some (in4 port host)) w = os.inet_ntop_world inet host w
  straddr_world (some (in6 port host)) w = os.inet_ntop_world inet6 host w
  straddr_world (some unknown) w = w

  -- Before -1 there is the message, which reads a null pointer where there is no address to pass.
  unfoldable pub connect_socket : ℕ → Option MobileAddr → W → ℤ × W
  connect_socket sock addr w =
      let (rc, w1) = os.connect sock (convert_sockaddr addr) w in
      let err = os.errno w1 in
      if is_minus_one rc
      then (if is_pending err
          then (pos 0, w1)
          else if is_connected err
          then (pos 1, w1)
          else (negsuc 0, os.set_errno err (straddr_world (convert_sockaddr addr) w1)))
      else (pos 1, w1)

  unfoldable pub socket_impl_connect : SocketImpl → ℕ → Option MobileAddr → W → Option (ℤ × W)
  socket_impl_connect s conn addr w = do
    sock ← assert_open s conn
    some (connect_socket sock addr w)

  unfoldable pub socket_impl_listen : SocketImpl → ℕ → W → Option (Bool × W)
  socket_impl_listen s conn w = do
    sock ← assert_open s conn
    let (rc, w1) = os.listen sock 1 w
    some (if is_minus_one rc then false else true, w1)

  unfoldable pub accept_socket : SocketImpl → ℕ → ℕ → W → Bool × SocketImpl × W
  accept_socket s conn sock w =
      let (ready, w1) = socket_hasdata os sock w in
      if is_nonpos ready
      then (false, s, w1)
      else let (accepted, w2) = os.accept sock w1 in
        elim accepted [
          | none ↦ (false, s, w2)
          | some newsock ↦
              let (blocking, w3) = socket_setblocking os newsock false w2 in
              if is_minus_one blocking
              then (false, s, w3)
              else (true, record { sockets = set s.sockets conn (some newsock) }, os.close sock w3)
        ]

  unfoldable pub socket_impl_accept : SocketImpl → ℕ → W → Option (Bool × SocketImpl × W)
  socket_impl_accept s conn w = do sock ← assert_open s conn; some (accept_socket s conn sock w)

  unfoldable pub socket_impl_send : SocketImpl → ℕ → List ℕ → Option MobileAddr → W → Option (ℤ × W)
  socket_impl_send s conn bytes addr w = do
    sock ← assert_open s conn
    let (len, w1) = os.sendto sock bytes (convert_sockaddr addr) w
    some (
        if is_minus_one len
        then (if is_would_block (os.errno w1) then (pos 0, w1) else (negsuc 0, w1))
        else (len, w1))

  -- The end of `socket_impl_recv`, when bytes (or none, on a datagram socket) were read.
  unfoldable pub deliver_recv : Bool → Option MobileAddr → List ℕ → Option SockAddr → W → Received W
  deliver_recv false addr bytes from w = record {
    result = pos 0;
    stored = [];
    addr = addr;
    world = w;
  }
  deliver_recv true addr bytes from w = record {
    result = pos (length bytes);
    stored = bytes;
    addr = elim addr [
      | none ↦ none
      | some dest ↦ elim from [ none ↦ some dest | some source ↦ some (store_sockaddr dest source) ]
    ];
    world = w;
  }

  -- The check for a remote that has disconnected.
  unfoldable pub finish_recv :
      ℕ → Bool → Option MobileAddr → List ℕ → Option SockAddr → W → Received W
  finish_recv sock has_data addr (b ∷ bytes) from w = deliver_recv has_data addr (b ∷ bytes) from w
  finish_recv sock has_data addr [] from w =
      let (type, w1) = os.get_type sock w in
      elim type [
        | none ↦ record { result = negsuc 0; stored = []; addr = addr; world = w1 }
        | some t ↦ elim t [
          | stream ↦ record { result = negsuc 1; stored = []; addr = addr; world = w1 }
          | dgram ↦ deliver_recv has_data addr [] from w1
        ]
      ]

  -- The result of `recvfrom`.
  unfoldable pub check_recv :
      ℕ → Bool → Option MobileAddr → Option (List ℕ × Option SockAddr) → W → Received W
  check_recv sock has_data addr none w =
      if is_would_block (os.errno w)
      then record { result = pos 0; stored = []; addr = addr; world = w }
      else record { result = negsuc 0; stored = []; addr = addr; world = w }
  check_recv sock has_data addr (some (bytes, from)) w = finish_recv sock has_data addr bytes from w

  -- `has_data` says whether `data` is not NULL, and `addr` is what it points to, if anything.
  unfoldable pub recv_socket : ℕ → Bool → ℕ → Option MobileAddr → W → Received W
  recv_socket sock has_data size addr w =
      let (ready, w1) = socket_hasdata os sock w in
      if is_nonpos ready
      then record { result = pos 0; stored = []; addr = addr; world = w1 }
      else let (r, w2) =
          if has_data then os.recvfrom sock size false w1 else os.recvfrom sock 1 true w1 in
        check_recv sock has_data addr r w2

  unfoldable pub socket_impl_recv :
      SocketImpl → ℕ → Bool → ℕ → Option MobileAddr → W → Option (Received W)
  socket_impl_recv s conn has_data size addr w = do
    sock ← assert_open s conn
    some (recv_socket sock has_data size addr w)
