-- ===== src/SocketImpl/MessageTests.antt =====
-- The message about a failed connection, at a concrete address and error.
use libmobile_bgb.Prelude.{
  ℕ, ◌≡◌, ◌<◌, ◌==◌, if◌then◌else◌, refl, true, Option, none, some, List, [], ◌∷◌, ◌++◌, pos,
  negsuc, arith, length,
}
use libmobile_bgb.Os.{Os, Errno, other, Family, inet, inet6}
use libmobile_bgb.Text.{codes, decimal}
use libmobile_bgb.Socket.Perror.{socket_perror}
use libmobile_bgb.Socket.Straddr.{inet6_addrstrlen, print_addr, socket_straddr}
use libmobile_bgb.SocketImpl.Types.{
  MobileAddr, addr4, convert_sockaddr, swap16, is_pending, is_connected,
}
use libmobile_bgb.SocketImpl.Defs.{straddr_world, connect_socket}
use libmobile_bgb.SocketImpl.Messages.{
  IsMessage, failure_text, connect_message, connect_message-IsMessage,
}

-- A system whose connections are refused (ECONNREFUSED), and whose world is errno.
abbrev refusing : Os Errno
refusing = record {
  errno = λ e. e;
  set_errno = λ e _. e;
  inet_ntop_world = λ f host e. other 28;
  socket = λ f t e. (some 3, e);
  close = λ fd e. e;
  connect = λ fd a e. (negsuc 0, other 111);
  bind = λ fd a e. (pos 0, e);
  listen = λ fd n e. (pos 0, e);
  accept = λ fd e. (none, e);
  send = λ fd bytes e. (pos (length bytes), e);
  recv = λ fd size e. (none, e);
  sendto = λ fd bytes a e. (pos (length bytes), e);
  recvfrom = λ fd size peek e. (none, e);
  poll = λ fds delay e. (pos 0, e);
  setsockopt = λ fd o v e. (pos 0, e);
  get_type = λ fd e. (none, e);
  get_error = λ fd e. (e, e);
  sigaction = λ e. (pos 0, e);
  get_flags = λ fd e. (pos 2, e);
  set_flags = λ fd flags e. (pos 0, e);
}

-- Every host is localhost, of either family.
abbrev localhost : Family → List ℕ → List ℕ
localhost inet host = codes "127.0.0.1"
localhost inet6 host = codes "::1"

-- The one error that is known.
abbrev strerror : Errno → Option (List ℕ)
strerror (other n) = if n == 111 then some (codes "Connection refused") else none
strerror _ = none

localhost_short :
    (family : Family) (host : List ℕ) → length (localhost family host) < inet6_addrstrlen
localhost_short inet host = omega arith
localhost_short inet6 host = omega arith

abbrev server_addr : MobileAddr
server_addr = addr4 1027 (127 ∷ 0 ∷ 0 ∷ 1 ∷ [])

connect_message-IsMessage_example :
    IsMessage refusing localhost strerror
      (some server_addr)
      true
      (other 111)
      (connect_socket refusing 3 (some server_addr) (other 0)).0
      (connect_message refusing localhost strerror 3 (some server_addr) (other 0))
connect_message-IsMessage_example =
    connect_message-IsMessage refusing localhost strerror 3 (some server_addr) (other 0)
      localhost_short (λ e v. refl) (omega arith)

-- inet_ntop() has changed errno, which is set back.
refused_message :
    connect_message refusing localhost strerror 3 (some server_addr) (other 0)
    ≡ some (codes "Could not connect (127.0.0.1:1027): Connection refused" ++ (10 ∷ []))
unfolding connect_message connect_socket failure_text convert_sockaddr socket_straddr print_addr
    swap16 decimal socket_perror straddr_world is_pending is_connected
refused_message = refl
