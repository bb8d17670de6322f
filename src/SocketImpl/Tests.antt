-- ===== src/SocketImpl/Tests.antt =====
-- Histories of the adapter's connections, and the theorems on them at concrete calls.
use mathlib.Core.Option
use libmobile_bgb.Prelude.{
  ◌↔◌, ℕ, ◌≡◌, ◌≢◌, refl, true, false, some, none, List, [], ◌∷◌, arith, Bool, is_minus_one, negsuc,
}
use libmobile_bgb.Os.Table.{table_os, table_descriptors, contains, remove, unused}
use libmobile_bgb.Socket.{socket_hasdata, socket_setblocking}
use libmobile_bgb.SocketImpl.Types.{
  tcp, ipv4, addr4, SocketImpl, Received, assert_open, assert_closed, sock_type, sock_addrtype,
  socket_impl_init, convert_sockaddr, store_sockaddr,
}
use libmobile_bgb.SocketImpl.Defs.{
  socket_impl_open, open_socket, prepare, socket_impl_close, socket_impl_accept, accept_socket,
  socket_impl_listen, socket_impl_stop, socket_impl_recv, recv_socket, check_recv, finish_recv,
}
use libmobile_bgb.SocketImpl.Slots.{holds}
use libmobile_bgb.SocketImpl.Accounts.{Accounts}
use libmobile_bgb.SocketImpl.Accepting.{accept-leaks}
use libmobile_bgb.SocketImpl.Callbacks.{
  Call, sock_open, sock_close, sock_listen, sock_accept, perform, perform_all,
}
use libmobile_bgb.SocketImpl.Lifetime.{perform-Accounts, lifetime-closes}
use libmobile_bgb.SocketImpl.Results.{
  IsAllowed, IsReceipt, perform-IsAllowed, store-convert_sockaddr, recv-IsReport,
}

abbrev standard_streams : List ℕ
standard_streams = 2 ∷ 1 ∷ 0 ∷ []

-- A server: it opens, listens, accepts and closes; then a second connection stays open.
abbrev server : List Call
server =
    sock_open 0 tcp ipv4 1027
    ∷ sock_listen 0
    ∷ sock_accept 0
    ∷ sock_close 0
    ∷ sock_open 1 tcp ipv4 1028
    ∷ []

never_fails :
    (fd : ℕ) (v : List ℕ) → is_minus_one (socket_setblocking (table_os false) fd false v).0 ≡ false
unfolding socket_setblocking
never_fails fd v = refl

-- What the server leaves: slot 1 is open.
abbrev served : SocketImpl × List ℕ
served = (record { sockets = none ∷ some 6 ∷ [] }, 6 ∷ standard_streams)

server_run : perform_all (table_os false) server (socket_impl_init 2) standard_streams ≡ some served
unfolding perform_all perform socket_impl_init socket_impl_open open_socket prepare assert_closed
    assert_open sock_type sock_addrtype socket_impl_listen socket_impl_accept accept_socket
    socket_impl_close socket_setblocking socket_hasdata unused remove
server_run = refl

lifetime-closes_example :
    contains (socket_impl_stop (table_os false) served.0 served.1) 6 ≡ contains standard_streams 6
lifetime-closes_example =
    lifetime-closes (table_os false) (table_descriptors false) (contains standard_streams)
      never_fails 2 server standard_streams served 6 (λ d. refl) server_run

abbrev listening : SocketImpl
listening = record { sockets = some 3 ∷ none ∷ [] }

abbrev listening_fds : List ℕ
listening_fds = 3 ∷ []

nothing : ℕ → Bool
nothing d = false

listening-Accounts :
    (fails : Bool)
    → Accounts (table_os fails) (table_descriptors fails) nothing listening listening_fds
unfolding contains holds nothing
listening-Accounts fails = record {
  owned = λ d. ground arith;
  foreign = λ d e. refl;
  distinct = (refl, tt);
}

-- The connection that was accepted takes the slot.
abbrev accepted : SocketImpl × List ℕ
accepted = (record { sockets = some 4 ∷ none ∷ [] }, 4 ∷ [])

accept_run : perform (table_os false) (sock_accept 0) listening listening_fds ≡ some accepted
unfolding perform socket_impl_accept accept_socket assert_open socket_hasdata socket_setblocking
    unused remove
accept_run = refl

perform-Accounts_example :
    Accounts (table_os false) (table_descriptors false) nothing accepted.0 accepted.1
perform-Accounts_example =
    perform-Accounts (table_os false) (table_descriptors false) nothing never_fails (sock_accept 0)
      listening listening_fds accepted accept_run (listening-Accounts false)

accept-leaks_example :
    (r : Bool × SocketImpl × List ℕ) × (socket_impl_accept (table_os true) listening 0 listening_fds
      ≡ some r)
    × (r.0 ≡ false)
    × (contains r.2 4 ≡ true)
    × (holds r.1.sockets 4 ≡ false)
    × (nothing 4 ≡ false)
unfolding assert_open socket_hasdata socket_setblocking unused
accept-leaks_example =
    accept-leaks (table_os true) (table_descriptors true) nothing listening 0 3 4 listening_fds
      (listening-Accounts true) refl refl refl refl

perform-IsAllowed_example :
    (perform (table_os false) (sock_accept 0) listening listening_fds ≢ none)
    ↔ IsAllowed (sock_accept 0) listening
perform-IsAllowed_example =
    perform-IsAllowed (table_os false) (sock_accept 0) listening listening_fds

store-convert_sockaddr_example :
    Option.map
      (store_sockaddr (addr4 0 []))
      (convert_sockaddr (some (addr4 1027 (127 ∷ 0 ∷ 0 ∷ 1 ∷ []))))
    ≡ some (addr4 1027 (127 ∷ 0 ∷ 0 ∷ 1 ∷ []))
store-convert_sockaddr_example =
    store-convert_sockaddr (addr4 0 []) (addr4 1027 (127 ∷ 0 ∷ 0 ∷ 1 ∷ [])) (omega arith)

-- The remote of slot 0 has disconnected.
abbrev disconnected : Received (List ℕ)
disconnected = record { result = negsuc 1; stored = []; addr = none; world = listening_fds }

recv_run :
    socket_impl_recv (table_os false) listening 0 false 0 none listening_fds ≡ some disconnected
unfolding socket_impl_recv recv_socket check_recv finish_recv assert_open socket_hasdata
recv_run = refl

recv-IsReport_example : IsReceipt false none disconnected
recv-IsReport_example =
    recv-IsReport (table_os false) listening 0 false 0 none listening_fds disconnected recv_run
