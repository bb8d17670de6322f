-- ===== src/SocketImpl/Callbacks.antt =====
-- source/main.c: the callbacks `impl_sock_…` over source/socket_impl.c, and histories of their calls.
use libmobile_bgb.Prelude.{ℕ, Bool, Option, none, some, List, [], ◌∷◌}
use libmobile_bgb.Os.{Os}
use libmobile_bgb.SocketImpl.Types.{MobileSockType, MobileAddrType, MobileAddr, SocketImpl}
use libmobile_bgb.SocketImpl.Defs.{
  socket_impl_open, socket_impl_close, socket_impl_connect, socket_impl_listen, socket_impl_accept,
  socket_impl_send, socket_impl_recv,
}

-- A call of one of the callbacks `impl_sock_…`, with its arguments.
pub data Call : Type 0 where
  sock_open : ℕ → MobileSockType → MobileAddrType → ℕ → Call
  sock_close : ℕ → Call
  sock_connect : ℕ → Option MobileAddr → Call
  sock_listen : ℕ → Call
  sock_accept : ℕ → Call
  sock_send : ℕ → List ℕ → Option MobileAddr → Call
  sock_recv : ℕ → Bool → ℕ → Option MobileAddr → Call

abbrev after : {A B : Type 0} → (A → B) → Option A → Option B
after f none = none
after f (some a) = some (f a)

module _ {W : Type 0} (os : Os W) where
  -- The table and the world after a call; `none` if an assertion fails.
  unfoldable pub perform : Call → SocketImpl → W → Option (SocketImpl × W)
  perform (sock_open conn type addrtype port) s w =
      after (λ r. (r.1, r.2)) (socket_impl_open os s conn type addrtype port w)
  perform (sock_close conn) s w = socket_impl_close os s conn w
  perform (sock_connect conn addr) s w =
      after (λ r. (s, r.1)) (socket_impl_connect os s conn addr w)
  perform (sock_listen conn) s w = after (λ r. (s, r.1)) (socket_impl_listen os s conn w)
  perform (sock_accept conn) s w = after (λ r. (r.1, r.2)) (socket_impl_accept os s conn w)
  perform (sock_send conn bytes addr) s w =
      after (λ r. (s, r.1)) (socket_impl_send os s conn bytes addr w)
  perform (sock_recv conn has_data size addr) s w =
      after (λ r. (s, r.world)) (socket_impl_recv os s conn has_data size addr w)

  unfoldable pub perform_all : List Call → SocketImpl → W → Option (SocketImpl × W)
  perform_all [] s w = some (s, w)
  perform_all (c ∷ cs) s w = elim (perform c s w) [
    | none ↦ none
    | some (s', w') ↦ perform_all cs s' w'
  ]
