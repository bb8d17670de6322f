-- ===== src/SocketImpl/Messages.antt =====
-- source/socket_impl.c: what `socket_impl_connect` prints of a connection that failed.
use libmobile_bgb.Prelude.{
  ℕ, ◌<◌, ◌≡◌, refl, ap, Bool, false, true, Option, none, some, List, [], ◌∷◌, ◌++◌, arith, length,
  is_minus_one, if◌then◌else◌, ◌^◌, negsuc, pos, ℤ,
}
use libmobile_bgb.Os.{
  Os, Errno, success, would_block, in_progress, already, is_conn, other, Family, SockAddr,
}
use libmobile_bgb.Text.{codes}
use libmobile_bgb.Socket.Perror.{socket_perror}
use libmobile_bgb.Socket.Straddr.{inet6_addrstrlen, socket_straddr_maxlen, socket_straddr}
use libmobile_bgb.SocketImpl.Types.{
  MobileAddr, addr4, addr6, addr_other, convert_sockaddr, is_pending, is_connected,
}
use libmobile_bgb.SocketImpl.Defs.{straddr_world, connect_socket}
use libmobile_bgb.SocketImpl.Addresses.{address_text, straddr-convert_sockaddr}

-- The buffer of the address, which is empty at first.
abbrev sock_str : Option (List ℕ) → List ℕ
sock_str none = []
sock_str (some text) = text

-- A port has 16 bits.
abbrev pub HasPort : Option MobileAddr → Type 0
HasPort none = Unit {0}
HasPort (some addr_other) = Unit {0}
HasPort (some (addr4 port host)) = port < 2 ^ 16
HasPort (some (addr6 port host)) = port < 2 ^ 16

module _ {W : Type 0} (os : Os W) (inet_ntop : Family → List ℕ → List ℕ)
    (strerror_r : Errno → Option (List ℕ)) where
  -- The two calls that print.
  abbrev printed : List ℕ → Errno → List ℕ
  printed address err =
      codes "Could not connect (" ++ (address ++ (codes "): " ++ socket_perror strerror_r none err))

  -- Of a connection that failed, with the address as the system has it: `none` where that is a null
  -- pointer, whose family `socket_straddr` reads.
  unfoldable pub failure_text : Option SockAddr → Errno → Option (List ℕ)
  failure_text none err = none
  failure_text (some sock_addr) err =
      some (printed (sock_str (socket_straddr inet_ntop socket_straddr_maxlen sock_addr)) err)

  -- The text that a call prints.
  unfoldable pub connect_message : ℕ → Option MobileAddr → W → Option (List ℕ)
  connect_message sock addr w =
      let (rc, w1) = connect_socket os sock addr w in
      if is_minus_one rc then failure_text (convert_sockaddr addr) (os.errno w1) else some []

  -- What is to be printed: host and port in full, and the text of the error, if there is one.
  abbrev pub could_not_connect : MobileAddr → Errno → List ℕ
  could_not_connect a err =
      codes "Could not connect ("
      ++ (address_text inet_ntop a
          ++ (codes "): "
              ++ elim (strerror_r err) [ none ↦ 10 ∷ [] | some text ↦ text ++ (10 ∷ []) ]))

  -- The result and the text where connect() has failed for good. Without an address that the system
  -- knows, a null pointer is read.
  abbrev pub HasFailed : Option MobileAddr → Errno → ℤ → Option (List ℕ) → Type 0
  HasFailed none err rc message = message ≡ none
  HasFailed (some addr_other) err rc message = message ≡ none
  HasFailed (some (addr4 port host)) err rc message =
      (rc ≡ negsuc 0) × (message ≡ some (could_not_connect (addr4 port host) err))
  HasFailed (some (addr6 port host)) err rc message =
      (rc ≡ negsuc 0) × (message ≡ some (could_not_connect (addr6 port host) err))

  -- The result and the text, where connect() returned -1 or not, with which error.
  abbrev pub IsMessage : Option MobileAddr → Bool → Errno → ℤ → Option (List ℕ) → Type 0
  IsMessage addr false err rc message = (rc ≡ pos 1) × (message ≡ some [])
  IsMessage addr true would_block rc message = (rc ≡ pos 0) × (message ≡ some [])
  IsMessage addr true in_progress rc message = (rc ≡ pos 0) × (message ≡ some [])
  IsMessage addr true already rc message = (rc ≡ pos 0) × (message ≡ some [])
  IsMessage addr true is_conn rc message = (rc ≡ pos 1) × (message ≡ some [])
  IsMessage addr true success rc message = HasFailed addr success rc message
  IsMessage addr true (other n) rc message = HasFailed addr (other n) rc message

  failure_text-HasFailed :
      (addr : Option MobileAddr) (err : Errno)
      → ((family : Family) (host : List ℕ) → length (inet_ntop family host) < inet6_addrstrlen)
      → HasPort addr
      → HasFailed addr err (negsuc 0) (failure_text (convert_sockaddr addr) err)
  unfolding failure_text convert_sockaddr socket_perror
  failure_text-HasFailed none err short fits = refl
  failure_text-HasFailed (some addr_other) err short fits = refl
  failure_text-HasFailed (some (addr4 port host)) err short fits = (
    refl,
    ap (λ text. some (printed (sock_str text) err))
        (straddr-convert_sockaddr inet_ntop socket_straddr_maxlen (addr4 port host) short fits
          (omega arith)).0,
  )
  failure_text-HasFailed (some (addr6 port host)) err short fits = (
    refl,
    ap (λ text. some (printed (sock_str text) err))
        (straddr-convert_sockaddr inet_ntop socket_straddr_maxlen (addr6 port host) short fits
          (omega arith)).0,
  )

  -- Over any operating system that keeps the errno it is given, and in which inet_ntop() may change
  -- it, where the texts of hosts have fewer than INET6_ADDRSTRLEN characters and the address has a
  -- port of 16 bits, if it has one: `socket_impl_connect` returns 1 if connect() succeeds or fails
  -- with EISCONN, and 0 if it fails with EWOULDBLOCK, EINPROGRESS or EALREADY, and prints nothing
  -- then; where it fails otherwise, the result is -1, and the host and the port in full and the text
  -- of the error with which connect() failed are printed, but for an address of another family, or
  -- none, where a null pointer is read.
  pub connect_message-IsMessage :
      (sock : ℕ) (addr : Option MobileAddr) (w : W)
      → ((family : Family) (host : List ℕ) → length (inet_ntop family host) < inet6_addrstrlen)
      → ((e : Errno) (v : W) → os.errno (os.set_errno e v) ≡ e)
      → HasPort addr
      → IsMessage addr
          (is_minus_one (os.connect sock (convert_sockaddr addr) w).0)
          (os.errno (os.connect sock (convert_sockaddr addr) w).1)
          (connect_socket os sock addr w).0
          (connect_message sock addr w)
  unfolding connect_message connect_socket is_pending is_connected
  connect_message-IsMessage sock addr w short law fits =
      go (is_minus_one (os.connect sock (convert_sockaddr addr) w).0)
        (os.errno (os.connect sock (convert_sockaddr addr) w).1) refl refl
    where
      go :
          (failed : Bool) (err : Errno)
          → is_minus_one (os.connect sock (convert_sockaddr addr) w).0 ≡ failed
          → os.errno (os.connect sock (convert_sockaddr addr) w).1 ≡ err
          → IsMessage addr failed err
              (connect_socket os sock addr w).0
              (connect_message sock addr w)
      go false err e e' = (ground arith, ground arith)
      go true would_block e e' = (ground arith, ground arith)
      go true in_progress e e' = (ground arith, ground arith)
      go true already e e' = (ground arith, ground arith)
      go true is_conn e e' = (ground arith, ground arith)
      go true success e e' =
          let back = law success (
            straddr_world os (convert_sockaddr addr)
              (os.connect sock (convert_sockaddr addr) w).1) in
          rw (connect_message, connect_socket, e, e', back)
            (failure_text-HasFailed addr success short fits)
      go true (other n) e e' =
          let back = law (other n) (
            straddr_world os (convert_sockaddr addr)
              (os.connect sock (convert_sockaddr addr) w).1) in
          rw (connect_message, connect_socket, e, e', back)
            (failure_text-HasFailed addr (other n) short fits)
