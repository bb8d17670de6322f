-- ===== src/SocketImpl/Types.antt =====
-- source/socket_impl.c: the types, the conversions of addresses and the assertions. An assertion
-- that fails, and an access outside of the table, end the program: they are `none`.
use libmobile_bgb.Prelude.{
  ℕ, ◌+◌, ◌*◌, ◌/◌, ◌%◌, Bool, true, false, Option, none, some, List, get_elem?, replicate, ℤ,
}
use libmobile_bgb.Os.{
  Errno, would_block, in_progress, already, is_conn, Family, inet, inet6, SockType, stream, dgram,
  SockAddr, in4, in6, unknown,
}

-- `enum mobile_socktype`, `enum mobile_addrtype` and `struct mobile_addr` of libmobile, as far as
-- the code uses them: the last constructor of each is any other value.
pub data MobileSockType : Type 0 where
  tcp udp other_type : MobileSockType

pub data MobileAddrType : Type 0 where
  ipv4 ipv6 other_addrtype : MobileAddrType

pub data MobileAddr : Type 0 where
  addr4 addr6 : ℕ → List ℕ → MobileAddr
  addr_other : MobileAddr

-- `htons` and `ntohs` on a host that stores the least significant byte first.
unfoldable pub swap16 : ℕ → ℕ
swap16 port = port % 256 * 256 + port / 256 % 256

-- The length of the result is 0 exactly where the result is NULL.
unfoldable pub convert_sockaddr : Option MobileAddr → Option SockAddr
convert_sockaddr none = none
convert_sockaddr (some (addr4 port host)) = some (in4 (swap16 port) host)
convert_sockaddr (some (addr6 port host)) = some (in6 (swap16 port) host)
convert_sockaddr (some addr_other) = none

-- How `socket_impl_recv` stores the sender's address.
unfoldable pub store_sockaddr : MobileAddr → SockAddr → MobileAddr
store_sockaddr dest (in4 port host) = addr4 (swap16 port) host
store_sockaddr dest (in6 port host) = addr6 (swap16 port) host
store_sockaddr dest unknown = dest

-- `struct socket_impl`
pub record SocketImpl : Type 0 where
  pub sockets : List (Option ℕ)

-- The two switches of `socket_impl_open`.
unfoldable pub sock_type : MobileSockType → Option SockType
sock_type tcp = some stream
sock_type udp = some dgram
sock_type other_type = none

unfoldable pub sock_addrtype : MobileAddrType → Option Family
sock_addrtype ipv4 = some inet
sock_addrtype ipv6 = some inet6
sock_addrtype other_addrtype = none

-- The address that is bound: any host.
unfoldable pub bind_addr : Family → ℕ → SockAddr
bind_addr inet port = in4 (swap16 port) (replicate 4 0)
bind_addr inet6 port = in6 (swap16 port) (replicate 16 0)

-- `assert(state->sockets[conn] != INVALID_SOCKET)`, and the descriptor.
unfoldable pub assert_open : SocketImpl → ℕ → Option ℕ
assert_open s conn = elim (get_elem? s.sockets conn) [ none ↦ none | some slot ↦ slot ]

-- `assert(state->sockets[conn] == INVALID_SOCKET)`
unfoldable pub assert_closed : SocketImpl → ℕ → Option (Unit {0})
assert_closed s conn = elim (get_elem? s.sockets conn) [
  | none ↦ none
  | some slot ↦ elim slot [ none ↦ some tt | some _ ↦ none ]
]

infixl 5 ◌>>=◌ ◌>>◌
abbrev pub ◌>>=◌ : {A B : Type 0} → Option A → (A → Option B) → Option B
none >>= f = none
some a >>= f = f a

abbrev pub ◌>>◌ : {B : Type 0} → Option (Unit {0}) → Option B → Option B
m >> k = m >>= λ _. k

unfoldable pub is_pending : Errno → Bool
is_pending would_block = true
is_pending in_progress = true
is_pending already = true
is_pending _ = false

unfoldable pub is_connected : Errno → Bool
is_connected is_conn = true
is_connected _ = false

unfoldable pub is_would_block : Errno → Bool
is_would_block would_block = true
is_would_block _ = false

unfoldable pub socket_impl_init : ℕ → SocketImpl
socket_impl_init max_connections = record { sockets = replicate max_connections none }

-- What one call of `socket_impl_recv` returns and stores.
pub record Received (W : Type 0) : Type 0 where
  pub result : ℤ
  pub stored : List ℕ
  pub addr : Option MobileAddr
  pub world : W
