-- ===== src/SocketImpl/Addresses.antt =====
-- source/socket_impl.c with source/socket.c: the text of an address that is passed to the system.
use libmobile_bgb.Prelude.{
  ℕ, ◌^◌, ◌≤◌, ◌<◌, ◌≡◌, some, List, ◌∷◌, [], ◌++◌, arith, length, bit_and, bit_and_16,
}
use libmobile_bgb.Os.{Family, inet, inet6}
use libmobile_bgb.Text.{decimal}
use libmobile_bgb.Socket.Straddr.{
  inet6_addrstrlen, socket_straddr_maxlen, socket_straddr, print_addr_full,
}
use libmobile_bgb.SocketImpl.Types.{
  MobileAddr, addr4, addr6, addr_other, convert_sockaddr, swap16, ◌>>=◌,
}
use libmobile_bgb.SocketImpl.Results.{IsAddr}

swap16_twice : (port : ℕ) → port < 2 ^ 16 → bit_and (swap16 (swap16 port)) 0xFFFF ≡ port
unfolding swap16
swap16_twice port h = omega (arith, bit_and_16 (swap16 (swap16 port)))

module _ (inet_ntop : Family → List ℕ → List ℕ) where
  -- Host and port, as `socket_straddr` writes them.
  abbrev pub address_text : MobileAddr → List ℕ
  address_text (addr4 port host) = inet_ntop inet host ++ (b':' ∷ decimal port)
  address_text (addr6 port host) = inet_ntop inet6 host ++ (b':' ∷ decimal port)
  address_text addr_other = []

  -- Where the texts of hosts have fewer than INET6_ADDRSTRLEN characters: of an address of a known
  -- family, with a port of 16 bits, that was converted for the system, `socket_straddr` writes the
  -- host, a colon and the decimal port, in full, to any buffer of SOCKET_STRADDR_MAXLEN characters
  -- or more, and leaves room for the null.
  pub straddr-convert_sockaddr :
      (res_len : ℕ) (a : MobileAddr)
      → ((family : Family) (host : List ℕ) → length (inet_ntop family host) < inet6_addrstrlen)
      → IsAddr a
      → socket_straddr_maxlen ≤ res_len
      → ((convert_sockaddr (some a) >>= socket_straddr inet_ntop res_len) ≡ some (address_text a))
        × (length (address_text a) < res_len)
  unfolding convert_sockaddr socket_straddr
  straddr-convert_sockaddr res_len (addr4 port host) short fits room =
      rw (swap16_twice port fits)
        (print_addr_full inet_ntop res_len port (inet_ntop inet host) (short inet host) fits room)
  straddr-convert_sockaddr res_len (addr6 port host) short fits room =
      rw (swap16_twice port fits)
        (print_addr_full inet_ntop res_len port (inet_ntop inet6 host) (short inet6 host) fits room)
  straddr-convert_sockaddr res_len addr_other short fits room = absurd fits
