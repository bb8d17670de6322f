-- ===== src/Socket/Straddr.antt =====
-- source/socket.c: `socket_straddr`, as a Unix system compiles it, and the length of its texts.
use libmobile_bgb.Prelude.{
  ℕ, ◌+◌, ◌-◌, ◌^◌, ◌≤◌, ◌<◌, ◌≡◌, Option, none, some, List, ◌∷◌, ◌++◌, arith, leb, length, take,
  take_short, length-append, bit_and, if◌then◌else◌,
}
use libmobile_bgb.Os.{Family, inet, inet6, SockAddr, in4, in6, unknown}
use libmobile_bgb.SocketImpl.Types.{swap16}
use libmobile_bgb.Text.{decimal}
use libmobile_bgb.Text.Decimal.{length-decimal}

-- snprintf() to a buffer of `len` characters from `start` on: what fits beside the null.
abbrev snprintf : ℕ → ℕ → List ℕ → List ℕ
snprintf len start text = take (len - start - 1) text

-- INET6_ADDRSTRLEN, and SOCKET_STRADDR_MAXLEN.
abbrev pub inet6_addrstrlen : ℕ
inet6_addrstrlen = 46

abbrev pub socket_straddr_maxlen : ℕ
socket_straddr_maxlen = inet6_addrstrlen + 7

-- `inet_ntop` gives the text of a host; the call fails where that does not fit the buffer.
module _ (inet_ntop : Family → List ℕ → List ℕ) where
  unfoldable pub print_addr : ℕ → List ℕ → ℕ → Option (List ℕ)
  print_addr res_len host port =
      if leb (length host + 1) res_len
      then some (host ++ snprintf res_len (length host) (b':' ∷ decimal port))
      else none

  -- `none` is -1, and otherwise the text that is left in the buffer.
  unfoldable pub socket_straddr : ℕ → SockAddr → Option (List ℕ)
  unfolding print_addr
  socket_straddr res_len (in4 port host) =
      print_addr res_len (inet_ntop inet host) (bit_and (swap16 port) 0xFFFF)
  socket_straddr res_len (in6 port host) =
      print_addr res_len (inet_ntop inet6 host) (bit_and (swap16 port) 0xFFFF)
  socket_straddr res_len unknown = none

  -- A port has at most five digits, so that a host of the longest kind leaves room for it.
  pub print_addr_full :
      (res_len port : ℕ) (host : List ℕ)
      → length host < inet6_addrstrlen
      → port < 2 ^ 16
      → socket_straddr_maxlen ≤ res_len
      → (print_addr res_len host port ≡ some (host ++ (b':' ∷ decimal port)))
        × (length (host ++ (b':' ∷ decimal port)) < res_len)
  unfolding print_addr
  print_addr_full res_len port host short fits room =
      let digits : length (decimal port) ≤ 5 = length-decimal 4 port (omega arith) in
      let whole = length-append {0} {A = ℕ} host (b':' ∷ decimal port) in
      let kept = take_short (res_len - length host - 1) (b':' ∷ decimal port) (omega arith) in
      (ground (arith, kept), omega arith)
