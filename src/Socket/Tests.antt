-- ===== src/Socket/Tests.antt =====
-- The theorems on flags and on the text of addresses, at a concrete socket and address.
use libmobile_bgb.Prelude.{ℕ, ◌≡◌, ◌<◌, refl, true, false, some, List, [], ◌∷◌, arith, pos, length}
use libmobile_bgb.Os.{Os, Family}
use libmobile_bgb.Os.Table.{table_os}
use libmobile_bgb.Socket.{socket_setblocking}
use libmobile_bgb.Socket.Straddr.{socket_straddr}
use libmobile_bgb.Socket.Blocking.{SetsBlocking, setblocking-SetsBlocking}
use libmobile_bgb.SocketImpl.Types.{addr4, convert_sockaddr, ◌>>=◌}
use libmobile_bgb.SocketImpl.Addresses.{address_text, straddr-convert_sockaddr}

-- A system with one socket, whose flags are the first number of the world.
abbrev first_of : List ℕ → ℕ
first_of [] = 0
first_of (flags ∷ _) = flags

abbrev flags_os : Os (List ℕ)
flags_os = record (table_os false) {
  get_flags = λ fd w. (pos (first_of w), w);
  set_flags = λ fd flags w. (pos 0, flags ∷ w);
}

setblocking-SetsBlocking_example :
    (old : ℕ) × (new : ℕ) × ((flags_os.get_flags 3 (2050 ∷ [])).0 ≡ pos old)
    × ((flags_os.get_flags 3 (socket_setblocking flags_os 3 true (2050 ∷ [])).1).0 ≡ pos new)
    × SetsBlocking true old new
unfolding socket_setblocking
setblocking-SetsBlocking_example =
    setblocking-SetsBlocking flags_os 3 true (2050 ∷ []) (λ bits v h. refl) refl

-- Every host is `::`.
abbrev any_host : Family → List ℕ → List ℕ
any_host family host = b':' ∷ b':' ∷ []

straddr-convert_sockaddr_example :
    ((convert_sockaddr (some (addr4 1027 (127 ∷ 0 ∷ 0 ∷ 1 ∷ []))) >>= socket_straddr any_host 60)
      ≡ some (address_text any_host (addr4 1027 (127 ∷ 0 ∷ 0 ∷ 1 ∷ []))))
    × (length (address_text any_host (addr4 1027 (127 ∷ 0 ∷ 0 ∷ 1 ∷ []))) < 60)
straddr-convert_sockaddr_example =
    straddr-convert_sockaddr any_host 60 (addr4 1027 (127 ∷ 0 ∷ 0 ∷ 1 ∷ []))
      (λ family host. omega arith) (omega arith) (omega arith)
