-- ===== src/Bgb/Codec.antt =====
-- source/bgblink.c: a packet as a structure and as its eight bytes.
use libmobile_bgb.Prelude.{ℕ, ◌≡◌, ◌≢◌, ◌↔◌, true, none, List, [], ◌∷◌, arith, length}
use libmobile_bgb.Bgb.Packet.{bytes_packet, packet_size, same_bytes}

-- A read that is shorter or longer than a packet gives none.
pub bytes_packet_short : (bytes : List ℕ) → length bytes ≢ packet_size → bytes_packet bytes ≡ none
unfolding bytes_packet
bytes_packet_short bytes h = ground arith

pub bytes_packet-none : (bytes : List ℕ) → bytes_packet bytes ≡ none → length bytes ≢ packet_size
unfolding bytes_packet
bytes_packet-none bytes h = ground arith

-- `memcmp` finds no difference between two lists of bytes exactly if they are equal.
pub same_bytes_iff : (as' bs : List ℕ) → (same_bytes as' bs ≡ true) ↔ (as' ≡ bs)
unfolding same_bytes
same_bytes_iff [] [] = ground arith
same_bytes_iff [] (b ∷ bs) = ground arith
same_bytes_iff (a ∷ as') [] = ground arith
same_bytes_iff (a ∷ as') (b ∷ bs) = ground (arith, same_bytes_iff as' bs)
