-- ===== src/Bgb/Logged.antt =====
-- The emulator of Bgb/Peer keeps a log in the sense of Bgb/Line.
use libmobile_bgb.Prelude.{
  ℕ, zero, suc, ◌≡◌, refl, true, false, List, [], ◌∷◌, ◌++◌, arith, length, is_pos, is_minus_one,
  ==_refl,
}
use libmobile_bgb.Bgb.Peer.{Peer, peer_send, peer_recv, peer_os}
use libmobile_bgb.Bgb.Line.{Log, IsLog}

abbrev pub peer_log : {U : Type 0} → Log (Peer U)
peer_log = record { sent = λ w. w.sent; returned = λ w. w.returned }

send_whole :
    {U : Type 0} (bytes : List ℕ) (room : ℕ) (w : Peer U)
    → is_pos (peer_send bytes room w).0 (length bytes) ≡ true
    → (peer_send bytes room w).1.sent ≡ w.sent ++ (bytes ∷ [])
unfolding peer_send
send_whole bytes zero w h = absurd (ground arith)
send_whole bytes (suc room) w h = refl

send_cut :
    {U : Type 0} (bytes : List ℕ) (room : ℕ) (w : Peer U)
    → is_pos (peer_send bytes room w).0 (length bytes) ≡ false
    → (peer_send bytes room w).1.sent ≡ w.sent
unfolding peer_send
send_cut bytes zero w h = refl
send_cut bytes (suc room) w h = absurd (ground (arith, ==_refl (length bytes)))

send_returned :
    {U : Type 0} (bytes : List ℕ) (room : ℕ) (w : Peer U)
    → (peer_send bytes room w).1.returned ≡ w.returned
unfolding peer_send
send_returned bytes zero w = refl
send_returned bytes (suc room) w = refl

recv_same :
    {U : Type 0} (inbox : List (List ℕ)) (w : Peer U)
    → ((peer_recv inbox w).1.sent ≡ w.sent) × ((peer_recv inbox w).1.returned ≡ w.returned)
unfolding peer_recv
recv_same [] w = (refl, refl)
recv_same (bytes ∷ rest) w = (refl, refl)

pub peer-IsLog : {U : Type 0} → IsLog {W = Peer U} peer_os peer_log
peer-IsLog = record {
  send_whole = λ sock bytes w. send_whole bytes w.room w;
  send_cut = λ sock bytes w. send_cut bytes w.room w;
  send_returned = λ sock bytes w. send_returned bytes w.room w;
  recv_same = λ sock size w. recv_same w.inbox w;
  poll_same = λ fds delay w. (refl, refl);
}

-- It takes a text as a whole or not at all.
pub peer_whole :
    {U : Type 0} (bytes : List ℕ) (room : ℕ) (w : Peer U)
    → is_minus_one (peer_send bytes room w).0 ≡ false
    → is_pos (peer_send bytes room w).0 (length bytes) ≡ true
unfolding peer_send
peer_whole bytes zero w h = absurd (ground arith)
peer_whole bytes (suc room) w h = ==_refl (length bytes)
