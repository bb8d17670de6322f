-- ===== src/Bgb/VbaTests.antt =====
-- A run of the link with VBA-M, and the theorem on it.
use libmobile_bgb.Prelude.{ℕ, ◌+◌, ◌≡◌, refl, [], ◌∷◌, ◌++◌, arith, replicate}
use libmobile_bgb.Bgb.Peer.{Peer, peer_os, peer_send, peer_recv}
use libmobile_bgb.Bgb.Logged.{peer_log, peer-IsLog, peer_whole}
use libmobile_bgb.Bgb.Vba.{vba_loop, vba_rounds, vba_send, vba_recv}
use libmobile_bgb.Bgb.Vba.Echo.{texts, HasEchoed, vba_loop-HasEchoed}

-- An adapter that returns each byte plus one.
abbrev next_byte : ℕ → Peer ℕ → ℕ × Peer ℕ
next_byte c w = (c + 1, record w { returned = w.returned ++ ((c + 1) ∷ []) })

-- An emulator that sends its greeting and two bytes.
abbrev emulator : Peer ℕ
emulator = record {
  inbox = (replicate 8 1) ∷ (replicate 5 2) ∷ (10 ∷ []) ∷ (20 ∷ []) ∷ [];
  sent = [];
  room = 9;
  asked = [];
  returned = [];
  user = 0;
}

vba_loop-HasEchoed_example :
    HasEchoed peer_log (vba_loop peer_os 3 next_byte 5 (replicate 8 0) emulator)
vba_loop-HasEchoed_example =
    vba_loop-HasEchoed peer_os peer_log peer-IsLog 3 (λ b w. peer_whole (b ∷ []) w.room w) next_byte
      (λ c w. refl) (λ c w. refl) 5 (replicate 8 0) emulator (omega arith) refl refl

vba_run :
    (vba_loop peer_os 3 next_byte 5 (replicate 8 0) emulator).2.sent ≡ texts (0xD2 ∷ 0xD2 ∷ 11 ∷ [])
unfolding vba_loop vba_rounds vba_send vba_recv peer_send peer_recv
vba_run = refl
