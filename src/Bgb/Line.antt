-- ===== src/Bgb/Line.antt =====
-- source/bgblink.c: the serial line over any operating system, by a log of what the emulator got
-- and of what the adapter returned.
pub mod Round
pub mod Greeting
use mathlib.Core.List.{append-nil}
use mathlib.Core.Path.{subst}
use libmobile_bgb.Prelude.{
  ℕ, ◌≡◌, refl, sym, ap, ◌∙◌, Bool, true, false, Option, none, some, List, [], ◌∷◌, ◌++◌, arith,
  length, is_pos, is_nonpos, ◌==◌, inl, inr, Option-cases, Bool-cases,
}
use libmobile_bgb.Os.{Os, Events}
use libmobile_bgb.Socket.{socket_hasdata}
use libmobile_bgb.Bgb.Packet.{
  Packet, packet_bytes, packet_size, command, Command, sync1, sync3, sync2_answer, cmd_sync2,
}
use libmobile_bgb.Bgb.Link.{
  Bgb, bgb_send, bgb_recv, handle_packet, report_timestamp, finish_loop, bgb_loop,
}
use libmobile_bgb.Bgb.Peer.{answered}
use libmobile_bgb.Bgb.Serial.{answered-append}

-- The texts that were sent as a whole, and the bytes that the adapter returned.
pub record Log (W : Type 0) : Type 0 where
  pub sent : W → List (List ℕ)
  pub returned : W → List ℕ

abbrev pub Same : {W : Type 0} → Log W → W → W → Type 0
Same log w w' = (log.sent w' ≡ log.sent w) × (log.returned w' ≡ log.returned w)

module _ {W : Type 0} (os : Os W) (log : Log W) where
  -- The log is that of the system: send() adds the texts that it sends as a whole, and no other
  -- call of the link changes it.
  pub record IsLog : Type 0 where
    pub send_whole :
        (sock : ℕ) (bytes : List ℕ) (w : W)
        → is_pos (os.send sock bytes w).0 (length bytes) ≡ true
        → log.sent (os.send sock bytes w).1 ≡ log.sent w ++ (bytes ∷ [])
    pub send_cut :
        (sock : ℕ) (bytes : List ℕ) (w : W)
        → is_pos (os.send sock bytes w).0 (length bytes) ≡ false
        → log.sent (os.send sock bytes w).1 ≡ log.sent w
    pub send_returned :
        (sock : ℕ) (bytes : List ℕ) (w : W) → log.returned (os.send sock bytes w).1 ≡ log.returned w
    pub recv_same : (sock size : ℕ) (w : W) → Same log w (os.recv sock size w).1
    pub poll_same :
        (fds : List (ℕ × Events)) (delay : ℕ) (w : W) → Same log w (os.poll fds delay w).1

  -- The answers that went out, and the next one to go, are the first byte and the adapter's.
  abbrev pub InStep : ℕ → Bgb W → W → Type 0
  InStep first s w = answered (log.sent w) ++ (s.byte ∷ []) ≡ first ∷ log.returned w

  -- The callbacks: the adapter's transfers are logged, and the clock is not.
  pub record IsTied (transfer : Option (ℕ → W → ℕ × W)) (timestamp : Option (ℕ → W → W))
      : Type 0 where
    pub adapter : ℕ → W → ℕ × W
    pub adapter_set : transfer ≡ some adapter
    pub adapter_sent : (byte : ℕ) (w : W) → log.sent (adapter byte w).1 ≡ log.sent w
    pub adapter_returned :
        (byte : ℕ) (w : W)
        → log.returned (adapter byte w).1 ≡ log.returned w ++ ((adapter byte w).0 ∷ [])
    pub clock_same : (f : ℕ → W → W) (t : ℕ) (w : W) → timestamp ≡ some f → Same log w (f t w)

  abbrev pub AreTied : Bgb W → Type 0
  AreTied s = IsTied s.callback_transfer s.callback_timestamp

  -- What was sent, by whether the packet went out.
  abbrev pub Extends : Packet → Option (Unit {0}) → W → W → Type 0
  Extends p none w w' = Same log w w'
  Extends p (some _) w w' =
      (log.sent w' ≡ log.sent w ++ (packet_bytes p ∷ [])) × (log.returned w' ≡ log.returned w)

  module _ (h : IsLog) where
    pub bgb_send-Extends :
        (sock : ℕ) (p : Packet) (w : W)
        → Extends p (bgb_send os sock p w).0 w (bgb_send os sock p w).1
    unfolding bgb_send packet_bytes
    bgb_send-Extends sock p w =
        elim (Bool-cases (is_pos (os.send sock (packet_bytes p) w).0 packet_size)) [
          | inl whole ↦ ground (
            arith,
            h.send_whole sock (packet_bytes p) w whole,
            h.send_returned sock (packet_bytes p) w,
          )
          | inr cut ↦ ground (
            arith,
            h.send_cut sock (packet_bytes p) w cut,
            h.send_returned sock (packet_bytes p) w,
          )
        ]

    pub bgb_recv-Same : (sock : ℕ) (w : W) → Same log w (bgb_recv os sock w).1
    unfolding bgb_recv
    bgb_recv-Same sock w = ground (arith, h.recv_same sock packet_size w)
