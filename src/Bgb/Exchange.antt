-- ===== src/Bgb/Exchange.antt =====
-- source/bgblink.c: what the exchange of `bgb_init` keeps, over any operating system.
use libmobile_bgb.Prelude.{ℕ, ◌≡◌, refl, false, arith, ◌==◌, inl, inr, Option-cases}
use libmobile_bgb.Os.{Os}
use libmobile_bgb.Bgb.Packet.{
  Packet, handshake, cmd_sync2, cmd_status, status_paused, status_running,
}
use libmobile_bgb.Bgb.Link.{bgb_send, bgb_recv, bgb_greet}

-- The two status packets of `bgb_init`.
abbrev first_status : Packet → Packet
first_status version = record version {
  cmd = cmd_status;
  b2 = status_paused;
  b3 = 0;
  b4 = 0;
  timestamp = 0;
}

abbrev last_status : Packet → Packet
last_status reply = record reply { cmd = cmd_status; b2 = status_running; b3 = 0; b4 = 0 }

-- None of the packets of the exchange is an answer to a transfer.
module _ {W : Type 0} (os : Os W) (Q : W → Type 0)
    (send_kept : (sock : ℕ) (p : Packet) (w : W)
      → (p.cmd == cmd_sync2) ≡ false
      → Q w
      → Q (bgb_send os sock p w).1)
    (recv_kept : (sock : ℕ) (w : W) → Q w → Q (bgb_recv os sock w).1) where
  pub bgb_greet_keeps : (sock : ℕ) (w : W) → Q w → Q (bgb_greet os sock w).1
  unfolding bgb_greet
  bgb_greet_keeps sock w k =
      let w1 = (bgb_send os sock handshake w).1 in
      let k1 = send_kept sock handshake w refl k in
      let w2 = (bgb_recv os sock w1).1 in
      let k2 = recv_kept sock w1 k1 in
      elim (Option-cases (bgb_recv os sock w1).0) [
        | inl e ↦ ground (arith, k1, k2)
        | inr (version, e) ↦
            let w3 = (bgb_send os sock (first_status version) w2).1 in
            let k3 = send_kept sock (first_status version) w2 refl k2 in
            let k4 = recv_kept sock w3 k3 in
            elim (Option-cases (bgb_recv os sock w3).0) [
              | inl e' ↦ ground (arith, k1, k2, k3, k4)
              | inr (reply, e') ↦
                  let k5 = send_kept sock (last_status reply) (bgb_recv os sock w3).1 refl k4 in
                  ground (arith, k1, k2, k3, k4, k5)
            ]
      ]
