-- ===== src/Bgb/Greeting.antt =====
-- source/bgblink.c: what the exchange of `bgb_init` amounts to, over any operating system.
use mathlib.Core.Path.{subst}
use libmobile_bgb.Prelude.{
  ℕ, ◌≡◌, ◌↔◌, ap, true, false, Option, some, List, pos, arith, Option-cases, inl, inr,
}
use libmobile_bgb.Os.{Os}
use libmobile_bgb.Bgb.Packet.{
  Packet, packet_bytes, bytes_packet, packet_size, handshake, status_paused, status_running,
  cmd_status,
}
use libmobile_bgb.Bgb.Link.{bgb_send, bgb_recv, bgb_greet, bgb_init, Bgb}
use libmobile_bgb.Bgb.Codec.{same_bytes_iff}

-- The status packets that are sent: the second one repeats the timestamp that was received.
abbrev pub paused_packet : Packet
paused_packet = record { cmd = cmd_status; b2 = status_paused; b3 = 0; b4 = 0; timestamp = 0 }

abbrev pub running_packet : ℕ → Packet
running_packet t = record { cmd = cmd_status; b2 = status_running; b3 = 0; b4 = 0; timestamp = t }

module _ {W : Type 0} (os : Os W) (sock : ℕ) where
  -- A packet is written whole, or comes in whole.
  abbrev pub Sends : Packet → W → W → Type 0
  Sends p w w' = os.send sock (packet_bytes p) w ≡ (pos packet_size, w')

  abbrev pub Receives : Packet → W → W → Type 0
  Receives p w w' =
      (bytes : List ℕ) × (os.recv sock packet_size w ≡ (some bytes, w'))
      × (bytes_packet bytes ≡ some p)

  -- The complete exchange: our version, the same version back, a paused status, a status back, and
  -- a running status.
  pub record Greeted (w w' : W) : Type 0 where
    pub w1 : W
    pub w2 : W
    pub w3 : W
    pub w4 : W
    pub version : Packet
    pub reply : Packet
    pub sends_version : Sends handshake w w1
    pub receives_version : Receives version w1 w2
    pub same_version : packet_bytes version ≡ packet_bytes handshake
    pub sends_paused : Sends paused_packet w2 w3
    pub receives_status : Receives reply w3 w4
    pub is_status : reply.cmd ≡ cmd_status
    pub sends_running : Sends (running_packet reply.timestamp) w4 w'

  bgb_send-Sends : (p : Packet) (w w' : W) → Sends p w w' → bgb_send os sock p w ≡ (some tt, w')
  unfolding bgb_send
  bgb_send-Sends p w w' h = rw h

  Sends-bgb_send : (p : Packet) (w w' : W) → bgb_send os sock p w ≡ (some tt, w') → Sends p w w'
  unfolding bgb_send
  Sends-bgb_send p w w' h = ground arith

  bgb_recv-Receives : (p : Packet) (w w' : W) → Receives p w w' → bgb_recv os sock w ≡ (some p, w')
  unfolding bgb_recv
  bgb_recv-Receives p w w' (bytes, h, e) = ground arith

  Receives-bgb_recv : (p : Packet) (w w' : W) → bgb_recv os sock w ≡ (some p, w') → Receives p w w'
  unfolding bgb_recv
  Receives-bgb_recv p w w' h = elim (Option-cases (os.recv sock packet_size w).0) [
    | inl e ↦ absurd (ground arith)
    | inr (bytes, e) ↦ (bytes, ground arith, ground arith)
  ]

  bgb_greet-Greeted :
      (w : W) → (bgb_greet os sock w).0 ≡ some tt → Greeted w (bgb_greet os sock w).1
  unfolding bgb_greet
  bgb_greet-Greeted w h =
      let w1 = (bgb_send os sock handshake w).1 in
      elim (Option-cases (bgb_recv os sock w1).0) [
        | inl e ↦ absurd (ground arith)
        | inr (version, e1) ↦
            let w2 = (bgb_recv os sock w1).1 in
            let w3 = (bgb_send os sock paused_packet w2).1 in
            elim (Option-cases (bgb_recv os sock w3).0) [
              | inl e ↦ absurd (ground arith)
              | inr (reply, e2) ↦
                  let w4 = (bgb_recv os sock w3).1 in
                  record {
                    w1 = w1;
                    w2 = w2;
                    w3 = w3;
                    w4 = w4;
                    version = version;
                    reply = reply;
                    sends_version = Sends-bgb_send handshake w w1 (ground arith);
                    receives_version = Receives-bgb_recv version w1 w2 (ground arith);
                    same_version =
                        (same_bytes_iff (packet_bytes version) (packet_bytes handshake)).0
                          (ground arith);
                    sends_paused = Sends-bgb_send paused_packet w2 w3 (ground arith);
                    receives_status = Receives-bgb_recv reply w3 w4 (ground arith);
                    is_status = ground arith;
                    sends_running =
                        Sends-bgb_send (running_packet reply.timestamp) w4 _ (ground arith);
                  }
            ]
      ]

  bgb_init-Greeted :
      (byte : ℕ) (transfer : Option (ℕ → W → ℕ × W)) (timestamp : Option (ℕ → W → W)) (w : W)
      → (bgb_init os sock byte transfer timestamp w).0 ≡ true
      → Greeted w (bgb_init os sock byte transfer timestamp w).2
  unfolding bgb_init
  bgb_init-Greeted byte transfer timestamp w h = bgb_greet-Greeted w (ground arith)

  -- What `bgb_init` stores.
  abbrev pub fresh_state : ℕ → Option (ℕ → W → ℕ × W) → Option (ℕ → W → W) → Bgb W
  fresh_state byte transfer timestamp = record {
    socket = sock;
    byte = byte;
    callback_transfer = transfer;
    callback_timestamp = timestamp;
    timestamp_last = 0;
    timestamp_init = false;
  }

  Greeted-bgb_init :
      (byte : ℕ) (transfer : Option (ℕ → W → ℕ × W)) (timestamp : Option (ℕ → W → W)) (w w' : W)
      → Greeted w w'
      → bgb_init os sock byte transfer timestamp w ≡ (true, fresh_state byte transfer timestamp, w')
  unfolding bgb_init bgb_greet
  Greeted-bgb_init byte transfer timestamp w w' g = ground (
    arith,
    bgb_send-Sends handshake w g.w1 g.sends_version,
    bgb_recv-Receives g.version g.w1 g.w2 g.receives_version,
    (same_bytes_iff (packet_bytes g.version) (packet_bytes handshake)).1 g.same_version,
    bgb_send-Sends paused_packet g.w2 g.w3 g.sends_paused,
    bgb_recv-Receives g.reply g.w3 g.w4 g.receives_status,
    bgb_send-Sends (running_packet g.reply.timestamp) g.w4 w' g.sends_running,
  )

  -- `bgb_init` returns true, leaving the world w', exactly where the whole exchange takes place
  -- from w to w': the handshake goes out, eight bytes equal to it come in, the paused status goes
  -- out, a status packet comes in, and the running status goes out with its timestamp. The state is
  -- then filled in from the arguments, with no timestamp reported yet.
  pub bgb_init-Greeted_iff :
      (byte : ℕ) (transfer : Option (ℕ → W → ℕ × W)) (timestamp : Option (ℕ → W → W)) (w w' : W)
      → Greeted w w' ↔ (
          bgb_init os sock byte transfer timestamp w
          ≡ (true, fresh_state byte transfer timestamp, w'))
  bgb_init-Greeted_iff byte transfer timestamp w w' = (
    Greeted-bgb_init byte transfer timestamp w w',
    λ e.
        subst (Greeted w) (ap (λ r. r.2) e)
          (bgb_init-Greeted byte transfer timestamp w (ap (λ r. r.0) e)),
  )
