-- ===== src/Bgb/Failure.antt =====
-- source/bgblink.c: when `bgb_loop` returns false, over any operating system.
use mathlib.Core.Option.{some-injective}
use mathlib.Core.Path.{subst}
use libmobile_bgb.Prelude.{
  ℕ, ◌≡◌, ◌≢◌, refl, sym, ◌∙◌, ◌↔◌, ◌⊎◌, inl, inr, false, Option, none, some, List, arith, length,
  is_nonpos, is_pos, Option-cases, Bool-cases,
}
use libmobile_bgb.Os.{Os}
use libmobile_bgb.Socket.{socket_hasdata}
use libmobile_bgb.Bgb.Packet.{
  Packet, packet_bytes, packet_size, Command, command, sync1, sync3, unknown, sync2_answer,
}
use libmobile_bgb.Bgb.Codec.{bytes_packet_short, bytes_packet-none}
use libmobile_bgb.Bgb.Link.{Bgb, bgb_send, bgb_recv, handle_packet, finish_loop, bgb_loop}

-- A read fails, or does not give the eight bytes of a packet.
abbrev pub IsBadRead : Option (List ℕ) → Type 0
IsBadRead none = Unit {0}
IsBadRead (some bytes) = length bytes ≢ packet_size

module _ {W : Type 0} (os : Os W) where
  -- The packet is not sent as a whole.
  abbrev pub IsCut : ℕ → Packet → W → Type 0
  IsCut sock p w = is_pos (os.send sock (packet_bytes p) w).0 packet_size ≡ false

  -- The packet is of no known kind, or its answer cannot be sent.
  abbrev pub IsRefused : Bgb W → Packet → Command → W → Type 0
  IsRefused s p sync1 w = IsCut s.socket (sync2_answer s.byte) w
  IsRefused s p sync3 w = (p.b2 ≡ 0) × IsCut s.socket p w
  IsRefused s p unknown w = Unit {0}
  IsRefused s p _ w = ⊥

  bgb_send_fails :
      (sock : ℕ) (p : Packet) (w : W) → ((bgb_send os sock p w).0 ≡ none) ↔ IsCut sock p w
  unfolding bgb_send
  bgb_send_fails sock p w = (λ h. ground arith, λ h. ground arith)

  handle_packet_fails :
      (s : Bgb W) (p : Packet) (w : W) (c : Command)
      → command p.cmd ≡ c
      → ((finish_loop (handle_packet os s p w)).0 ≡ false) ↔ IsRefused s p c w
  unfolding handle_packet finish_loop
  handle_packet_fails s p w sync1 e = (
    λ h. ground (arith, bgb_send_fails s.socket (sync2_answer s.byte) w),
    λ h. ground (arith, bgb_send_fails s.socket (sync2_answer s.byte) w),
  )
  handle_packet_fails s p w sync3 e = (
    λ h. ground (arith, bgb_send_fails s.socket p w),
    λ h. ground (arith, bgb_send_fails s.socket p w),
  )
  handle_packet_fails s p w unknown e = (λ h. tt, λ h. ground arith)
  handle_packet_fails s p w _ e = (λ h. ground arith, λ h. absurd h)

  bgb_recv_fails :
      (sock : ℕ) (w : W)
      → ((bgb_recv os sock w).0 ≡ none) ↔ IsBadRead (os.recv sock packet_size w).0
  unfolding bgb_recv
  bgb_recv_fails sock w = elim (Option-cases (os.recv sock packet_size w).0) [
    | inl e ↦ (λ h. rw e tt, λ h. ground arith)
    | inr (bytes, e) ↦ (
      λ h. rw e (bytes_packet-none bytes (ground arith)),
      λ h.
          let wrong : length bytes ≢ packet_size = rw e at h in
          ground (arith, bytes_packet_short bytes wrong),
    )
  ]

  -- There is something to read, and it is not a packet, or one that is refused.
  abbrev pub IsFailure : Bgb W → W → Type 0
  IsFailure s w =
      let w1 = (socket_hasdata os s.socket w).1 in
      (is_nonpos (socket_hasdata os s.socket w).0 ≡ false)
      × (IsBadRead (os.recv s.socket packet_size w1).0
          ⊎ ((p : Packet) × ((bgb_recv os s.socket w1).0 ≡ some p)
              × IsRefused s p (command p.cmd) (bgb_recv os s.socket w1).1))

  -- The packet that was read is the one that is refused.
  the-IsRefused :
      (s : Bgb W) (w : W) (p : Packet)
      → (bgb_recv os s.socket w).0 ≡ some p
      → IsBadRead (os.recv s.socket packet_size w).0
        ⊎ ((q : Packet) × ((bgb_recv os s.socket w).0 ≡ some q)
            × IsRefused s q (command q.cmd) (bgb_recv os s.socket w).1)
      → IsRefused s p (command p.cmd) (bgb_recv os s.socket w).1
  the-IsRefused s w p good (inl bad) = let lost = (bgb_recv_fails s.socket w).1 bad in absurd (cc)
  the-IsRefused s w p good (inr (q, e, r)) =
      subst (λ q. IsRefused s q (command q.cmd) (bgb_recv os s.socket w).1)
        (some-injective q p (sym e ∙ good)) r

  -- `bgb_loop` returns false exactly if there is something to read and the read fails or does not
  -- give eight bytes, or these are a packet of an unknown kind, a SYNC1 whose answer is not sent as
  -- a whole, or a SYNC3 to be sent back, with 0 in its second byte, that is not sent as a whole.
  pub bgb_loop_fails : (s : Bgb W) (w : W) → ((bgb_loop os s w).0 ≡ false) ↔ IsFailure s w
  unfolding bgb_loop
  bgb_loop_fails s w =
      let w1 = (socket_hasdata os s.socket w).1 in
      elim (Bool-cases (is_nonpos (socket_hasdata os s.socket w).0)) [
        | inl quiet ↦ (λ h. ground arith, λ h. absurd (ground arith))
        | inr ready ↦ elim (Option-cases (bgb_recv os s.socket w1).0) [
          | inl bad ↦ (λ h. (ready, inl ((bgb_recv_fails s.socket w1).0 bad)), λ h. ground arith)
          | inr (p, good) ↦
              let w2 = (bgb_recv os s.socket w1).1 in
              let same : (bgb_loop os s w).0 ≡ (finish_loop (handle_packet os s p w2)).0 =
                rw (bgb_loop, ready, good) refl in
              let handled = handle_packet_fails s p w2 (command p.cmd) refl in
              (
                λ h. (ready, inr (p, good, handled.0 (sym same ∙ h))),
                λ f. same ∙ handled.1 (the-IsRefused s w1 p good f.1),
              )
        ]
      ]
