-- ===== src/Bgb/Serial.antt =====
-- source/bgblink.c: the serial line, as a shift register of one byte.
use mathlib.Core.List.{append_assoc, append-nil}
use libmobile_bgb.Prelude.{
  ℕ, zero, suc, ◌≡◌, refl, ap, Option, none, some, List, [], ◌∷◌, ◌++◌, arith, Option-cases, ◌⊎◌,
  inl, inr,
}
use libmobile_bgb.Bgb.Packet.{
  Packet, packet_bytes, bytes_packet, command, Command, sync1, sync3, sync2_answer,
}
use libmobile_bgb.Bgb.Link.{Bgb, bgb_send, handle_packet, report_timestamp, finish_loop, bgb_loop}
use libmobile_bgb.Bgb.Peer.{
  Peer, peer_send, peer_os, logged_transfer, on_user, loops, answered, bgb_loop_quiet,
  bgb_loop_malformed, bgb_loop_delivers,
}

pub answered-append : (xs ys : List (List ℕ)) → answered (xs ++ ys) ≡ answered xs ++ answered ys
answered-append [] ys = refl
answered-append (x ∷ xs) ys = simp (answered-append xs ys, append_assoc)

module _ {U : Type 0} (transfer : ℕ → U → ℕ × U) (report : ℕ → U → U) where
  -- The callbacks of the link.
  pub record IsWired (s : Bgb (Peer U)) : Type 0 where
    pub transfers : s.callback_transfer ≡ some (logged_transfer transfer)
    pub reports : s.callback_timestamp ≡ some (on_user report)

  -- The answers that went out, and the next one to go, are the first byte and the adapter's.
  abbrev pub IsInStep : ℕ → Bgb (Peer U) → Peer U → Type 0
  IsInStep first s w = answered w.sent ++ (s.byte ∷ []) ≡ first ∷ w.returned

  report_timestamp-IsInStep :
      (first : ℕ) (s : Bgb (Peer U)) (t : ℕ) (w : Peer U)
      → IsWired s
      → IsInStep first s w
      → IsWired (report_timestamp s t w).0
        × IsInStep first (report_timestamp s t w).0 (report_timestamp s t w).1
  unfolding report_timestamp
  report_timestamp-IsInStep first s t w wired h = ground arith

  bgb_send-peer :
      (sock : ℕ) (p : Packet) (w : Peer U) (room : ℕ)
      → w.room ≡ room
      → (bgb_send peer_os sock p w ≡ (none, w))
        ⊎ ((left : ℕ) × (bgb_send peer_os sock p w
              ≡ (some tt, record w { sent = w.sent ++ (packet_bytes p ∷ []); room = left })))
  unfolding bgb_send peer_send packet_bytes
  bgb_send-peer sock p w zero e = inl (rw (e, peer_send))
  bgb_send-peer sock p w (suc room) e = inr (room, rw (e, peer_send))

  sync3_cmd : (p : Packet) → command p.cmd ≡ sync3 → p.cmd ≡ 106
  unfolding command
  sync3_cmd p e = ground arith

  -- An echo of a SYNC3 is no answer to a transfer.
  answered-echo :
      (p : Packet) (xs : List (List ℕ))
      → command p.cmd ≡ sync3
      → answered (xs ++ (packet_bytes p ∷ [])) ≡ answered xs
  unfolding packet_bytes
  answered-echo p xs e = rw answered-append (rw (sync3_cmd p e) (append-nil _))

  answered-answer :
      (byte : ℕ) (xs : List (List ℕ))
      → answered (xs ++ (packet_bytes (sync2_answer byte) ∷ [])) ≡ answered xs ++ (byte ∷ [])
  unfolding packet_bytes
  answered-answer byte xs = rw answered-append

  handle_packet-IsInStep :
      (first : ℕ) (s : Bgb (Peer U)) (p : Packet) (w : Peer U) (c : Command)
      → command p.cmd ≡ c
      → IsWired s
      → IsInStep first s w
      → IsWired (handle_packet peer_os s p w).1
        × IsInStep first (handle_packet peer_os s p w).1 (handle_packet peer_os s p w).2
  unfolding handle_packet
  handle_packet-IsInStep first s p w sync1 e wired h = ground (
    arith,
    bgb_send-peer s.socket (sync2_answer s.byte) w w.room refl,
    answered-answer s.byte w.sent,
    ap (λ l. l ++ ((transfer p.b2 w.user).0 ∷ [])) h,
  )
  handle_packet-IsInStep first s p w sync3 e wired h =
      ground (arith, bgb_send-peer s.socket p w w.room refl, answered-echo p w.sent e)
  handle_packet-IsInStep first s p w _ e wired h = ground arith

  finish_loop-IsInStep :
      (first : ℕ) (r : Option ℕ × Bgb (Peer U) × Peer U)
      → IsWired r.1
      → IsInStep first r.1 r.2
      → IsWired (finish_loop r).1 × IsInStep first (finish_loop r).1 (finish_loop r).2
  unfolding finish_loop
  finish_loop-IsInStep first (none, s, w) wired h = (wired, h)
  finish_loop-IsInStep first (some t, s, w) wired h = report_timestamp-IsInStep first s t w wired h

  bgb_loop-IsInStep :
      (first : ℕ) (s : Bgb (Peer U)) (w : Peer U) (inbox : List (List ℕ))
      → w.inbox ≡ inbox
      → IsWired s
      → IsInStep first s w
      → IsWired (bgb_loop peer_os s w).1
        × IsInStep first (bgb_loop peer_os s w).1 (bgb_loop peer_os s w).2
  bgb_loop-IsInStep first s w [] e wired h = rw (bgb_loop_quiet s w e) (wired, h)
  bgb_loop-IsInStep first s w (bytes ∷ rest) e wired h = elim (Option-cases (bytes_packet bytes)) [
    | inl bad ↦ rw (bgb_loop_malformed s w bytes rest e bad) (wired, h)
    | inr (p, good) ↦
        let kept = handle_packet-IsInStep first s p (record w { inbox = rest }) _ refl wired h in
        rw (bgb_loop_delivers s w bytes rest p e good) (finish_loop-IsInStep first _ kept.0 kept.1)
  ]

  -- Where both callbacks are installed, any number of rounds, whatever arrives, in whatever
  -- pieces, and however many packets can be sent, keeps the link in step: the bytes of the answers
  -- that went out, followed by the next one to go, are the initial byte followed by the bytes that
  -- the adapter returned.
  pub loops-IsInStep :
      (n first : ℕ) (s : Bgb (Peer U)) (w : Peer U)
      → IsWired s
      → IsInStep first s w
      → IsInStep first (loops n s w).1 (loops n s w).2
  unfolding loops
  loops-IsInStep zero first s w wired h = h
  loops-IsInStep (suc n) first s w wired h =
      let next = bgb_loop peer_os s w in
      let kept = bgb_loop-IsInStep first s w w.inbox refl wired h in
      ground (arith, kept, loops-IsInStep n first next.1 next.2 kept.0 kept.1)
