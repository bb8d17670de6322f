-- ===== src/Bgb/Service.antt =====
-- source/bgblink.c: `bgb_loop`, round after round, while the emulator sends packets that it knows
-- and takes the answers.
use mathlib.Core.List.{append_assoc, append-nil}
use libmobile_bgb.Prelude.{
  ℕ, zero, suc, ◌+◌, ◌≤◌, ◌≡◌, ◌≢◌, refl, Option, none, some, true, List, [], ◌∷◌, ◌++◌, arith,
  length, take, drop, inl, inr, take-nil, drop-nil, Option-cases, ◌-◌, sym,
}
use libmobile_bgb.Bgb.Packet.{
  Packet, packet_bytes, bytes_packet, command, Command, sync1, sync3, unknown, sync2_answer,
}
use libmobile_bgb.Bgb.Link.{Bgb, bgb_send, handle_packet, report_timestamp, finish_loop, bgb_loop}
use libmobile_bgb.Bgb.Peer.{
  Peer, peer_send, peer_os, loops, request_byte, requested, bgb_loop_quiet, bgb_loop_delivers,
}
use libmobile_bgb.Bgb.Serial.{IsWired}

-- Packets that the switch of `bgb_loop` has a case for.
abbrev IsKnown : Option Packet → Type 0
IsKnown none = ⊥
IsKnown (some p) = command p.cmd ≢ unknown

abbrev pub AreKnown : List (List ℕ) → Type 0
AreKnown [] = Unit
AreKnown (bytes ∷ rest) = IsKnown (bytes_packet bytes) × AreKnown rest

module _ {U : Type 0} (transfer : ℕ → U → ℕ × U) (report : ℕ → U → U) where
  -- What a round does to the state of the link and to the world, when it asks for `bytes`.
  record Served (before : Peer U) (bytes : List ℕ) (s : Bgb (Peer U)) (w : Peer U) : Type 0 where
    wired : IsWired transfer report s
    asked : w.asked ≡ before.asked ++ bytes
    inbox : w.inbox ≡ before.inbox
    room : before.room ≤ w.room + 1

  report_timestamp-Served :
      (before : Peer U) (bytes : List ℕ) (s : Bgb (Peer U)) (t : ℕ) (w : Peer U)
      → Served before bytes s w
      → Served before bytes (report_timestamp s t w).0 (report_timestamp s t w).1
  unfolding report_timestamp
  report_timestamp-Served before bytes s t w h = ground arith

  finish_loop-Served :
      (before : Peer U) (bytes : List ℕ) (r : Option ℕ × Bgb (Peer U) × Peer U)
      → r.0 ≢ none
      → Served before bytes r.1 r.2
      → ((finish_loop r).0 ≡ true) × Served before bytes (finish_loop r).1 (finish_loop r).2
  unfolding finish_loop
  finish_loop-Served before bytes (none, s, w) n h = absurd (n refl)
  finish_loop-Served before bytes (some t, s, w) n h =
      (refl, report_timestamp-Served before bytes s t w h)

  send_with_room :
      (sock : ℕ) (p : Packet) (w : Peer U) (room : ℕ)
      → w.room ≡ suc room
      → bgb_send peer_os sock p w
        ≡ (some tt, record w { sent = w.sent ++ (packet_bytes p ∷ []); room = room })
  unfolding bgb_send peer_send packet_bytes
  send_with_room sock p w room e = rw (e, peer_send)

  handle_packet-Served :
      (s : Bgb (Peer U)) (p : Packet) (w : Peer U) (room : ℕ) (c : Command)
      → command p.cmd ≡ c
      → c ≢ unknown
      → w.room ≡ suc room
      → IsWired transfer report s
      → ((handle_packet peer_os s p w).0 ≢ none)
        × Served w
            (request_byte (some p))
            (handle_packet peer_os s p w).1
            (handle_packet peer_os s p w).2
  unfolding handle_packet
  handle_packet-Served s p w room sync1 e k r wired =
      ground (arith, send_with_room s.socket (sync2_answer s.byte) w room r)
  handle_packet-Served s p w room sync3 e k r wired =
      ground (arith, send_with_room s.socket p w room r, append-nil w.asked)
  handle_packet-Served s p w room unknown e k r wired = absurd (k refl)
  handle_packet-Served s p w room _ e k r wired = ground (arith, append-nil w.asked)

  -- One round on a known packet that can be answered.
  bgb_loop-Served :
      (s : Bgb (Peer U)) (w : Peer U) (bytes : List ℕ) (rest : List (List ℕ))
      → w.inbox ≡ bytes ∷ rest
      → IsWired transfer report s
      → IsKnown (bytes_packet bytes)
      → length (bytes ∷ rest) ≤ w.room
      → ((bgb_loop peer_os s w).0 ≡ true)
        × Served
            (record w { inbox = rest })
            (request_byte (bytes_packet bytes))
            (bgb_loop peer_os s w).1
            (bgb_loop peer_os s w).2
  bgb_loop-Served s w bytes rest e wired known room = elim (Option-cases (bytes_packet bytes)) [
    | inl bad ↦ absurd (rw bad at known)
    | inr (p, good) ↦
        let left : w.room ≡ suc (w.room - 1) = omega arith in
        let w2 : Peer U = record w { inbox = rest } in
        let served =
          handle_packet-Served s p w2 (w.room - 1) (command p.cmd) refl (rw good at known) left
            wired in
        rw (bgb_loop_delivers s w bytes rest p e good, good)
          (finish_loop-Served w2 (request_byte (some p)) (handle_packet peer_os s p w2) served.0
            served.1)
  ]

  -- Where both callbacks are installed: if every packet that is there to be read is of a kind that
  -- `bgb_loop` knows, and the emulator takes as many answers as there are packets, then no round
  -- fails; after `n` rounds the first `n` packets have been read, and the adapter was asked to
  -- transfer exactly the bytes of their SYNC1 packets, in order.
  pub loops-serve :
      (n : ℕ) (s : Bgb (Peer U)) (w : Peer U) (inbox : List (List ℕ))
      → w.inbox ≡ inbox
      → IsWired transfer report s
      → AreKnown inbox
      → length inbox ≤ w.room
      → ((loops n s w).0 ≡ true)
        × ((loops n s w).2.inbox ≡ drop n inbox)
        × ((loops n s w).2.asked ≡ w.asked ++ requested (take n inbox))
  unfolding loops
  loops-serve zero s w inbox e wired known room = (refl, e, sym (append-nil _))
  loops-serve (suc n) s w [] e wired known room = ground (
    arith,
    bgb_loop_quiet s w e,
    loops-serve n s w [] e wired tt (omega arith),
    take-nil {A = List ℕ} n,
    drop-nil {A = List ℕ} n,
  )
  loops-serve (suc n) s w (bytes ∷ rest) e wired known room =
      let next = bgb_loop peer_os s w in
      let served = bgb_loop-Served s w bytes rest e wired known.0 room in
      let later =
        loops-serve n next.1 next.2 rest served.1.inbox served.1.wired known.1
          (omega (arith, served.1.room)) in
      ground (
        arith,
        served.0,
        served.1.asked,
        later,
        append_assoc w.asked (request_byte (bytes_packet bytes)) (requested (take n rest)),
      )
