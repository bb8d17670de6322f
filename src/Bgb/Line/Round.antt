-- ===== src/Bgb/Line/Round.antt =====
-- source/bgblink.c: a round of `bgb_loop` and the serial line.
use mathlib.Core.List.{append-nil}
use mathlib.Core.Path.{subst}
use libmobile_bgb.Prelude.{
  ℕ, ◌≡◌, refl, sym, Bool, true, false, Option, none, some, List, [], ◌∷◌, ◌++◌, arith, is_nonpos,
  ◌==◌, inl, inr, Option-cases, Bool-cases,
}
use libmobile_bgb.Os.{Os}
use libmobile_bgb.Socket.{socket_hasdata}
use libmobile_bgb.Bgb.Packet.{Packet, packet_bytes, command, Command, sync1, sync3, sync2_answer}
use libmobile_bgb.Bgb.Link.{
  Bgb, bgb_send, bgb_recv, handle_packet, report_timestamp, finish_loop, bgb_loop,
}
use libmobile_bgb.Bgb.Peer.{answered}
use libmobile_bgb.Bgb.Serial.{answered-append}
use libmobile_bgb.Bgb.Line.{Log, Same, IsLog, InStep, AreTied, bgb_send-Extends, bgb_recv-Same}

module _ {W : Type 0} (os : Os W) (log : Log W) (h : IsLog os log) where
  -- A packet that is no answer leaves the answers as they are; an answer is one more.
  answered-echo :
      (p : Packet) (xs : List (List ℕ))
      → command p.cmd ≡ sync3
      → answered (xs ++ (packet_bytes p ∷ [])) ≡ answered xs
  unfolding packet_bytes command
  answered-echo p xs e =
      let cmd : p.cmd ≡ 106 = ground arith in rw answered-append (rw cmd (append-nil (answered xs)))

  answered-answer :
      (byte : ℕ) (xs : List (List ℕ))
      → answered (xs ++ (packet_bytes (sync2_answer byte) ∷ [])) ≡ answered xs ++ (byte ∷ [])
  unfolding packet_bytes
  answered-answer byte xs = rw answered-append

  InStep-Same :
      (first : ℕ) (s : Bgb W) (w w' : W)
      → Same log w w'
      → InStep os log first s w
      → InStep os log first s w'
  InStep-Same first s w w' (sent, returned) k = rw (sent, returned) k

  -- A transfer: the answer goes out, and what the adapter returns is the next one.
  transfer-InStep :
      (first : ℕ) (s : Bgb W) (f : ℕ → W → ℕ × W) (byte : ℕ) (w w1 : W)
      → ((v : W) → log.sent (f byte v).1 ≡ log.sent v)
      → ((v : W) → log.returned (f byte v).1 ≡ log.returned v ++ ((f byte v).0 ∷ []))
      → (log.sent w1 ≡ log.sent w ++ (packet_bytes (sync2_answer s.byte) ∷ []))
        × (log.returned w1 ≡ log.returned w)
      → InStep os log first s w
      → InStep os log first (record s { byte = (f byte w1).0 }) (f byte w1).1
  transfer-InStep first s f byte w w1 sends returns (sent, returned) k =
      rw (sends w1, returns w1, sent, returned, answered-answer s.byte (log.sent w), k) refl

  -- What a round leaves: the callbacks that are tied, and the line in step.
  abbrev Leaves : ℕ → Option ℕ × Bgb W × W → Type 0
  Leaves first (r, s, w) = AreTied os log s × InStep os log first s w

  handle_packet-Leaves :
      (first : ℕ) (s : Bgb W) (p : Packet) (w : W) (c : Command)
      → command p.cmd ≡ c
      → AreTied os log s
      → InStep os log first s w
      → Leaves first (handle_packet os s p w)
  unfolding handle_packet
  handle_packet-Leaves first s p w sync1 e tied k =
      let out = bgb_send-Extends os log h s.socket (sync2_answer s.byte) w in
      let w1 = (bgb_send os s.socket (sync2_answer s.byte) w).1 in
      elim (Option-cases (bgb_send os s.socket (sync2_answer s.byte) w).0) [
        | inl lost ↦
            let ends : handle_packet os s p w ≡ (none, s, w1) = ground arith in
            subst (Leaves first) (sym ends) (tied, InStep-Same first s w w1 (rw lost at out) k)
        | inr (_, went) ↦
            let next : Bgb W = record s { byte = (tied.adapter p.b2 w1).0 } in
            let ends : handle_packet os s p w ≡ (some p.timestamp, next, (tied.adapter p.b2 w1).1) =
              ground (arith, tied.adapter_set) in
            subst (Leaves first) (sym ends) (
              tied,
              transfer-InStep first s tied.adapter p.b2 w w1 (tied.adapter_sent p.b2)
                  (tied.adapter_returned p.b2) (rw went at out) k,
            )
      ]
  handle_packet-Leaves first s p w sync3 e tied k = elim (Bool-cases (p.b2 == 0)) [
    | inl echo ↦
        let out = bgb_send-Extends os log h s.socket p w in
        let w1 = (bgb_send os s.socket p w).1 in
        elim (Option-cases (bgb_send os s.socket p w).0) [
          | inl lost ↦
              let ends : handle_packet os s p w ≡ (none, s, w1) = ground arith in
              subst (Leaves first) (sym ends) (tied, InStep-Same first s w w1 (rw lost at out) k)
          | inr (_, went) ↦
              let (sent, returned) = rw went at out in
              let ends : handle_packet os s p w ≡ (some p.timestamp, s, w1) = ground arith in
              subst (Leaves first) (sym ends)
                (tied, rw (sent, returned, answered-echo p (log.sent w) e) k)
        ]
    | inr quiet ↦
        let ends : handle_packet os s p w ≡ (some p.timestamp, s, w) = ground arith in
        subst (Leaves first) (sym ends) (tied, k)
  ]
  handle_packet-Leaves first s p w _ e tied k = ground arith

  -- The rest of a round changes neither the callbacks, nor the byte, nor the log.
  report_timestamp-Same :
      (s : Bgb W) (t : ℕ) (w : W)
      → AreTied os log s
      → ((report_timestamp s t w).0.callback_transfer ≡ s.callback_transfer)
        × ((report_timestamp s t w).0.callback_timestamp ≡ s.callback_timestamp)
        × ((report_timestamp s t w).0.byte ≡ s.byte)
        × Same log w (report_timestamp s t w).1
  unfolding report_timestamp
  report_timestamp-Same s t w tied = elim (Option-cases s.callback_timestamp) [
    | inl e ↦ ground arith
    | inr (f, e) ↦ ground (arith, tied.clock_same f t w e)
  ]

  finish_loop-Leaves :
      (first : ℕ) (r : Option ℕ × Bgb W × W)
      → Leaves first r
      → AreTied os log (finish_loop r).1 × InStep os log first (finish_loop r).1 (finish_loop r).2
  unfolding finish_loop
  finish_loop-Leaves first (none, s, w) (tied, k) = (tied, k)
  finish_loop-Leaves first (some t, s, w) (tied, k) =
      let (transfer, timestamp, byte, (sent, returned)) = report_timestamp-Same s t w tied in
      (rw (transfer, timestamp) tied, rw (byte, sent, returned) k)

  abbrev Ends : ℕ → Bool × Bgb W × W → Type 0
  Ends first (ok, s, w) = AreTied os log s × InStep os log first s w

  -- A round of `bgb_loop` keeps the callbacks tied, and the line in step.
  pub bgb_loop-InStep :
      (first : ℕ) (s : Bgb W) (w : W)
      → AreTied os log s
      → InStep os log first s w
      → AreTied os log (bgb_loop os s w).1
        × InStep os log first (bgb_loop os s w).1 (bgb_loop os s w).2
  unfolding bgb_loop socket_hasdata
  bgb_loop-InStep first s w tied k =
      let polled = socket_hasdata os s.socket w in
      let k1 = InStep-Same first s w polled.1 (h.poll_same _ 0 w) k in
      let read = bgb_recv os s.socket polled.1 in
      let k2 = InStep-Same first s polled.1 read.1 (bgb_recv-Same os log h s.socket polled.1) k1 in
      elim (Bool-cases (is_nonpos polled.0)) [
        | inl quiet ↦
            let ends : bgb_loop os s w ≡ (true, s, polled.1) = ground arith in
            subst (Ends first) (sym ends) (tied, k1)
        | inr ready ↦ elim (Option-cases read.0) [
          | inl bad ↦
              let ends : bgb_loop os s w ≡ (false, s, read.1) = ground arith in
              subst (Ends first) (sym ends) (tied, k2)
          | inr (p, good) ↦
              let ends : bgb_loop os s w ≡ finish_loop (handle_packet os s p read.1) =
                ground arith in
              subst (Ends first) (sym ends)
                (finish_loop-Leaves first _ (handle_packet-Leaves first s p read.1 _ refl tied k2))
        ]
      ]
