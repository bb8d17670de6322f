-- ===== src/Bgb/Keeps.antt =====
-- source/bgblink.c: what `bgb_loop` keeps, over any operating system and for any callbacks. The
-- relation `K` may speak of the clock of the link: whether it is initialised, and its value.
use libmobile_bgb.Prelude.{
  ℕ, ◌≡◌, refl, sym, ◌∙◌, Bool, true, Option, none, some, arith, inl, inr, Option-cases, Bool-cases,
  is_nonpos,
}
use libmobile_bgb.Os.{Os}
use libmobile_bgb.Socket.{socket_hasdata}
use libmobile_bgb.Bgb.Packet.{
  Packet, packet_bytes, packet_size, command, Command, sync1, sync3, sync2_answer,
}
use libmobile_bgb.Bgb.Exchange.{bgb_greet_keeps}
use libmobile_bgb.Bgb.Link.{
  bgb_greet, bgb_init, Bgb, bgb_send, bgb_recv, handle_packet, report_timestamp, finish_loop,
  bgb_loop,
}

module _ {W : Type 0} (os : Os W) (K : Bool → ℕ → W → Type 0) where
  -- The calls of the link to the system, and the callbacks, keep `K`; a timestamp that is reported
  -- becomes the value of the clock.
  pub record IsKept : Type 0 where
    pub poll_kept :
        (sock : ℕ) (i : Bool) (l : ℕ) (w : W) → K i l w → K i l (socket_hasdata os sock w).1
    pub send_kept :
        (sock : ℕ) (p : Packet) (i : Bool) (l : ℕ) (w : W)
        → K i l w
        → K i l (os.send sock (packet_bytes p) w).1
    pub recv_kept :
        (sock : ℕ) (i : Bool) (l : ℕ) (w : W) → K i l w → K i l (os.recv sock packet_size w).1

  pub record CallbacksKeep (s : Bgb W) : Type 0 where
    pub transfer_kept :
        (f : ℕ → W → ℕ × W) (byte : ℕ) (i : Bool) (l : ℕ) (w : W)
        → s.callback_transfer ≡ some f
        → K i l w
        → K i l (f byte w).1
    pub timestamp_kept :
        (f : ℕ → W → W) (t : ℕ) (i : Bool) (l : ℕ) (w : W)
        → s.callback_timestamp ≡ some f
        → K i l w
        → K true t (f t w)

  -- The relation at a state of the link.
  abbrev pub Holds : Bgb W → W → Type 0
  Holds s w = K s.timestamp_init s.timestamp_last w

  module _ (h : IsKept) where
    pub bgb_send_kept :
        (sock : ℕ) (p : Packet) (i : Bool) (l : ℕ) (w : W)
        → K i l w
        → K i l (bgb_send os sock p w).1
    unfolding bgb_send
    bgb_send_kept sock p i l w k = ground (arith, h.send_kept sock p i l w k)

    pub bgb_recv_kept :
        (sock : ℕ) (i : Bool) (l : ℕ) (w : W) → K i l w → K i l (bgb_recv os sock w).1
    unfolding bgb_recv
    bgb_recv_kept sock i l w k = ground (arith, h.recv_kept sock i l w k)

    -- The callbacks of a state are those of the state before.
    abbrev SameCallbacks : Bgb W → Bgb W → Type 0
    SameCallbacks s s' =
        (s'.callback_transfer ≡ s.callback_transfer)
        × (s'.callback_timestamp ≡ s.callback_timestamp)

    handle_packet_kept :
        (s : Bgb W) (p : Packet) (w : W) (c : Command)
        → command p.cmd ≡ c
        → CallbacksKeep s
        → Holds s w
        → Holds (handle_packet os s p w).1 (handle_packet os s p w).2
          × SameCallbacks s (handle_packet os s p w).1
    unfolding handle_packet
    handle_packet_kept s p w sync1 e c k =
        let sent =
          bgb_send_kept s.socket (sync2_answer s.byte) s.timestamp_init s.timestamp_last w k in
        elim (Option-cases s.callback_transfer) [
          | inl e' ↦ ground (arith, sent)
          | inr (f, e') ↦ ground (
            arith,
            sent,
            c.transfer_kept f p.b2 s.timestamp_init s.timestamp_last
                (bgb_send os s.socket (sync2_answer s.byte) w).1 e' sent,
          )
        ]
    handle_packet_kept s p w sync3 e c k =
        ground (arith, bgb_send_kept s.socket p s.timestamp_init s.timestamp_last w k)
    handle_packet_kept s p w _ e c k = ground arith

    report_timestamp_kept :
        (s : Bgb W) (t : ℕ) (w : W)
        → CallbacksKeep s
        → Holds s w
        → Holds (report_timestamp s t w).0 (report_timestamp s t w).1
          × SameCallbacks s (report_timestamp s t w).0
    unfolding report_timestamp
    report_timestamp_kept s t w c k = elim (Option-cases s.callback_timestamp) [
      | inl e ↦ ground (arith, k)
      | inr (f, e) ↦
          let first = c.timestamp_kept f t s.timestamp_init s.timestamp_last w e k in
          ground (arith, k, first)
    ]

    finish_loop_kept :
        (s : Bgb W) (r : Option ℕ × Bgb W × W)
        → CallbacksKeep s
        → SameCallbacks s r.1
        → Holds r.1 r.2
        → Holds (finish_loop r).1 (finish_loop r).2 × SameCallbacks s (finish_loop r).1
    unfolding finish_loop
    finish_loop_kept s (none, s', w) c same k = (k, same)
    finish_loop_kept s (some t, s', w) c same k =
        let c' : CallbacksKeep s' = record {
          transfer_kept = λ f byte i l v e. c.transfer_kept f byte i l v (sym same.0 ∙ e);
          timestamp_kept = λ f u i l v e. c.timestamp_kept f u i l v (sym same.1 ∙ e);
        } in
        let (k', same') = report_timestamp_kept s' t w c' k in
        (k', (same'.0 ∙ same.0, same'.1 ∙ same.1))

    -- A round of `bgb_loop` keeps the relation, and the callbacks.
    pub bgb_loop_kept :
        (s : Bgb W) (w : W)
        → CallbacksKeep s
        → Holds s w
        → Holds (bgb_loop os s w).1 (bgb_loop os s w).2 × SameCallbacks s (bgb_loop os s w).1
    unfolding bgb_loop
    bgb_loop_kept s w c k =
        let w1 = (socket_hasdata os s.socket w).1 in
        let polled = h.poll_kept s.socket s.timestamp_init s.timestamp_last w k in
        let received = bgb_recv_kept s.socket s.timestamp_init s.timestamp_last w1 polled in
        elim (Bool-cases (is_nonpos (socket_hasdata os s.socket w).0)) [
          | inl e ↦ rw e (polled, (refl, refl))
          | inr e ↦ elim (Option-cases (bgb_recv os s.socket w1).0) [
            | inl e' ↦ rw (e, e') (received, (refl, refl))
            | inr (p, e') ↦
                let kept = handle_packet_kept s p (bgb_recv os s.socket w1).1 _ refl c received in
                rw (e, e') (finish_loop_kept s _ c kept.1 kept.0)
          ]
        ]

    bgb_greet_kept : (sock : ℕ) (i : Bool) (l : ℕ) (w : W) → K i l w → K i l (bgb_greet os sock w).1
    bgb_greet_kept sock i l =
        bgb_greet_keeps os (K i l) (λ sock p w e k. bgb_send_kept sock p i l w k)
          (λ sock w k. bgb_recv_kept sock i l w k) sock

    -- `bgb_init` keeps the relation, whatever it returns.
    pub bgb_init_kept :
        (sock byte : ℕ) (transfer : Option (ℕ → W → ℕ × W)) (timestamp : Option (ℕ → W → W))
        (i : Bool) (l : ℕ) (w : W)
        → K i l w
        → K i l (bgb_init os sock byte transfer timestamp w).2
    unfolding bgb_init
    bgb_init_kept sock byte transfer timestamp i l w k = bgb_greet_kept sock i l w k
