-- ===== src/Main/Restart.antt =====
-- source/main.c over source/bgblink.c: the round of the main loop in which the emulator's clock jumps.
use libmobile_bgb.Prelude.{
  ℕ, ◌^◌, ◌<◌, ◌≡◌, refl, ap, ◌∙◌, true, false, some, arith, is_nonpos, Bool, ◌∷◌,
}
use libmobile_bgb.Os.{Os}
use libmobile_bgb.Socket.{socket_hasdata, socket_wait}
use libmobile_bgb.Bgb.Packet.{Packet, Command, command, sync2_answer}
use libmobile_bgb.Bgb.Link.{Bgb, bgb_recv, bgb_send, handle_packet, finish_loop, bgb_loop}
use libmobile_bgb.Bgb.Clock.{IsBehind, report_timestamp_fresh}
use libmobile_bgb.Main.User.{bgb_loop_timestamp}
use libmobile_bgb.Main.Session.{
  Process, Mobile, process_os, on_user, bgb_loop_transfer, mobile_handle_loop, main_round,
  open_sockets,
}
use libmobile_bgb.Main.Running.{Behaves, handle_loop_reset}
use libmobile_bgb.Main.Reset.{IsAhead, timestamp_jump}

module _ {A W : Type 0} (m : Mobile A W) where
  -- The adapter is stopped and started, and the request for that is cleared.
  abbrev pub restarted : Process A W → Process A W
  restarted v = let v1 = m.start (m.stop v) in (record v1.0 { reset = false }, v1.1)

module _ {A W : Type 0} (os : Os W) where
  -- The end of a round.
  abbrev pub waited : ℕ → Process A W → Process A W
  waited sock v = (v.0, (socket_wait os (sock ∷ open_sockets v.0.socket.sockets) 100 v.1).1)

module _ {A W : Type 0} (os : Os W) (m : Mobile A W) (behaves : Behaves os m) where
  bgb_send-user :
      (sock : ℕ) (p : Packet) (v : Process A W) → (bgb_send (process_os os) sock p v).1.0 ≡ v.0
  unfolding bgb_send
  bgb_send-user sock p v = ground arith

  -- The switch of `bgb_loop` leaves the clocks of the link and of the adapter alone.
  handle_packet_clocks :
      (s : Bgb (Process A W)) (p : Packet) (v : Process A W) (c : Command)
      → s.callback_transfer ≡ some (bgb_loop_transfer os m)
      → command p.cmd ≡ c
      → ((handle_packet (process_os os) s p v).1.timestamp_init ≡ s.timestamp_init)
        × ((handle_packet (process_os os) s p v).1.timestamp_last ≡ s.timestamp_last)
        × ((handle_packet (process_os os) s p v).1.callback_timestamp ≡ s.callback_timestamp)
        × ((handle_packet (process_os os) s p v).2.0.bgb_clock ≡ v.0.bgb_clock)
  unfolding handle_packet bgb_loop_transfer
  handle_packet_clocks s p v _ set e =
      let v1 = (bgb_send (process_os os) s.socket (sync2_answer s.byte) v).1 in
      ground (
        arith,
        (behaves.transfer_calls p.b2 v1).clock_same,
        bgb_send-user s.socket (sync2_answer s.byte) v,
        bgb_send-user s.socket p v,
      )

  handle_loop_restarts :
      (v : Process A W)
      → v.0.reset ≡ true
      → mobile_handle_loop os m v ≡ mobile_handle_loop os m (restarted m v)
  unfolding mobile_handle_loop
  handle_loop_restarts v h = rw h refl

  round_goes_on :
      (s s1 : Bgb (Process A W)) (v v1 : Process A W)
      → bgb_loop (process_os os) s v ≡ (true, s1, v1)
      → main_round os m s v ≡ (true, s1, waited os s.socket (mobile_handle_loop os m v1).1)
  unfolding main_round mobile_handle_loop
  round_goes_on s s1 v v1 e = rw e refl

  recv_clock :
      (sock : ℕ) (v : Process A W) → (bgb_recv (process_os os) sock v).1.0.bgb_clock ≡ v.0.bgb_clock
  unfolding bgb_recv
  recv_clock sock v = ground arith

  module _ (s : Bgb (Process A W)) (v : Process A W) (p : Packet) (t : ℕ)
      (reports : s.callback_timestamp ≡ some (on_user bgb_loop_timestamp))
      (transfers : s.callback_transfer ≡ some (bgb_loop_transfer os m))
      (known : s.timestamp_init ≡ true) (same : s.timestamp_last ≡ v.0.bgb_clock)
      (old : v.0.bgb_clock < 2 ^ 32)
      (ready : is_nonpos (socket_hasdata (process_os os) s.socket v).0 ≡ false)
      (received : (bgb_recv
          (process_os os)
          s.socket
          (socket_hasdata (process_os os) s.socket v).1).0
        ≡ some p)
      (handled : (handle_packet
          (process_os os)
          s
          p
          (bgb_recv (process_os os) s.socket (socket_hasdata (process_os os) s.socket v).1).1).0
        ≡ some t)
      (fits : t < 2 ^ 32) (front : ¬ IsBehind v.0.bgb_clock t)
      (far : ¬ IsAhead v.0.bgb_clock t) where
    -- `bgb_loop` reports the jump.
    bgb_loop_jump :
        (s1 : Bgb (Process A W)) × (v1 : Process A W) × (bgb_loop (process_os os) s v
          ≡ (true, s1, v1))
        × (s1.timestamp_last ≡ t)
        × (v1.0.bgb_clock ≡ t)
        × (v1.0.reset ≡ true)
    unfolding bgb_loop finish_loop socket_hasdata
    bgb_loop_jump =
        let v2 : Process A W =
          (bgb_recv (process_os os) s.socket (socket_hasdata (process_os os) s.socket v).1).1 in
        let clock2 : v2.0.bgb_clock ≡ v.0.bgb_clock =
          recv_clock s.socket (socket_hasdata (process_os os) s.socket v).1 in
        let (init3, last3, callback3, clock3) =
          handle_packet_clocks s p v2 (command p.cmd) transfers refl in
        let (_, s3, v3) = handle_packet (process_os os) s p v2 in
        let clock : v3.0.bgb_clock ≡ v.0.bgb_clock = clock3 ∙ clock2 in
        let last : s3.timestamp_last ≡ v.0.bgb_clock = last3 ∙ same in
        let reported =
          report_timestamp_fresh s3 (on_user bgb_loop_timestamp) (callback3 ∙ reports) t v3 fits
            (init3 ∙ known) (omega arith) (λ e. far (0, omega arith, omega arith))
            (rw last front) in
        let jumped = timestamp_jump t v3.0 fits (omega arith) (rw clock far) in
        (
          record s3 { timestamp_last = t },
          (bgb_loop_timestamp t v3.0, v3.1),
          rw (ready, received, handled) (ap (λ r. (true, r.0, r.1)) reported),
          refl,
          ap (λ u. u.bgb_clock) jumped,
          ap (λ u. u.reset) jumped,
        )

    -- In the main loop, where libmobile only makes calls of its socket callbacks that pass their
    -- assertions and touches neither the clock nor the request for a reset, and the link's clock is
    -- initialised and is that of the adapter: if there is a packet that `bgb_loop` answers and goes
    -- on from with a timestamp of 32 bits that lies neither up to 0x100 ticks before that clock nor
    -- up to 0x1000 after it, then the link and the adapter have that timestamp, and in the same
    -- round the adapter is stopped and started before its actions are handled; the main loop goes
    -- on, and no request for a reset is left.
    pub main_round-restarts :
        (s1 : Bgb (Process A W)) × (v1 : Process A W) × (bgb_loop (process_os os) s v
          ≡ (true, s1, v1))
        × (s1.timestamp_last ≡ t)
        × (v1.0.bgb_clock ≡ t)
        × (main_round os m s v
            ≡ (true, s1, waited os s.socket (mobile_handle_loop os m (restarted m v1)).1))
        × ((main_round os m s v).2.0.reset ≡ false)
    main_round-restarts =
        let (s1, v1, round, last, clock, reset) = bgb_loop_jump in
        let goes_on = round_goes_on s s1 v v1 round in
        (
          s1,
          v1,
          round,
          last,
          clock,
          goes_on
              ∙ ap (λ (r : Bool × Process A W). (true, s1, waited os s.socket r.1))
                  (handle_loop_restarts v1 reset),
          ap (λ (r : Bool × Bgb (Process A W) × Process A W). r.2.0.reset) goes_on
              ∙ handle_loop_reset os m behaves v1,
        )
