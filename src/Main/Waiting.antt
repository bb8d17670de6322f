-- ===== src/Main/Waiting.antt =====
-- source/main.c: how the wait for the first timestamp ends.
use libmobile_bgb.Prelude.{
  ℕ, zero, suc, ◌^◌, ◌<◌, ◌≡◌, refl, ap, ◌∙◌, true, false, some, arith, is_nonpos, if◌then◌else◌,
}
use libmobile_bgb.Os.{Os}
use libmobile_bgb.Socket.{socket_hasdata}
use libmobile_bgb.Bgb.Packet.{Packet, Command, command}
use libmobile_bgb.Bgb.Link.{Bgb, bgb_recv, handle_packet, finish_loop, bgb_loop}
use libmobile_bgb.Bgb.Clock.{report_timestamp_first}
use libmobile_bgb.Main.User.{bgb_loop_timestamp_init}
use libmobile_bgb.Main.Session.{Process, Mobile, process_os, on_user, wait_clock}
use libmobile_bgb.Main.Rounds.{if_else}

-- The switch of `bgb_loop` leaves the clock of the link alone.
handle_packet_clock :
    {W : Type 0} (os : Os W) (s : Bgb W) (p : Packet) (w : W) (c : Command)
    → command p.cmd ≡ c
    → ((handle_packet os s p w).1.timestamp_init ≡ s.timestamp_init)
      × ((handle_packet os s p w).1.callback_timestamp ≡ s.callback_timestamp)
unfolding handle_packet
handle_packet_clock os s p w _ e = ground arith

-- A round of `bgb_loop` that reports the first timestamp.
bgb_loop_first :
    {W : Type 0} (os : Os W) (s : Bgb W) (w : W) (callback : ℕ → W → W) (p : Packet) (t : ℕ)
    → s.callback_timestamp ≡ some callback
    → s.timestamp_init ≡ false
    → is_nonpos (socket_hasdata os s.socket w).0 ≡ false
    → (bgb_recv os s.socket (socket_hasdata os s.socket w).1).0 ≡ some p
    → (handle_packet os s p (bgb_recv os s.socket (socket_hasdata os s.socket w).1).1).0 ≡ some t
    → t < 2 ^ 32
    → (r : Bgb W × W) × (bgb_loop os s w ≡ (true, r.0, callback t r.1))
unfolding bgb_loop finish_loop
bgb_loop_first os s w callback p t installed new ready received handled fits =
    let w2 = (bgb_recv os s.socket (socket_hasdata os s.socket w).1).1 in
    let same = handle_packet_clock os s p w2 (command p.cmd) refl in
    let (_, s3, w3) = handle_packet os s p w2 in
    let first = report_timestamp_first s3 callback (same.1 ∙ installed) t w3 fits (same.0 ∙ new) in
    (
      (record s3 { timestamp_last = t; timestamp_init = true }, w3),
      rw (ready, received, handled) (ap (λ r. (true, r.0, r.1)) first),
    )

module _ {A W : Type 0} (os : Os W) (m : Mobile A W) where
  pub wait_clock_known :
      (waiting : ℕ) (s : Bgb (Process A W)) (v : Process A W)
      → v.0.bgb_clock_init ≡ true
      → wait_clock os m waiting s v ≡ some (true, s, v)
  unfolding wait_clock
  wait_clock_known zero s v h = ground arith
  wait_clock_known (suc waiting) s v h = ground arith

  pub wait_clock_goes_on :
      (waiting : ℕ) (s s' : Bgb (Process A W)) (v v' : Process A W)
      → v.0.bgb_clock_init ≡ false
      → bgb_loop (process_os os) s v ≡ (true, s', v')
      → wait_clock os m (suc waiting) s v ≡ wait_clock os m waiting s' v'
  unfolding wait_clock
  wait_clock_goes_on waiting s s' v v' still round =
      if_else _ _ _ still
      ∙ ap (λ q. if q.0 then wait_clock os m waiting q.1 q.2 else some (false, q.1, q.2)) round

  module _ (s : Bgb (Process A W)) (v : Process A W) (p : Packet) (t : ℕ) where
    -- Where `main` waits with its callback installed: as soon as there is a packet that `bgb_loop`
    -- answers and goes on from with a timestamp of 32 bits, the wait ends well in that round,
    -- whatever number of rounds is left after it, and the adapter has that timestamp.
    pub wait_clock-ends :
        (waiting : ℕ)
        → s.callback_timestamp ≡ some (on_user bgb_loop_timestamp_init)
        → s.timestamp_init ≡ false
        → v.0.bgb_clock_init ≡ false
        → is_nonpos (socket_hasdata (process_os os) s.socket v).0 ≡ false
        → (bgb_recv (process_os os) s.socket (socket_hasdata (process_os os) s.socket v).1).0
          ≡ some p
        → (handle_packet
            (process_os os)
            s
            p
            (bgb_recv (process_os os) s.socket (socket_hasdata (process_os os) s.socket v).1).1).0
          ≡ some t
        → t < 2 ^ 32
        → (r : Bgb (Process A W) × Process A W) × (wait_clock os m (suc waiting) s v
            ≡ some (true, r.0, r.1))
          × (r.1.0.bgb_clock ≡ t)
    unfolding wait_clock bgb_loop_timestamp_init
    wait_clock-ends waiting installed new still ready received handled fits =
        let ((s4, v3), round) =
          bgb_loop_first (process_os os) s v (on_user bgb_loop_timestamp_init) p t installed new
            ready received handled fits in
        let v4 : Process A W = on_user bgb_loop_timestamp_init t v3 in
        (
          (s4, v4),
          wait_clock_goes_on waiting s s4 v v4 still round ∙ wait_clock_known waiting s4 v4 refl,
          refl,
        )
