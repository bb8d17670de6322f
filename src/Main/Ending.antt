-- ===== src/Main/Ending.antt =====
-- source/main.c: the main loop from the end of the wait for the clock on, and what `main` leaves.
use mathlib.Core.Path.{subst}
use libmobile_bgb.Prelude.{
  ℕ, ◌≡◌, refl, ◌∙◌, ap, Bool, true, false, not, ◌&&◌, Option, none, some, arith, ◌==◌,
  is_minus_one,
}
use libmobile_bgb.Os.{Os}
use libmobile_bgb.Os.Descriptors.{Descriptors}
use libmobile_bgb.Socket.{socket_setblocking}
use libmobile_bgb.SocketImpl.Defs.{socket_impl_stop}
use libmobile_bgb.SocketImpl.Accounts.{stop-closes}
use libmobile_bgb.Bgb.Link.{Bgb}
use libmobile_bgb.Main.User.{bgb_loop_timestamp, bgb_loop_timestamp_init}
use libmobile_bgb.Main.Session.{Mobile, Process, on_user, main_loop, wait_clock, main_work}
use libmobile_bgb.Main.Running.{Behaves, Running, history-Running}
use libmobile_bgb.Main.Rounds.{IsRunning, main_loop-IsRunning, wait_clock-HasWaited}

-- The state of the link when the main loop begins, after the wait.
abbrev pub at_work : {A W : Type 0} → Bgb (Process A W) → Bgb (Process A W)
at_work s = record s { callback_timestamp = some (on_user bgb_loop_timestamp) }

module _ {A W : Type 0} (os : Os W) (D : Descriptors os) (base : ℕ → Bool)
    (never : (fd : ℕ) (w : W) → is_minus_one (socket_setblocking os fd false w).0 ≡ false)
    (m : Mobile A W) (behaves : Behaves os m) where
  open D use {is_open}

  main_loop_works :
      (waiting rounds : ℕ) (s s1 : Bgb (Process A W)) (v v1 : Process A W)
      → IsRunning os D base false never m behaves bgb_loop_timestamp_init s v
      → wait_clock os m waiting s v ≡ some (true, s1, v1)
      → IsRunning os D base true never m behaves bgb_loop_timestamp
          (main_loop os m rounds (at_work s1) (m.start v1)).0
          (main_loop os m rounds (at_work s1) (m.start v1)).1
  main_loop_works waiting rounds s s1 v v1 h e =
      let ((r, linked), known) =
        wait_clock-HasWaited os D base false never m behaves waiting s v (true, s1, v1) e h in
      let r' : Running os D base true s1.timestamp_init s1.timestamp_last v1 = record {
        accounts = r.accounts;
        in_time = r.in_time;
        waited = r.waited;
        stays = λ _. known refl;
      } in
      let started =
        history-Running os D base true never m behaves s1.timestamp_init s1.timestamp_last v1 _
          (behaves.start_calls v1) r' in
      main_loop-IsRunning os D base true never m behaves rounds (at_work s1) (m.start v1)
        (started, record { transfer_set = linked.transfer_set; timestamp_set = refl })

  -- Where making a descriptor non-blocking never fails, and libmobile only makes calls of its socket
  -- callbacks that pass their assertions and leaves the clock alone: if the wait for the first
  -- timestamp, from a process that is running, has ended well, and the main loop has run for any
  -- number of rounds, then the link's clock is initialised, and its last timestamp is the clock of
  -- the adapter.
  pub main_loop-IsInTime :
      (waiting rounds : ℕ) (s s1 : Bgb (Process A W)) (v v1 : Process A W)
      → IsRunning os D base false never m behaves bgb_loop_timestamp_init s v
      → wait_clock os m waiting s v ≡ some (true, s1, v1)
      → ((main_loop os m rounds (at_work s1) (m.start v1)).0.timestamp_init ≡ true)
        × ((main_loop os m rounds (at_work s1) (m.start v1)).0.timestamp_last
            ≡ (main_loop os m rounds (at_work s1) (m.start v1)).1.0.bgb_clock)
  main_loop-IsInTime waiting rounds s s1 v v1 h e =
      let (r, linked) = main_loop_works waiting rounds s s1 v v1 h e in
      let init = r.waited (r.stays refl) in (init, r.in_time init)

  -- What is open at the end of a run that ends well, beside what was open before.
  pub main_work-closes :
      (waiting rounds sock : ℕ) (s : Bgb (Process A W)) (v r : Process A W) (d : ℕ)
      (found : Option (Bool × Bgb (Process A W) × Process A W))
      → IsRunning os D base false never m behaves bgb_loop_timestamp_init s v
      → wait_clock os m waiting s v ≡ found
      → main_work os m rounds sock found ≡ some (true, r)
      → is_open r.1 d ≡ (not (d == sock) && base d)
  unfolding main_work
  main_work-closes waiting rounds sock s v r d none h e e' = absurd (ground arith)
  main_work-closes waiting rounds sock s v r d (some (false, s1, v1)) h e e' = absurd (ground arith)
  main_work-closes waiting rounds sock s v r d (some (true, s1, v1)) h e e' =
      let (running, linked) = main_loop_works waiting rounds s s1 v v1 h e in
      let v2 = (main_loop os m rounds (at_work s1) (m.start v1)).1 in
      let v3 = m.stop v2 in
      let stopped =
        history-Running os D base true never m behaves _ _ v2 v3 (behaves.stop_calls v2) running in
      let w4 = socket_impl_stop os v3.0.socket v3.1 in
      let ends : os.close sock w4 ≡ r.1 = ground (arith, e') in
      subst (λ w. is_open w d ≡ (not (d == sock) && base d)) ends
        (D.close_closes sock w4 d
          ∙ ap (λ b. not (d == sock) && b)
              (stop-closes os D base v3.0.socket v3.1 d stopped.accounts))

  -- Where the wait ends with the link down, nothing of what was open before is closed.
  pub main_work-leaves :
      (waiting rounds sock : ℕ) (s : Bgb (Process A W)) (v r : Process A W) (d : ℕ)
      (found : Option (Bool × Bgb (Process A W) × Process A W))
      → IsRunning os D base false never m behaves bgb_loop_timestamp_init s v
      → wait_clock os m waiting s v ≡ found
      → main_work os m rounds sock found ≡ some (false, r)
      → base d ≡ true
      → is_open r.1 d ≡ true
  unfolding main_work
  main_work-leaves waiting rounds sock s v r d none h e e' b = absurd (ground arith)
  main_work-leaves waiting rounds sock s v r d (some (true, s1, v1)) h e e' b =
      absurd (ground arith)
  main_work-leaves waiting rounds sock s v r d (some (false, s1, v1)) h e e' b =
      let ((running, linked), known) =
        wait_clock-HasWaited os D base false never m behaves waiting s v (false, s1, v1) e h in
      let ends : v1.1 ≡ r.1 = ground (arith, e') in
      rw (← ends) (ground (arith, running.accounts.owned d, b))
