-- ===== src/Main/Signal/Runs.antt =====
-- source/main.c: the steps of `main`, with SIGINT at any moment, against the rounds of its loops.
use libmobile_bgb.Prelude.{ℕ, ◌≡◌, refl, ◌↔◌, Bool, false, some}
use libmobile_bgb.Os.{Os}
use libmobile_bgb.Bgb.Link.{Bgb}
use libmobile_bgb.Main.User.{bgb_loop_timestamp_init}
use libmobile_bgb.Main.Session.{Process, Mobile, on_user, wait_clock, main_run}
use libmobile_bgb.Main.Signal.{waiting, ended, Steps}
use libmobile_bgb.Main.Signal.Rounds.{Steps-Yields}
use libmobile_bgb.Main.Signal.Schedules.{wait_clock-Waits, run-Steps}

module _ {A W : Type 0} (os : Os W) (m : Mobile A W) where
  -- After `bgb_init`, whenever and however often SIGINT comes between the steps of the program: it
  -- can end with a result exactly if `main_run` gives that result for some numbers of rounds of its
  -- two loops.
  pub Steps-main_run :
      (s : Bgb (Process A W)) (v : Process A W) (ok : Bool) (r : Process A W)
      → ((trig : Bool) × Steps os m s.socket false
            (waiting (record s { callback_timestamp = some (on_user bgb_loop_timestamp_init) }) v)
            trig
            (ended ok r))
        ↔ ((n : ℕ) × (k : ℕ) × (main_run os m n k s v ≡ some (ok, r)))
  unfolding main_run
  Steps-main_run s v ok r =
      let s' : Bgb (Process A W) = record s {
        callback_timestamp = some (on_user bgb_loop_timestamp_init);
      } in
      (
        λ h. Steps-Yields os m s.socket ok r h.1 refl,
        λ h.
            run-Steps os m s.socket h.1 s' v (wait_clock os m h.0 s' v) ok r
              (wait_clock-Waits os m s.socket h.0 s' v) h.2,
      )
