-- ===== src/Main/Signal.antt =====
-- source/main.c: SIGINT, which may come at any moment, and the loops of `main` as steps. The loop
-- that waits for the first timestamp does not read the flag, the main loop reads it once a round.
-- SIGINT comes between two steps and sets the flag: that it may cut a system call short, which then
-- fails with EINTR, is up to the system, which is a parameter.
pub mod Rounds
pub mod Schedules
pub mod Runs
pub mod Silent
pub mod Stop
use libmobile_bgb.Prelude.{ℕ, ◌≡◌, Bool, true, false, some}
use libmobile_bgb.Os.{Os}
use libmobile_bgb.SocketImpl.Defs.{socket_impl_stop}
use libmobile_bgb.Bgb.Link.{Bgb, bgb_loop}
use libmobile_bgb.Main.User.{bgb_loop_timestamp}
use libmobile_bgb.Main.Session.{Process, Mobile, process_os, on_user, main_round}

-- `signal_int`: the flag after the signal.
unfoldable pub signal_int : Bool → Bool
signal_int trig = true

-- Where the program is, after `bgb_init`. It ends well or not.
pub data Phase (A W : Type 0) : Type 0 where
  waiting running : Bgb (Process A W) → Process A W → Phase A W
  ended : Bool → Process A W → Phase A W

module _ {A W : Type 0} (os : Os W) (m : Mobile A W) (bgb_sock : ℕ) where
  -- After the main loop.
  unfoldable pub main_close : Process A W → Process A W
  main_close v =
      let v1 = m.stop v in (v1.0, os.close bgb_sock (socket_impl_stop os v1.0.socket v1.1))

  -- One step, with `signal_int_trig` before and after it.
  pub data Step : Bool → Phase A W → Bool → Phase A W → Type 0 where
    interrupt : {trig trig' : Bool} {p : Phase A W} → trig' ≡ signal_int trig → Step trig p trig' p
    polls :
        {trig : Bool} {s s' : Bgb (Process A W)} {v v' : Process A W}
        → v.0.bgb_clock_init ≡ false
        → bgb_loop (process_os os) s v ≡ (true, s', v')
        → Step trig (waiting s v) trig (waiting s' v')
    fails :
        {trig : Bool} {s s' : Bgb (Process A W)} {v v' : Process A W}
        → v.0.bgb_clock_init ≡ false
        → bgb_loop (process_os os) s v ≡ (false, s', v')
        → Step trig (waiting s v) trig (ended false v')
    starts :
        {trig : Bool} {s s' : Bgb (Process A W)} {v v' : Process A W}
        → v.0.bgb_clock_init ≡ true
        → s' ≡ record s { callback_timestamp = some (on_user bgb_loop_timestamp) }
        → v' ≡ m.start v
        → Step trig (waiting s v) trig (running s' v')
    turns :
        {trig : Bool} {s s' : Bgb (Process A W)} {v v' : Process A W}
        → trig ≡ false
        → main_round os m s v ≡ (true, s', v')
        → Step trig (running s v) trig (running s' v')
    breaks :
        {trig trig' : Bool} {s s' : Bgb (Process A W)} {v v' v'' : Process A W}
        → trig ≡ false
        → main_round os m s v ≡ (false, s', v')
        → trig' ≡ true
        → v'' ≡ main_close v'
        → Step trig (running s v) trig' (ended true v'')
    leaves :
        {trig : Bool} {s : Bgb (Process A W)} {v v' : Process A W}
        → trig ≡ true
        → v' ≡ main_close v
        → Step trig (running s v) trig (ended true v')

  -- Any number of steps.
  pub data Steps : Bool → Phase A W → Bool → Phase A W → Type 0 where
    here : {trig : Bool} {p : Phase A W} → Steps trig p trig p
    next :
        {trig trig' trig'' : Bool} {p p' p'' : Phase A W}
        → Step trig p trig' p'
        → Steps trig' p' trig'' p''
        → Steps trig p trig'' p''
