-- ===== src/Main/SignalTests.antt =====
-- Schedules of SIGINT, and the theorems on them for a small emulator.
use libmobile_bgb.Prelude.{ℕ, ◌≡◌, ◌↔◌, refl, Bool, true, false, none, some, [], ◌∷◌, pos}
use libmobile_bgb.Os.{Os}
use libmobile_bgb.Os.Table.{contains, remove, unused}
use libmobile_bgb.SocketImpl.Accounts.{init-Accounts}
use libmobile_bgb.Os.Script.{script_descriptors, Script, script_os, script_poll, script_recv}
use libmobile_bgb.Socket.{socket_hasdata, socket_setblocking, socket_wait}
use libmobile_bgb.SocketImpl.Types.{
  socket_impl_init, assert_open, assert_closed, sock_type, sock_addrtype,
}
use libmobile_bgb.SocketImpl.Defs.{
  socket_impl_stop, socket_impl_open, open_socket, prepare, socket_impl_listen,
}
use libmobile_bgb.SocketImpl.Callbacks.{perform}
use libmobile_bgb.Bgb.Packet.{packet_bytes, bytes_packet, command}
use libmobile_bgb.Bgb.Link.{
  bgb_send, bgb_recv, bgb_loop, handle_packet, report_timestamp, finish_loop, clock_lag,
}
use libmobile_bgb.Main.User.{bgb_loop_timestamp, bgb_loop_timestamp_init}
use libmobile_bgb.Main.Session.{
  Process, main_run, main_work, main_loop, main_round, wait_clock, mobile_handle_loop, fetch_action,
  filter_actions, open_sockets,
}
use libmobile_bgb.Main.Signal.{
  leaves, main_close, Steps, waiting, ended, interrupt, polls, here, next, signal_int,
}
use libmobile_bgb.Main.Signal.Runs.{Steps-main_run}
use libmobile_bgb.Main.Signal.Stop.{IsStopping, Steps-IsStopping}
use libmobile_bgb.Main.Signal.Silent.{IsStillWaiting, Steps-IsStillWaiting}
use libmobile_bgb.Main.Sample.{server-Behaves, never_fails, tried, server, user, linked, expecting}

-- What is left where SIGINT comes after a round.
abbrev stopped : Process (Unit {0}) Script
stopped = (
  record user {
    socket = record { sockets = some 4 ∷ none ∷ [] };
    action = 1;
    bgb_clock = 1000;
    bgb_clock_init = true;
  },
  ([], []),
)

Steps-main_run_example :
    ((trig : Bool) × Steps script_os server 3 false
        (waiting linked expecting)
        trig
        (ended true stopped))
    ↔ ((n : ℕ) × (k : ℕ) × (main_run script_os server n k linked expecting ≡ some (true, stopped)))
Steps-main_run_example = Steps-main_run script_os server linked expecting true stopped

-- SIGINT after one round: a schedule that ends so.
stopped_run : main_run script_os server 1 1 linked expecting ≡ some (true, stopped)
unfolding main_run main_work main_loop main_round wait_clock mobile_handle_loop fetch_action
    filter_actions open_sockets contains remove unused script_poll script_recv bgb_send bgb_recv
    bgb_loop handle_packet report_timestamp finish_loop clock_lag bgb_loop_timestamp
    bgb_loop_timestamp_init socket_hasdata socket_wait socket_setblocking socket_impl_stop
    socket_impl_init packet_bytes bytes_packet command perform socket_impl_open open_socket prepare
    socket_impl_listen assert_open assert_closed sock_type sock_addrtype tried
stopped_run = refl

stopped_schedule :
    (trig : Bool) × Steps script_os server 3 false
      (waiting linked expecting)
      trig
      (ended true stopped)
stopped_schedule =
    (Steps-main_run script_os server linked expecting true stopped).1 (1, 1, stopped_run)

-- What is left where SIGINT comes at once.
abbrev closed : Process (Unit {0}) Script
closed = main_close script_os server 3 expecting

-- A system on which nothing ever comes.
abbrev deaf : Os Script
deaf = record script_os { poll = λ fds delay w. (pos 0, w) }

Steps-IsStillWaiting_example : IsStillWaiting deaf server 3 linked user (waiting linked expecting)
unfolding socket_hasdata signal_int bgb_loop
Steps-IsStillWaiting_example =
    Steps-IsStillWaiting deaf server 3 linked user refl (λ w. refl) (waiting linked expecting)
      (waiting linked expecting) (refl, refl)
      (next (polls refl refl) (next (interrupt {trig = false} refl) (next (polls refl refl) here)))

-- SIGINT in the main loop.
Steps-IsStopping_example :
    (true ≡ true)
    × IsStopping script_os server 3 linked expecting script_descriptors
        (contains (3 ∷ []))
        (ended true closed)
    × ((v' : Process (Unit {0}) Script) × Steps script_os server 3 true
          (ended true closed)
          true
          (ended true v'))
Steps-IsStopping_example =
    Steps-IsStopping script_os server 3 linked expecting script_descriptors (contains (3 ∷ []))
      never_fails server-Behaves
      (init-Accounts script_os script_descriptors (contains (3 ∷ [])) 2 expecting.1 (λ d. refl))
      true (ended true closed) (next (leaves refl refl) here)
