-- ===== src/Main/SessionTests.antt =====
-- Runs of the main program from the connection to the emulator on, and the theorems on them at
-- concrete packets.
use libmobile_bgb.Prelude.{◌≡◌, refl, true, false, none, some, [], ◌∷◌, arith}
use libmobile_bgb.Os.{inet, in4}
use libmobile_bgb.Os.Table.{contains, remove, unused}
use libmobile_bgb.Os.Script.{Script, script_os, script_descriptors, script_poll, script_recv}
use libmobile_bgb.Socket.{
  socket_hasdata, socket_setblocking, socket_wait, socket_connect, connect_first,
}
use libmobile_bgb.Socket.Connect.{Returns, socket_connect-Returns}
use libmobile_bgb.SocketImpl.Types.{
  socket_impl_init, assert_open, assert_closed, sock_type, sock_addrtype,
}
use libmobile_bgb.SocketImpl.Defs.{
  socket_impl_stop, socket_impl_open, open_socket, prepare, socket_impl_listen,
}
use libmobile_bgb.SocketImpl.Callbacks.{perform}
use libmobile_bgb.Bgb.Packet.{packet_bytes, bytes_packet, command, cmd_sync3, same_bytes}
use libmobile_bgb.Bgb.Link.{
  Bgb, bgb_send, bgb_recv, bgb_greet, bgb_init, bgb_loop, handle_packet, report_timestamp,
  finish_loop, clock_lag,
}
use libmobile_bgb.Main.User.{bgb_loop_timestamp, bgb_loop_timestamp_init}
use libmobile_bgb.Main.Sample.{
  tried, server, server-Behaves, never_fails, user, emulator, linked, expecting,
}
use libmobile_bgb.Main.Session.{
  Process, main_session, main_connected, main_run, main_work, main_loop, main_round, wait_clock,
  mobile_handle_loop, fetch_action, filter_actions, open_sockets,
}
use libmobile_bgb.Main.Rounds.{IsRunning}
use libmobile_bgb.Main.Waiting.{wait_clock-ends}
use libmobile_bgb.SocketImpl.Accounts.{init-Accounts}
use libmobile_bgb.Main.Closing.{main_session-closes, main_session-leaks}
use libmobile_bgb.Main.Ending.{at_work, main_loop-IsInTime}

abbrev begins : Process (Unit {0}) Script
begins = (user, (2 ∷ 1 ∷ 0 ∷ [], emulator))

-- What the session leaves after two rounds.
abbrev ended : Process (Unit {0}) Script
ended = (
  record user {
    socket = record { sockets = some 13 ∷ none ∷ [] };
    action = 1;
    bgb_clock = 1000;
    bgb_clock_init = true;
  },
  (2 ∷ 1 ∷ 0 ∷ [], []),
)

session_run :
    main_session script_os server (some ((inet, in4 8765 (127 ∷ 0 ∷ 0 ∷ 1 ∷ [])) ∷ [])) 1 2 begins
    ≡ some (true, ended)
unfolding main_session main_connected main_run main_work main_loop main_round wait_clock
    mobile_handle_loop fetch_action filter_actions open_sockets socket_connect connect_first
    contains remove unused script_poll script_recv bgb_send bgb_recv bgb_greet bgb_init bgb_loop
    handle_packet report_timestamp finish_loop clock_lag bgb_loop_timestamp bgb_loop_timestamp_init
    socket_hasdata socket_wait socket_setblocking socket_impl_stop socket_impl_init packet_bytes
    bytes_packet command same_bytes perform socket_impl_open open_socket prepare socket_impl_listen
    assert_open assert_closed sock_type sock_addrtype tried
session_run = refl

main_session-closes_example : contains ended.1.0 6 ≡ contains begins.1.0 6
main_session-closes_example =
    main_session-closes script_os script_descriptors never_fails server server-Behaves 2 1 2
      (some ((inet, in4 8765 (127 ∷ 0 ∷ 0 ∷ 1 ∷ [])) ∷ [])) begins ended refl refl 6 session_run

-- An emulator that accepts the connection and sends nothing.
abbrev silent : Process (Unit {0}) Script
silent = (user, (2 ∷ 1 ∷ 0 ∷ [], []))

silent_run :
    main_session script_os server (some ((inet, in4 8765 (127 ∷ 0 ∷ 0 ∷ 1 ∷ [])) ∷ [])) 1 2 silent
    ≡ some (false, (user, (6 ∷ 2 ∷ 1 ∷ 0 ∷ [], [])))
unfolding main_session main_connected socket_connect connect_first unused script_recv bgb_send
    bgb_recv bgb_greet bgb_init packet_bytes
silent_run = refl

main_session-leaks_example : contains (6 ∷ 2 ∷ 1 ∷ 0 ∷ []) 6 ≡ true
unfolding socket_connect connect_first unused
main_session-leaks_example =
    main_session-leaks script_os script_descriptors never_fails server server-Behaves 2 1 2
      (some ((inet, in4 8765 (127 ∷ 0 ∷ 0 ∷ 1 ∷ [])) ∷ [])) silent (user, (6 ∷ 2 ∷ 1 ∷ 0 ∷ [], []))
      refl refl 6 refl silent_run

expecting-IsRunning :
    IsRunning script_os script_descriptors
      (contains (3 ∷ []))
      false
      never_fails
      server
      server-Behaves
      bgb_loop_timestamp_init
      linked
      expecting
expecting-IsRunning = (
  record {
    accounts =
        init-Accounts script_os script_descriptors (contains (3 ∷ [])) 2 expecting.1 (λ d. refl);
    in_time = λ bad. absurd (ground arith);
    waited = λ bad. absurd (ground arith);
    stays = λ bad. absurd (ground arith);
  },
  record { transfer_set = refl; timestamp_set = refl },
)

-- The link and the process when the timestamp has come.
abbrev informed : Bgb (Process (Unit {0}) Script)
informed = record linked { timestamp_last = 1000; timestamp_init = true }

abbrev told : Process (Unit {0}) Script
told = (record user { bgb_clock = 1000; bgb_clock_init = true }, (3 ∷ [], []))

wait_run : wait_clock script_os server 1 linked expecting ≡ some (true, informed, told)
unfolding wait_clock bgb_loop handle_packet report_timestamp finish_loop clock_lag bgb_recv
    socket_hasdata script_poll script_recv bgb_loop_timestamp_init packet_bytes bytes_packet command
wait_run = refl

main_loop-IsInTime_example :
    ((main_loop script_os server 2 (at_work informed) (server.start told)).0.timestamp_init ≡ true)
    × ((main_loop script_os server 2 (at_work informed) (server.start told)).0.timestamp_last
        ≡ (main_loop script_os server 2 (at_work informed) (server.start told)).1.0.bgb_clock)
main_loop-IsInTime_example =
    main_loop-IsInTime script_os script_descriptors (contains (3 ∷ [])) never_fails server
      server-Behaves 1 2 linked informed expecting told expecting-IsRunning wait_run

socket_connect-Returns_example :
    Returns script_os script_descriptors begins.1
      (socket_connect script_os (some ((inet, in4 8765 (127 ∷ 0 ∷ 0 ∷ 1 ∷ [])) ∷ [])) begins.1).0
      (socket_connect script_os (some ((inet, in4 8765 (127 ∷ 0 ∷ 0 ∷ 1 ∷ [])) ∷ [])) begins.1).1
socket_connect-Returns_example =
    socket_connect-Returns script_os script_descriptors
      (some ((inet, in4 8765 (127 ∷ 0 ∷ 0 ∷ 1 ∷ [])) ∷ [])) begins.1

wait_clock-ends_example :
    (r : Bgb (Process (Unit {0}) Script) × Process (Unit {0}) Script) × (wait_clock script_os server
        4 linked expecting
      ≡ some (true, r.0, r.1))
    × (r.1.0.bgb_clock ≡ 1000)
unfolding socket_hasdata script_poll script_recv bgb_recv packet_bytes bytes_packet handle_packet
    command
wait_clock-ends_example =
    wait_clock-ends script_os server linked expecting
      (record { cmd = cmd_sync3; b2 = 1; b3 = 0; b4 = 0; timestamp = 1000 }) 1000 3 refl refl refl
      refl refl refl (omega arith)
