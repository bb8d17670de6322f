-- ===== src/Main/ServedTests.antt =====
-- A session with an emulator that asks for two transfers, and the theorem on its serial line.
use libmobile_bgb.Prelude.{ℕ, ◌+◌, ◌≡◌, refl, Bool, Option, none, some, List, [], ◌∷◌, ◌++◌}
use libmobile_bgb.Os.{Os, inet, in4}
use libmobile_bgb.Socket.{connect_first, socket_connect, socket_hasdata, socket_wait}
use libmobile_bgb.SocketImpl.Types.{socket_impl_init}
use libmobile_bgb.SocketImpl.Defs.{stop_all, socket_impl_stop}
use libmobile_bgb.Main.User.{bgb_loop_timestamp, bgb_loop_timestamp_init}
use libmobile_bgb.Bgb.Link.{
  bgb_send, bgb_recv, bgb_greet, bgb_init, bgb_loop, handle_packet, report_timestamp, finish_loop,
  clock_lag,
}
use libmobile_bgb.Bgb.Packet.{Packet, packet_bytes, bytes_packet, command, same_bytes, cmd_sync1}
use libmobile_bgb.Bgb.Peer.{Peer, peer_send, peer_recv, peer_poll, peer_os, answered}
use libmobile_bgb.Bgb.Line.{IsLog}
use libmobile_bgb.Bgb.Logged.{peer_log, peer-IsLog}
use libmobile_bgb.Main.Session.{
  Mobile, Process, main_session, main_connected, main_run, main_work, main_loop, main_round,
  wait_clock, mobile_handle_loop, fetch_action, filter_actions, open_sockets, bgb_loop_transfer,
}
use libmobile_bgb.Main.Line.{Records}
use libmobile_bgb.Main.Aside.{IsAside}
use libmobile_bgb.Main.Served.{AreServed, main_session-IsServed}
use libmobile_bgb.Main.Sample.{emulator, user}

-- An emulator that can be reached.
abbrev reachable : Os (Peer ℕ)
reachable = record peer_os { socket = λ f t w. (some 3, w) }

reachable-IsLog : IsLog reachable peer_log
reachable-IsLog = record {
  send_whole = peer-IsLog.send_whole;
  send_cut = peer-IsLog.send_cut;
  send_returned = peer-IsLog.send_returned;
  recv_same = peer-IsLog.recv_same;
  poll_same = λ fds delay w. (refl, refl);
}

reachable-IsAside : IsAside reachable peer_log
reachable-IsAside = record {
  set_errno_same = λ e w. (refl, refl);
  socket_same = λ f t w. (refl, refl);
  connect_same = λ fd a w. (refl, refl);
  close_same = λ fd w. (refl, refl);
  setsockopt_same = λ fd o n w. (refl, refl);
  sigaction_same = λ w. (refl, refl);
}

-- A libmobile that answers each byte with the next one.
abbrev next_byte : Mobile (Unit {0}) (Peer ℕ)
next_byte = record {
  action_none = 0;
  action_reset_serial = 4;
  serial_idle_byte = 210;
  start = λ v. v;
  stop = λ v. v;
  actions_get = λ v. (0, v);
  actions_process = λ a v. v;
  transfer = λ c v. (c + 1, (v.0, record v.1 { returned = v.1.returned ++ ((c + 1) ∷ []) }));
}

next_byte-Records : Records reachable peer_log next_byte
next_byte-Records = record {
  start_same = λ v. (refl, refl);
  stop_same = λ v. (refl, refl);
  actions_get_same = λ v. (refl, refl);
  actions_process_same = λ a v. (refl, refl);
  transfer_sent = λ c v. refl;
  transfer_returned = λ c v. refl;
}

abbrev transfer_packet : ℕ → Packet
transfer_packet byte = record { cmd = cmd_sync1; b2 = byte; b3 = 0x81; b4 = 0; timestamp = 1000 }

abbrev asking : Peer ℕ
asking = record {
  inbox = emulator ++ (packet_bytes (transfer_packet 10) ∷ packet_bytes (transfer_packet 20) ∷ []);
  sent = [];
  room = 9;
  asked = [];
  returned = [];
  user = 0;
}

main_session-IsServed_example : AreServed {A = Unit {0}} peer_log 210 (
    main_session reachable next_byte
      (some ((inet, in4 8765 (127 ∷ 0 ∷ 0 ∷ 1 ∷ [])) ∷ []))
      3
      4
      (user, asking))
main_session-IsServed_example =
    main_session-IsServed reachable peer_log reachable-IsLog reachable-IsAside next_byte
      next_byte-Records (some ((inet, in4 8765 (127 ∷ 0 ∷ 0 ∷ 1 ∷ [])) ∷ [])) 3 4 (user, asking)
      (refl, refl)

-- The answers that went out, and what the adapter returned.
abbrev bytes_of_run : Option (Bool × Process (Unit {0}) (Peer ℕ)) → List ℕ × List ℕ
bytes_of_run none = ([], [])
bytes_of_run (some (status, v)) = (answered v.1.sent, v.1.returned)

main_session_bytes :
    bytes_of_run (
      main_session reachable next_byte
        (some ((inet, in4 8765 (127 ∷ 0 ∷ 0 ∷ 1 ∷ [])) ∷ []))
        3
        4
        (user, asking))
    ≡ (210 ∷ 11 ∷ [], 11 ∷ 21 ∷ [])
unfolding main_session main_connected main_run main_work main_loop main_round wait_clock
    mobile_handle_loop fetch_action filter_actions open_sockets socket_connect connect_first
    bgb_send bgb_recv bgb_greet bgb_init bgb_loop peer_send peer_recv peer_poll handle_packet
    report_timestamp finish_loop clock_lag bgb_loop_timestamp bgb_loop_timestamp_init socket_hasdata
    socket_wait socket_impl_stop stop_all socket_impl_init packet_bytes bytes_packet command
    same_bytes bgb_loop_transfer
main_session_bytes = refl
