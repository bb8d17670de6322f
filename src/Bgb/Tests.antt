-- ===== src/Bgb/Tests.antt =====
-- Runs of the link, and its theorems at concrete packets.
use libmobile_bgb.Prelude.{
  ◌↔◌, ℕ, ◌+◌, ◌≡◌, ◌↔◌, refl, true, false, some, none, List, [], ◌∷◌, arith,
}
use libmobile_bgb.Os.Table.{table_os}
use libmobile_bgb.Bgb.Clock.{untimed_first}
use libmobile_bgb.Socket.{socket_hasdata}
use libmobile_bgb.Bgb.Packet.{
  Packet, packet_bytes, bytes_packet, command, same_bytes, handshake, cmd_sync1, cmd_status,
}
use libmobile_bgb.Bgb.Link.{
  Bgb, bgb_init, bgb_loop, bgb_send, bgb_recv, bgb_greet, handle_packet, finish_loop,
  report_timestamp, clock_lag,
}
use libmobile_bgb.Bgb.Reports.{logger, report_all, report_all_lem, reports, latest, deliver}
use libmobile_bgb.Bgb.Peer.{
  Peer, peer_os, peer_send, peer_recv, peer_poll, logged_transfer, on_user, loops, answered,
}
use libmobile_bgb.Bgb.Serial.{IsInStep, loops-IsInStep}
use libmobile_bgb.Bgb.Service.{loops-serve}
use libmobile_bgb.Bgb.Failure.{IsFailure, bgb_loop_fails}
use libmobile_bgb.Bgb.Greeting.{Greeted, bgb_init-Greeted_iff, fresh_state}

abbrev transfer_packet : ℕ → ℕ → Packet
transfer_packet byte t = record { cmd = cmd_sync1; b2 = byte; b3 = 0x81; b4 = 0; timestamp = t }

abbrev status_packet : Packet
status_packet = record { cmd = cmd_status; b2 = 1; b3 = 0; b4 = 0; timestamp = 7 }

-- An adapter that counts the transfers and answers with the byte plus one.
abbrev add_one : ℕ → ℕ → ℕ × ℕ
add_one byte count = (byte + 1, count + 1)

abbrev ignore : ℕ → ℕ → ℕ
ignore t count = count

abbrev link : Bgb (Peer ℕ)
link = record {
  socket = 3;
  byte = 0xd2;
  callback_transfer = some (logged_transfer add_one);
  callback_timestamp = some (on_user ignore);
  timestamp_last = 0;
  timestamp_init = false;
}

-- Two transfers and a status.
abbrev two_transfers : Peer ℕ
two_transfers = record {
  inbox =
      packet_bytes (transfer_packet 10 5)
      ∷ packet_bytes status_packet
      ∷ packet_bytes (transfer_packet 20 9)
      ∷ [];
  sent = [];
  room = 5;
  asked = [];
  returned = [];
  user = 0;
}

two_transfers_answers : answered (loops 3 link two_transfers).2.sent ≡ 0xd2 ∷ 11 ∷ []
unfolding loops bgb_loop bgb_recv bgb_send peer_send peer_recv peer_poll handle_packet finish_loop
    report_timestamp clock_lag command packet_bytes bytes_packet socket_hasdata
two_transfers_answers = refl

loops-IsInStep_example :
    IsInStep add_one ignore 0xd2 (loops 3 link two_transfers).1 (loops 3 link two_transfers).2
loops-IsInStep_example =
    loops-IsInStep add_one ignore 3 0xd2 link two_transfers
      (record { transfers = refl; reports = refl }) refl

loops-serve_example :
    ((loops 3 link two_transfers).0 ≡ true)
    × ((loops 3 link two_transfers).2.inbox ≡ [])
    × ((loops 3 link two_transfers).2.asked ≡ 10 ∷ 20 ∷ [])
unfolding packet_bytes bytes_packet command
loops-serve_example =
    loops-serve add_one ignore 3 link two_transfers two_transfers.inbox refl
      (record { transfers = refl; reports = refl }) (ground arith) (omega arith)

-- An emulator that greets.
abbrev greeter : Peer ℕ
greeter = record two_transfers { inbox = packet_bytes handshake ∷ packet_bytes status_packet ∷ [] }

abbrev greeted : Peer ℕ
greeted = (bgb_init peer_os 3 0xd2 none none greeter).2

greeter-bgb_init : bgb_init peer_os 3 0xd2 none none greeter ≡ (
  true,
  record {
    socket = 3;
    byte = 0xd2;
    callback_transfer = none;
    callback_timestamp = none;
    timestamp_last = 0;
    timestamp_init = false;
  },
  greeted,
)
unfolding bgb_init bgb_greet bgb_send bgb_recv peer_send peer_recv packet_bytes bytes_packet
    same_bytes
greeter-bgb_init = refl

greeter-Greeted : Greeted peer_os 3 greeter greeted
greeter-Greeted = (bgb_init-Greeted_iff peer_os 3 0xd2 none none greeter greeted).1 greeter-bgb_init

bgb_init-Greeted_iff_example : Greeted peer_os 3 greeter greeted ↔ (
    bgb_init peer_os 3 0xd2 none none greeter
    ≡ (true, fresh_state peer_os 3 0xd2 none none, greeted))
bgb_init-Greeted_iff_example = bgb_init-Greeted_iff peer_os 3 0xd2 none none greeter greeted

-- A clock that wraps, jitters and jumps.
abbrev clock_link : Bgb (List ℕ)
clock_link = record {
  socket = 3;
  byte = 0;
  callback_transfer = none;
  callback_timestamp = some logger;
  timestamp_last = 0x7FFFFF00;
  timestamp_init = true;
}

abbrev clock_history : List ℕ
clock_history = 0x7FFFFFF0 ∷ 0x7FFFFF80 ∷ 0 ∷ 0x20000 ∷ 0x20000 ∷ []

clock_history_log : (report_all clock_link clock_history []).1 ≡ 0x7FFFFFF0 ∷ 0 ∷ 0x20000 ∷ []
unfolding report_all report_timestamp clock_lag
clock_history_log = refl

report_all_lem_example :
    report_all clock_link clock_history []
    ≡ (record clock_link { timestamp_last = 0x20000 }, 0x7FFFFFF0 ∷ 0 ∷ 0x20000 ∷ [])
unfolding reports latest deliver
report_all_lem_example =
    report_all_lem clock_link logger clock_history [] refl refl (omega arith) (omega arith)

-- The first packet is a STATUS with the clock 1000.
untimed_first_example :
    finish_loop (
      handle_packet
        (table_os false)
        (record clock_link { timestamp_last = 0; timestamp_init = false })
        (record { cmd = cmd_status; b2 = 1; b3 = 0; b4 = 0; timestamp = 1000 })
        [])
    ≡ (true, record clock_link { timestamp_last = 0; timestamp_init = true }, 0 ∷ [])
unfolding command
untimed_first_example =
    untimed_first (table_os false)
      (record clock_link { timestamp_last = 0; timestamp_init = false })
      (record { cmd = cmd_status; b2 = 1; b3 = 0; b4 = 0; timestamp = 1000 }) logger [] refl refl
      (omega arith) tt

bgb_loop_fails_example :
    ((bgb_loop peer_os link two_transfers).0 ≡ false) ↔ IsFailure peer_os link two_transfers
bgb_loop_fails_example = bgb_loop_fails peer_os link two_transfers

-- A packet of an unknown kind: `bgb_loop` returns false.
abbrev stranger : Peer ℕ
stranger = record two_transfers { inbox = packet_bytes (record status_packet { cmd = 7 }) ∷ [] }

bgb_loop_unknown : (bgb_loop peer_os link stranger).0 ≡ false
unfolding bgb_loop bgb_recv bgb_send peer_send peer_recv peer_poll handle_packet finish_loop
    report_timestamp clock_lag command packet_bytes bytes_packet socket_hasdata
bgb_loop_unknown = refl
