-- ===== src/Main/RestartTests.antt =====
-- A round of the main loop in which the clock jumps, with a small emulator.
use libmobile_bgb.Prelude.{◌≡◌, refl, true, false, [], ◌∷◌, arith}
use libmobile_bgb.Os.Script.{Script, script_os, script_poll, script_recv}
use libmobile_bgb.Socket.{socket_hasdata}
use libmobile_bgb.Bgb.Packet.{Packet, packet_bytes, bytes_packet, cmd_sync3, command}
use libmobile_bgb.Bgb.Link.{Bgb, bgb_recv, bgb_loop, handle_packet}
use libmobile_bgb.Main.Session.{Process, process_os, mobile_handle_loop, main_round}
use libmobile_bgb.Main.Ending.{at_work}
use libmobile_bgb.Main.Sample.{server, server-Behaves, user, linked}
use libmobile_bgb.Main.Restart.{restarted, waited, main_round-restarts}

abbrev late : Packet
late = record { cmd = cmd_sync3; b2 = 1; b3 = 0; b4 = 0; timestamp = 0x20000 }

abbrev at_1000 : Bgb (Process (Unit {0}) Script)
at_1000 = at_work (record linked { timestamp_last = 1000; timestamp_init = true })

abbrev before : Process (Unit {0}) Script
before = (record user { bgb_clock = 1000; bgb_clock_init = true }, (3 ∷ [], packet_bytes late ∷ []))

main_round-restarts_example :
    (s1 : Bgb (Process (Unit {0}) Script)) × (v1 : Process (Unit {0}) Script) × (bgb_loop
        (process_os script_os)
        at_1000
        before
      ≡ (true, s1, v1))
    × (s1.timestamp_last ≡ 0x20000)
    × (v1.0.bgb_clock ≡ 0x20000)
    × (main_round script_os server at_1000 before ≡ (
      true,
      s1,
      waited script_os 3 (mobile_handle_loop script_os server (restarted server v1)).1,
    ))
    × ((main_round script_os server at_1000 before).2.0.reset ≡ false)
unfolding packet_bytes bytes_packet command socket_hasdata script_poll script_recv bgb_recv
    handle_packet
main_round-restarts_example =
    main_round-restarts script_os server server-Behaves at_1000 before late 0x20000 refl refl refl
      refl (omega arith) refl refl refl (omega arith) (λ (d, low, high, e). omega arith)
      (λ (d, small, e). omega arith)
