-- ===== src/Main/ProgramTests.antt =====
-- Runs of the whole program, and the theorems on them at concrete arguments.
use libmobile_bgb.Prelude.{◌≡◌, refl, Bool, true, false, none, some, [], ◌∷◌}
use libmobile_bgb.Os.{inet, in4}
use libmobile_bgb.Os.Script.{Script, script_os, script_descriptors}
use libmobile_bgb.Main.User.{MobileUser}
use libmobile_bgb.Main.Args.{
  inet_ipv4, parse_options, main_options, main_set_port, kind, text_unmetered,
}
use libmobile_bgb.Os.Table.{contains, remove, unused}
use libmobile_bgb.Os.Script.{script_poll, script_recv}
use libmobile_bgb.Socket.{
  socket_hasdata, socket_setblocking, socket_wait, socket_connect, connect_first,
}
use libmobile_bgb.SocketImpl.Types.{
  socket_impl_init, assert_open, assert_closed, sock_type, sock_addrtype,
}
use libmobile_bgb.SocketImpl.Defs.{
  socket_impl_stop, socket_impl_open, open_socket, prepare, socket_impl_listen,
}
use libmobile_bgb.SocketImpl.Callbacks.{perform}
use libmobile_bgb.Bgb.Packet.{packet_bytes, bytes_packet, command, same_bytes}
use libmobile_bgb.Bgb.Link.{
  bgb_send, bgb_recv, bgb_greet, bgb_init, bgb_loop, handle_packet, report_timestamp, finish_loop,
  clock_lag,
}
use libmobile_bgb.Main.User.{bgb_loop_timestamp, bgb_loop_timestamp_init}
use libmobile_bgb.Main.Sample.{tried}
use libmobile_bgb.Main.Session.{
  main_session, main_connected, main_run, main_work, main_loop, main_round, wait_clock,
  mobile_handle_loop, fetch_action, filter_actions, open_sockets,
}
use libmobile_bgb.Main.Config.{pad_config}
use libmobile_bgb.Main.Program.{
  main_with_block, main_finish, release_all, main_configure, main_user, main_host, main_defaults,
  Host, Library, nothing_held, exits, main_program, main_parsed, main_opened, main_created,
}
use libmobile_bgb.Main.Setup.{IsSetup, SetsUp, NoSockets}
use libmobile_bgb.Main.Whole.{IsClosed, program-IsClosed}
use libmobile_bgb.Main.Sample.{server, server-Behaves, never_fails, user, emulator}

-- A disk with an empty configuration file, and enough memory or none.
abbrev disk : Bool → Host (Unit {0}) Script
disk enough = record {
  fopen = λ name mode w. (some [], w);
  fclose = λ file w. w;
  malloc_user = λ w. elim enough [ true ↦ (some user, w) | false ↦ (none, w) ];
  free_user = λ u w. w;
  free_adapter = λ a w. w;
  getaddrinfo = λ name port w. (some ((inet, in4 8765 (127 ∷ 0 ∷ 0 ∷ 1 ∷ [])) ∷ []), w);
}

abbrev disk_library : Library (Unit {0}) Script
disk_library = record {
  adapter_blue = 8;
  dns_port = 53;
  default_p2p_port = 1027;
  default_relay_port = 31227;
  relay_token_size = 16;
  config_size = 2;
  max_timers = 4;
  max_connections = 2;
  inet_pton = λ text. inet_ipv4 (1 ∷ 1 ∷ 1 ∷ 1 ∷ []);
  new = λ w. (tt, w);
  config_load = λ v. v;
  config_set_device = λ n b v. v;
  config_set_dns = λ a n v. v;
  config_set_p2p_port = λ n v. v;
  config_set_relay = λ a v. v;
  config_set_relay_token = λ t v. v;
  config_save = λ v. v;
}

unchanged : (v : MobileUser (Unit {0}) × Script) → IsSetup script_os script_descriptors v v
unchanged v = record { sockets_same = refl; clock_init_same = refl; open_same = λ d. refl }

disk_library-SetsUp : SetsUp script_os script_descriptors disk_library
disk_library-SetsUp = record {
  new_same = λ w d. refl;
  load_setup = λ v. unchanged v;
  device_setup = λ n b v. unchanged v;
  dns_setup = λ a n v. unchanged v;
  p2p_port_setup = λ n v. unchanged v;
  relay_setup = λ a v. unchanged v;
  relay_token_setup = λ t v. unchanged v;
  save_setup = λ v. unchanged v;
}

disk-NoSockets : NoSockets script_os script_descriptors (disk true)
disk-NoSockets = record {
  fopen_same = λ name mode w d. refl;
  fclose_same = λ file w d. refl;
  malloc_same = λ w d. refl;
  free_user_same = λ u w d. refl;
  free_adapter_same = λ a w d. refl;
  getaddrinfo_same = λ name port w d. refl;
}

abbrev outset : Script
outset = (2 ∷ 1 ∷ 0 ∷ [], emulator)

-- The program runs for two rounds and ends well.
program_run :
    main_program script_os (disk true) disk_library server 1 2 (text_unmetered ∷ []) outset
    ≡ exits true nothing_held (2 ∷ 1 ∷ 0 ∷ [], [])
unfolding main_program main_parsed main_opened main_created main_with_block main_finish release_all
    main_configure main_user main_host main_defaults main_options parse_options kind main_set_port
    pad_config main_session main_connected main_run main_work main_loop main_round wait_clock
    mobile_handle_loop fetch_action filter_actions open_sockets socket_connect connect_first
    contains remove unused script_poll script_recv bgb_send bgb_recv bgb_greet bgb_init bgb_loop
    handle_packet report_timestamp finish_loop clock_lag bgb_loop_timestamp bgb_loop_timestamp_init
    socket_hasdata socket_wait socket_setblocking socket_impl_stop socket_impl_init packet_bytes
    bytes_packet command same_bytes perform socket_impl_open open_socket prepare socket_impl_listen
    assert_open assert_closed sock_type sock_addrtype tried
program_run = refl

-- Without memory it fails, with the file closed.
program_fails :
    main_program script_os (disk false) disk_library server 1 2 (text_unmetered ∷ []) outset
    ≡ exits false nothing_held outset
unfolding main_program main_parsed main_opened main_created main_with_block main_finish release_all
    main_configure main_user main_host main_defaults main_options parse_options kind main_set_port
    pad_config same_bytes
program_fails = refl

program-IsClosed_example :
    IsClosed script_descriptors outset
      (main_program script_os (disk true) disk_library server 1 2 (text_unmetered ∷ []) outset)
program-IsClosed_example =
    program-IsClosed script_os script_descriptors never_fails server server-Behaves disk_library
      disk_library-SetsUp (disk true) disk-NoSockets 1 2 (text_unmetered ∷ []) outset
