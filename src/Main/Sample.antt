-- ===== src/Main/Sample.antt =====
-- A small libmobile, and what a small emulator sends, to run the main program with.
use libmobile_bgb.Prelude.{ℕ, ◌≡◌, refl, false, Option, none, some, List, [], ◌∷◌, is_minus_one}
use libmobile_bgb.Os.Script.{Script, script_os}
use libmobile_bgb.Socket.{socket_setblocking}
use libmobile_bgb.SocketImpl.Types.{tcp, ipv4, SocketImpl, socket_impl_init}
use libmobile_bgb.SocketImpl.Callbacks.{Call, sock_open, sock_listen, perform, perform_all}
use libmobile_bgb.Bgb.Packet.{packet_bytes, handshake, cmd_status, cmd_sync3}
use libmobile_bgb.Bgb.Link.{Bgb}
use libmobile_bgb.Main.User.{MobileUser, bgb_loop_timestamp_init}
use libmobile_bgb.Main.Session.{Process, Mobile, on_user, bgb_loop_transfer}
use libmobile_bgb.Main.Running.{IsHistory, Behaves}

-- A libmobile that makes one call, where that passes its assertions.
unfoldable pub tried :
    Process (Unit {0}) Script → Option (SocketImpl × Script) → Process (Unit {0}) Script
tried v none = v
tried v (some (s, w)) = (record v.0 { socket = s }, w)

pub tried-IsHistory :
    (c : Call) (v : Process (Unit {0}) Script) (o : Option (SocketImpl × Script))
    → perform script_os c v.0.socket v.1 ≡ o
    → IsHistory script_os v (tried v o)
unfolding tried perform_all
tried-IsHistory c v none e = record {
  calls = [];
  performed = refl;
  clock_same = refl;
  reset_same = refl;
  clock_init_same = refl;
}
tried-IsHistory c v (some (s, w)) e = record {
  calls = c ∷ [];
  performed = rw (perform_all, e) refl;
  clock_same = refl;
  reset_same = refl;
  clock_init_same = refl;
}

abbrev pub call : Call → Process (Unit {0}) Script → Process (Unit {0}) Script
call c v = tried v (perform script_os c v.0.socket v.1)

-- It opens a socket at the start, and listens as an action.
abbrev pub server : Mobile (Unit {0}) Script
server = record {
  action_none = 0;
  action_reset_serial = 4;
  serial_idle_byte = 210;
  start = call (sock_open 0 tcp ipv4 1027);
  stop = λ v. v;
  actions_get = λ v. (5, v);
  actions_process = λ a. call (sock_listen 0);
  transfer = λ c v. (c, v);
}

pub idle-IsHistory : (v : Process (Unit {0}) Script) → IsHistory script_os v v
unfolding perform_all
idle-IsHistory v = record {
  calls = [];
  performed = refl;
  clock_same = refl;
  reset_same = refl;
  clock_init_same = refl;
}

pub server-Behaves : Behaves script_os server
server-Behaves = record {
  start_calls = λ v. tried-IsHistory _ v _ refl;
  stop_calls = λ v. idle-IsHistory v;
  actions_get_calls = λ v. idle-IsHistory v;
  actions_process_calls = λ a v. tried-IsHistory _ v _ refl;
  transfer_calls = λ c v. idle-IsHistory v;
}

pub never_fails :
    (fd : ℕ) (w : Script) → is_minus_one (socket_setblocking script_os fd false w).0 ≡ false
unfolding socket_setblocking
never_fails fd w = refl

abbrev pub user : MobileUser (Unit {0})
user = record {
  adapter = tt;
  socket = socket_impl_init 2;
  action = 0;
  config = [];
  reset = false;
  bgb_clock = 0;
  bgb_clock_init = false;
  bgb_clock_latch = [];
  number_user = [];
  number_peer = [];
}

-- What the emulator sends: the handshake, its status, and a clock of 1000.
abbrev pub emulator : List (List ℕ)
emulator =
    packet_bytes handshake
    ∷ packet_bytes (record { cmd = cmd_status; b2 = 1; b3 = 0; b4 = 0; timestamp = 999 })
    ∷ packet_bytes (record { cmd = cmd_sync3; b2 = 1; b3 = 0; b4 = 0; timestamp = 1000 })
    ∷ []

-- The link after `bgb_init`, and the process when the timestamp is yet to come.
abbrev pub linked : Bgb (Process (Unit {0}) Script)
linked = record {
  socket = 3;
  byte = 210;
  callback_transfer = some (bgb_loop_transfer script_os server);
  callback_timestamp = some (on_user bgb_loop_timestamp_init);
  timestamp_last = 0;
  timestamp_init = false;
}

abbrev pub expecting : Process (Unit {0}) Script
expecting = (
  user,
  (
    3 ∷ [],
    packet_bytes (record { cmd = cmd_sync3; b2 = 1; b3 = 0; b4 = 0; timestamp = 1000 }) ∷ [],
  ),
)
