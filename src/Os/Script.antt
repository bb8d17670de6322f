-- ===== src/Os/Script.antt =====
-- A small operating system whose world is the list of open descriptors and what each read will
-- return: it meets `Descriptors`.
use libmobile_bgb.Prelude.{ℕ, refl, none, some, List, [], ◌∷◌, Option, ℤ, pos, length}
use libmobile_bgb.Os.{Os, success, stream}
use libmobile_bgb.Os.Descriptors.{Descriptors}
use libmobile_bgb.Os.Table.{contains, remove, unused, fresh, contains-remove, contains-cons}

abbrev pub Script : Type 0
Script = List ℕ × List (List ℕ)

unfoldable pub script_poll : List (List ℕ) → ℤ
script_poll [] = pos 0
script_poll _ = pos 1

unfoldable pub script_recv : List (List ℕ) → Option (List ℕ) × List (List ℕ)
script_recv [] = (none, [])
script_recv (bytes ∷ rest) = (some bytes, rest)

abbrev pub script_os : Os Script
script_os = record {
  errno = λ w. success;
  set_errno = λ e w. w;
  inet_ntop_world = λ f host w. w;
  socket = λ f t w. (some (unused w.0), (unused w.0 ∷ w.0, w.1));
  close = λ fd w. (remove w.0 fd, w.1);
  connect = λ fd a w. (pos 0, w);
  bind = λ fd a w. (pos 0, w);
  listen = λ fd n w. (pos 0, w);
  accept = λ fd w. (some (unused w.0), (unused w.0 ∷ w.0, w.1));
  send = λ fd bytes w. (pos (length bytes), w);
  recv = λ fd size w. let (r, rest) = script_recv w.1 in (r, (w.0, rest));
  sendto = λ fd bytes a w. (pos (length bytes), w);
  recvfrom = λ fd size peek w. (some ([], none), w);
  poll = λ fds delay w. (script_poll w.1, w);
  setsockopt = λ fd o v w. (pos 0, w);
  get_type = λ fd w. (some stream, w);
  get_error = λ fd w. (success, w);
  sigaction = λ w. (pos 0, w);
  get_flags = λ fd w. (pos 2, w);
  set_flags = λ fd flags w. (pos 0, w);
}

abbrev pub script_descriptors : Descriptors script_os
script_descriptors = record {
  is_open = λ w. contains w.0;
  socket_fresh = λ f t w fd e. fresh w.0 fd e;
  socket_opens = λ f t w d. contains-cons (unused w.0) d w.0;
  accept_fresh = λ sock w fd e. fresh w.0 fd e;
  accept_opens = λ sock w d. contains-cons (unused w.0) d w.0;
  close_closes = λ fd w d. contains-remove w.0 fd d;
  bind_keeps = λ sock a w d. refl;
  poll_keeps = λ fds delay w d. refl;
  setsockopt_keeps = λ sock o v w d. refl;
  get_flags_keeps = λ sock w d. refl;
  set_flags_keeps = λ sock flags w d. refl;
  connect_keeps = λ sock a w d. refl;
  listen_keeps = λ sock backlog w d. refl;
  send_keeps = λ sock bytes w d. refl;
  recv_keeps = λ sock size w d. refl;
  sendto_keeps = λ sock bytes a w d. refl;
  recvfrom_keeps = λ sock size peek w d. refl;
  get_type_keeps = λ sock w d. refl;
  sigaction_keeps = λ w d. refl;
  inet_ntop_keeps = λ f host w d. refl;
  set_errno_keeps = λ e w d. refl;
}
