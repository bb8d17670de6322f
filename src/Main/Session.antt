-- ===== src/Main/Session.antt =====
-- source/main.c: the actions of the adapter, the main loop, and `main` from the connection to the
-- emulator to the end. libmobile is a parameter, as are the addresses that getaddrinfo() finds.
use libmobile_bgb.Prelude.{
  ℕ, zero, suc, Bool, true, false, not, Option, none, some, List, [], ◌∷◌, is_minus_one, ◌==◌,
  if◌then◌else◌,
}
use libmobile_bgb.Os.{Os, Family, SockAddr, no_delay}
use libmobile_bgb.Socket.{clear_bits, socket_wait, socket_connect}
use libmobile_bgb.SocketImpl.Defs.{socket_impl_stop}
use libmobile_bgb.Bgb.Link.{Bgb, bgb_init, bgb_loop}
use libmobile_bgb.Main.User.{MobileUser, bgb_loop_timestamp, bgb_loop_timestamp_init}

-- The process: the user's data, which hold the adapter, and the world.
abbrev pub Process : Type 0 → Type 0 → Type 0
Process A W = MobileUser A × W

-- The functions of libmobile that the loops call, and the numbers that they share. They work on
-- the whole process, by the callbacks.
pub record Mobile (A W : Type 0) : Type 0 where
  pub action_none : ℕ
  pub action_reset_serial : ℕ
  pub serial_idle_byte : ℕ
  pub start : Process A W → Process A W
  pub stop : Process A W → Process A W
  pub actions_get : Process A W → ℕ × Process A W
  pub actions_process : ℕ → Process A W → Process A W
  pub transfer : ℕ → Process A W → ℕ × Process A W

-- The operating system, for a whole process.
abbrev pub process_os : {A W : Type 0} → Os W → Os (Process A W)
process_os os = record {
  errno = λ v. os.errno v.1;
  set_errno = λ e v. (v.0, os.set_errno e v.1);
  inet_ntop_world = λ f host v. (v.0, os.inet_ntop_world f host v.1);
  socket = λ f t v. let (r, w) = os.socket f t v.1 in (r, (v.0, w));
  close = λ fd v. (v.0, os.close fd v.1);
  connect = λ fd a v. let (r, w) = os.connect fd a v.1 in (r, (v.0, w));
  bind = λ fd a v. let (r, w) = os.bind fd a v.1 in (r, (v.0, w));
  listen = λ fd n v. let (r, w) = os.listen fd n v.1 in (r, (v.0, w));
  accept = λ fd v. let (r, w) = os.accept fd v.1 in (r, (v.0, w));
  send = λ fd bytes v. let (r, w) = os.send fd bytes v.1 in (r, (v.0, w));
  recv = λ fd size v. let (r, w) = os.recv fd size v.1 in (r, (v.0, w));
  sendto = λ fd bytes a v. let (r, w) = os.sendto fd bytes a v.1 in (r, (v.0, w));
  recvfrom = λ fd size peek v. let (r, w) = os.recvfrom fd size peek v.1 in (r, (v.0, w));
  poll = λ fds delay v. let (r, w) = os.poll fds delay v.1 in (r, (v.0, w));
  setsockopt = λ fd o n v. let (r, w) = os.setsockopt fd o n v.1 in (r, (v.0, w));
  get_type = λ fd v. let (r, w) = os.get_type fd v.1 in (r, (v.0, w));
  get_error = λ fd v. let (r, w) = os.get_error fd v.1 in (r, (v.0, w));
  sigaction = λ v. let (r, w) = os.sigaction v.1 in (r, (v.0, w));
  get_flags = λ fd v. let (r, w) = os.get_flags fd v.1 in (r, (v.0, w));
  set_flags = λ fd flags v. let (r, w) = os.set_flags fd flags v.1 in (r, (v.0, w));
}

-- The descriptors of the connections that are open, in the order of the table.
unfoldable pub open_sockets : List (Option ℕ) → List ℕ
open_sockets [] = []
open_sockets (none ∷ rest) = open_sockets rest
open_sockets (some fd ∷ rest) = fd ∷ open_sockets rest

-- The callbacks that take a timestamp act on the user's data.
abbrev pub on_user :
    {A W : Type 0} → (ℕ → MobileUser A → MobileUser A) → ℕ → Process A W → Process A W
on_user f t v = (f t v.0, v.1)

module _ {A W : Type 0} (os : Os W) (m : Mobile A W) where
  unfoldable pub filter_actions : ℕ → ℕ
  filter_actions actions = clear_bits actions m.action_reset_serial

  -- `mobile->action = filter_actions(mobile_actions_get(mobile->adapter))`
  unfoldable pub fetch_action : Process A W → Process A W
  unfolding filter_actions
  fetch_action v =
      let (actions, v') = m.actions_get v in (record v'.0 { action = filter_actions actions }, v'.1)

  unfoldable pub mobile_handle_loop : Process A W → Bool × Process A W
  mobile_handle_loop v =
      let restarted = m.start (m.stop v) in
      let v1 = if v.0.reset then (record restarted.0 { reset = false }, restarted.1) else v in
      let v2 = if v1.0.action == m.action_none then fetch_action v1 else v1 in
      let v3 =
        if not (v2.0.action == m.action_none)
        then fetch_action (m.actions_process v2.0.action v2)
        else v2 in
      (true, v3)

  unfoldable pub bgb_loop_transfer : ℕ → Process A W → ℕ × Process A W
  bgb_loop_transfer c v = m.transfer c v

  -- One round of the main loop: whether it goes on.
  unfoldable pub main_round :
      Bgb (Process A W) → Process A W → Bool × Bgb (Process A W) × Process A W
  main_round s v =
      let (ok, s1, v1) = bgb_loop (process_os os) s v in
      let (handled, v2) = mobile_handle_loop v1 in
      let sockets = s.socket ∷ open_sockets v2.0.socket.sockets in
      let (_, w3) = socket_wait os sockets 100 v2.1 in
      if ok then (if handled then (true, s1, (v2.0, w3)) else (false, s1, v2)) else (false, s1, v1)

  -- The main loop, where the signal comes when its flag was read `rounds` times.
  unfoldable pub main_loop : ℕ → Bgb (Process A W) → Process A W → Bgb (Process A W) × Process A W
  main_loop zero s v = (s, v)
  main_loop (suc rounds) s v =
      let (more, s1, v1) = main_round s v in
      let rest = main_loop rounds s1 v1 in if more then rest else (s1, v1)

  -- The loop that waits for the first timestamp: `none` where that did not come in `rounds` rounds,
  -- and otherwise false where `bgb_loop` did.
  unfoldable pub wait_clock :
      ℕ → Bgb (Process A W) → Process A W → Option (Bool × Bgb (Process A W) × Process A W)
  wait_clock zero s v = if v.0.bgb_clock_init then some (true, s, v) else none
  wait_clock (suc rounds) s v =
      let (ok, s1, v1) = bgb_loop (process_os os) s v in
      let rest = wait_clock rounds s1 v1 in
      if v.0.bgb_clock_init then some (true, s, v) else if ok then rest else some (false, s1, v1)

  -- After the wait for the clock: what `main` leaves when it ends well, or at `error`.
  unfoldable pub main_work :
      ℕ → ℕ → Option (Bool × Bgb (Process A W) × Process A W) → Option (Bool × Process A W)
  main_work rounds sock none = none
  main_work rounds sock (some (false, s, v)) = some (false, v)
  main_work rounds sock (some (true, s, v)) =
      let s1 : Bgb (Process A W) = record s {
        callback_timestamp = some (on_user bgb_loop_timestamp);
      } in
      let v1 = m.stop (main_loop rounds s1 (m.start v)).1 in
      some (true, (v1.0, os.close sock (socket_impl_stop os v1.0.socket v1.1)))

  -- After `bgb_init`.
  unfoldable pub main_run : ℕ → ℕ → Bgb (Process A W) → Process A W → Option (Bool × Process A W)
  main_run waiting rounds s v = main_work rounds s.socket (
      wait_clock waiting (record s { callback_timestamp = some (on_user bgb_loop_timestamp_init) })
        v)

  -- With the connection to the emulator.
  unfoldable pub main_connected : ℕ → ℕ → ℕ → Process A W → Option (Bool × Process A W)
  main_connected sock waiting rounds v =
      let (rc, w1) = os.setsockopt sock no_delay 1 v.1 in
      let (handler, w2) = os.sigaction w1 in
      let (ok, s, v3) =
        bgb_init (process_os os) sock m.serial_idle_byte (some bgb_loop_transfer)
          (some (on_user bgb_loop_timestamp)) (v.0, w2) in
      let run = main_run waiting rounds s v3 in
      if is_minus_one rc
      then some (false, (v.0, w1))
      else if is_minus_one handler
      then some (false, (v.0, w2))
      else if ok
      then run
      else some (false, v3)

  -- From the connection to the emulator on.
  unfoldable pub main_session :
      Option (List (Family × SockAddr)) → ℕ → ℕ → Process A W → Option (Bool × Process A W)
  main_session addresses waiting rounds v =
      let (found, w1) = socket_connect os addresses v.1 in
      elim found [
        | none ↦ some (false, (v.0, w1))
        | some sock ↦ main_connected sock waiting rounds (v.0, w1)
      ]
