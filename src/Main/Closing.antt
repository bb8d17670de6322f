-- ===== src/Main/Closing.antt =====
-- source/main.c: the descriptors that are open after a run, from the connection to the emulator on.
use mathlib.Core.Path.{subst}
use libmobile_bgb.Prelude.{
  ℕ, ◌≡◌, refl, sym, Bool, true, false, ◌||◌, Option, some, List, arith, ◌==◌, is_minus_one, inl,
  inr, Bool-cases, Option-cases,
}
use libmobile_bgb.Os.{Os, Family, SockAddr, no_delay}
use libmobile_bgb.Os.Descriptors.{Descriptors}
use libmobile_bgb.Socket.{socket_setblocking, socket_connect}
use libmobile_bgb.Socket.Connect.{socket_connect-Returns}
use libmobile_bgb.SocketImpl.Types.{socket_impl_init}
use libmobile_bgb.SocketImpl.Accounts.{Accounts, init-Accounts}
use libmobile_bgb.Bgb.Link.{Bgb, bgb_init}
use libmobile_bgb.Bgb.Keeps.{bgb_init_kept}
use libmobile_bgb.Main.User.{MobileUser, bgb_loop_timestamp, bgb_loop_timestamp_init}
use libmobile_bgb.Main.Session.{
  Mobile, Process, process_os, on_user, bgb_loop_transfer, wait_clock, main_work, main_connected,
  main_run, main_session,
}
use libmobile_bgb.Main.Running.{Behaves, Running, link-Running}
use libmobile_bgb.Main.Ending.{main_work-closes, main_work-leaves}
use libmobile_bgb.Main.Rounds.{IsRunning}

module _ {A W : Type 0} (os : Os W) (D : Descriptors os)
    (never : (fd : ℕ) (w : W) → is_minus_one (socket_setblocking os fd false w).0 ≡ false)
    (m : Mobile A W) (behaves : Behaves os m) where
  open D use {is_open}

  -- What is open besides the adapter's connections.
  abbrev others : W → ℕ → ℕ → Bool
  others w sock d = d == sock || is_open w d

  -- The process when the emulator was reached.
  connected-Running :
      (n sock : ℕ) (u : MobileUser A) (w w' : W)
      → u.socket ≡ socket_impl_init n
      → u.bgb_clock_init ≡ false
      → ((d : ℕ) → is_open w' d ≡ others w sock d)
      → Running os D (others w sock) false false 0 (u, w')
  connected-Running n sock u w w' empty unknown h = record {
    accounts =
        subst (λ s. Accounts os D (others w sock) s w') (sym empty)
          (init-Accounts os D (others w sock) n w' h);
    in_time = λ bad. absurd (ground arith);
    waited = λ bad. absurd (ground arith);
    stays = λ bad. absurd (ground arith);
  }

  module _ (n waiting rounds : ℕ) (addresses : Option (List (Family × SockAddr)))
      (v r : Process A W) (empty : v.0.socket ≡ socket_impl_init n)
      (unknown : v.0.bgb_clock_init ≡ false) where
    -- The world when a connection was made, when it has its options, and when the signal's handler
    -- is installed.
    abbrev reached : W
    reached = (socket_connect os addresses v.1).1

    abbrev handled : ℕ → W
    handled sock = (os.sigaction (os.setsockopt sock no_delay 1 reached).1).1

    reached_open :
        (sock : ℕ)
        → (socket_connect os addresses v.1).0 ≡ some sock
        → (d : ℕ)
        → (is_open reached d ≡ others v.1 sock d)
          × (is_open (os.setsockopt sock no_delay 1 reached).1 d ≡ others v.1 sock d)
          × (is_open (handled sock) d ≡ others v.1 sock d)
    reached_open sock found d =
        let returns = socket_connect-Returns os D addresses v.1 in
        ground (
          arith,
          D.sigaction_keeps (os.setsockopt sock no_delay 1 reached).1 d,
          D.setsockopt_keeps sock no_delay 1 reached d,
          returns.opens d,
        )

    -- What `bgb_init` leaves, whatever it returns.
    abbrev greeted : ℕ → Process A W
    greeted sock =
        (bgb_init (process_os os) sock m.serial_idle_byte (some (bgb_loop_transfer os m))
          (some (on_user bgb_loop_timestamp)) (v.0, handled sock)).2

    abbrev waiting_link : ℕ → Bgb (Process A W)
    waiting_link sock =
        record (bgb_init (process_os os) sock m.serial_idle_byte (some (bgb_loop_transfer os m))
          (some (on_user bgb_loop_timestamp)) (v.0, handled sock)).1 {
            callback_timestamp = some (on_user bgb_loop_timestamp_init);
          }

    greeted-Running :
        (sock : ℕ)
        → (socket_connect os addresses v.1).0 ≡ some sock
        → Running os D (others v.1 sock) false false 0 (greeted sock)
    greeted-Running sock found =
        bgb_init_kept (process_os os) (Running os D (others v.1 sock) false)
          (link-Running os D (others v.1 sock) false never m behaves) sock m.serial_idle_byte
          (some (bgb_loop_transfer os m)) (some (on_user bgb_loop_timestamp)) false 0
          (v.0, handled sock)
          (connected-Running n sock v.0 v.1 (handled sock) empty unknown
            (λ d. (reached_open sock found d).2))

    greeted-IsRunning :
        (sock : ℕ)
        → (socket_connect os addresses v.1).0 ≡ some sock
        → IsRunning os D
            (others v.1 sock)
            false
            never
            m
            behaves
            bgb_loop_timestamp_init
            (waiting_link sock)
            (greeted sock)
    unfolding bgb_init
    greeted-IsRunning sock found =
        (greeted-Running sock found, record { transfer_set = refl; timestamp_set = refl })

    -- Where making a descriptor non-blocking never fails, libmobile only makes calls of its socket
    -- callbacks that pass their assertions, and the process is as `main` has initialised it: if the
    -- run from the connection to the emulator on ends well, the open descriptors are those that
    -- were open before it.
    pub main_session-closes :
        (d : ℕ)
        → main_session os m addresses waiting rounds v ≡ some (true, r)
        → is_open r.1 d ≡ is_open v.1 d
    unfolding main_session main_connected main_run bgb_init
    main_session-closes d e = elim (Option-cases (socket_connect os addresses v.1).0) [
      | inl bad ↦ absurd (ground arith)
      | inr (sock, found) ↦
          let new = (socket_connect-Returns os D addresses v.1).is_new sock found in
          let worked : main_work os m rounds sock
                (wait_clock os m waiting (waiting_link sock) (greeted sock))
              ≡ some (true, r) =
            ground (arith, found) in
          let closed =
            main_work-closes os D (others v.1 sock) never m behaves waiting rounds sock
              (waiting_link sock) (greeted sock) r d _ (greeted-IsRunning sock found) refl worked in
          ground (arith, closed, new)
    ]

    -- Where making a descriptor non-blocking never fails, libmobile only makes calls of its socket
    -- callbacks that pass their assertions, and the process is as `main` has initialised it: if the
    -- emulator was reached, and the run does not end well, the connection to the emulator is still
    -- open at the end.
    pub main_session-leaks :
        (sock : ℕ)
        → (socket_connect os addresses v.1).0 ≡ some sock
        → main_session os m addresses waiting rounds v ≡ some (false, r)
        → is_open r.1 sock ≡ true
    unfolding main_session main_connected main_run bgb_init
    main_session-leaks sock found e =
        let w1 = (os.setsockopt sock no_delay 1 reached).1 in
        let is_others = reached_open sock found sock in
        let running = greeted-Running sock found in
        elim (Bool-cases (is_minus_one (os.setsockopt sock no_delay 1 reached).0)) [
          | inl no_option ↦
              let ends : w1 ≡ r.1 = ground (arith, found) in
              rw (← ends) (ground (arith, is_others.1))
          | inr option ↦ elim (Bool-cases (is_minus_one (os.sigaction w1).0)) [
            | inl no_handler ↦
                let ends : handled sock ≡ r.1 = ground (arith, found) in
                rw (← ends) (ground (arith, is_others.2))
            | inr handler ↦
                elim (Bool-cases
                  (bgb_init (process_os os) sock m.serial_idle_byte (some (bgb_loop_transfer os m))
                    (some (on_user bgb_loop_timestamp)) (v.0, handled sock)).0) [
                      | inl ok ↦
                          let worked : main_work os m rounds sock
                                (wait_clock os m waiting (waiting_link sock) (greeted sock))
                              ≡ some (false, r) =
                            ground (arith, found) in
                          main_work-leaves os D (others v.1 sock) never m behaves waiting rounds
                            sock (waiting_link sock) (greeted sock) r sock _
                            (greeted-IsRunning sock found) refl worked (ground arith)
                      | inr refused ↦
                          let ends : (greeted sock).1 ≡ r.1 = ground (arith, found) in
                          rw (← ends) (ground (arith, running.accounts.owned sock))
                    ]
          ]
        ]
