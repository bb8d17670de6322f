-- ===== src/Main/Signal/Stop.antt =====
-- source/main.c: the main loop after SIGINT.
use libmobile_bgb.Prelude.{ℕ, ◌≡◌, refl, false, ap, ◌∙◌, Bool, true, not, ◌&&◌, ◌==◌, is_minus_one}
use libmobile_bgb.Os.{Os}
use libmobile_bgb.Os.Descriptors.{Descriptors}
use libmobile_bgb.Socket.{socket_setblocking}
use libmobile_bgb.SocketImpl.Defs.{socket_impl_stop}
use libmobile_bgb.SocketImpl.Accounts.{Accounts, stop-closes}
use libmobile_bgb.SocketImpl.Lifetime.{perform_all-Accounts}
use libmobile_bgb.Main.Running.{Behaves}
use libmobile_bgb.Bgb.Link.{Bgb}
use libmobile_bgb.Main.Session.{Process, Mobile}
use libmobile_bgb.Main.Signal.{
  Phase, waiting, running, ended, signal_int, main_close, Step, interrupt, polls, fails, starts,
  turns, breaks, leaves, Steps, here, next,
}

module _ {A W : Type 0} (os : Os W) (m : Mobile A W) (bgb_sock : ℕ) (s : Bgb (Process A W))
    (v : Process A W) where
  -- The program is still where SIGINT found it, or it has ended with what `main_close` leaves.
  abbrev IsLeft : Phase A W → Type 0
  IsLeft (waiting s' v') = ⊥
  IsLeft (running s' v') = (s' ≡ s) × (v' ≡ v)
  IsLeft (ended ok v') = (ok ≡ true) × (v' ≡ main_close os m bgb_sock v)

  Step-IsLeft :
      {trig trig' : Bool} {p p' : Phase A W}
      → Step os m bgb_sock trig p trig' p'
      → trig ≡ true
      → IsLeft p
      → (trig' ≡ true) × IsLeft p'
  unfolding signal_int
  Step-IsLeft (interrupt e) set h = (e, h)
  Step-IsLeft (polls still round) set h = absurd h
  Step-IsLeft (fails still round) set h = absurd h
  Step-IsLeft (starts known e e') set h = absurd h
  Step-IsLeft (turns quiet round) set h = absurd (cc)
  Step-IsLeft (breaks quiet round e e') set h = absurd (cc)
  Step-IsLeft (leaves _ e) set (link, process) =
      (set, (refl, e ∙ ap (main_close os m bgb_sock) process))

  Steps-stop :
      {trig trig' : Bool} {p p' : Phase A W}
      → Steps os m bgb_sock trig p trig' p'
      → trig ≡ true
      → IsLeft p
      → (trig' ≡ true) × IsLeft p'
  Steps-stop here set h = (set, h)
  Steps-stop (next step rest) set h =
      let (set', h') = Step-IsLeft step set h in Steps-stop rest set' h'

  -- What `main_close` leaves, by the descriptors that are open.
  module _ (D : Descriptors os) (base : ℕ → Bool) where
    open D use {is_open}

    -- The program is still where SIGINT found it; or it has ended well, and what is open is what was
    -- open besides the adapter's connections, but for the connection to the emulator.
    abbrev pub IsStopping : Phase A W → Type 0
    IsStopping (waiting s' v') = ⊥
    IsStopping (running s' v') = (s' ≡ s) × (v' ≡ v)
    IsStopping (ended ok v') =
        (ok ≡ true) × ((d : ℕ) → is_open v'.1 d ≡ (not (d == bgb_sock) && base d))

    module _ (never : (fd : ℕ) (w : W) → is_minus_one (socket_setblocking os fd false w).0 ≡ false)
        (behaves : Behaves os m) (accounts : Accounts os D base v.0.socket v.1) where
      main_close-closes :
          (d : ℕ) → is_open (main_close os m bgb_sock v).1 d ≡ (not (d == bgb_sock) && base d)
      unfolding main_close
      main_close-closes d =
          let v1 = m.stop v in
          let h = behaves.stop_calls v in
          let stopped =
            perform_all-Accounts os D base never h.calls v.0.socket v.1 _ h.performed accounts in
          D.close_closes bgb_sock (socket_impl_stop os v1.0.socket v1.1) d
          ∙ ap (λ b. not (d == bgb_sock) && b) (stop-closes os D base v1.0.socket v1.1 d stopped)

      IsLeft-IsStopping : (p : Phase A W) → IsLeft p → IsStopping p
      IsLeft-IsStopping (waiting s' v') h = h
      IsLeft-IsStopping (running s' v') h = h
      IsLeft-IsStopping (ended ok v') (good, end) = (good, λ d. rw end (main_close-closes d))

      IsLeft-ends :
          (p : Phase A W)
          → IsLeft p
          → (v' : Process A W) × Steps os m bgb_sock true p true (ended true v')
      IsLeft-ends (waiting s' v') h = absurd h
      IsLeft-ends (running s' v') h = (main_close os m bgb_sock v', next (leaves refl refl) here)
      IsLeft-ends (ended ok v') (good, end) = (v', rw good here)

      -- Where making a descriptor non-blocking never fails, libmobile only makes calls of its socket
      -- callbacks that pass their assertions, and the descriptors are accounted for: from any moment of
      -- the main loop on at which SIGINT has come, whatever happens, the flag stays set, and the program
      -- waits to look at it, with the link and the process as they are, or has ended well, and the open
      -- descriptors are those that were open besides the adapter's connections, but for the connection
      -- to the emulator; and from there it can end well.
      pub Steps-IsStopping :
          (trig' : Bool) (p' : Phase A W)
          → Steps os m bgb_sock true (running s v) trig' p'
          → (trig' ≡ true)
            × IsStopping p'
            × ((v' : Process A W) × Steps os m bgb_sock trig' p' true (ended true v'))
      Steps-IsStopping trig' p' steps =
          let (set, left) = Steps-stop steps refl (refl, refl) in
          (set, IsLeft-IsStopping p' left, rw set (IsLeft-ends p' left))
