-- ===== src/Main/Signal/Silent.antt =====
-- source/main.c: the wait for the first timestamp while the emulator is silent.
use libmobile_bgb.Prelude.{ℕ, ◌≡◌, sym, ap, ◌∙◌, Bool, true, false, arith, is_nonpos}
use libmobile_bgb.Os.{Os}
use libmobile_bgb.Socket.{socket_hasdata}
use libmobile_bgb.Bgb.Link.{Bgb, bgb_loop}
use libmobile_bgb.Main.User.{MobileUser}
use libmobile_bgb.Main.Session.{Process, Mobile, process_os}
use libmobile_bgb.Main.Signal.{
  Phase, waiting, running, ended, Step, interrupt, polls, fails, starts, turns, breaks, leaves,
  Steps, here, next,
}

module _ {A W : Type 0} (os : Os W) (m : Mobile A W) (bgb_sock : ℕ) where
  -- The program waits, with the link as it was and the user's data too.
  abbrev pub IsStillWaiting : Bgb (Process A W) → MobileUser A → Phase A W → Type 0
  IsStillWaiting s u (waiting s' v) = (s' ≡ s) × (v.0 ≡ u)
  IsStillWaiting s u (running s' v) = ⊥
  IsStillWaiting s u (ended ok v) = ⊥

  silent_round :
      (s : Bgb (Process A W)) (v : Process A W)
      → is_nonpos (socket_hasdata os s.socket v.1).0 ≡ true
      → bgb_loop (process_os os) s v ≡ (true, s, (v.0, (socket_hasdata os s.socket v.1).1))
  unfolding bgb_loop socket_hasdata
  silent_round s v silent = ground arith

  module _ (s : Bgb (Process A W)) (u : MobileUser A) (new : u.bgb_clock_init ≡ false)
      (silent : (w : W) → is_nonpos (socket_hasdata os s.socket w).0 ≡ true) where
    Step-IsStillWaiting :
        {trig trig' : Bool} {p p' : Phase A W}
        → Step os m bgb_sock trig p trig' p'
        → IsStillWaiting s u p
        → IsStillWaiting s u p'
    Step-IsStillWaiting (interrupt e) h = h
    Step-IsStillWaiting (polls {s = s'} {v = v} still round) (same, user) =
        let quiet = silent_round s' v (rw same (silent v.1)) in
        let e = sym round ∙ quiet in (ap (λ q. q.1) e ∙ same, ap (λ q. q.2.0) e ∙ user)
    Step-IsStillWaiting (fails {s = s'} {v = v} still round) (same, user) =
        let quiet = silent_round s' v (rw same (silent v.1)) in
        let e : false ≡ true = ap (λ q. q.0) (sym round ∙ quiet) in absurd (cc)
    Step-IsStillWaiting (starts {v = v} known e e') (same, user) =
        let e : false ≡ true = sym new ∙ ap (λ w. w.bgb_clock_init) (sym user) ∙ known in
        absurd (cc)
    Step-IsStillWaiting (turns quiet round) h = absurd h
    Step-IsStillWaiting (breaks quiet round e e') h = absurd h
    Step-IsStillWaiting (leaves set e) h = absurd h

    -- Where the adapter's clock is not initialised, and there is never anything to read from the
    -- emulator: whatever happens, SIGINT as often as it may come, the program waits, with the link
    -- and the user's data as they were.
    pub Steps-IsStillWaiting :
        {trig trig' : Bool} (p p' : Phase A W)
        → IsStillWaiting s u p
        → Steps os m bgb_sock trig p trig' p'
        → IsStillWaiting s u p'
    Steps-IsStillWaiting p p' h here = h
    Steps-IsStillWaiting p p' h (next {p' = q} step rest) =
        Steps-IsStillWaiting q p' (Step-IsStillWaiting step h) rest
