-- ===== src/Main/Signal/Rounds.antt =====
-- source/main.c: what a step of `main` is in rounds of its loops.
use libmobile_bgb.Prelude.{ℕ, suc, ◌≡◌, refl, ap, ◌∙◌, Bool, true, false, some, if◌then◌else◌}
use libmobile_bgb.Os.{Os}
use libmobile_bgb.Bgb.Link.{Bgb, bgb_loop}
use libmobile_bgb.Main.User.{bgb_loop_timestamp}
use libmobile_bgb.Main.Session.{
  Process, Mobile, process_os, on_user, main_round, main_loop, wait_clock, main_work,
}
use libmobile_bgb.Main.Rounds.{if_else}
use libmobile_bgb.Main.Waiting.{wait_clock_known, wait_clock_goes_on}
use libmobile_bgb.Main.Signal.{
  Phase, waiting, running, ended, main_close, Step, interrupt, polls, fails, starts, turns, breaks,
  leaves, Steps, here, next,
}

module _ {A W : Type 0} (os : Os W) (m : Mobile A W) (bgb_sock : ℕ) where
  -- Where a phase leads to, by some numbers of rounds.
  abbrev pub Yields : Phase A W → Bool → Process A W → Type 0
  Yields (waiting s v) ok r =
      (n : ℕ) × (k : ℕ) × (main_work os m k bgb_sock (wait_clock os m n s v) ≡ some (ok, r))
  Yields (running s v) ok r =
      (k : ℕ) × ◌≡◌ {A = Bool × Process A W}
        (true, main_close os m bgb_sock (main_loop os m k s v).1) (ok, r)
  Yields (ended ok' r') ok r = ◌≡◌ {A = Bool × Process A W} (ok', r') (ok, r)

  -- The equations of the loops, by what a round does.
  wait_clock_fails :
      (n : ℕ) (s s' : Bgb (Process A W)) (v v' : Process A W)
      → v.0.bgb_clock_init ≡ false
      → bgb_loop (process_os os) s v ≡ (false, s', v')
      → wait_clock os m (suc n) s v ≡ some (false, s', v')
  unfolding wait_clock
  wait_clock_fails n s s' v v' still round =
      if_else _ _ _ still
      ∙ ap (λ q. if q.0 then wait_clock os m n q.1 q.2 else some (false, q.1, q.2)) round

  pub main_loop_turns :
      (k : ℕ) (s s' : Bgb (Process A W)) (v v' : Process A W)
      → main_round os m s v ≡ (true, s', v')
      → main_loop os m (suc k) s v ≡ main_loop os m k s' v'
  unfolding main_loop
  main_loop_turns k s s' v v' round =
      ap (λ q. if q.0 then main_loop os m k q.1 q.2 else (q.1, q.2)) round

  pub main_loop_breaks :
      (k : ℕ) (s s' : Bgb (Process A W)) (v v' : Process A W)
      → main_round os m s v ≡ (false, s', v')
      → main_loop os m (suc k) s v ≡ (s', v')
  unfolding main_loop
  main_loop_breaks k s s' v v' round =
      ap (λ q. if q.0 then main_loop os m k q.1 q.2 else (q.1, q.2)) round

  abbrev pub after_wait : Bgb (Process A W) → Bgb (Process A W)
  after_wait s = record s { callback_timestamp = some (on_user bgb_loop_timestamp) }

  pub main_work_starts :
      (k : ℕ) (s : Bgb (Process A W)) (v : Process A W)
      → main_work os m k bgb_sock (some (true, s, v))
        ≡ some (true, main_close os m bgb_sock (main_loop os m k (after_wait s) (m.start v)).1)
  unfolding main_work main_close
  main_work_starts k s v = refl

  pub main_work_fails :
      (k : ℕ) (s : Bgb (Process A W)) (v : Process A W)
      → main_work os m k bgb_sock (some (false, s, v)) ≡ some (false, v)
  unfolding main_work
  main_work_fails k s v = refl

  Step-Yields :
      {trig trig' : Bool} {p p' : Phase A W} (ok : Bool) (r : Process A W)
      → Step os m bgb_sock trig p trig' p'
      → Yields p' ok r
      → Yields p ok r
  unfolding main_loop
  Step-Yields ok r (interrupt e) y = y
  Step-Yields ok r (polls {s = s} {s' = s'} {v = v} {v' = v'} still round) (n, k, e) = (
    suc n,
    k,
    ap (main_work os m k bgb_sock) (wait_clock_goes_on os m n s s' v v' still round) ∙ e,
  )
  Step-Yields ok r (fails {s = s} {s' = s'} {v = v} {v' = v'} still round) e = (
    1,
    0,
    ap (main_work os m 0 bgb_sock) (wait_clock_fails 0 s s' v v' still round)
        ∙ main_work_fails 0 s' v'
        ∙ ap some e,
  )
  Step-Yields ok r (starts {s = s} {s' = s'} {v = v} {v' = v'} known e e') (k, y) = (
    0,
    k,
    ap (main_work os m k bgb_sock) (wait_clock_known os m 0 s v known)
        ∙ main_work_starts k s v
        ∙ ap some (rw (← e, ← e') y),
  )
  Step-Yields ok r (turns {s = s} {s' = s'} {v = v} {v' = v'} quiet round) (k, y) =
      (suc k, rw (main_loop_turns k s s' v v' round) y)
  Step-Yields ok r (breaks {s = s} {s' = s'} {v = v} {v' = v'} quiet round e e') y =
      (1, rw (main_loop_breaks 0 s s' v v' round) (rw (← e') y))
  Step-Yields ok r (leaves set e) y = (0, rw (← e) y)

  pub Steps-Yields :
      {trig trig' : Bool} {p p' : Phase A W} (ok : Bool) (r : Process A W)
      → Steps os m bgb_sock trig p trig' p'
      → Yields p' ok r
      → Yields p ok r
  Steps-Yields ok r here y = y
  Steps-Yields ok r (next step rest) y = Step-Yields ok r step (Steps-Yields ok r rest y)
