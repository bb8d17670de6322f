-- ===== src/Main/Signal/Schedules.antt =====
-- source/main.c: a run of `main`, by rounds of its loops, as steps with SIGINT after the last one.
use mathlib.Core.Option.{some-injective, none-ne-some}
use mathlib.Core.Path.{subst}
use libmobile_bgb.Prelude.{
  ℕ, zero, suc, ◌≡◌, refl, sym, ap, ◌∙◌, Bool, true, false, some, none, Option, inl, inr,
  Bool-cases, if◌then◌else◌,
}
use libmobile_bgb.Os.{Os}
use libmobile_bgb.Bgb.Link.{Bgb, bgb_loop}
use libmobile_bgb.Main.Session.{
  Process, Mobile, process_os, main_round, main_loop, wait_clock, main_work,
}
use libmobile_bgb.Main.Signal.{
  Phase, waiting, running, ended, signal_int, main_close, interrupt, polls, fails, starts, turns,
  breaks, leaves, Steps, here, next,
}
use libmobile_bgb.Main.Signal.Rounds.{
  main_loop_turns, main_loop_breaks, after_wait, main_work_starts, main_work_fails,
}

module _ {A W : Type 0} (os : Os W) (m : Mobile A W) (bgb_sock : ℕ) where
  -- The other way: SIGINT comes after the last round.
  loop-Steps :
      (k : ℕ) (s : Bgb (Process A W)) (v : Process A W)
      → Steps os m bgb_sock false
          (running s v)
          true
          (ended true (main_close os m bgb_sock (main_loop os m k s v).1))
  unfolding main_loop signal_int
  loop-Steps zero s v = next (interrupt refl) (next (leaves refl refl) here)
  loop-Steps (suc k) s v =
      let (more, s', v') = main_round os m s v in
      elim (Bool-cases more) [
        | inl on ↦
            let round : main_round os m s v ≡ (true, s', v') = ap (λ b. (b, s', v')) on in
            next (turns refl round) (
              subst
                (λ r.
                  Steps os m bgb_sock false (running s' v') true
                    (ended true (main_close os m bgb_sock r.1)))
                (sym (main_loop_turns os m bgb_sock k s s' v v' round)) (loop-Steps k s' v'))
        | inr off ↦
            let round : main_round os m s v ≡ (false, s', v') = ap (λ b. (b, s', v')) off in
            next
              (breaks refl round refl (
                ap (λ r. main_close os m bgb_sock r.1)
                  (main_loop_breaks os m bgb_sock k s s' v v' round)))
              here
      ]

  -- Where the wait leads to.
  abbrev pub Waits :
      Bgb (Process A W) → Process A W → Option (Bool × Bgb (Process A W) × Process A W) → Type 0
  Waits s v none = Unit {0}
  Waits s v (some (false, s', v')) = Steps os m bgb_sock false (waiting s v) false (ended false v')
  Waits s v (some (true, s', v')) =
      Steps os m bgb_sock false (waiting s v) false
        (running (after_wait os m bgb_sock s') (m.start v'))

  if_Waits :
      (s : Bgb (Process A W)) (v : Process A W) (b : Bool)
      (r r' : Option (Bool × Bgb (Process A W) × Process A W))
      → (b ≡ true → Waits s v r)
      → (b ≡ false → Waits s v r')
      → Waits s v (if b then r else r')
  if_Waits s v true r r' h h' = h refl
  if_Waits s v false r r' h h' = h' refl

  polls-Waits :
      (s s' : Bgb (Process A W)) (v v' : Process A W)
      (r : Option (Bool × Bgb (Process A W) × Process A W))
      → v.0.bgb_clock_init ≡ false
      → bgb_loop (process_os os) s v ≡ (true, s', v')
      → Waits s' v' r
      → Waits s v r
  polls-Waits s s' v v' none still round later = tt
  polls-Waits s s' v v' (some (false, _, _)) still round later = next (polls still round) later
  polls-Waits s s' v v' (some (true, _, _)) still round later = next (polls still round) later

  pub wait_clock-Waits :
      (n : ℕ) (s : Bgb (Process A W)) (v : Process A W) → Waits s v (wait_clock os m n s v)
  unfolding wait_clock
  wait_clock-Waits zero s v =
      if_Waits s v v.0.bgb_clock_init _ _ (λ known. next (starts known refl refl) here) (λ _. tt)
  wait_clock-Waits (suc n) s v =
      let (ok, s', v') = bgb_loop (process_os os) s v in
      if_Waits s v v.0.bgb_clock_init _ _ (λ known. next (starts known refl refl) here)
        λ still.
          if_Waits s v ok _ _
            (λ good.
              polls-Waits s s' v v' (wait_clock os m n s' v') still (ap (λ b. (b, s', v')) good)
                (wait_clock-Waits n s' v'))
            (λ bad. next (fails still (ap (λ b. (b, s', v')) bad)) here)

  Steps-trans :
      {t t' t'' : Bool} {p p' p'' : Phase A W}
      → Steps os m bgb_sock t p t' p'
      → Steps os m bgb_sock t' p' t'' p''
      → Steps os m bgb_sock t p t'' p''
  Steps-trans here later = later
  Steps-trans (next step rest) later = next step (Steps-trans rest later)

  ended-Steps :
      (trig : Bool) (p : Phase A W) (q q' : Bool × Process A W)
      → Steps os m bgb_sock false p trig (ended q.0 q.1)
      → some q ≡ some q'
      → (trig' : Bool) × Steps os m bgb_sock false p trig' (ended q'.0 q'.1)
  ended-Steps trig p q q' steps e = (
    trig,
    subst (λ x. Steps os m bgb_sock false p trig (ended x.0 x.1)) (some-injective q q' e) steps,
  )

  main_work-none : (k : ℕ) → main_work os m k bgb_sock none ≡ none
  unfolding main_work
  main_work-none k = refl

  pub run-Steps :
      (k : ℕ) (s : Bgb (Process A W)) (v : Process A W)
      (w : Option (Bool × Bgb (Process A W) × Process A W)) (ok : Bool) (r : Process A W)
      → Waits s v w
      → main_work os m k bgb_sock w ≡ some (ok, r)
      → (trig : Bool) × Steps os m bgb_sock false (waiting s v) trig (ended ok r)
  run-Steps k s v none ok r waits e = absurd (none-ne-some (ok, r) (sym (main_work-none k) ∙ e))
  run-Steps k s v (some (false, s', v')) ok r waits e =
      ended-Steps false (waiting s v) (false, v') (ok, r) waits
        (sym (main_work_fails os m bgb_sock k s' v') ∙ e)
  run-Steps k s v (some (true, s', v')) ok r waits e =
      ended-Steps true (waiting s v) _ (ok, r)
        (Steps-trans waits (loop-Steps k (after_wait os m bgb_sock s') (m.start v')))
        (sym (main_work_starts os m bgb_sock k s' v') ∙ e)
