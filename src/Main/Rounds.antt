-- ===== src/Main/Rounds.antt =====
-- source/main.c: the rounds of the loop that waits for the clock, and of the main loop.
use mathlib.Core.Option.{some-injective}
use mathlib.Core.Path.{subst}
use libmobile_bgb.Prelude.{
  ℕ, zero, suc, ◌≡◌, refl, sym, ◌∙◌, Bool, true, false, some, ◌∷◌, map, arith, is_minus_one, inl,
  inr, Bool-cases, if◌then◌else◌,
}
use libmobile_bgb.Os.{Os, readable}
use libmobile_bgb.Os.Descriptors.{Descriptors}
use libmobile_bgb.Socket.{socket_setblocking, socket_wait}
use libmobile_bgb.Bgb.Link.{Bgb, bgb_loop}
use libmobile_bgb.Bgb.Keeps.{CallbacksKeep, Holds, bgb_loop_kept}
use libmobile_bgb.Main.User.{MobileUser, bgb_loop_timestamp, bgb_loop_timestamp_init}
use libmobile_bgb.Main.Session.{
  Mobile, Process, process_os, on_user, mobile_handle_loop, bgb_loop_transfer, open_sockets,
  main_round, main_loop, wait_clock,
}
use libmobile_bgb.Main.Running.{
  Behaves, Running, history-Running, world-Running, link-Running, handle_loop-Running,
}

if_then : {B : Type 0} (b : Bool) (x y : B) → b ≡ true → (if b then x else y) ≡ x
if_then b x y e = rw e refl

pub if_else : {B : Type 0} (b : Bool) (x y : B) → b ≡ false → (if b then x else y) ≡ y
if_else b x y e = rw e refl

module _ {A W : Type 0} (os : Os W) (D : Descriptors os) (base : ℕ → Bool) (known : Bool)
    (never : (fd : ℕ) (w : W) → is_minus_one (socket_setblocking os fd false w).0 ≡ false)
    (m : Mobile A W) (behaves : Behaves os m) where
  -- The callbacks that `main` has installed.
  pub record IsLinked (f : ℕ → MobileUser A → MobileUser A) (s : Bgb (Process A W)) : Type 0 where
    pub transfer_set : s.callback_transfer ≡ some (bgb_loop_transfer os m)
    pub timestamp_set : s.callback_timestamp ≡ some (on_user f)

  -- The process while the link runs with these callbacks.
  abbrev pub IsRunning :
      (ℕ → MobileUser A → MobileUser A) → Bgb (Process A W) → Process A W → Type 0
  IsRunning f s v = Holds (process_os os) (Running os D base known) s v × IsLinked f s

  -- A callback that takes over the clock.
  abbrev Follows : (ℕ → MobileUser A → MobileUser A) → Type 0
  Follows f =
      (t : ℕ) (i : Bool) (l : ℕ) (v : Process A W)
      → Running os D base known i l v
      → Running os D base known true t (on_user f t v)

  pub timestamp-Follows : Follows bgb_loop_timestamp
  unfolding bgb_loop_timestamp
  timestamp-Follows t i l v r = record {
    accounts = r.accounts;
    in_time = λ e. refl;
    waited = λ e. refl;
    stays = r.stays;
  }

  pub timestamp_init-Follows : Follows bgb_loop_timestamp_init
  unfolding bgb_loop_timestamp_init
  timestamp_init-Follows t i l v r = record {
    accounts = r.accounts;
    in_time = λ e. refl;
    waited = λ e. refl;
    stays = λ e. refl;
  }

  linked-CallbacksKeep :
      (f : ℕ → MobileUser A → MobileUser A) (s : Bgb (Process A W))
      → Follows f
      → IsLinked f s
      → CallbacksKeep (process_os os) (Running os D base known) s
  unfolding bgb_loop_transfer
  linked-CallbacksKeep f s follows h = record {
    transfer_kept = λ g byte i l v e r.
        subst (λ k. Running os D base known i l (k byte v).1)
          (some-injective _ g (sym h.transfer_set ∙ e))
          (history-Running os D base known never m behaves i l v _ (behaves.transfer_calls byte v)
            r);
    timestamp_kept = λ g t i l v e r.
        subst (λ k. Running os D base known true t (k t v))
          (some-injective _ g (sym h.timestamp_set ∙ e)) (follows t i l v r);
  }

  bgb_loop-IsRunning :
      (f : ℕ → MobileUser A → MobileUser A) (s : Bgb (Process A W)) (v : Process A W)
      → Follows f
      → IsRunning f s v
      → IsRunning f (bgb_loop (process_os os) s v).1 (bgb_loop (process_os os) s v).2
  bgb_loop-IsRunning f s v follows (r, h) =
      let (r', same) =
        bgb_loop_kept (process_os os) (Running os D base known)
          (link-Running os D base known never m behaves) s v (linked-CallbacksKeep f s follows h)
          r in
      (
        r',
        record { transfer_set = same.0 ∙ h.transfer_set; timestamp_set = same.1 ∙ h.timestamp_set },
      )

  main_round-IsRunning :
      (s : Bgb (Process A W)) (v : Process A W)
      → IsRunning bgb_loop_timestamp s v
      → IsRunning bgb_loop_timestamp (main_round os m s v).1 (main_round os m s v).2
  unfolding main_round socket_wait
  main_round-IsRunning s v h =
      let (_, s1, v1) = bgb_loop (process_os os) s v in
      let (r, linked) = bgb_loop-IsRunning bgb_loop_timestamp s v timestamp-Follows h in
      let handled =
        handle_loop-Running os D base known never m behaves s1.timestamp_init s1.timestamp_last v1
          r in
      let v2 = (mobile_handle_loop os m v1).1 in
      let fds = s.socket ∷ open_sockets v2.0.socket.sockets in
      let polled =
        world-Running os D base known never m behaves s1.timestamp_init s1.timestamp_last v2.0 v2.1
          _ (D.poll_keeps (map (λ fd. (fd, readable)) fds) 100 v2.1) handled in
      elim (Bool-cases (bgb_loop (process_os os) s v).0) [
        | inl e ↦ elim (Bool-cases (mobile_handle_loop os m v1).0) [
          | inl e' ↦ rw (e, e') (polled, linked)
          | inr e' ↦ rw (e, e') (handled, linked)
        ]
        | inr e ↦ rw e (r, linked)
      ]

  -- The main loop keeps the process running.
  pub main_loop-IsRunning :
      (rounds : ℕ) (s : Bgb (Process A W)) (v : Process A W)
      → IsRunning bgb_loop_timestamp s v
      → IsRunning bgb_loop_timestamp (main_loop os m rounds s v).0 (main_loop os m rounds s v).1
  unfolding main_loop
  main_loop-IsRunning zero s v h = h
  main_loop-IsRunning (suc rounds) s v h =
      let (_, s1, v1) = main_round os m s v in
      let kept = main_round-IsRunning s v h in
      elim (Bool-cases (main_round os m s v).0) [
        | inl e ↦ rw (main_loop, e) (main_loop-IsRunning rounds s1 v1 kept)
        | inr e ↦ rw (main_loop, e) kept
      ]

  -- How the wait for the clock can end.
  abbrev pub HasWaited : Bool × Bgb (Process A W) × Process A W → Type 0
  HasWaited r =
      IsRunning bgb_loop_timestamp_init r.1 r.2 × (r.0 ≡ true → r.2.0.bgb_clock_init ≡ true)

  -- Where the wait for the clock ends, the process is running, and if it ends well, the adapter's
  -- clock is initialised.
  pub wait_clock-HasWaited :
      (waiting : ℕ) (s : Bgb (Process A W)) (v : Process A W)
      (r : Bool × Bgb (Process A W) × Process A W)
      → wait_clock os m waiting s v ≡ some r
      → IsRunning bgb_loop_timestamp_init s v
      → HasWaited r
  unfolding wait_clock
  wait_clock-HasWaited zero s v r e h = elim (Bool-cases v.0.bgb_clock_init) [
    | inl known ↦
        subst HasWaited (some-injective (true, s, v) r (sym (if_then _ _ _ known) ∙ e))
          (h, λ _. known)
    | inr still ↦ absurd (ground arith)
  ]
  wait_clock-HasWaited (suc waiting) s v r e h =
      let (_, s1, v1) = bgb_loop (process_os os) s v in
      let kept = bgb_loop-IsRunning bgb_loop_timestamp_init s v timestamp_init-Follows h in
      elim (Bool-cases v.0.bgb_clock_init) [
        | inl known ↦
            subst HasWaited (some-injective (true, s, v) r (sym (if_then _ _ _ known) ∙ e))
              (h, λ _. known)
        | inr still ↦ elim (Bool-cases (bgb_loop (process_os os) s v).0) [
          | inl ok ↦
              wait_clock-HasWaited waiting s1 v1 r
                (sym (if_else _ _ _ still ∙ if_then _ _ _ ok) ∙ e) kept
          | inr lost ↦
              subst HasWaited
                (some-injective (false, s1, v1) r
                  (sym (if_else _ _ _ still ∙ if_else _ _ _ lost) ∙ e))
                (kept, λ bad. absurd (ground arith))
        ]
      ]
