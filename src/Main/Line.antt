-- ===== src/Main/Line.antt =====
-- source/main.c with source/bgblink.c: the serial line in a run of `main`.
use mathlib.Core.Option.{some-injective}
use mathlib.Core.Path.{subst}
use libmobile_bgb.Prelude.{
  ℕ, zero, suc, ◌≡◌, refl, sym, ◌∙◌, Bool, true, false, not, Option, none, some, [], ◌∷◌, ◌++◌,
  arith, ◌==◌, inl, inr, Bool-cases, map, if◌then◌else◌,
}
use libmobile_bgb.Os.{Os, readable}
use libmobile_bgb.Socket.{socket_wait}
use libmobile_bgb.Bgb.Link.{Bgb, bgb_loop}
use libmobile_bgb.Bgb.Line.{Log, Same, IsLog, InStep, IsTied, AreTied}
use libmobile_bgb.Bgb.Line.Round.{bgb_loop-InStep}
use libmobile_bgb.Main.User.{MobileUser}
use libmobile_bgb.Main.Session.{
  Process, Mobile, process_os, on_user, fetch_action, mobile_handle_loop, bgb_loop_transfer,
  open_sockets, main_round, main_loop, wait_clock,
}

-- The log of the world, for a whole process.
abbrev pub process_log : {A W : Type 0} → Log W → Log (Process A W)
process_log log = record { sent = λ v. log.sent v.1; returned = λ v. log.returned v.1 }

pub Same-trans : {W : Type 0} (log : Log W) (a b c : W) → Same log a b → Same log b c → Same log a c
Same-trans log a b c (s, r) (s', r') = (s' ∙ s, r' ∙ r)

module _ {A W : Type 0} (os : Os W) (log : Log W) (m : Mobile A W) where
  -- What libmobile does with the log: a transfer adds the byte that it returns, and nothing else
  -- changes it.
  pub record Records : Type 0 where
    pub start_same : (v : Process A W) → Same log v.1 (m.start v).1
    pub stop_same : (v : Process A W) → Same log v.1 (m.stop v).1
    pub actions_get_same : (v : Process A W) → Same log v.1 (m.actions_get v).1.1
    pub actions_process_same : (a : ℕ) (v : Process A W) → Same log v.1 (m.actions_process a v).1
    pub transfer_sent : (c : ℕ) (v : Process A W) → log.sent (m.transfer c v).1.1 ≡ log.sent v.1
    pub transfer_returned :
        (c : ℕ) (v : Process A W)
        → log.returned (m.transfer c v).1.1 ≡ log.returned v.1 ++ ((m.transfer c v).0 ∷ [])

  module _ (h : IsLog os log) (records : Records) where
    pub process-IsLog : IsLog {W = Process A W} (process_os os) (process_log log)
    process-IsLog = record {
      send_whole = λ sock bytes v. h.send_whole sock bytes v.1;
      send_cut = λ sock bytes v. h.send_cut sock bytes v.1;
      send_returned = λ sock bytes v. h.send_returned sock bytes v.1;
      recv_same = λ sock size v. h.recv_same sock size v.1;
      poll_same = λ fds delay v. h.poll_same fds delay v.1;
    }

    -- The callbacks of `main` are tied.
    pub main-IsTied :
        (f : ℕ → MobileUser A → MobileUser A)
        → IsTied
            (process_os os)
            (process_log log)
            (some (bgb_loop_transfer os m))
            (some (on_user f))
    unfolding bgb_loop_transfer
    main-IsTied f = record {
      adapter = m.transfer;
      adapter_set = refl;
      adapter_sent = records.transfer_sent;
      adapter_returned = records.transfer_returned;
      clock_same = λ g t v e.
          subst (λ k. Same log v.1 (k t v).1) (some-injective (on_user f) g e) (refl, refl);
    }

    -- The line is in step, with tied callbacks.
    abbrev pub IsLive : ℕ → Bgb (Process A W) → Process A W → Type 0
    IsLive first s v =
        AreTied (process_os os) (process_log log) s
        × InStep (process_os os) (process_log log) first s v

    pub IsLive-Same :
        (first : ℕ) (s : Bgb (Process A W)) (v v' : Process A W)
        → Same log v.1 v'.1
        → IsLive first s v
        → IsLive first s v'
    IsLive-Same first s v v' (sent, returned) (tied, k) = (tied, rw (sent, returned) k)

    bgb_loop-IsLive :
        (first : ℕ) (s : Bgb (Process A W)) (v : Process A W)
        → IsLive first s v
        → IsLive first (bgb_loop (process_os os) s v).1 (bgb_loop (process_os os) s v).2
    bgb_loop-IsLive first s v (tied, k) =
        bgb_loop-InStep (process_os os) (process_log log) process-IsLog first s v tied k

    fetch-Same : (v : Process A W) → Same log v.1 (fetch_action os m v).1
    unfolding fetch_action
    fetch-Same v = records.actions_get_same v

    if_Same :
        (w : W) (b : Bool) (v v' : Process A W)
        → Same log w v.1
        → Same log w v'.1
        → Same log w (if b then v else v').1
    if_Same w true v v' h h' = h
    if_Same w false v v' h h' = h'

    handle_loop-Same : (v : Process A W) → Same log v.1 (mobile_handle_loop os m v).1.1
    unfolding mobile_handle_loop
    handle_loop-Same v =
        let restarted = m.start (m.stop v) in
        let cleared : Process A W = (record restarted.0 { reset = false }, restarted.1) in
        let v1 = if v.0.reset then cleared else v in
        let r1 =
          if_Same v.1 v.0.reset cleared v
            (Same-trans log v.1 (m.stop v).1 restarted.1 (records.stop_same v)
              (records.start_same (m.stop v)))
            (refl, refl) in
        let idle = v1.0.action == m.action_none in
        let v2 = if idle then fetch_action os m v1 else v1 in
        let r2 =
          if_Same v.1 idle (fetch_action os m v1) v1
            (Same-trans log v.1 v1.1 (fetch_action os m v1).1 r1 (fetch-Same v1)) r1 in
        let done = m.actions_process v2.0.action v2 in
        let r3 = Same-trans log v.1 v2.1 done.1 r2 (records.actions_process_same v2.0.action v2) in
        if_Same v.1 (not (v2.0.action == m.action_none)) (fetch_action os m done) v2
          (Same-trans log v.1 done.1 (fetch_action os m done).1 r3 (fetch-Same done)) r2

    -- Where a loop stops.
    abbrev pub StopsLive : ℕ → Option (Bool × Bgb (Process A W) × Process A W) → Type 0
    StopsLive first none = Unit {0}
    StopsLive first (some (ok, s, v)) = IsLive first s v

    if_StopsLive :
        (first : ℕ) (b : Bool) (r r' : Option (Bool × Bgb (Process A W) × Process A W))
        → StopsLive first r
        → StopsLive first r'
        → StopsLive first (if b then r else r')
    if_StopsLive first true r r' l l' = l
    if_StopsLive first false r r' l l' = l'

    main_round-IsLive :
        (first : ℕ) (s : Bgb (Process A W)) (v : Process A W)
        → IsLive first s v
        → IsLive first (main_round os m s v).1 (main_round os m s v).2
    unfolding main_round socket_wait mobile_handle_loop
    main_round-IsLive first s v live =
        let (ok, s1, v1) = bgb_loop (process_os os) s v in
        let live1 = bgb_loop-IsLive first s v live in
        let v2 = (mobile_handle_loop os m v1).1 in
        let sockets = s.socket ∷ open_sockets v2.0.socket.sockets in
        let live2 = IsLive-Same first s1 v1 v2 (handle_loop-Same v1) live1 in
        let w3 = (socket_wait os sockets 100 v2.1).1 in
        let live3 =
          IsLive-Same first s1 v2 (v2.0, w3)
            (h.poll_same (map (λ fd. (fd, readable)) sockets) 100 v2.1) live2 in
        elim (Bool-cases ok) [
          | inl good ↦
              let ends : main_round os m s v ≡ (true, s1, (v2.0, w3)) = ground arith in
              subst (λ r. StopsLive first (some r)) (sym ends) live3
          | inr bad ↦
              let ends : main_round os m s v ≡ (false, s1, v1) = ground arith in
              subst (λ r. StopsLive first (some r)) (sym ends) live1
        ]

    pub main_loop-IsLive :
        (rounds first : ℕ) (s : Bgb (Process A W)) (v : Process A W)
        → IsLive first s v
        → IsLive first (main_loop os m rounds s v).0 (main_loop os m rounds s v).1
    unfolding main_loop
    main_loop-IsLive zero first s v live = live
    main_loop-IsLive (suc rounds) first s v live =
        let next = main_round os m s v in
        let live' = main_round-IsLive first s v live in
        elim (Bool-cases next.0) [
          | inl more ↦ rw more (main_loop-IsLive rounds first next.1 next.2 live')
          | inr done ↦ rw done live'
        ]

    pub wait_clock-StopsLive :
        (waiting first : ℕ) (s : Bgb (Process A W)) (v : Process A W)
        → IsLive first s v
        → StopsLive first (wait_clock os m waiting s v)
    unfolding wait_clock
    wait_clock-StopsLive zero first s v live = if_StopsLive first v.0.bgb_clock_init _ _ live tt
    wait_clock-StopsLive (suc waiting) first s v live =
        let next = bgb_loop (process_os os) s v in
        let live' = bgb_loop-IsLive first s v live in
        if_StopsLive first v.0.bgb_clock_init _ _ live (
          if_StopsLive first next.0 _ _ (wait_clock-StopsLive waiting first next.1 next.2 live')
            live')
