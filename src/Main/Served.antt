-- ===== src/Main/Served.antt =====
-- source/main.c with source/bgblink.c: the serial line over all of a session.
use mathlib.Core.Path.{subst}
use libmobile_bgb.Prelude.{
  ℕ, ◌≡◌, refl, sym, ◌∙◌, Bool, true, false, Option, none, some, List, [], ◌∷◌, ◌++◌, arith, inl,
  inr, Option-cases, is_minus_one, if◌then◌else◌,
}
use libmobile_bgb.Os.{Os, Family, SockAddr, no_delay}
use libmobile_bgb.Socket.{socket_connect}
use libmobile_bgb.SocketImpl.Defs.{socket_impl_stop}
use libmobile_bgb.Bgb.Link.{Bgb, bgb_init}
use libmobile_bgb.Bgb.Peer.{answered}
use libmobile_bgb.Bgb.Line.{Log, Same, IsLog}
use libmobile_bgb.Bgb.Line.Greeting.{bgb_init-InStep}
use libmobile_bgb.Main.User.{bgb_loop_timestamp, bgb_loop_timestamp_init}
use libmobile_bgb.Main.Session.{
  Process, Mobile, process_os, on_user, bgb_loop_transfer, main_loop, main_work, main_run,
  main_connected, main_session,
}
use libmobile_bgb.Main.Aside.{IsAside, connect-Same, stop-Same}
use libmobile_bgb.Main.Line.{
  process_log, Same-trans, Records, process-IsLog, main-IsTied, IsLive, IsLive-Same, StopsLive,
  main_loop-IsLive, wait_clock-StopsLive,
}

-- The answers that went out are the first byte and the bytes that the adapter returned, but for the
-- last one.
abbrev pub IsServed : {W : Type 0} → Log W → ℕ → W → Type 0
IsServed log first w = (next : ℕ) × (answered (log.sent w) ++ (next ∷ []) ≡ first ∷ log.returned w)

abbrev pub AreServed : {A W : Type 0} → Log W → ℕ → Option (Bool × Process A W) → Type 0
AreServed log first none = Unit {0}
AreServed log first (some (status, v)) = IsServed log first v.1

module _ {A W : Type 0} (os : Os W) (log : Log W) (h : IsLog os log) (aside : IsAside os log)
    (m : Mobile A W) (records : Records os log m) where
  IsServed-Same :
      (first : ℕ) (w w' : W) → Same log w w' → IsServed log first w → IsServed log first w'
  IsServed-Same first w w' (sent, returned) (next, k) = (next, rw (sent, returned) k)

  work-AreServed :
      (rounds sock first : ℕ) (r : Option (Bool × Bgb (Process A W) × Process A W))
      → StopsLive os log m h records first r
      → AreServed log first (main_work os m rounds sock r)
  unfolding main_work
  work-AreServed rounds sock first none live = tt
  work-AreServed rounds sock first (some (false, s, v)) (tied, k) = (s.byte, k)
  work-AreServed rounds sock first (some (true, s, v)) (tied, k) =
      let started = m.start v in
      let s1 : Bgb (Process A W) = record s {
        callback_timestamp = some (on_user bgb_loop_timestamp);
      } in
      let timed = main-IsTied os log m h records bgb_loop_timestamp in
      let live1 : IsLive os log m h records first s1 v = (
        record {
          adapter = tied.adapter;
          adapter_set = tied.adapter_set;
          adapter_sent = tied.adapter_sent;
          adapter_returned = tied.adapter_returned;
          clock_same = timed.clock_same;
        },
        k,
      ) in
      let live2 = IsLive-Same os log m h records first s1 v started (records.start_same v) live1 in
      let (s2, v2) = main_loop os m rounds s1 started in
      let live3 = main_loop-IsLive os log m h records rounds first s1 started live2 in
      let v3 = m.stop v2 in
      let w4 = socket_impl_stop os v3.0.socket v3.1 in
      let same3 = records.stop_same v2 in
      let same4 = Same-trans log v2.1 v3.1 w4 same3 (stop-Same os log aside v3.0.socket v3.1) in
      let same5 = Same-trans log v2.1 w4 (os.close sock w4) same4 (aside.close_same sock w4) in
      IsServed-Same first v2.1 (os.close sock w4) same5 (s2.byte, live3.1)

  run-AreServed :
      (waiting rounds first : ℕ) (s : Bgb (Process A W)) (v : Process A W)
      → IsLive os log m h records first
          (record s { callback_timestamp = some (on_user bgb_loop_timestamp_init) })
          v
      → AreServed log first (main_run os m waiting rounds s v)
  unfolding main_run
  run-AreServed waiting rounds first s v live =
      work-AreServed rounds s.socket first _
        (wait_clock-StopsLive os log m h records waiting first _ v live)

  if_AreServed :
      (first : ℕ) (b : Bool) (r r' : Option (Bool × Process A W))
      → AreServed log first r
      → AreServed log first r'
      → AreServed log first (if b then r else r')
  if_AreServed first true r r' l l' = l
  if_AreServed first false r r' l l' = l'

  -- The log before anything was answered or returned.
  abbrev pub IsFresh : W → Type 0
  IsFresh w = (answered (log.sent w) ≡ []) × (log.returned w ≡ [])

  IsFresh-Same : (w w' : W) → Same log w w' → IsFresh w → IsFresh w'
  IsFresh-Same w w' (sent, returned) (s, r) = (rw sent s, returned ∙ r)

  fresh-IsServed : (first : ℕ) (w : W) → IsFresh w → IsServed log first w
  fresh-IsServed first w (s, r) = (first, rw (s, r) refl)

  connected-AreServed :
      (sock waiting rounds : ℕ) (v : Process A W)
      → IsFresh v.1
      → AreServed log m.serial_idle_byte (main_connected os m sock waiting rounds v)
  unfolding main_connected bgb_init
  connected-AreServed sock waiting rounds v fresh =
      let first = m.serial_idle_byte in
      let (rc, w1) = os.setsockopt sock no_delay 1 v.1 in
      let fresh1 = IsFresh-Same v.1 w1 (aside.setsockopt_same sock no_delay 1 v.1) fresh in
      let (handler, w2) = os.sigaction w1 in
      let fresh2 = IsFresh-Same w1 w2 (aside.sigaction_same w1) fresh1 in
      let (ok, s, v3) =
        bgb_init (process_os os) sock first (some (bgb_loop_transfer os m))
          (some (on_user bgb_loop_timestamp)) (v.0, w2) in
      let k =
        bgb_init-InStep (process_os os) (process_log log) (process-IsLog os log m h records) sock
          first (some (bgb_loop_transfer os m)) (some (on_user bgb_loop_timestamp)) (v.0, w2)
          fresh2.0 fresh2.1 in
      let tied = main-IsTied os log m h records bgb_loop_timestamp_init in
      if_AreServed first (is_minus_one rc) _ _ (fresh-IsServed first w1 fresh1) (
        if_AreServed first (is_minus_one handler) _ _ (fresh-IsServed first w2 fresh2) (
          if_AreServed first ok _ _ (run-AreServed waiting rounds first s v3 (tied, k)) (first, k)))

  -- Where the log is that of the system and of libmobile, and nothing was answered yet: whatever
  -- arrives, and however the run of `main` from the connection to the emulator on ends, the
  -- serial bytes of the answers that went out are the idle byte followed by the bytes that the
  -- adapter returned, in order, but for the last one.
  pub main_session-IsServed :
      (addresses : Option (List (Family × SockAddr))) (waiting rounds : ℕ) (v : Process A W)
      → IsFresh v.1
      → AreServed log m.serial_idle_byte (main_session os m addresses waiting rounds v)
  unfolding main_session
  main_session-IsServed addresses waiting rounds v fresh =
      let (found, w1) = socket_connect os addresses v.1 in
      let fresh1 = IsFresh-Same v.1 w1 (connect-Same os log aside addresses v.1) fresh in
      elim (Option-cases found) [
        | inl e ↦
            let ends : main_session os m addresses waiting rounds v ≡ some (false, (v.0, w1)) =
              ground arith in
            subst (AreServed log m.serial_idle_byte) (sym ends)
              (fresh-IsServed m.serial_idle_byte w1 fresh1)
        | inr (sock, e) ↦
            let ends : main_session os m addresses waiting rounds v
                ≡ main_connected os m sock waiting rounds (v.0, w1) =
              ground arith in
            subst (AreServed log m.serial_idle_byte) (sym ends)
              (connected-AreServed sock waiting rounds (v.0, w1) fresh1)
      ]
