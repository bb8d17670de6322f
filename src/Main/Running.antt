-- ===== src/Main/Running.antt =====
-- source/main.c: what holds of the process in all rounds of its loops.
use libmobile_bgb.Prelude.{
  ℕ, ◌≡◌, refl, sym, ◌∙◌, Bool, true, false, not, some, List, [], ◌∷◌, is_minus_one, ◌==◌,
  if◌then◌else◌,
}
use libmobile_bgb.Os.{Os, readable_or_urgent}
use libmobile_bgb.Os.Descriptors.{Descriptors}
use libmobile_bgb.Socket.{socket_hasdata, socket_setblocking}
use libmobile_bgb.SocketImpl.Accounts.{Accounts, same-Accounts}
use libmobile_bgb.SocketImpl.Callbacks.{Call, perform_all}
use libmobile_bgb.SocketImpl.Lifetime.{perform_all-Accounts}
use libmobile_bgb.Bgb.Packet.{packet_bytes, packet_size}
use libmobile_bgb.Bgb.Keeps.{IsKept}
use libmobile_bgb.Main.User.{MobileUser}
use libmobile_bgb.Main.Session.{Mobile, Process, process_os, fetch_action, mobile_handle_loop}

module _ {A W : Type 0} (os : Os W) where
  -- What a function of libmobile does to the process outside of the adapter: calls of the socket
  -- callbacks that pass their assertions. It touches neither the emulator's clock nor the request
  -- for a reset.
  pub record IsHistory (v v' : Process A W) : Type 0 where
    pub calls : List Call
    pub performed : perform_all os calls v.0.socket v.1 ≡ some (v'.0.socket, v'.1)
    pub clock_same : v'.0.bgb_clock ≡ v.0.bgb_clock
    pub reset_same : v'.0.reset ≡ v.0.reset
    pub clock_init_same : v'.0.bgb_clock_init ≡ v.0.bgb_clock_init

  pub record Behaves (m : Mobile A W) : Type 0 where
    pub start_calls : (v : Process A W) → IsHistory v (m.start v)
    pub stop_calls : (v : Process A W) → IsHistory v (m.stop v)
    pub actions_get_calls : (v : Process A W) → IsHistory v (m.actions_get v).1
    pub actions_process_calls : (a : ℕ) (v : Process A W) → IsHistory v (m.actions_process a v)
    pub transfer_calls : (c : ℕ) (v : Process A W) → IsHistory v (m.transfer c v).1

module _ {A W : Type 0} (os : Os W) (m : Mobile A W) (behaves : Behaves os m) where
  if_reset :
      (b : Bool) (v v' : Process A W)
      → (b ≡ true → v.0.reset ≡ false)
      → (b ≡ false → v'.0.reset ≡ false)
      → (if b then v else v').0.reset ≡ false
  if_reset true v v' h h' = h refl
  if_reset false v v' h h' = h' refl

  fetch_reset : (v : Process A W) → v.0.reset ≡ false → (fetch_action os m v).0.reset ≡ false
  unfolding fetch_action
  fetch_reset v h = (behaves.actions_get_calls v).reset_same ∙ h

  -- Where libmobile does not touch it, `mobile_handle_loop` has answered a request for a reset,
  -- whatever actions it takes.
  pub handle_loop_reset : (v : Process A W) → (mobile_handle_loop os m v).1.0.reset ≡ false
  unfolding mobile_handle_loop
  handle_loop_reset v =
      let restarted = m.start (m.stop v) in
      let cleared : Process A W = (record restarted.0 { reset = false }, restarted.1) in
      let v1 = if v.0.reset then cleared else v in
      let r1 = if_reset v.0.reset cleared v (λ e. refl) (λ e. e) in
      let v2 = if v1.0.action == m.action_none then fetch_action os m v1 else v1 in
      let r2 : v2.0.reset ≡ false =
        if_reset (v1.0.action == m.action_none) (fetch_action os m v1) v1 (λ e. fetch_reset v1 r1)
          (λ e. r1) in
      let done = m.actions_process v2.0.action v2 in
      let same = (behaves.actions_process_calls v2.0.action v2).reset_same in
      if_reset (not (v2.0.action == m.action_none)) (fetch_action os m done) v2
        (λ e. fetch_reset done (same ∙ r2)) (λ e. r2)

module _ {A W : Type 0} (os : Os W) (D : Descriptors os) (base : ℕ → Bool) (known : Bool) where
  open D use {is_open}

  -- The descriptors are accounted for, and the link's clock, once it is initialised, is the one
  -- of the adapter. `known` says that the adapter's clock is already initialised.
  pub record Running (init : Bool) (last : ℕ) (v : Process A W) : Type 0 where
    pub accounts : Accounts os D base v.0.socket v.1
    pub in_time : init ≡ true → last ≡ v.0.bgb_clock
    pub waited : v.0.bgb_clock_init ≡ true → init ≡ true
    pub stays : known ≡ true → v.0.bgb_clock_init ≡ true

  module _ (never : (fd : ℕ) (w : W) → is_minus_one (socket_setblocking os fd false w).0 ≡ false)
      (m : Mobile A W) (behaves : Behaves os m) where
    pub history-Running :
        (i : Bool) (l : ℕ) (v v' : Process A W) → IsHistory os v v' → Running i l v → Running i l v'
    history-Running i l v v' h r = record {
      accounts =
          perform_all-Accounts os D base never h.calls v.0.socket v.1 _ h.performed r.accounts;
      in_time = λ e. r.in_time e ∙ sym h.clock_same;
      waited = λ e. r.waited (sym h.clock_init_same ∙ e);
      stays = λ e. h.clock_init_same ∙ r.stays e;
    }

    pub world-Running :
        (i : Bool) (l : ℕ) (u : MobileUser A) (w w' : W)
        → ((d : ℕ) → is_open w' d ≡ is_open w d)
        → Running i l (u, w)
        → Running i l (u, w')
    world-Running i l u w w' h r = record {
      accounts = same-Accounts os D base u.socket w w' h r.accounts;
      in_time = r.in_time;
      waited = r.waited;
      stays = r.stays;
    }

    pub link-Running : IsKept (process_os os) Running
    unfolding socket_hasdata
    link-Running = record {
      poll_kept = λ sock i l v r.
          world-Running i l v.0 v.1 _ (D.poll_keeps ((sock, readable_or_urgent) ∷ []) 0 v.1) r;
      send_kept =
          λ sock p i l v r. world-Running i l v.0 v.1 _ (D.send_keeps sock (packet_bytes p) v.1) r;
      recv_kept = λ sock i l v r. world-Running i l v.0 v.1 _ (D.recv_keeps sock packet_size v.1) r;
    }

    -- A field of the user's data that `Running` does not speak of.
    action-Running :
        (i : Bool) (l a : ℕ) (v : Process A W)
        → Running i l v
        → Running i l (record v.0 { action = a }, v.1)
    action-Running i l a v r = record {
      accounts = r.accounts;
      in_time = r.in_time;
      waited = r.waited;
      stays = r.stays;
    }

    reset-Running :
        (i b : Bool) (l : ℕ) (v : Process A W)
        → Running i l v
        → Running i l (record v.0 { reset = b }, v.1)
    reset-Running i b l v r = record {
      accounts = r.accounts;
      in_time = r.in_time;
      waited = r.waited;
      stays = r.stays;
    }

    fetch-Running :
        (i : Bool) (l : ℕ) (v : Process A W) → Running i l v → Running i l (fetch_action os m v)
    unfolding fetch_action
    fetch-Running i l v r =
        action-Running i l _ (m.actions_get v).1
          (history-Running i l v _ (behaves.actions_get_calls v) r)

    if-Running :
        (i : Bool) (l : ℕ) (b : Bool) (v v' : Process A W)
        → Running i l v
        → Running i l v'
        → Running i l (if b then v else v')
    if-Running i l true v v' r r' = r
    if-Running i l false v v' r r' = r'

    pub handle_loop-Running :
        (i : Bool) (l : ℕ) (v : Process A W)
        → Running i l v
        → Running i l (mobile_handle_loop os m v).1
    unfolding mobile_handle_loop
    handle_loop-Running i l v r =
        let stopped = history-Running i l v _ (behaves.stop_calls v) r in
        let started = history-Running i l _ _ (behaves.start_calls (m.stop v)) stopped in
        let r1 = if-Running i l v.0.reset _ v (reset-Running i false l _ started) r in
        let r2 = if-Running i l _ _ _ (fetch-Running i l _ r1) r1 in
        let done = history-Running i l _ _ (behaves.actions_process_calls _ _) r2 in
        if-Running i l _ _ _ (fetch-Running i l _ done) r2
