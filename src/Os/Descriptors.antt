-- ===== src/Os/Descriptors.antt =====
-- What the program relies on of descriptors: the calls that open one return one that was not
-- open, close() closes that one, and no other call opens or closes any.
use libmobile_bgb.Prelude.{ℕ, ◌≡◌, Bool, false, not, ◌&&◌, ◌||◌, Option, none, some, List, ◌==◌}
use libmobile_bgb.Os.{Os, Errno, Family, SockType, SockAddr, SockOpt, Events}

-- The descriptor that a call returned, as a set.
abbrev pub is_returned : Option ℕ → ℕ → Bool
is_returned none d = false
is_returned (some fd) d = d == fd

pub record Descriptors {W : Type 0} (os : Os W) : Type 0 where
  pub is_open : W → ℕ → Bool
  pub socket_fresh :
      (f : Family) (t : SockType) (w : W) (fd : ℕ)
      → (os.socket f t w).0 ≡ some fd
      → is_open w fd ≡ false
  pub socket_opens :
      (f : Family) (t : SockType) (w : W) (d : ℕ)
      → is_open (os.socket f t w).1 d ≡ (is_returned (os.socket f t w).0 d || is_open w d)
  pub accept_fresh :
      (sock : ℕ) (w : W) (fd : ℕ) → (os.accept sock w).0 ≡ some fd → is_open w fd ≡ false
  pub accept_opens :
      (sock : ℕ) (w : W) (d : ℕ)
      → is_open (os.accept sock w).1 d ≡ (is_returned (os.accept sock w).0 d || is_open w d)
  pub close_closes :
      (fd : ℕ) (w : W) (d : ℕ) → is_open (os.close fd w) d ≡ (not (d == fd) && is_open w d)
  pub bind_keeps :
      (sock : ℕ) (a : SockAddr) (w : W) (d : ℕ) → is_open (os.bind sock a w).1 d ≡ is_open w d
  pub poll_keeps :
      (fds : List (ℕ × Events)) (delay : ℕ) (w : W) (d : ℕ)
      → is_open (os.poll fds delay w).1 d ≡ is_open w d
  pub setsockopt_keeps :
      (sock : ℕ) (o : SockOpt) (v : ℕ) (w : W) (d : ℕ)
      → is_open (os.setsockopt sock o v w).1 d ≡ is_open w d
  pub get_flags_keeps : (sock : ℕ) (w : W) (d : ℕ) → is_open (os.get_flags sock w).1 d ≡ is_open w d
  pub set_flags_keeps :
      (sock flags : ℕ) (w : W) (d : ℕ) → is_open (os.set_flags sock flags w).1 d ≡ is_open w d
  pub connect_keeps :
      (sock : ℕ) (a : Option SockAddr) (w : W) (d : ℕ)
      → is_open (os.connect sock a w).1 d ≡ is_open w d
  pub listen_keeps :
      (sock backlog : ℕ) (w : W) (d : ℕ) → is_open (os.listen sock backlog w).1 d ≡ is_open w d
  pub send_keeps :
      (sock : ℕ) (bytes : List ℕ) (w : W) (d : ℕ) → is_open (os.send sock bytes w).1 d ≡ is_open w d
  pub recv_keeps : (sock size : ℕ) (w : W) (d : ℕ) → is_open (os.recv sock size w).1 d ≡ is_open w d
  pub sendto_keeps :
      (sock : ℕ) (bytes : List ℕ) (a : Option SockAddr) (w : W) (d : ℕ)
      → is_open (os.sendto sock bytes a w).1 d ≡ is_open w d
  pub recvfrom_keeps :
      (sock size : ℕ) (peek : Bool) (w : W) (d : ℕ)
      → is_open (os.recvfrom sock size peek w).1 d ≡ is_open w d
  pub get_type_keeps : (sock : ℕ) (w : W) (d : ℕ) → is_open (os.get_type sock w).1 d ≡ is_open w d
  pub sigaction_keeps : (w : W) (d : ℕ) → is_open (os.sigaction w).1 d ≡ is_open w d
  pub inet_ntop_keeps :
      (family : Family) (host : List ℕ) (w : W) (d : ℕ)
      → is_open (os.inet_ntop_world family host w) d ≡ is_open w d
  pub set_errno_keeps : (e : Errno) (w : W) (d : ℕ) → is_open (os.set_errno e w) d ≡ is_open w d
