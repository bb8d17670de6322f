-- ===== src/Os/Table.antt =====
-- A small operating system whose world is the list of open descriptors: it meets `Descriptors`.
-- Whether fcntl() fails is a parameter.
use libmobile_bgb.Prelude.{
  ℕ, suc, ◌+◌, ◌≤◌, ◌≡◌, refl, Bool, false, not, ◌&&◌, ◌||◌, none, some, List, [], ◌∷◌, pos, negsuc,
  arith, ◌==◌, length, if◌then◌else◌,
}
use libmobile_bgb.Os.{Os, success, stream}
use libmobile_bgb.Os.Descriptors.{Descriptors}

unfoldable pub contains : List ℕ → ℕ → Bool
contains [] d = false
contains (fd ∷ fds) d = d == fd || contains fds d

unfoldable pub remove : List ℕ → ℕ → List ℕ
remove [] d = []
remove (fd ∷ fds) d = let rest = remove fds d in if fd == d then rest else fd ∷ rest

-- A descriptor above all that are open.
unfoldable pub unused : List ℕ → ℕ
unused [] = 0
unused (fd ∷ fds) = suc (fd + unused fds)

pub contains_above : (fds : List ℕ) (d : ℕ) → unused fds ≤ d → contains fds d ≡ false
unfolding contains unused
contains_above [] d h = refl
contains_above (fd ∷ fds) d h = ground (arith, contains_above fds d)

pub contains-remove :
    (fds : List ℕ) (fd d : ℕ) → contains (remove fds fd) d ≡ (not (d == fd) && contains fds d)
unfolding contains remove
contains-remove [] fd d = ground arith
contains-remove (x ∷ fds) fd d = ground (arith, contains-remove fds fd d)

pub contains-cons : (fd d : ℕ) (fds : List ℕ) → contains (fd ∷ fds) d ≡ (d == fd || contains fds d)
unfolding contains
contains-cons fd d fds = refl

abbrev pub table_os : Bool → Os (List ℕ)
table_os fails = record {
  errno = λ w. success;
  set_errno = λ e w. w;
  inet_ntop_world = λ f host w. w;
  socket = λ f t w. (some (unused w), unused w ∷ w);
  close = λ fd w. remove w fd;
  connect = λ fd a w. (pos 0, w);
  bind = λ fd a w. (pos 0, w);
  listen = λ fd n w. (pos 0, w);
  accept = λ fd w. (some (unused w), unused w ∷ w);
  send = λ fd bytes w. (pos (length bytes), w);
  recv = λ fd size w. (none, w);
  sendto = λ fd bytes a w. (pos (length bytes), w);
  recvfrom = λ fd size peek w. (some ([], none), w);
  poll = λ fds delay w. (pos 1, w);
  setsockopt = λ fd o v w. (pos 0, w);
  get_type = λ fd w. (some stream, w);
  get_error = λ fd w. (success, w);
  sigaction = λ w. (pos 0, w);
  get_flags = λ fd w. (pos 2, w);
  set_flags = λ fd flags w. (if fails then negsuc 0 else pos 0, w);
}

pub fresh : (w : List ℕ) (fd : ℕ) → some (unused w) ≡ some fd → contains w fd ≡ false
fresh w fd e = contains_above w fd (ground arith)

abbrev pub table_descriptors : (fails : Bool) → Descriptors (table_os fails)
table_descriptors fails = record {
  is_open = contains;
  socket_fresh = λ f t w fd e. fresh w fd e;
  socket_opens = λ f t w d. contains-cons (unused w) d w;
  accept_fresh = λ sock w fd e. fresh w fd e;
  accept_opens = λ sock w d. contains-cons (unused w) d w;
  close_closes = λ fd w d. contains-remove w fd d;
  bind_keeps = λ sock a w d. refl;
  poll_keeps = λ fds delay w d. refl;
  setsockopt_keeps = λ sock o v w d. refl;
  get_flags_keeps = λ sock w d. refl;
  set_flags_keeps = λ sock flags w d. refl;
  connect_keeps = λ sock a w d. refl;
  listen_keeps = λ sock backlog w d. refl;
  send_keeps = λ sock bytes w d. refl;
  recv_keeps = λ sock size w d. refl;
  sendto_keeps = λ sock bytes a w d. refl;
  recvfrom_keeps = λ sock size peek w d. refl;
  get_type_keeps = λ sock w d. refl;
  sigaction_keeps = λ w d. refl;
  inet_ntop_keeps = λ f host w d. refl;
  set_errno_keeps = λ e w d. refl;
}
