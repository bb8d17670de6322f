-- ===== src/Main/Whole.antt =====
-- source/main.c: what a run of `main` as a whole releases and closes.
use libmobile_bgb.Prelude.{
  ℕ, ◌≡◌, refl, ◌∙◌, Bool, true, false, Option, none, some, List, is_minus_one,
}
use libmobile_bgb.Os.{Os}
use libmobile_bgb.Os.Descriptors.{Descriptors}
use libmobile_bgb.Socket.{socket_setblocking}
use libmobile_bgb.Main.User.{MobileUser}
use libmobile_bgb.Main.Args.{Options, Parsed, full_help, usage, parsed}
use libmobile_bgb.Main.Session.{Process, Mobile, main_session}
use libmobile_bgb.Main.Running.{Behaves}
use libmobile_bgb.Main.Closing.{main_session-closes}
use libmobile_bgb.Main.Setup.{SameOpen, SetsUp, NoSockets, configure-IsSetup}
use libmobile_bgb.Main.Program.{
  update, create, Host, Library, Held, nothing_held, Outcome, exits, waits, main_host, main_user,
  main_configure, release_all, main_finish, main_with_block, main_created, main_opened, main_parsed,
  main_program,
}

-- Where the program exits, everything is released.
abbrev pub IsReleased : {W : Type 0} → Outcome W → Type 0
IsReleased (exits status held w) = held ≡ nothing_held
IsReleased waits = Unit {0}

-- Where it exits with success, the descriptors are open that were open in `w`.
abbrev pub IsClosed : {W : Type 0} {os : Os W} → Descriptors os → W → Outcome W → Type 0
IsClosed D w (exits true held w') = SameOpen D w w'
IsClosed D w (exits false held w') = Unit {0}
IsClosed D w waits = Unit {0}

module _ {A W : Type 0} (os : Os W) (D : Descriptors os)
    (never : (fd : ℕ) (w : W) → is_minus_one (socket_setblocking os fd false w).0 ≡ false)
    (m : Mobile A W) (behaves : Behaves os m) (lib : Library A W) (sets : SetsUp os D lib)
    (host : Host A W) (quiet : NoSockets os D host) where
  open D use {is_open}

  finish-IsClosed :
      (held : Held) (w : W) (r : Option (Bool × Process A W))
      → ((v' : Process A W) → r ≡ some (true, v') → SameOpen D w v'.1)
      → IsClosed D w (main_finish os host lib m held r)
  unfolding main_finish release_all
  finish-IsClosed held w none h = tt
  finish-IsClosed held w (some (false, v')) h = tt
  finish-IsClosed held w (some (true, v')) h = λ d.
      let w1 = host.free_adapter v'.0.adapter v'.1 in
      let w2 = host.free_user v'.0 w1 in
      quiet.fclose_same v'.0.config w2 d
      ∙ quiet.free_user_same v'.0 w1 d
      ∙ quiet.free_adapter_same v'.0.adapter v'.1 d
      ∙ h v' refl d

  block-IsClosed :
      (waiting rounds : ℕ) (o : Options) (rest : List (List ℕ)) (held : Held) (config : List ℕ)
      (r : Option (MobileUser A)) (w0 w : W)
      → SameOpen D w0 w
      → IsClosed D w0 (main_with_block os host lib m waiting rounds o rest held config r w)
  unfolding main_with_block main_user
  block-IsClosed waiting rounds o rest held config none w0 w h = tt
  block-IsClosed waiting rounds o rest held config (some block) w0 w h =
      let (adapter, w1) = lib.new w in
      let user : MobileUser A = record (main_user lib m.action_none config block) {
        adapter = adapter;
      } in
      let v = main_configure lib o (user, w1) in
      let (addresses, w2) = host.getaddrinfo (main_host rest).0 (main_host rest).1 v.1 in
      let setup = configure-IsSetup os D lib sets o (user, w1) in
      finish-IsClosed _ w0 (main_session os m addresses waiting rounds (v.0, w2)) (λ v' e d.
        main_session-closes os D never m behaves lib.max_connections waiting rounds addresses
          (v.0, w2) v' setup.sockets_same setup.clock_init_same d e
        ∙ quiet.getaddrinfo_same (main_host rest).0 (main_host rest).1 v.1 d
        ∙ setup.open_same d
        ∙ sets.new_same w d
        ∙ h d)

  created-IsClosed :
      (waiting rounds : ℕ) (o : Options) (rest : List (List ℕ)) (r : Option (List ℕ)) (w0 w : W)
      → SameOpen D w0 w
      → IsClosed D w0 (main_created os host lib m waiting rounds o rest r w)
  unfolding main_created
  created-IsClosed waiting rounds o rest none w0 w h = tt
  created-IsClosed waiting rounds o rest (some contents) w0 w h =
      block-IsClosed waiting rounds o rest _ _ (host.malloc_user w).0 w0 (host.malloc_user w).1
        (λ d. quiet.malloc_same w d ∙ h d)

  opened-IsClosed :
      (waiting rounds : ℕ) (o : Options) (rest : List (List ℕ)) (r : Option (List ℕ)) (w0 w : W)
      → SameOpen D w0 w
      → IsClosed D w0 (main_opened os host lib m waiting rounds o rest r w)
  unfolding main_opened
  opened-IsClosed waiting rounds o rest none w0 w h =
      created-IsClosed waiting rounds o rest _ w0 (host.fopen o.fname_config create w).1
        (λ d. quiet.fopen_same o.fname_config create w d ∙ h d)
  opened-IsClosed waiting rounds o rest (some contents) w0 w h =
      created-IsClosed waiting rounds o rest (some contents) w0 w h

  parsed-IsClosed :
      (waiting rounds : ℕ) (r : Parsed) (w : W)
      → IsClosed D w (main_parsed os host lib m waiting rounds r w)
  unfolding main_parsed
  parsed-IsClosed waiting rounds full_help w = λ d. refl
  parsed-IsClosed waiting rounds (usage c) w = tt
  parsed-IsClosed waiting rounds (parsed o rest) w =
      opened-IsClosed waiting rounds o rest _ w (host.fopen o.fname_config update w).1
        (quiet.fopen_same o.fname_config update w)

  -- Where making a descriptor non-blocking never fails, libmobile only makes calls of its socket
  -- callbacks that pass their assertions, setting the adapter up makes none, and files, memory and
  -- the lookup of names leave the descriptors alone: whatever the arguments are, where the program
  -- exits with success, the descriptors are open that were open when it began.
  pub program-IsClosed :
      (waiting rounds : ℕ) (args : List (List ℕ)) (w : W)
      → IsClosed D w (main_program os host lib m waiting rounds args w)
  unfolding main_program
  program-IsClosed waiting rounds args w = parsed-IsClosed waiting rounds _ w
