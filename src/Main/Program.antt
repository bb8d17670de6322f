-- ===== src/Main/Program.antt =====
-- source/main.c: `main` as a whole, from the command line to the exit status. libmobile and what
-- else the program calls of the system are parameters.
use libmobile_bgb.Prelude.{
  ℕ, Bool, true, false, Option, none, some, List, [], ◌∷◌, set, replicate, if◌then◌else◌,
}
use libmobile_bgb.Text.{codes}
use libmobile_bgb.Os.{Os, Family, SockAddr}
use libmobile_bgb.SocketImpl.Types.{MobileAddr, addr_other, socket_impl_init}
use libmobile_bgb.Main.User.{MobileUser}
use libmobile_bgb.Main.Config.{pad_config}
use libmobile_bgb.Main.Args.{Inet, Options, Parsed, full_help, usage, parsed, main_options}
use libmobile_bgb.Main.Session.{Process, Mobile, main_session}

-- The modes of fopen(): "r+b" and "w+b".
pub data Mode : Type 0 where
  update create : Mode

-- fopen() gives the contents of the file. malloc() gives a block with whatever it holds.
pub record Host (A W : Type 0) : Type 0 where
  pub fopen : List ℕ → Mode → W → Option (List ℕ) × W
  pub fclose : List ℕ → W → W
  pub malloc_user : W → Option (MobileUser A) × W
  pub free_user : MobileUser A → W → W
  pub free_adapter : A → W → W
  pub getaddrinfo : List ℕ → List ℕ → W → Option (List (Family × SockAddr)) × W

-- MOBILE_DNS1 and MOBILE_DNS2.
pub data Dns : Type 0 where
  mobile_dns1 mobile_dns2 : Dns

-- The numbers of libmobile, and the functions that set an adapter up.
pub record Library (A W : Type 0) : Type 0 where
  pub adapter_blue : ℕ
  pub dns_port : ℕ
  pub default_p2p_port : ℕ
  pub default_relay_port : ℕ
  pub relay_token_size : ℕ
  pub config_size : ℕ
  pub max_timers : ℕ
  pub max_connections : ℕ
  pub inet_pton : List ℕ → Inet
  pub new : W → A × W
  pub config_load : Process A W → Process A W
  pub config_set_device : ℕ → Bool → Process A W → Process A W
  pub config_set_dns : MobileAddr → Dns → Process A W → Process A W
  pub config_set_p2p_port : ℕ → Process A W → Process A W
  pub config_set_relay : MobileAddr → Process A W → Process A W
  pub config_set_relay_token : Option (List ℕ) → Process A W → Process A W
  pub config_save : Process A W → Process A W

-- What `main` has acquired and not released.
pub record Held : Type 0 where
  pub config_file : Bool
  pub user_block : Bool
  pub adapter_block : Bool

abbrev pub nothing_held : Held
nothing_held = record { config_file = false; user_block = false; adapter_block = false }

-- The end of the program: EXIT_SUCCESS or not, and what is held. `waits` is no end: the first
-- timestamp has not come yet.
pub data Outcome (W : Type 0) : Type 0 where
  exits : Bool → Held → W → Outcome W
  waits : Outcome W

-- `host` and `port` from the arguments that are left.
unfoldable pub main_host : List (List ℕ) → List ℕ × List ℕ
main_host [] = (codes "127.0.0.1", codes "8765")
main_host (host ∷ []) = (host, codes "8765")
main_host (host ∷ port ∷ _) = (host, port)

module _ {A W : Type 0} (lib : Library A W) where
  -- The variables of `main`, before the loop over the arguments.
  unfoldable pub main_defaults : Options
  main_defaults = record {
    fname_config = codes "config.bin";
    device = lib.adapter_blue;
    device_unmetered = false;
    dns1 = addr_other;
    dns2 = addr_other;
    dns_port = lib.dns_port;
    p2p_port = lib.default_p2p_port;
    relay = addr_other;
    relay_token_update = false;
    relay_token = none;
  }

  -- The initialisation of the user's data in a fresh block.
  unfoldable pub main_user : ℕ → List ℕ → MobileUser A → MobileUser A
  main_user action_none config block = record block {
    action = action_none;
    config = config;
    reset = false;
    bgb_clock = 0;
    bgb_clock_init = false;
    bgb_clock_latch = replicate lib.max_timers 0;
    number_user = set block.number_user 0 0;
    number_peer = set block.number_peer 0 0;
    socket = socket_impl_init lib.max_connections;
  }

  unfoldable pub main_configure : Options → Process A W → Process A W
  main_configure o v =
      let v1 = lib.config_set_device o.device o.device_unmetered (lib.config_load v) in
      let v2 = lib.config_set_dns o.dns2 mobile_dns2 (lib.config_set_dns o.dns1 mobile_dns1 v1) in
      let v3 = lib.config_set_relay o.relay (lib.config_set_p2p_port o.p2p_port v2) in
      let v4 = if o.relay_token_update then lib.config_set_relay_token o.relay_token v3 else v3 in
      lib.config_save v4

module _ {A W : Type 0} (os : Os W) (host : Host A W) (lib : Library A W) (m : Mobile A W) where
  -- A call that releases something, with what is held after it.
  abbrev close_file : List ℕ → Held × W → Held × W
  close_file config (held, w) = (record held { config_file = false }, host.fclose config w)

  abbrev free_user_block : MobileUser A → Held × W → Held × W
  free_user_block user (held, w) = (record held { user_block = false }, host.free_user user w)

  abbrev free_adapter_block : A → Held × W → Held × W
  free_adapter_block adapter (held, w) =
      (record held { adapter_block = false }, host.free_adapter adapter w)

  -- The two ends of `main`, where the user's data are there. Both release the same.
  unfoldable pub release_all : Held → Process A W → Held × W
  release_all held v =
      close_file v.0.config (free_user_block v.0 (free_adapter_block v.0.adapter (held, v.1)))

  -- After the run from the connection to the emulator on.
  unfoldable pub main_finish : Held → Option (Bool × Process A W) → Outcome W
  main_finish held none = waits
  main_finish held (some (status, v)) = let (held', w) = release_all held v in exits status held' w

  -- With the file open and padded, and what malloc() returned.
  unfoldable pub main_with_block :
      ℕ → ℕ → Options → List (List ℕ) → Held → List ℕ → Option (MobileUser A) → W → Outcome W
  main_with_block waiting rounds o rest held config none w =
      let (held', w') = close_file config (held, w) in exits false held' w'
  main_with_block waiting rounds o rest held config (some block) w =
      let (adapter, w1) = lib.new w in
      let user : MobileUser A = record (main_user lib m.action_none config block) {
        adapter = adapter;
      } in
      let v = main_configure lib o (user, w1) in
      let (addresses, w2) = host.getaddrinfo (main_host rest).0 (main_host rest).1 v.1 in
      main_finish (record held { user_block = true; adapter_block = true })
        (main_session os m addresses waiting rounds (v.0, w2))

  -- What fopen() returned for "w+b", and for "r+b".
  unfoldable pub main_created : ℕ → ℕ → Options → List (List ℕ) → Option (List ℕ) → W → Outcome W
  main_created waiting rounds o rest none w = exits false nothing_held w
  main_created waiting rounds o rest (some contents) w =
      let (block, w1) = host.malloc_user w in
      main_with_block waiting rounds o rest (record nothing_held { config_file = true })
        (pad_config lib.config_size contents) block w1

  unfoldable pub main_opened : ℕ → ℕ → Options → List (List ℕ) → Option (List ℕ) → W → Outcome W
  main_opened waiting rounds o rest none w =
      let (created, w1) = host.fopen o.fname_config create w in
      main_created waiting rounds o rest created w1
  main_opened waiting rounds o rest (some contents) w =
      main_created waiting rounds o rest (some contents) w

  -- After the loop over the arguments.
  unfoldable pub main_parsed : ℕ → ℕ → Parsed → W → Outcome W
  main_parsed waiting rounds full_help w = exits true nothing_held w
  main_parsed waiting rounds (usage c) w = exits false nothing_held w
  main_parsed waiting rounds (parsed o rest) w =
      let (opened, w1) = host.fopen o.fname_config update w in
      main_opened waiting rounds o rest opened w1

  unfoldable pub main_program : ℕ → ℕ → List (List ℕ) → W → Outcome W
  main_program waiting rounds args w =
      main_parsed waiting rounds
        (main_options lib.inet_pton lib.default_relay_port lib.relay_token_size args
          (main_defaults lib))
        w
