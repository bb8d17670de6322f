-- ===== src/Main/Setup.antt =====
-- source/main.c: what is relied on of the functions that `main` calls before and after the run, and
-- the setting up of the adapter.
use libmobile_bgb.Prelude.{ℕ, ◌≡◌, refl, ◌∙◌, Bool, true, false, Option, List, if◌then◌else◌}
use libmobile_bgb.Os.{Os}
use libmobile_bgb.Os.Descriptors.{Descriptors}
use libmobile_bgb.SocketImpl.Types.{MobileAddr}
use libmobile_bgb.Main.User.{MobileUser}
use libmobile_bgb.Main.Args.{Options}
use libmobile_bgb.Main.Session.{Process}
use libmobile_bgb.Main.Program.{Mode, Host, Dns, mobile_dns1, mobile_dns2, Library, main_configure}

-- The same descriptors are open.
abbrev pub SameOpen : {W : Type 0} {os : Os W} → Descriptors os → W → W → Type 0
SameOpen D w w' = (d : ℕ) → D.is_open w' d ≡ D.is_open w d

module _ {A W : Type 0} (os : Os W) (D : Descriptors os) where
  -- Setting the adapter up does not touch the connections, nor whether the clock is initialised.
  pub record IsSetup (v v' : Process A W) : Type 0 where
    pub sockets_same : v'.0.socket ≡ v.0.socket
    pub clock_init_same : v'.0.bgb_clock_init ≡ v.0.bgb_clock_init
    pub open_same : SameOpen D v.1 v'.1

  IsSetup-trans : (u v w : Process A W) → IsSetup u v → IsSetup v w → IsSetup u w
  IsSetup-trans u v w h k = record {
    sockets_same = k.sockets_same ∙ h.sockets_same;
    clock_init_same = k.clock_init_same ∙ h.clock_init_same;
    open_same = λ d. k.open_same d ∙ h.open_same d;
  }

  -- What is relied on of the functions that set an adapter up.
  pub record SetsUp (lib : Library A W) : Type 0 where
    pub new_same : (w : W) → SameOpen D w (lib.new w).1
    pub load_setup : (v : Process A W) → IsSetup v (lib.config_load v)
    pub device_setup :
        (n : ℕ) (b : Bool) (v : Process A W) → IsSetup v (lib.config_set_device n b v)
    pub dns_setup :
        (a : MobileAddr) (n : Dns) (v : Process A W) → IsSetup v (lib.config_set_dns a n v)
    pub p2p_port_setup : (n : ℕ) (v : Process A W) → IsSetup v (lib.config_set_p2p_port n v)
    pub relay_setup : (a : MobileAddr) (v : Process A W) → IsSetup v (lib.config_set_relay a v)
    pub relay_token_setup :
        (t : Option (List ℕ)) (v : Process A W) → IsSetup v (lib.config_set_relay_token t v)
    pub save_setup : (v : Process A W) → IsSetup v (lib.config_save v)

  -- Files, memory and the lookup of names leave the descriptors as they are.
  pub record NoSockets (host : Host A W) : Type 0 where
    pub fopen_same : (name : List ℕ) (mode : Mode) (w : W) → SameOpen D w (host.fopen name mode w).1
    pub fclose_same : (file : List ℕ) (w : W) → SameOpen D w (host.fclose file w)
    pub malloc_same : (w : W) → SameOpen D w (host.malloc_user w).1
    pub free_user_same : (u : MobileUser A) (w : W) → SameOpen D w (host.free_user u w)
    pub free_adapter_same : (a : A) (w : W) → SameOpen D w (host.free_adapter a w)
    pub getaddrinfo_same :
        (name port : List ℕ) (w : W) → SameOpen D w (host.getaddrinfo name port w).1

  module _ (lib : Library A W) (sets : SetsUp lib) where
    pub configure-IsSetup : (o : Options) (v : Process A W) → IsSetup v (main_configure lib o v)
    unfolding main_configure
    configure-IsSetup o v =
        let v1 = lib.config_set_device o.device o.device_unmetered (lib.config_load v) in
        let v2 = lib.config_set_dns o.dns2 mobile_dns2 (lib.config_set_dns o.dns1 mobile_dns1 v1) in
        let v3 = lib.config_set_relay o.relay (lib.config_set_p2p_port o.p2p_port v2) in
        let v4 = if o.relay_token_update then lib.config_set_relay_token o.relay_token v3 else v3 in
        let s1 = IsSetup-trans v _ v1 (sets.load_setup v) (sets.device_setup _ _ _) in
        let s2 = IsSetup-trans v1 _ v2 (sets.dns_setup _ _ v1) (sets.dns_setup _ _ _) in
        let s3 = IsSetup-trans v2 _ v3 (sets.p2p_port_setup _ v2) (sets.relay_setup _ _) in
        let s4 : IsSetup v3 v4 = token_setup o.relay_token_update o.relay_token v3 in
        IsSetup-trans v _ _
          (IsSetup-trans v _ _ (IsSetup-trans v _ _ s1 s2) (IsSetup-trans v2 _ _ s3 s4))
          (sets.save_setup v4)
      where
        token_setup :
            (b : Bool) (t : Option (List ℕ)) (v : Process A W)
            → IsSetup v (if b then lib.config_set_relay_token t v else v)
        token_setup true t v = sets.relay_token_setup t v
        token_setup false t v = record {
          sockets_same = refl;
          clock_init_same = refl;
          open_same = λ d. refl;
        }
