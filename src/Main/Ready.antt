-- ===== src/Main/Ready.antt =====
-- source/main.c: the options that `main` goes on with.
use libmobile_bgb.Prelude.{
  ℕ, ◌≡◌, refl, ◌∙◌, true, Option, none, some, List, [], ◌∷◌, arith, length, replicate,
  length-replicate, inl, inr, Option-cases,
}
use libmobile_bgb.SocketImpl.Types.{MobileAddr, addr4, addr6, addr_other}
use libmobile_bgb.Main.Hex.{main_parse_hex, length-main_parse_hex}
use libmobile_bgb.Text.Strtol.{strtol, signed, skip_spaces, to_unsigned}
use libmobile_bgb.Main.Args.{
  Inet, Options, Valued, config_opt, device_opt, dns1_opt, dns2_opt, dns_port_opt, p2p_port_opt,
  relay_opt, relay_token_opt, Kind, operand, double_dash, help, unmetered, unknown_option, valued,
  Parsed, full_help, usage, parsed, kind, text_dns_port, main_parse_addr, main_set_port,
  parse_token, set_option, parse_options, main_options,
}
use libmobile_bgb.Bgb.Packet.{same_bytes}

-- An address, if it is one, has this port.
abbrev pub HasPort : ℕ → MobileAddr → Type 0
HasPort port (addr4 p host) = p ≡ port
HasPort port (addr6 p host) = p ≡ port
HasPort port addr_other = Unit {0}

-- A token, if there is one, has this size.
abbrev pub HasSize : ℕ → Option (List ℕ) → Type 0
HasSize size none = Unit {0}
HasSize size (some token) = length token ≡ size

set_port-HasPort : (addr : MobileAddr) (port : ℕ) → HasPort port (main_set_port addr port)
unfolding main_set_port
set_port-HasPort (addr4 p host) port = refl
set_port-HasPort (addr6 p host) port = refl
set_port-HasPort addr_other port = tt

parse_token-HasSize :
    (size : ℕ) (value : List ℕ) (token : Option (List ℕ))
    → parse_token size value ≡ some token
    → HasSize size token
unfolding parse_token main_parse_hex
parse_token-HasSize size value token e =
    let long =
      length-main_parse_hex (replicate size 0) value size ∙ length-replicate {0} {A = ℕ} size 0 in
    ground arith

module _ (inet_pton : List ℕ → Inet) (relay_port token_size : ℕ) where
  -- What every option keeps.
  pub record AreSound (o : Options) : Type 0 where
    pub relay_port_set : HasPort relay_port o.relay
    pub token_size_right : HasSize token_size o.relay_token

  set_option-AreSound :
      (k : Valued) (value : List ℕ) (o o' : Options)
      → set_option inet_pton relay_port token_size k value o ≡ some o'
      → AreSound o
      → AreSound o'
  unfolding set_option
  set_option-AreSound config_opt value o o' e h = ground arith
  set_option-AreSound device_opt value o o' e h = ground arith
  set_option-AreSound dns1_opt value o o' e h = ground arith
  set_option-AreSound dns2_opt value o o' e h = ground arith
  set_option-AreSound dns_port_opt value o o' e h = ground arith
  set_option-AreSound p2p_port_opt value o o' e h = ground arith
  set_option-AreSound relay_opt value o o' e h =
      elim (Option-cases (main_parse_addr o.relay (inet_pton value))) [
        | inl bad ↦ absurd (ground arith)
        | inr (addr, found) ↦ ground (arith, set_port-HasPort addr relay_port)
      ]
  set_option-AreSound relay_token_opt value o o' e h =
      elim (Option-cases (parse_token token_size value)) [
        | inl bad ↦ absurd (ground arith)
        | inr (token, found) ↦ ground (arith, parse_token-HasSize token_size value token found)
      ]

  parse_options-AreSound :
      (args : List (List ℕ)) (o o' : Options) (rest : List (List ℕ))
      → parse_options inet_pton relay_port token_size args o ≡ parsed o' rest
      → AreSound o
      → AreSound o'
  unfolding parse_options
  parse_options-AreSound [] o o' rest e h = ground arith
  parse_options-AreSound (arg ∷ []) o o' rest e h = go (kind arg) refl
    where
      go : (k : Kind) → kind arg ≡ k → AreSound o'
      go operand found = ground arith
      go double_dash found = ground arith
      go help found = absurd (ground arith)
      go unmetered found = ground arith
      go unknown_option found = absurd (ground arith)
      go (valued k) found = absurd (ground arith)
  parse_options-AreSound (arg ∷ value ∷ args) o o' rest e h =
      go (kind arg) refl (λ o1 e1 h1. parse_options-AreSound (value ∷ args) o1 o' rest e1 h1)
        (λ o1 e1 h1. parse_options-AreSound args o1 o' rest e1 h1)
    where
      go :
          (k : Kind)
          → kind arg ≡ k
          → ((o1 : Options)
              → parse_options inet_pton relay_port token_size (value ∷ args) o1 ≡ parsed o' rest
              → AreSound o1
              → AreSound o')
          → ((o1 : Options)
              → parse_options inet_pton relay_port token_size args o1 ≡ parsed o' rest
              → AreSound o1
              → AreSound o')
          → AreSound o'
      go operand found one two = ground arith
      go double_dash found one two = ground arith
      go help found one two = absurd (ground arith)
      go unmetered found one two =
          one (record o { device_unmetered = true }) (ground arith)
            (record { relay_port_set = h.relay_port_set; token_size_right = h.token_size_right })
      go unknown_option found one two = absurd (ground arith)
      go (valued k) found one two =
          elim (Option-cases (set_option inet_pton relay_port token_size k value o)) [
            | inl bad ↦ absurd (ground arith)
            | inr (o1, set_to) ↦ two o1 (ground arith) (set_option-AreSound k value o o1 set_to h)
          ]

  -- What `main` goes on with.
  pub record AreReady (o : Options) : Type 0 where
    pub dns1_port_set : HasPort o.dns_port o.dns1
    pub dns2_port_set : HasPort o.dns_port o.dns2
    pub is_sound : AreSound o

  -- Whatever the arguments, and in whatever order the options are: if `main` goes on, with options
  -- that were sound to begin with, then each DNS server has the port of `--dns_port`, the relay
  -- has the relay's port, and the relay's token, if there is one, has its size.
  pub main_options-AreReady :
      (args : List (List ℕ)) (o o' : Options) (rest : List (List ℕ))
      → main_options inet_pton relay_port token_size args o ≡ parsed o' rest
      → AreSound o
      → AreReady o'
  unfolding main_options
  main_options-AreReady args o o' rest e h =
      go (parse_options inet_pton relay_port token_size args o) refl
    where
      go : (r : Parsed) → parse_options inet_pton relay_port token_size args o ≡ r → AreReady o'
      go full_help found = absurd (ground arith)
      go (usage c) found = absurd (ground arith)
      go (parsed o1 rest1) found =
          let sound = parse_options-AreSound args o o1 rest1 found h in
          ground (
            arith,
            sound,
            set_port-HasPort o1.dns1 o1.dns_port,
            set_port-HasPort o1.dns2 o1.dns_port,
          )

  -- An empty parameter of `--dns_port` is accepted, wherever it stands, and means port 0.
  pub dns_port_empty :
      (args : List (List ℕ)) (o : Options)
      → parse_options inet_pton relay_port token_size (text_dns_port ∷ [] ∷ args) o
        ≡ parse_options inet_pton relay_port token_size args (record o { dns_port = 0 })
  unfolding parse_options kind same_bytes set_option strtol signed skip_spaces to_unsigned
  dns_port_empty args o = refl
