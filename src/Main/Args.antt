-- ===== src/Main/Args.antt =====
-- source/main.c: the options of the command line. A string is its bytes, without the null.
use libmobile_bgb.Prelude.{
  ℕ, ◌*◌, Bool, true, false, not, ◌||◌, Option, none, some, List, [], ◌∷◌, ◌==◌, length, replicate,
  if◌then◌else◌,
}
use libmobile_bgb.Bgb.Packet.{same_bytes}
use libmobile_bgb.SocketImpl.Types.{MobileAddr, addr4, addr6, addr_other}
use libmobile_bgb.Main.Hex.{main_parse_hex}
use libmobile_bgb.Text.Strtol.{strtol, to_unsigned}

-- What mobile_inet_pton() of libmobile finds: the bytes of a host.
pub data Inet : Type 0 where
  inet_ipv4 inet_ipv6 : List ℕ → Inet
  inet_invalid : Inet

-- The variables of `main` that the options set, with `relay_token` as what it points to.
pub record Options : Type 0 where
  pub fname_config : List ℕ
  pub device : ℕ
  pub device_unmetered : Bool
  pub dns1 : MobileAddr
  pub dns2 : MobileAddr
  pub dns_port : ℕ
  pub p2p_port : ℕ
  pub relay : MobileAddr
  pub relay_token_update : Bool
  pub relay_token : Option (List ℕ)

-- The options with a parameter, and what else an argument can be.
pub data Valued : Type 0 where
  config_opt device_opt dns1_opt dns2_opt dns_port_opt p2p_port_opt relay_opt relay_token_opt :
      Valued

pub data Kind : Type 0 where
  operand double_dash help unmetered unknown_option : Kind
  valued : Valued → Kind

-- What the loop complains of, about an argument: that its parameter is missing, that it is invalid,
-- or that the option is not known.
pub data Complaint : Type 0 where
  missing_parameter : List ℕ → Complaint
  invalid_parameter : List ℕ → List ℕ → Complaint
  unknown_argument : List ℕ → Complaint

-- How the loop over the arguments ends: with the help, with a complaint and the usage, or with the
-- options and the arguments that are left.
pub data Parsed : Type 0 where
  full_help : Parsed
  usage : Complaint → Parsed
  parsed : Options → List (List ℕ) → Parsed

abbrev is_option : List ℕ → Bool
is_option [] = false
is_option (c ∷ _) = c == b'-'

abbrev pub text_double_dash : List ℕ
text_double_dash = b'-' ∷ b'-' ∷ []

abbrev pub text_short_help : List ℕ
text_short_help = b'-' ∷ b'h' ∷ []

abbrev pub text_long_help : List ℕ
text_long_help = b'-' ∷ b'-' ∷ b'h' ∷ b'e' ∷ b'l' ∷ b'p' ∷ []

abbrev pub text_short_config : List ℕ
text_short_config = b'-' ∷ b'c' ∷ []

abbrev pub text_long_config : List ℕ
text_long_config = b'-' ∷ b'-' ∷ b'c' ∷ b'o' ∷ b'n' ∷ b'f' ∷ b'i' ∷ b'g' ∷ []

abbrev pub text_device : List ℕ
text_device = b'-' ∷ b'-' ∷ b'd' ∷ b'e' ∷ b'v' ∷ b'i' ∷ b'c' ∷ b'e' ∷ []

abbrev pub text_unmetered : List ℕ
text_unmetered = b'-' ∷ b'-' ∷ b'u' ∷ b'n' ∷ b'm' ∷ b'e' ∷ b't' ∷ b'e' ∷ b'r' ∷ b'e' ∷ b'd' ∷ []

abbrev pub text_dns1 : List ℕ
text_dns1 = b'-' ∷ b'-' ∷ b'd' ∷ b'n' ∷ b's' ∷ b'1' ∷ []

abbrev pub text_dns2 : List ℕ
text_dns2 = b'-' ∷ b'-' ∷ b'd' ∷ b'n' ∷ b's' ∷ b'2' ∷ []

abbrev pub text_dns_port : List ℕ
text_dns_port = b'-' ∷ b'-' ∷ b'd' ∷ b'n' ∷ b's' ∷ b'_' ∷ b'p' ∷ b'o' ∷ b'r' ∷ b't' ∷ []

abbrev pub text_p2p_port : List ℕ
text_p2p_port = b'-' ∷ b'-' ∷ b'p' ∷ b'2' ∷ b'p' ∷ b'_' ∷ b'p' ∷ b'o' ∷ b'r' ∷ b't' ∷ []

abbrev pub text_relay : List ℕ
text_relay = b'-' ∷ b'-' ∷ b'r' ∷ b'e' ∷ b'l' ∷ b'a' ∷ b'y' ∷ []

abbrev pub text_relay_token : List ℕ
text_relay_token =
    b'-' ∷ b'-' ∷ b'r' ∷ b'e' ∷ b'l' ∷ b'a' ∷ b'y' ∷ b'-' ∷ b't' ∷ b'o' ∷ b'k' ∷ b'e' ∷ b'n' ∷ []

-- The tests of the loop, in their order.
unfoldable pub kind : List ℕ → Kind
kind arg =
    if not (is_option arg)
    then operand
    else if same_bytes arg text_double_dash
    then double_dash
    else if same_bytes arg text_short_help || same_bytes arg text_long_help
    then help
    else if same_bytes arg text_short_config || same_bytes arg text_long_config
    then valued config_opt
    else if same_bytes arg text_device
    then valued device_opt
    else if same_bytes arg text_unmetered
    then unmetered
    else if same_bytes arg text_dns1
    then valued dns1_opt
    else if same_bytes arg text_dns2
    then valued dns2_opt
    else if same_bytes arg text_dns_port
    then valued dns_port_opt
    else if same_bytes arg text_p2p_port
    then valued p2p_port_opt
    else if same_bytes arg text_relay
    then valued relay_opt
    else if same_bytes arg text_relay_token
    then valued relay_token_opt
    else unknown_option

-- The port that an address has so far.
abbrev port_of : MobileAddr → ℕ
port_of (addr4 port host) = port
port_of (addr6 port host) = port
port_of addr_other = 0

unfoldable pub main_parse_addr : MobileAddr → Inet → Option MobileAddr
main_parse_addr dest (inet_ipv4 host) = some (addr4 (port_of dest) host)
main_parse_addr dest (inet_ipv6 host) = some (addr6 (port_of dest) host)
main_parse_addr dest inet_invalid = none

unfoldable pub main_set_port : MobileAddr → ℕ → MobileAddr
main_set_port (addr4 port host) new = addr4 new host
main_set_port (addr6 port host) new = addr6 new host
main_set_port addr_other new = addr_other

-- The token's parameter: nothing, a token, or `none` where it is invalid.
unfoldable pub parse_token : ℕ → List ℕ → Option (Option (List ℕ))
parse_token size value =
    let (ok, token) = main_parse_hex (replicate size 0) value size in
    if length value == 0
    then some none
    else if length value == size * 2
    then (if ok then some (some token) else none)
    else none

module _ (inet_pton : List ℕ → Inet) (relay_port token_size : ℕ) where
  -- One option with its parameter; `none` where `main` shows the usage. The first test of
  -- `--dns_port` looks at the option itself, which is not empty, and so has no effect.
  unfoldable pub set_option : Valued → List ℕ → Options → Option Options
  set_option config_opt value o = some (record o { fname_config = value })
  set_option device_opt value o = some (record o { device = to_unsigned (strtol 0 value).0 })
  set_option dns1_opt value o = elim (main_parse_addr o.dns1 (inet_pton value)) [
    | none ↦ none
    | some addr ↦ some (record o { dns1 = addr })
  ]
  set_option dns2_opt value o = elim (main_parse_addr o.dns2 (inet_pton value)) [
    | none ↦ none
    | some addr ↦ some (record o { dns2 = addr })
  ]
  set_option dns_port_opt value o =
      let (port, rest) = strtol 10 value in
      if length rest == 0 then some (record o { dns_port = to_unsigned port }) else none
  set_option p2p_port_opt value o = some (record o { p2p_port = to_unsigned (strtol 0 value).0 })
  set_option relay_opt value o = elim (main_parse_addr o.relay (inet_pton value)) [
    | none ↦ none
    | some addr ↦ some (record o { relay = main_set_port addr relay_port })
  ]
  set_option relay_token_opt value o = elim (parse_token token_size value) [
    | none ↦ none
    | some token ↦ some (record o { relay_token_update = true; relay_token = token })
  ]

  -- The loop over the arguments. An option at the end of them lacks its parameter.
  unfoldable pub parse_options : List (List ℕ) → Options → Parsed
  parse_options [] o = parsed o []
  parse_options (arg ∷ []) o = elim (kind arg) [
    | operand ↦ parsed o (arg ∷ [])
    | double_dash ↦ parsed o []
    | help ↦ full_help
    | unmetered ↦ parsed (record o { device_unmetered = true }) []
    | unknown_option ↦ usage (unknown_argument arg)
    | valued k ↦ usage (missing_parameter arg)
  ]
  parse_options (arg ∷ value ∷ rest) o = elim (kind arg) [
    | operand ↦ parsed o (arg ∷ value ∷ rest)
    | double_dash ↦ parsed o (value ∷ rest)
    | help ↦ full_help
    | unmetered ↦ parse_options (value ∷ rest) (record o { device_unmetered = true })
    | unknown_option ↦ usage (unknown_argument arg)
    | valued k ↦ elim (set_option k value o) [
      | none ↦ usage (invalid_parameter arg value)
      | some o' ↦ parse_options rest o'
    ]
  ]

  -- After the loop the ports of the DNS servers are set.
  unfoldable pub main_options : List (List ℕ) → Options → Parsed
  main_options args o = elim (parse_options args o) [
    | full_help ↦ full_help
    | usage c ↦ usage c
    | parsed o' rest ↦
        parsed
          (record o' {
            dns1 = main_set_port o'.dns1 o'.dns_port;
            dns2 = main_set_port o'.dns2 o'.dns_port;
          })
          rest
  ]
