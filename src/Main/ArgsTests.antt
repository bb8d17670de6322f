-- ===== src/Main/ArgsTests.antt =====
-- Runs of the command line, and the theorems on it at concrete arguments.
use libmobile_bgb.Prelude.{
  inl, inr, ℕ, ◌≡◌, refl, true, false, none, some, List, [], ◌∷◌, pos, negsuc, arith,
}
use libmobile_bgb.Text.{codes}
use libmobile_bgb.Bgb.Packet.{same_bytes}
use libmobile_bgb.SocketImpl.Types.{addr4, addr_other}
use libmobile_bgb.Text.Strtol.{
  strtol, signed, skip_spaces, in_base, any_base, magnitude, digits, digit, positive, negative,
  to_unsigned,
}
use libmobile_bgb.Main.Args.{
  Inet, inet_ipv4, Options, parsed, kind, main_parse_addr, main_set_port, set_option, parse_options,
  main_options, text_dns1, text_dns_port, text_relay, text_relay_token, text_unmetered,
}
use libmobile_bgb.Main.Tokens.{relay_token-Spells}
use libmobile_bgb.Main.Ready.{AreReady, main_options-AreReady, dns_port_empty}

strtol_hex : strtol 0 (32 ∷ b'0' ∷ b'x' ∷ b'1' ∷ b'F' ∷ b'g' ∷ []) ≡ (pos 31, (b'g' ∷ []))
unfolding strtol signed skip_spaces in_base any_base magnitude digits digit positive
strtol_hex = refl

strtol_octal : strtol 0 (b'0' ∷ b'1' ∷ b'7' ∷ []) ≡ (pos 15, [])
unfolding strtol signed skip_spaces in_base any_base magnitude digits digit positive
strtol_octal = refl

strtol_minus : strtol 10 (b'-' ∷ b'5' ∷ []) ≡ (negsuc 4, [])
unfolding strtol signed skip_spaces in_base any_base magnitude digits digit negative
strtol_minus = refl

strtol_nothing : strtol 10 (b'x' ∷ []) ≡ (pos 0, (b'x' ∷ []))
unfolding strtol signed skip_spaces in_base any_base magnitude digits digit positive
strtol_nothing = refl

-- Every address is 1.1.1.1.
abbrev one : List ℕ → Inet
one text = inet_ipv4 (1 ∷ 1 ∷ 1 ∷ 1 ∷ [])

abbrev defaults : Options
defaults = record {
  fname_config = [];
  device = 8;
  device_unmetered = false;
  dns1 = addr_other;
  dns2 = addr_other;
  dns_port = 53;
  p2p_port = 1027;
  relay = addr_other;
  relay_token_update = false;
  relay_token = none;
}

abbrev arguments : List (List ℕ)
arguments =
    text_dns1
    ∷ (b'x' ∷ [])
    ∷ text_unmetered
    ∷ text_dns_port
    ∷ (b'5' ∷ b'4' ∷ [])
    ∷ text_relay
    ∷ (b'x' ∷ [])
    ∷ (b'x' ∷ [])
    ∷ []

abbrev chosen : Options
chosen = record defaults {
  device_unmetered = true;
  dns1 = addr4 54 (1 ∷ 1 ∷ 1 ∷ 1 ∷ []);
  dns_port = 54;
  relay = addr4 31227 (1 ∷ 1 ∷ 1 ∷ 1 ∷ []);
}

arguments_run : main_options one 31227 16 arguments defaults ≡ parsed chosen ((b'x' ∷ []) ∷ [])
unfolding main_options parse_options kind same_bytes set_option main_parse_addr main_set_port strtol
    signed skip_spaces in_base magnitude digits digit positive to_unsigned
arguments_run = refl

main_options-AreReady_example : AreReady one 31227 16 chosen
main_options-AreReady_example =
    main_options-AreReady one 31227 16 arguments defaults chosen ((b'x' ∷ []) ∷ []) arguments_run
      (record { relay_port_set = tt; token_size_right = tt })

dns_port_empty_example :
    parse_options one 31227 16 (text_dns_port ∷ [] ∷ text_unmetered ∷ []) defaults
    ≡ parse_options one 31227 16 (text_unmetered ∷ []) (record defaults { dns_port = 0 })
dns_port_empty_example = dns_port_empty one 31227 16 (text_unmetered ∷ []) defaults

-- A token of two bytes, "1Fa0".
relay_token-Spells_example :
    parse_options one 31227 2 (text_relay_token ∷ codes "1Fa0" ∷ text_unmetered ∷ []) defaults
    ≡ parse_options one 31227 2
        (text_unmetered ∷ [])
        (record defaults { relay_token_update = true; relay_token = some (0x1f ∷ 0xa0 ∷ []) })
relay_token-Spells_example =
    relay_token-Spells one 31227 2 (codes "1Fa0") (0x1f ∷ 0xa0 ∷ []) (text_unmetered ∷ []) defaults
      (
        inl (omega arith, refl),
        inr (omega arith, omega arith, inl refl),
        (inr (omega arith, omega arith, inr refl), inl (omega arith, refl), tt),
      )
      refl (omega arith)
