-- ===== src/Main/UsageTests.antt =====
-- The messages about arguments that are refused.
use libmobile_bgb.Prelude.{ℕ, ◌≡◌, refl, false, none, List, [], ◌∷◌, ◌++◌}
use libmobile_bgb.Text.{codes}
use libmobile_bgb.Text.Strtol.{
  strtol, signed, skip_spaces, in_base, magnitude, digits, digit, positive, to_unsigned,
}
use libmobile_bgb.Bgb.Packet.{same_bytes}
use libmobile_bgb.SocketImpl.Types.{addr_other}
use libmobile_bgb.Main.Args.{
  Inet, inet_invalid, Options, kind, set_option, parse_options, text_dns_port, text_unmetered,
}
use libmobile_bgb.Main.Usage.{complain, printed, show_help}
use libmobile_bgb.Main.Usage.Complaints.{IsComplaint, parse_options-Explains}

abbrev no_address : List ℕ → Inet
no_address text = inet_invalid

abbrev at_first : Options
at_first = record {
  fname_config = [];
  device = 8;
  device_unmetered = false;
  dns1 = addr_other;
  dns2 = addr_other;
  dns_port = 53;
  p2p_port = 1027;
  relay = addr_other;
  relay_token_update = false;
  relay_token = none;
}

-- The port is no number.
abbrev refused : List (List ℕ)
refused = text_unmetered ∷ text_dns_port ∷ codes "x" ∷ []

parse_options-Explains_example :
    IsComplaint
      (codes "mobile")
      no_address
      31227
      16
      refused
      (printed (codes "mobile") (parse_options no_address 31227 16 refused at_first))
unfolding parse_options kind same_bytes set_option strtol signed skip_spaces in_base magnitude
    digits digit positive to_unsigned
parse_options-Explains_example =
    parse_options-Explains (codes "mobile") no_address 31227 16 refused at_first

refused_message :
    printed (codes "mobile") (parse_options no_address 31227 16 refused at_first)
    ≡ codes "Invalid parameter for --dns_port: x"
      ++ (10 ∷ codes "mobile [-h] [-c config] [options] [bgb_host [bgb_port]]" ++ (10 ∷ []))
unfolding printed complain parse_options kind same_bytes set_option strtol signed skip_spaces
    in_base magnitude digits digit positive to_unsigned show_help
refused_message = refl

-- The parameter is missing.
lacking_message :
    printed (codes "mobile") (parse_options no_address 31227 16 (text_dns_port ∷ []) at_first)
    ≡ codes "Missing parameter for --dns_port"
      ++ (10 ∷ codes "mobile [-h] [-c config] [options] [bgb_host [bgb_port]]" ++ (10 ∷ []))
unfolding printed complain parse_options kind same_bytes show_help
lacking_message = refl
