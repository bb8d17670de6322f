-- ===== src/Main/Ports.antt =====
-- source/main.c: decimal ports on the command line.
use libmobile_bgb.Prelude.{ℕ, ◌%◌, ◌^◌, ◌<◌, ◌≡◌, refl, List, ◌∷◌, some, arith}
use libmobile_bgb.Text.{decimal}
use libmobile_bgb.Text.Decimal.{strtol-decimal}
use libmobile_bgb.Text.Strtol.{to_unsigned}
use libmobile_bgb.Bgb.Packet.{same_bytes}
use libmobile_bgb.Main.Args.{
  Inet, Options, kind, text_dns_port, set_option, parse_options, dns_port_opt, valued,
}

kind_dns_port : kind text_dns_port ≡ valued dns_port_opt
unfolding kind same_bytes
kind_dns_port = refl

module _ (inet_pton : List ℕ → Inet) (relay_port token_size : ℕ) where
  set_dns_port :
      (n : ℕ) (o : Options)
      → n < 2 ^ 32
      → set_option inet_pton relay_port token_size dns_port_opt (decimal n) o
        ≡ some (record o { dns_port = n })
  unfolding set_option to_unsigned
  set_dns_port n o fits =
      let read = strtol-decimal n (omega arith) in
      let kept : n % 2 ^ 32 ≡ n = omega arith in ground (arith, read)

  -- A port of 32 bits that is given in decimal to `--dns_port` is the port that `main` goes on
  -- with, whatever arguments follow.
  dns_port_decimal :
      (n : ℕ) (args : List (List ℕ)) (o : Options)
      → n < 2 ^ 32
      → parse_options inet_pton relay_port token_size (text_dns_port ∷ decimal n ∷ args) o
        ≡ parse_options inet_pton relay_port token_size args (record o { dns_port = n })
  unfolding parse_options
  dns_port_decimal n args o fits = rw (parse_options, kind_dns_port, set_dns_port n o fits) refl
