-- ===== src/Main/Tokens.antt =====
-- source/main.c: the relay's token on the command line.
use libmobile_bgb.Prelude.{
  ℕ, ◌*◌, ◌<◌, ◌≡◌, refl, true, some, List, [], ◌∷◌, arith, length, replicate, length-replicate,
}
use libmobile_bgb.Bgb.Packet.{same_bytes}
use libmobile_bgb.Main.Hex.{main_parse_hex, Spells, parse_hex-Spells}
use libmobile_bgb.Main.Args.{
  Inet, Options, kind, valued, relay_token_opt, text_relay_token, parse_token, set_option,
  parse_options,
}

length-Spells : (text bytes : List ℕ) → Spells text bytes → length text ≡ length bytes * 2
length-Spells [] [] h = refl
length-Spells [] (b ∷ bytes) h = absurd h
length-Spells (c ∷ []) bytes h = absurd h
length-Spells (c ∷ d ∷ text) [] h = absurd h
length-Spells (c ∷ d ∷ text) (b ∷ bytes) h = omega (arith, length-Spells text bytes h.2)

parse_token-Spells :
    (size : ℕ) (text bytes : List ℕ)
    → Spells text bytes
    → length bytes ≡ size
    → 0 < size
    → parse_token size text ≡ some (some bytes)
unfolding parse_token
parse_token-Spells size text bytes spelled whole nonempty =
    let read : main_parse_hex (replicate size 0) text size ≡ (true, bytes) = rw (← whole) (
      parse_hex-Spells (replicate (length bytes) 0) text bytes spelled
        (length-replicate {0} {A = ℕ} (length bytes) 0)) in
    ground (arith, read, length-Spells text bytes spelled)

kind_relay_token : kind text_relay_token ≡ valued relay_token_opt
unfolding kind same_bytes
kind_relay_token = refl

module _ (inet_pton : List ℕ → Inet) (relay_port token_size : ℕ) where
  set_relay_token :
      (text bytes : List ℕ) (o : Options)
      → Spells text bytes
      → length bytes ≡ token_size
      → 0 < token_size
      → set_option inet_pton relay_port token_size relay_token_opt text o
        ≡ some (record o { relay_token_update = true; relay_token = some bytes })
  unfolding set_option
  set_relay_token text bytes o spelled whole nonempty =
      rw (set_option, parse_token-Spells token_size text bytes spelled whole nonempty) refl

  -- Where the argument of `--relay-token` spells bytes by two hexadecimal digits each, in lower or
  -- upper case, and they are as many as a token has, which is not none: the loop goes on with the
  -- arguments behind it, and those bytes as the relay's token, to be updated.
  pub relay_token-Spells :
      (text bytes : List ℕ) (args : List (List ℕ)) (o : Options)
      → Spells text bytes
      → length bytes ≡ token_size
      → 0 < token_size
      → parse_options inet_pton relay_port token_size (text_relay_token ∷ text ∷ args) o
        ≡ parse_options inet_pton relay_port token_size args
            (record o { relay_token_update = true; relay_token = some bytes })
  unfolding parse_options
  relay_token-Spells text bytes args o spelled whole nonempty =
      rw (parse_options, kind_relay_token, set_relay_token text bytes o spelled whole nonempty) refl
