-- ===== src/Main/Usage.antt =====
-- source/main.c: what the loop over the options prints to stderr where it ends the program. A text is
-- its bytes, in UTF-8.
pub mod Complaints
use libmobile_bgb.Prelude.{ℕ, List, [], ◌∷◌, ◌++◌}
use libmobile_bgb.Text.{codes}
use libmobile_bgb.Main.Args.{
  Complaint, missing_parameter, invalid_parameter, unknown_argument, Parsed, full_help, usage,
  parsed,
}

abbrev line : List ℕ → List ℕ
line text = text ++ (10 ∷ [])

abbrev lines : List (List ℕ) → List ℕ
lines [] = []
lines (text ∷ rest) = line text ++ lines rest

-- What is behind the usage and an empty line in the help.
pub help_options : List ℕ
help_options = lines (
    codes "-h|--help           Show this help"
    ∷ codes "-c|--config config  Config file path"
    ∷ codes "--device device     Adapter to emulate"
    ∷ (codes "--unmetered         Signal unmetered communications to Pok"
        ++ (195 ∷ 169 ∷ codes "mon"))
    ∷ codes "--dns1 addr         Set DNS1 address override"
    ∷ codes "--dns2 addr         Set DNS2 address override"
    ∷ codes "--dns_port port     Set DNS port for address overrides"
    ∷ codes "--p2p_port port     Port to use for relay-less P2P communications"
    ∷ codes "--relay addr        Set relay server for P2P communications"
    ∷ codes "--relay-token hex   Set relay token (or empty to clear)"
    ∷ [])

module _ (program_name : List ℕ) where
  unfoldable pub show_help : List ℕ
  show_help = line (program_name ++ codes " [-h] [-c config] [options] [bgb_host [bgb_port]]")

  unfoldable pub show_help_full : List ℕ
  show_help_full =
      line (program_name ++ codes " [-h] [-c config] [options] [bgb_host [bgb_port]]")
      ++ (line [] ++ help_options)

  -- The message, and the usage behind it. The three messages about an invalid parameter read alike,
  -- since the option is the argument itself.
  unfoldable pub complain : Complaint → List ℕ
  complain (missing_parameter arg) = line (codes "Missing parameter for " ++ arg) ++ show_help
  complain (invalid_parameter arg value) =
      line (codes "Invalid parameter for " ++ (arg ++ (codes ": " ++ value))) ++ show_help
  complain (unknown_argument arg) = line (codes "Unknown option: " ++ arg) ++ show_help

  -- By the end of the loop over the arguments.
  unfoldable pub printed : Parsed → List ℕ
  printed full_help = show_help_full
  printed (usage c) = complain c
  printed (parsed o rest) = []
