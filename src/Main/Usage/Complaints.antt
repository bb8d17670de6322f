-- ===== src/Main/Usage/Complaints.antt =====
-- source/main.c: what the messages about the options say.
use mathlib.Core.List.{append_assoc}
use libmobile_bgb.Prelude.{
  ℕ, ◌≡◌, refl, ap, List, [], ◌∷◌, ◌++◌, none, true, Option-cases, inl, inr,
}
use libmobile_bgb.Text.{codes}
use libmobile_bgb.Main.Args.{
  Inet, Options, Kind, operand, double_dash, help, unmetered, unknown_option, valued, Valued, kind,
  set_option, Parsed, full_help, usage, parsed, parse_options,
}
use libmobile_bgb.Main.Usage.{help_options, show_help, show_help_full, complain, printed}

-- A message, the end of its line, and the line on the usage.
abbrev pub with_usage : List ℕ → List ℕ → List ℕ
with_usage program_name message =
    message
    ++ (10
        ∷ (program_name
            ++ (codes " [-h] [-c config] [options] [bgb_host [bgb_port]]" ++ (10 ∷ []))))

module _ (program_name : List ℕ) (inet_pton : List ℕ → Inet) (relay_port token_size : ℕ) where
  -- The message is about an option among the arguments: the last one, which lacks its parameter;
  -- one whose parameter is refused, by what was set so far; or one that is not known.
  pub data IsComplaint (args : List (List ℕ)) (text : List ℕ) : Type 0 where
    is_missing :
        (before : List (List ℕ)) (arg : List ℕ) (k : Valued)
        → args ≡ before ++ (arg ∷ [])
        → kind arg ≡ valued k
        → text ≡ with_usage program_name (codes "Missing parameter for " ++ arg)
        → IsComplaint args text
    is_invalid :
        (before : List (List ℕ)) (arg value : List ℕ) (after : List (List ℕ)) (k : Valued)
        (o : Options)
        → args ≡ before ++ (arg ∷ value ∷ after)
        → kind arg ≡ valued k
        → set_option inet_pton relay_port token_size k value o ≡ none
        → text
          ≡ with_usage program_name
              (codes "Invalid parameter for " ++ (arg ++ (codes ": " ++ value)))
        → IsComplaint args text
    is_unknown :
        (before : List (List ℕ)) (arg : List ℕ) (after : List (List ℕ))
        → args ≡ before ++ (arg ∷ after)
        → kind arg ≡ unknown_option
        → text ≡ with_usage program_name (codes "Unknown option: " ++ arg)
        → IsComplaint args text

  -- What is to be printed, by the end of the loop. The help has the line on the usage first, and
  -- then an empty line.
  abbrev pub Explains : List (List ℕ) → Parsed → List ℕ → Type 0
  Explains args full_help text =
      (rest : List ℕ) × (text
        ≡ program_name
          ++ (codes " [-h] [-c config] [options] [bgb_host [bgb_port]]" ++ (10 ∷ 10 ∷ rest)))
  Explains args (usage c) text = IsComplaint args text
  Explains args (parsed o rest) text = text ≡ []

  full_help-Explains :
      (args : List (List ℕ)) → Explains args full_help (show_help_full program_name)
  unfolding show_help_full
  full_help-Explains args = (help_options, simp append_assoc)

  says :
      (message : List ℕ)
      → (message ++ (10 ∷ [])) ++ show_help program_name ≡ with_usage program_name message
  unfolding show_help
  says message = simp append_assoc

  -- A complaint about the later arguments is one about all.
  IsComplaint-cons :
      (arg : List ℕ) (args : List (List ℕ)) (text : List ℕ)
      → IsComplaint args text
      → IsComplaint (arg ∷ args) text
  IsComplaint-cons arg args text (is_missing before a k e found says) =
      is_missing (arg ∷ before) a k (ap (◌∷◌ arg) e) found says
  IsComplaint-cons arg args text (is_invalid before a v after k o e found bad says) =
      is_invalid (arg ∷ before) a v after k o (ap (◌∷◌ arg) e) found bad says
  IsComplaint-cons arg args text (is_unknown before a after e found says) =
      is_unknown (arg ∷ before) a after (ap (◌∷◌ arg) e) found says

  Explains-cons :
      (arg : List ℕ) (args : List (List ℕ)) (r : Parsed) (text : List ℕ)
      → Explains args r text
      → Explains (arg ∷ args) r text
  Explains-cons arg args full_help text h = h
  Explains-cons arg args (usage c) text h = IsComplaint-cons arg args text h
  Explains-cons arg args (parsed o rest) text h = h

  abbrev IsExplained : List (List ℕ) → Options → Type 0
  IsExplained args o =
      Explains args (parse_options inet_pton relay_port token_size args o)
        (printed program_name (parse_options inet_pton relay_port token_size args o))

  IsExplained-cons :
      (arg : List ℕ) (args : List (List ℕ)) (o : Options)
      → IsExplained args o
      → Explains
          (arg ∷ args)
          (parse_options inet_pton relay_port token_size args o)
          (printed program_name (parse_options inet_pton relay_port token_size args o))
  IsExplained-cons arg args o h =
      Explains-cons arg args (parse_options inet_pton relay_port token_size args o)
        (printed program_name (parse_options inet_pton relay_port token_size args o)) h

  -- Whatever the arguments are, what is printed by the end of the loop over them is nothing, if
  -- `main` goes on; the line on the usage, an empty line and more, if the help is asked for; and
  -- otherwise a message and the line on the usage, where the message is that a parameter is missing
  -- for the last argument, which is an option with a parameter; that the parameter behind such an
  -- option is invalid, which is refused with the options as they were set so far; or that an option
  -- is unknown, which is one among the arguments that is not known.
  pub parse_options-Explains :
      (args : List (List ℕ)) (o : Options)
      → Explains args
          (parse_options inet_pton relay_port token_size args o)
          (printed program_name (parse_options inet_pton relay_port token_size args o))
  unfolding parse_options printed complain
  parse_options-Explains [] o = refl
  parse_options-Explains (arg ∷ []) o = go (kind arg) refl
    where
      go : (k : Kind) → kind arg ≡ k → IsExplained (arg ∷ []) o
      go operand found = rw (parse_options, found) refl
      go double_dash found = rw (parse_options, found) refl
      go help found = rw (parse_options, found) (full_help-Explains (arg ∷ []))
      go unmetered found = rw (parse_options, found) refl
      go unknown_option found =
          rw (parse_options, found)
            (is_unknown [] arg [] refl found (says (codes "Unknown option: " ++ arg)))
      go (valued k) found =
          rw (parse_options, found)
            (is_missing [] arg k refl found (says (codes "Missing parameter for " ++ arg)))
  parse_options-Explains (arg ∷ value ∷ rest) o =
      go (kind arg) refl
        (parse_options-Explains (value ∷ rest) (record o { device_unmetered = true }))
        (λ o1. parse_options-Explains rest o1)
    where
      go :
          (k : Kind)
          → kind arg ≡ k
          → IsExplained (value ∷ rest) (record o { device_unmetered = true })
          → ((o1 : Options) → IsExplained rest o1)
          → IsExplained (arg ∷ value ∷ rest) o
      go operand found one two = rw (parse_options, found) refl
      go double_dash found one two = rw (parse_options, found) refl
      go help found one two = rw (parse_options, found) (full_help-Explains (arg ∷ value ∷ rest))
      go unmetered found one two =
          rw (parse_options, found)
            (IsExplained-cons arg (value ∷ rest) (record o { device_unmetered = true }) one)
      go unknown_option found one two =
          rw (parse_options, found)
            (is_unknown [] arg (value ∷ rest) refl found (says (codes "Unknown option: " ++ arg)))
      go (valued k) found one two =
          elim (Option-cases (set_option inet_pton relay_port token_size k value o)) [
            | inl bad ↦
                rw (parse_options, found, bad)
                  (is_invalid [] arg value rest k o refl found bad
                    (says (codes "Invalid parameter for " ++ (arg ++ (codes ": " ++ value)))))
            | inr (o1, set_to) ↦
                rw (parse_options, found, set_to)
                  (Explains-cons arg (value ∷ rest)
                    (parse_options inet_pton relay_port token_size rest o1)
                    (printed program_name (parse_options inet_pton relay_port token_size rest o1))
                    (IsExplained-cons value rest o1 (two o1)))
          ]
