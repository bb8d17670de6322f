-- ===== src/Main/Tests.antt =====
-- The theorems on the main program at concrete clocks, texts and files.
use mathlib.Core.Option
use libmobile_bgb.Prelude.{
  Option, Option-cases, length, ◌≤◌, ltb, if◌then◌else◌, List, ℕ, ◌≡◌, refl, true, false, some,
  none, [], ◌∷◌, ◌↔◌, arith, inl, inr,
}
use libmobile_bgb.Bgb.Link.{Bgb}
use libmobile_bgb.Bgb.Reports.{report_all}
use libmobile_bgb.Main.User.{MobileUser, impl_time_latch, impl_time_check_ms, bgb_loop_timestamp}
use libmobile_bgb.Main.Clock.{advance, time_check-advance-latch, time_check-never}
use libmobile_bgb.Main.Reset.{report_all_smooth}
use libmobile_bgb.Main.Hex.{main_parse_hex, AreHex, parse_hex-AreHex}
use libmobile_bgb.Main.Config.{pad_config}
use libmobile_bgb.Main.Memory.{
  Access, reads, writes, file_answers, memory_answers, bytes_of, accesses-refine,
}
use libmobile_bgb.Main.Title.{update_title, title_text, update_title-update_number}
use libmobile_bgb.Main.Number.{strncpy, impl_update_number, store_number, c_string}

-- A user whose clock is about to wrap.
abbrev user : MobileUser ℕ
user = record {
  adapter = 0;
  socket = record { sockets = none ∷ none ∷ [] };
  action = 0;
  config = [];
  reset = false;
  bgb_clock = 0xFFFFFF00;
  bgb_clock_init = true;
  bgb_clock_latch = 0 ∷ 0 ∷ [];
  number_user = 0 ∷ 0 ∷ 0 ∷ [];
  number_peer = 0 ∷ 0 ∷ 0 ∷ [];
}

abbrev latched : MobileUser ℕ
latched = record user { bgb_clock_latch = 0 ∷ 0xFFFFFF00 ∷ [] }

time_check-advance-latch_example : impl_time_check_ms 1 1000 (advance 2097152 latched) ≡ some true
time_check-advance-latch_example =
    time_check-advance-latch user 1 1000 2097152 latched (omega arith) (omega arith) (omega arith)
      (omega arith) (unfold impl_time_latch in refl)

time_check-never_example : impl_time_check_ms 1 1024000 latched ≡ some false
time_check-never_example =
    time_check-never latched 1 1024000 (omega arith) (omega arith) (omega arith)

abbrev link : Bgb (MobileUser ℕ)
link = record {
  socket = 3;
  byte = 0xd2;
  callback_transfer = none;
  callback_timestamp = some bgb_loop_timestamp;
  timestamp_last = 0xFFFFFF00;
  timestamp_init = true;
}

-- The clock goes on across the wrap, and falls back a little.
report_all_smooth_example : (report_all link (0x100 ∷ 0x80 ∷ []) user).1.reset ≡ false
report_all_smooth_example =
    report_all_smooth link (0x100 ∷ 0x80 ∷ []) user refl refl refl (omega arith) (omega arith) (
      inr (
        omega arith,
        (λ (d, low, high, e). omega arith),
        (0x200, omega arith, omega arith),
        inl (inr (0x80, omega arith, omega arith, omega arith), tt),
      ))

-- "fg" is no byte.
parse_hex-AreHex_example :
    ((main_parse_hex (0 ∷ []) (102 ∷ 103 ∷ []) 1).0 ≡ true) ↔ AreHex 2 (102 ∷ 103 ∷ [])
parse_hex-AreHex_example = parse_hex-AreHex (0 ∷ []) (102 ∷ 103 ∷ []) 1

-- A call, with arrays of three characters.
abbrev called : MobileUser ℕ
called = record user { number_peer = b'7' ∷ b'8' ∷ 0 ∷ [] }

-- The conversion of ASCII: other bytes are not valid.
abbrev ascii : List ℕ → Option (List ℕ)
ascii [] = some []
ascii (c ∷ cs) = if ltb c 128 then Option.map (◌∷◌ c) (ascii cs) else none

ascii_shorter : (text wide : List ℕ) → ascii text ≡ some wide → length wide ≤ length text
ascii_shorter [] wide e = ground arith
ascii_shorter (c ∷ cs) wide e = elim (Option-cases (ascii cs)) [
  | inl bad ↦ absurd (ground arith)
  | inr (later, good) ↦
      let short = ascii_shorter cs later good in
      let whole : c ∷ later ≡ wide = ground arith in rw (← whole) (omega arith)
]

update_title-update_number_example :
    update_title ascii called
    ≡ some (title_text (b'7' ∷ b'8' ∷ []) (b'7' ∷ b'8' ∷ []) (c_string user.number_user) [])
unfolding impl_update_number store_number strncpy c_string
update_title-update_number_example =
    update_title-update_number ascii 2 (some (b'7' ∷ b'8' ∷ b'9' ∷ [])) user called
      (b'7' ∷ b'8' ∷ []) [] ascii_shorter (omega arith) (omega arith) refl (omega arith) refl refl
      refl

-- Two writes that overlap, of which the second is cut off, and reads.
abbrev accesses : List Access
accesses =
    reads 0 4 9 ∷ writes (7 ∷ 8 ∷ []) 1 9 ∷ writes (5 ∷ 6 ∷ []) 2 1 ∷ reads 0 4 9 ∷ reads 0 4 2 ∷ []

accesses-refine_example :
    file_answers accesses (pad_config 4 (9 ∷ [])) ≡ memory_answers accesses (bytes_of (9 ∷ []))
accesses-refine_example = accesses-refine 4 accesses (9 ∷ []) (omega arith)

memory_run :
    memory_answers accesses (bytes_of (9 ∷ []))
    ≡ (true, 9 ∷ 0 ∷ 0 ∷ 0 ∷ [])
      ∷ (true, [])
      ∷ (false, [])
      ∷ (true, 9 ∷ 7 ∷ 5 ∷ 0 ∷ [])
      ∷ (false, 9 ∷ 7 ∷ [])
      ∷ []
memory_run = refl
