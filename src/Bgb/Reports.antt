-- ===== src/Bgb/Reports.antt =====
-- source/bgblink.c: a history of timestamps, and what the adapter's clock hears of it.
use mathlib.Core.List.{append_assoc, append-nil}
use libmobile_bgb.Prelude.{
  ℕ, ◌+◌, ◌-◌, ◌%◌, ◌^◌, ◌<◌, ◌≡◌, ◌≢◌, refl, ◌⊎◌, inl, inr, Bool, true, false, ◌&&◌, ◌||◌, some,
  List, [], ◌∷◌, ◌++◌, ◌∙◌, arith, ◌==◌, leb, ==_iff, Bool-cases, if◌then◌else◌,
}
use libmobile_bgb.Bgb.Link.{Bgb, report_timestamp}
use libmobile_bgb.Bgb.Clock.{IsBehind, report_timestamp_stale, report_timestamp_fresh}

-- The clock calls of `bgb_loop` for packets with these timestamps, one after the other.
unfoldable pub report_all : {W : Type 0} → Bgb W → List ℕ → W → Bgb W × W
report_all s [] w = (s, w)
report_all s (t ∷ ts) w = let (s', w') = report_timestamp s t w in report_all s' ts w'

-- A timestamp that is to be passed over, by arithmetic on the 31-bit clock.
abbrev is_stale : ℕ → ℕ → Bool
is_stale last cur =
    cur == last
    || (leb 1 ((last + 2 ^ 32 - cur) % 2 ^ 31) && leb ((last + 2 ^ 32 - cur) % 2 ^ 31) 0x100)

-- The timestamps that are reported, and the last one that counts.
unfoldable pub reports : ℕ → List ℕ → List ℕ
reports last [] = []
reports last (t ∷ ts) =
    let passed = reports last ts in
    let taken = t ∷ reports t ts in if is_stale last t then passed else taken

unfoldable pub latest : ℕ → List ℕ → ℕ
latest last [] = last
latest last (t ∷ ts) = latest t ts

unfoldable pub deliver {ℓ} : {W : Type ℓ} → (ℕ → W → W) → List ℕ → W → W
deliver callback [] w = w
deliver callback (t ∷ ts) w = deliver callback ts (callback t w)

abbrev pub AreTimestamps : List ℕ → Type 0
AreTimestamps [] = Unit
AreTimestamps (t ∷ ts) = (t < 2 ^ 32) × AreTimestamps ts

-- Each timestamp differs from the one before it, and does not lie shortly before it.
abbrev Advances : ℕ → List ℕ → Type 0
Advances last [] = Unit
Advances last (t ∷ ts) = (t ≢ last) × (¬ IsBehind last t) × Advances t ts

is_stale-true :
    (last cur : ℕ)
    → last < 2 ^ 32
    → cur < 2 ^ 32
    → is_stale last cur ≡ true
    → (cur ≡ last) ⊎ IsBehind last cur
is_stale-true last cur l c h = elim (Bool-cases (cur == last)) [
  | inl e ↦ inl ((==_iff cur last).0 e)
  | inr n ↦ inr ((last + 2 ^ 32 - cur) % 2 ^ 31, ground arith, ground arith, omega arith)
]

is_stale_ne : (last cur : ℕ) → is_stale last cur ≡ false → cur ≢ last
is_stale_ne last cur h e = ground arith

is_stale_ahead :
    (last cur : ℕ) → last < 2 ^ 32 → cur < 2 ^ 32 → is_stale last cur ≡ false → ¬ IsBehind last cur
is_stale_ahead last cur l c h (d, low, high, e) =
    let lag : (last + 2 ^ 32 - cur) % 2 ^ 31 ≡ d = omega arith in ground arith

reports-Advances :
    (last : ℕ) (ts : List ℕ) → last < 2 ^ 32 → AreTimestamps ts → Advances last (reports last ts)
unfolding reports
reports-Advances last [] l h = tt
reports-Advances last (t ∷ ts) l (c, h) = elim (Bool-cases (is_stale last t)) [
  | inl e ↦ rw e (reports-Advances last ts l h)
  | inr e ↦ rw e (is_stale_ne last t e, is_stale_ahead last t l c e, reports-Advances t ts c h)
]

-- Where the timestamp callback is installed and a first timestamp was reported: of a history of
-- timestamps, all of 32 bits, the link reports exactly `reports`, in order, and remembers the last
-- of them.
pub report_all_lem :
    {W : Type 0} (s : Bgb W) (callback : ℕ → W → W) (ts : List ℕ) (w : W)
    → s.callback_timestamp ≡ some callback
    → s.timestamp_init ≡ true
    → s.timestamp_last < 2 ^ 32
    → AreTimestamps ts
    → report_all s ts w ≡ (
      record s { timestamp_last = latest s.timestamp_last (reports s.timestamp_last ts) },
      deliver callback (reports s.timestamp_last ts) w,
    )
unfolding report_all reports latest deliver
report_all_lem s callback [] w installed old l h = refl
report_all_lem s callback (t ∷ ts) w installed old l (c, h) =
    elim (Bool-cases (is_stale s.timestamp_last t)) [
      | inl e ↦
          rw (e, report_timestamp_stale s callback installed t w c old l (is_stale-true _ t l c e))
            (report_all_lem s callback ts w installed old l h)
      | inr e ↦
          rw
            (
              e,
              report_timestamp_fresh s callback installed t w c old l (is_stale_ne _ t e)
                  (is_stale_ahead _ t l c e),
            )
            (report_all_lem (record s { timestamp_last = t }) callback ts (callback t w) installed
              old c h)
    ]

-- A callback that keeps a log of what it hears.
abbrev pub logger : ℕ → List ℕ → List ℕ
logger t log = log ++ (t ∷ [])

deliver-logger : (ts log : List ℕ) → deliver logger ts log ≡ log ++ ts
unfolding deliver
deliver-logger [] log = rw append-nil
deliver-logger (t ∷ ts) log = deliver-logger ts (log ++ (t ∷ [])) ∙ append_assoc log (t ∷ []) ts

-- Where the callback that logs what it hears is installed and a first timestamp was reported: of
-- any history of timestamps, all of 32 bits, no timestamp that it hears is the one before it, and
-- none lies from 1 to 0x100 ticks before it (on a clock of 31 bits).
report_all-Advances :
    (s : Bgb (List ℕ)) (ts : List ℕ)
    → s.callback_timestamp ≡ some logger
    → s.timestamp_init ≡ true
    → s.timestamp_last < 2 ^ 32
    → AreTimestamps ts
    → Advances s.timestamp_last (report_all s ts []).1
report_all-Advances s ts installed old l h =
    rw (report_all_lem s logger ts [] installed old l h, deliver-logger)
      (reports-Advances s.timestamp_last ts l h)
