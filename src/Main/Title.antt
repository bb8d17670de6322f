-- ===== src/Main/Title.antt =====
-- source/main.c: `update_title`, the title of the terminal's window, as wide characters. The
-- conversion of a text by the locale (`%hs`) is a parameter: `none` where the text is not valid there.
use mathlib.Core.List.{append-nil}
use mathlib.Core.Option.{some-injective}
use mathlib.Core.Path.{subst}
use libmobile_bgb.Prelude.{
  ℕ, ◌+◌, ◌≤◌, ◌<◌, ◌≡◌, refl, sym, ap, ◌∙◌, Bool, false, not, Option, none, some, List, [], ◌∷◌,
  ◌++◌, arith, ltb, ◌==◌, length, take, length-take_le, length-append, if◌then◌else◌,
}
use libmobile_bgb.Text.{codes}
use libmobile_bgb.Main.User.{MobileUser}
use libmobile_bgb.Main.Number.{
  peer, impl_update_number, store_number, c_string, text_of, IsNumber, store_number_lem,
}

-- The number of characters that `title` has room for, with the null.
abbrev pub title_size : ℕ
title_size = 0x100

-- swprintf() behind what is in `title`. Where that does not fit, it returns -1, and what the array
-- holds is not specified: `none`.
abbrev swprintf : List ℕ → List ℕ → Option (List ℕ)
swprintf title piece =
    if ltb (length title + length piece) title_size then some (title ++ piece) else none

-- `number[0]` is not null.
abbrev is_set : List ℕ → Bool
is_set [] = false
is_set (c ∷ _) = not (c == 0)

infixl 5 ◌>>=◌
abbrev ◌>>=◌ : {A B : Type 0} → Option A → (A → Option B) → Option B
none >>= f = none
some a >>= f = f a

-- A text by `%hs`, with wide characters around it. Where it cannot be converted, swprintf() returns
-- -1 too.
abbrev swprintf_hs :
    (List ℕ → Option (List ℕ)) → List ℕ → List ℕ → List ℕ → List ℕ → Option (List ℕ)
swprintf_hs mbs title before text after = elim (mbs text) [
  | none ↦ none
  | some wide ↦ swprintf title (before ++ wide ++ after)
]

-- The wide characters of the title: `none` where they are not specified, since a call of swprintf()
-- failed.
unfoldable pub update_title :
    {A : Type 0} → (List ℕ → Option (List ℕ)) → MobileUser A → Option (List ℕ)
update_title mbs u = do
  title ← swprintf [] (codes "Mobile Adapter - ")
  title ←
      (if is_set u.number_peer
        then swprintf_hs mbs title (codes "Call: ") (c_string u.number_peer) []
        else swprintf title (codes "Disconnected"))
  if is_set u.number_user
      then swprintf_hs mbs title (codes " (Your number: ") (c_string u.number_user) (codes ")")
      else some title

-- What the title says of a peer and of a user, by their numbers and the wide characters of these.
abbrev call_text : List ℕ → List ℕ → List ℕ
call_text [] wide = codes "Disconnected"
call_text (c ∷ cs) wide = codes "Call: " ++ wide

abbrev user_text : List ℕ → List ℕ → List ℕ
user_text [] wide = []
user_text (c ∷ cs) wide = codes " (Your number: " ++ wide ++ codes ")"

abbrev pub title_text : List ℕ → List ℕ → List ℕ → List ℕ → List ℕ
title_text peer_number peer_wide user_number user_wide =
    (codes "Mobile Adapter - " ++ call_text peer_number peer_wide)
    ++ user_text user_number user_wide

swprintf_fits :
    (title piece : List ℕ)
    → length title + length piece < title_size
    → swprintf title piece ≡ some (title ++ piece)
swprintf_fits title piece h = ground arith

module _ (mbs : List ℕ → Option (List ℕ)) where
  -- The peer's part, and the user's.
  print_call :
      (head number p wide : List ℕ)
      → c_string number ≡ p
      → mbs p ≡ some wide
      → length head + length wide + 12 < title_size
      → (if is_set number
          then swprintf_hs mbs head (codes "Call: ") (c_string number) []
          else swprintf head (codes "Disconnected"))
        ≡ some (head ++ call_text p wide)
  unfolding c_string
  print_call head [] [] wide e m h = swprintf_fits head _ (omega arith)
  print_call head [] (d ∷ p) wide e m h = absurd (ground arith)
  print_call head (c ∷ number) [] wide e m h =
      ground (arith, swprintf_fits head (codes "Disconnected"))
  print_call head (c ∷ number) (d ∷ p) wide e m h =
      ground (arith, append-nil wide, swprintf_fits head (codes "Call: " ++ wide))

  print_user :
      (head number q wide : List ℕ)
      → c_string number ≡ q
      → mbs q ≡ some wide
      → length head + length wide + 16 < title_size
      → (if is_set number
          then swprintf_hs mbs head (codes " (Your number: ") (c_string number) (codes ")")
          else some head)
        ≡ some (head ++ user_text q wide)
  unfolding c_string
  print_user head [] [] wide e m h = ap some (sym (append-nil head))
  print_user head [] (d ∷ q) wide e m h = absurd (ground arith)
  print_user head (c ∷ number) [] wide e m h = ground (arith, append-nil head)
  print_user head (c ∷ number) (d ∷ q) wide e m h = ground (
    arith,
    swprintf_fits head (user_text (d ∷ q) wide),
    length-append {0} {A = ℕ} wide (codes ")"),
  )

  length-call_text : (p wide : List ℕ) → length (call_text p wide) ≤ 12 + length wide
  length-call_text [] wide = omega arith
  length-call_text (c ∷ p) wide = omega arith

  module _ {A : Type 0} where
    -- Numbers of at most 100 wide characters leave room for all of it.
    update_title_lem :
        (u : MobileUser A) (p pw q qw : List ℕ)
        → c_string u.number_peer ≡ p
        → c_string u.number_user ≡ q
        → mbs p ≡ some pw
        → mbs q ≡ some qw
        → length pw ≤ 100
        → length qw ≤ 100
        → update_title mbs u ≡ some (title_text p pw q qw)
    unfolding update_title
    update_title_lem u p pw q qw e e' m m' h h' =
        let head = codes "Mobile Adapter - " in
        let calls = print_call head u.number_peer p pw e m (omega arith) in
        let users =
          print_user (head ++ call_text p pw) u.number_user q qw e' m'
            (omega (arith, length-call_text p pw)) in
        ap
          (λ t. t >>= λ title.
            if is_set u.number_user
            then swprintf_hs mbs title (codes " (Your number: ") (c_string u.number_user)
                (codes ")")
            else some title)
          calls
        ∙ users

    -- Where a text that the locale can convert has no more wide characters than bytes, in arrays of
    -- `max + 1` characters, for `max` up to 100: after `impl_update_number` has stored a peer's
    -- number (a text without nulls) or none, if that, cut to `max` characters, and the user's number
    -- can be converted, then `update_title` writes the whole title, which shows the former, or that
    -- there is none, and the latter.
    pub update_title-update_number :
        (max : ℕ) (number : Option (List ℕ)) (u v : MobileUser A) (pw qw : List ℕ)
        → ((text wide : List ℕ) → mbs text ≡ some wide → length wide ≤ length text)
        → max ≤ 100
        → IsNumber number
        → length u.number_peer ≡ max + 1
        → length (c_string u.number_user) ≤ max
        → mbs (take max (text_of number)) ≡ some pw
        → mbs (c_string u.number_user) ≡ some qw
        → impl_update_number max peer number u ≡ some v
        → update_title mbs v
          ≡ some (title_text (take max (text_of number)) pw (c_string u.number_user) qw)
    unfolding impl_update_number
    update_title-update_number max number u v pw qw shorter small text room short m m' e =
        let stored = store_number_lem max number u.number_peer text room in
        let w : MobileUser A = record u { number_peer = store_number max number u.number_peer } in
        let cut = length-take_le max (text_of number) in
        let peer_short = shorter (take max (text_of number)) pw m in
        let user_short = shorter (c_string u.number_user) qw m' in
        subst
          (λ t.
            update_title mbs t
            ≡ some (title_text (take max (text_of number)) pw (c_string u.number_user) qw))
          (some-injective w v e)
          (update_title_lem w (take max (text_of number)) pw (c_string u.number_user) qw stored.0
            refl m m' (omega arith) (omega arith))
