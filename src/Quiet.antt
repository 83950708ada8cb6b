-- ===== src/Quiet.antt =====
-- Quiet hours for text messages (backend/src/lib/quietHours.ts). The time of day in a time zone,
-- which the source takes from `Intl`, is an argument, and so are the two settings.
pub mod Window
use kintsugi.Prelude.{
  ℕ, ◌+◌, ◌-◌, ◌*◌, ◌%◌, Bool, true, false, not, ◌&&◌, ◌||◌, Option, none, some, List, [], ◌∷◌, ltb,
  leb, ◌==◌, if◌then◌else◌,
}
use kintsugi.Prelude.Text.{Text, text, trim}

abbrev pub is_digit : ℕ → Bool
is_digit c = leb 48 c && leb c 57

abbrev pub clock : ℕ → ℕ → Option ℕ
clock h m = if leb h 23 && leb m 59 then some (h * 60 + m) else none

-- `/^(\d{1,2}):(\d{2})$/`
unfoldable pub read_clock : Text → Option ℕ
read_clock (a ∷ b ∷ c ∷ d ∷ []) =
    if is_digit a && (b == 58 && (is_digit c && is_digit d))
    then clock (a - 48) ((c - 48) * 10 + (d - 48))
    else none
read_clock (a ∷ b ∷ c ∷ d ∷ e ∷ []) =
    if is_digit a && (is_digit b && (c == 58 && (is_digit d && is_digit e)))
    then clock ((a - 48) * 10 + (b - 48)) ((d - 48) * 10 + (e - 48))
    else none
read_clock _ = none

unfoldable pub parse_hh_mm : Text → Option ℕ
unfolding read_clock
parse_hh_mm value = read_clock (trim value)

abbrev pub cons_part : ℕ → List Text → List Text
cons_part c [] = (c ∷ []) ∷ []
cons_part c (part ∷ parts) = (c ∷ part) ∷ parts

-- `split("-")`
unfoldable pub split : Text → List Text
split [] = [] ∷ []
split (c ∷ s) = let rest = split s in if c == 45 then [] ∷ rest else cons_part c rest

abbrev pub lower : ℕ → ℕ
lower c = if leb 65 c && leb c 90 then c + 32 else c

abbrev pub is_off : Text → Bool
is_off (a ∷ b ∷ c ∷ []) = lower a == 111 && (lower b == 102 && lower c == 102)
is_off _ = false

abbrev pub is_blank : Text → Bool
is_blank [] = true
is_blank (c ∷ s) = false

-- The first two parts, each with its time.
unfoldable pub parse_window : List Text → Option (ℕ × ℕ)
parse_window (from ∷ to ∷ parts) = elim (parse_hh_mm from) [
  | none ↦ none
  | some f ↦ elim (parse_hh_mm to) [ none ↦ none | some t ↦ some (f, t) ]
]
parse_window _ = none

abbrev pub minutes_per_day : ℕ
minutes_per_day = 1440

-- FROM is in the window and TO is not; a window may pass midnight.
abbrev pub is_in_window : ℕ → ℕ → ℕ → Bool
is_in_window from to now =
    if leb from to then leb from now && ltb now to else leb from now || ltb now to

abbrev pub remaining : ℕ → ℕ → ℕ → ℕ
remaining from to now =
    if leb from to
    then to - now
    else (if leb from now then minutes_per_day - now + to else to - now)

pub record QuietHours : Type 0 where
  pub in_window : Bool
  pub opens_at : Option ℕ

abbrev pub loud : QuietHours
loud = record { in_window = false; opens_at = none }

abbrev pub quiet_at : ℕ × ℕ → ℕ → ℕ → QuietHours
quiet_at (from, to) now at =
    if is_in_window from to now
    then record { in_window = true; opens_at = some (at + remaining from to now * 60000) }
    else loud

abbrev pub or_default : Option Text → Text → Text
or_default none d = d
or_default (some t) d = t

-- The time of day in the zone, or in UTC where the zone is not known.
unfoldable pub minutes_now : (Text → ℕ → Option ℕ) → (ℕ → ℕ) → Option Text → ℕ → ℕ
minutes_now minutes_in utc tz at = elim (is_blank (trim (or_default tz (text "UTC")))) [
  | true ↦ utc at
  | false ↦ elim (minutes_in (trim (or_default tz (text "UTC"))) at) [ none ↦ utc at | some m ↦ m ]
]

unfoldable pub configured : Option Text → Option (ℕ × ℕ)
unfolding parse_window split
configured raw =
    let s = trim (or_default raw (text "22:00-08:00")) in
    if is_blank s || is_off s then none else parse_window (split s)

unfoldable pub quiet_hours_now :
    Option Text → Option Text → (Text → ℕ → Option ℕ) → (ℕ → ℕ) → ℕ → QuietHours
quiet_hours_now raw tz minutes_in utc at = elim (configured raw) [
  | none ↦ loud
  | some window ↦ quiet_at window (minutes_now minutes_in utc tz at) at
]
