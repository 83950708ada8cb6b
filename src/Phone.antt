-- ===== src/Phone.antt =====
-- Phone numbers in one form (backend/src/lib/phone.ts). Text is its code units.
pub mod Canonical
use kintsugi.Prelude.{ℕ, Bool, true, false, not, ◌&&◌, ◌||◌, [], ◌∷◌, ltb, leb, ◌==◌, if◌then◌else◌}
use kintsugi.Prelude.Text.{Text, trim, is_space, length}

pub data Fault : Type 0 where
  empty no_country_code not_digits national too_short too_long : Fault

pub data Parsed : Type 0 where
  valid : Text → Parsed
  invalid : Fault → Parsed

-- `-`, `(`, `)`, `.` and white space.
abbrev pub is_separator : ℕ → Bool
is_separator c = is_space c || (c == 45 || (c == 40 || (c == 41 || c == 46)))

unfoldable pub clean : Text → Text
clean [] = []
clean (c ∷ s) = let rest = clean s in if is_separator c then rest else c ∷ rest

-- A leading `00` is written `+`.
abbrev pub with_plus : Text → Text
with_plus [] = []
with_plus (a ∷ []) = a ∷ []
with_plus (a ∷ b ∷ s) = if a == 48 && b == 48 then 43 ∷ s else a ∷ b ∷ s

abbrev pub is_digit : ℕ → Bool
is_digit c = leb 48 c && leb c 57

unfoldable pub all_digits : Text → Bool
all_digits [] = true
all_digits (c ∷ s) = is_digit c && all_digits s

abbrev pub max_digits : ℕ
max_digits = 15

abbrev pub min_digits : ℕ
min_digits = 7

unfoldable pub check_length : Text → Parsed
check_length digits =
    if ltb (length digits) min_digits
    then invalid too_short
    else (if ltb max_digits (length digits) then invalid too_long else valid (43 ∷ digits))

unfoldable pub check_digits : Text → Parsed
unfolding check_length
check_digits [] = invalid not_digits
check_digits (c ∷ s) =
    if all_digits (c ∷ s)
    then (if c == 48 then invalid national else check_length (c ∷ s))
    else invalid not_digits

unfoldable pub check_plus : Text → Parsed
unfolding check_digits
check_plus [] = invalid no_country_code
check_plus (c ∷ s) = if c == 43 then check_digits s else invalid no_country_code

unfoldable pub check_empty : Text → Parsed
unfolding clean check_plus
check_empty [] = invalid empty
check_empty (c ∷ s) = check_plus (with_plus (clean (c ∷ s)))

unfoldable pub to_e164 : Text → Parsed
unfolding check_empty
to_e164 raw = check_empty (trim raw)

abbrev pub is_e164 : Text → Bool
is_e164 raw = elim (to_e164 raw) [ valid _ ↦ true | invalid _ ↦ false ]
