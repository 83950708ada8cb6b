-- ===== src/Quiet/Window.antt =====
-- When quiet hours end (backend/src/lib/quietHours.ts).
use kintsugi.Prelude.{
  ℕ, ◌+◌, ◌-◌, ◌*◌, ◌%◌, ◌<◌, ◌≤◌, ◌≡◌, inl, inr, true, false, ◌||◌, Option, none, some, arith, [],
  ◌∷◌, List, Option-cases, Bool-cases,
}
use kintsugi.Prelude.Text.{Text, text, trim}
use kintsugi.Quiet.{
  quiet_hours_now, configured, minutes_now, or_default, is_blank, is_off, is_in_window, remaining,
  clock, read_clock, parse_hh_mm, parse_window, split,
}

-- The clock's minute after so many more.
abbrev later : ℕ → ℕ → ℕ
later now k = (now + k) % 1440

window-before :
    (from to now k : ℕ)
    → from < 1440
    → to < 1440
    → now < 1440
    → is_in_window from to now ≡ true
    → k < remaining from to now
    → is_in_window from to (later now k) ≡ true
window-before from to now k hf ht hn inside before = ground (arith, hf, ht, hn, inside, before)

window-after :
    (from to now : ℕ)
    → from < 1440
    → to < 1440
    → now < 1440
    → is_in_window from to now ≡ true
    → is_in_window from to (later now (remaining from to now)) ≡ false
window-after from to now hf ht hn inside = ground (arith, hf, ht, hn, inside)

clock-bound : (h m n : ℕ) → clock h m ≡ some n → n < 1440
clock-bound h m n e = ground (arith, e)

read_clock-bound : (s : Text) (n : ℕ) → read_clock s ≡ some n → n < 1440
unfolding read_clock
read_clock-bound [] n h = absurd (ground (arith, h))
read_clock-bound (a ∷ []) n h = absurd (ground (arith, h))
read_clock-bound (a ∷ b ∷ []) n h = absurd (ground (arith, h))
read_clock-bound (a ∷ b ∷ c ∷ []) n h = absurd (ground (arith, h))
read_clock-bound (a ∷ b ∷ c ∷ d ∷ []) n h =
    clock-bound (a - 48) ((c - 48) * 10 + (d - 48)) n (ground (arith, h))
read_clock-bound (a ∷ b ∷ c ∷ d ∷ e ∷ []) n h =
    clock-bound ((a - 48) * 10 + (b - 48)) ((d - 48) * 10 + (e - 48)) n (ground (arith, h))
read_clock-bound (a ∷ b ∷ c ∷ d ∷ e ∷ f ∷ s) n h = absurd (ground (arith, h))

parse_window-bound :
    (parts : List Text) (from to : ℕ)
    → parse_window parts ≡ some (from, to)
    → (from < 1440) × (to < 1440)
unfolding parse_window parse_hh_mm
parse_window-bound [] from to h = absurd (ground (arith, h))
parse_window-bound (a ∷ []) from to h = absurd (ground (arith, h))
parse_window-bound (a ∷ b ∷ parts) from to h = elim (Option-cases (parse_hh_mm a)) [
  | inl bad ↦ absurd (ground (arith, h, bad))
  | inr (f, ef) ↦ elim (Option-cases (parse_hh_mm b)) [
    | inl bad ↦ absurd (ground (arith, h, ef, bad))
    | inr (t, et) ↦
        let first = read_clock-bound (trim a) f ef in
        let second = read_clock-bound (trim b) t et in
        (ground (arith, h, ef, et, first), ground (arith, h, ef, et, second))
  ]
]

configured-bound :
    (raw : Option Text) (from to : ℕ)
    → configured raw ≡ some (from, to)
    → (from < 1440) × (to < 1440)
unfolding configured
configured-bound raw from to h =
    let s = trim (or_default raw (text "22:00-08:00")) in
    elim (Bool-cases (is_blank s || is_off s)) [
      | inl off ↦ absurd (ground (arith, h, off))
      | inr on ↦ parse_window-bound (split s) from to (ground (arith, h, on))
    ]

module _ (raw tz : Option Text) (minutes_in : Text → ℕ → Option ℕ) (utc : ℕ → ℕ) (at from to : ℕ)
    (set : configured raw ≡ some (from, to)) where
  in_window_then :
      (quiet_hours_now raw tz minutes_in utc at).in_window
      ≡ is_in_window from to (minutes_now minutes_in utc tz at)
  unfolding quiet_hours_now
  in_window_then = elim (Bool-cases (is_in_window from to (minutes_now minutes_in utc tz at))) [
    | inl inside ↦ ground (arith, set, inside)
    | inr outside ↦ ground (arith, set, outside)
  ]

  loud_then :
      is_in_window from to (minutes_now minutes_in utc tz at) ≡ false
      → (quiet_hours_now raw tz minutes_in utc at).opens_at ≡ none
  unfolding quiet_hours_now
  loud_then outside = ground (arith, set, outside)

  quiet_then :
      is_in_window from to (minutes_now minutes_in utc tz at) ≡ true
      → (quiet_hours_now raw tz minutes_in utc at).opens_at
        ≡ some (at + remaining from to (minutes_now minutes_in utc tz at) * 60000)
  unfolding quiet_hours_now
  quiet_then inside = ground (arith, set, inside)

-- A text that is held back is held until the first minute outside quiet hours, as long as the clock
-- of the zone does not change in between: where the answer is that the window opens at `t`, the same
-- question at `t` is answered that it is outside the window, and at every whole minute before `t`
-- that it is inside. It holds for every setting that parses, a window past midnight included. The
-- clock shows a minute of the day, and at each whole minute up to `t` the one that follows; a change
-- to or from summer time in between is left out.
pub quiet_hours_now-opens :
    (raw tz : Option Text) (minutes_in : Text → ℕ → Option ℕ) (utc : ℕ → ℕ) (at from to t j : ℕ)
    → configured raw ≡ some (from, to)
    → minutes_now minutes_in utc tz at < 1440
    → (quiet_hours_now raw tz minutes_in utc at).opens_at ≡ some t
    → ((k : ℕ)
        → at + k * 60000 ≤ t
        → minutes_now minutes_in utc tz (at + k * 60000)
          ≡ (minutes_now minutes_in utc tz at + k) % 1440)
    → at + j * 60000 < t
    → ((quiet_hours_now raw tz minutes_in utc t).in_window ≡ false)
      × ((quiet_hours_now raw tz minutes_in utc (at + j * 60000)).in_window ≡ true)
quiet_hours_now-opens raw tz minutes_in utc at from to t j set clock_ok opens steady before =
    let (hf, ht) = configured-bound raw from to set in
    let now = minutes_now minutes_in utc tz at in
    elim (Bool-cases (is_in_window from to now)) [
      | inr outside ↦
          absurd (ground (arith, opens, loud_then raw tz minutes_in utc at from to set outside))
      | inl inside ↦
          let n = remaining from to now in
          let when : t ≡ at + n * 60000 =
            ground (arith, opens, quiet_then raw tz minutes_in utc at from to set inside) in
          let soon : j < n = omega (arith, before, when) in
          let then_ : minutes_now minutes_in utc tz t ≡ (now + n) % 1440 =
            rw when (steady n (omega (arith, when))) in
          let meanwhile = steady j (omega (arith, before)) in
          (
            ground (
              arith,
              in_window_then raw tz minutes_in utc t from to set,
              then_,
              window-after from to now hf ht clock_ok inside,
            ),
            ground (
              arith,
              in_window_then raw tz minutes_in utc (at + j * 60000) from to set,
              meanwhile,
              window-before from to now j hf ht clock_ok inside soon,
            ),
          )
    ]
