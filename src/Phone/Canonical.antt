-- ===== src/Phone/Canonical.antt =====
-- The form that `toE164` gives is its own form (backend/src/lib/phone.ts).
use kintsugi.Prelude.{◌≡◌, refl, sym, ◌∙◌, ap, inl, inr, true, [], ◌∷◌, ◌==◌, arith, Bool-cases}
use kintsugi.Prelude.Text.Trim.{is_plain, trim-is_plain}
use kintsugi.Prelude.Text.{Text, trim, is_space}
use kintsugi.Phone.{
  valid, clean, with_plus, all_digits, check_length, check_digits, check_plus, check_empty, to_e164,
}

check_digits-valid : (s p : Text) → check_digits s ≡ valid p → (p ≡ 43 ∷ s) × (all_digits s ≡ true)
unfolding check_digits check_length
check_digits-valid [] p h = absurd (ground (arith, h))
check_digits-valid (c ∷ s) p h = (ground (arith, h), ground (arith, h))

check_plus-valid :
    (s p : Text)
    → check_plus s ≡ valid p
    → (digits : Text) × (s ≡ 43 ∷ digits) × (p ≡ 43 ∷ digits) × (all_digits digits ≡ true)
unfolding check_plus
check_plus-valid [] p h = absurd (ground (arith, h))
check_plus-valid (c ∷ s) p h = elim (Bool-cases (c == 43)) [
  | inl here ↦
      let digits = check_digits-valid s p (ground (arith, h, here)) in
      (s, ground (arith, here), digits.0, digits.1)
  | inr there ↦ absurd (ground (arith, h, there))
]

digits-is_plain : (s : Text) → all_digits s ≡ true → is_plain s ≡ true
unfolding all_digits is_plain is_space
digits-is_plain [] h = refl
digits-is_plain (c ∷ s) h = ground (arith, h, digits-is_plain s)

clean-digits : (s : Text) → all_digits s ≡ true → clean s ≡ s
unfolding all_digits clean is_space
clean-digits [] h = refl
clean-digits (c ∷ s) h = ground (arith, h, clean-digits s)

number-clean : (s : Text) → all_digits s ≡ true → with_plus (clean (43 ∷ s)) ≡ 43 ∷ s
unfolding clean is_space
number-clean [] h = refl
number-clean (c ∷ s) h = ground (arith, clean-digits (c ∷ s) h)

number-trim : (s : Text) → all_digits s ≡ true → trim (43 ∷ s) ≡ 43 ∷ s
unfolding is_plain is_space
number-trim s h = trim-is_plain (43 ∷ s) (ground (arith, digits-is_plain s h))

check_empty-number : (s : Text) → all_digits s ≡ true → check_empty (43 ∷ s) ≡ check_plus (43 ∷ s)
unfolding check_empty
check_empty-number s h = ap check_plus (number-clean s h)

check_empty-valid : (s p : Text) → check_empty s ≡ valid p → (t : Text) × (check_plus t ≡ valid p)
unfolding check_empty
check_empty-valid [] p h = absurd (ground (arith, h))
check_empty-valid (c ∷ s) p h = (with_plus (clean (c ∷ s)), h)

-- A number that `toE164` has accepted is in the one form that it gives: read again, it is accepted
-- and comes out as it is, however the user had typed it.
pub to_e164_twice : (raw p : Text) → to_e164 raw ≡ valid p → to_e164 p ≡ valid p
unfolding to_e164
to_e164_twice raw p h =
    let (t, checked) = check_empty-valid (trim raw) p h in
    let (s, from, to, digits) = check_plus-valid t p checked in
    let again : check_plus (43 ∷ s) ≡ valid p = ap check_plus (sym from) ∙ checked in
    ap to_e164 to ∙ ap check_empty (number-trim s digits) ∙ check_empty-number s digits ∙ again
