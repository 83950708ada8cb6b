-- ===== src/Prelude/Text/Trim.antt =====
-- Text with no white space is left alone by `trim`.
use kintsugi.Prelude.Text.{Text, is_space, trim_start, trim}
use mathlib.Core.Path.{◌≡◌, refl, ◌∙◌, ap}
use mathlib.Core.Bool.{Bool, true, not, ◌&&◌}
use mathlib.Core.List.{[], ◌∷◌, reverse, reverse_aux}
use native.Mathlib.Omega.{arith}

unfoldable pub is_plain : Text → Bool
is_plain [] = true
is_plain (c ∷ s) = not (is_space c) && is_plain s

reverse_aux-is_plain :
    (s t : Text) → is_plain s ≡ true → is_plain t ≡ true → is_plain (reverse_aux s t) ≡ true
unfolding is_plain
reverse_aux-is_plain [] t hs ht = ht
reverse_aux-is_plain (c ∷ s) t hs ht =
    reverse_aux-is_plain s (c ∷ t) (ground (arith, hs)) (ground (arith, hs, ht))

reverse_aux-twice : (s t : Text) → reverse (reverse_aux s t) ≡ reverse_aux t s
reverse_aux-twice [] t = refl
reverse_aux-twice (c ∷ s) t = reverse_aux-twice s (c ∷ t)

trim_start-is_plain : (s : Text) → is_plain s ≡ true → trim_start s ≡ s
unfolding trim_start is_plain
trim_start-is_plain [] h = refl
trim_start-is_plain (c ∷ s) h = ground (arith, h)

pub trim-is_plain : (s : Text) → is_plain s ≡ true → trim s ≡ s
unfolding trim is_plain
trim-is_plain s h =
    ap (λ t. reverse (trim_start (reverse t))) (trim_start-is_plain s h)
    ∙ ap (λ t. reverse t) (trim_start-is_plain (reverse s) (reverse_aux-is_plain s [] h refl))
    ∙ reverse_aux-twice s []
