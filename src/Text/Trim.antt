-- ===== src/Text/Trim.antt =====
-- `trim_space` on texts of printable characters.
use mathlib.Core.List.{reverse, reverse-cons, reverse-reverse}
use gitrdone.Common.{ℕ, zero, ◌≡◌, refl, Bool, true, [], ◌∷◌, all, all-append, arith}
use gitrdone.Text.{Bytes, within, space_width, space_width_back, trim_from, trim_space}

-- printable ASCII, the space excluded
abbrev pub is_graphic : ℕ → Bool
is_graphic = within 33 126

space_width-graphic : (c : ℕ) (s : Bytes) → is_graphic c ≡ true → space_width (c ∷ s) ≡ 0
unfolding space_width
space_width-graphic c [] h = ground arith
space_width-graphic c (a ∷ []) h = ground arith
space_width-graphic c (a ∷ b ∷ s) h = ground arith

space_width_back-graphic : (c : ℕ) (s : Bytes) → is_graphic c ≡ true → space_width_back (c ∷ s) ≡ 0
unfolding space_width_back
space_width_back-graphic c [] h = ground arith
space_width_back-graphic c (a ∷ []) h = ground arith
space_width_back-graphic c (a ∷ b ∷ s) h = ground arith

pub all-reverse : (p : ℕ → Bool) (s : Bytes) → all p s ≡ true → all p (reverse s) ≡ true
all-reverse p [] h = refl
all-reverse p (c ∷ s) h =
    rw reverse-cons
      (all-append p (reverse s) (c ∷ []) (all-reverse p s (ground arith)) (ground arith))

trim_from-graphic : (s : Bytes) → all is_graphic s ≡ true → trim_from space_width zero s ≡ s
unfolding trim_from
trim_from-graphic [] h = refl
trim_from-graphic (c ∷ s) h = rw (space_width-graphic c s (ground arith), trim_from) refl

trim_from_back-graphic :
    (s : Bytes) → all is_graphic s ≡ true → trim_from space_width_back zero s ≡ s
unfolding trim_from
trim_from_back-graphic [] h = refl
trim_from_back-graphic (c ∷ s) h = rw (space_width_back-graphic c s (ground arith), trim_from) refl

pub trim_space-graphic : (s : Bytes) → all is_graphic s ≡ true → trim_space s ≡ s
unfolding trim_space
trim_space-graphic s h =
    rw (trim_from-graphic s h, trim_from_back-graphic (reverse s) (all-reverse is_graphic s h))
      (reverse-reverse s)
