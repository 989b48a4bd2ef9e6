-- ===== src/Text.antt =====
-- Go strings as the bytes they hold, and the functions of package strings that the program calls.
-- A `for _, char := range s` decodes UTF-8, and the program's loops only ask whether a character is
-- one of some ASCII characters: at a byte from 0x80 up the decoded character is none of them, and
-- below 0x80 it is the byte, so those loops walk the bytes.
pub mod Trim
pub mod Cut
pub mod Split
pub mod Parts
use Prim.Native.Char.{code}
use Prim.Native.String.{String}
use mathlib.Core.List.{reverse}
use mathlib.Core.Option
use gitrdone.Common.{
  ℕ, zero, suc, ◌-◌, ◌≡◌, refl, Bool, true, false, ◌&&◌, ◌||◌, Option, none, some, List, [], ◌∷◌,
  ◌++◌, ◌==◌, nat_eq, list_eq, ltb, leb, if◌then◌else◌,
}

abbrev pub Bytes : Type 0
Bytes = List ℕ

-- The bytes of an ASCII literal.
abbrev pub codes : String → Bytes
codes String.[] = []
codes (String.◌∷◌ c s) = code c ∷ codes s

-- `lo <= c && c <= hi`
abbrev pub within : ℕ → ℕ → ℕ → Bool
within lo hi c = leb lo c && leb c hi

-- `strings.CutPrefix`, and `strings.HasPrefix` where the flag alone is used
unfoldable pub cut_prefix : Bytes → Bytes → Option Bytes
cut_prefix s [] = some s
cut_prefix [] (p ∷ ps) = none
cut_prefix (c ∷ s) (p ∷ ps) = let rest = cut_prefix s ps in if c == p then rest else none

abbrev pub is_some {ℓ} : {A : Type ℓ} → Option A → Bool
is_some none = false
is_some (some _) = true

unfoldable pub has_prefix : Bytes → Bytes → Bool
has_prefix s p = is_some (cut_prefix s p)

-- `strings.CutSuffix` and `strings.HasSuffix`
unfoldable pub cut_suffix : Bytes → Bytes → Option Bytes
cut_suffix s p = Option.map reverse (cut_prefix (reverse s) (reverse p))

unfoldable pub has_suffix : Bytes → Bytes → Bool
has_suffix s p = is_some (cut_suffix s p)

-- `strings.Contains`
unfoldable pub contains : Bytes → Bytes → Bool
unfolding has_prefix cut_prefix
contains [] p = has_prefix [] p
contains (c ∷ s) p = has_prefix (c ∷ s) p || contains s p

abbrev cons_before : ℕ → Option (Bytes × Bytes) → Option (Bytes × Bytes)
cons_before c none = none
cons_before c (some (a, b)) = some (c ∷ a, b)

abbrev at_separator : Option Bytes → Option (Bytes × Bytes) → Option (Bytes × Bytes)
at_separator (some rest) later = some ([], rest)
at_separator none later = later

-- `strings.Cut`: around the first separator
unfoldable pub cut : Bytes → Bytes → Option (Bytes × Bytes)
cut [] sep = at_separator (cut_prefix [] sep) none
cut (c ∷ s) sep = at_separator (cut_prefix (c ∷ s) sep) (cons_before c (cut s sep))

abbrev pub grow_head : ℕ → List Bytes → List Bytes
grow_head c [] = (c ∷ []) ∷ []
grow_head c (part ∷ parts) = (c ∷ part) ∷ parts

-- `strings.Split` by a separator of one byte
unfoldable pub split : Bytes → ℕ → List Bytes
split [] sep = [] ∷ []
split (c ∷ s) sep = let parts = split s sep in if c == sep then [] ∷ parts else grow_head c parts

-- `unicode.IsSpace`, on the encodings of the space characters: how many bytes of one stand in front
abbrev is_ascii_space : ℕ → Bool
is_ascii_space c = within 9 13 c || c == 32

abbrev is_space_2 : ℕ → ℕ → Bool
is_space_2 a b = a == 0xc2 && (b == 0x85 || b == 0xa0)

abbrev is_space_3 : ℕ → ℕ → ℕ → Bool
is_space_3 a b c =
    (a == 0xe1 && (b == 0x9a && c == 0x80))
    || (a == 0xe2 && (b == 0x80 && (within 0x80 0x8a c || (c == 0xa8 || (c == 0xa9 || c == 0xaf)))))
    || (a == 0xe2 && (b == 0x81 && c == 0x9f))
    || (a == 0xe3 && (b == 0x80 && c == 0x80))

-- the first is a 1-byte character at the front, the last two are looked at if it is no space
space_width : Bytes → ℕ
space_width [] = 0
space_width (a ∷ []) = if is_ascii_space a then 1 else 0
space_width (a ∷ b ∷ []) = if is_ascii_space a then 1 else if is_space_2 a b then 2 else 0
space_width (a ∷ b ∷ c ∷ s) =
    if is_ascii_space a then 1 else if is_space_2 a b then 2 else if is_space_3 a b c then 3 else 0

-- the same at the end of a text, which stands reversed
space_width_back : Bytes → ℕ
space_width_back [] = 0
space_width_back (a ∷ []) = if is_ascii_space a then 1 else 0
space_width_back (b ∷ a ∷ []) = if is_ascii_space b then 1 else if is_space_2 a b then 2 else 0
space_width_back (c ∷ b ∷ a ∷ s) =
    if is_ascii_space c then 1 else if is_space_2 b c then 2 else if is_space_3 a b c then 3 else 0

-- `k` bytes of a space character are still to be dropped
trim_from : (Bytes → ℕ) → ℕ → Bytes → Bytes
trim_from width k [] = []
trim_from width (suc k) (c ∷ s) = trim_from width k s
trim_from width zero (c ∷ s) = elim (width (c ∷ s)) [ zero ↦ c ∷ s | suc k ↦ trim_from width k s ]

-- `strings.TrimSpace`
unfoldable pub trim_space : Bytes → Bytes
unfolding trim_from space_width space_width_back
trim_space s = reverse (trim_from space_width_back 0 (reverse (trim_from space_width 0 s)))

-- `strings.TrimLeft` with ASCII characters to cut, and `strings.TrimRight`, `strings.Trim`
unfoldable pub trim_left : Bytes → (ℕ → Bool) → Bytes
trim_left [] cutset = []
trim_left (c ∷ s) cutset = let rest = trim_left s cutset in if cutset c then rest else c ∷ s

unfoldable pub trim_right : Bytes → (ℕ → Bool) → Bytes
unfolding trim_left
trim_right s cutset = reverse (trim_left (reverse s) cutset)

unfoldable pub trim : Bytes → (ℕ → Bool) → Bytes
unfolding trim_right trim_left
trim s cutset = trim_right (trim_left s cutset) cutset

-- `a < b` on strings, by bytes
unfoldable pub str_ltb : Bytes → Bytes → Bool
str_ltb [] [] = false
str_ltb [] (y ∷ ys) = true
str_ltb (x ∷ xs) [] = false
str_ltb (x ∷ xs) (y ∷ ys) = ltb x y || (x == y && str_ltb xs ys)
