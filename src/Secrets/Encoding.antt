-- ===== src/Secrets/Encoding.antt =====
-- Bytes, hex digits and the base64 alphabet.
use gitrdone.Common.{
  ℕ, zero, suc, ◌+◌, ◌*◌, ◌/◌, ◌%◌, ◌<◌, ◌≡◌, refl, Bool, true, ◌&&◌, ◌||◌, [], ◌∷◌, length, take,
  drop, all, All, arith, nat_eq, ◌==◌,
}
use gitrdone.Text.{Bytes, within}
use gitrdone.Ids.{is_lower_hex_digit}
use gitrdone.Secrets.{
  first_byte, other_bytes, fill, hex_digit, hex_encode, update, base64_char, base64_encode,
}

pub hex_digit-is_lower_hex : (n : ℕ) → n < 16 → is_lower_hex_digit (hex_digit n) ≡ true
unfolding is_lower_hex_digit hex_digit
hex_digit-is_lower_hex n h = ground arith

abbrev pub IsByte : ℕ → Type 0
IsByte b = b < 256

pub first_byte-lt : (bs : Bytes) → first_byte bs < 256
first_byte-lt [] = omega arith
first_byte-lt (b ∷ bs) = omega arith

pub fill-IsByte : (n : ℕ) (bs : Bytes) → All IsByte (fill n bs)
unfolding fill
fill-IsByte zero bs = tt
fill-IsByte (suc n) bs = (first_byte-lt bs, fill-IsByte n (other_bytes bs))

pub length-fill : (n : ℕ) (bs : Bytes) → length (fill n bs) ≡ n
unfolding fill
length-fill zero bs = refl
length-fill (suc n) bs = omega (arith, length-fill n (other_bytes bs))

pub hex_encode-hex : (s : Bytes) → All IsByte s → all is_lower_hex_digit (hex_encode s) ≡ true
unfolding hex_encode
hex_encode-hex [] h = refl
hex_encode-hex (b ∷ s) h = ground (
  arith,
  hex_digit-is_lower_hex (b / 16) (omega arith),
  hex_digit-is_lower_hex (b % 16) (omega arith),
  hex_encode-hex s h.1,
)

pub length-hex_encode : (s : Bytes) → length (hex_encode s) ≡ 2 * length s
unfolding hex_encode
length-hex_encode [] = refl
length-hex_encode (b ∷ s) = omega (arith, length-hex_encode s)

pub update-IsByte :
    (i : ℕ) (f : ℕ → ℕ) (s : Bytes)
    → ((b : ℕ) → b < 256 → f b < 256)
    → All IsByte s
    → All IsByte (update i f s)
unfolding update
update-IsByte i f [] k h = tt
update-IsByte zero f (b ∷ s) k h = (k b h.0, h.1)
update-IsByte (suc i) f (b ∷ s) k h = (h.0, update-IsByte i f s k h.1)

pub length-update : (i : ℕ) (f : ℕ → ℕ) (s : Bytes) → length (update i f s) ≡ length s
unfolding update
length-update i f [] = refl
length-update zero f (b ∷ s) = refl
length-update (suc i) f (b ∷ s) = omega (arith, length-update i f s)

pub all-take : (p : ℕ → Bool) (n : ℕ) (s : Bytes) → all p s ≡ true → all p (take n s) ≡ true
all-take p zero s h = refl
all-take p (suc n) [] h = refl
all-take p (suc n) (c ∷ s) h = ground (arith, all-take p n s)

pub all-drop : (p : ℕ → Bool) (n : ℕ) (s : Bytes) → all p s ≡ true → all p (drop n s) ≡ true
all-drop p zero s h = h
all-drop p (suc n) [] h = refl
all-drop p (suc n) (c ∷ s) h = all-drop p n s (ground arith)

-- A statement about every byte, by evaluation.
unfoldable pub holds_below : (ℕ → Bool) → ℕ → Bool
holds_below test zero = true
holds_below test (suc n) = holds_below test n && test n

pub holds_below_lem :
    (test : ℕ → Bool) (n x : ℕ) → holds_below test n ≡ true → x < n → test x ≡ true
unfolding holds_below
holds_below_lem test zero x h lt = absurd (omega arith)
holds_below_lem test (suc n) x h lt = ground (arith, holds_below_lem test n x)

-- a letter, a digit, `-` or `_`
abbrev pub is_token_char : ℕ → Bool
is_token_char c =
    within b'a' b'z' c || within b'A' b'Z' c || within b'0' b'9' c || c == b'-' || c == b'_'

base64_char-is_token_char : (n : ℕ) → n < 64 → is_token_char (base64_char n) ≡ true
unfolding base64_char
base64_char-is_token_char n h = ground arith

pub base64_encode-is_token_char :
    (s : Bytes) → All IsByte s → all is_token_char (base64_encode s) ≡ true
unfolding base64_encode
base64_encode-is_token_char [] h = refl
base64_encode-is_token_char (a ∷ []) h = ground (
  arith,
  base64_char-is_token_char (a / 4) (omega arith),
  base64_char-is_token_char (a % 4 * 16) (omega arith),
)
base64_encode-is_token_char (a ∷ b ∷ []) h = ground (
  arith,
  base64_char-is_token_char (a / 4) (omega arith),
  base64_char-is_token_char (a % 4 * 16 + b / 16) (omega arith),
  base64_char-is_token_char (b % 16 * 4) (omega arith),
)
base64_encode-is_token_char (a ∷ b ∷ c ∷ s) h = ground (
  arith,
  base64_char-is_token_char (a / 4) (omega arith),
  base64_char-is_token_char (a % 4 * 16 + b / 16) (omega arith),
  base64_char-is_token_char (b % 16 * 4 + c / 64) (omega arith),
  base64_char-is_token_char (c % 64) (omega arith),
  base64_encode-is_token_char s,
)
