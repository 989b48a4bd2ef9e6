-- ===== src/Secrets/Uuid.antt =====
-- The version and the variant of `newUUID` (internal/http/repository.go).
use Prim.Native.Nat.{◌-◌}
use gitrdone.Common.{
  ℕ, zero, suc, [], ◌∷◌, ◌+◌, ◌/◌, ◌<◌, ◌≤◌, ◌≡◌, refl, ap, subst, ◌∙◌, ◌⊎◌, true, ◌&&◌, Option,
  none, some, length, length-take, take, drop, get_elem?, all, All, arith, ltb, leb, nat_eq, eqb,
}
use gitrdone.Ids.{is_lower_hex_digit, is_canonical_uuid}
use gitrdone.Ids.Uuid.{IsUuid, IsHexGroup, is_canonical_uuid_iff}
use gitrdone.Result.{ok}
use gitrdone.Text.{Bytes}
use gitrdone.Secrets.{
  version_4, variant_1, fill, first_byte, other_bytes, update, hex_encode, hex_digit, slice,
  uuid_of, new_uuid,
}
use gitrdone.Secrets.Encoding.{
  fill-IsByte, length-fill, hex_encode-hex, length-hex_encode, update-IsByte, length-update,
  all-take, all-drop, holds_below, holds_below_lem, first_byte-lt, IsByte,
}

length-drop : (n : ℕ) (s : Bytes) → length (drop n s) ≡ length s - n
length-drop zero s = omega arith
length-drop (suc n) [] = omega arith
length-drop (suc n) (c ∷ s) = omega (arith, length-drop n s)

version_table : holds_below (λ b. ltb (version_4 b) 256 && eqb (version_4 b / 16) 4) 256 ≡ true
unfolding holds_below
version_table = refl

variant_table :
    holds_below
      (λ b. ltb (variant_1 b) 256 && (leb 8 (variant_1 b / 16) && leb (variant_1 b / 16) 11))
      256
    ≡ true
unfolding holds_below
variant_table = refl

version_4_lem : (b : ℕ) → b < 256 → (version_4 b < 256) × (version_4 b / 16 ≡ 4)
version_4_lem b h = let e = holds_below_lem _ 256 b version_table h in ground arith

variant_1_lem :
    (b : ℕ) → b < 256 → (variant_1 b < 256) × (8 ≤ variant_1 b / 16) × (variant_1 b / 16 ≤ 11)
variant_1_lem b h = let e = holds_below_lem _ 256 b variant_table h in ground arith

abbrev raw_of : Bytes → Bytes
raw_of bs = update 8 variant_1 (update 6 version_4 (fill 16 bs))

raw_of-IsByte : (bs : Bytes) → All IsByte (raw_of bs)
raw_of-IsByte bs =
    update-IsByte 8 variant_1 _ (λ b h. (variant_1_lem b h).0)
      (update-IsByte 6 version_4 _ (λ b h. (version_4_lem b h).0) (fill-IsByte 16 bs))

length-raw_of : (bs : Bytes) → length (raw_of bs) ≡ 16
length-raw_of bs =
    length-update 8 variant_1 (update 6 version_4 (fill 16 bs))
    ∙ length-update 6 version_4 (fill 16 bs)
    ∙ length-fill 16 bs

slice-IsHexGroup :
    (lo n : ℕ) (s : Bytes)
    → all is_lower_hex_digit s ≡ true
    → lo + n ≤ length s
    → IsHexGroup n (take n (drop lo s))
slice-IsHexGroup lo n s h e = record {
  count = omega (arith, length-take n (drop lo s), length-drop lo s);
  digits = all-take is_lower_hex_digit n (drop lo s) (all-drop is_lower_hex_digit lo s h);
}

uuid_of-IsUuid : (bs : Bytes) → IsUuid (uuid_of bs)
unfolding uuid_of
uuid_of-IsUuid bs =
    let s : Bytes = hex_encode (raw_of bs) in
    let hex = hex_encode-hex (raw_of bs) (raw_of-IsByte bs) in
    let len : length s ≡ 32 = omega (arith, length-hex_encode (raw_of bs), length-raw_of bs) in
    record {
      time_low = slice 0 8 s;
      time_mid = slice 8 12 s;
      time_high = slice 12 16 s;
      clock = slice 16 20 s;
      node = slice 20 32 s;
      splits = refl;
      time_low_hex = slice-IsHexGroup 0 8 s hex (omega arith);
      time_mid_hex = slice-IsHexGroup 8 4 s hex (omega arith);
      time_high_hex = slice-IsHexGroup 12 4 s hex (omega arith);
      clock_hex = slice-IsHexGroup 16 4 s hex (omega arith);
      node_hex = slice-IsHexGroup 20 12 s hex (omega arith);
    }

abbrev nth_byte : ℕ → Bytes → ℕ
nth_byte zero bs = first_byte bs
nth_byte (suc n) bs = nth_byte n (other_bytes bs)

nth_byte-lt : (n : ℕ) (bs : Bytes) → nth_byte n bs < 256
nth_byte-lt zero bs = first_byte-lt bs
nth_byte-lt (suc n) bs = nth_byte-lt n (other_bytes bs)

version_digit :
    (bs : Bytes) → get_elem? (uuid_of bs) 14 ≡ some (hex_digit (version_4 (nth_byte 6 bs) / 16))
unfolding uuid_of
version_digit bs = refl

variant_digit :
    (bs : Bytes) → get_elem? (uuid_of bs) 19 ≡ some (hex_digit (variant_1 (nth_byte 8 bs) / 16))
unfolding uuid_of
variant_digit bs = refl

-- `uuid` is canonical, of version 4, and its variant digit is one of `8`, `9`, `a` and `b`.
pub record IsVersion4 (uuid : Bytes) : Type 0 where
  pub canonical : is_canonical_uuid uuid ≡ true
  pub version : get_elem? uuid 14 ≡ some b'4'
  pub variant :
      (get_elem? uuid 19 ≡ some b'8')
      ⊎ ((get_elem? uuid 19 ≡ some b'9')
          ⊎ ((get_elem? uuid 19 ≡ some b'a') ⊎ (get_elem? uuid 19 ≡ some b'b')))

hex_digit_variant :
    (n : ℕ)
    → 8 ≤ n
    → n ≤ 11
    → (hex_digit n ≡ b'8') ⊎ ((hex_digit n ≡ b'9') ⊎ ((hex_digit n ≡ b'a') ⊎ (hex_digit n ≡ b'b')))
unfolding hex_digit
hex_digit_variant n h k = ground arith

uuid_of-IsVersion4 : (bs : Bytes) → IsVersion4 (uuid_of bs)
uuid_of-IsVersion4 bs =
    let version = (version_4_lem (nth_byte 6 bs) (nth_byte-lt 6 bs)).1 in
    let (_, low, high) = variant_1_lem (nth_byte 8 bs) (nth_byte-lt 8 bs) in
    record {
      canonical = (is_canonical_uuid_iff (uuid_of bs)).1 (uuid_of-IsUuid bs);
      version = version_digit bs ∙ ap (λ n. some (hex_digit n)) version ∙ unfold hex_digit in refl;
      variant =
          rw (variant_digit bs)
            (variant_some (hex_digit_variant (variant_1 (nth_byte 8 bs) / 16) low high));
    }
  where
    variant_some :
        {c : ℕ}
        → (c ≡ b'8') ⊎ ((c ≡ b'9') ⊎ ((c ≡ b'a') ⊎ (c ≡ b'b')))
        → (some c ≡ some b'8')
          ⊎ ((some c ≡ some b'9') ⊎ ((some c ≡ some b'a') ⊎ (some c ≡ some b'b')))
    variant_some h = ground arith

-- Whatever bytes the random source fills the buffer with, the new UUID is canonical, of version 4
-- and of the standard variant.
pub new_uuid-IsVersion4 :
    (read : Option Bytes) (uuid : Bytes) → new_uuid read ≡ ok uuid → IsVersion4 uuid
unfolding new_uuid
new_uuid-IsVersion4 none uuid h = cc
new_uuid-IsVersion4 (some bs) uuid h = subst IsVersion4 (ground arith) (uuid_of-IsVersion4 bs)
