-- ===== src/Validation/Slug.antt =====
-- What the checks of namespaces, names and subjects accept.
use gitrdone.Common.{
  ℕ, ◌≤◌, ◌≡◌, ◌≢◌, ◌↔◌, ◌⊎◌, Bool, true, List, [], ◌∷◌, ◌++◌, length, All, arith, nat_eq,
}
use gitrdone.Text.{Bytes}
use gitrdone.Validation.{scan_chars, slug_char, repo_slug_error, validate_repo_slug}

abbrev pub InRange : ℕ → ℕ → ℕ → Type 0
InRange lo hi c = (lo ≤ c) × (c ≤ hi)

-- An ASCII letter or digit, in the order of the code table.
abbrev pub IsAlnum : ℕ → Type 0
IsAlnum c = InRange 48 57 c ⊎ (InRange 65 90 c ⊎ InRange 97 122 c)

pub scan_chars-eq-nil_iff :
    (allowed : ℕ → Bool) (error value : Bytes)
    → error ≢ []
    → (scan_chars allowed error value ≡ []) ↔ All (λ c. allowed c ≡ true) value
unfolding scan_chars
scan_chars-eq-nil_iff allowed error [] h = ground arith
scan_chars-eq-nil_iff allowed error (c ∷ value) h =
    ground (arith, scan_chars-eq-nil_iff allowed error value h)

pub All-iff {ℓ} :
    {A : Type ℓ} (P Q : A → Type 0) (xs : List A) → ((a : A) → P a ↔ Q a) → All P xs ↔ All Q xs
All-iff P Q [] h = (λ u. u, λ u. u)
All-iff P Q (x ∷ xs) h =
    let (to, from) = All-iff P Q xs h in (λ a. ((h x).0 a.0, to a.1), λ a. ((h x).1 a.0, from a.1))

-- A letter, a digit, or one of `-._`.
abbrev pub IsSlugChar : ℕ → Type 0
IsSlugChar c = IsAlnum c ⊎ ((c ≡ 45) ⊎ ((c ≡ 46) ⊎ (c ≡ 95)))

slug_char_iff : (c : ℕ) → (slug_char c ≡ true) ↔ IsSlugChar c
unfolding slug_char
slug_char_iff c = ground arith

pub record IsSlug (value : Bytes) : Type 0 where
  pub nonempty : 1 ≤ length value
  pub short : length value ≤ 128
  pub chars : All IsSlugChar value

append-ne-nil : (a b : Bytes) → b ≢ [] → a ++ b ≢ []
append-ne-nil [] b h e = h e
append-ne-nil (c ∷ a) b h e = cc

repo_slug_error-ne-nil : (field : Bytes) → repo_slug_error field ≢ []
unfolding repo_slug_error
repo_slug_error-ne-nil field = append-ne-nil field _ (λ e. cc)

-- The check of a namespace or a name passes exactly for 1 to 128 letters, digits, `-`, `.` and `_`.
pub validate_repo_slug_iff :
    (field value : Bytes) → (validate_repo_slug field value ≡ []) ↔ IsSlug value
unfolding validate_repo_slug
validate_repo_slug_iff field value = ground (
  arith,
  repo_slug_error-ne-nil field,
  scan_chars-eq-nil_iff slug_char (repo_slug_error field) value (repo_slug_error-ne-nil field),
  All-iff (λ c. slug_char c ≡ true) IsSlugChar value slug_char_iff,
)
