-- ===== src/Validation/Subject.antt =====
-- What the check of a token subject accepts.
use gitrdone.Common.{ℕ, ◌≤◌, ◌≡◌, ◌≢◌, ◌↔◌, ◌⊎◌, true, [], length, All, arith, nat_eq}
use gitrdone.Text.{Bytes}
use gitrdone.Validation.{subject_char, token_subject_error, validate_token_subject}
use gitrdone.Validation.Slug.{IsAlnum, scan_chars-eq-nil_iff, All-iff}

-- A letter, a digit, or one of `-./:@_`.
abbrev pub IsSubjectChar : ℕ → Type 0
IsSubjectChar c =
    IsAlnum c ⊎ ((c ≡ 45) ⊎ ((c ≡ 46) ⊎ ((c ≡ 47) ⊎ ((c ≡ 58) ⊎ ((c ≡ 64) ⊎ (c ≡ 95))))))

subject_char_iff : (c : ℕ) → (subject_char c ≡ true) ↔ IsSubjectChar c
unfolding subject_char
subject_char_iff c = ground arith

pub record IsSubject (value : Bytes) : Type 0 where
  pub nonempty : 1 ≤ length value
  pub short : length value ≤ 128
  pub chars : All IsSubjectChar value

token_subject_error-ne-nil : token_subject_error ≢ []
token_subject_error-ne-nil e = cc

-- The check of a token subject passes exactly for 1 to 128 letters, digits and `-./:@_`.
pub validate_token_subject_iff :
    (value : Bytes) → (validate_token_subject value ≡ []) ↔ IsSubject value
unfolding validate_token_subject
validate_token_subject_iff value = ground (
  arith,
  scan_chars-eq-nil_iff subject_char token_subject_error value token_subject_error-ne-nil,
  All-iff (λ c. subject_char c ≡ true) IsSubjectChar value subject_char_iff,
)
