-- ===== src/Ids/RoundTrip.antt =====
-- Parsing and formatting of the ids of internal/http/ids.go.
use gitrdone.Common.{
  ℕ, suc, ◌≡◌, refl, ◌↔◌, true, Option, none, some, [], ◌∷◌, ◌++◌, all, all-append, arith, inl, inr,
  Bool-cases,
}
use gitrdone.Text.{Bytes, cut_prefix, trim_space}
use gitrdone.Text.Trim.{is_graphic, trim_space-graphic}
use gitrdone.Text.Cut.{cut_prefix-append, cut_prefix-eq-some}
use gitrdone.Ids.{
  uuid_chars, is_canonical_uuid, checked_uuid, repo_control_id_prefix, repo_token_control_id_prefix,
  format_repo_control_id, parse_repo_control_id, format_repo_token_control_id,
  parse_repo_token_control_id,
}

uuid_chars-graphic : (index : ℕ) (s : Bytes) → uuid_chars index s ≡ true → all is_graphic s ≡ true
unfolding uuid_chars
uuid_chars-graphic index [] h = refl
uuid_chars-graphic index (c ∷ s) h = ground (arith, uuid_chars-graphic (suc index) s)

pub is_canonical_uuid-graphic : (s : Bytes) → is_canonical_uuid s ≡ true → all is_graphic s ≡ true
unfolding is_canonical_uuid
is_canonical_uuid-graphic s h = ground (arith, uuid_chars-graphic 0 s)

checked_uuid_iff :
    (o : Option Bytes) (raw : Bytes)
    → (checked_uuid o ≡ some raw) ↔ ((o ≡ some raw) × (is_canonical_uuid raw ≡ true))
checked_uuid_iff none raw = ground arith
checked_uuid_iff (some r) raw = elim (Bool-cases (is_canonical_uuid r)) [
  | inl y ↦ rw y (λ e. (e, ground arith), λ h. h.0)
  | inr n ↦ rw n ((λ e. cc), λ h. ground arith)
]

module _ (prefix : Bytes) (graphic : all is_graphic prefix ≡ true) where
  parse_iff :
      (value raw : Bytes)
      → (checked_uuid (cut_prefix (trim_space value) prefix) ≡ some raw)
        ↔ ((trim_space value ≡ prefix ++ raw) × (is_canonical_uuid raw ≡ true))
  parse_iff value raw =
      let (to, from) = checked_uuid_iff (cut_prefix (trim_space value) prefix) raw in
      (
        λ e. (cut_prefix-eq-some (trim_space value) prefix (to e).0, (to e).1),
        λ h. from (rw h.0 (cut_prefix-append prefix raw), h.1),
      )

  trim_space-format :
      (raw : Bytes) → is_canonical_uuid raw ≡ true → trim_space (prefix ++ raw) ≡ prefix ++ raw
  trim_space-format raw h =
      trim_space-graphic (prefix ++ raw)
        (all-append is_graphic prefix raw graphic (is_canonical_uuid-graphic raw h))

-- A repo id is read exactly from `repo_` and a canonical UUID, with space around it dropped, and
-- then the UUID is the result.
pub parse_repo_control_id_iff :
    (value raw : Bytes)
    → (parse_repo_control_id value ≡ some raw)
      ↔ ((trim_space value ≡ format_repo_control_id raw) × (is_canonical_uuid raw ≡ true))
unfolding parse_repo_control_id format_repo_control_id
parse_repo_control_id_iff value raw = parse_iff repo_control_id_prefix refl value raw

pub parse-format_repo_control_id :
    (raw : Bytes)
    → is_canonical_uuid raw ≡ true
    → parse_repo_control_id (format_repo_control_id raw) ≡ some raw
unfolding format_repo_control_id
parse-format_repo_control_id raw h =
    (parse_repo_control_id_iff _ raw).1 (trim_space-format repo_control_id_prefix refl raw h, h)

-- A token id is read exactly from `token_` and a canonical UUID, with space around it dropped, and
-- then the UUID is the result.
pub parse_repo_token_control_id_iff :
    (value raw : Bytes)
    → (parse_repo_token_control_id value ≡ some raw)
      ↔ ((trim_space value ≡ format_repo_token_control_id raw) × (is_canonical_uuid raw ≡ true))
unfolding parse_repo_token_control_id format_repo_token_control_id
parse_repo_token_control_id_iff value raw = parse_iff repo_token_control_id_prefix refl value raw

-- The ids that the control API shows are read back: for every canonical UUID, as a repo id and as
-- a token id.
pub parse-format :
    (raw : Bytes)
    → is_canonical_uuid raw ≡ true
    → (parse_repo_control_id (format_repo_control_id raw) ≡ some raw)
      × (parse_repo_token_control_id (format_repo_token_control_id raw) ≡ some raw)
unfolding format_repo_token_control_id
parse-format raw h = (
  parse-format_repo_control_id raw h,
  (parse_repo_token_control_id_iff _ raw).1
      (trim_space-format repo_token_control_id_prefix refl raw h, h),
)
