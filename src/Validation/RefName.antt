-- ===== src/Validation/RefName.antt =====
-- What `validateDefaultBranch` (internal/http/validation.go) refuses breaks a rule of `IsRefName`.
use gitrdone.Common.{
  ℕ, ◌≡◌, ◌≢◌, ◌↔◌, inl, inr, refl, sym, ap, ◌∙◌, true, false, List, [], ◌∷◌, ◌++◌, append_assoc,
  length, All, arith, nat_eq, list_eq, ==_iff, Bool-cases,
}
use gitrdone.Text.{Bytes, codes, has_prefix, has_suffix, contains, split}
use gitrdone.Text.Cut.{has_prefix-true, has_suffix-true, contains-true}
use gitrdone.Text.Parts.{AtEnd, HeadAt, TailAt, PartsAt, split-PartsAt}
use gitrdone.Validation.{
  scan_chars, scan_parts, branch_char, branch_error, bad_branch_part, validate_default_branch,
}
use gitrdone.Validation.Branch.{IsBranchChar, IsRefName, validate_default_branch-IsRefName}
use gitrdone.Validation.Slug.{scan_chars-eq-nil_iff}

good_part :
    (part : Bytes)
    → part ≢ []
    → ((r : Bytes) → part ≢ b'.' ∷ r)
    → ((r : Bytes) → part ≢ r ++ codes ".lock")
    → bad_branch_part part ≡ false
unfolding bad_branch_part
good_part part nonempty no_dot no_lock = elim (Bool-cases (has_prefix part (codes "."))) [
  | inl dot ↦ (let (r, is_part) = has_prefix-true part (codes ".") dot in absurd (no_dot r is_part))
  | inr no_prefix ↦ elim (Bool-cases (has_suffix part (codes ".lock"))) [
    | inl lock ↦
        (let (r, is_part) = has_suffix-true part (codes ".lock") lock in absurd (no_lock r is_part))
    | inr no_suffix ↦ ground (arith, ==_iff part [])
  ]
]

All-weaken {ℓ} :
    {A : Type ℓ} (P Q : A → Type 0) (xs : List A) → ((a : A) → P a → Q a) → All P xs → All Q xs
All-weaken P Q [] h k = tt
All-weaken P Q (x ∷ xs) h k = (h x k.0, All-weaken P Q xs h k.1)

module _ (value : Bytes) (ref : IsRefName value) where
  no_lock : (front b : Bytes) → AtEnd b'/' b → value ≢ front ++ (codes ".lock" ++ b)
  no_lock front b (inl end) e =
      ref.no_lock_last front (e ∙ ap (λ d. front ++ (codes ".lock" ++ d)) end)
  no_lock front b (inr (t, slash)) e =
      ref.no_component_lock_last front t (e ∙ ap (λ d. front ++ (codes ".lock" ++ d)) slash)

  no_empty_head : (b : Bytes) → AtEnd b'/' b → value ≢ b
  no_empty_head b (inl end) e =
      let long = ref.nonempty in ground (arith, ap (λ v. length v) (e ∙ end))
  no_empty_head b (inr (t, slash)) e = ref.no_slash_first t (e ∙ slash)

  no_empty_tail : (a b : Bytes) → AtEnd b'/' b → value ≢ a ++ (b'/' ∷ b)
  no_empty_tail a b (inl end) e = ref.no_slash_last a (e ∙ ap (λ d. a ++ (b'/' ∷ d)) end)
  no_empty_tail a b (inr (t, slash)) e =
      ref.no_empty_component a t (e ∙ ap (λ d. a ++ (b'/' ∷ d)) slash)

  head_good : (part : Bytes) → HeadAt value b'/' part → bad_branch_part part ≡ false
  head_good part (b, is_value, end) =
      good_part part (λ is_part. no_empty_head b end (is_value ∙ ap (λ p. p ++ b) is_part))
        (λ r is_part. ref.no_dot_first (r ++ b) (is_value ∙ ap (λ p. p ++ b) is_part))
        λ r is_part.
          no_lock r b end (is_value ∙ ap (λ p. p ++ b) is_part ∙ append_assoc r (codes ".lock") b)

  tail_good : (part : Bytes) → TailAt value b'/' part → bad_branch_part part ≡ false
  tail_good part (a, b, is_value, end) =
      let with_part : Bytes → Bytes = λ p. a ++ (b'/' ∷ (p ++ b)) in
      good_part part (λ is_part. no_empty_tail a b end (is_value ∙ ap with_part is_part))
        (λ r is_part. ref.no_component_dot_first a (r ++ b) (is_value ∙ ap with_part is_part))
        λ r is_part. no_lock (a ++ (b'/' ∷ r)) b end (
          is_value
          ∙ ap with_part is_part
          ∙ ap (λ d. a ++ (b'/' ∷ d)) (append_assoc r (codes ".lock") b)
          ∙ sym (append_assoc a (b'/' ∷ r) (codes ".lock" ++ b)))

  parts_good :
      (parts : List Bytes)
      → PartsAt value b'/' parts
      → All (λ part. bad_branch_part part ≡ false) parts
  parts_good [] h = tt
  parts_good (part ∷ parts) (h, t) =
      (head_good part h, All-weaken (TailAt value b'/') _ parts tail_good t)

  no_prefix_slash : has_prefix value (codes "/") ≡ false
  no_prefix_slash = elim (Bool-cases (has_prefix value (codes "/"))) [
    | inl found ↦
        (let (b, is_value) = has_prefix-true value (codes "/") found in
          absurd (ref.no_slash_first b is_value))
    | inr missing ↦ missing
  ]

  no_suffix : (p : Bytes) → ((a : Bytes) → value ≢ a ++ p) → has_suffix value p ≡ false
  no_suffix p never = elim (Bool-cases (has_suffix value p)) [
    | inl found ↦ (let (a, is_value) = has_suffix-true value p found in absurd (never a is_value))
    | inr missing ↦ missing
  ]

  holds_no : (p : Bytes) → ((a b : Bytes) → value ≢ a ++ (p ++ b)) → contains value p ≡ false
  holds_no p never = elim (Bool-cases (contains value p)) [
    | inl found ↦
        (let (a, b, is_value) = contains-true value p found in absurd (never a b is_value))
    | inr missing ↦ missing
  ]

scan_parts-good :
    (parts : List Bytes) (after : Bytes)
    → All (λ part. bad_branch_part part ≡ false) parts
    → scan_parts parts after ≡ after
unfolding scan_parts
scan_parts-good [] after h = refl
scan_parts-good (part ∷ parts) after h = rw h.0 (scan_parts-good parts after h.1)

IsBranchChar-branch_char : (c : ℕ) → IsBranchChar c → branch_char c ≡ true
unfolding branch_char
IsBranchChar-branch_char c h = ground arith

scan_chars-good :
    (value : Bytes) → All IsBranchChar value → scan_chars branch_char branch_error value ≡ []
scan_chars-good value h =
    (scan_chars-eq-nil_iff branch_char branch_error value (λ e. cc)).1
      (All-weaken IsBranchChar (λ c. branch_char c ≡ true) value IsBranchChar-branch_char h)

IsRefName-accepted : (value : Bytes) → IsRefName value → validate_default_branch value ≡ []
unfolding validate_default_branch
IsRefName-accepted value ref =
    let long = ref.nonempty in
    let short = ref.short in
    let parts =
      scan_parts-good (split value b'/') (scan_chars branch_char branch_error value)
        (parts_good value ref (split value b'/') (split-PartsAt value b'/')) in
    let chars = scan_chars-good value ref.chars in
    let slash_first = no_prefix_slash value ref in
    let slash_last = no_suffix value ref (codes "/") ref.no_slash_last in
    let dot_last = no_suffix value ref (codes ".") ref.no_dot_last in
    let double_slash = holds_no value ref (codes "//") ref.no_empty_component in
    let double_dot = holds_no value ref (codes "..") ref.no_double_dot in ground arith

-- The check of a default branch passes exactly for 1 to 128 letters, digits, `-`, `.`, `/` and `_` in
-- which no component is empty, begins with a dot or ends in `.lock`, and which have no `..` and no
-- dot at the end. A dash in front and the name `HEAD` are no part of these rules.
pub validate_default_branch_iff :
    (value : Bytes) → (validate_default_branch value ≡ []) ↔ IsRefName value
validate_default_branch_iff value =
    (validate_default_branch-IsRefName value, IsRefName-accepted value)
