-- ===== src/Validation.antt =====
-- internal/http/validation.go: the checks on names, branches and token subjects. A check returns
-- the error message, empty if the value passes.
pub mod Slug
pub mod Branch
pub mod RefName
pub mod Subject
use gitrdone.Common.{
  ℕ, Bool, true, false, not, ◌&&◌, ◌||◌, List, [], ◌∷◌, ◌++◌, ◌==◌, nat_eq, list_eq, ltb, leb,
  if◌then◌else◌, length,
}
use gitrdone.Text.{Bytes, codes, has_prefix, has_suffix, contains, split}

abbrev pub max_control_input_length : ℕ
max_control_input_length = 128

unfoldable pub is_ascii_letter : ℕ → Bool
is_ascii_letter c = (leb b'a' c && leb c b'z') || (leb b'A' c && leb c b'Z')

unfoldable pub is_ascii_digit : ℕ → Bool
is_ascii_digit c = leb b'0' c && leb c b'9'

abbrev bad_length : Bytes → Bool
bad_length value = ltb (length value) 1 || ltb max_control_input_length (length value)

unfoldable pub repo_slug_error : Bytes → Bytes
repo_slug_error field =
    field
    ++ codes " must be 1-128 characters and contain only letters, numbers, dot, underscore, or dash"

unfoldable pub slug_char : ℕ → Bool
unfolding is_ascii_letter is_ascii_digit
slug_char c = is_ascii_letter c || is_ascii_digit c || c == b'.' || c == b'_' || c == b'-'

-- `for _, char := range value`: the error, or the empty message at the end
unfoldable pub scan_chars : (ℕ → Bool) → Bytes → Bytes → Bytes
scan_chars allowed error [] = []
scan_chars allowed error (c ∷ value) =
    let rest = scan_chars allowed error value in if allowed c then rest else error

unfoldable pub validate_repo_slug : Bytes → Bytes → Bytes
validate_repo_slug field value =
    if bad_length value
    then repo_slug_error field
    else scan_chars slug_char (repo_slug_error field) value

abbrev pub branch_error : Bytes
branch_error = codes "defaultBranch must be a valid branch name"

unfoldable pub branch_char : ℕ → Bool
unfolding is_ascii_letter is_ascii_digit
branch_char c =
    is_ascii_letter c || is_ascii_digit c || c == b'.' || c == b'_' || c == b'-' || c == b'/'

-- `part == "" || strings.HasPrefix(part, ".") || strings.HasSuffix(part, ".lock")`
unfoldable pub bad_branch_part : Bytes → Bool
bad_branch_part part = part == [] || has_prefix part (codes ".") || has_suffix part (codes ".lock")

-- the loop over `strings.Split(value, "/")`, and `after` behind it
unfoldable pub scan_parts : List Bytes → Bytes → Bytes
scan_parts [] after = after
scan_parts (part ∷ parts) after =
    let rest = scan_parts parts after in if bad_branch_part part then branch_error else rest

unfoldable pub validate_default_branch : Bytes → Bytes
validate_default_branch value =
    if bad_length value
    then branch_error
    else if has_prefix value (codes "/")
        || has_suffix value (codes "/")
        || has_suffix value (codes ".")
    then branch_error
    else if contains value (codes "//") || contains value (codes "..")
    then branch_error
    else scan_parts (split value b'/') (scan_chars branch_char branch_error value)

abbrev pub token_subject_error : Bytes
token_subject_error =
    codes
      "subject must be 1-128 characters and contain only letters, numbers, dot, underscore, dash, slash, colon, or at sign"

unfoldable pub subject_char : ℕ → Bool
unfolding is_ascii_letter is_ascii_digit
subject_char c =
    is_ascii_letter c
    || is_ascii_digit c
    || (c == b'.' || c == b'_' || c == b'-' || c == b'/' || c == b':' || c == b'@')

unfoldable pub validate_token_subject : Bytes → Bytes
validate_token_subject value =
    if bad_length value
    then token_subject_error
    else scan_chars subject_char token_subject_error value
