-- ===== src/Tests/Texts.antt =====
-- Identifiers, names and specs, run and accepted.
use gitrdone.Common.{
  ◌≡◌, refl, ◌↔◌, ◌++◌, true, some, [], ◌∷◌, all, length, take, ltb, equal, list_eq, nat_eq,
}
use gitrdone.Git.Buffer.{new_capped_buffer, write_chunks, write_chunks_lem}
use gitrdone.Git.Revisions.{
  git_diff_compare, GitDiffTarget, GitRawTarget, is_git_object_id, parse_git_diff_spec,
  parse_git_raw_spec,
}
use gitrdone.Git.Revisions.Specs.{
  IsDiffTarget, IsObjectId, IsRawTarget, is_git_object_id_iff, parse_git_diff_spec_iff,
  parse_git_raw_spec_iff,
}
use gitrdone.Ids.{
  is_canonical_uuid, parse_repo_control_id, parse_repo_token_control_id, format_repo_control_id,
  format_repo_token_control_id,
}
use gitrdone.Ids.RoundTrip.{parse_repo_control_id_iff, parse-format}
use gitrdone.Ids.Uuid.{IsUuid, is_canonical_uuid_iff}
use gitrdone.Memory.Access.{Allows, scope_allows_git_operation_iff}
use gitrdone.Repository.{scope_allows_git_operation}
use gitrdone.Secrets.{new_uuid, uuid_of, generate_repo_token, token_of}
use gitrdone.Secrets.Encoding.{is_token_char}
use gitrdone.Secrets.Token.{generate_repo_token-chars}
use gitrdone.Secrets.Uuid.{IsVersion4, new_uuid-IsVersion4}
use gitrdone.Text.{Bytes, codes, trim_space}
use gitrdone.Validation.{
  validate_repo_slug, validate_token_subject, validate_default_branch, branch_error,
}
use gitrdone.Validation.Branch.{IsRefName}
use gitrdone.Validation.RefName.{validate_default_branch_iff}
use gitrdone.Validation.Slug.{IsSlug, validate_repo_slug_iff}
use gitrdone.Validation.Subject.{IsSubject, validate_token_subject_iff}

abbrev uuid : Bytes
uuid = codes "0b5c9d8e-1f2a-4c3b-9d4e-5f60718293a4"

uuid-canonical : is_canonical_uuid uuid ≡ true
unfolding is_canonical_uuid
uuid-canonical = refl

is_canonical_uuid_iff_example : (is_canonical_uuid uuid ≡ true) ↔ IsUuid uuid
is_canonical_uuid_iff_example = is_canonical_uuid_iff uuid

parse_repo_control_id_iff_example :
    (parse_repo_control_id (codes " repo_0b5c9d8e-1f2a-4c3b-9d4e-5f60718293a4") ≡ some uuid) ↔ (
      (trim_space (codes " repo_0b5c9d8e-1f2a-4c3b-9d4e-5f60718293a4")
        ≡ format_repo_control_id uuid)
      × (is_canonical_uuid uuid ≡ true))
parse_repo_control_id_iff_example =
    parse_repo_control_id_iff (codes " repo_0b5c9d8e-1f2a-4c3b-9d4e-5f60718293a4") uuid

parse-format_example :
    (parse_repo_control_id (format_repo_control_id uuid) ≡ some uuid)
    × (parse_repo_token_control_id (format_repo_token_control_id uuid) ≡ some uuid)
parse-format_example = parse-format uuid uuid-canonical

new_uuid-IsVersion4_example : IsVersion4 (uuid_of (codes "0123456789abcdef"))
unfolding new_uuid
new_uuid-IsVersion4_example =
    new_uuid-IsVersion4 (some (codes "0123456789abcdef")) (uuid_of (codes "0123456789abcdef")) refl

generate_repo_token-chars_example :
    (length (token_of (codes "random")) ≡ 47)
    × (all is_token_char (token_of (codes "random")) ≡ true)
unfolding generate_repo_token
generate_repo_token-chars_example =
    generate_repo_token-chars (some (codes "random")) (token_of (codes "random")) refl

validate_repo_slug_iff_example :
    (validate_repo_slug (codes "name") (codes "my-repo.v2") ≡ []) ↔ IsSlug (codes "my-repo.v2")
validate_repo_slug_iff_example = validate_repo_slug_iff (codes "name") (codes "my-repo.v2")

validate_token_subject_iff_example :
    (validate_token_subject (codes "agent:ci@host") ≡ []) ↔ IsSubject (codes "agent:ci@host")
validate_token_subject_iff_example = validate_token_subject_iff (codes "agent:ci@host")

feature-accepted : validate_default_branch (codes "feature/v1.2") ≡ []
unfolding validate_default_branch gitrdone.Text.has_prefix gitrdone.Text.cut_prefix
    gitrdone.Text.has_suffix gitrdone.Text.cut_suffix gitrdone.Text.contains
    gitrdone.Validation.scan_parts gitrdone.Text.split gitrdone.Validation.bad_branch_part equal
    gitrdone.Validation.scan_chars gitrdone.Validation.branch_char
feature-accepted = refl

-- names that `git check-ref-format --branch` refuses
dash-accepted : validate_default_branch (codes "-foo") ≡ []
unfolding validate_default_branch gitrdone.Text.has_prefix gitrdone.Text.cut_prefix
    gitrdone.Text.has_suffix gitrdone.Text.cut_suffix gitrdone.Text.contains
    gitrdone.Validation.scan_parts gitrdone.Text.split gitrdone.Validation.bad_branch_part equal
    gitrdone.Validation.scan_chars gitrdone.Validation.branch_char
dash-accepted = refl

head-accepted : validate_default_branch (codes "HEAD") ≡ []
unfolding validate_default_branch gitrdone.Text.has_prefix gitrdone.Text.cut_prefix
    gitrdone.Text.has_suffix gitrdone.Text.cut_suffix gitrdone.Text.contains
    gitrdone.Validation.scan_parts gitrdone.Text.split gitrdone.Validation.bad_branch_part equal
    gitrdone.Validation.scan_chars gitrdone.Validation.branch_char
head-accepted = refl

lock-refused : validate_default_branch (codes "a.lock/b") ≡ branch_error
unfolding validate_default_branch gitrdone.Text.has_prefix gitrdone.Text.cut_prefix
    gitrdone.Text.has_suffix gitrdone.Text.cut_suffix gitrdone.Text.contains
    gitrdone.Validation.scan_parts gitrdone.Text.split gitrdone.Validation.bad_branch_part equal
    gitrdone.Validation.scan_chars gitrdone.Validation.branch_char
lock-refused = refl

validate_default_branch_iff_example :
    (validate_default_branch (codes "feature/v1.2") ≡ []) ↔ IsRefName (codes "feature/v1.2")
validate_default_branch_iff_example = validate_default_branch_iff (codes "feature/v1.2")

scope_allows_git_operation_iff_example :
    (scope_allows_git_operation (codes "readwrite") (codes "write") ≡ true)
    ↔ Allows (codes "readwrite") (codes "write")
scope_allows_git_operation_iff_example =
    scope_allows_git_operation_iff (codes "readwrite") (codes "write")

is_git_object_id_iff_example :
    (is_git_object_id (codes "deadbee") ≡ true) ↔ IsObjectId (codes "deadbee")
is_git_object_id_iff_example = is_git_object_id_iff (codes "deadbee")

abbrev compared : GitDiffTarget
compared = record {
  kind = git_diff_compare;
  revspec = codes "deadbee...0123456";
  revs = codes "deadbee" ∷ codes "0123456" ∷ [];
}

parse_git_diff_spec_iff_example :
    (parse_git_diff_spec git_diff_compare (codes "deadbee...0123456.diff") ≡ some compared) ↔ (
      (spec : Bytes) × (trim_space (codes "deadbee...0123456.diff") ≡ spec ++ codes ".diff")
      × IsDiffTarget spec git_diff_compare compared)
parse_git_diff_spec_iff_example =
    parse_git_diff_spec_iff git_diff_compare (codes "deadbee...0123456.diff") compared

compared-parsed :
    parse_git_diff_spec git_diff_compare (codes "deadbee...0123456.diff") ≡ some compared
unfolding parse_git_diff_spec gitrdone.Text.cut_suffix gitrdone.Text.cut_prefix trim_space equal
    gitrdone.Text.cut gitrdone.Text.contains is_git_object_id gitrdone.Ids.is_lower_hex_digit
compared-parsed = refl

abbrev readme : GitRawTarget
readme = record { rev = codes "deadbee"; path = codes "doc/README" }

parse_git_raw_spec_iff_example :
    (parse_git_raw_spec (codes "deadbee/doc/README") ≡ some readme)
    ↔ IsRawTarget (trim_space (codes "deadbee/doc/README")) readme
parse_git_raw_spec_iff_example = parse_git_raw_spec_iff (codes "deadbee/doc/README") readme

write_chunks_lem_example :
    let c = write_chunks (codes "abc" ∷ codes "def" ∷ []) (new_capped_buffer 4) in
    (c.buf ≡ take 4 (codes "abcdef")) × (c.truncated ≡ ltb 4 6)
write_chunks_lem_example =
    write_chunks_lem 4 (codes "abc" ∷ codes "def" ∷ []) ((λ e. cc), ((λ e. cc), tt))
