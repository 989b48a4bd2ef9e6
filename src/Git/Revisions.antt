-- ===== src/Git/Revisions.antt =====
-- What the read-only Git routes ask for: parseGitDiffSpec and isGitObjectID of
-- internal/http/git_diff.go, parseGitRawSpec of internal/http/git_raw.go, and the two handlers.
pub mod Specs
use gitrdone.Common.{
  ℕ, Bool, true, false, not, ◌||◌, Option, none, some, List, [], ◌∷◌, ◌++◌, ◌==◌, nat_eq, list_eq,
  ltb, if◌then◌else◌, length,
}
use gitrdone.Git.{GitRequest, Backend, git_handler, internal_error, write_git_access_error}
use gitrdone.Git.Output.{Writer, http_error}
use gitrdone.Ids.{is_lower_hex_digit, parse_repo_control_id}
use gitrdone.Repository.{AuthorizeGitAccessInput, GitAccessGrant, git_operation_read}
use gitrdone.Result.{Error, other, Result}
use gitrdone.Text.{Bytes, codes, contains, cut, cut_suffix, split, trim_space}

abbrev pub min_git_object_id_length : ℕ
min_git_object_id_length = 7

abbrev pub max_git_object_id_length : ℕ
max_git_object_id_length = 64

-- the loop over the characters
hex_chars : Bytes → Bool
hex_chars [] = true
hex_chars (c ∷ value) =
    let rest = hex_chars value in if not (is_lower_hex_digit c) then false else rest

unfoldable pub is_git_object_id : Bytes → Bool
unfolding hex_chars
is_git_object_id value =
    if ltb (length value) min_git_object_id_length || ltb max_git_object_id_length (length value)
    then false
    else hex_chars value

pub data GitDiffKind : Type 0 where
  git_diff_show git_diff_compare : GitDiffKind

pub record GitDiffTarget : Type 0 where
  pub kind : GitDiffKind
  pub revspec : Bytes
  pub revs : List Bytes

-- `separator`
abbrev diff_separator : Bytes → Bytes
diff_separator spec = if contains spec (codes "...") then codes "..." else codes ".."

show_target : Bytes → Option GitDiffTarget
show_target spec =
    if not (is_git_object_id spec)
    then none
    else some (record { kind = git_diff_show; revspec = spec; revs = spec ∷ [] })

compare_target : Bytes → Option (Bytes × Bytes) → Option GitDiffTarget
compare_target separator none = none
compare_target separator (some (base, head)) =
    if not (is_git_object_id base) || not (is_git_object_id head)
    then none
    else some (record {
      kind = git_diff_compare;
      revspec = base ++ (separator ++ head);
      revs = base ∷ head ∷ [];
    })

diff_target : GitDiffKind → Bytes → Option GitDiffTarget
unfolding show_target compare_target
diff_target git_diff_show spec = show_target spec
diff_target git_diff_compare spec =
    compare_target (diff_separator spec) (cut spec (diff_separator spec))

diff_suffixed : GitDiffKind → Option Bytes → Option GitDiffTarget
unfolding diff_target
diff_suffixed kind none = none
diff_suffixed kind (some spec) = if spec == [] then none else diff_target kind spec

unfoldable pub parse_git_diff_spec : GitDiffKind → Bytes → Option GitDiffTarget
unfolding diff_suffixed
parse_git_diff_spec kind raw = diff_suffixed kind (cut_suffix (trim_space raw) (codes ".diff"))

pub record GitRawTarget : Type 0 where
  pub rev : Bytes
  pub path : Bytes

-- the loop over the segments
clean_segments : List Bytes → Bool
clean_segments [] = true
clean_segments (segment ∷ segments) =
    let rest = clean_segments segments in
    if segment == [] || segment == codes "." || segment == codes ".." then false else rest

raw_target : Option (Bytes × Bytes) → Option GitRawTarget
unfolding clean_segments
raw_target none = none
raw_target (some (rev, path)) =
    if not (is_git_object_id rev)
    then none
    else if path == []
    then none
    else if not (clean_segments (split path b'/'))
    then none
    else some (record { rev = rev; path = path })

unfoldable pub parse_git_raw_spec : Bytes → Option GitRawTarget
unfolding raw_target
parse_git_raw_spec raw = raw_target (cut (trim_space raw) (codes "/"))

-- the errors that the diff backend returns by name
abbrev pub git_diff_too_large : Bytes
git_diff_too_large = codes "git diff output exceeded size limit"

abbrev pub git_diff_no_merge_base : Bytes
git_diff_no_merge_base = codes "git diff revisions do not share a merge base"

-- `errors.Is` on the two errors of the diff
unfoldable pub write_diff_error : Error → Writer → Writer
write_diff_error (other message) w =
    if message == git_diff_too_large
    then http_error (codes "git diff is too large") 413 w
    else if message == git_diff_no_merge_base
    then http_error (codes "diff revisions do not share a merge base") 409 w
    else http_error (codes "Internal Server Error") 500 w
write_diff_error _ w = http_error (codes "Internal Server Error") 500 w

module _ {S : Type 0} (authorize : AuthorizeGitAccessInput → S → Result (GitAccessGrant × S)) where
  -- `gitDiffHandler`
  unfoldable pub git_diff_handler :
      GitDiffKind → (GitDiffTarget → Backend S) → GitRequest → Writer → S → Writer × S
  unfolding git_handler write_diff_error
  git_diff_handler kind backend r w s =
      git_handler authorize (codes "diff revision is invalid") (λ target. git_operation_read)
        write_diff_error backend r w s (parse_repo_control_id r.repo_id)
        (parse_git_diff_spec kind r.spec)

  -- `gitRawHandler`
  unfoldable pub git_raw_handler : (GitRawTarget → Backend S) → GitRequest → Writer → S → Writer × S
  unfolding git_handler
  git_raw_handler backend r w s =
      git_handler authorize (codes "raw file spec is invalid") (λ target. git_operation_read)
        internal_error backend r w s (parse_repo_control_id r.repo_id) (parse_git_raw_spec r.spec)
