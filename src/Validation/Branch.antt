-- ===== src/Validation/Branch.antt =====
-- `validateDefaultBranch` (internal/http/validation.go) and the branch names of git.
use gitrdone.Common.{
  ℕ, ◌≤◌, ◌≡◌, ◌≢◌, ◌⊎◌, sym, ap, ◌∙◌, subst, Bool, true, false, List, [], ◌∷◌, ◌++◌, append_assoc,
  length, All, All-append_left, All-append_right, arith, nat_eq, list_eq, ==_iff,
}
use gitrdone.Text.{Bytes, codes, has_prefix, has_suffix, contains, split, grow_head}
use gitrdone.Text.Cut.{has_prefix-append, has_suffix-append, contains-append}
use gitrdone.Text.Split.{split-append, split_last}
use gitrdone.Validation.{
  scan_chars, scan_parts, branch_char, branch_error, bad_branch_part, validate_default_branch,
}
use gitrdone.Validation.Slug.{IsAlnum}

-- A letter, a digit, or one of `-./_`.
abbrev pub IsBranchChar : ℕ → Type 0
IsBranchChar c = IsAlnum c ⊎ ((c ≡ 45) ⊎ ((c ≡ 46) ⊎ ((c ≡ 47) ⊎ (c ≡ 95))))

branch_char-IsBranchChar : (c : ℕ) → branch_char c ≡ true → IsBranchChar c
unfolding branch_char
branch_char-IsBranchChar c h = ground arith

scan_chars-IsBranchChar :
    (value : Bytes) → scan_chars branch_char branch_error value ≡ [] → All IsBranchChar value
unfolding scan_chars
scan_chars-IsBranchChar [] h = tt
scan_chars-IsBranchChar (c ∷ value) h =
    ground (arith, branch_char-IsBranchChar c, scan_chars-IsBranchChar value)

-- The rules of `git check-ref-format` on the components of a reference name, for a name of these
-- characters: no empty component, none that begins with a dot or ends in `.lock`, no `..`, and no
-- dot at the end. What `--branch` adds to them is left out: a dash in front and the name `HEAD` pass.
pub record IsRefName (value : Bytes) : Type 0 where
  pub nonempty : 1 ≤ length value
  pub short : length value ≤ 128
  pub chars : All IsBranchChar value
  pub no_slash_first : (b : Bytes) → value ≢ b'/' ∷ b
  pub no_slash_last : (a : Bytes) → value ≢ a ++ codes "/"
  pub no_dot_last : (a : Bytes) → value ≢ a ++ codes "."
  pub no_empty_component : (a b : Bytes) → value ≢ a ++ (codes "//" ++ b)
  pub no_double_dot : (a b : Bytes) → value ≢ a ++ (codes ".." ++ b)
  pub no_dot_first : (b : Bytes) → value ≢ b'.' ∷ b
  pub no_component_dot_first : (a b : Bytes) → value ≢ a ++ (codes "/." ++ b)
  pub no_lock_last : (a : Bytes) → value ≢ a ++ codes ".lock"
  pub no_component_lock_last : (a b : Bytes) → value ≢ a ++ (codes ".lock/" ++ b)

record Passed (value : Bytes) : Type 0 where
  nonempty : 1 ≤ length value
  short : length value ≤ 128
  slash_first : has_prefix value (codes "/") ≡ false
  slash_last : has_suffix value (codes "/") ≡ false
  dot_last : has_suffix value (codes ".") ≡ false
  double_slash : contains value (codes "//") ≡ false
  double_dot : contains value (codes "..") ≡ false
  parts : All (λ part. bad_branch_part part ≡ false) (split value b'/')
  chars : All IsBranchChar value

scan_parts-All :
    (parts : List Bytes) (after : Bytes)
    → scan_parts parts after ≡ []
    → All (λ part. bad_branch_part part ≡ false) parts × (after ≡ [])
unfolding scan_parts
scan_parts-All [] after h = (tt, h)
scan_parts-All (part ∷ parts) after h = ground (arith, scan_parts-All parts after)

validate_default_branch-Passed : (value : Bytes) → validate_default_branch value ≡ [] → Passed value
unfolding validate_default_branch
validate_default_branch-Passed value h = ground (
  arith,
  scan_parts-All (split value b'/') (scan_chars branch_char branch_error value),
  scan_chars-IsBranchChar value,
)

abbrev AllGood : List Bytes → Type 0
AllGood = All (λ part. bad_branch_part part ≡ false)

bad_dot_first : (part : Bytes) → bad_branch_part (b'.' ∷ part) ≡ true
unfolding bad_branch_part
bad_dot_first part = ground (arith, has_prefix-append (codes ".") part, ==_iff (b'.' ∷ part) [])

bad_lock_last : (part : Bytes) → bad_branch_part (part ++ codes ".lock") ≡ true
unfolding bad_branch_part
bad_lock_last part = ground (arith, has_suffix-append part (codes ".lock"))

split_dot : (b : Bytes) → ¬ AllGood (split (b'.' ∷ b) b'/')
unfolding split
split_dot b h = go (split b b'/') h
  where
    go : (parts : List Bytes) → ¬ AllGood (grow_head b'.' parts)
    go [] g = ground (arith, bad_dot_first [])
    go (part ∷ parts) g = ground (arith, bad_dot_first part)

split_lock : (a : Bytes) → ¬ AllGood (split (a ++ codes ".lock") b'/')
split_lock a h =
    let r = split_last a b'/' in
    let last =
      All-append_right _ r.front _ (subst AllGood (r.grows (codes ".lock") (omega arith)) h) in
    ground (arith, bad_lock_last r.last)

split_component_dot : (a b : Bytes) → ¬ AllGood (split (a ++ (codes "/." ++ b)) b'/')
split_component_dot a b h =
    split_dot b
      (All-append_right _ (split a b'/') _ (subst AllGood (split-append a (b'.' ∷ b) b'/') h))

split_component_lock : (a b : Bytes) → ¬ AllGood (split (a ++ (codes ".lock/" ++ b)) b'/')
split_component_lock a b h = split_lock a (
    All-append_left _ (split (a ++ codes ".lock") b'/') (split b b'/') (
      subst AllGood
        (ap (λ s. split s b'/') (sym (append_assoc a (codes ".lock") (b'/' ∷ b)))
          ∙ split-append (a ++ codes ".lock") b b'/')
        h))

-- A test that failed on the whole value fails on the value written another way.
refutes :
    (test : Bytes → Bool) (value other : Bytes)
    → test value ≡ false
    → test other ≡ true
    → value ≢ other
refutes test value other failed passed e = ground (arith, ap test e)

-- an accepted branch keeps the rules
pub validate_default_branch-IsRefName :
    (value : Bytes) → validate_default_branch value ≡ [] → IsRefName value
validate_default_branch-IsRefName value h =
    let p = validate_default_branch-Passed value h in
    record {
      nonempty = p.nonempty;
      short = p.short;
      chars = p.chars;
      no_slash_first = λ b.
          refutes (λ v. has_prefix v (codes "/")) value _ p.slash_first
            (has_prefix-append (codes "/") b);
      no_slash_last = λ a.
          refutes (λ v. has_suffix v (codes "/")) value _ p.slash_last
            (has_suffix-append a (codes "/"));
      no_dot_last = λ a.
          refutes (λ v. has_suffix v (codes ".")) value _ p.dot_last
            (has_suffix-append a (codes "."));
      no_empty_component = λ a b.
          refutes (λ v. contains v (codes "//")) value _ p.double_slash
            (contains-append a (codes "//") b);
      no_double_dot = λ a b.
          refutes (λ v. contains v (codes "..")) value _ p.double_dot
            (contains-append a (codes "..") b);
      no_dot_first = λ b e. split_dot b (subst (λ v. AllGood (split v b'/')) e p.parts);
      no_component_dot_first =
          λ a b e. split_component_dot a b (subst (λ v. AllGood (split v b'/')) e p.parts);
      no_lock_last = λ a e. split_lock a (subst (λ v. AllGood (split v b'/')) e p.parts);
      no_component_lock_last =
          λ a b e. split_component_lock a b (subst (λ v. AllGood (split v b'/')) e p.parts);
    }
