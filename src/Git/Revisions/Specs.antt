-- ===== src/Git/Revisions/Specs.antt =====
-- Which revisions, diffs and files the read-only Git routes take.
use gitrdone.Common.{
  ℕ, ◌≤◌, ◌≡◌, ◌≢◌, refl, sym, ap, ◌∙◌, subst, ◌⊎◌, inl, inr, ◌↔◌, true, false, Option, none, some,
  List, [], ◌∷◌, ◌++◌, length, length-append, All, arith, nat_eq, list_eq, ==_iff, ==_ne,
  Bool-cases,
}
use gitrdone.Git.Revisions.{
  hex_chars, is_git_object_id, GitDiffKind, git_diff_show, git_diff_compare, GitDiffTarget,
  show_target, compare_target, diff_separator, diff_target, diff_suffixed, parse_git_diff_spec,
  GitRawTarget, clean_segments, raw_target, parse_git_raw_spec,
}
use gitrdone.Ids.{is_lower_hex_digit}
use gitrdone.Text.{
  Bytes, codes, contains, cut, cut_prefix, cut_suffix, has_prefix, split, trim_space,
}
use gitrdone.Text.Cut.{
  contains-append, cut-append, cut-eq-some, cut_prefix-cons-ne, cut_suffix-append,
  cut_suffix-eq-some,
}

-- `0` to `9`, or `a` to `f`
abbrev pub IsHexDigit : ℕ → Type 0
IsHexDigit c = ((48 ≤ c) × (c ≤ 57)) ⊎ ((97 ≤ c) × (c ≤ 102))

-- An object id, whole or abbreviated.
pub record IsObjectId (value : Bytes) : Type 0 where
  pub long : 7 ≤ length value
  pub short : length value ≤ 64
  pub digits : All IsHexDigit value

is_lower_hex_digit_iff : (c : ℕ) → (is_lower_hex_digit c ≡ true) ↔ IsHexDigit c
unfolding is_lower_hex_digit
is_lower_hex_digit_iff c = (λ h. ground arith, λ h. ground arith)

hex_chars-IsHexDigit : (v : Bytes) → hex_chars v ≡ true → All IsHexDigit v
unfolding hex_chars
hex_chars-IsHexDigit [] h = tt
hex_chars-IsHexDigit (c ∷ v) h = ground (arith, is_lower_hex_digit_iff c, hex_chars-IsHexDigit v)

hex_chars-of_IsHexDigit : (v : Bytes) → All IsHexDigit v → hex_chars v ≡ true
unfolding hex_chars
hex_chars-of_IsHexDigit [] h = refl
hex_chars-of_IsHexDigit (c ∷ v) h =
    ground (arith, (is_lower_hex_digit_iff c).1 h.0, hex_chars-of_IsHexDigit v h.1)

-- A text is taken for an object id exactly if it is 7 to 64 lower-case hex digits: so none begins
-- with a dash, as an option of git does.
pub is_git_object_id_iff : (value : Bytes) → (is_git_object_id value ≡ true) ↔ IsObjectId value
unfolding is_git_object_id
is_git_object_id_iff value = (
  λ h. record {
    long = ground arith;
    short = ground arith;
    digits = ground (arith, hex_chars-IsHexDigit value);
  },
  λ i. ground (arith, hex_chars-of_IsHexDigit value i.digits, i.long, i.short),
)

IsHexDigit-no_dot : (v : Bytes) → All IsHexDigit v → All (λ c. c ≢ 46) v
IsHexDigit-no_dot [] h = tt
IsHexDigit-no_dot (c ∷ v) h = (λ e. ground (arith, h.0), IsHexDigit-no_dot v h.1)

IsHexDigit-no_slash : (v : Bytes) → All IsHexDigit v → All (λ c. c ≢ 47) v
IsHexDigit-no_slash [] h = tt
IsHexDigit-no_slash (c ∷ v) h = (λ e. ground (arith, h.0), IsHexDigit-no_slash v h.1)

-- `..` or `...`
pub data IsSeparator : Bytes → Type 0 where
  endpoints : {s : Bytes} → s ≡ codes ".." → IsSeparator s
  merge_base : {s : Bytes} → s ≡ codes "..." → IsSeparator s

-- What a diff request names: one commit, or two around a separator. Every revision is an object id,
-- and the argument for git is made of the revisions alone.
pub data IsDiffTarget (spec : Bytes) : GitDiffKind → GitDiffTarget → Type 0 where
  shows :
      {target : GitDiffTarget}
      → IsObjectId spec
      → target ≡ record { kind = git_diff_show; revspec = spec; revs = spec ∷ [] }
      → IsDiffTarget spec git_diff_show target
  compares :
      {target : GitDiffTarget} (base separator head : Bytes)
      → IsObjectId base
      → IsSeparator separator
      → IsObjectId head
      → spec ≡ base ++ (separator ++ head)
      → target ≡ record { kind = git_diff_compare; revspec = spec; revs = base ∷ head ∷ [] }
      → IsDiffTarget spec git_diff_compare target

has_prefix-cons-ne : (c d : ℕ) (s p : Bytes) → c ≢ d → has_prefix (c ∷ s) (d ∷ p) ≡ false
unfolding has_prefix
has_prefix-cons-ne c d s p h = rw (cut_prefix-cons-ne c d s p h) refl

contains-no_dot : (v : Bytes) → All (λ c. c ≢ 46) v → contains v (codes "...") ≡ false
unfolding contains
contains-no_dot [] h = unfold has_prefix cut_prefix in refl
contains-no_dot (c ∷ v) h = rw (has_prefix-cons-ne c 46 v _ h.0, contains-no_dot v h.1) refl

has_prefix-two_dots :
    (v : Bytes) → All (λ c. c ≢ 46) v → has_prefix (46 ∷ 46 ∷ v) (codes "...") ≡ false
unfolding has_prefix cut_prefix
has_prefix-two_dots [] h = refl
has_prefix-two_dots (c ∷ v) h = ground (arith, ==_iff c 46, h.0)

has_prefix-one_dot : (v : Bytes) → All (λ c. c ≢ 46) v → has_prefix (46 ∷ v) (codes "...") ≡ false
unfolding has_prefix cut_prefix
has_prefix-one_dot [] h = refl
has_prefix-one_dot (c ∷ v) h = ground (arith, ==_iff c 46, h.0)

contains-two_dots :
    (a b : Bytes)
    → All (λ c. c ≢ 46) a
    → All (λ c. c ≢ 46) b
    → contains (a ++ (codes ".." ++ b)) (codes "...") ≡ false
unfolding contains
contains-two_dots [] b h k =
    rw (has_prefix-two_dots b k, has_prefix-one_dot b k, contains-no_dot b k) refl
contains-two_dots (c ∷ a) b h k =
    rw (has_prefix-cons-ne c 46 _ _ h.0, contains-two_dots a b h.1 k) refl

diff_separator-IsSeparator : (spec : Bytes) → IsSeparator (diff_separator spec)
diff_separator-IsSeparator spec = elim (Bool-cases (contains spec (codes "..."))) [
  | inl three ↦ rw three (merge_base refl)
  | inr two ↦ rw two (endpoints refl)
]

-- the separator that is found between two object ids
diff_separator-between :
    (base separator head : Bytes)
    → IsObjectId base
    → IsSeparator separator
    → IsObjectId head
    → diff_separator (base ++ (separator ++ head)) ≡ separator
diff_separator-between base separator head b (endpoints e) h =
    rw
      (
        e,
        contains-two_dots base head (IsHexDigit-no_dot base b.digits)
            (IsHexDigit-no_dot head h.digits),
      )
      refl
diff_separator-between base separator head b (merge_base e) h =
    rw (e, contains-append base (codes "...") head) refl

compare_target-IsDiffTarget :
    (spec separator : Bytes) (o : Option (Bytes × Bytes)) (target : GitDiffTarget)
    → IsSeparator separator
    → cut spec separator ≡ o
    → compare_target separator o ≡ some target
    → IsDiffTarget spec git_diff_compare target
unfolding compare_target
compare_target-IsDiffTarget spec separator none target s e h = absurd cc
compare_target-IsDiffTarget spec separator (some (base, head)) target s e h =
    let parts = cut-eq-some spec separator e in
    compares base separator head ((is_git_object_id_iff base).0 (ground arith)) s
      ((is_git_object_id_iff head).0 (ground arith)) parts (ground (arith, parts))

diff_target-IsDiffTarget :
    (kind : GitDiffKind) (spec : Bytes) (target : GitDiffTarget)
    → diff_target kind spec ≡ some target
    → IsDiffTarget spec kind target
unfolding diff_target show_target
diff_target-IsDiffTarget git_diff_show spec target h =
    shows ((is_git_object_id_iff spec).0 (ground arith)) (ground arith)
diff_target-IsDiffTarget git_diff_compare spec target h =
    compare_target-IsDiffTarget spec (diff_separator spec) (cut spec (diff_separator spec)) target
      (diff_separator-IsSeparator spec) refl h

cut-separator :
    (base separator head : Bytes)
    → IsObjectId base
    → IsSeparator separator
    → cut (base ++ (separator ++ head)) separator ≡ some (base, head)
cut-separator base separator head b (endpoints e) =
    rw e (cut-append base 46 (codes ".") head (IsHexDigit-no_dot base b.digits))
cut-separator base separator head b (merge_base e) =
    rw e (cut-append base 46 (codes "..") head (IsHexDigit-no_dot base b.digits))

diff_target-of_IsDiffTarget :
    (kind : GitDiffKind) (spec : Bytes) (target : GitDiffTarget)
    → IsDiffTarget spec kind target
    → diff_target kind spec ≡ some target
unfolding diff_target show_target compare_target
diff_target-of_IsDiffTarget git_diff_show spec target (shows i e) =
    rw ((is_git_object_id_iff spec).1 i) (ap some (sym e))
diff_target-of_IsDiffTarget git_diff_compare spec target (compares base separator head b s h e t) =
    rw
      (
        e,
        diff_separator-between base separator head b s h,
        cut-separator base separator head b s,
        (is_git_object_id_iff base).1 b,
        (is_git_object_id_iff head).1 h,
      )
      (ground (arith, t, e))

IsDiffTarget-nonempty :
    (kind : GitDiffKind) (spec : Bytes) (target : GitDiffTarget)
    → IsDiffTarget spec kind target
    → spec ≢ []
IsDiffTarget-nonempty git_diff_show spec target (shows i e) empty =
    omega (arith, i.long, ap length empty)
IsDiffTarget-nonempty git_diff_compare spec target (compares base separator head b s h e t) empty =
    omega (arith, b.long, length-append base (separator ++ head), ap length (sym e ∙ empty))

diff_suffixed-eq-some :
    (kind : GitDiffKind) (o : Option Bytes) (target : GitDiffTarget)
    → diff_suffixed kind o ≡ some target
    → (spec : Bytes) × (o ≡ some spec) × IsDiffTarget spec kind target
unfolding diff_suffixed
diff_suffixed-eq-some kind none target h = absurd cc
diff_suffixed-eq-some kind (some spec) target h =
    (spec, refl, diff_target-IsDiffTarget kind spec target (ground arith))

-- A diff request is taken exactly if, trimmed, it is a spec and `.diff`, where the spec is one object
-- id to show, or two around `..` or `...` to compare; the argument for git is then the spec itself.
pub parse_git_diff_spec_iff :
    (kind : GitDiffKind) (raw : Bytes) (target : GitDiffTarget)
    → (parse_git_diff_spec kind raw ≡ some target)
      ↔ ((spec : Bytes) × (trim_space raw ≡ spec ++ codes ".diff") × IsDiffTarget spec kind target)
unfolding parse_git_diff_spec diff_suffixed
parse_git_diff_spec_iff kind raw target = (
  λ h.
      let (spec, suffixed, i) =
        diff_suffixed-eq-some kind (cut_suffix (trim_space raw) (codes ".diff")) target h in
      (spec, cut_suffix-eq-some (trim_space raw) (codes ".diff") suffixed, i),
  λ g.
      let filled = ==_ne g.0 [] (IsDiffTarget-nonempty kind g.0 target g.2) in
      rw (g.1, cut_suffix-append g.0 (codes ".diff"), filled)
        (diff_target-of_IsDiffTarget kind g.0 target g.2),
)

-- A segment of a path in a tree.
pub record IsSegment (segment : Bytes) : Type 0 where
  pub nonempty : segment ≢ []
  pub not_here : segment ≢ codes "."
  pub not_parent : segment ≢ codes ".."

clean_segments-All :
    (segments : List Bytes) → clean_segments segments ≡ true → All IsSegment segments
unfolding clean_segments
clean_segments-All [] h = tt
clean_segments-All (s ∷ segments) h = (
  record {
    nonempty = λ e. ground (arith, ==_iff s []);
    not_here = λ e. ground (arith, ==_iff s (codes "."));
    not_parent = λ e. ground (arith, ==_iff s (codes ".."));
  },
  clean_segments-All segments (ground arith),
)

clean_segments-of_All :
    (segments : List Bytes) → All IsSegment segments → clean_segments segments ≡ true
unfolding clean_segments
clean_segments-of_All [] h = refl
clean_segments-of_All (s ∷ segments) h =
    rw
      (
        ==_ne s [] (h.0).nonempty,
        ==_ne s (codes ".") (h.0).not_here,
        ==_ne s (codes "..") (h.0).not_parent,
      )
      (clean_segments-of_All segments h.1)

-- An object id, a slash, and a path whose segments are neither empty nor `.` nor `..`.
pub record IsRawTarget (spec : Bytes) (target : GitRawTarget) : Type 0 where
  pub rev : IsObjectId target.rev
  pub splits : spec ≡ target.rev ++ (codes "/" ++ target.path)
  pub path : target.path ≢ []
  pub segments : All IsSegment (split target.path b'/')

raw_target-IsRawTarget :
    (spec : Bytes) (o : Option (Bytes × Bytes)) (target : GitRawTarget)
    → cut spec (codes "/") ≡ o
    → raw_target o ≡ some target
    → IsRawTarget spec target
unfolding raw_target
raw_target-IsRawTarget spec none target e h = absurd cc
raw_target-IsRawTarget spec (some (rev, path)) target e h =
    let same : record { rev = rev; path = path } ≡ target = ground arith in
    subst (IsRawTarget spec) same (record {
      rev = (is_git_object_id_iff rev).0 (ground arith);
      splits = cut-eq-some spec (codes "/") e;
      path = λ empty. ground (arith, ==_iff path []);
      segments = clean_segments-All (split path b'/') (ground arith);
    })

-- A file request is taken exactly if, trimmed, it is an object id, a slash, and a path of segments
-- that are neither empty nor `.` nor `..`.
pub parse_git_raw_spec_iff :
    (raw : Bytes) (target : GitRawTarget)
    → (parse_git_raw_spec raw ≡ some target) ↔ IsRawTarget (trim_space raw) target
unfolding parse_git_raw_spec raw_target
parse_git_raw_spec_iff raw target = (
  λ h. raw_target-IsRawTarget (trim_space raw) (cut (trim_space raw) (codes "/")) target refl h,
  λ i.
      rw
        (
          i.splits,
          cut-append target.rev b'/' [] target.path (IsHexDigit-no_slash target.rev (i.rev).digits),
          (is_git_object_id_iff target.rev).1 i.rev,
          ==_ne target.path [] i.path,
          clean_segments-of_All (split target.path b'/') i.segments,
        )
        refl,
)
