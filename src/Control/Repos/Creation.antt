-- ===== src/Control/Repos/Creation.antt =====
-- What POST /v1/repos accepts (internal/http/repos.go).
use gitrdone.Common.{
  ◌≡◌, refl, sym, ap, ◌∙◌, subst, not, some, [], ◌==◌, nat_eq, list_eq, if◌then◌else◌,
}
use gitrdone.Control.{accept, or_reject}
use gitrdone.Control.Repos.{CreateRepoRequest, check_create_repo, check_named, default_to_main}
use gitrdone.Control.Checks.{
  >>=-accept, ensure-accept, ensure_no_error-accept, or_reject-accept, accept-injective,
}
use gitrdone.Http.{JsonBody, decode_json}
use gitrdone.Repository.{CreateRepoInput}
use gitrdone.Text.{Bytes, codes, trim_space}
use gitrdone.Validation.{validate_repo_slug, validate_default_branch}
use gitrdone.Validation.Branch.{IsRefName, validate_default_branch-IsRefName}
use gitrdone.Validation.Slug.{IsSlug, validate_repo_slug_iff}

-- What is known of a request that passed the checks: both names are slugs and the branch keeps
-- the rules of `IsRefName`; it is `main` if none was asked for.
pub record IsAccepted (body : JsonBody CreateRepoRequest) (input : CreateRepoInput) : Type 0 where
  pub request : CreateRepoRequest
  pub decoded : decode_json body ≡ some request
  pub namespace_is : input.namespace ≡ trim_space request.namespace
  pub name_is : input.name ≡ trim_space request.name
  pub namespace : IsSlug input.namespace
  pub name : IsSlug input.name
  pub branch : IsRefName input.default_branch
  pub branch_is : input.default_branch ≡ (
      if trim_space request.default_branch == []
      then codes "main"
      else trim_space request.default_branch)

check_named-eq-accept :
    (namespace name branch : Bytes) (input : CreateRepoInput)
    → check_named namespace name branch ≡ accept input
    → IsSlug namespace
      × IsSlug name
      × IsRefName branch
      × (record { namespace = namespace; name = name; default_branch = branch } ≡ input)
unfolding check_named
check_named-eq-accept namespace name branch input h =
    let (_, h1) = ensure-accept (not (namespace == [])) _ _ _ h in
    let (space, h2) =
      ensure_no_error-accept (validate_repo_slug (codes "namespace") namespace) _ _ h1 in
    let (_, h3) = ensure-accept (not (name == [])) _ _ _ h2 in
    let (own, h4) = ensure_no_error-accept (validate_repo_slug (codes "name") name) _ _ h3 in
    let (main, h5) = ensure_no_error-accept (validate_default_branch branch) _ _ h4 in
    (
      (validate_repo_slug_iff (codes "namespace") namespace).0 space,
      (validate_repo_slug_iff (codes "name") name).0 own,
      validate_default_branch-IsRefName branch main,
      accept-injective h5,
    )

default_to_main_lem :
    (branch : Bytes) → default_to_main branch ≡ (if branch == [] then codes "main" else branch)
unfolding default_to_main
default_to_main_lem branch = refl

-- An accepted request to create a repo is valid JSON and gives, trimmed, two slugs and a branch name
-- that keeps the rules of `IsRefName`, which is `main` if no branch is asked for.
pub check_create_repo-IsAccepted :
    (body : JsonBody CreateRepoRequest) (input : CreateRepoInput)
    → check_create_repo body ≡ accept input
    → IsAccepted body input
unfolding check_create_repo
check_create_repo-IsAccepted body input h =
    let (request, decoded, h1) = >>=-accept (or_reject (decode_json body) 400 _) _ h in
    let (space, own, main, same) =
      check_named-eq-accept (trim_space request.namespace) (trim_space request.name)
        (default_to_main (trim_space request.default_branch)) input h1 in
    let space_is = ap (λ (i : CreateRepoInput). i.namespace) (sym same) in
    let name_is = ap (λ (i : CreateRepoInput). i.name) (sym same) in
    let branch_is = ap (λ (i : CreateRepoInput). i.default_branch) (sym same) in
    record {
      request = request;
      decoded = or_reject-accept (decode_json body) _ _ decoded;
      namespace_is = space_is;
      name_is = name_is;
      namespace = subst IsSlug (sym space_is) space;
      name = subst IsSlug (sym name_is) own;
      branch = subst IsRefName (sym branch_is) main;
      branch_is = branch_is ∙ default_to_main_lem (trim_space request.default_branch);
    }
