-- ===== src/Control.antt =====
-- The control API: the checks that its handlers make in front of the store, its guard
-- (internal/http/auth.go) and the URL of a repo (internal/http/git_url.go).
pub mod Auth
pub mod Checks
pub mod Repos
pub mod Tokens
use gitrdone.Common.{
  ℕ, Bool, true, false, not, ◌||◌, Option, none, some, [], ◌∷◌, ◌++◌, ◌==◌, nat_eq, list_eq, eqb,
  if◌then◌else◌,
}
use gitrdone.Http.{Response, write_status}
use gitrdone.Ids.{format_repo_control_id, parse_repo_control_id}
use gitrdone.Text.{Bytes, codes, cut_prefix, trim_right, trim_space}

-- The checks of a request, in order: the first that fails gives the status and the message.
pub data Check (A : Type 0) : Type 0 where
  accept : A → Check A
  reject : ℕ → Bytes → Check A

infixl 5 ◌>>=◌ ◌>>◌
abbrev pub ◌>>=◌ : {A B : Type 0} → Check A → (A → Check B) → Check B
accept a >>= f = f a
reject status message >>= f = reject status message

abbrev pub ◌>>◌ : {B : Type 0} → Check (Unit {0}) → Check B → Check B
m >> k = m >>= λ _. k

abbrev pub ensure : Bool → ℕ → Bytes → Check (Unit {0})
ensure true status message = accept tt
ensure false status message = reject status message

-- a check that gives an error message, empty if it passes
abbrev pub ensure_no_error : Bytes → ℕ → Check (Unit {0})
ensure_no_error [] status = accept tt
ensure_no_error (c ∷ message) status = reject status (c ∷ message)

abbrev pub or_reject : {A : Type 0} → Option A → ℕ → Bytes → Check A
or_reject (some a) status message = accept a
or_reject none status message = reject status message

-- `repoIDFromPath`, and the same lines of the other handlers
unfoldable pub repo_id_from_path : Bytes → Check Bytes
repo_id_from_path path_value = do
  let raw = trim_space path_value
  ensure (not (raw == [])) 400 (codes "repo id is required")
  or_reject (parse_repo_control_id raw) 400 (codes "repo id is invalid")

-- `subtle.ConstantTimeCompare`
abbrev constant_time_compare : Bytes → Bytes → ℕ
constant_time_compare a b = if a == b then 1 else 0

auth_refused : {A S : Type 0} → S → Response A × S
auth_refused state = (write_status 401, state)

auth_cut : {A S : Type 0} → Bytes → (S → Response A × S) → S → Option Bytes → Response A × S
unfolding auth_refused
auth_cut expected next state none = auth_refused state
auth_cut expected next state (some got) =
    if got == [] || expected == []
    then auth_refused state
    else if not (eqb (constant_time_compare got expected) 1)
    then auth_refused state
    else next state

-- `controlAuth` on the Authorization header
unfoldable pub control_auth :
    {A S : Type 0} → Bytes → Bytes → (S → Response A × S) → S → Response A × S
unfolding auth_cut
control_auth expected authorization next state =
    auth_cut expected next state (cut_prefix authorization (codes "Bearer "))

-- `repoGitURL`
unfoldable pub repo_git_url : Bytes → Bytes → Bytes
unfolding trim_right
repo_git_url base_url repo_id =
    trim_right base_url (λ c. c == b'/')
    ++ (codes "/git/repos/" ++ (format_repo_control_id repo_id ++ codes ".git"))
