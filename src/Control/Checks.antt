-- ===== src/Control/Checks.antt =====
-- Inversion of the checks that the control handlers make (internal/http/tokens.go, repos.go).
use gitrdone.Common.{
  ℕ, ◌≡◌, refl, Bool, true, false, not, Option, none, some, [], ◌∷◌, ◌==◌, nat_eq, list_eq,
}
use gitrdone.Control.{
  Check, accept, reject, ◌>>=◌, ◌>>◌, ensure, ensure_no_error, or_reject, repo_id_from_path,
}
use gitrdone.Ids.{is_canonical_uuid, parse_repo_control_id, format_repo_control_id}
use gitrdone.Ids.RoundTrip.{parse_repo_control_id_iff}
use gitrdone.Text.{Bytes, trim_space}

pub >>=-accept :
    {A B : Type 0} (m : Check A) (f : A → Check B) {b : B}
    → (m >>= f) ≡ accept b
    → (a : A) × (m ≡ accept a) × (f a ≡ accept b)
>>=-accept (accept a) f h = (a, refl, h)
>>=-accept (reject s m) f h = cc

pub ensure-accept :
    {B : Type 0} (b : Bool) (status : ℕ) (message : Bytes) (k : Check B) {a : B}
    → (ensure b status message >> k) ≡ accept a
    → (b ≡ true) × (k ≡ accept a)
ensure-accept true status message k h = (refl, h)
ensure-accept false status message k h = (cc, cc)

pub ensure_no_error-accept :
    {B : Type 0} (error : Bytes) (status : ℕ) (k : Check B) {a : B}
    → (ensure_no_error error status >> k) ≡ accept a
    → (error ≡ []) × (k ≡ accept a)
ensure_no_error-accept [] status k h = (refl, h)
ensure_no_error-accept (c ∷ error) status k h = (cc, cc)

pub or_reject-accept :
    {A : Type 0} (o : Option A) (status : ℕ) (message : Bytes) {a : A}
    → or_reject o status message ≡ accept a
    → o ≡ some a
or_reject-accept (some a) status message h = cc
or_reject-accept none status message h = cc

pub repo_id_from_path-accept :
    (path id : Bytes)
    → repo_id_from_path path ≡ accept id
    → (trim_space (trim_space path) ≡ format_repo_control_id id) × (is_canonical_uuid id ≡ true)
unfolding repo_id_from_path
repo_id_from_path-accept path id h =
    let (_, k) = ensure-accept (not (trim_space path == [])) _ _ _ h in
    (parse_repo_control_id_iff (trim_space path) id).0
      (or_reject-accept (parse_repo_control_id (trim_space path)) _ _ k)

pub accept-injective : {A : Type 0} {a b : A} → accept a ≡ accept b → a ≡ b
accept-injective h = cc
