-- ===== src/Control/Auth.antt =====
-- Who reaches the control handlers.
use gitrdone.Common.{
  ◌≡◌, ◌≢◌, refl, ap, ◌∙◌, inl, inr, not, Option, none, some, [], ◌++◌, ◌==◌, ◌&&◌, if◌then◌else◌,
  ==_iff, ==_self, ==_ne, nat_eq, list_eq, arith, Bool-cases,
}
use gitrdone.Control.{auth_cut, control_auth}
use gitrdone.Http.{Response, write_status}
use gitrdone.Text.{Bytes, codes, cut_prefix}
use gitrdone.Text.Cut.{cut_prefix-append, cut_prefix-eq-some}

-- the header that a holder of the control token sends
abbrev pub bearer : Bytes → Bytes
bearer token = codes "Bearer " ++ token

module _ {A S : Type 0} (expected authorization : Bytes) (next : S → Response A × S)
    (state : S) where
  auth_cut-other :
      (o : Option Bytes)
      → ((got : Bytes) → o ≡ some got → got ≢ expected)
      → auth_cut expected next state o ≡ (write_status 401, state)
  unfolding auth_cut
  auth_cut-other none h = refl
  auth_cut-other (some got) h = let other = ==_ne got expected (h got refl) in ground arith

  auth_cut-empty :
      expected ≡ []
      → (o : Option Bytes) → auth_cut expected next state o ≡ (write_status 401, state)
  unfolding auth_cut
  auth_cut-empty e none = refl
  auth_cut-empty e (some got) = let empty = (==_iff expected []).1 e in ground arith

  -- A request reaches a control handler exactly with `Bearer ` and the control token as its
  -- Authorization header, if the token is not empty; otherwise the response is 401, and the handler
  -- does not run.
  pub control_auth_lem : control_auth expected authorization next state ≡ (
      if authorization == bearer expected && not (expected == [])
      then next state
      else (write_status 401, state))
  unfolding control_auth
  control_auth_lem = elim (Bool-cases (expected == [])) [
    | inl empty ↦
        auth_cut-empty ((==_iff expected []).0 empty) (cut_prefix authorization (codes "Bearer "))
        ∙ ground (arith, empty)
    | inr filled ↦ elim (Bool-cases (authorization == bearer expected)) [
      | inl same ↦
          (let cut =
              ap (λ a. cut_prefix a (codes "Bearer "))
                ((==_iff authorization (bearer expected)).0 same)
              ∙ cut_prefix-append (codes "Bearer ") expected in
            ap (auth_cut expected next state) cut ∙ rw (same, filled, ==_self expected) refl)
      | inr other ↦
          auth_cut-other (cut_prefix authorization (codes "Bearer ")) (λ got e same.
            let whole = cut_prefix-eq-some authorization (codes "Bearer ") e ∙ ap bearer same in
            cc (other, (==_iff authorization (bearer expected)).1 whole))
          ∙ rw other refl
    ]
  ]
