-- ===== src/Memory/Minting.antt =====
-- A token that was just made, presented to the store of internal/http/repository.go.
use gitrdone.Common.{◌≡◌, sym, ap, ◌∙◌, subst, inl, inr, none, some, length, arith, nat_eq, list_eq}
use gitrdone.Common.Dict.{lookup, lookup-insert_self}
use gitrdone.Common.Int.{◌<ℤ◌}
use gitrdone.Memory.{
  World, add_token, put_token, stored_token, create_repo_token, authorize_git_access,
}
use gitrdone.Memory.Access.{Allows, used, authorize-of_MayAccess}
use gitrdone.Memory.Creation.{AddsToken, create_repo_token-cases}
use gitrdone.Memory.Invariant.{Inv, add_token-Inv}
use gitrdone.Repository.{
  CreateRepoTokenInput, GitOperation, GitStorage, RepoRecord, RepoTokenRecord,
}
use gitrdone.Result.{ok, ok-injective}
use gitrdone.Text.{Bytes}
use gitrdone.Time.{Time, zero_time}

module _ {Files : Type 0} (storage : GitStorage Files) (sha256 : Bytes → Bytes) where
  AddsToken-grants :
      (input : CreateRepoTokenInput) (now at : Time) (w w' : World Files) (r : RepoRecord)
      (t : RepoTokenRecord) (operation : GitOperation) (path : Bytes) (files : Files)
      → Inv w.store
      → AddsToken sha256 input now w r t w'
      → lookup t.id w.store.tokens ≡ none
      → r.archived_at ≡ zero_time
      → at <ℤ t.expires_at
      → Allows input.scope operation
      → storage.bare_repo_path files input.repo_id ≡ ok path
      → authorize_git_access storage sha256
          (record { repo_id = input.repo_id; token = t.token; operation = operation })
          at
          files
          w'.store
        ≡ ok (
          record { repo_id = input.repo_id; repo_path = path; subject = t.subject },
          put_token (used at (stored_token t)) w'.store,
        )
  AddsToken-grants input now at w w' r t operation path files v a fresh active early allows
        has_path =
      let own = a.of_repo ∙ v.repo_id input.repo_id r a.repo in
      let v' =
        add_token-Inv v t fresh a.new_hash (r, ap (λ i. lookup i w.store.repos) own ∙ a.repo) in
      subst
        (λ s.
          authorize_git_access storage sha256
            (record { repo_id = input.repo_id; token = t.token; operation = operation }) at files s
          ≡ ok (
            record { repo_id = input.repo_id; repo_path = path; subject = t.subject },
            put_token (used at (stored_token t)) s,
          ))
        (sym a.store_is)
        (authorize-of_MayAccess storage sha256 (add_token t w.store)
          (record { repo_id = input.repo_id; token = t.token; operation = operation }) at files r
          (stored_token t) path v'
          (record {
            repo = a.repo;
            active = active;
            presented = λ e. omega (arith, a.text_length, ap length e);
            stored = lookup-insert_self t.id (stored_token t) w.store.tokens;
            hashed = a.hashed;
            of_repo = own;
            unrevoked = a.unrevoked;
            unexpired = early;
            allowed = subst (λ scope. Allows scope operation) (sym a.scope_is) allows;
          })
          has_path)

  -- A token just made for an active repo, under an id that was not in use, opens that repo until it
  -- expires for every operation that the scope asked for allows, if the repo's storage is there; the
  -- grant names the subject asked for.
  pub create_repo_token-authorize :
      (input : CreateRepoTokenInput) (now at : Time) (w : World Files) (r : RepoRecord)
      (t : RepoTokenRecord) (operation : GitOperation) (path : Bytes) (files : Files)
      → Inv w.store
      → (create_repo_token sha256 input now w).0 ≡ ok t
      → lookup t.id w.store.tokens ≡ none
      → lookup input.repo_id w.store.repos ≡ some r
      → r.archived_at ≡ zero_time
      → at <ℤ t.expires_at
      → Allows input.scope operation
      → storage.bare_repo_path files input.repo_id ≡ ok path
      → let s = (create_repo_token sha256 input now w).1.store in
        authorize_git_access storage sha256
          (record { repo_id = input.repo_id; token = t.token; operation = operation })
          at
          files
          s
        ≡ ok (
          record { repo_id = input.repo_id; repo_path = path; subject = input.subject },
          put_token (used at (stored_token t)) s,
        )
  create_repo_token-authorize input now at w r t operation path files v e fresh found active early
        allows has_path =
      elim (create_repo_token-cases sha256 input now w) [
        | inl ((x, failed), _) ↦ absurd cc
        | inr (q, made, is_made, adds) ↦
            (let is_t : made ≡ t = ok-injective (sym is_made ∙ e) in
              let a =
                subst
                  (λ x. AddsToken sha256 input now w q x (create_repo_token sha256 input now w).1)
                  is_t adds in
              let is_r : r ≡ q = ground (arith, found, a.repo) in
              AddsToken-grants input now at w (create_repo_token sha256 input now w).1 q t operation
                path files v a fresh (ap (λ (x : RepoRecord). x.archived_at) (sym is_r) ∙ active)
                early allows has_path
              ∙ ap
                  (λ subject. ok (
                    record { repo_id = input.repo_id; repo_path = path; subject = subject },
                    put_token (used at (stored_token t))
                        (create_repo_token sha256 input now w).1.store,
                  ))
                  a.subject_is)
      ]
