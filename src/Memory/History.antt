-- ===== src/Memory/History.antt =====
-- The store over time. The operations are serialised by the mutex, so a history is a sequence of
-- steps, in any order and with any inputs; between them anything may happen to the disk and the
-- random source.
use gitrdone.Common.{
  ◌≡◌, refl, sym, ap, ◌∙◌, subst, inl, inr, true, none, some, nat_eq, list_eq, Bool-cases,
}
use gitrdone.Common.Dict.{lookup}
use gitrdone.Memory.Access.{authorize_git_access_iff, used}
use gitrdone.Memory.Creation.{AddsRepo, AddsToken, create_repo-cases, create_repo_token-cases}
use gitrdone.Memory.Invariant.{
  Inv, new_memory_repo_store-Inv, add_repo-Inv, put_repo-Inv, add_token-Inv, put_token-Inv,
}
use gitrdone.Memory.{
  MemoryRepoStore, World, new_memory_repo_store, name_key, add_repo, put_repo, add_token, put_token,
  create_repo, archive_repo, archive_found, create_repo_token, revoke_repo_token, revoke_found,
  authorize_git_access,
}
use gitrdone.Repository.{
  CreateRepoInput, CreateRepoTokenInput, RevokeRepoTokenInput, AuthorizeGitAccessInput,
  GitAccessGrant, RepoRecord, RepoTokenRecord, GitStorage,
}
use gitrdone.Result.{
  repo_not_found, repo_token_not_found, ok, >>=-eq-ok, guard-eq-ok, or_fail, or_fail-eq-ok,
  ok-injective,
}
use gitrdone.Text.{Bytes}
use gitrdone.Time.{Time, is_zero}

module _ {Files : Type 0} (storage : GitStorage Files) (sha256 : Bytes → Bytes) where
  -- One operation. The two that draw an identifier are given one that is not in use: the program
  -- does not check this, it relies on 122 random bits.
  pub data Step (w w' : World Files) : Type 0 where
    creates :
        (input : CreateRepoInput)
        → ((r : RepoRecord) → AddsRepo input w r w' → lookup r.id w.store.repos ≡ none)
        → w' ≡ (create_repo storage input w).1
        → Step w w'
    archives :
        (id : Bytes) (now : Time) (r : RepoRecord)
        → archive_repo id now w.store ≡ ok (r, w'.store)
        → Step w w'
    mints :
        (input : CreateRepoTokenInput) (now : Time)
        → ((r : RepoRecord) (t : RepoTokenRecord)
            → AddsToken sha256 input now w r t w'
            → lookup t.id w.store.tokens ≡ none)
        → w' ≡ (create_repo_token sha256 input now w).1
        → Step w w'
    revokes :
        (input : RevokeRepoTokenInput) (now : Time) (t : RepoTokenRecord)
        → revoke_repo_token input now w.store ≡ ok (t, w'.store)
        → Step w w'
    uses :
        (input : AuthorizeGitAccessInput) (now : Time) (grant : GitAccessGrant)
        → authorize_git_access storage sha256 input now w.files w.store ≡ ok (grant, w'.store)
        → Step w w'
    -- lookups, listings and failed operations, and what happens outside
    outside : w'.store ≡ w.store → Step w w'

  pub data Steps (w : World Files) : World Files → Type 0 where
    here : Steps w w
    next : {u v : World Files} → Steps w u → Step u v → Steps w v

  -- What one operation does to the maps.
  pub data Change (s s' : MemoryRepoStore) : Type 0 where
    same : s' ≡ s → Change s s'
    new_repo :
        (r : RepoRecord)
        → lookup r.id s.repos ≡ none
        → lookup (name_key r.namespace r.name) s.by_name ≡ none
        → s' ≡ add_repo r s
        → Change s s'
    archived :
        (r : RepoRecord) (now : Time)
        → lookup r.id s.repos ≡ some r
        → is_zero r.archived_at ≡ true
        → s' ≡ put_repo (record r { archived_at = now }) s
        → Change s s'
    new_token :
        (r : RepoRecord) (t : RepoTokenRecord)
        → lookup t.repo_id s.repos ≡ some r
        → lookup t.id s.tokens ≡ none
        → lookup t.token_hash s.token_ids_by_hash ≡ none
        → s' ≡ add_token t s
        → Change s s'
    revoked :
        (t : RepoTokenRecord) (now : Time)
        → lookup t.id s.tokens ≡ some t
        → is_zero t.revoked_at ≡ true
        → s' ≡ put_token (record t { revoked_at = now }) s
        → Change s s'
    was_used :
        (t : RepoTokenRecord) (now : Time)
        → lookup t.id s.tokens ≡ some t
        → s' ≡ put_token (used now t) s
        → Change s s'

  pub archive-Change :
      (s s' : MemoryRepoStore) (id : Bytes) (now : Time) (r : RepoRecord)
      → Inv s
      → archive_repo id now s ≡ ok (r, s')
      → Change s s'
  unfolding archive_repo
  archive-Change s s' id now r v e =
      let (q, looked, h) = >>=-eq-ok (or_fail (lookup id s.repos) repo_not_found) _ e in
      let found = or_fail-eq-ok (lookup id s.repos) repo_not_found looked in
      let out = ap (λ (o : RepoRecord × MemoryRepoStore). o.1) (ok-injective h) in
      let own = v.repo_id id q found in
      elim (Bool-cases (is_zero q.archived_at)) [
        | inl fresh ↦
            let step : (archive_found q now s).1 ≡ put_repo (record q { archived_at = now }) s =
              rw (fresh, archive_found) refl in
            archived q now (ap (λ i. lookup i s.repos) own ∙ found) fresh (sym out ∙ step)
        | inr old ↦
            let step : (archive_found q now s).1 ≡ s = rw (old, archive_found) refl in
            same (sym out ∙ step)
      ]

  pub revoke-Change :
      (s s' : MemoryRepoStore) (input : RevokeRepoTokenInput) (now : Time) (t : RepoTokenRecord)
      → Inv s
      → revoke_repo_token input now s ≡ ok (t, s')
      → Change s s'
  unfolding revoke_repo_token
  revoke-Change s s' input now t v e =
      let (r, _, h) = >>=-eq-ok (or_fail (lookup input.repo_id s.repos) repo_not_found) _ e in
      let (q, looked, k) =
        >>=-eq-ok (or_fail (lookup input.token_id s.tokens) repo_token_not_found) _ h in
      let (_, l) = guard-eq-ok _ repo_token_not_found _ k in
      let found = or_fail-eq-ok (lookup input.token_id s.tokens) repo_token_not_found looked in
      let out = ap (λ (o : RepoTokenRecord × MemoryRepoStore). o.1) (ok-injective l) in
      let own = v.token_id input.token_id q found in
      elim (Bool-cases (is_zero q.revoked_at)) [
        | inl fresh ↦
            let step : (revoke_found q now s).1 ≡ put_token (record q { revoked_at = now }) s =
              rw (fresh, revoke_found) refl in
            revoked q now (ap (λ i. lookup i s.tokens) own ∙ found) fresh (sym out ∙ step)
        | inr old ↦
            let step : (revoke_found q now s).1 ≡ s = rw (old, revoke_found) refl in
            same (sym out ∙ step)
      ]

  pub Step-Change : {w w' : World Files} → Inv w.store → Step w w' → Change w.store w'.store
  Step-Change {w} {w'} v (creates input fresh e) = elim (create_repo-cases storage input w) [
    | inl (id, _, out) ↦ same (rw (e, out) refl)
    | inr (inl (_, kept)) ↦ same (rw e kept)
    | inr (inr (r, _, a)) ↦
        let b = subst (AddsRepo input w r) (sym e) a in
        new_repo r (fresh r b) (rw (b.namespace_is, b.name_is) b.unnamed) b.store_is
  ]
  Step-Change {w} {w'} v (archives id now r e) = archive-Change w.store w'.store id now r v e
  Step-Change {w} {w'} v (mints input now fresh e) =
      elim (create_repo_token-cases sha256 input now w) [
        | inl (_, kept) ↦ same (rw e kept)
        | inr (r, t, _, a) ↦
            let b = subst (AddsToken sha256 input now w r t) (sym e) a in
            new_token r t
              (ap (λ i. lookup i w.store.repos) (b.of_repo ∙ v.repo_id input.repo_id r b.repo)
                ∙ b.repo)
              (fresh r t b) b.new_hash b.store_is
      ]
  Step-Change {w} {w'} v (revokes input now t e) = revoke-Change w.store w'.store input now t v e
  Step-Change {w} {w'} v (uses input now grant e) =
      let g =
        (authorize_git_access_iff storage sha256 w.store input now w.files grant w'.store v).0 e in
      was_used g.token now g.may.stored g.store_is
  Step-Change v (outside e) = same e

  pub Change-Inv : {s s' : MemoryRepoStore} → Inv s → Change s s' → Inv s'
  Change-Inv v (same e) = rw e v
  Change-Inv v (new_repo r fresh unnamed e) = rw e (add_repo-Inv v r fresh unnamed)
  Change-Inv v (archived r now found active e) =
      rw e (put_repo-Inv v r (record r { archived_at = now }) found refl refl refl)
  Change-Inv v (new_token r t of_repo fresh new_hash e) =
      rw e (add_token-Inv v t fresh new_hash (r, of_repo))
  Change-Inv v (revoked t now found active e) =
      rw e (put_token-Inv v t (record t { revoked_at = now }) found refl refl refl refl)
  Change-Inv v (was_used t now found e) =
      rw e (put_token-Inv v t (used now t) found refl refl refl refl)

  -- Every operation keeps the store well formed.
  pub Step-Inv : {w w' : World Files} → Inv w.store → Step w w' → Inv w'.store
  Step-Inv v st = Change-Inv v (Step-Change v st)

  pub Steps-Inv : {w w' : World Files} → Inv w.store → Steps w w' → Inv w'.store
  Steps-Inv v here = v
  Steps-Inv v (next r st) = Step-Inv (Steps-Inv v r) st

  -- In every history of a store that starts empty the four maps agree: repos and tokens stand under
  -- their ids, names and hashes lead to them and back, every token belongs to a stored repo, and no
  -- token's text is stored.
  pub Steps-new-Inv :
      (w w' : World Files) → w.store ≡ new_memory_repo_store → Steps w w' → Inv w'.store
  Steps-new-Inv w w' e st = Steps-Inv (rw e new_memory_repo_store-Inv) st
