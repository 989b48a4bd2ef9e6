-- ===== src/Memory/Revocation.antt =====
-- Revoked tokens and archived repos of `memoryRepoStore` (internal/http/repository.go) over time.
use gitrdone.Common.{
  ◌≡◌, refl, sym, ap, ◌∙◌, subst, ◌≢◌, inl, inr, true, false, none, some, arith, nat_eq, list_eq,
  ==_iff, Bool-cases, ◌==◌,
}
use gitrdone.Common.Int.{eqb_ℤ_iff}
use gitrdone.Common.Dict.{lookup, insert, lookup-insert_self, lookup-insert_ne}
use gitrdone.Memory.Access.{authorize_git_access_iff, used}
use gitrdone.Memory.History.{
  Steps, here, next, Change, same, new_repo, archived, new_token, revoked, was_used, Step-Change,
  Steps-Inv, Change-Inv, archive-Change, revoke-Change,
}
use gitrdone.Memory.Invariant.{Inv}
use gitrdone.Memory.{
  MemoryRepoStore, World, add_token, put_token, put_repo, stored_token, archive_repo, archive_found,
  revoke_repo_token, revoke_found, authorize_git_access,
}
use gitrdone.Repository.{
  RevokeRepoTokenInput, AuthorizeGitAccessInput, GitAccessGrant, RepoRecord, RepoTokenRecord,
  GitStorage,
}
use gitrdone.Result.{
  repo_not_found, repo_archived, repo_token_not_found, ok, err, >>=-eq-ok, guard-eq-ok, or_fail,
  or_fail-eq-ok, ok-injective,
}
use gitrdone.Secrets.{hash_repo_token}
use gitrdone.Text.{Bytes}
use gitrdone.Time.{Time, zero_time, is_zero}

some-injective : {A : Type 0} {a b : A} → some a ≡ some b → a ≡ b
some-injective h = cc

is_zero-eq_false : (t : Time) → t ≢ zero_time → is_zero t ≡ false
unfolding is_zero
is_zero-eq_false t h = elim (Bool-cases (is_zero t)) [
  | inl z ↦ absurd (h ((eqb_ℤ_iff t zero_time).0 z))
  | inr n ↦ n
]

is_zero-zero : is_zero zero_time ≡ true
unfolding is_zero
is_zero-zero = refl

revoke-stored :
    (s s' : MemoryRepoStore) (input : RevokeRepoTokenInput) (now : Time) (t : RepoTokenRecord)
    → Inv s
    → now ≢ zero_time
    → revoke_repo_token input now s ≡ ok (t, s')
    → (lookup t.id s'.tokens ≡ some t) × (is_zero t.revoked_at ≡ false)
unfolding revoke_repo_token
revoke-stored s s' input now t v nz e =
    let (r, _, h) = >>=-eq-ok (or_fail (lookup input.repo_id s.repos) repo_not_found) _ e in
    let (q, looked, k) =
      >>=-eq-ok (or_fail (lookup input.token_id s.tokens) repo_token_not_found) _ h in
    let (_, l) = guard-eq-ok _ repo_token_not_found _ k in
    let found = or_fail-eq-ok (lookup input.token_id s.tokens) repo_token_not_found looked in
    let own = v.token_id input.token_id q found in
    subst
      (λ (o : RepoTokenRecord × MemoryRepoStore).
        (lookup (o.0).id (o.1).tokens ≡ some o.0) × (is_zero (o.0).revoked_at ≡ false))
      (ok-injective l) (found_stored q own found)
  where
    found_stored :
        (q : RepoTokenRecord)
        → q.id ≡ input.token_id
        → lookup input.token_id s.tokens ≡ some q
        → let o = revoke_found q now s in
          (lookup (o.0).id (o.1).tokens ≡ some o.0) × (is_zero (o.0).revoked_at ≡ false)
    found_stored q own found = elim (Bool-cases (is_zero q.revoked_at)) [
      | inl fresh ↦
          rw (fresh, revoke_found)
            (
              lookup-insert_self q.id (record q { revoked_at = now }) s.tokens,
              is_zero-eq_false now nz,
            )
      | inr old ↦ rw (old, revoke_found) (ap (λ i. lookup i s.tokens) own ∙ found, old)
    ]

pub archive-stored :
    (s s' : MemoryRepoStore) (id : Bytes) (now : Time) (r : RepoRecord)
    → Inv s
    → now ≢ zero_time
    → archive_repo id now s ≡ ok (r, s')
    → (r.id ≡ id) × (lookup r.id s'.repos ≡ some r) × (is_zero r.archived_at ≡ false)
unfolding archive_repo
archive-stored s s' id now r v nz e =
    let (q, looked, h) = >>=-eq-ok (or_fail (lookup id s.repos) repo_not_found) _ e in
    let found = or_fail-eq-ok (lookup id s.repos) repo_not_found looked in
    subst
      (λ (o : RepoRecord × MemoryRepoStore).
        ((o.0).id ≡ id)
        × (lookup (o.0).id (o.1).repos ≡ some o.0)
        × (is_zero (o.0).archived_at ≡ false))
      (ok-injective h) (found_stored q (v.repo_id id q found) found)
  where
    found_stored :
        (q : RepoRecord)
        → q.id ≡ id
        → lookup id s.repos ≡ some q
        → let o = archive_found q now s in
          ((o.0).id ≡ id)
          × (lookup (o.0).id (o.1).repos ≡ some o.0)
          × (is_zero (o.0).archived_at ≡ false)
    found_stored q own found = elim (Bool-cases (is_zero q.archived_at)) [
      | inl fresh ↦
          rw (fresh, archive_found)
            (
              own,
              lookup-insert_self q.id (record q { archived_at = now }) s.repos,
              is_zero-eq_false now nz,
            )
      | inr old ↦ rw (old, archive_found) (own, ap (λ i. lookup i s.repos) own ∙ found, old)
    ]

module _ {Files : Type 0} (storage : GitStorage Files) (sha256 : Bytes → Bytes) where
  -- A token that stays: under its id, of its hash and repo, and revoked at the same time, if it was.
  pub record Keeps (t : RepoTokenRecord) (s : MemoryRepoStore) : Type 0 where
    pub now_is : RepoTokenRecord
    pub found : lookup t.id s.tokens ≡ some now_is
    pub same_hash : now_is.token_hash ≡ t.token_hash
    pub same_repo : now_is.repo_id ≡ t.repo_id
    pub stays_revoked : is_zero t.revoked_at ≡ false → now_is.revoked_at ≡ t.revoked_at

  put_token-Keeps :
      (t x q : RepoTokenRecord) (s : MemoryRepoStore)
      → lookup x.id s.tokens ≡ some x
      → q.id ≡ x.id
      → q.token_hash ≡ x.token_hash
      → q.repo_id ≡ x.repo_id
      → (is_zero x.revoked_at ≡ false → q.revoked_at ≡ x.revoked_at)
      → Keeps t s
      → Keeps t (put_token q s)
  put_token-Keeps t x q s found id hash repo stays k = elim (Bool-cases (q.id == t.id)) [
    | inl hit ↦
        let is_t = (==_iff q.id t.id).0 hit in
        let is_x : x ≡ k.now_is =
          some-injective (sym found ∙ ap (λ i. lookup i s.tokens) (sym id ∙ is_t) ∙ k.found) in
        record {
          now_is = q;
          found =
              ap (λ i. lookup i (insert q.id q s.tokens)) (sym is_t)
              ∙ lookup-insert_self q.id q s.tokens;
          same_hash = hash ∙ ap (λ (y : RepoTokenRecord). y.token_hash) is_x ∙ k.same_hash;
          same_repo = repo ∙ ap (λ (y : RepoTokenRecord). y.repo_id) is_x ∙ k.same_repo;
          stays_revoked = λ z.
              let at = ap (λ (y : RepoTokenRecord). y.revoked_at) is_x ∙ k.stays_revoked z in
              stays (ap is_zero at ∙ z) ∙ at;
        }
    | inr miss ↦ record {
      now_is = k.now_is;
      found =
          lookup-insert_ne q.id t.id q s.tokens (λ c. ground (arith, ==_iff q.id t.id)) ∙ k.found;
      same_hash = k.same_hash;
      same_repo = k.same_repo;
      stays_revoked = k.stays_revoked;
    }
  ]

  add_token-Keeps :
      (t x : RepoTokenRecord) (s : MemoryRepoStore)
      → lookup x.id s.tokens ≡ none
      → Keeps t s
      → Keeps t (add_token x s)
  add_token-Keeps t x s fresh k = record {
    now_is = k.now_is;
    found =
        lookup-insert_ne x.id t.id (stored_token x) s.tokens
          (λ c. cc (ap (λ i. lookup i s.tokens) c, k.found))
        ∙ k.found;
    same_hash = k.same_hash;
    same_repo = k.same_repo;
    stays_revoked = k.stays_revoked;
  }

  Change-Keeps :
      {s s' : MemoryRepoStore} (t : RepoTokenRecord)
      → Change storage sha256 s s'
      → Keeps t s
      → Keeps t s'
  Change-Keeps t (same e) k = rw e k
  Change-Keeps t (new_repo r _ _ e) k = rw e (record {
    now_is = k.now_is;
    found = k.found;
    same_hash = k.same_hash;
    same_repo = k.same_repo;
    stays_revoked = k.stays_revoked;
  })
  Change-Keeps t (archived r now _ _ e) k = rw e (record {
    now_is = k.now_is;
    found = k.found;
    same_hash = k.same_hash;
    same_repo = k.same_repo;
    stays_revoked = k.stays_revoked;
  })
  Change-Keeps t (new_token r x _ fresh _ e) k = rw e (add_token-Keeps t x _ fresh k)
  Change-Keeps t (revoked x now found active e) k =
      rw e (put_token-Keeps t x (record x { revoked_at = now }) _ found refl refl refl (λ z. cc) k)
  Change-Keeps t (was_used x now found e) k =
      rw e (put_token-Keeps t x (used now x) _ found refl refl refl (λ _. refl) k)

  Steps-Keeps :
      {w w' : World Files} (t : RepoTokenRecord)
      → Inv w.store
      → Steps storage sha256 w w'
      → Keeps t w.store
      → Keeps t w'.store
  Steps-Keeps t v here k = k
  Steps-Keeps t v (next r st) k =
      Change-Keeps t (Step-Change storage sha256 (Steps-Inv storage sha256 v r) st)
        (Steps-Keeps t v r k)

  -- Once a token is revoked, at a clock reading that is not the zero time, no text of its hash is
  -- granted access any more: not in any later history, at any time, for any repo and operation.
  pub revoke-forever :
      (s : MemoryRepoStore) (w w' : World Files) (input : RevokeRepoTokenInput) (now : Time)
      (t : RepoTokenRecord) (later : AuthorizeGitAccessInput) (at : Time) (files : Files)
      (out : GitAccessGrant × MemoryRepoStore)
      → Inv s
      → now ≢ zero_time
      → revoke_repo_token input now s ≡ ok (t, w.store)
      → Steps storage sha256 w w'
      → hash_repo_token sha256 later.token ≡ t.token_hash
      → authorize_git_access storage sha256 later at files w'.store ≢ ok out
  revoke-forever s w w' input now t later at files out v nz e st same_hash granted =
      let (found, dead) = revoke-stored s w.store input now t v nz e in
      let v1 =
        Change-Inv storage sha256 v (revoke-Change storage sha256 s w.store input now t v e) in
      let k = Steps-Keeps t v1 st (record {
        now_is = t;
        found = found;
        same_hash = refl;
        same_repo = refl;
        stays_revoked = λ _. refl;
      }) in
      let v2 = Steps-Inv storage sha256 v1 st in
      let g =
        (authorize_git_access_iff storage sha256 w'.store later at files out.0 out.1 v2).0
          granted in
      let m = g.may in
      let ids : g.token.id ≡ t.id = some-injective (
        sym (v2.token_hashed g.token.id g.token m.stored)
        ∙ ap (λ h. lookup h (w'.store).token_ids_by_hash) (m.hashed ∙ same_hash ∙ sym k.same_hash)
        ∙ v2.token_hashed t.id k.now_is k.found) in
      let is_t : g.token ≡ k.now_is =
        some-injective (sym m.stored ∙ ap (λ i. lookup i (w'.store).tokens) ids ∙ k.found) in
      let zero : t.revoked_at ≡ zero_time =
        sym (k.stays_revoked dead)
        ∙ ap (λ (x : RepoTokenRecord). x.revoked_at) (sym is_t)
        ∙ m.unrevoked in
      cc (dead, ap is_zero zero, is_zero-zero)

  record IsArchived (id : Bytes) (s : MemoryRepoStore) : Type 0 where
    repo : RepoRecord
    found : lookup id s.repos ≡ some repo
    dead : is_zero repo.archived_at ≡ false

  put_repo-IsArchived :
      (id : Bytes) (x : RepoRecord) (now : Time) (s : MemoryRepoStore)
      → lookup x.id s.repos ≡ some x
      → is_zero x.archived_at ≡ true
      → IsArchived id s
      → IsArchived id (put_repo (record x { archived_at = now }) s)
  put_repo-IsArchived id x now s found active a = record {
    repo = a.repo;
    found =
        lookup-insert_ne x.id id (record x { archived_at = now }) s.repos
          (λ c.
            let is_x = some-injective (sym found ∙ ap (λ i. lookup i s.repos) c ∙ a.found) in
            cc (active, a.dead, ap (λ (y : RepoRecord). is_zero y.archived_at) is_x))
        ∙ a.found;
    dead = a.dead;
  }

  Change-IsArchived :
      {s s' : MemoryRepoStore} (id : Bytes)
      → Change storage sha256 s s'
      → IsArchived id s
      → IsArchived id s'
  Change-IsArchived id (same e) a = rw e a
  Change-IsArchived {s} id (new_repo r fresh _ e) a = rw e (record {
    repo = a.repo;
    found =
        lookup-insert_ne r.id id r s.repos (λ c. cc (ap (λ i. lookup i s.repos) c, a.found, fresh))
        ∙ a.found;
    dead = a.dead;
  })
  Change-IsArchived id (archived r now found active e) a =
      rw e (put_repo-IsArchived id r now _ found active a)
  Change-IsArchived id (new_token _ _ _ _ _ e) a =
      rw e (record { repo = a.repo; found = a.found; dead = a.dead })
  Change-IsArchived id (revoked _ _ _ _ e) a =
      rw e (record { repo = a.repo; found = a.found; dead = a.dead })
  Change-IsArchived id (was_used _ _ _ e) a =
      rw e (record { repo = a.repo; found = a.found; dead = a.dead })

  Steps-IsArchived :
      {w w' : World Files} (id : Bytes)
      → Inv w.store
      → Steps storage sha256 w w'
      → IsArchived id w.store
      → IsArchived id w'.store
  Steps-IsArchived id v here a = a
  Steps-IsArchived id v (next r st) a =
      Change-IsArchived id (Step-Change storage sha256 (Steps-Inv storage sha256 v r) st)
        (Steps-IsArchived id v r a)

  IsArchived-refused :
      (s : MemoryRepoStore) (later : AuthorizeGitAccessInput) (at : Time) (files : Files)
      → IsArchived later.repo_id s
      → authorize_git_access storage sha256 later at files s ≡ err repo_archived
  unfolding authorize_git_access
  IsArchived-refused s later at files a = rw (a.found, a.dead) refl

  -- Once a repo is archived, at a clock reading that is not the zero time, every request for access
  -- to it is refused as archived, in every later history and whatever token it presents.
  pub archive-forever :
      (s : MemoryRepoStore) (w w' : World Files) (id : Bytes) (now : Time) (r : RepoRecord)
      (later : AuthorizeGitAccessInput) (at : Time) (files : Files)
      → Inv s
      → now ≢ zero_time
      → archive_repo id now s ≡ ok (r, w.store)
      → Steps storage sha256 w w'
      → later.repo_id ≡ id
      → authorize_git_access storage sha256 later at files w'.store ≡ err repo_archived
  archive-forever s w w' id now r later at files v nz e st own =
      let (is_id, found, dead) = archive-stored s w.store id now r v nz e in
      let v1 = Change-Inv storage sha256 v (archive-Change storage sha256 s w.store id now r v e) in
      IsArchived-refused w'.store later at files (
        Steps-IsArchived later.repo_id v1 st (record {
          repo = r;
          found = ap (λ i. lookup i (w.store).repos) (own ∙ sym is_id) ∙ found;
          dead = dead;
        }))
